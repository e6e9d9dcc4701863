-- ===== src/Ftp/Threads/Pointers.antt =====
-- The pointers to threads that `save_thread` keeps in tp3_ftp_multiclient_server, and the growth of the
-- vector that they point into.
use programming_workshop.Common.{
  ℕ, suc, ◌+◌, ◌≤◌, ◌≡◌, ◌≢◌, refl, sym, ◌∙◌, ap, ◌⊎◌, inl, inr, Bool, true, false, none, some,
  List, [], ◌∷◌, ◌++◌, arith, if◌then◌else◌, ◌==◌, Bool-cases, length, get_elem?, get_elem?-append,
  get_elem?-last, All, All-append,
}
use programming_workshop.Common.Int.{ℤ}
use programming_workshop.Sudoku.Socket.{Arrival, Outcome}
use programming_workshop.Ftp.Result.{returned, faulted}
use programming_workshop.Ftp.Threads.{
  greeting, Thread, Attended, ServerState, new_client, is_accepted, emplace_back, find_thread,
  close_dead_sockets, close_thread, accept_client,
}
use programming_workshop.Ftp.Threads.Sound.{IsAlive}
use programming_workshop.Ftp.Threads.Sound.Same.{close_dead_sockets_lem}

-- The pointer points to a thread.
abbrev pub Points : ServerState → Attended → Type 0
Points w a = (t : Thread) × find_thread a.thread w ≡ some t

-- A thread that has not run, and the element of the list for it.
abbrev pub fresh : ℤ → List Arrival → List Outcome → Thread
fresh socket_id arrivals outcomes = record {
  client = new_client socket_id;
  arrivals = arrivals;
  outcomes = outcomes;
  sent = [];
  phase = greeting;
}

abbrev attended : ℤ → ServerState → ServerState → Attended
attended socket_id w w1 = record {
  client = new_client socket_id;
  thread = record { storage = w1.storage; index = length w.threads };
}

-- The state behind the acceptance of a client.
abbrev pub accepted : (ℕ → ℕ) → ℤ → List Arrival → List Outcome → ServerState → ServerState
accepted grow socket_id arrivals outcomes w =
    let w1 : ServerState = emplace_back grow (fresh socket_id arrivals outcomes) w in
    record w1 { clients = w.clients ++ (attended socket_id w w1 ∷ []) }

pub accept_client_lem :
    (grow : ℕ → ℕ) (shut : List Arrival → List Arrival) (socket_id : ℤ) (arrivals : List Arrival)
    (outcomes : List Outcome) (w : ServerState)
    → All IsAlive w.clients
    → is_accepted (new_client socket_id) ≡ true
    → accept_client grow shut socket_id arrivals outcomes w
      ≡ returned tt (accepted grow socket_id arrivals outcomes w)
unfolding accept_client
accept_client_lem grow shut socket_id arrivals outcomes w alive h =
    let w2 : ServerState = accepted grow socket_id arrivals outcomes w in
    ap (λ b. if b then close_dead_sockets shut w2.clients w2 else returned tt w) h
    ∙ close_dead_sockets_lem shut w2.clients w2 (
        All-append IsAlive w.clients
          (attended socket_id w (emplace_back grow (fresh socket_id arrivals outcomes) w) ∷ [])
          alive (refl, tt {0}))

-- A pointer by its two parts.
pub points :
    (w : ServerState) (a : Attended) (t : Thread)
    → a.thread.storage ≡ w.storage
    → get_elem? w.threads a.thread.index ≡ some t
    → find_thread a.thread w ≡ some t
unfolding find_thread
points w a t s h =
    let same : (a.thread.storage == w.storage) ≡ true = ground (arith, s) in
    ap (λ b. if b then get_elem? w.threads a.thread.index else none) same ∙ h

pub points_back :
    (w : ServerState) (a : Attended) (t : Thread)
    → find_thread a.thread w ≡ some t
    → (a.thread.storage ≡ w.storage) × (get_elem? w.threads a.thread.index ≡ some t)
unfolding find_thread
points_back w a t h =
    let look = λ (b : Bool). if b then get_elem? w.threads a.thread.index else none in
    elim (Bool-cases (a.thread.storage == w.storage)) [
      | inl y ↦ (ground (arith, y), ap look (sym y) ∙ h)
      | inr n ↦ absurd (ground (arith, ap look (sym n) ∙ h))
    ]

-- The vector has room, and stays where it is.
pub stays :
    (grow : ℕ → ℕ) (t : Thread) (w : ServerState)
    → (200 + length w.threads) ≢ w.capacity
    → emplace_back grow t w ≡ record w { threads = w.threads ++ t ∷ [] }
unfolding emplace_back
stays grow t w room =
    let no_growth : (200 + length w.threads == w.capacity) ≡ false = ground arith in
    rw no_growth refl

Points-append :
    (clients : List Attended) (w : ServerState) (t : Thread)
    → All (Points w) clients
    → All (Points (record w { threads = w.threads ++ t ∷ [] })) clients
Points-append [] w t h = tt {0}
Points-append (a ∷ later) w t h =
    let (u, e) = h.0 in
    let (s, k) = points_back w a u e in
    (
      (
        u,
        points (record w { threads = w.threads ++ t ∷ [] }) a u s
            (get_elem?-append w.threads (t ∷ []) a.thread.index u k),
      ),
      Points-append later w t h.1,
    )

-- The vector is full, and moves.
pub moves :
    (grow : ℕ → ℕ) (t : Thread) (w : ServerState)
    → 200 + length w.threads ≡ w.capacity
    → emplace_back grow t w ≡ record w {
      threads = w.threads ++ t ∷ [];
      capacity = grow w.capacity;
      storage = suc w.storage;
    }
unfolding emplace_back
moves grow t w full =
    let growth : (200 + length w.threads == w.capacity) ≡ true = ground (arith, full) in
    rw growth refl

-- The pointers of all clients, the new one included, if they are valid in the state of the vector.
append-Points :
    (w w1 : ServerState) (socket_id : ℤ) (t : Thread)
    → All (Points w1) w.clients
    → w1.threads ≡ w.threads ++ t ∷ []
    → All (Points w1) (w.clients ++ (attended socket_id w w1 ∷ []))
append-Points w w1 socket_id t h e =
    All-append (Points w1) w.clients (attended socket_id w w1 ∷ []) h (
      (
        t,
        points w1 (attended socket_id w w1) t refl
            (ap (λ ts. get_elem? ts (length w.threads)) e ∙ get_elem?-last w.threads t),
      ),
      tt {0},
    )

-- While the list of clients has only valid pointers and marks no client as dead: if accept() returns a
-- connection and the vector of threads has room, or the client is the first in the list, the acceptor's
-- round returns, and all pointers are valid, the new one included.
pub accept_client-Points :
    (grow : ℕ → ℕ) (shut : List Arrival → List Arrival) (socket_id : ℤ) (arrivals : List Arrival)
    (outcomes : List Outcome) (w : ServerState)
    → All IsAlive w.clients
    → All (Points w) w.clients
    → is_accepted (new_client socket_id) ≡ true
    → ((200 + length w.threads) ≢ w.capacity) ⊎ (w.clients ≡ [])
    → (w' : ServerState) × (accept_client grow shut socket_id arrivals outcomes w ≡ returned tt w')
      × All (Points w') w'.clients
unfolding find_thread
accept_client-Points grow shut socket_id arrivals outcomes w alive valid is_one room =
    let t : Thread = fresh socket_id arrivals outcomes in
    (
      accepted grow socket_id arrivals outcomes w,
      accept_client_lem grow shut socket_id arrivals outcomes w alive is_one,
      elim (Bool-cases (200 + length w.threads == w.capacity)) [
        | inr n ↦ rw (stays grow t w (λ e. ground (arith, n, e))) (
            append-Points w (record w { threads = w.threads ++ t ∷ [] }) socket_id t
              (Points-append w.clients w t valid) refl)
        | inl y ↦ elim room [
          | inl some_room ↦ absurd (some_room (ground (arith, y)))
          | inr first ↦ rw (moves grow t w (ground (arith, y))) (
              append-Points w
                (record w {
                  threads = w.threads ++ t ∷ [];
                  capacity = grow w.capacity;
                  storage = suc w.storage;
                })
                socket_id t (rw first (tt {0})) refl)
        ]
      ],
    )

-- A connection that comes while the vector of threads is full, if no client of the list is marked as
-- dead: the acceptor's round returns, but a pointer of before, into the storage of then or an earlier one,
-- dangles, and to close the thread of its client is undefined.
pub accept_client-dangling :
    (grow : ℕ → ℕ) (shut : List Arrival → List Arrival) (socket_id : ℤ) (arrivals : List Arrival)
    (outcomes : List Outcome) (w : ServerState) (a : Attended)
    → All IsAlive w.clients
    → is_accepted (new_client socket_id) ≡ true
    → 200 + length w.threads ≡ w.capacity
    → a.thread.storage ≤ w.storage
    → (w' : ServerState) × (accept_client grow shut socket_id arrivals outcomes w ≡ returned tt w')
      × (close_thread a w' ≡ faulted)
unfolding close_thread find_thread
accept_client-dangling grow shut socket_id arrivals outcomes w a alive is_one full old =
    let gone : (a.thread.storage == suc w.storage) ≡ false = ground (arith, old) in
    (
      accepted grow socket_id arrivals outcomes w,
      accept_client_lem grow shut socket_id arrivals outcomes w alive is_one,
      rw (moves grow (fresh socket_id arrivals outcomes) w full)
          (rw (close_thread, find_thread, gone) refl),
    )
