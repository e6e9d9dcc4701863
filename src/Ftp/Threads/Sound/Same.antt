-- ===== src/Ftp/Threads/Sound/Same.antt =====
-- What a step of the acceptor or of `close_all_sockets` in tp3_ftp_multiclient_server/common_server.cpp
-- leaves as it is.
use programming_workshop.Common.{
  ℕ, ◌+◌, ◌≡◌, refl, sym, ◌∙◌, ap, inl, inr, Bool, false, Option, none, some, List, [], ◌∷◌, ◌++◌,
  arith, if◌then◌else◌, ◌==◌, Bool-cases, Option-cases, length, get_elem?, set, All, All-append,
}
use programming_workshop.Common.Int.{ℤ}
use programming_workshop.Sudoku.Socket.{Arrival, Outcome}
use programming_workshop.Ftp.Result.{returned, Act, faulted, unfinished}
use programming_workshop.Ftp.Directories.{contains}
use programming_workshop.Ftp.Config.{ConfigMap}
use programming_workshop.Ftp.Connection.{Client}
use programming_workshop.Ftp.Socket.{same_socket}
use programming_workshop.Ftp.Threads.{
  Phase, greeting, serving, ended, joined, Thread, Attended, ServerState, new_client, is_accepted,
  emplace_back, find_thread, join, close_dead_sockets, pop_last, close_thread, shutdown_socket,
  accept_client,
}
use programming_workshop.Ftp.Threads.Sound.{
  any_logged, IsAlive, IsSound, any_logged-append, any_logged-set_same, any_logged-map,
}

-- No client is dead, and nothing is closed.
pub close_dead_sockets_lem :
    (shut : List Arrival → List Arrival) (clients : List Attended) (w : ServerState)
    → All IsAlive clients
    → close_dead_sockets shut clients w ≡ returned tt w
unfolding close_dead_sockets
close_dead_sockets_lem shut [] w h = refl
close_dead_sockets_lem shut (a ∷ later) w h = rw h.0 (close_dead_sockets_lem shut later w h.1)

-- What a step may change, as far as it matters here.
pub record IsSame (w w' : ServerState) : Type 0 where
  pub directories : w'.directories ≡ w.directories
  pub logged : any_logged w'.threads ≡ any_logged w.threads
  pub clients : All IsAlive w.clients → All IsAlive w'.clients

pub same-IsSound :
    (cfg : ConfigMap) (w w' : ServerState) → IsSame w w' → IsSound cfg w → IsSound cfg w'
same-IsSound cfg w w' e s = record {
  ordered = rw e.directories s.ordered;
  named = ap (contains []) e.directories ∙ s.named;
  earned = elim s.earned [
    | inl none_there ↦ inl (e.directories ∙ none_there)
    | inr l ↦ inr (e.logged ∙ l)
  ];
  login = λ l. s.login (sym e.logged ∙ l);
  clients_alive = e.clients s.clients_alive;
}

emplace_back-IsSame :
    (grow : ℕ → ℕ) (t : Thread) (w : ServerState)
    → t.client.logged ≡ false
    → IsSame w (emplace_back grow t w)
unfolding emplace_back
emplace_back-IsSame grow t w h = elim (Bool-cases (200 + length w.threads == w.capacity)) [
  | inl full ↦
      rw full
        (record { directories = refl; logged = any_logged-append w.threads t h; clients = λ a. a })
  | inr room ↦
      rw room
        (record { directories = refl; logged = any_logged-append w.threads t h; clients = λ a. a })
]

moved-IsSame : (w v w' : ServerState) → IsSame w v → v ≡ w' → IsSame w w'
moved-IsSame w v w' e p = record {
  directories = ap (λ x. x.directories) (sym p) ∙ e.directories;
  logged = ap (λ x. any_logged x.threads) (sym p) ∙ e.logged;
  clients = λ a. rw (sym (ap (λ x. x.clients) p)) (e.clients a);
}

pub accept_client-IsSame :
    (grow : ℕ → ℕ) (shut : List Arrival → List Arrival) (socket_id : ℤ) (arrivals : List Arrival)
    (outcomes : List Outcome) (w w' : ServerState)
    → All IsAlive w.clients
    → accept_client grow shut socket_id arrivals outcomes w ≡ returned tt w'
    → IsSame w w'
unfolding accept_client
accept_client-IsSame grow shut socket_id arrivals outcomes w w' alive h =
    let client : Client = new_client socket_id in
    let t : Thread = record {
      client = client;
      arrivals = arrivals;
      outcomes = outcomes;
      sent = [];
      phase = greeting;
    } in
    let w1 : ServerState = emplace_back grow t w in
    let attended : Attended = record {
      client = client;
      thread = record { storage = w1.storage; index = length w.threads };
    } in
    let clients' : List Attended = w.clients ++ (attended ∷ []) in
    let all_alive : All IsAlive clients' =
      All-append IsAlive w.clients (attended ∷ []) alive (refl, tt {0}) in
    let w2 : ServerState = record w1 { clients = clients' } in
    let run = λ (b : Bool). if b then close_dead_sockets shut clients' w2 else returned tt w in
    let first = emplace_back-IsSame grow t w refl in
    elim (Bool-cases (is_accepted client)) [
      | inl y ↦
          (let e : returned tt w2 ≡ returned tt w' =
              sym (close_dead_sockets_lem shut clients' w2 all_alive) ∙ ap run (sym y) ∙ h in
            moved-IsSame w w2 w'
              (record {
                directories = first.directories;
                logged = first.logged;
                clients = λ a. all_alive;
              })
              (ground (arith, e)))
      | inr n ↦
          (let e : returned tt w ≡ returned tt w' = ap run (sym n) ∙ h in
            moved-IsSame w w w' (record { directories = refl; logged = refl; clients = λ a. a })
              (ground (arith, e)))
    ]

-- What shutdown_socket does to a thread.
abbrev pub cut : (List Arrival → List Arrival) → Attended → Thread → Thread
cut shut a t =
    if same_socket t.client.socket_id a.client.socket_id
    then record t { arrivals = shut t.arrivals }
    else t

cut_client :
    (shut : List Arrival → List Arrival) (a : Attended) (t : Thread)
    → (cut shut a t).client.logged ≡ t.client.logged
cut_client shut a t = elim (Bool-cases (same_socket t.client.socket_id a.client.socket_id)) [
  | inl y ↦ rw y refl
  | inr n ↦ rw n refl
]

pub shutdown_socket-IsSame :
    (shut : List Arrival → List Arrival) (a : Attended) (w : ServerState)
    → IsSame w (shutdown_socket shut a w)
unfolding shutdown_socket
shutdown_socket-IsSame shut a w = record {
  directories = refl;
  logged = any_logged-map (cut shut a) w.threads (λ t. cut_client shut a t);
  clients = λ h. h;
}

pub pop_last-IsAlive :
    (clients rest : List Attended) (a : Attended)
    → pop_last clients ≡ some (rest, a)
    → All IsAlive clients
    → All IsAlive rest
unfolding pop_last
pop_last-IsAlive [] rest a h alive = absurd (ground (arith, h))
pop_last-IsAlive (b ∷ later) rest a h alive = elim (Option-cases (pop_last later)) [
  | inl n ↦
      (let e : some ([], b) ≡ some (rest, a) = rw n at h in
        let empty : [] ≡ rest = ground (arith, e) in rw (sym empty) (tt {0}))
  | inr ((rest', c), k) ↦
      (let e : some (b ∷ rest', c) ≡ some (rest, a) = rw k at h in
        let cons : b ∷ rest' ≡ rest = ground (arith, e) in
        rw (sym cons) (alive.0, pop_last-IsAlive later rest' c k alive.1))
]

-- join() by the phase of the thread.
abbrev pub joining : Phase → ℕ → Thread → Act ServerState Unit
joining phase i t w = elim phase [
  | joined ↦ returned tt w
  | ended ↦ returned tt (record w { threads = set w.threads i (record t { phase = joined }) })
  | _ ↦ unfinished
]

joining-IsSame :
    (phase : Phase) (i : ℕ) (t : Thread) (w w' : ServerState)
    → get_elem? w.threads i ≡ some t
    → joining phase i t w ≡ returned tt w'
    → IsSame w w'
joining-IsSame greeting i t w w' at h = absurd (ground (arith, h))
joining-IsSame serving i t w w' at h = absurd (ground (arith, h))
joining-IsSame joined i t w w' at h =
    moved-IsSame w w w' (record { directories = refl; logged = refl; clients = λ a. a })
      (ground (arith, h))
joining-IsSame ended i t w w' at h =
    let t' : Thread = record t { phase = joined } in
    moved-IsSame w (record w { threads = set w.threads i t' }) w'
      (record {
        directories = refl;
        logged = any_logged-set_same w.threads i t t' at refl;
        clients = λ a. a;
      })
      (ground (arith, h))

-- What `close_thread` does with the thread that the pointer points to.
abbrev pub closing : Option Thread → Attended → Act ServerState Unit
closing o a w = elim o [ none ↦ faulted | some t ↦ join a.thread.index t w ]

pub close_thread-IsSame :
    (a : Attended) (w w' : ServerState) → close_thread a w ≡ returned tt w' → IsSame w w'
unfolding close_thread find_thread
close_thread-IsSame a w w' h =
    let look = λ (b : Bool). if b then get_elem? w.threads a.thread.index else none in
    let run = λ (o : Option Thread). closing o a w in
    elim (Bool-cases (a.thread.storage == w.storage)) [
      | inr f ↦ absurd (ground (arith, ap run (ap look (sym f)) ∙ h))
      | inl y ↦ elim (Option-cases (get_elem? w.threads a.thread.index)) [
        | inl n ↦ absurd (ground (arith, ap run (sym (ap look y ∙ n)) ∙ h))
        | inr (t, e) ↦
            joining-IsSame t.phase a.thread.index t w w' e (ap run (sym (ap look y ∙ e)) ∙ h)
      ]
    ]
