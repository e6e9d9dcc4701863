-- ===== src/Ftp/Threads/Closing.antt =====
-- How the server of tp3_ftp_multiclient_server/common_server.cpp stops: close_all_sockets and stop.
pub mod Quitting
use programming_workshop.Common.{
  ℕ, zero, suc, ◌+◌, ◌≤◌, ◌≡◌, ◌≢◌, refl, sym, ◌∙◌, ap, inl, inr, Bool, true, false, Option, none,
  some, List, [], ◌∷◌, arith, if◌then◌else◌, ◌==◌, Bool-cases, Option-cases, length, get_elem?, set,
  get_elem?-map, get_elem?-set_ne, get_elem?-set_self, All,
}
use programming_workshop.Sudoku.Socket.{Arrival}
use programming_workshop.Ftp.Result.{Result, returned, threw, unfinished, Act, continue, ◌>>=◌}
use programming_workshop.Ftp.Socket.{same_socket, error_shutdown}
use programming_workshop.Ftp.Threads.{
  Phase, greeting, serving, ended, joined, Thread, Pointer, Attended, ServerState, find_thread,
  join, close_thread, shutdown_socket, pop_last, close_all_loop, close_all_sockets, stop,
}
use programming_workshop.Ftp.Threads.Pointers.{points, points_back}
use programming_workshop.Ftp.Threads.Sound.Same.{cut, closing, joining}

abbrev pub IsOver : Phase → Type 0
IsOver ended = Unit {0}
IsOver joined = Unit {0}
IsOver _ = ⊥

-- The client's pointer is valid, and its thread has ended.
abbrev pub Closes : ServerState → Attended → Type 0
Closes w a = (t : Thread) × (find_thread a.thread w ≡ some t) × IsOver t.phase

-- Such clients stay so from the one state to the other, and the server goes on as it did.
pub record IsLater (w w' : ServerState) : Type 0 where
  pub closes : (a : Attended) → Closes w a → Closes w' a
  pub running : w'.is_running ≡ w.is_running
  pub directories : w'.directories ≡ w.directories

cut_phase :
    (shut : List Arrival → List Arrival) (a : Attended) (t : Thread)
    → IsOver t.phase
    → IsOver (cut shut a t).phase
cut_phase shut a t h = elim (Bool-cases (same_socket t.client.socket_id a.client.socket_id)) [
  | inl y ↦ rw y h
  | inr n ↦ rw n h
]

shutdown_socket-IsLater :
    (shut : List Arrival → List Arrival) (a : Attended) (w : ServerState)
    → IsLater w (shutdown_socket shut a w)
unfolding shutdown_socket
shutdown_socket-IsLater shut a w = record {
  closes = λ b (t, e, over).
      let (s, k) = points_back w b t e in
      (
        cut shut a t,
        points (shutdown_socket shut a w) b (cut shut a t) s
            (get_elem?-map (cut shut a) w.threads b.thread.index t k),
        cut_phase shut a t over,
      );
  running = refl;
  directories = refl;
}

get-within : (ts : List Thread) (i : ℕ) (t : Thread) → get_elem? ts i ≡ some t → suc i ≤ length ts
get-within [] i t h = absurd (ground (arith, h))
get-within (u ∷ ts) zero t h = omega arith
get-within (u ∷ ts) (suc i) t h = omega (arith, get-within ts i t h)

-- A thread that is joined is still one that has ended.
set-IsLater :
    (w : ServerState) (i : ℕ) (t : Thread)
    → get_elem? w.threads i ≡ some t
    → IsLater w (record w { threads = set w.threads i (record t { phase = joined }) })
set-IsLater w i t at =
    let t' : Thread = record t { phase = joined } in
    let w' : ServerState = record w { threads = set w.threads i t' } in
    record {
      closes = λ b (u, e, over).
          let (s, k) = points_back w b u e in
          elim (Bool-cases (b.thread.index == i)) [
            | inl y ↦
                (let same : b.thread.index ≡ i = ground (arith, y) in
                  (
                    t',
                    points w' b t' s (
                        ap (get_elem? w'.threads) same
                        ∙ get_elem?-set_self w.threads i t' (get-within w.threads i t at)),
                    tt {0},
                  ))
            | inr n ↦ (
              u,
              points w' b u s
                  (get_elem?-set_ne w.threads i b.thread.index t' (λ z. ground (arith, n, z)) ∙ k),
              over,
            )
          ];
      running = refl;
      directories = refl;
    }

joining_lem :
    (phase : Phase) (i : ℕ) (t : Thread) (w : ServerState)
    → get_elem? w.threads i ≡ some t
    → IsOver phase
    → (w' : ServerState) × (joining phase i t w ≡ returned tt w')
      × (w'.clients ≡ w.clients)
      × IsLater w w'
joining_lem greeting i t w at over = absurd over
joining_lem serving i t w at over = absurd over
joining_lem joined i t w at over =
    (w, refl, refl, record { closes = λ b c. c; running = refl; directories = refl })
joining_lem ended i t w at over = (
  record w { threads = set w.threads i (record t { phase = joined }) },
  refl,
  refl,
  set-IsLater w i t at,
)

close_thread_lem :
    (a : Attended) (w : ServerState)
    → Closes w a
    → (w' : ServerState) × (close_thread a w ≡ returned tt w')
      × (w'.clients ≡ w.clients)
      × IsLater w w'
unfolding close_thread
close_thread_lem a w (t, e, over) =
    let (w', r, same, later) =
      joining_lem t.phase a.thread.index t w (points_back w a t e).1 over in
    (w', ap (λ o. closing o a w) e ∙ r, same, later)

-- The last client and those before it.
pop_last_lem :
    (P : Attended → Type 0) (a : Attended) (later : List Attended)
    → All P (a ∷ later)
    → (rest : List Attended) × (b : Attended) × (pop_last (a ∷ later) ≡ some (rest, b))
      × P b
      × All P rest
      × (length (a ∷ later) ≡ suc (length rest))
unfolding pop_last
pop_last_lem P a [] h = ([], a, refl, h.0, tt {0}, refl)
pop_last_lem P a (c ∷ later) h =
    let (rest, b, e, p, ps, n) = pop_last_lem P c later h.1 in
    (a ∷ rest, b, rw e refl, p, (h.0, ps), ap suc n)

All-later :
    (w w' : ServerState) (clients : List Attended)
    → IsLater w w'
    → All (Closes w) clients
    → All (Closes w') clients
All-later w w' [] l h = tt {0}
All-later w w' (a ∷ later) l h = (l.closes a h.0, All-later w w' later l h.1)

IsLater-trans : (w v u : ServerState) → IsLater w v → IsLater v u → IsLater w u
IsLater-trans w v u a b = record {
  closes = λ c h. b.closes c (a.closes c h);
  running = b.running ∙ a.running;
  directories = b.directories ∙ a.directories;
}

close_all_loop-zero :
    (shut : List Arrival → List Arrival) (w : ServerState)
    → w.clients ≡ []
    → close_all_loop zero shut w ≡ returned tt w
unfolding close_all_loop pop_last
close_all_loop-zero shut w h = rw (close_all_loop, ap pop_last h) refl

close_all_loop_lem :
    (fuel : ℕ) (shut : List Arrival → List Arrival) (clients : List Attended) (w : ServerState)
    → w.clients ≡ clients
    → length clients ≤ fuel
    → All (Closes w) clients
    → (w' : ServerState) × (close_all_loop fuel shut w ≡ returned tt w')
      × (w'.clients ≡ [])
      × IsLater w w'
unfolding close_all_loop pop_last shutdown_socket
close_all_loop_lem zero shut [] w e n h = (
  w,
  close_all_loop-zero shut w e,
  e,
  record { closes = λ b c. c; running = refl; directories = refl },
)
close_all_loop_lem (suc fuel) shut [] w e n h = (
  w,
  rw (close_all_loop, ap pop_last e) refl,
  e,
  record { closes = λ b c. c; running = refl; directories = refl },
)
close_all_loop_lem zero shut (a ∷ later) w e n h = absurd (ground (arith, n))
close_all_loop_lem (suc fuel) shut (a ∷ later) w e n h =
    let (rest, b, last, over, others, m) = pop_last_lem (Closes w) a later h in
    let w1 : ServerState = shutdown_socket shut b w in
    let shut_later : IsLater w w1 = shutdown_socket-IsLater shut b w in
    let (w2, r, same, joined_later) = close_thread_lem b w1 (shut_later.closes b over) in
    let both : IsLater w w2 = IsLater-trans w w1 w2 shut_later joined_later in
    let w3 : ServerState = record w2 { clients = rest } in
    let on : IsLater w w3 = record {
      closes = both.closes;
      running = both.running;
      directories = both.directories;
    } in
    let (w', r', empty, end_later) =
      close_all_loop_lem fuel shut rest w3 refl (ground (arith, n, m))
        (All-later w w3 rest on others) in
    (
      w',
      rw (close_all_loop, ap pop_last e ∙ last)
          (ap (continue (λ u v. close_all_loop fuel shut (record v { clients = rest }))) r ∙ r'),
      empty,
      IsLater-trans w w3 w' on end_later,
    )

pub close_all_sockets-none :
    (shut : List Arrival → List Arrival) (w : ServerState)
    → w.clients ≡ []
    → close_all_sockets shut w ≡ returned tt w
unfolding close_all_sockets
close_all_sockets-none shut w h =
    ap (λ l. close_all_loop (length l) shut w) h ∙ close_all_loop-zero shut w h

-- How `stop` ends, as `down` says whether shutdown() of the acceptor's socket succeeds.
abbrev pub stopped : Bool → ServerState → Result ServerState Unit
stopped down w = if down then returned tt w else threw error_shutdown w

-- If every client's pointer is valid and its thread has ended, `stop` returns, or throws if shutdown() of the
-- acceptor's socket fails, and behind it no client is left in the list, the server does not run, and the
-- directories are as before.
pub stop_lem :
    (shut : List Arrival → List Arrival) (down : Bool) (w : ServerState)
    → All (Closes w) w.clients
    → (w' : ServerState) × (stop shut down w ≡ stopped down w')
      × (w'.clients ≡ [])
      × (w'.is_running ≡ false)
      × (w'.directories ≡ w.directories)
unfolding stop close_all_sockets
stop_lem shut down w h =
    let (w', r, empty, later) =
      close_all_loop_lem (length w.clients) shut w.clients w refl (omega arith) h in
    (
      record w' { is_running = false },
      ap (continue (λ (u : Unit {0}) v. stopped down (record v { is_running = false }))) r,
      empty,
      refl,
      later.directories,
    )
