-- ===== src/Ftp/Threads/Waiting.antt =====
-- A client of tp3_ftp_multiclient_server that stays connected and sends no further line.
pub mod Forever
use mathlib.Core.List.{append-nil}
use programming_workshop.Common.{
  ℕ, zero, suc, ◌+◌, ◌≡◌, ◌≢◌, refl, sym, ◌∙◌, ap, inl, inr, Bool, true, false, Option, none, some,
  List, [], ◌∷◌, ◌++◌, map, arith, if◌then◌else◌, ◌==◌, Bool-cases, Option-cases, ℕ_discrete, Bytes,
  ltb, length, get_elem?, get_elem?-append, get_elem?-last, get_elem?-map, set, get_elem?-set_ne,
  get_elem?-set_self, All,
}
use programming_workshop.Common.Int.{ℤ}
use programming_workshop.Sudoku.Socket.{Arrival, Outcome}
use programming_workshop.Ftp.Result.{Result, returned, faulted, unfinished, Act, continue}
use programming_workshop.Ftp.Config.{ConfigMap}
use programming_workshop.Ftp.Connection.{Client, Session, receive_string}
use programming_workshop.Ftp.Connection.Lines.{NoNewline, receive_string-unfinished}
use programming_workshop.Ftp.Server.{set_client, respond_query, client_round}
use programming_workshop.Ftp.Socket.{same_socket}
use programming_workshop.Ftp.Threads.{
  Phase, greeting, serving, ended, joined, Thread, Pointer, Attended, ServerState, new_client,
  is_accepted, emplace_back, find_thread, join, close_dead_sockets, close_thread, shutdown_socket,
  accept_client, after, thread_round, session_of, resumed,
}
use programming_workshop.Ftp.Threads.Pointers.{
  Points, accepted, fresh, accept_client_lem, points_back, points, stays, moves,
}
use programming_workshop.Ftp.Threads.Sound.{IsSound, IsAlive}
use programming_workshop.Ftp.Threads.Sound.Same.{cut, closing, joining}
use programming_workshop.Ftp.Threads.Sound.Reached.{Step-IsSound}
use programming_workshop.Ftp.Threads.Steps.{
  Step, accepts_client, runs, shuts, joins, stops, Reach, here, next,
}

-- The thread waits for a line whose newline never comes.
pub record IsWaiting (t : Thread) : Type 0 where
  pub serves : t.phase ≡ serving
  pub stays : t.client.quit ≡ false
  pub silent : NoNewline t.arrivals

abbrev pub WaitsAt : ℕ → ServerState → Type 0
WaitsAt i w = (t : Thread) × (get_elem? w.threads i ≡ some t) × IsWaiting t

client_round-unfinished :
    (line : ℕ) (cfg : ConfigMap) (s : Session)
    → NoNewline s.arrivals
    → client_round line cfg s ≡ unfinished
unfolding client_round
client_round-unfinished line cfg s h =
    ap
      (continue (λ q.
        if ltb 1 (length q)
        then respond_query cfg q
        else set_client (λ c. record c { quit = true })))
      (receive_string-unfinished line s h)

-- The thread that waits has no round.
pub no_round :
    (line : ℕ) (cfg : ConfigMap) (t : Thread) (w : ServerState)
    → IsWaiting t
    → thread_round line cfg t.phase (session_of w t) ≡ none
unfolding thread_round
no_round line cfg t w h =
    ap (λ p. thread_round line cfg p (session_of w t)) h.serves
    ∙ ap
        (λ b.
          if b
          then some (ended, session_of w t)
          else after (client_round line cfg (session_of w t)))
        h.stays
    ∙ ap after (client_round-unfinished line cfg (session_of w t) h.silent)

emplace_back-threads :
    (grow : ℕ → ℕ) (t : Thread) (w : ServerState)
    → (emplace_back grow t w).threads ≡ w.threads ++ t ∷ []
emplace_back-threads grow t w = elim (Bool-cases (200 + length w.threads == w.capacity)) [
  | inl y ↦ ap (λ x. x.threads) (moves grow t w (ground (arith, y)))
  | inr n ↦ ap (λ x. x.threads) (stays grow t w (λ e. ground (arith, n, e)))
]

pub accept_client-threads :
    (grow : ℕ → ℕ) (shut : List Arrival → List Arrival) (socket_id : ℤ) (arrivals : List Arrival)
    (outcomes : List Outcome) (w w' : ServerState)
    → All IsAlive w.clients
    → accept_client grow shut socket_id arrivals outcomes w ≡ returned tt w'
    → (more : List Thread) × (w'.threads ≡ w.threads ++ more)
unfolding accept_client
accept_client-threads grow shut socket_id arrivals outcomes w w' alive h =
    let t : Thread = fresh socket_id arrivals outcomes in
    let w2 : ServerState = accepted grow socket_id arrivals outcomes w in
    elim (Bool-cases (is_accepted (new_client socket_id))) [
      | inl y ↦
          (let e : returned tt w2 ≡ returned tt w' =
              sym (accept_client_lem grow shut socket_id arrivals outcomes w alive y) ∙ h in
            let same : w2 ≡ w' = ground (arith, e) in
            (t ∷ [], ap (λ x. x.threads) (sym same) ∙ emplace_back-threads grow t w))
      | inr n ↦
          (let e : returned tt w ≡ returned tt w' =
              ap (λ b. if b then close_dead_sockets shut w2.clients w2 else returned tt w) (sym n)
              ∙ h in
            let same : w ≡ w' = ground (arith, e) in
            ([], ap (λ x. x.threads) (sym same) ∙ sym (append-nil w.threads)))
    ]

pub cut-IsWaiting :
    (shut : List Arrival → List Arrival) (a : Attended) (t : Thread)
    → ((arrivals : List Arrival) → NoNewline arrivals → NoNewline (shut arrivals))
    → IsWaiting t
    → IsWaiting (cut shut a t)
cut-IsWaiting shut a t k h = elim (Bool-cases (same_socket t.client.socket_id a.client.socket_id)) [
  | inl y ↦ rw y (record { serves = h.serves; stays = h.stays; silent = k t.arrivals h.silent })
  | inr n ↦ rw n h
]

-- A thread that waits is not joined.
joining-WaitsAt :
    (phase : Phase) (i j : ℕ) (t u : Thread) (w w' : ServerState)
    → get_elem? w.threads j ≡ some u
    → u.phase ≡ phase
    → joining phase j u w ≡ returned tt w'
    → get_elem? w.threads i ≡ some t
    → t.phase ≡ serving
    → get_elem? w'.threads i ≡ some t
joining-WaitsAt greeting i j t u w w' at p h e s = absurd (ground (arith, h))
joining-WaitsAt serving i j t u w w' at p h e s = absurd (ground (arith, h))
joining-WaitsAt joined i j t u w w' at p h e s =
    let same : w ≡ w' = ground (arith, h) in ap (λ x. get_elem? x.threads i) (sym same) ∙ e
joining-WaitsAt ended i j t u w w' at p h e s =
    let u' : Thread = record u { phase = joined } in
    let same : record w { threads = set w.threads j u' } ≡ w' = ground (arith, h) in
    let apart : j ≢ i = λ z.
      let one : some u ≡ some t = sym at ∙ ap (get_elem? w.threads) z ∙ e in
      let two : u ≡ t = ground (arith, one) in ground (arith, sym p ∙ ap (λ x. x.phase) two ∙ s) in
    ap (λ x. get_elem? x.threads i) (sym same) ∙ get_elem?-set_ne w.threads j i u' apart ∙ e

pub close_thread-WaitsAt :
    (i : ℕ) (t : Thread) (a : Attended) (w w' : ServerState)
    → close_thread a w ≡ returned tt w'
    → get_elem? w.threads i ≡ some t
    → t.phase ≡ serving
    → get_elem? w'.threads i ≡ some t
unfolding close_thread
close_thread-WaitsAt i t a w w' h e s = elim (Option-cases (find_thread a.thread w)) [
  | inl n ↦ absurd (ground (arith, ap (λ o. closing o a w) (sym n) ∙ h))
  | inr (u, f) ↦
      joining-WaitsAt u.phase i a.thread.index t u w w' (points_back w a u f).1 refl
        (ap (λ o. closing o a w) (sym f) ∙ h) e s
]
