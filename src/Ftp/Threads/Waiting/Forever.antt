-- ===== src/Ftp/Threads/Waiting/Forever.antt =====
-- A client of tp3_ftp_multiclient_server that stays connected keeps the server from stopping.
use programming_workshop.Common.{
  ℕ, zero, suc, ◌≡◌, ◌≢◌, refl, sym, ◌∙◌, ap, Bool, false, none, some, List, arith, if◌then◌else◌,
  length, get_elem?, get_elem?-append, get_elem?-map, get_elem?-set_ne, All,
}
use programming_workshop.Sudoku.Socket.{Arrival}
use programming_workshop.Ftp.Result.{returned, threw, unfinished, continue}
use programming_workshop.Ftp.Config.{ConfigMap}
use programming_workshop.Ftp.Connection.{Session}
use programming_workshop.Ftp.Connection.Lines.{NoNewline}
use programming_workshop.Ftp.Socket.{error_shutdown}
use programming_workshop.Ftp.Threads.{
  Phase, Thread, Attended, ServerState, close_thread, shutdown_socket, thread_round, session_of,
  resumed, pop_last, close_all_loop, close_all_sockets, stop,
}
use programming_workshop.Ftp.Threads.Pointers.{points}
use programming_workshop.Ftp.Threads.Sound.{IsSound, IsAlive}
use programming_workshop.Ftp.Threads.Sound.Same.{cut, closing, joining}
use programming_workshop.Ftp.Threads.Sound.Reached.{Step-IsSound}
use programming_workshop.Ftp.Threads.Steps.{
  Step, accepts_client, runs, shuts, joins, stops, Reach, here, next,
}
use programming_workshop.Ftp.Threads.Waiting.{
  WaitsAt, no_round, accept_client-threads, cut-IsWaiting, close_thread-WaitsAt,
}

resumed-WaitsAt :
    (line : ℕ) (cfg : ConfigMap) (i j : ℕ) (u : Thread) (phase : Phase) (s : Session)
    (w : ServerState)
    → get_elem? w.threads j ≡ some u
    → thread_round line cfg u.phase (session_of w u) ≡ some (phase, s)
    → WaitsAt i w
    → WaitsAt i (resumed w j phase s)
resumed-WaitsAt line cfg i j u phase s w at h (t, e, waiting) =
    let apart : j ≢ i = λ z.
      let one : some u ≡ some t = sym at ∙ ap (get_elem? w.threads) z ∙ e in
      let two : u ≡ t = ground (arith, one) in
      let never : thread_round line cfg u.phase (session_of w u) ≡ none =
        ap (λ x. thread_round line cfg x.phase (session_of w x)) two
        ∙ no_round line cfg t w waiting in
      ground (arith, sym never ∙ h) in
    (t, get_elem?-set_ne w.threads j i _ apart ∙ e, waiting)

Step-WaitsAt :
    {cfg : ConfigMap} {grow : ℕ → ℕ} {shut : List Arrival → List Arrival} {w w' : ServerState}
    (i : ℕ)
    → ((arrivals : List Arrival) → NoNewline arrivals → NoNewline (shut arrivals))
    → All IsAlive w.clients
    → Step cfg grow shut w w'
    → WaitsAt i w
    → WaitsAt i w'
unfolding shutdown_socket
Step-WaitsAt {grow = grow} {shut = shut} {w = w} {w' = w'} i k alive
      (accepts_client id arrivals outcomes h) (t, e, waiting) =
    let (more, m) = accept_client-threads grow shut id arrivals outcomes w w' alive h in
    (t, ap (λ x. get_elem? x i) m ∙ get_elem?-append w.threads more i t e, waiting)
Step-WaitsAt {cfg = cfg} {w = w} i k alive (runs j line u phase s at h) waits =
    resumed-WaitsAt line cfg i j u phase s w at h waits
Step-WaitsAt {shut = shut} {w = w} i k alive (shuts a) (t, e, waiting) =
    (cut shut a t, get_elem?-map (cut shut a) w.threads i t e, cut-IsWaiting shut a t k waiting)
Step-WaitsAt {w = w} i k alive (joins {w' = v} rest a last h) (t, e, waiting) =
    (t, close_thread-WaitsAt i t a w v h e waiting.serves, waiting)
Step-WaitsAt i k alive stops waits = waits

Reach-WaitsAt :
    {cfg : ConfigMap} {grow : ℕ → ℕ} {shut : List Arrival → List Arrival} {w w' : ServerState}
    (i : ℕ)
    → ((arrivals : List Arrival) → NoNewline arrivals → NoNewline (shut arrivals))
    → IsSound cfg w
    → WaitsAt i w
    → Reach cfg grow shut w w'
    → IsSound cfg w' × WaitsAt i w'
Reach-WaitsAt i k sound waits here = (sound, waits)
Reach-WaitsAt i k sound waits (next r step) =
    let (sound', waits') = Reach-WaitsAt i k sound waits r in
    (Step-IsSound step sound', Step-WaitsAt i k sound'.clients_alive step waits')

-- To close the thread of a client that waits is to wait, too.
close_thread-unfinished :
    (i : ℕ) (a : Attended) (w : ServerState)
    → WaitsAt i w
    → a.thread.storage ≡ w.storage
    → a.thread.index ≡ i
    → close_thread a w ≡ unfinished
unfolding close_thread
close_thread-unfinished i a w (t, e, waiting) s z =
    ap (λ o. closing o a w) (points w a t s (ap (get_elem? w.threads) z ∙ e))
    ∙ ap (λ p. joining p a.thread.index t w) waiting.serves

close_all_loop-unfinished :
    (fuel : ℕ) (shut : List Arrival → List Arrival) (rest : List Attended) (a : Attended)
    (w : ServerState)
    → pop_last w.clients ≡ some (rest, a)
    → close_thread a (shutdown_socket shut a w) ≡ unfinished
    → close_all_loop fuel shut w ≡ unfinished
unfolding close_all_loop
close_all_loop-unfinished zero shut rest a w last h = rw (close_all_loop, last) refl
close_all_loop-unfinished (suc fuel) shut rest a w last h =
    rw (close_all_loop, last)
      (ap (continue (λ u w'. close_all_loop fuel shut (record w' { clients = rest }))) h)

-- From a state in which the invariant holds and the thread `i` waits for a newline that never comes:
-- in every state that is reached from there, if the last client of the acceptor's list has a valid
-- pointer to that thread, `stop` does not return, as long as shutdown() on a socket brings no newline. It
-- shuts the socket down, recv() returns 0, the thread goes on, and join() waits.
pub Reach-stop-unfinished :
    {cfg : ConfigMap} {grow : ℕ → ℕ} {shut : List Arrival → List Arrival} {w w' : ServerState}
    (i : ℕ) (down : Bool) (rest : List Attended) (a : Attended)
    → ((arrivals : List Arrival) → NoNewline arrivals → NoNewline (shut arrivals))
    → IsSound cfg w
    → WaitsAt i w
    → Reach cfg grow shut w w'
    → pop_last w'.clients ≡ some (rest, a)
    → a.thread.storage ≡ w'.storage
    → a.thread.index ≡ i
    → stop shut down w' ≡ unfinished
unfolding stop close_all_sockets shutdown_socket
Reach-stop-unfinished {shut = shut} {w' = w'} i down rest a k sound waits r last s z =
    let (_, (t, e, waiting)) = Reach-WaitsAt i k sound waits r in
    let cut_waits : WaitsAt i (shutdown_socket shut a w') = (
      cut shut a t,
      get_elem?-map (cut shut a) w'.threads i t e,
      cut-IsWaiting shut a t k waiting,
    ) in
    ap
      (continue (λ u v.
        if down
        then returned tt (record v { is_running = false })
        else threw error_shutdown (record v { is_running = false })))
      (close_all_loop-unfinished (length w'.clients) shut rest a w' last
        (close_thread-unfinished i a (shutdown_socket shut a w') cut_waits s z))
