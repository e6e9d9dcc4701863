-- ===== src/Ftp/Threads/Linear/Reached.antt =====
-- The directories of tp3_ftp_multiclient_server in every run of the threads of common_server.cpp.
use programming_workshop.Common.{ℕ, ◌≡◌, refl, sym, ◌∙◌, ap, false, List, [], ◌++◌}
use programming_workshop.Sudoku.Socket.{Arrival}
use programming_workshop.Ftp.Directories.{contains}
use programming_workshop.Ftp.Directories.Refinement.{Call, promises, Shows, calls_lem}
use programming_workshop.Ftp.Config.{ConfigMap}
use programming_workshop.Ftp.Server.Calls.{directories_after}
use programming_workshop.Ftp.Threads.{ServerState, session_of}
use programming_workshop.Ftp.Threads.Steps.{
  Step, accepts_client, runs, shuts, joins, stops, Reach, here, next, started,
}
use programming_workshop.Ftp.Threads.Sound.{IsSound}
use programming_workshop.Ftp.Threads.Sound.Same.{
  accept_client-IsSame, shutdown_socket-IsSame, close_thread-IsSame,
}
use programming_workshop.Ftp.Threads.Sound.Reached.{Reach-IsSound}
use programming_workshop.Ftp.Threads.Linear.{round_calls, round_calls_lem, directories_after-append}

-- The calls of a step, and of the steps of a run, in their order.
abbrev pub step_calls :
    {cfg : ConfigMap} {grow : ℕ → ℕ} {shut : List Arrival → List Arrival} {w w' : ServerState}
    → Step cfg grow shut w w'
    → List Call
step_calls (accepts_client id arrivals outcomes h) = []
step_calls {w = w} (runs i line t phase s at h) = round_calls line t.phase (session_of w t)
step_calls (shuts a) = []
step_calls (joins rest a last h) = []
step_calls stops = []

abbrev pub reach_calls :
    {cfg : ConfigMap} {grow : ℕ → ℕ} {shut : List Arrival → List Arrival} {w w' : ServerState}
    → Reach cfg grow shut w w'
    → List Call
reach_calls here = []
reach_calls (next r step) = reach_calls r ++ step_calls step

step_calls_lem :
    {cfg : ConfigMap} {grow : ℕ → ℕ} {shut : List Arrival → List Arrival} {w w' : ServerState}
    (step : Step cfg grow shut w w')
    → IsSound cfg w
    → w'.directories ≡ directories_after (step_calls step) w.directories
step_calls_lem {grow = grow} {shut = shut} {w = w} {w' = w'} (accepts_client id arrivals outcomes h)
      s =
    (accept_client-IsSame grow shut id arrivals outcomes w w' s.clients_alive h).directories
step_calls_lem {cfg = cfg} {w = w} (runs i line t phase s' at h) s =
    round_calls_lem line cfg t.phase phase (session_of w t) s' h
step_calls_lem {shut = shut} {w = w} (shuts a) s = (shutdown_socket-IsSame shut a w).directories
step_calls_lem {w = w} (joins {w' = v} rest a last h) s = (close_thread-IsSame a w v h).directories
step_calls_lem stops s = refl

reach_calls_lem :
    {cfg : ConfigMap} {grow : ℕ → ℕ} {shut : List Arrival → List Arrival} {w : ServerState}
    (r : Reach cfg grow shut started w)
    → w.directories ≡ directories_after (reach_calls r) []
reach_calls_lem here = refl
reach_calls_lem (next r step) =
    step_calls_lem step (Reach-IsSound r)
    ∙ ap (directories_after (step_calls step)) (reach_calls_lem r)
    ∙ sym (directories_after-append (reach_calls r) (step_calls step) [])

-- In every run of the server, however the threads interleave, the directories show the set that the calls of
-- MKD and RMD by logged-in clients, taken in the order of the steps, make of the empty set, in order and
-- each name once.
pub Reach-Shows :
    {cfg : ConfigMap} {grow : ℕ → ℕ} {shut : List Arrival → List Arrival} {w : ServerState}
    (r : Reach cfg grow shut started w)
    → Shows w.directories (promises (reach_calls r) (λ e. false)).1
unfolding contains
Reach-Shows r =
    let (_, shows) =
      calls_lem (reach_calls r) [] (λ e. false) (record { ordered = tt {0}; names = λ e. refl }) in
    rw (reach_calls_lem r) shows
