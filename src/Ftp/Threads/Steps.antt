-- ===== src/Ftp/Threads/Steps.antt =====
-- The interleavings of the threads of tp3_ftp_multiclient_server/common_server.cpp, as a step relation.
use programming_workshop.Common.{ℕ, ◌≡◌, true, false, some, List, [], get_elem?}
use programming_workshop.Common.Int.{ℤ}
use programming_workshop.Sudoku.Socket.{Arrival, Outcome}
use programming_workshop.Ftp.Result.{returned}
use programming_workshop.Ftp.Config.{ConfigMap}
use programming_workshop.Ftp.Connection.{Session}
use programming_workshop.Ftp.Threads.{
  Phase, Thread, Attended, ServerState, pop_last, close_thread, shutdown_socket, accept_client,
  thread_round, session_of, resumed,
}

-- What some thread does next: the acceptor with a connection, the thread of a client, the loop of
-- `close_all_sockets` with a socket or with a thread that has ended, or `stop`. A query is one step: the
-- only one that takes the mutex of the directories twice is LIST. The order of the last three is left open.
pub data Step (cfg : ConfigMap) (grow : ℕ → ℕ) (shut : List Arrival → List Arrival)
    : ServerState → ServerState → Type 0 where
  accepts_client :
      {w w' : ServerState} (socket_id : ℤ) (arrivals : List Arrival) (outcomes : List Outcome)
      → accept_client grow shut socket_id arrivals outcomes w ≡ returned tt w'
      → Step cfg grow shut w w'
  runs :
      {w : ServerState} (i line : ℕ) (t : Thread) (phase : Phase) (s : Session)
      → get_elem? w.threads i ≡ some t
      → thread_round line cfg t.phase (session_of w t) ≡ some (phase, s)
      → Step cfg grow shut w (resumed w i phase s)
  shuts : {w : ServerState} (a : Attended) → Step cfg grow shut w (shutdown_socket shut a w)
  joins :
      {w w' : ServerState} (rest : List Attended) (a : Attended)
      → pop_last w.clients ≡ some (rest, a)
      → close_thread a w ≡ returned tt w'
      → Step cfg grow shut w (record w' { clients = rest })
  stops : {w : ServerState} → Step cfg grow shut w (record w { is_running = false })

pub data Reach (cfg : ConfigMap) (grow : ℕ → ℕ) (shut : List Arrival → List Arrival)
    (w : ServerState) : ServerState → Type 0 where
  here : Reach cfg grow shut w w
  next :
      {v u : ServerState}
      → Reach cfg grow shut w v
      → Step cfg grow shut v u
      → Reach cfg grow shut w u

-- The server when its threads start.
abbrev pub started : ServerState
started = record {
  clients = [];
  threads = [];
  capacity = 200;
  storage = 0;
  directories = [];
  alive = false;
  is_running = true;
}
