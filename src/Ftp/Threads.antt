-- ===== src/Ftp/Threads.antt =====
-- The threads of tp3_ftp_multiclient_server: the acceptor, one thread for each client and the one that
-- waits for `q`, in common_server.cpp, with the clients' part of common_client.cpp.
pub mod Rounds
pub mod Linear
pub mod Steps
pub mod Sound
pub mod Pointers
pub mod Waiting
pub mod Closing
pub mod Whole
use programming_workshop.Common.{
  ℕ, zero, suc, ◌+◌, Bool, true, false, not, ◌||◌, Option, none, some, List, [], ◌∷◌, ◌++◌, map,
  ◌==◌, if◌then◌else◌, Bytes, codes, bytes_eq, length, get_elem?, set,
}
use programming_workshop.Common.Int.{ℤ, pos, negsuc}
use programming_workshop.Sudoku.Socket.{Arrival, Outcome}
use programming_workshop.Ftp.Result.{Result, returned, threw, faulted, unfinished, Act, pure, ◌>>=◌}
use programming_workshop.Ftp.Directories.{Directories}
use programming_workshop.Ftp.Config.{ConfigMap, getline}
use programming_workshop.Ftp.Connection.{Client, Session}
use programming_workshop.Ftp.Socket.{same_socket, error_socket_acceptor, error_shutdown}
use programming_workshop.Ftp.Server.{send_hello, client_round}

-- Where a thread of a client is: before the greeting, in its loop, behind its end, and behind a
-- join() too.
pub data Phase : Type 0 where
  greeting serving ended joined : Phase

-- A thread of `respond_client`, with its own record of the client and its connection.
pub record Thread : Type 0 where
  pub client : Client
  pub arrivals : List Arrival
  pub outcomes : List Outcome
  pub sent : Bytes
  pub phase : Phase

-- A pointer into the vector of threads: the storage that it points into and the place there, counted
-- behind the 200 threads that the vector starts with and that never run.
pub record Pointer : Type 0 where
  pub storage : ℕ
  pub index : ℕ

-- An element of `clients`: a record of its own, with the pointer that `save_thread` keeps.
pub record Attended : Type 0 where
  pub client : Client
  pub thread : Pointer

-- What the threads share, and the vector of threads in `run_server`. A growth of the vector moves it
-- to the next storage, and the pointers into the one before dangle.
pub record ServerState : Type 0 where
  pub clients : List Attended
  pub threads : List Thread
  pub capacity : ℕ
  pub storage : ℕ
  pub directories : Directories
  pub alive : Bool
  pub is_running : Bool

-- `is_alive` starts as true, and is set to true only.
abbrev pub new_client : ℤ → Client
new_client id = record {
  socket_id = id;
  is_alive = true;
  logged = false;
  quit = false;
  possible_user = [];
}

abbrev pub is_accepted : Client → Bool
is_accepted c = elim c.socket_id [ negsuc zero ↦ false | _ ↦ true ]

abbrev pub is_dead : Client → Bool
is_dead c = not c.is_alive

-- emplace_back() of the vector of threads, whose capacity `grow` gives when it is used up.
unfoldable pub emplace_back : (ℕ → ℕ) → Thread → ServerState → ServerState
emplace_back grow t w =
    let added : ServerState = record w { threads = w.threads ++ t ∷ [] } in
    if 200 + length w.threads == w.capacity
    then record added { capacity = grow w.capacity; storage = suc w.storage }
    else added

-- The thread that a pointer points to: `none` if the pointer dangles.
unfoldable pub find_thread : Pointer → ServerState → Option Thread
find_thread p w = if p.storage == w.storage then get_elem? w.threads p.index else none

-- joinable() and join(), which waits for the end of the thread: it goes on as long as that runs.
abbrev pub join : ℕ → Thread → Act ServerState Unit
join i t w = elim t.phase [
  | joined ↦ returned tt w
  | ended ↦ returned tt (record w { threads = set w.threads i (record t { phase = joined }) })
  | _ ↦ unfinished
]

unfoldable pub close_thread : Attended → Act ServerState Unit
unfolding find_thread
close_thread a w = elim (find_thread a.thread w) [
  | none ↦ faulted
  | some t ↦ join a.thread.index t w
]

-- `shut` says what recv() still gives on a socket that is shut down, of what would have arrived.
unfoldable pub shutdown_socket :
    (List Arrival → List Arrival) → Attended → ServerState → ServerState
shutdown_socket shut a w =
    let cut : Thread → Thread = λ t.
      if same_socket t.client.socket_id a.client.socket_id
      then record t { arrivals = shut t.arrivals }
      else t in
    record w { threads = map cut w.threads }

-- The loop over the clients. Behind an erase() the iterator is invalid, and is increased all the same.
unfoldable pub close_dead_sockets :
    (List Arrival → List Arrival) → List Attended → Act ServerState Unit
unfolding close_thread
close_dead_sockets shut [] w = returned tt w
close_dead_sockets shut (a ∷ later) w =
    let others = close_dead_sockets shut later w in
    if is_dead a.client then (do _ ← close_thread a; λ w'. faulted) w else others

-- back() and pop_back().
unfoldable pub pop_last : List Attended → Option (List Attended × Attended)
pop_last [] = none
pop_last (a ∷ later) = elim (pop_last later) [
  | none ↦ some ([], a)
  | some (rest, b) ↦ some (a ∷ rest, b)
]

-- The loop of `close_all_sockets`, a round for each client.
unfoldable pub close_all_loop : ℕ → (List Arrival → List Arrival) → Act ServerState Unit
unfolding pop_last shutdown_socket close_thread
close_all_loop zero shut w = elim (pop_last w.clients) [
  | none ↦ returned tt w
  | some _ ↦ unfinished
]
close_all_loop (suc fuel) shut w = elim (pop_last w.clients) [
  | none ↦ returned tt w
  | some (rest, a) ↦
      (do _ ← close_thread a; λ w'. close_all_loop fuel shut (record w' { clients = rest }))
        (shutdown_socket shut a w)
]

unfoldable pub close_all_sockets : (List Arrival → List Arrival) → Act ServerState Unit
unfolding close_all_loop
close_all_sockets shut w = close_all_loop (length w.clients) shut w

-- The acceptor's round for a connection that accept() returns. Nothing else runs in it.
unfoldable pub accept_client :
    (ℕ → ℕ) → (List Arrival → List Arrival) → ℤ → List Arrival → List Outcome → Act ServerState Unit
unfolding emplace_back close_dead_sockets
accept_client grow shut socket_id arrivals outcomes w =
    let client = new_client socket_id in
    let t : Thread = record {
      client = new_client socket_id;
      arrivals = arrivals;
      outcomes = outcomes;
      sent = [];
      phase = greeting;
    } in
    let w1 = emplace_back grow t w in
    let back : Pointer = record { storage = w1.storage; index = length w.threads } in
    let clients' : List Attended = w.clients ++ (record { client = client; thread = back } ∷ []) in
    if is_accepted client
    then close_dead_sockets shut clients' (record w1 { clients = clients' })
    else returned tt w

-- What a call of accept() does.
pub data Accepted : Type 0 where
  connection : ℤ → List Arrival → List Outcome → Accepted
  refusal : Accepted

-- The loop of the acceptor. At the end of the list it waits in accept().
unfoldable pub accept_loop :
    (ℕ → ℕ) → (List Arrival → List Arrival) → List Accepted → Act ServerState Unit
unfolding accept_client
accept_loop grow shut [] w = if w.is_running then unfinished else returned tt w
accept_loop grow shut (refusal ∷ later) w =
    if w.is_running then threw error_socket_acceptor w else returned tt w
accept_loop grow shut (connection socket_id arrivals outcomes ∷ later) w =
    if w.is_running
    then (do _ ← accept_client grow shut socket_id arrivals outcomes; accept_loop grow shut later) w
    else returned tt w

-- The thread of the acceptor, alone. `opens` says that the constructor of the socket throws, and what.
unfoldable pub run_server :
    (ℕ → ℕ) → (List Arrival → List Arrival) → Option Bytes → List Accepted → Act ServerState Unit
unfolding accept_loop close_all_sockets
run_server grow shut opens calls w =
    let attempt : Result ServerState Unit = elim opens [
      | some m ↦ threw m w
      | none ↦ (do _ ← accept_loop grow shut calls; close_all_sockets shut) w
    ] in
    elim attempt [ threw m w' ↦ close_all_sockets shut w' | r ↦ r ]

-- `down` says whether shutdown() of the acceptor's socket succeeds.
unfoldable pub stop : (List Arrival → List Arrival) → Bool → Act ServerState Unit
unfolding close_all_sockets
stop shut down = do
  _ ← close_all_sockets shut
  λ w.
      if down
      then returned tt (record w { is_running = false })
      else threw error_shutdown (record w { is_running = false })

abbrev pub is_quit : Bytes → Bool
is_quit str = bytes_eq str (codes "q") || bytes_eq str (codes "q\n")

-- The loop over the standard input, with `str`: `none` is an input whose end has been read.
unfoldable pub quit :
    ℕ → (List Arrival → List Arrival) → Bool → Bytes → Option Bytes → Act ServerState Unit
unfolding stop
quit zero shut down str stdin w = if w.is_running then unfinished else returned tt w
quit (suc fuel) shut down str stdin w =
    let line = getline b'\n' stdin str in
    if w.is_running
    then (do
      _ ← (if is_quit line.0 then stop shut down else pure tt)
      quit fuel shut down line.0 line.1)
        w
    else returned tt w

-- What the thread of a client works on.
abbrev pub session_of : ServerState → Thread → Session
session_of w t = record {
  client = t.client;
  arrivals = t.arrivals;
  outcomes = t.outcomes;
  sent = t.sent;
  alive = w.alive;
  directories = w.directories;
}

-- The phase behind a call of the thread, and the state: an exception ends it. `none` if the call does
-- not return, or is undefined.
abbrev pub after : Result Session Unit → Option (Phase × Session)
after (returned a s) = some (serving, s)
after (threw m s) = some (ended, s)
after faulted = none
after unfinished = none

-- What the thread of a client does between two looks at `quit`.
unfoldable pub thread_round : ℕ → ConfigMap → Phase → Session → Option (Phase × Session)
thread_round line cfg greeting s = after (send_hello cfg s)
thread_round line cfg serving s =
    if s.client.quit then some (ended, s) else after (client_round line cfg s)
thread_round line cfg ended s = none
thread_round line cfg joined s = none

-- The state behind such a round of a thread.
abbrev pub resumed : ServerState → ℕ → Phase → Session → ServerState
resumed w i phase s = record w {
  threads = set w.threads i (record {
    client = s.client;
    arrivals = s.arrivals;
    outcomes = s.outcomes;
    sent = s.sent;
    phase = phase;
  });
  directories = s.directories;
  alive = s.alive;
}
