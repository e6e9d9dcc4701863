-- ===== src/Ftp/Tests/Servers.antt =====
-- The threads and the sockets of tp3_ftp_multiclient_server on concrete inputs.
mod Shared
use programming_workshop.Common.{
  ℕ, ◌+◌, ◌≡◌, refl, inl, inr, true, false, Option, some, Bytes, List, [], ◌∷◌, arith, codes,
  bytes_eq, All,
}
use programming_workshop.Common.Int.{pos, negsuc}
use programming_workshop.Sudoku.Socket.{Arrival, segment}
use programming_workshop.Sudoku.Socket.Setup.{Network}
use programming_workshop.Ftp.Result.{returned, faulted, unfinished}
use programming_workshop.Ftp.Directories.{contains}
use programming_workshop.Ftp.Config.{
  ConfigMap, get_message, config, read_loop, split_at, emplace, find,
}
use programming_workshop.Ftp.Connection.{Session, send_string, receive_string}
use programming_workshop.Ftp.Command.{create_command, identify_command}
use programming_workshop.Ftp.Server.{
  send_hello, client_round, respond_query, send_response, send_user, answer, format_cmd,
}
use programming_workshop.Ftp.Socket.{not_connected, client_socket, server_socket}
use programming_workshop.Ftp.Socket.Resources.{
  ClientSocket, client_socket-ClientSocket, ServerSocket, server_socket-ServerSocket,
}
use programming_workshop.Ftp.Threads.{
  Phase, greeting, serving, ended, Thread, Attended, ServerState, new_client, emplace_back,
  find_thread, close_dead_sockets, close_thread, accept_client, thread_round, session_of, resumed,
  pop_last, stop, quit,
}
use programming_workshop.Ftp.Threads.Steps.{here, next, accepts_client, runs, started}
use programming_workshop.Ftp.Threads.Sound.{IsSound}
use programming_workshop.Ftp.Threads.Sound.Reached.{Reach-IsSound}
use programming_workshop.Ftp.Threads.Pointers.{Points, accept_client-Points, accept_client-dangling}
use programming_workshop.Ftp.Threads.Waiting.Forever.{Reach-stop-unfinished}
use programming_workshop.Ftp.Threads.Closing.Quitting.{IsOther, quit-unfinished}
use programming_workshop.Ftp.Main.{terminated, main}
use programming_workshop.Ftp.Main.Ends.{main_lem}
use programming_workshop.Ftp.Tests.{lacks, lacks_sound}

abbrev cfg : ConfigMap
cfg =
    (codes "newClient", codes "TallerFTP\n")
    ∷ (codes "user", codes "admin\n")
    ∷ (codes "password", codes "l33t\n")
    ∷ (codes "passRequired", codes "Password.\n")
    ∷ (codes "loginSuccess", codes "Welcome.\n")
    ∷ []

-- A vector that doubles, and shutdown() that cuts off what has not arrived.
abbrev pub grow : ℕ → ℕ
grow n = n + n

abbrev pub shut : List Arrival → List Arrival
shut arrivals = []

abbrev typing : List Arrival
typing = segment b'U' (codes "SER admin\nPASS l33t\n") ∷ []

abbrev pub thread : Phase → List Arrival → Thread
thread phase arrivals = record {
  client = new_client (pos 5);
  arrivals = arrivals;
  outcomes = [];
  sent = [];
  phase = phase;
}

abbrev pub attended : Attended
attended = record { client = new_client (pos 5); thread = record { storage = 1; index = 0 } }

abbrev pub with_thread : Thread → ServerState
with_thread t = record started {
  clients = attended ∷ [];
  threads = t ∷ [];
  capacity = 400;
  storage = 1;
}

one_client :
    accept_client grow shut (pos 5) typing [] started
    ≡ returned tt (with_thread (thread greeting typing))
unfolding accept_client emplace_back close_dead_sockets
one_client = refl

abbrev greeted : Session
greeted = record (session_of (with_thread (thread greeting typing)) (thread greeting typing)) {
  sent = codes "220 TallerFTP\n";
}

greeted_run :
    thread_round 20 cfg greeting
      (session_of (with_thread (thread greeting typing)) (thread greeting typing))
    ≡ some (serving, greeted)
unfolding thread_round send_hello get_message bytes_eq send_string
greeted_run = refl

abbrev known : Session
known = record greeted {
  client = record greeted.client { possible_user = codes "admin\n" };
  arrivals = segment b'P' (codes "ASS l33t\n") ∷ [];
  sent = codes "220 TallerFTP\n331 Password.\n";
}

abbrev serving_thread : Thread
serving_thread = record (thread serving typing) { sent = codes "220 TallerFTP\n" }

known_run :
    thread_round 20 cfg serving (session_of (with_thread serving_thread) serving_thread)
    ≡ some (serving, known)
unfolding thread_round client_round receive_string respond_query create_command identify_command
    send_response send_user answer format_cmd get_message bytes_eq send_string
known_run = refl

-- A client comes, is greeted and names its user.
Reach-IsSound_example : IsSound cfg (resumed (with_thread serving_thread) 0 serving known)
Reach-IsSound_example = Reach-IsSound {cfg = cfg} {grow = grow} {shut = shut} (
    next
      (next (next here (accepts_client (pos 5) typing [] one_client))
        (runs 0 20 (thread greeting typing) serving greeted refl greeted_run))
      (runs 0 20 serving_thread serving known refl known_run))

accept_client-Points_example :
    (w' : ServerState) × (accept_client grow shut (pos 5) typing [] started ≡ returned tt w')
    × All (Points w') w'.clients
accept_client-Points_example =
    accept_client-Points grow shut (pos 5) typing [] started (tt {0}) (tt {0}) refl (inr refl)

-- The vector has room for one client only.
abbrev full : ServerState
full = record (with_thread (thread serving [])) { capacity = 201 }

accept_client-dangling_example :
    (w' : ServerState) × (accept_client grow shut (pos 6) [] [] full ≡ returned tt w')
    × (close_thread attended w' ≡ faulted)
accept_client-dangling_example =
    accept_client-dangling grow shut (pos 6) [] [] full attended (refl, tt {0}) refl refl
      (omega arith)

idle-IsSound : IsSound cfg (with_thread (thread serving []))
unfolding contains
idle-IsSound = record {
  ordered = tt {0};
  named = refl;
  earned = inl refl;
  login = λ l. absurd (ground (arith, l));
  clients_alive = (refl, tt {0});
}

Reach-stop-unfinished_example : stop shut true (with_thread (thread serving [])) ≡ unfinished
unfolding pop_last
Reach-stop-unfinished_example =
    Reach-stop-unfinished {cfg = cfg} {grow = grow} {shut = shut}
      {w = with_thread (thread serving [])} {w' = with_thread (thread serving [])} 0 true []
      attended (λ arrivals h. tt {0}) idle-IsSound
      (thread serving [], refl, record { serves = refl; stays = refl; silent = tt {0} }) here refl
      refl refl

help-IsOther : IsOther (codes "help")
unfolding lacks bytes_eq
help-IsOther = record { line = lacks_sound b'\n' (codes "help") refl; other = refl }

-- A host that refuses the connection, and whose port is taken.
abbrev network : Network
network = record {
  getaddrinfo = λ host port. pos 0;
  socket_result = pos 3;
  setsockopt_result = pos 0;
  bind_result = negsuc 0;
  listen_result = pos 0;
  connect_result = negsuc 0;
  accept_result = pos 4;
}

abbrev user_file : Bytes → Option Bytes
user_file path = some (codes "user=admin\n")

abbrev user_only : ConfigMap
user_only = (codes "user", codes "admin\n") ∷ ([], codes "admin\n\n") ∷ []

user_file_read : config (codes "user=admin\n") ≡ some user_only
unfolding config read_loop split_at emplace find bytes_eq
user_file_read = refl

main_lem_example :
    (w' : ServerState) × (main user_file 2 shut false true
        (codes "server" ∷ codes "9000" ∷ codes "config.cfg" ∷ [])
        (codes "help\nq\n")
        (with_thread (thread ended []))
      ≡ returned terminated w')
    × (w'.clients ≡ [])
    × (w'.is_running ≡ false)
    × (w'.directories ≡ [])
unfolding find_thread
main_lem_example =
    main_lem user_file 2 shut (codes "server" ∷ codes "9000" ∷ codes "config.cfg" ∷ [])
      (codes "config.cfg") (codes "user=admin\n") [] user_only (codes "help" ∷ []) false
      (with_thread (thread ended [])) refl refl user_file_read (help-IsOther, tt {0}) (omega arith)
      refl ((thread ended [], refl, tt {0}), tt {0})

quit-unfinished_example : quit 50 shut true [] (some (codes "help\n")) started ≡ unfinished
quit-unfinished_example =
    quit-unfinished (codes "help" ∷ []) 50 shut true [] started (help-IsOther, tt {0}) refl

client_socket-ClientSocket_example :
    ClientSocket network
      (codes "localhost")
      (codes "9000")
      (client_socket network (codes "localhost") (codes "9000") not_connected)
client_socket-ClientSocket_example =
    client_socket-ClientSocket network (codes "localhost") (codes "9000") (inr refl)

server_socket-ServerSocket_example :
    ServerSocket network (codes "9000") (server_socket network (codes "9000") not_connected)
server_socket-ServerSocket_example = server_socket-ServerSocket network (codes "9000")
