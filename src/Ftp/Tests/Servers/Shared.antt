-- ===== src/Ftp/Tests/Servers/Shared.antt =====
-- The directories that the threads of tp3_ftp_multiclient_server share, on concrete inputs.
use programming_workshop.Common.{◌≡◌, refl, true, false, some, List, [], ◌∷◌, codes, bytes_eq}
use programming_workshop.Common.Int.{pos}
use programming_workshop.Sudoku.Socket.{Arrival, segment}
use programming_workshop.Ftp.Directories.{add_directory, insert, contains}
use programming_workshop.Ftp.Directories.Refinement.{add, promises, Shows}
use programming_workshop.Ftp.Config.{get_message}
use programming_workshop.Ftp.Connection.{Session, send_string, receive_string}
use programming_workshop.Ftp.Command.{create_command, identify_command}
use programming_workshop.Ftp.Server.{
  send_hello, client_round, respond_query, send_response, send_user, send_pass, send_mkd,
  valid_credentials, answer, answer_dir, format_cmd, format_cmd_dir,
}
use programming_workshop.Ftp.Result.{returned}
use programming_workshop.Ftp.Threads.{
  greeting, serving, Thread, ServerState, accept_client, emplace_back, close_dead_sockets,
  thread_round, session_of,
}
use programming_workshop.Ftp.Threads.Steps.{Reach, here, next, accepts_client, runs, started}
use programming_workshop.Ftp.Threads.Linear.{round_calls}
use programming_workshop.Ftp.Threads.Linear.Reached.{Reach-Shows}
use programming_workshop.Ftp.Tests.Conversations.{
  cfg, texts, cfg-HasTexts, queries, queries-AreQueries, visitor,
}
use programming_workshop.Ftp.Server.Promised.{coded}
use programming_workshop.Ftp.Threads.Whole.Served.{IsAttended, Reach-IsAttended}
use programming_workshop.Ftp.Tests.Servers.{grow, shut, thread, with_thread}

-- A client that logs in and makes a directory.
abbrev maker : List Arrival
maker = segment b'U' (codes "SER admin\nPASS l33t\nMKD foo\n") ∷ []

abbrev start : ServerState
start = with_thread (thread greeting maker)

abbrev greeted : Session
greeted = record (session_of start (thread greeting maker)) { sent = codes "220 TallerFTP\n" }

abbrev named : Session
named = record greeted {
  client = record greeted.client { possible_user = codes "admin\n" };
  arrivals = segment b'P' (codes "ASS l33t\nMKD foo\n") ∷ [];
  sent = codes "220 TallerFTP\n331 Password.\n";
}

abbrev logged : Session
logged = record named {
  client = record named.client { logged = true };
  arrivals = segment b'M' (codes "KD foo\n") ∷ [];
  sent = codes "220 TallerFTP\n331 Password.\n230 Welcome.\n";
}

abbrev has_made : Session
has_made = record logged {
  arrivals = [];
  sent = codes "220 TallerFTP\n331 Password.\n230 Welcome.\n257 \"foo\" created\n";
  directories = codes "foo\n" ∷ [];
}

-- The thread and the server behind a round.
abbrev thread_of : Session → Thread
thread_of s = record {
  client = s.client;
  arrivals = s.arrivals;
  outcomes = s.outcomes;
  sent = s.sent;
  phase = serving;
}

abbrev behind : Session → ServerState
behind s = record start { threads = thread_of s ∷ []; directories = s.directories }

accepted : accept_client grow shut (pos 5) maker [] started ≡ returned tt start
unfolding accept_client emplace_back close_dead_sockets
accepted = refl

greeted_run :
    thread_round 20 cfg greeting (session_of start (thread greeting maker))
    ≡ some (serving, greeted)
unfolding thread_round send_hello get_message bytes_eq send_string
greeted_run = refl

named_run : thread_round 20 cfg serving greeted ≡ some (serving, named)
unfolding thread_round client_round receive_string respond_query create_command identify_command
    send_response send_user answer format_cmd get_message bytes_eq send_string
named_run = refl

logged_run : thread_round 20 cfg serving named ≡ some (serving, logged)
unfolding thread_round client_round receive_string respond_query create_command identify_command
    send_response send_pass valid_credentials answer format_cmd get_message bytes_eq send_string
logged_run = refl

made_run : thread_round 20 cfg serving logged ≡ some (serving, has_made)
unfolding thread_round client_round receive_string respond_query create_command identify_command
    send_response send_mkd add_directory insert answer_dir format_cmd_dir get_message bytes_eq
    send_string
made_run = refl

abbrev making : Reach cfg grow shut started (behind has_made)
making =
    next
      (next
        (next
          (next (next here (accepts_client (pos 5) maker [] accepted))
            (runs 0 20 (thread greeting maker) serving greeted refl greeted_run))
          (runs 0 20 (thread_of greeted) serving named refl named_run))
        (runs 0 20 (thread_of named) serving logged refl logged_run))
      (runs 0 20 (thread_of logged) serving has_made refl made_run)

Reach-Shows_example :
    Shows (codes "foo\n" ∷ []) (promises (add (codes "foo\n") ∷ []) (λ e. false)).1
unfolding round_calls receive_string create_command identify_command bytes_eq
Reach-Shows_example = Reach-Shows making

-- A client that has just been accepted, beside another that is connected.
abbrev newcomer : Thread
newcomer = record (thread greeting visitor.arrivals) { outcomes = visitor.outcomes }

abbrev busy : ServerState
busy = record start { threads = thread serving [] ∷ newcomer ∷ [] }

Reach-IsAttended_example :
    IsAttended cfg texts grow shut queries
      (coded (codes "220") (texts (codes "newClient")))
      busy
      1
      newcomer
unfolding contains
Reach-IsAttended_example =
    Reach-IsAttended cfg texts grow shut 20 1 queries [] busy newcomer cfg-HasTexts
      queries-AreQueries refl refl refl refl (tt {0}) refl
