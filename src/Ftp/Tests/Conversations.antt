-- ===== src/Ftp/Tests/Conversations.antt =====
-- Whole conversations of tp3_ftp_multiclient_server on concrete inputs.
mod Both
use programming_workshop.Common.{
  ◌≡◌, refl, true, false, some, List, [], ◌∷◌, none, ◌++◌, ◌<◌, inl, inr, length, bytes_eq_iff,
  arith, Bytes, codes, bytes_eq,
}
use programming_workshop.Common.Int.{pos}
use programming_workshop.Sudoku.Socket.{Arrival, segment, Outcome, accepts}
use programming_workshop.Ftp.Result.{returned}
use programming_workshop.Ftp.Directories.{contains}
use programming_workshop.Ftp.Config.{ConfigMap, get_message}
use programming_workshop.Ftp.Connection.{Session, receive_string, send_string}
use programming_workshop.Ftp.Command.{create_command, identify_command, mkd_command}
use programming_workshop.Ftp.Server.{respond_query, send_response, answer}
use programming_workshop.Ftp.Client.{is_list_start}
use programming_workshop.Ftp.Client.Run.{Terminal}
use programming_workshop.Ftp.Client.Exchange.{Turn, AreTurns}
use programming_workshop.Ftp.Tests.{lacks, lacks_sound, session}
use programming_workshop.Ftp.Server.Promised.{HasTexts, IsAnswered, coded}
use programming_workshop.Ftp.Server.Promised.Commands.{send_response-IsAnswered}
use programming_workshop.Ftp.Server.Conversation.{IsQuery, AreQueries}
use programming_workshop.Ftp.Server.Conversation.Served.{IsServed, respond_client-IsServed}
use programming_workshop.Ftp.Server.{respond_client, send_hello, client_loop, send_quit, format_cmd}
use programming_workshop.Ftp.Threads.{greeting}
use programming_workshop.Ftp.Error.{text, number, signed_decimal, error, numbered}
use programming_workshop.Ftp.Error.Messages.{error_lem}
use programming_workshop.Ftp.Socket.{not_connected, client_socket}
use programming_workshop.Ftp.Client.Program.{ClientProcess, Connects, run_client, run_client_lem}
use programming_workshop.Ftp.Command.{cmd_mkd}
use programming_workshop.Sudoku.Socket.Setup.{Network}

-- The configuration of the repository, with shorter texts.
abbrev pub cfg : ConfigMap
cfg =
    (codes "newClient", codes "TallerFTP\n")
    ∷ (codes "user", codes "admin\n")
    ∷ (codes "password", codes "l33t\n")
    ∷ (codes "passRequired", codes "Password.\n")
    ∷ (codes "loginFailed", codes "Incorrect.\n")
    ∷ (codes "loginSuccess", codes "Welcome.\n")
    ∷ (codes "clientNotLogged", codes "Login.\n")
    ∷ (codes "currentDirectoryMsg", codes "here\n")
    ∷ (codes "listBegin", codes "Begin.\n")
    ∷ (codes "listEnd", codes "End.\n")
    ∷ (codes "mkdSuccess", codes "created\n")
    ∷ (codes "mkdFailed", codes "Failed.\n")
    ∷ (codes "rmdSuccess", codes "removed\n")
    ∷ (codes "rmdFailed", codes "Failed.\n")
    ∷ (codes "quitSuccess", codes "Goodbye.\n")
    ∷ (codes "commands", codes "HELP LIST\n")
    ∷ (codes "systemInfo", codes "UNIX\n")
    ∷ (codes "unknownCommand", codes "Unknown.\n")
    ∷ []

abbrev pub texts : Bytes → Bytes
texts key = elim (get_message cfg key) [ some v ↦ v | none ↦ codes "\n" ]

pub cfg-HasTexts : HasTexts cfg texts
unfolding get_message bytes_eq
cfg-HasTexts = record {
  new_client = refl;
  user = refl;
  password = refl;
  pass_required = refl;
  login_failed = refl;
  login_success = refl;
  guest = refl;
  current = refl;
  list_begin = refl;
  list_end = refl;
  mkd_success = refl;
  mkd_failed = refl;
  rmd_success = refl;
  rmd_failed = refl;
  quit_success = refl;
  system_info = refl;
  unknown = refl;
  commands = refl;
}

abbrev member : Session
member = session [] (accepts 2 ∷ []) (codes "admin\n") true

send_response-IsAnswered_example :
    IsAnswered texts
      (mkd_command (codes "foo\n"))
      member
      (send_response cfg (mkd_command (codes "foo\n")) member)
send_response-IsAnswered_example =
    send_response-IsAnswered cfg texts (mkd_command (codes "foo\n")) member cfg-HasTexts (tt {0})
      (inl (λ e. ground (arith, e)))

abbrev pub queries : List Bytes
queries =
    codes "USER admin" ∷ codes "PASS l33t" ∷ codes "MKD foo" ∷ codes "LIST" ∷ codes "QUIT" ∷ []

-- A line of less than 20 bytes.
pub query :
    (q : Bytes) → lacks b'\n' q ≡ true → length q < 20 → bytes_eq q cmd_mkd ≡ false → IsQuery 20 q
query q l n m = record {
  line = lacks_sound b'\n' q l;
  short = n;
  named = λ e. absurd (ground (arith, m, (bytes_eq_iff q cmd_mkd).1 e));
}

pub queries-AreQueries : AreQueries 20 queries
unfolding lacks bytes_eq
queries-AreQueries = (
  query (codes "USER admin") refl (omega arith) refl,
  inr (
    query (codes "PASS l33t") refl (omega arith) refl,
    inr (
      query (codes "MKD foo") refl (omega arith) refl,
      inr (
        query (codes "LIST") refl (omega arith) refl,
        inr (query (codes "QUIT") refl (omega arith) refl, inl (inr refl)),
      ),
    ),
  ),
)

abbrev pub visitor : Session
visitor =
    session
      (segment b'U' (codes "SER admin\nPA")
        ∷ segment b'S' (codes "S l33t\nMKD foo\nLI")
        ∷ segment b'S' (codes "T\nQUIT\n")
        ∷ [])
      (accepts 3 ∷ []) [] false

respond_client-IsServed_example :
    IsServed texts queries visitor
      (coded (codes "220") (texts (codes "newClient")))
      (respond_client 5 20 cfg visitor)
unfolding contains
respond_client-IsServed_example =
    respond_client-IsServed cfg texts 20 5 queries [] visitor cfg-HasTexts queries-AreQueries
      (omega arith) refl refl (tt {0}) refl

error_lem_example :
    error numbered (
      text (codes "Error on socket shutdown")
      ∷ text (codes "socket_id = ")
      ∷ number (pos 5)
      ∷ number (pos 107)
      ∷ [])
    ≡ some (
        codes "Error on socket shutdown"
        ++ (codes " ("
            ++ (codes "socket_id = "
                ++ (signed_decimal (pos 5)
                    ++ (codes "). Error number: " ++ (signed_decimal (pos 107) ++ codes "."))))))
error_lem_example =
    error_lem (codes "Error on socket shutdown") (codes "socket_id = ") (pos 5) (pos 107)
      (omega arith) (omega arith) (omega arith)

abbrev terminal : Terminal
terminal = record {
  session =
      session (segment b'2' (codes "20 hi\n257 x\n22") ∷ segment b'1' (codes " Bye\n") ∷ []) [] []
        false;
  stdin = codes "PWD\nQUIT\n";
  stdout = [];
}

abbrev turns : List Turn
turns =
    record { typed = codes "PWD"; answered = codes "257 x" }
    ∷ record { typed = codes "QUIT"; answered = codes "221 Bye" }
    ∷ []

turns-AreTurns : AreTurns 50 turns
unfolding lacks is_list_start bytes_eq
turns-AreTurns = (
  record {
    typed_line = lacks_sound b'\n' (codes "PWD") refl;
    typed_some = omega arith;
    answered_line = lacks_sound b'\n' (codes "257 x") refl;
    answered_short = omega arith;
    answered_plain = refl;
  },
  (
    record {
      typed_line = lacks_sound b'\n' (codes "QUIT") refl;
      typed_some = omega arith;
      answered_line = lacks_sound b'\n' (codes "221 Bye") refl;
      answered_short = omega arith;
      answered_plain = refl;
    },
    tt {0},
  ),
)

abbrev pub network : Network
network = record {
  getaddrinfo = λ host port. pos 0;
  socket_result = pos 3;
  setsockopt_result = pos 0;
  bind_result = pos 0;
  listen_result = pos 0;
  connect_result = pos 0;
  accept_result = pos 4;
}

pub network-Connects : Connects network (pos 0) (codes "localhost") (codes "9000")
unfolding client_socket
network-Connects = record { made = refl; ends = refl }

abbrev program : ClientProcess
program = record { terminal = terminal; socket = not_connected }

run_client_lem_example :
    (left : List Arrival) × (outs : List Outcome) × (p' : ClientProcess) × (run_client network
        (pos 0)
        3
        50
        (codes "localhost")
        (codes "9000")
        program
      ≡ returned tt p')
    × (p'.socket.opened ≡ [])
    × (p'.terminal.stdout ≡ codes "220 hi\n257 x\n221 Bye\n")
    × (p'.terminal.session.sent ≡ codes "PWD\nQUIT\n\n")
unfolding lacks
run_client_lem_example =
    run_client_lem turns 3 50 (codes "220 hi") [] (codes "localhost") (codes "9000") network (pos 0)
      program network-Connects refl (lacks_sound b'\n' (codes "220 hi") refl) (omega arith)
      turns-AreTurns (omega arith) refl (tt {0}) refl
