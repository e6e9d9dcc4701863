-- ===== src/Ftp/Tests.antt =====
-- Instances of the theorems about tp3_ftp_multiclient_server.
mod Conversations
mod Servers
use programming_workshop.Common.{
  ℕ, ◌≡◌, refl, Bool, true, false, some, List, [], ◌∷◌, arith, Bytes, codes, bytes_eq, ◌==◌, ◌&&◌,
  not,
}
use programming_workshop.Common.Int.{pos}
use programming_workshop.Sudoku.Socket.{Arrival, segment, Outcome, accepts}
use programming_workshop.Sudoku.Socket.Send.{Accepting}
use programming_workshop.Sudoku.Socket.Receive.{available}
use programming_workshop.Ftp.Result.{returned, unfinished, faulted, state_after, ◌>>=◌}
use programming_workshop.Ftp.Directories.{contains, insert}
use programming_workshop.Ftp.Directories.Refinement.{
  Call, add, remove, calls, promises, Shows, calls_lem,
}
use programming_workshop.Ftp.Config.{ConfigMap, config, get_message}
use programming_workshop.Ftp.Config.Lookup.{Lacks, Entries, file_of, first_text, config_lem}
use programming_workshop.Ftp.Connection.{Session, receive_string, send_string}
use programming_workshop.Ftp.Connection.Lines.{receive_string_lem, receive_string-unfinished}
use programming_workshop.Ftp.Connection.Sending.{send_string_lem}
use programming_workshop.Ftp.Command.{
  create_command, identify_command, mkd_command, user_command, pass_command,
}
use programming_workshop.Ftp.Command.Parse.{create_command_lem, create_command-short}
use programming_workshop.Ftp.Server.{
  respond_query, send_response, answer, send_pass, valid_credentials,
}
use programming_workshop.Ftp.Server.Login.{IsLogin, respond_query-guarded}
use programming_workshop.Ftp.Server.Replies.{send_mkd_lem, send_mkd-faulted, login_lem}
use programming_workshop.Ftp.Client.{is_list_start}
use programming_workshop.Ftp.Client.Run.{Terminal, receive_list, run_loop}
use programming_workshop.Ftp.Client.Exchange.{
  Turn, AreTurns, finished, run_loop_lem, receive_list-faulted,
}

unfoldable pub lacks : ℕ → Bytes → Bool
lacks d [] = true
lacks d (c ∷ s) = not (c == d) && lacks d s

pub lacks_sound : (d : ℕ) (s : Bytes) → lacks d s ≡ true → Lacks d s
unfolding lacks
lacks_sound d [] h = tt {0}
lacks_sound d (c ∷ s) h = (ground arith, lacks_sound d s (ground arith))

abbrev some_calls : List Call
some_calls = add (codes "b\n") ∷ add (codes "a\n") ∷ add (codes "b\n") ∷ remove (codes "c\n") ∷ []

calls_lem_example :
    ((calls some_calls []).0 ≡ (promises some_calls (λ e. false)).0)
    × Shows (calls some_calls []).1 (promises some_calls (λ e. false)).1
unfolding contains
calls_lem_example =
    calls_lem some_calls [] (λ e. false) (record { ordered = tt {0}; names = λ e. refl })

-- Two lines of a configuration file, and a second one with the key of the first.
abbrev entries : Entries
entries =
    (codes "user", codes "admin") ∷ (codes "quit", codes "Bye") ∷ (codes "user", codes "eve") ∷ []

config_lem_example :
    (m : ConfigMap) × (config (file_of entries) ≡ some m)
    × (get_message m (codes "user") ≡ some (codes "admin\n"))
unfolding first_text bytes_eq lacks
config_lem_example =
    config_lem entries (codes "user")
      (
        lacks_sound b'=' (codes "user") refl,
        lacks_sound b'\n' (codes "admin") refl,
        (
          lacks_sound b'=' (codes "quit") refl,
          lacks_sound b'\n' (codes "Bye") refl,
          (lacks_sound b'=' (codes "user") refl, lacks_sound b'\n' (codes "eve") refl, tt {0}),
        ),
      )
      refl

abbrev pub session : List Arrival → List Outcome → Bytes → Bool → Session
session arrivals outcomes user logged = record {
  client = record {
    socket_id = pos 5;
    is_alive = true;
    logged = logged;
    quit = false;
    possible_user = user;
  };
  arrivals = arrivals;
  outcomes = outcomes;
  sent = [];
  alive = true;
  directories = [];
}

-- The client closes the connection behind "QUIT", without a newline.
abbrev cut_short : Session
cut_short = session (segment b'Q' (codes "UI") ∷ segment b'T' [] ∷ []) [] [] false

receive_string-unfinished_example : receive_string 100 cut_short ≡ unfinished
unfolding lacks
receive_string-unfinished_example =
    receive_string-unfinished 100 cut_short
      (λ h. ground arith, lacks_sound b'\n' (codes "UI") refl, (λ h. ground arith, tt {0}, tt {0}))

-- The configuration of the server, as far as it is used here.
abbrev cfg : ConfigMap
cfg =
    (codes "user", codes "admin\n")
    ∷ (codes "password", codes "l33t\n")
    ∷ (codes "passRequired", codes "Password.\n")
    ∷ (codes "loginSuccess", codes "Welcome.\n")
    ∷ (codes "mkdSuccess", codes "created\n")
    ∷ []

abbrev guest : Session
guest = session [] [] (codes "admin\n") false

abbrev member : Session
member = session [] [] (codes "admin\n") true

send_mkd-faulted_example : send_response cfg (mkd_command []) member ≡ faulted
unfolding contains
send_mkd-faulted_example = send_mkd-faulted cfg member refl refl

abbrev served : Session
served = record guest {
  client = record guest.client { logged = true };
  sent = codes "230 Welcome.\n";
}

login_run : state_after (respond_query cfg (codes "PASS l33t\n") guest) ≡ some served
unfolding respond_query create_command identify_command bytes_eq send_response send_pass
    valid_credentials get_message answer send_string
login_run = refl

respond_query-guarded_example :
    (served.directories ≡ guest.directories)
    × (served.client.logged ≡ true
        → (arg : Bytes) × (create_command (codes "PASS l33t\n") ≡ some (pass_command arg))
          × IsLogin cfg guest.client.possible_user arg)
respond_query-guarded_example =
    respond_query-guarded cfg (codes "PASS l33t\n") guest served refl login_run
