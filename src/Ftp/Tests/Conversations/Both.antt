-- ===== src/Ftp/Tests/Conversations/Both.antt =====
-- The server and the client of tp3_ftp_multiclient_server on one connection, on concrete inputs.
use programming_workshop.Common.{
  suc, ◌≡◌, refl, sym, ◌∙◌, ap, not, ◌&&◌, ◌==◌, inl, inr, Bool, true, false, some, List, [], ◌∷◌,
  arith, Bool-cases, Option-cases, Bytes, codes, bytes_eq, length, All,
}
use programming_workshop.Common.Int.{pos}
use programming_workshop.Sudoku.Socket.{segment, accepts}
use programming_workshop.Ftp.Result.{returned}
use programming_workshop.Ftp.Directories.{contains, insert, add_directory}
use programming_workshop.Ftp.Config.{ConfigMap, find, get_message}
use programming_workshop.Ftp.Connection.{Session, send_string, receive_string}
use programming_workshop.Ftp.Command.{create_command, identify_command}
use programming_workshop.Ftp.Server.{
  respond_client, send_hello, client_loop, respond_query, send_response, send_user, send_pass,
  send_mkd, valid_credentials, answer, answer_dir, format_cmd, format_cmd_dir,
}
use programming_workshop.Ftp.Socket.{not_connected}
use programming_workshop.Ftp.Client.Program.{ClientProcess, run_client}
use programming_workshop.Ftp.Dialogue.{IsLine}
use programming_workshop.Ftp.Dialogue.Together.{IsTyped, sent_by, dialogue_lem}
use programming_workshop.Ftp.Tests.{lacks, session}
use programming_workshop.Ftp.Tests.Conversations.{
  cfg, texts, cfg-HasTexts, query, network, network-Connects,
}

unfoldable is_line : Bytes → Bool
is_line [] = false
is_line (c ∷ []) = c == b'\n'
is_line (c ∷ d ∷ s) = not (c == b'\n') && is_line (d ∷ s)

is_line_sound : (s : Bytes) → is_line s ≡ true → IsLine s
unfolding is_line
is_line_sound [] h = absurd (ground (arith, h))
is_line_sound (c ∷ []) h = ([], ground (arith, h), tt {0})
is_line_sound (c ∷ d ∷ s) h =
    let (body, e, l) = is_line_sound (d ∷ s) (ground (arith, h)) in
    (c ∷ body, ap (λ z. c ∷ z) e, ((λ z. ground (arith, h, z)), l))

unfoldable are_lines : ConfigMap → Bool
unfolding is_line
are_lines [] = true
are_lines ((k, v) ∷ m) = is_line v && are_lines m

find-is_line :
    (m : ConfigMap) (key v : Bytes) → are_lines m ≡ true → find key m ≡ some v → is_line v ≡ true
unfolding find are_lines
find-is_line [] key v h e = absurd (ground (arith, e))
find-is_line ((k, w) ∷ m) key v h e = elim (Bool-cases (bytes_eq key k)) [
  | inl t ↦
      (let same : some w ≡ some v = rw t at e in
        let z : w ≡ v = ground (arith, same) in ap is_line (sym z) ∙ ground (arith, h))
  | inr f ↦ find-is_line m key v (ground (arith, h)) (rw f at e)
]

cfg-are_lines : are_lines cfg ≡ true
unfolding are_lines
cfg-are_lines = refl

texts-IsLine : (key : Bytes) → IsLine (texts key)
unfolding get_message
texts-IsLine key = elim (Option-cases (find key cfg)) [
  | inl n ↦ rw (texts, n) ([], refl, tt {0})
  | inr (v, e) ↦ rw (texts, e) (is_line_sound v (find-is_line cfg key v cfg-are_lines e))
]

abbrev lines : List Bytes
lines = codes "USER admin" ∷ codes "PASS l33t" ∷ codes "MKD foo" ∷ codes "PWD" ∷ []

lines-IsTyped : All (IsTyped 20) lines
unfolding lacks bytes_eq create_command identify_command
lines-IsTyped = (
  record {
    query = query (codes "USER admin") refl (omega arith) refl;
    some_text = λ h. ground (arith, h);
    no_list = λ h. ground (arith, h);
    no_quit = λ h. ground (arith, h);
  },
  (
    record {
      query = query (codes "PASS l33t") refl (omega arith) refl;
      some_text = λ h. ground (arith, h);
      no_list = λ h. ground (arith, h);
      no_quit = λ h. ground (arith, h);
    },
    (
      record {
        query = query (codes "MKD foo") refl (omega arith) refl;
        some_text = λ h. ground (arith, h);
        no_list = λ h. ground (arith, h);
        no_quit = λ h. ground (arith, h);
      },
      (
        record {
          query = query (codes "PWD") refl (omega arith) refl;
          some_text = λ h. ground (arith, h);
          no_list = λ h. ground (arith, h);
          no_quit = λ h. ground (arith, h);
        },
        tt {0},
      ),
    ),
  ),
)

abbrev visitor : Session
visitor =
    session
      (segment b'U' (codes "SER admin\nPA")
        ∷ segment b'S' (codes "S l33t\nMKD foo\nPW")
        ∷ segment b'D' (codes "\n\n")
        ∷ [])
      [] [] false

abbrev all_sent : Bytes
all_sent = codes "220 TallerFTP\n331 Password.\n230 Welcome.\n257 \"foo\" created\n257 here\n"

abbrev final : Session
final = record visitor {
  client = record visitor.client { logged = true; quit = true; possible_user = codes "admin\n" };
  arrivals = [];
  sent = all_sent;
  directories = codes "foo\n" ∷ [];
}

visitor_run : respond_client 5 20 cfg visitor ≡ returned tt final
unfolding respond_client send_hello client_loop receive_string respond_query create_command
    identify_command bytes_eq send_response send_user send_pass send_mkd valid_credentials
    get_message answer answer_dir format_cmd format_cmd_dir send_string add_directory insert
visitor_run = refl

abbrev player : ClientProcess
player = record {
  terminal = record {
    session =
        session
          (segment b'2' (codes "20 TallerFTP\n331 Password.\n230 Wel")
            ∷ segment b'c' (codes "ome.\n257 \"foo\" created\n257 here\n")
            ∷ [])
          (accepts 4 ∷ []) [] false;
    stdin = codes "USER admin\nPASS l33t\nMKD foo\nPWD\n";
    stdout = [];
  };
  socket = not_connected;
}

dialogue_lem_example :
    (last : Session) × (p' : ClientProcess) × (respond_client 5 20 cfg visitor ≡ returned tt last)
    × (run_client network
          (pos 0)
          5
          (suc (length last.sent))
          (codes "localhost")
          (codes "9000")
          player
        ≡ returned tt p')
    × (p'.terminal.stdout ≡ last.sent)
    × (p'.terminal.session.sent ≡ codes "USER admin\nPASS l33t\nMKD foo\nPWD\n\n")
unfolding contains
dialogue_lem_example =
    dialogue_lem cfg texts 20 lines visitor (codes "localhost") (codes "9000") network (pos 0)
      player cfg-HasTexts texts-IsLine (omega arith) lines-IsTyped refl refl (tt {0}) refl refl
      network-Connects refl refl (tt {0}) (ap sent_by (sym visitor_run))
