-- ===== src/Ftp/Server/Promised.antt =====
-- What the server of tp3_ftp_multiclient_server promises a client for each command, apart from how
-- common_command.cpp does it: the answer, and what becomes of the client and the directories.
pub mod Login
pub mod Folders
pub mod Commands
use mathlib.Core.List.{append_assoc}
use programming_workshop.Common.{
  ℕ, ◌≡◌, ◌≢◌, refl, sym, ◌∙◌, ap, ◌⊎◌, inl, inr, Bool, true, false, ◌&&◌, some, List, [], ◌∷◌,
  ◌++◌, arith, if◌then◌else◌, Bool-cases, Bytes, codes, bytes_eq, bytes_eq_iff, ltb, length,
}
use programming_workshop.Sudoku.Socket.{Outcome}
use programming_workshop.Sudoku.Socket.Send.{Accepting}
use programming_workshop.Ftp.Result.{
  Result, returned, threw, faulted, unfinished, Act, continue, ◌>>=◌, pure,
}
use programming_workshop.Ftp.Directories.{
  Directories, contains, insert, erase, add_directory, remove_directory, get_list, directories_size,
}
use programming_workshop.Ftp.Config.{ConfigMap, get_message}
use programming_workshop.Ftp.Connection.{Client, Session, send_string}
use programming_workshop.Ftp.Connection.Sending.{send_string_lem}
use programming_workshop.Ftp.Command.{
  Command, user_command, pass_command, syst_command, list_command, help_command, pwd_command,
  mkd_command, rmd_command, quit_command, invalid_command,
}
use programming_workshop.Ftp.Server.{
  key_user, key_pass, answer, answer_dir, set_client, set_directories, not_logged,
  valid_credentials, send_user, send_pass, send_directories, send_list, send_mkd, send_rmd,
  send_quit, if_logged, send_response,
}
use programming_workshop.Ftp.Server.Replies.{answer_lem, answer_dir_lem, sent_more}

-- The configuration has every text that the server looks up.
pub record HasTexts (cfg : ConfigMap) (texts : Bytes → Bytes) : Type 0 where
  pub new_client : get_message cfg (codes "newClient") ≡ some (texts (codes "newClient"))
  pub user : get_message cfg key_user ≡ some (texts key_user)
  pub password : get_message cfg key_pass ≡ some (texts key_pass)
  pub pass_required : get_message cfg (codes "passRequired") ≡ some (texts (codes "passRequired"))
  pub login_failed : get_message cfg (codes "loginFailed") ≡ some (texts (codes "loginFailed"))
  pub login_success : get_message cfg (codes "loginSuccess") ≡ some (texts (codes "loginSuccess"))
  pub guest : get_message cfg (codes "clientNotLogged") ≡ some (texts (codes "clientNotLogged"))
  pub current :
      get_message cfg (codes "currentDirectoryMsg") ≡ some (texts (codes "currentDirectoryMsg"))
  pub list_begin : get_message cfg (codes "listBegin") ≡ some (texts (codes "listBegin"))
  pub list_end : get_message cfg (codes "listEnd") ≡ some (texts (codes "listEnd"))
  pub mkd_success : get_message cfg (codes "mkdSuccess") ≡ some (texts (codes "mkdSuccess"))
  pub mkd_failed : get_message cfg (codes "mkdFailed") ≡ some (texts (codes "mkdFailed"))
  pub rmd_success : get_message cfg (codes "rmdSuccess") ≡ some (texts (codes "rmdSuccess"))
  pub rmd_failed : get_message cfg (codes "rmdFailed") ≡ some (texts (codes "rmdFailed"))
  pub quit_success : get_message cfg (codes "quitSuccess") ≡ some (texts (codes "quitSuccess"))
  pub system_info : get_message cfg (codes "systemInfo") ≡ some (texts (codes "systemInfo"))
  pub unknown : get_message cfg (codes "unknownCommand") ≡ some (texts (codes "unknownCommand"))
  pub commands : get_message cfg (codes "commands") ≡ some (texts (codes "commands"))

-- A line that starts with a code, and one with a name in quotes between.
abbrev pub coded : Bytes → Bytes → Bytes
coded id text = id ++ b' ' ∷ text

abbrev pub quoted : Bytes → Bytes → Bytes → Bytes
quoted id name text = id ++ b' ' ∷ b'"' ∷ (name ++ b'"' ∷ b' ' ∷ text)

-- The commands of a client that has logged in.
abbrev pub IsReserved : Command → Type 0
IsReserved (user_command _) = ⊥
IsReserved (pass_command _) = ⊥
IsReserved quit_command = ⊥
IsReserved invalid_command = ⊥
IsReserved _ = Unit {0}

-- A bare MKD or RMD takes the last byte of an empty name if it succeeds.
abbrev pub HasName : Directories → Command → Type 0
HasName ds (mkd_command d) = (d ≢ []) ⊎ (contains d ds ≡ true)
HasName ds (rmd_command d) = (d ≢ []) ⊎ (contains d ds ≡ false)
HasName ds _ = Unit {0}

-- The answer to a command of the client `c` with the directories `ds`, and both behind it.
pub data Reply (texts : Bytes → Bytes) (c : Client) (ds : Directories)
    : Command → Bytes → Client → Directories → Type 0 where
  asked_password :
      (user : Bytes)
      → Reply texts c ds
          (user_command user)
          (coded (codes "331") (texts (codes "passRequired")))
          (record c { possible_user = user })
          ds
  logged_in :
      (password : Bytes)
      → c.possible_user ≡ texts key_user
      → password ≡ texts key_pass
      → Reply texts c ds
          (pass_command password)
          (coded (codes "230") (texts (codes "loginSuccess")))
          (record c { logged = true })
          ds
  failed_login :
      (password : Bytes)
      → bytes_eq c.possible_user (texts key_user) && bytes_eq password (texts key_pass) ≡ false
      → Reply texts c ds
          (pass_command password)
          (coded (codes "530") (texts (codes "loginFailed")))
          c
          ds
  refused_guest :
      (cmd : Command)
      → c.logged ≡ false
      → IsReserved cmd
      → Reply texts c ds cmd (coded (codes "530") (texts (codes "clientNotLogged"))) c ds
  told_system :
      c.logged ≡ true
      → Reply texts c ds syst_command (coded (codes "215") (texts (codes "systemInfo"))) c ds
  told_commands :
      c.logged ≡ true
      → Reply texts c ds help_command (coded (codes "214") (texts (codes "commands"))) c ds
  told_directory :
      c.logged ≡ true
      → Reply texts c ds pwd_command
          (coded (codes "257") (texts (codes "currentDirectoryMsg")))
          c
          ds
  listed :
      c.logged ≡ true
      → Reply texts c ds list_command
          (coded (codes "150") (texts (codes "listBegin"))
            ++ (get_list ds ++ coded (codes "226") (texts (codes "listEnd"))))
          c
          ds
  made :
      (d name : Bytes) (b : ℕ)
      → c.logged ≡ true
      → d ≡ name ++ b ∷ []
      → contains d ds ≡ false
      → Reply texts c ds
          (mkd_command d)
          (quoted (codes "257") name (texts (codes "mkdSuccess")))
          c
          (insert d ds)
  not_made :
      (d : Bytes)
      → c.logged ≡ true
      → contains d ds ≡ true
      → Reply texts c ds (mkd_command d) (coded (codes "550") (texts (codes "mkdFailed"))) c ds
  removed :
      (d name : Bytes) (b : ℕ)
      → c.logged ≡ true
      → d ≡ name ++ b ∷ []
      → contains d ds ≡ true
      → Reply texts c ds
          (rmd_command d)
          (quoted (codes "250") name (texts (codes "rmdSuccess")))
          c
          (erase d ds)
  not_removed :
      (d : Bytes)
      → c.logged ≡ true
      → contains d ds ≡ false
      → Reply texts c ds (rmd_command d) (coded (codes "550") (texts (codes "rmdFailed"))) c ds
  took_leave :
      Reply texts c ds quit_command
        (coded (codes "221") (texts (codes "quitSuccess")))
        (record c { quit = true })
        ds
  unknown :
      Reply texts c ds invalid_command (coded (codes "530") (texts (codes "unknownCommand"))) c ds

-- The session behind an answer.
abbrev pub replied : Session → List Outcome → Bytes → Client → Directories → Session
replied s left text client ds = record s {
  client = client;
  directories = ds;
  outcomes = left;
  sent = s.sent ++ text;
}

-- A call has sent the promised answer to a command, whole, and nothing else; send() can go on.
pub record IsAnswered (texts : Bytes → Bytes) (cmd : Command) (s : Session)
    (r : Result Session Unit) : Type 0 where
  pub left : List Outcome
  pub text : Bytes
  pub client : Client
  pub directories : Directories
  pub reply : Reply texts s.client s.directories cmd text client directories
  pub result : r ≡ returned tt (replied s left text client directories)
  pub accepting : Accepting left

-- One answer, behind which the client and the directories are as before.
pub one_answer :
    (cfg : ConfigMap) (texts : Bytes → Bytes) (cmd : Command) (id message : Bytes) (s : Session)
    → get_message cfg message ≡ some (texts message)
    → Accepting s.outcomes
    → (r : Result Session Unit) → r ≡ answer cfg id message s
    → Reply texts s.client s.directories cmd (coded id (texts message)) s.client s.directories
    → IsAnswered texts cmd s r
one_answer cfg texts cmd id message s e a r h reply =
    let (left, sent, b) = answer_lem cfg id message (texts message) s e a in
    record {
      left = left;
      text = coded id (texts message);
      client = s.client;
      directories = s.directories;
      reply = reply;
      result = h ∙ sent;
      accepting = b;
    }

-- A command that most clients may not use, by whether the client has logged in.
pub reserved :
    (cfg : ConfigMap) (texts : Bytes → Bytes) (cmd : Command) (act : Act Session Unit) (s : Session)
    → HasTexts cfg texts
    → Accepting s.outcomes
    → IsReserved cmd
    → (s.client.logged ≡ true → IsAnswered texts cmd s (act s))
    → IsAnswered texts cmd s (if_logged cfg act s)
reserved cfg texts cmd act s t a kind run = elim (Bool-cases s.client.logged) [
  | inl granted ↦
      (let done = run granted in
        record {
          left = done.left;
          text = done.text;
          client = done.client;
          directories = done.directories;
          reply = done.reply;
          result = ap (λ l. (if l then act else not_logged cfg) s) granted ∙ done.result;
          accepting = done.accepting;
        })
  | inr out ↦
      one_answer cfg texts cmd (codes "530") (codes "clientNotLogged") s t.guest a
        (if_logged cfg act s) (ap (λ l. (if l then act else not_logged cfg) s) out)
        (refused_guest cmd out kind)
]
