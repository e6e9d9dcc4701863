-- ===== src/Ftp/Server/Replies.antt =====
-- What the server of tp3_ftp_multiclient_server answers when nothing fails.
use mathlib.Core.List.{append_assoc}
use programming_workshop.Common.{
  ℕ, ◌≡◌, refl, ◌∙◌, ap, Bool, true, false, some, List, [], ◌∷◌, ◌++◌, if◌then◌else◌, Bytes, codes,
  bytes_eq, bytes_eq_iff,
}
use programming_workshop.Sudoku.Socket.{Outcome}
use programming_workshop.Sudoku.Socket.Send.{Accepting}
use programming_workshop.Ftp.Result.{returned, faulted, pure, continue, ◌>>=◌, lift}
use programming_workshop.Ftp.Strings.{bytes_eq_refl}
use programming_workshop.Ftp.Directories.{Directories, contains, insert, add_directory}
use programming_workshop.Ftp.Config.{ConfigMap, get_message}
use programming_workshop.Ftp.Connection.{Session, send_string}
use programming_workshop.Ftp.Connection.Sending.{send_string_lem}
use programming_workshop.Ftp.Command.{mkd_command, user_command, pass_command, pop_back}
use programming_workshop.Ftp.Command.Parse.{pop_back-append}
use programming_workshop.Ftp.Server.{
  key_user, key_pass, format_cmd, format_cmd_dir, not_logged, answer, answer_dir, set_client,
  set_directories, valid_credentials, send_user, send_pass, send_mkd, send_response,
}

-- The text is sent, and nothing else changes but what send() does next.
abbrev pub sent_more : Session → List Outcome → Bytes → Session
sent_more s left text = record s { outcomes = left; sent = s.sent ++ text }

pub answer_lem :
    (cfg : ConfigMap) (id message text : Bytes) (s : Session)
    → get_message cfg message ≡ some text
    → Accepting s.outcomes
    → (left : List Outcome) × (answer cfg id message s
        ≡ returned tt (sent_more s left (id ++ b' ' ∷ text)))
      × Accepting left
unfolding answer format_cmd
answer_lem cfg id message text s e a =
    let (left, r, b) = send_string_lem (id ++ b' ' ∷ text) s a in
    (
      left,
      ap (λ o. continue send_string (continue (λ t. pure (id ++ b' ' ∷ t)) (lift o s))) e ∙ r,
      b,
    )

pub answer_dir_lem :
    (cfg : ConfigMap) (id name message text : Bytes) (c : ℕ) (s : Session)
    → get_message cfg message ≡ some text
    → Accepting s.outcomes
    → (left : List Outcome) × (answer_dir cfg id (name ++ c ∷ []) message s
        ≡ returned tt (sent_more s left (id ++ b' ' ∷ b'"' ∷ (name ++ b'"' ∷ b' ' ∷ text))))
      × Accepting left
unfolding answer_dir format_cmd_dir
answer_dir_lem cfg id name message text c s e a =
    let (left, r, b) = send_string_lem (id ++ b' ' ∷ b'"' ∷ (name ++ b'"' ∷ b' ' ∷ text)) s a in
    let form : Bytes → Bytes → Bytes = λ n t. id ++ b' ' ∷ b'"' ∷ (n ++ b'"' ∷ b' ' ∷ t) in
    (
      left,
      ap
            (λ o. continue send_string (
              continue
                (λ n. (λ q. continue (λ t. pure (form n t)) (lift (get_message cfg message) q)))
                (lift o s)))
            (pop_back-append name c)
          ∙ ap (λ o. continue send_string (continue (λ t. pure (form name t)) (lift o s))) e
          ∙ r,
      b,
    )

-- A logged-in client that asks for a directory that is absent gets it, and the answer 257 with its
-- name in quotes. The last byte of the name, its newline, is kept in the set and left out in the
-- answer.
pub send_mkd_lem :
    (cfg : ConfigMap) (name text : Bytes) (c : ℕ) (s : Session)
    → s.client.logged ≡ true
    → contains (name ++ c ∷ []) s.directories ≡ false
    → get_message cfg (codes "mkdSuccess") ≡ some text
    → Accepting s.outcomes
    → (left : List Outcome) × (send_response cfg (mkd_command (name ++ c ∷ [])) s
        ≡ returned tt (record s {
          directories = insert (name ++ c ∷ []) s.directories;
          outcomes = left;
          sent = s.sent ++ (codes "257 \"" ++ (name ++ b'"' ∷ b' ' ∷ text));
        }))
      × Accepting left
unfolding send_response send_mkd add_directory
send_mkd_lem cfg name text c s granted absent e a =
    let d : Bytes = name ++ c ∷ [] in
    let (left, r, b) =
      answer_dir_lem cfg (codes "257") name (codes "mkdSuccess") text c
        (record s { directories = insert d s.directories }) e a in
    (
      left,
      ap (λ t. (if t then send_mkd cfg d else not_logged cfg) s) granted
          ∙ ap
              (λ t.
                let added : Bool × Directories =
                  if t then (false, s.directories) else (true, insert d s.directories) in
                continue
                  (λ u.
                    if added.0
                    then answer_dir cfg (codes "257") d (codes "mkdSuccess")
                    else answer cfg (codes "550") (codes "mkdFailed"))
                  (set_directories added.1 s))
              absent
          ∙ r,
      b,
    )

-- A logged-in client that sends a bare MKD, while there is no directory with an empty name, makes the
-- server take the last byte of an empty string, which is undefined.
pub send_mkd-faulted :
    (cfg : ConfigMap) (s : Session)
    → s.client.logged ≡ true
    → contains [] s.directories ≡ false
    → send_response cfg (mkd_command []) s ≡ faulted
unfolding send_response send_mkd add_directory answer_dir format_cmd_dir pop_back
send_mkd-faulted cfg s granted absent =
    ap (λ t. (if t then send_mkd cfg [] else not_logged cfg) s) granted
    ∙ ap
        (λ t.
          let added : Bool × Directories =
            if t then (false, s.directories) else (true, insert [] s.directories) in
          continue
            (λ u.
              if added.0
              then answer_dir cfg (codes "257") [] (codes "mkdSuccess")
              else answer cfg (codes "550") (codes "mkdFailed"))
            (set_directories added.1 s))
        absent

-- The state behind a login.
abbrev logged_in : Session → Bytes → List Outcome → Bytes → Session
logged_in s user left text = record s {
  client = record s.client { possible_user = user; logged = true };
  outcomes = left;
  sent = s.sent ++ text;
}

valid_credentials-IsLogin :
    (cfg : ConfigMap) (user password : Bytes) (s : Session)
    → s.client.possible_user ≡ user
    → get_message cfg key_user ≡ some user
    → get_message cfg key_pass ≡ some password
    → valid_credentials cfg password s ≡ returned true s
unfolding valid_credentials
valid_credentials-IsLogin cfg user password s e eu ep =
    let same_user : bytes_eq s.client.possible_user user ≡ true =
      (bytes_eq_iff s.client.possible_user user).1 e in
    rw (eu, same_user, ep, bytes_eq_refl password) refl

send_user_lem :
    (cfg : ConfigMap) (user text : Bytes) (s : Session)
    → get_message cfg (codes "passRequired") ≡ some text
    → Accepting s.outcomes
    → (left : List Outcome) × (send_user cfg user s
        ≡ returned tt (record s {
          client = record s.client { possible_user = user };
          outcomes = left;
          sent = s.sent ++ (codes "331 " ++ text);
        }))
      × Accepting left
unfolding send_user
send_user_lem cfg user text s e a =
    let (left, r, b) = answer_lem cfg (codes "331") (codes "passRequired") text s e a in
    (left, ap (continue (λ u. set_client (λ c. record c { possible_user = user }))) r, b)

send_pass_lem :
    (cfg : ConfigMap) (user password text : Bytes) (s : Session)
    → s.client.possible_user ≡ user
    → get_message cfg key_user ≡ some user
    → get_message cfg key_pass ≡ some password
    → get_message cfg (codes "loginSuccess") ≡ some text
    → Accepting s.outcomes
    → (left : List Outcome) × (send_pass cfg password s
        ≡ returned tt (record s {
          client = record s.client { logged = true };
          outcomes = left;
          sent = s.sent ++ (codes "230 " ++ text);
        }))
      × Accepting left
unfolding send_pass
send_pass_lem cfg user password text s u eu ep e a =
    let (left, r, b) = answer_lem cfg (codes "230") (codes "loginSuccess") text s e a in
    (
      left,
      ap
            (continue (λ ok.
              if ok
              then (do
                _ ← answer cfg (codes "230") (codes "loginSuccess")
                set_client (λ c. record c { logged = true }))
              else answer cfg (codes "530") (codes "loginFailed")))
            (valid_credentials-IsLogin cfg user password s u eu ep)
          ∙ ap (continue (λ q. set_client (λ c. record c { logged = true }))) r,
      b,
    )

-- The commands USER and PASS with the credentials of the configuration file log a client in, and are
-- answered by 331 and 230 with the texts of the file.
pub login_lem :
    (cfg : ConfigMap) (user password required success : Bytes) (s : Session)
    → get_message cfg key_user ≡ some user
    → get_message cfg key_pass ≡ some password
    → get_message cfg (codes "passRequired") ≡ some required
    → get_message cfg (codes "loginSuccess") ≡ some success
    → Accepting s.outcomes
    → (left : List Outcome) × ((do
      _ ← send_response cfg (user_command user)
      send_response cfg (pass_command password))
          s
        ≡ returned tt
            (logged_in s user left ((codes "331 " ++ required) ++ (codes "230 " ++ success))))
      × Accepting left
unfolding send_response
login_lem cfg user password required success s eu ep er es a =
    let (left1, r1, a1) = send_user_lem cfg user required s er a in
    let s1 : Session = record s {
      client = record s.client { possible_user = user };
      outcomes = left1;
      sent = s.sent ++ (codes "331 " ++ required);
    } in
    let (left, r, b) = send_pass_lem cfg user password success s1 refl eu ep es a1 in
    (
      left,
      ap (continue (λ u. send_pass cfg password)) r1
          ∙ r
          ∙ ap (λ x. returned tt (record (logged_in s user left []) { sent = x }))
              (append_assoc s.sent (codes "331 " ++ required) (codes "230 " ++ success)),
      b,
    )
