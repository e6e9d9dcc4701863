-- ===== src/Ftp/Server/Promised/Login.antt =====
-- The answers of tp3_ftp_multiclient_server/common_command.cpp to USER, PASS and QUIT.
use programming_workshop.Common.{
  ◌≡◌, refl, ◌∙◌, ap, inl, inr, Bool, true, ◌&&◌, arith, Bool-cases, Bytes, codes, bytes_eq,
  bytes_eq_iff,
}
use programming_workshop.Sudoku.Socket.Send.{Accepting}
use programming_workshop.Ftp.Result.{Result, returned, continue}
use programming_workshop.Ftp.Config.{ConfigMap}
use programming_workshop.Ftp.Connection.{Session}
use programming_workshop.Ftp.Command.{user_command, pass_command, quit_command}
use programming_workshop.Ftp.Server.{
  key_user, key_pass, set_client, valid_credentials, send_user, send_pass, send_quit,
}
use programming_workshop.Ftp.Server.Replies.{answer_lem}
use programming_workshop.Ftp.Server.Login.{after_credentials}
use programming_workshop.Ftp.Server.Promised.{
  one_answer, HasTexts, asked_password, logged_in, failed_login, took_leave, coded, IsAnswered,
}

pub send_user-IsAnswered :
    (cfg : ConfigMap) (texts : Bytes → Bytes) (user : Bytes) (s : Session)
    → HasTexts cfg texts
    → Accepting s.outcomes
    → IsAnswered texts (user_command user) s (send_user cfg user s)
unfolding send_user
send_user-IsAnswered cfg texts user s t a =
    let (left, sent, b) =
      answer_lem cfg (codes "331") (codes "passRequired") (texts (codes "passRequired")) s
        t.pass_required a in
    record {
      left = left;
      text = coded (codes "331") (texts (codes "passRequired"));
      client = record s.client { possible_user = user };
      directories = s.directories;
      reply = asked_password user;
      result = ap (continue (λ u. set_client (λ c. record c { possible_user = user }))) sent;
      accepting = b;
    }

pub send_quit-IsAnswered :
    (cfg : ConfigMap) (texts : Bytes → Bytes) (s : Session)
    → HasTexts cfg texts
    → Accepting s.outcomes
    → IsAnswered texts quit_command s (send_quit cfg s)
unfolding send_quit
send_quit-IsAnswered cfg texts s t a =
    let (left, sent, b) =
      answer_lem cfg (codes "221") (codes "quitSuccess") (texts (codes "quitSuccess"))
        (record s { client = record s.client { quit = true } }) t.quit_success a in
    record {
      left = left;
      text = coded (codes "221") (texts (codes "quitSuccess"));
      client = record s.client { quit = true };
      directories = s.directories;
      reply = took_leave;
      result = sent;
      accepting = b;
    }

-- The credentials are compared with those of the configuration.
valid_credentials-HasTexts :
    (cfg : ConfigMap) (texts : Bytes → Bytes) (password : Bytes) (s : Session)
    → HasTexts cfg texts
    → valid_credentials cfg password s
      ≡ returned
          (bytes_eq s.client.possible_user (texts key_user) && bytes_eq password (texts key_pass))
          s
unfolding valid_credentials
valid_credentials-HasTexts cfg texts password s t =
    rw (t.user, t.password)
      (elim (Bool-cases (bytes_eq s.client.possible_user (texts key_user))) [
        | inl same ↦ rw same refl
        | inr other ↦ rw other refl
      ])

pass_granted :
    (cfg : ConfigMap) (texts : Bytes → Bytes) (password : Bytes) (s : Session)
    (r : Result Session Unit)
    → HasTexts cfg texts
    → Accepting s.outcomes
    → s.client.possible_user ≡ texts key_user
    → password ≡ texts key_pass
    → r ≡ after_credentials cfg true s
    → IsAnswered texts (pass_command password) s r
pass_granted cfg texts password s r t a user right h =
    let (left, sent, b) =
      answer_lem cfg (codes "230") (codes "loginSuccess") (texts (codes "loginSuccess")) s
        t.login_success a in
    record {
      left = left;
      text = coded (codes "230") (texts (codes "loginSuccess"));
      client = record s.client { logged = true };
      directories = s.directories;
      reply = logged_in password user right;
      result = h ∙ ap (continue (λ u. set_client (λ c. record c { logged = true }))) sent;
      accepting = b;
    }

pub send_pass-IsAnswered :
    (cfg : ConfigMap) (texts : Bytes → Bytes) (password : Bytes) (s : Session)
    → HasTexts cfg texts
    → Accepting s.outcomes
    → IsAnswered texts (pass_command password) s (send_pass cfg password s)
unfolding send_pass
send_pass-IsAnswered cfg texts password s t a =
    let ok : Bool =
      bytes_eq s.client.possible_user (texts key_user) && bytes_eq password (texts key_pass) in
    let step : send_pass cfg password s ≡ after_credentials cfg ok s =
      ap (continue (after_credentials cfg)) (valid_credentials-HasTexts cfg texts password s t) in
    elim (Bool-cases ok) [
      | inl granted ↦
          pass_granted cfg texts password s (send_pass cfg password s) t a
            ((bytes_eq_iff s.client.possible_user (texts key_user)).0 (ground arith))
            ((bytes_eq_iff password (texts key_pass)).0 (ground arith))
            (step ∙ ap (λ x. after_credentials cfg x s) granted)
      | inr refusal ↦
          one_answer cfg texts (pass_command password) (codes "530") (codes "loginFailed") s
            t.login_failed a (send_pass cfg password s)
            (step ∙ ap (λ x. after_credentials cfg x s) refusal) (failed_login password refusal)
    ]
