-- ===== src/Ftp/Server/Stays/Queries.antt =====
-- Each query of tp3_ftp_multiclient_server/common_command.cpp: what it leaves as it is.
use programming_workshop.Common.{
  ◌≡◌, refl, sym, ◌∙◌, ap, inl, inr, Bool, true, false, some, [], ◌∷◌, arith, if◌then◌else◌,
  Bool-cases, Option-cases, Bytes, codes, bytes_eq, ltb,
}
use programming_workshop.Ftp.Result.{Act, pure, continue, ◌>>=◌, state_after}
use programming_workshop.Ftp.Directories.{
  Directories, contains, insert, erase, add_directory, remove_directory, get_list, directories_size,
}
use programming_workshop.Ftp.Directories.Refinement.{
  IsOrdered, insert-IsOrdered, erase-IsOrdered, contains-insert, contains-erase_empty,
}
use programming_workshop.Ftp.Config.{ConfigMap}
use programming_workshop.Ftp.Connection.{Session}
use programming_workshop.Ftp.Command.{
  Command, user_command, pass_command, syst_command, list_command, help_command, pwd_command,
  mkd_command, rmd_command, quit_command, invalid_command, create_command, pop_back,
}
use programming_workshop.Ftp.Server.{
  answer, answer_dir, format_cmd_dir, set_client, set_directories, not_logged, valid_credentials,
  send_user, send_pass, send_directories, send_list, send_mkd, send_rmd, send_quit, if_logged,
  send_response, respond_query,
}
use programming_workshop.Ftp.Server.Login.{valid_credentials_lem}
use programming_workshop.Ftp.Server.Stays.{
  IsFollowed, Follows, kept-IsFollowed, bind-Follows, answer-Follows, send_string-Follows,
  pure-Follows, set_client-Follows, answer_dir-Follows,
}

-- The two parts of a change of the directories: the change, and the answer.
changed-Follows :
    (ds : Directories) (act : Act Session Unit) (s : Session)
    → Follows act
    → (IsOrdered s.directories → IsOrdered ds)
    → (contains [] s.directories ≡ false → contains [] ds ≡ false)
    → (s' : Session) → state_after (act (record s { directories = ds })) ≡ some s'
    → IsFollowed s s'
changed-Follows ds act s k o n s' h =
    let behind = k (record s { directories = ds }) s' h in
    record {
      logged = behind.logged;
      ordered = λ x. behind.ordered (o x);
      named = λ x. behind.named (n x);
    }

-- The end of MKD for a directory that is absent. For the empty name it is undefined.
added-Follows :
    (cfg : ConfigMap) (d : Bytes) (s s' : Session)
    → state_after (
        answer_dir cfg
          (codes "257")
          d
          (codes "mkdSuccess")
          (record s { directories = insert d s.directories }))
      ≡ some s'
    → IsFollowed s s'
unfolding answer_dir format_cmd_dir pop_back bytes_eq
added-Follows cfg [] s s' h = absurd (ground (arith, h))
added-Follows cfg (x ∷ d) s s' h =
    changed-Follows (insert (x ∷ d) s.directories)
      (answer_dir cfg (codes "257") (x ∷ d) (codes "mkdSuccess")) s
      (answer_dir-Follows cfg (codes "257") (x ∷ d) (codes "mkdSuccess"))
      (insert-IsOrdered (x ∷ d) s.directories) (λ n. contains-insert (x ∷ d) [] s.directories ∙ n)
      s' h

send_mkd-Follows : (cfg : ConfigMap) (d : Bytes) → Follows (send_mkd cfg d)
unfolding send_mkd add_directory
send_mkd-Follows cfg d s s' h =
    let made = λ (present : Bool).
      let r : Bool × Directories =
        if present then (false, s.directories) else (true, insert d s.directories) in
      continue
        (λ (u : Unit {0}).
          if r.0
          then answer_dir cfg (codes "257") d (codes "mkdSuccess")
          else answer cfg (codes "550") (codes "mkdFailed"))
        (set_directories r.1 s) in
    elim (Bool-cases (contains d s.directories)) [
      | inl present ↦
          answer-Follows cfg (codes "550") (codes "mkdFailed") s s'
            (ap (λ b. state_after (made b)) (sym present) ∙ h)
      | inr absent ↦ added-Follows cfg d s s' (ap (λ b. state_after (made b)) (sym absent) ∙ h)
    ]

send_rmd-Follows : (cfg : ConfigMap) (d : Bytes) → Follows (send_rmd cfg d)
unfolding send_rmd remove_directory
send_rmd-Follows cfg d s s' h =
    let gone = λ (present : Bool).
      let r : Bool × Directories =
        if present then (true, erase d s.directories) else (false, s.directories) in
      continue
        (λ (u : Unit {0}).
          if r.0
          then answer_dir cfg (codes "250") d (codes "rmdSuccess")
          else answer cfg (codes "550") (codes "rmdFailed"))
        (set_directories r.1 s) in
    elim (Bool-cases (contains d s.directories)) [
      | inl present ↦
          changed-Follows (erase d s.directories)
            (answer_dir cfg (codes "250") d (codes "rmdSuccess")) s
            (answer_dir-Follows cfg (codes "250") d (codes "rmdSuccess"))
            (erase-IsOrdered d s.directories) (contains-erase_empty d s.directories) s'
            (ap (λ b. state_after (gone b)) (sym present) ∙ h)
      | inr absent ↦
          answer-Follows cfg (codes "550") (codes "rmdFailed") s s'
            (ap (λ b. state_after (gone b)) (sym absent) ∙ h)
    ]

send_user-Follows : (cfg : ConfigMap) (user : Bytes) → Follows (send_user cfg user)
unfolding send_user
send_user-Follows cfg user =
    bind-Follows (answer cfg (codes "331") (codes "passRequired")) _
      (answer-Follows cfg (codes "331") (codes "passRequired"))
      (λ u. set_client-Follows (λ c. record c { possible_user = user }) (λ c l. l))

valid_credentials-Follows : (cfg : ConfigMap) (p : Bytes) → Follows (valid_credentials cfg p)
valid_credentials-Follows cfg p s s' h =
    let same = λ (e : some s ≡ some s').
      kept-IsFollowed s s'
        (record { client = ground (arith, e); directories = ground (arith, e) }) in
    elim (valid_credentials_lem cfg p s (valid_credentials cfg p s) refl) [
      | inl f ↦ absurd (ground (arith, sym (ap state_after f) ∙ h))
      | inr (inl f) ↦ same (sym (ap state_after f) ∙ h)
      | inr (inr (t, _)) ↦ same (sym (ap state_after t) ∙ h)
    ]

login-Follows :
    (cfg : ConfigMap)
    → Follows (do
      _ ← answer cfg (codes "230") (codes "loginSuccess")
      set_client (λ c. record c { logged = true }))
login-Follows cfg =
    bind-Follows (answer cfg (codes "230") (codes "loginSuccess")) _
      (answer-Follows cfg (codes "230") (codes "loginSuccess"))
      (λ u. set_client-Follows (λ c. record c { logged = true }) (λ c l. refl))

-- Either of two calls.
if-Follows :
    (b : Bool) (m n : Act Session Unit) → Follows m → Follows n → Follows (if b then m else n)
if-Follows true m n k l = k
if-Follows false m n k l = l

send_pass-Follows : (cfg : ConfigMap) (p : Bytes) → Follows (send_pass cfg p)
unfolding send_pass
send_pass-Follows cfg p =
    bind-Follows (valid_credentials cfg p) _ (valid_credentials-Follows cfg p) (λ ok.
      if-Follows ok _ _ (login-Follows cfg)
        (answer-Follows cfg (codes "530") (codes "loginFailed")))

send_directories-Follows : Follows send_directories
unfolding send_directories
send_directories-Follows s s' h =
    if-Follows (ltb 0 (directories_size s.directories)) _ (pure tt)
      (send_string-Follows (get_list s.directories)) (pure-Follows tt) s s' h

send_list-Follows : (cfg : ConfigMap) → Follows (send_list cfg)
unfolding send_list
send_list-Follows cfg =
    bind-Follows (answer cfg (codes "150") (codes "listBegin")) _
      (answer-Follows cfg (codes "150") (codes "listBegin"))
      (λ u.
        bind-Follows send_directories _ send_directories-Follows
          (λ v. answer-Follows cfg (codes "226") (codes "listEnd")))

send_quit-Follows : (cfg : ConfigMap) → Follows (send_quit cfg)
unfolding send_quit
send_quit-Follows cfg =
    bind-Follows (set_client (λ c. record c { quit = true })) _
      (set_client-Follows (λ c. record c { quit = true }) (λ c l. l))
      (λ u. answer-Follows cfg (codes "221") (codes "quitSuccess"))

if_logged-Follows :
    (cfg : ConfigMap) (act : Act Session Unit) → Follows act → Follows (if_logged cfg act)
if_logged-Follows cfg act k s s' h =
    if-Follows s.client.logged act (not_logged cfg) k
      (answer-Follows cfg (codes "530") (codes "clientNotLogged")) s s' h

send_response-Follows : (cfg : ConfigMap) (cmd : Command) → Follows (send_response cfg cmd)
unfolding send_response
send_response-Follows cfg (user_command arg) = send_user-Follows cfg arg
send_response-Follows cfg (pass_command arg) = send_pass-Follows cfg arg
send_response-Follows cfg syst_command = if_logged-Follows cfg _ (answer-Follows cfg _ _)
send_response-Follows cfg list_command = if_logged-Follows cfg _ (send_list-Follows cfg)
send_response-Follows cfg help_command = if_logged-Follows cfg _ (answer-Follows cfg _ _)
send_response-Follows cfg pwd_command = if_logged-Follows cfg _ (answer-Follows cfg _ _)
send_response-Follows cfg (mkd_command d) = if_logged-Follows cfg _ (send_mkd-Follows cfg d)
send_response-Follows cfg (rmd_command d) = if_logged-Follows cfg _ (send_rmd-Follows cfg d)
send_response-Follows cfg quit_command = send_quit-Follows cfg
send_response-Follows cfg invalid_command = answer-Follows cfg _ _

-- A query that is answered or ended by an exception.
pub respond_query-Follows : (cfg : ConfigMap) (q : Bytes) → Follows (respond_query cfg q)
unfolding respond_query
respond_query-Follows cfg q s s' h = elim (Option-cases (create_command q)) [
  | inl n ↦ absurd (ground (arith, rw n at h))
  | inr (c, e) ↦ send_response-Follows cfg c s s' (rw e at h)
]
