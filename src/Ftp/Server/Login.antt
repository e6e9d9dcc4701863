-- ===== src/Ftp/Server/Login.antt =====
-- What a client of tp3_ftp_multiclient_server can do before it has logged in.
use programming_workshop.Common.{
  ◌≡◌, refl, sym, ◌∙◌, ap, ◌⊎◌, inl, inr, Bool, true, false, some, arith, if◌then◌else◌, Bool-cases,
  Option-cases, Bytes, codes, bytes_eq, bytes_eq_iff,
}
use programming_workshop.Ftp.Result.{
  Result, returned, threw, faulted, unfinished, Act, continue, ◌>>=◌, state_after,
}
use programming_workshop.Ftp.Config.{ConfigMap, get_message}
use programming_workshop.Ftp.Connection.{Client, Session}
use programming_workshop.Ftp.Command.{
  Command, user_command, pass_command, syst_command, list_command, help_command, pwd_command,
  mkd_command, rmd_command, quit_command, invalid_command, create_command,
}
use programming_workshop.Ftp.Server.{
  key_user, key_pass, answer, set_client, not_logged, valid_credentials, send_user, send_pass,
  send_quit, send_response, respond_query,
}
use programming_workshop.Ftp.Server.Kept.{IsKept, answer-Keeps}

-- The credentials of the configuration file.
pub record IsLogin (cfg : ConfigMap) (possible_user possible_pass : Bytes) : Type 0 where
  pub user : get_message cfg key_user ≡ some possible_user
  pub password : get_message cfg key_pass ≡ some possible_pass

-- The state stays, and the answer is yes only for the credentials of the file.
pub valid_credentials_lem :
    (cfg : ConfigMap) (arg : Bytes) (s : Session) (r : Result Session Bool)
    → valid_credentials cfg arg s ≡ r
    → (r ≡ faulted)
      ⊎ ((r ≡ returned false s) ⊎ ((r ≡ returned true s) × IsLogin cfg s.client.possible_user arg))
unfolding valid_credentials
valid_credentials_lem cfg arg s r h = elim (Option-cases (get_message cfg key_user)) [
  | inl n ↦ inl (sym h ∙ rw n refl)
  | inr (u, eu) ↦ elim (Bool-cases (bytes_eq s.client.possible_user u)) [
    | inr f ↦ inr (inl (sym h ∙ rw (eu, f) refl))
    | inl t ↦ elim (Option-cases (get_message cfg key_pass)) [
      | inl n ↦ inl (sym h ∙ rw (eu, t, n) refl)
      | inr (pw, ep) ↦ elim (Bool-cases (bytes_eq arg pw)) [
        | inr f ↦ inr (inl (sym h ∙ rw (eu, t, ep, f) refl))
        | inl t' ↦ inr (
            inr (
              sym h ∙ rw (eu, t, ep, t') refl,
              record {
                user = eu ∙ ap some (sym ((bytes_eq_iff s.client.possible_user u).0 t));
                password = ep ∙ ap some (sym ((bytes_eq_iff arg pw).0 t'));
              },
            ))
      ]
    ]
  ]
]

-- A call that keeps the state, and a change of the client's record behind it if it returns.
then_set_client :
    (f : Client → Client) (r : Result Session Unit) (s s' : Session)
    → ((s1 : Session) → state_after r ≡ some s1 → IsKept s s1)
    → state_after (continue (λ u. set_client f) r) ≡ some s'
    → (s'.directories ≡ s.directories) × ((s'.client ≡ f s.client) ⊎ (s'.client ≡ s.client))
then_set_client f (returned u s1) s s' k h =
    let kept = k s1 refl in
    let same : record s1 { client = f s1.client } ≡ s' = ground (arith, h) in
    (
      ap (λ x. x.directories) (sym same) ∙ kept.directories,
      inl (ap (λ x. x.client) (sym same) ∙ ap f kept.client),
    )
then_set_client f (threw m s1) s s' k h = let kept = k s' h in (kept.directories, inr kept.client)
then_set_client f faulted s s' k h = absurd (ground arith)
then_set_client f unfinished s s' k h = absurd (ground arith)

-- What a command may do for a client that has not logged in.
record IsGuarded (cfg : ConfigMap) (c : Command) (s s' : Session) : Type 0 where
  same_directories : s'.directories ≡ s.directories
  login :
      s'.client.logged ≡ true
      → (arg : Bytes) × (c ≡ pass_command arg) × IsLogin cfg s.client.possible_user arg

kept-IsGuarded :
    (cfg : ConfigMap) (c : Command) (s s' : Session)
    → s.client.logged ≡ false
    → IsKept s s'
    → IsGuarded cfg c s s'
kept-IsGuarded cfg c s s' out kept = record {
  same_directories = kept.directories;
  login = λ e. absurd (ground (arith, out, e, ap (λ x. x.logged) kept.client));
}

send_user-IsGuarded :
    (cfg : ConfigMap) (arg : Bytes) (s s' : Session)
    → s.client.logged ≡ false
    → state_after (send_user cfg arg s) ≡ some s'
    → IsGuarded cfg (user_command arg) s s'
unfolding send_user
send_user-IsGuarded cfg arg s s' out h =
    let (same, change) =
      then_set_client (λ c. record c { possible_user = arg })
        (answer cfg (codes "331") (codes "passRequired") s) s s'
        (answer-Keeps cfg (codes "331") (codes "passRequired") s) h in
    record {
      same_directories = same;
      login = λ e. elim change [
        | inl a ↦ absurd (ground (arith, out, e, ap (λ x. x.logged) a))
        | inr b ↦ absurd (ground (arith, out, e, ap (λ x. x.logged) b))
      ];
    }

send_quit-IsGuarded :
    (cfg : ConfigMap) (s s' : Session)
    → s.client.logged ≡ false
    → state_after (send_quit cfg s) ≡ some s'
    → IsGuarded cfg quit_command s s'
unfolding send_quit
send_quit-IsGuarded cfg s s' out h =
    let kept =
      answer-Keeps cfg (codes "221") (codes "quitSuccess")
        (record s { client = record s.client { quit = true } }) s' h in
    record {
      same_directories = kept.directories;
      login = λ e. absurd (ground (arith, out, e, ap (λ x. x.logged) kept.client));
    }

-- What the answer to the credentials leads to.
abbrev pub after_credentials : ConfigMap → Bool → Act Session Unit
after_credentials cfg ok =
    if ok
    then (do
      _ ← answer cfg (codes "230") (codes "loginSuccess")
      set_client (λ c. record c { logged = true }))
    else answer cfg (codes "530") (codes "loginFailed")

send_pass-IsGuarded :
    (cfg : ConfigMap) (arg : Bytes) (s s' : Session)
    → s.client.logged ≡ false
    → state_after (send_pass cfg arg s) ≡ some s'
    → IsGuarded cfg (pass_command arg) s s'
unfolding send_pass
send_pass-IsGuarded cfg arg s s' out h =
    let after = λ (r : Result Session Bool) (e : valid_credentials cfg arg s ≡ r).
      ap (λ x. state_after (continue (after_credentials cfg) x)) (sym e) ∙ h in
    elim (valid_credentials_lem cfg arg s (valid_credentials cfg arg s) refl) [
      | inl f ↦ absurd (ground (arith, after faulted f))
      | inr (inl refusal) ↦ kept-IsGuarded cfg (pass_command arg) s s' out (
          answer-Keeps cfg (codes "530") (codes "loginFailed") s s'
            (after (returned false s) refusal))
      | inr (inr (granted, creds)) ↦ record {
        same_directories =
            (then_set_client (λ c. record c { logged = true })
              (answer cfg (codes "230") (codes "loginSuccess") s) s s'
              (answer-Keeps cfg (codes "230") (codes "loginSuccess") s)
              (after (returned true s) granted)).0;
        login = λ e. (arg, refl, creds);
      }
    ]

not_logged-IsGuarded :
    (cfg : ConfigMap) (c : Command) (act : Act Session Unit) (s s' : Session)
    → s.client.logged ≡ false
    → state_after ((if s.client.logged then act else not_logged cfg) s) ≡ some s'
    → IsGuarded cfg c s s'
not_logged-IsGuarded cfg c act s s' out h = kept-IsGuarded cfg c s s' out (
    answer-Keeps cfg (codes "530") (codes "clientNotLogged") s s'
      (ap (λ b. state_after ((if b then act else not_logged cfg) s)) (sym out) ∙ h))

send_response-IsGuarded :
    (cfg : ConfigMap) (c : Command) (s s' : Session)
    → s.client.logged ≡ false
    → state_after (send_response cfg c s) ≡ some s'
    → IsGuarded cfg c s s'
unfolding send_response
send_response-IsGuarded cfg (user_command arg) s s' out h = send_user-IsGuarded cfg arg s s' out h
send_response-IsGuarded cfg (pass_command arg) s s' out h = send_pass-IsGuarded cfg arg s s' out h
send_response-IsGuarded cfg syst_command s s' out h = not_logged-IsGuarded cfg _ _ s s' out h
send_response-IsGuarded cfg list_command s s' out h = not_logged-IsGuarded cfg _ _ s s' out h
send_response-IsGuarded cfg help_command s s' out h = not_logged-IsGuarded cfg _ _ s s' out h
send_response-IsGuarded cfg pwd_command s s' out h = not_logged-IsGuarded cfg _ _ s s' out h
send_response-IsGuarded cfg (mkd_command d) s s' out h = not_logged-IsGuarded cfg _ _ s s' out h
send_response-IsGuarded cfg (rmd_command d) s s' out h = not_logged-IsGuarded cfg _ _ s s' out h
send_response-IsGuarded cfg quit_command s s' out h = send_quit-IsGuarded cfg s s' out h
send_response-IsGuarded cfg invalid_command s s' out h =
    kept-IsGuarded cfg _ s s' out (answer-Keeps cfg (codes "530") (codes "unknownCommand") s s' h)

-- Whatever a client that has not logged in sends: when `respond_query` returns or throws, the
-- directories are as before; and if the client is logged in then, the line was a PASS, the user
-- given before is the one of the configuration file, and the line's password is its password.
pub respond_query-guarded :
    (cfg : ConfigMap) (client_query : Bytes) (s s' : Session)
    → s.client.logged ≡ false
    → state_after (respond_query cfg client_query s) ≡ some s'
    → (s'.directories ≡ s.directories)
      × (s'.client.logged ≡ true
          → (arg : Bytes) × (create_command client_query ≡ some (pass_command arg))
            × IsLogin cfg s.client.possible_user arg)
unfolding respond_query
respond_query-guarded cfg q s s' out h = elim (Option-cases (create_command q)) [
  | inl n ↦ absurd (ground (arith, rw n at h))
  | inr (c, e) ↦
      (let guarded = send_response-IsGuarded cfg c s s' out (rw e at h) in
        (
          guarded.same_directories,
          λ t. let (arg, is_pass, creds) = guarded.login t in (arg, e ∙ ap some is_pass, creds),
        ))
]
