-- ===== src/Ftp/Server/Calls.antt =====
-- The calls on the directories that a query of tp3_ftp_multiclient_server/common_command.cpp makes.
use programming_workshop.Common.{
  ◌≡◌, refl, sym, ◌∙◌, ap, inl, inr, Bool, true, false, Option, none, some, List, [], ◌∷◌, ◌++◌,
  arith, if◌then◌else◌, Bool-cases, Option-cases, Bytes, codes, ltb,
}
use programming_workshop.Ftp.Result.{
  Result, returned, threw, faulted, unfinished, Act, pure, continue, ◌>>=◌, lift, state_after,
}
use programming_workshop.Ftp.Directories.{
  Directories, add_directory, remove_directory, get_list, directories_size,
}
use programming_workshop.Ftp.Directories.Refinement.{Call, add, remove, calls}
use programming_workshop.Ftp.Config.{ConfigMap, get_message}
use programming_workshop.Ftp.Connection.{Client, Session, send_string}
use programming_workshop.Ftp.Command.{
  Command, user_command, pass_command, syst_command, list_command, help_command, pwd_command,
  mkd_command, rmd_command, quit_command, invalid_command, create_command, pop_back,
}
use programming_workshop.Ftp.Server.{
  answer, answer_dir, format_cmd_dir, set_client, not_logged, valid_credentials, send_user,
  send_pass, send_directories, send_list, send_mkd, send_rmd, send_quit, if_logged, send_response,
  respond_query,
}
use programming_workshop.Ftp.Server.Kept.{Keeps, answer-Keeps, lift-Keeps, send_string-Keeps}
use programming_workshop.Ftp.Server.Login.{valid_credentials_lem}

-- The call of a command, for a client that is logged in.
abbrev pub command_calls : Command → List Call
command_calls (user_command arg) = []
command_calls (pass_command arg) = []
command_calls syst_command = []
command_calls list_command = []
command_calls help_command = []
command_calls pwd_command = []
command_calls (mkd_command dirname) = add dirname ∷ []
command_calls (rmd_command dirname) = remove dirname ∷ []
command_calls quit_command = []
command_calls invalid_command = []

abbrev pub read_calls : Option Command → List Call
read_calls none = []
read_calls (some cmd) = command_calls cmd

-- The call of a query.
abbrev pub query_calls : Bool → Bytes → List Call
query_calls logged q = if logged then read_calls (create_command q) else []

-- The directories behind the calls.
abbrev pub directories_after : List Call → Directories → Directories
directories_after cs ds = (calls cs ds).1

-- A call that leaves the directories, whether it returns or throws.
abbrev pub Leaves : {A : Type 0} → Act Session A → Type 0
Leaves act = (s s' : Session) → state_after (act s) ≡ some s' → s'.directories ≡ s.directories

pub Keeps-Leaves : {A : Type 0} (act : Act Session A) → Keeps act → Leaves act
Keeps-Leaves act k s s' h = (k s s' h).directories

continue-Leaves :
    {A B : Type 0} (f : A → Act Session B) (r : Result Session A) (s : Session)
    → ((s1 : Session) → state_after r ≡ some s1 → s1.directories ≡ s.directories)
    → ((a : A) → Leaves (f a))
    → (s' : Session) → state_after (continue f r) ≡ some s'
    → s'.directories ≡ s.directories
continue-Leaves f (returned a s1) s k kf s' h = kf a s1 s' h ∙ k s1 refl
continue-Leaves f (threw m s1) s k kf s' h = k s' h
continue-Leaves f faulted s k kf s' h = absurd (ground (arith, h))
continue-Leaves f unfinished s k kf s' h = absurd (ground (arith, h))

bind-Leaves :
    {A B : Type 0} (m : Act Session A) (f : A → Act Session B)
    → Leaves m
    → ((a : A) → Leaves (f a))
    → Leaves (m >>= f)
bind-Leaves m f k kf s s' h = continue-Leaves f (m s) s (k s) kf s' h

answer-Leaves : (cfg : ConfigMap) (id message : Bytes) → Leaves (answer cfg id message)
answer-Leaves cfg id message = Keeps-Leaves (answer cfg id message) (answer-Keeps cfg id message)

send_string-Leaves : (cmd : Bytes) → Leaves (send_string cmd)
send_string-Leaves cmd = Keeps-Leaves (send_string cmd) (send_string-Keeps cmd)

lift-Leaves : {A : Type 0} (o : Option A) → Leaves (lift o)
lift-Leaves o = Keeps-Leaves (lift o) (lift-Keeps o)

pure-Leaves : {A : Type 0} (a : A) → Leaves (pure a)
pure-Leaves a s s' h = ground (arith, h)

pub set_client-Leaves : (f : Client → Client) → Leaves (set_client f)
set_client-Leaves f s s' h = ground (arith, h)

if-Leaves : (b : Bool) (m n : Act Session Unit) → Leaves m → Leaves n → Leaves (if b then m else n)
if-Leaves true m n k l = k
if-Leaves false m n k l = l

answer_dir-Leaves :
    (cfg : ConfigMap) (id dir message : Bytes) → Leaves (answer_dir cfg id dir message)
unfolding answer_dir format_cmd_dir
answer_dir-Leaves cfg id dir message =
    bind-Leaves (format_cmd_dir cfg id dir message) send_string
      (bind-Leaves (lift (pop_back dir)) _ (lift-Leaves (pop_back dir)) (λ name.
        bind-Leaves (lift (get_message cfg message)) _ (lift-Leaves (get_message cfg message))
          (λ text. pure-Leaves (id ++ b' ' ∷ b'"' ∷ (name ++ b'"' ∷ b' ' ∷ text)))))
      send_string-Leaves

send_user-Leaves : (cfg : ConfigMap) (user : Bytes) → Leaves (send_user cfg user)
unfolding send_user
send_user-Leaves cfg user =
    bind-Leaves (answer cfg (codes "331") (codes "passRequired")) _ (answer-Leaves cfg _ _)
      (λ u. set_client-Leaves (λ c. record c { possible_user = user }))

valid_credentials-Leaves : (cfg : ConfigMap) (p : Bytes) → Leaves (valid_credentials cfg p)
valid_credentials-Leaves cfg p s s' h =
    let same : some s ≡ some s' → s'.directories ≡ s.directories = λ e. ground (arith, e) in
    elim (valid_credentials_lem cfg p s (valid_credentials cfg p s) refl) [
      | inl f ↦ absurd (ground (arith, sym (ap state_after f) ∙ h))
      | inr (inl f) ↦ same (sym (ap state_after f) ∙ h)
      | inr (inr (t, _)) ↦ same (sym (ap state_after t) ∙ h)
    ]

send_pass-Leaves : (cfg : ConfigMap) (p : Bytes) → Leaves (send_pass cfg p)
unfolding send_pass
send_pass-Leaves cfg p =
    bind-Leaves (valid_credentials cfg p) _ (valid_credentials-Leaves cfg p) (λ ok.
      if-Leaves ok _ _
        (bind-Leaves (answer cfg (codes "230") (codes "loginSuccess")) _ (answer-Leaves cfg _ _)
          (λ u. set_client-Leaves (λ c. record c { logged = true })))
        (answer-Leaves cfg (codes "530") (codes "loginFailed")))

send_directories-Leaves : Leaves send_directories
unfolding send_directories
send_directories-Leaves s s' h =
    if-Leaves (ltb 0 (directories_size s.directories)) _ (pure tt)
      (send_string-Leaves (get_list s.directories)) (pure-Leaves tt) s s' h

send_list-Leaves : (cfg : ConfigMap) → Leaves (send_list cfg)
unfolding send_list
send_list-Leaves cfg =
    bind-Leaves (answer cfg (codes "150") (codes "listBegin")) _ (answer-Leaves cfg _ _)
      (λ u. bind-Leaves send_directories _ send_directories-Leaves (λ v. answer-Leaves cfg _ _))

send_quit-Leaves : (cfg : ConfigMap) → Leaves (send_quit cfg)
unfolding send_quit
send_quit-Leaves cfg =
    bind-Leaves (set_client (λ c. record c { quit = true })) _
      (set_client-Leaves (λ c. record c { quit = true }))
      (λ u. answer-Leaves cfg (codes "221") (codes "quitSuccess"))

-- The directories behind a call of a client are those behind the calls on the server.
abbrev Calls : List Call → Act Session Unit → Type 0
Calls cs act =
    (s s' : Session)
    → state_after (act s) ≡ some s'
    → s'.directories ≡ directories_after cs s.directories

send_mkd-Calls : (cfg : ConfigMap) (d : Bytes) → Calls (add d ∷ []) (send_mkd cfg d)
unfolding send_mkd
send_mkd-Calls cfg d s s' h =
    let r = add_directory d s.directories in
    if-Leaves r.0 _ _ (answer_dir-Leaves cfg (codes "257") d (codes "mkdSuccess"))
      (answer-Leaves cfg (codes "550") (codes "mkdFailed")) (record s { directories = r.1 }) s' h

send_rmd-Calls : (cfg : ConfigMap) (d : Bytes) → Calls (remove d ∷ []) (send_rmd cfg d)
unfolding send_rmd
send_rmd-Calls cfg d s s' h =
    let r = remove_directory d s.directories in
    if-Leaves r.0 _ _ (answer_dir-Leaves cfg (codes "250") d (codes "rmdSuccess"))
      (answer-Leaves cfg (codes "550") (codes "rmdFailed")) (record s { directories = r.1 }) s' h

-- A command that most of all asks whether the client is logged in.
if_logged-Calls :
    (cfg : ConfigMap) (cs : List Call) (act : Act Session Unit) (s s' : Session)
    → Calls cs act
    → state_after (if_logged cfg act s) ≡ some s'
    → s'.directories ≡ directories_after (if s.client.logged then cs else []) s.directories
if_logged-Calls cfg cs act s s' k h =
    let run = λ (b : Bool). state_after ((if b then act else not_logged cfg) s) in
    elim (Bool-cases s.client.logged) [
      | inl t ↦ rw t (k s s' (ap run (sym t) ∙ h))
      | inr f ↦
          rw f (answer-Leaves cfg (codes "530") (codes "clientNotLogged") s s' (ap run (sym f) ∙ h))
    ]

-- A command without a call on the directories.
no_calls :
    (b : Bool) (s s' : Session)
    → s'.directories ≡ s.directories
    → s'.directories ≡ directories_after (if b then [] else []) s.directories
no_calls true s s' e = e
no_calls false s s' e = e

send_response-Calls :
    (cfg : ConfigMap) (cmd : Command) (s s' : Session)
    → state_after (send_response cfg cmd s) ≡ some s'
    → s'.directories
      ≡ directories_after (if s.client.logged then command_calls cmd else []) s.directories
unfolding send_response
send_response-Calls cfg (user_command arg) s s' h =
    no_calls s.client.logged s s' (send_user-Leaves cfg arg s s' h)
send_response-Calls cfg (pass_command arg) s s' h =
    no_calls s.client.logged s s' (send_pass-Leaves cfg arg s s' h)
send_response-Calls cfg syst_command s s' h =
    if_logged-Calls cfg [] _ s s' (answer-Leaves cfg (codes "215") (codes "systemInfo")) h
send_response-Calls cfg list_command s s' h = if_logged-Calls cfg [] _ s s' (send_list-Leaves cfg) h
send_response-Calls cfg help_command s s' h =
    if_logged-Calls cfg [] _ s s' (answer-Leaves cfg (codes "214") (codes "commands")) h
send_response-Calls cfg pwd_command s s' h =
    if_logged-Calls cfg [] _ s s' (answer-Leaves cfg (codes "257") (codes "currentDirectoryMsg")) h
send_response-Calls cfg (mkd_command d) s s' h =
    if_logged-Calls cfg (add d ∷ []) _ s s' (send_mkd-Calls cfg d) h
send_response-Calls cfg (rmd_command d) s s' h =
    if_logged-Calls cfg (remove d ∷ []) _ s s' (send_rmd-Calls cfg d) h
send_response-Calls cfg quit_command s s' h =
    no_calls s.client.logged s s' (send_quit-Leaves cfg s s' h)
send_response-Calls cfg invalid_command s s' h =
    no_calls s.client.logged s s' (answer-Leaves cfg (codes "530") (codes "unknownCommand") s s' h)

pub respond_query-Calls :
    (cfg : ConfigMap) (q : Bytes) (s s' : Session)
    → state_after (respond_query cfg q s) ≡ some s'
    → s'.directories ≡ directories_after (query_calls s.client.logged q) s.directories
unfolding respond_query
respond_query-Calls cfg q s s' h = elim (Option-cases (create_command q)) [
  | inl n ↦ absurd (ground (arith, rw n at h))
  | inr (c, e) ↦ rw e (send_response-Calls cfg c s s' (rw e at h))
]
