-- ===== src/Ftp/Server/Stays.antt =====
-- What every query of a logged-in client of tp3_ftp_multiclient_server leaves as it is, whether it is
-- answered or an exception ends it.
pub mod Queries
use programming_workshop.Common.{
  ℕ, ◌≡◌, refl, sym, ◌∙◌, ap, ◌⊎◌, inl, inr, Bool, true, false, ◌||◌, Option, some, List, [], ◌∷◌,
  ◌++◌, arith, if◌then◌else◌, Bool-cases, Option-cases, Bytes, codes, bytes_eq, ltb, length,
}
use programming_workshop.Ftp.Result.{
  Result, returned, threw, faulted, unfinished, Act, pure, continue, ◌>>=◌, lift, state_after,
}
use programming_workshop.Ftp.Directories.{
  Directories, contains, insert, erase, add_directory, remove_directory, get_list, directories_size,
}
use programming_workshop.Ftp.Directories.Refinement.{
  IsOrdered, insert-IsOrdered, erase-IsOrdered, contains-insert, contains-erase_empty,
}
use programming_workshop.Ftp.Config.{ConfigMap, get_message}
use programming_workshop.Ftp.Connection.{Client, Session, send_string}
use programming_workshop.Ftp.Command.{
  Command, user_command, pass_command, syst_command, list_command, help_command, pwd_command,
  mkd_command, rmd_command, quit_command, invalid_command, create_command, pop_back,
}
use programming_workshop.Ftp.Server.{
  answer, answer_dir, format_cmd_dir, set_client, set_directories, not_logged, valid_credentials,
  send_user, send_pass, send_directories, send_list, send_mkd, send_rmd, send_quit, if_logged,
  send_response, respond_query,
}
use programming_workshop.Ftp.Server.Kept.{
  IsKept, Keeps, answer-Keeps, lift-Keeps, send_string-Keeps,
}
use programming_workshop.Ftp.Server.Login.{IsLogin, valid_credentials_lem, respond_query-guarded}

-- A client stays logged in, the directories stay in order, and none gets the empty name.
pub record IsFollowed (s s' : Session) : Type 0 where
  pub logged : s.client.logged ≡ true → s'.client.logged ≡ true
  pub ordered : IsOrdered s.directories → IsOrdered s'.directories
  pub named : contains [] s.directories ≡ false → contains [] s'.directories ≡ false

abbrev pub Follows : {A : Type 0} → Act Session A → Type 0
Follows act = (s s' : Session) → state_after (act s) ≡ some s' → IsFollowed s s'

pub IsFollowed-trans : (s t u : Session) → IsFollowed s t → IsFollowed t u → IsFollowed s u
IsFollowed-trans s t u a b = record {
  logged = λ h. b.logged (a.logged h);
  ordered = λ h. b.ordered (a.ordered h);
  named = λ h. b.named (a.named h);
}

pub kept-IsFollowed : (s s' : Session) → IsKept s s' → IsFollowed s s'
kept-IsFollowed s s' k = record {
  logged = λ h. ap (λ c. c.logged) k.client ∙ h;
  ordered = λ h. rw k.directories h;
  named = λ h. ap (contains []) k.directories ∙ h;
}

pub Keeps-Follows : {A : Type 0} (act : Act Session A) → Keeps act → Follows act
Keeps-Follows act k s s' h = kept-IsFollowed s s' (k s s' h)

pub continue-Follows :
    {A B : Type 0} (f : A → Act Session B) (r : Result Session A) (s : Session)
    → ((s1 : Session) → state_after r ≡ some s1 → IsFollowed s s1)
    → ((a : A) → Follows (f a))
    → (s' : Session) → state_after (continue f r) ≡ some s'
    → IsFollowed s s'
continue-Follows f (returned a s1) s k kf s' h = IsFollowed-trans s s1 s' (k s1 refl) (kf a s1 s' h)
continue-Follows f (threw m s1) s k kf s' h = k s' h
continue-Follows f faulted s k kf s' h = absurd (ground (arith, h))
continue-Follows f unfinished s k kf s' h = absurd (ground (arith, h))

pub bind-Follows :
    {A B : Type 0} (m : Act Session A) (f : A → Act Session B)
    → Follows m
    → ((a : A) → Follows (f a))
    → Follows (m >>= f)
bind-Follows m f k kf s s' h = continue-Follows f (m s) s (k s) kf s' h

pub answer-Follows : (cfg : ConfigMap) (id message : Bytes) → Follows (answer cfg id message)
answer-Follows cfg id message = Keeps-Follows (answer cfg id message) (answer-Keeps cfg id message)

pub send_string-Follows : (cmd : Bytes) → Follows (send_string cmd)
send_string-Follows cmd = Keeps-Follows (send_string cmd) (send_string-Keeps cmd)

pub lift-Follows : {A : Type 0} (o : Option A) → Follows (lift o)
lift-Follows o = Keeps-Follows (lift o) (lift-Keeps o)

pub pure-Follows : {A : Type 0} (a : A) → Follows (pure a)
pure-Follows a s s' h =
    kept-IsFollowed s s' (record { client = ground (arith, h); directories = ground (arith, h) })

pub set_client-Follows :
    (f : Client → Client)
    → ((c : Client) → c.logged ≡ true → (f c).logged ≡ true)
    → Follows (set_client f)
set_client-Follows f k s s' h =
    let same : record s { client = f s.client } ≡ s' = ground (arith, h) in
    record {
      logged = λ l. ap (λ x. x.client.logged) (sym same) ∙ k s.client l;
      ordered = λ o. rw (sym (ap (λ x. x.directories) same)) o;
      named = λ n. ap (λ x. contains [] x.directories) (sym same) ∙ n;
    }

pub answer_dir-Follows :
    (cfg : ConfigMap) (id dir message : Bytes) → Follows (answer_dir cfg id dir message)
unfolding answer_dir format_cmd_dir
answer_dir-Follows cfg id dir message =
    bind-Follows (format_cmd_dir cfg id dir message) send_string
      (bind-Follows (lift (pop_back dir)) _ (lift-Follows (pop_back dir)) (λ name.
        bind-Follows (lift (get_message cfg message)) _ (lift-Follows (get_message cfg message))
          (λ text. pure-Follows (id ++ b' ' ∷ b'"' ∷ (name ++ b'"' ∷ b' ' ∷ text)))))
      send_string-Follows
