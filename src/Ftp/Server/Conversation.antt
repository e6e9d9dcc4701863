-- ===== src/Ftp/Server/Conversation.antt =====
-- What a client of tp3_ftp_multiclient_server is promised for a whole conversation.
pub mod Served
use mathlib.Core.List.{append_assoc, append-nil}
use programming_workshop.Common.{
  ℕ, zero, suc, ◌+◌, ◌≤◌, ◌<◌, ◌≡◌, ◌≢◌, refl, sym, ◌∙◌, ap, ◌⊎◌, inl, inr, Bool, true, false, ◌||◌,
  some, List, [], ◌∷◌, ◌++◌, arith, if◌then◌else◌, Bool-cases, Bytes, codes, bytes_eq, bytes_eq_iff,
  ltb, length, length-append,
}
use programming_workshop.Sudoku.Socket.{Arrival, Outcome}
use programming_workshop.Sudoku.Socket.Receive.{available}
use programming_workshop.Sudoku.Socket.Send.{Accepting}
use programming_workshop.Ftp.Result.{Result, returned, Act, continue, ◌>>=◌, lift}
use programming_workshop.Ftp.Directories.{Directories, contains, insert, erase}
use programming_workshop.Ftp.Directories.Refinement.{contains-insert, contains-erase_empty}
use programming_workshop.Ftp.Config.{ConfigMap}
use programming_workshop.Ftp.Config.Lookup.{Lacks}
use programming_workshop.Ftp.Connection.{Client, Session, receive_string}
use programming_workshop.Ftp.Connection.Lines.{receive_string_lem}
use programming_workshop.Ftp.Connection.Sending.{send_string_lem}
use programming_workshop.Ftp.Command.{
  Command, user_command, pass_command, syst_command, list_command, help_command, pwd_command,
  mkd_command, rmd_command, quit_command, invalid_command, cmd_mkd, cmd_quit, create_command,
}
use programming_workshop.Ftp.Command.Named.{
  create_command-total, create_command-mkd, create_command-quit,
}
use programming_workshop.Ftp.Server.{
  set_client, send_response, respond_query, send_hello, client_loop, caught, respond_client,
}
use programming_workshop.Ftp.Server.Promised.{
  HasTexts, HasName, Reply, asked_password, logged_in, failed_login, refused_guest, told_system,
  told_commands, told_directory, listed, made, not_made, removed, not_removed, took_leave, unknown,
  replied, IsAnswered, coded,
}
use programming_workshop.Ftp.Server.Promised.Commands.{send_response-IsAnswered}

-- What a client is answered for its lines (here without their newlines), one after the other, up to
-- an empty one or one whose answer ends the session; and what becomes of the client and the directories.
pub data Conversation (texts : Bytes → Bytes)
    : Client → Directories → List Bytes → Bytes → Client → Directories → Type 0 where
  hung_up :
      (c : Client) (ds : Directories) (qs : List Bytes)
      → Conversation texts c ds ([] ∷ qs) [] (record c { quit = true }) ds
  last_answer :
      (c c1 : Client) (ds ds1 : Directories) (q : Bytes) (qs : List Bytes) (cmd : Command)
      (text : Bytes)
      → q ≢ []
      → create_command (q ++ b'\n' ∷ []) ≡ some cmd
      → Reply texts c ds cmd text c1 ds1
      → c1.quit ≡ true
      → Conversation texts c ds (q ∷ qs) text c1 ds1
  next_answer :
      (c c1 c2 : Client) (ds ds1 ds2 : Directories) (q : Bytes) (qs : List Bytes) (cmd : Command)
      (text later : Bytes)
      → q ≢ []
      → create_command (q ++ b'\n' ∷ []) ≡ some cmd
      → Reply texts c ds cmd text c1 ds1
      → c1.quit ≡ false
      → Conversation texts c1 ds1 qs later c2 ds2
      → Conversation texts c ds (q ∷ qs) (text ++ later) c2 ds2

-- A line of less than `limit` bytes that is not a bare MKD.
pub record IsQuery (limit : ℕ) (q : Bytes) : Type 0 where
  pub line : Lacks b'\n' q
  pub short : length q < limit
  pub named : q ≢ cmd_mkd

-- Such lines, of which some is empty or the word QUIT.
abbrev pub AreQueries : ℕ → List Bytes → Type 0
AreQueries limit [] = ⊥
AreQueries limit (q ∷ qs) = IsQuery limit q × (((q ≡ []) ⊎ (q ≡ cmd_quit)) ⊎ AreQueries limit qs)

abbrev pub all_lines : List Bytes → Bytes
all_lines [] = []
all_lines (q ∷ qs) = q ++ b'\n' ∷ all_lines qs

-- The answer to QUIT ends the session.
pub quit-Reply :
    {texts : Bytes → Bytes} {c c1 : Client} {ds ds1 : Directories} {cmd : Command} {text : Bytes}
    → Reply texts c ds cmd text c1 ds1
    → cmd ≡ quit_command
    → c1.quit ≡ true
quit-Reply took_leave e = refl
quit-Reply (asked_password _) e = absurd (ground (arith, e))
quit-Reply (logged_in _ _ _) e = absurd (ground (arith, e))
quit-Reply (failed_login _ _) e = absurd (ground (arith, e))
quit-Reply (told_system _) e = absurd (ground (arith, e))
quit-Reply (told_commands _) e = absurd (ground (arith, e))
quit-Reply (told_directory _) e = absurd (ground (arith, e))
quit-Reply (listed _) e = absurd (ground (arith, e))
quit-Reply (made _ _ _ _ _ _) e = absurd (ground (arith, e))
quit-Reply (not_made _ _ _) e = absurd (ground (arith, e))
quit-Reply (removed _ _ _ _ _ _) e = absurd (ground (arith, e))
quit-Reply (not_removed _ _ _) e = absurd (ground (arith, e))
quit-Reply unknown e = absurd (ground (arith, e))
quit-Reply (refused_guest quit_command _ k) e = absurd k
quit-Reply (refused_guest _ _ k) e = absurd (ground (arith, e))

-- No directory has the empty name behind an answer if none had before.
pub named-Reply :
    {texts : Bytes → Bytes} {c c1 : Client} {ds ds1 : Directories} {cmd : Command} {text : Bytes}
    → Reply texts c ds cmd text c1 ds1
    → contains [] ds ≡ false
    → contains [] ds1 ≡ false
unfolding bytes_eq
named-Reply {ds = ds} (made d [] b _ e _) h =
    contains-insert d [] ds ∙ ap (λ x. bytes_eq [] x || contains [] ds) e ∙ h
named-Reply {ds = ds} (made d (x ∷ name) b _ e _) h =
    contains-insert d [] ds ∙ ap (λ x. bytes_eq [] x || contains [] ds) e ∙ h
named-Reply {ds = ds} (removed d _ _ _ _ _) h = contains-erase_empty d ds h
named-Reply (asked_password _) h = h
named-Reply (logged_in _ _ _) h = h
named-Reply (failed_login _ _) h = h
named-Reply (told_system _) h = h
named-Reply (told_commands _) h = h
named-Reply (told_directory _) h = h
named-Reply (listed _) h = h
named-Reply (not_made _ _ _) h = h
named-Reply (not_removed _ _ _) h = h
named-Reply took_leave h = h
named-Reply unknown h = h
named-Reply (refused_guest _ _ _) h = h
