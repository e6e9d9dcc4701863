-- ===== src/Ftp/Command.antt =====
-- tp3_ftp_multiclient_server/Command.h and common_command.cpp: what a line asks for.
-- Each subclass of `Command` is a constructor, with the member it uses.
pub mod Named
pub mod Parse
use programming_workshop.Common.{
  ℕ, zero, suc, ◌+◌, Bool, true, false, Option, none, some, List, [], ◌∷◌, ◌++◌, ltb, ◌==◌,
  if◌then◌else◌, ◌>>=◌, Bytes, codes, bytes_eq, length,
}

pub data Command : Type 0 where
  user_command : Bytes → Command
  pass_command : Bytes → Command
  syst_command list_command help_command pwd_command : Command
  mkd_command : Bytes → Command
  rmd_command : Bytes → Command
  quit_command invalid_command : Command

abbrev pub cmd_user : Bytes
cmd_user = codes "USER"

abbrev pub cmd_pass : Bytes
cmd_pass = codes "PASS"

abbrev pub cmd_syst : Bytes
cmd_syst = codes "SYST"

abbrev pub cmd_list : Bytes
cmd_list = codes "LIST"

abbrev pub cmd_help : Bytes
cmd_help = codes "HELP"

abbrev pub cmd_pwd : Bytes
cmd_pwd = codes "PWD"

abbrev pub cmd_mkd : Bytes
cmd_mkd = codes "MKD"

abbrev pub cmd_rmd : Bytes
cmd_rmd = codes "RMD"

abbrev pub cmd_quit : Bytes
cmd_quit = codes "QUIT"

unfoldable pub identify_command : Bytes → Bytes → Command
identify_command cmd arg =
    if bytes_eq cmd cmd_user
    then user_command arg
    else if bytes_eq cmd cmd_pass
    then pass_command arg
    else if bytes_eq cmd cmd_syst
    then syst_command
    else if bytes_eq cmd cmd_list
    then list_command
    else if bytes_eq cmd cmd_help
    then help_command
    else if bytes_eq cmd cmd_pwd
    then pwd_command
    else if bytes_eq cmd cmd_mkd
    then mkd_command arg
    else if bytes_eq cmd cmd_rmd
    then rmd_command arg
    else if bytes_eq cmd cmd_quit
    then quit_command
    else invalid_command

-- The bytes before the first space and those behind it. Without a space `find` gives npos, npos + 1
-- is 0, and both strings are the whole.
unfoldable pub split_space : Bytes → Option (Bytes × Bytes)
split_space [] = none
split_space (c ∷ s) =
    let rest = split_space s in
    if c == b' ' then some ([], s) else (do (a, b) ← rest; some (c ∷ a, b))

abbrev pub or_whole : Bytes → Option (Bytes × Bytes) → Bytes × Bytes
or_whole input none = (input, input)
or_whole input (some parts) = parts

abbrev pub split_command : Bytes → Bytes × Bytes
split_command input = or_whole input (split_space input)

-- pop_back(), which is undefined on an empty string.
unfoldable pub pop_back : Bytes → Option Bytes
pop_back [] = none
pop_back (c ∷ []) = some []
pop_back (c ∷ d ∷ s) = do r ← pop_back (d ∷ s); some (c ∷ r)

unfoldable pub create_command : Bytes → Option Command
unfolding split_space pop_back
create_command input =
    let parts = split_command input in
    if ltb 5 (length input)
    then some (identify_command parts.0 parts.1)
    else (do cmd ← pop_back input; some (identify_command cmd []))
