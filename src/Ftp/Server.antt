-- ===== src/Ftp/Server.antt =====
-- tp3_ftp_multiclient_server: `send_response` of each command in common_command.cpp, and `respond_query`,
-- `send_hello` and `respond_client` of common_server.cpp. They run in the thread of one client.
pub mod Conversation
pub mod Loop
pub mod Kept
pub mod Login
pub mod Promised
pub mod Replies
pub mod Calls
pub mod Stays
use programming_workshop.Common.{
  ℕ, zero, suc, ◌+◌, Bool, true, false, ◌&&◌, Option, none, some, List, [], ◌∷◌, ◌++◌, ltb, ◌==◌,
  if◌then◌else◌, Bytes, codes, bytes_eq, length,
}
use programming_workshop.Ftp.Result.{
  Result, returned, threw, faulted, unfinished, Act, pure, ◌>>=◌, lift,
}
use programming_workshop.Ftp.Directories.{
  Directories, add_directory, remove_directory, get_list, directories_size,
}
use programming_workshop.Ftp.Config.{ConfigMap, get_message}
use programming_workshop.Ftp.Connection.{Client, Session, send_string, receive_string}
use programming_workshop.Ftp.Command.{
  Command, user_command, pass_command, syst_command, list_command, help_command, pwd_command,
  mkd_command, rmd_command, quit_command, invalid_command, pop_back, create_command,
}

abbrev pub key_user : Bytes
key_user = codes "user"

abbrev pub key_pass : Bytes
key_pass = codes "password"

-- std::string(ID) + " " + cfg.get_message(message)
unfoldable pub format_cmd : ConfigMap → Bytes → Bytes → Act Session Bytes
format_cmd cfg id message = do text ← lift (get_message cfg message); pure (id ++ b' ' ∷ text)

-- The same with the name of a directory in quotes, whose newline is removed.
unfoldable pub format_cmd_dir : ConfigMap → Bytes → Bytes → Bytes → Act Session Bytes
format_cmd_dir cfg id dir message = do
  name ← lift (pop_back dir)
  text ← lift (get_message cfg message)
  pure (id ++ b' ' ∷ b'"' ∷ (name ++ b'"' ∷ b' ' ∷ text))

-- A formatted answer that is sent.
unfoldable pub answer : ConfigMap → Bytes → Bytes → Act Session Unit
unfolding format_cmd
answer cfg id message = do cmd ← format_cmd cfg id message; send_string cmd

unfoldable pub answer_dir : ConfigMap → Bytes → Bytes → Bytes → Act Session Unit
unfolding format_cmd_dir
answer_dir cfg id dir message = do cmd ← format_cmd_dir cfg id dir message; send_string cmd

abbrev pub set_client : (Client → Client) → Act Session Unit
set_client f s = returned tt (record s { client = f s.client })

abbrev pub set_directories : Directories → Act Session Unit
set_directories ds s = returned tt (record s { directories = ds })

abbrev pub not_logged : ConfigMap → Act Session Unit
not_logged cfg = answer cfg (codes "530") (codes "clientNotLogged")

-- (cli.possible_user == cfg.get_message(KEY_USER)) && (possible_pass == cfg.get_message(KEY_PASS))
-- The password is looked up only if the user is right.
unfoldable pub valid_credentials : ConfigMap → Bytes → Act Session Bool
valid_credentials cfg possible_pass s =
    (do
      user ← lift (get_message cfg key_user)
      if bytes_eq s.client.possible_user user
          then (do
            password ← lift (get_message cfg key_pass)
            pure (bytes_eq possible_pass password))
          else pure false)
      s

unfoldable pub send_user : ConfigMap → Bytes → Act Session Unit
send_user cfg possible_user = do
  _ ← answer cfg (codes "331") (codes "passRequired")
  set_client (λ c. record c { possible_user = possible_user })

unfoldable pub send_pass : ConfigMap → Bytes → Act Session Unit
send_pass cfg possible_pass = do
  ok ← valid_credentials cfg possible_pass
  if ok
      then (do
        _ ← answer cfg (codes "230") (codes "loginSuccess")
        set_client (λ c. record c { logged = true }))
      else answer cfg (codes "530") (codes "loginFailed")

-- The list, if there is any directory. The two calls of the server lock the mutex one after the
-- other.
unfoldable pub send_directories : Act Session Unit
send_directories s =
    (if ltb 0 (directories_size s.directories)
        then send_string (get_list s.directories)
        else pure tt)
      s

unfoldable pub send_list : ConfigMap → Act Session Unit
send_list cfg = do
  _ ← answer cfg (codes "150") (codes "listBegin")
  _ ← send_directories
  answer cfg (codes "226") (codes "listEnd")

unfoldable pub send_mkd : ConfigMap → Bytes → Act Session Unit
send_mkd cfg dirname s =
    let r = add_directory dirname s.directories in
    (do
      _ ← set_directories r.1
      if r.0
          then answer_dir cfg (codes "257") dirname (codes "mkdSuccess")
          else answer cfg (codes "550") (codes "mkdFailed"))
      s

unfoldable pub send_rmd : ConfigMap → Bytes → Act Session Unit
send_rmd cfg dirname s =
    let r = remove_directory dirname s.directories in
    (do
      _ ← set_directories r.1
      if r.0
          then answer_dir cfg (codes "250") dirname (codes "rmdSuccess")
          else answer cfg (codes "550") (codes "rmdFailed"))
      s

unfoldable pub send_quit : ConfigMap → Act Session Unit
send_quit cfg = do
  _ ← set_client (λ c. record c { quit = true })
  answer cfg (codes "221") (codes "quitSuccess")

-- The test of `cli.logged` that most commands start with.
abbrev pub if_logged : ConfigMap → Act Session Unit → Act Session Unit
if_logged cfg act s = (if s.client.logged then act else not_logged cfg) s

unfoldable pub send_response : ConfigMap → Command → Act Session Unit
send_response cfg (user_command arg) = send_user cfg arg
send_response cfg (pass_command arg) = send_pass cfg arg
send_response cfg syst_command = if_logged cfg (answer cfg (codes "215") (codes "systemInfo"))
send_response cfg list_command = if_logged cfg (send_list cfg)
send_response cfg help_command = if_logged cfg (answer cfg (codes "214") (codes "commands"))
send_response cfg pwd_command =
    if_logged cfg (answer cfg (codes "257") (codes "currentDirectoryMsg"))
send_response cfg (mkd_command dirname) = if_logged cfg (send_mkd cfg dirname)
send_response cfg (rmd_command dirname) = if_logged cfg (send_rmd cfg dirname)
send_response cfg quit_command = send_quit cfg
send_response cfg invalid_command = answer cfg (codes "530") (codes "unknownCommand")

unfoldable pub respond_query : ConfigMap → Bytes → Act Session Unit
respond_query cfg client_query = do cmd ← lift (create_command client_query); send_response cfg cmd

unfoldable pub send_hello : ConfigMap → Act Session Unit
send_hello cfg = do
  text ← lift (get_message cfg (codes "newClient"))
  send_string (codes "220 " ++ text)

-- What the thread does with a line.
abbrev pub handle : ConfigMap → Bytes → Act Session Unit
handle cfg client_query =
    if ltb 1 (length client_query)
    then respond_query cfg client_query
    else set_client (λ c. record c { quit = true })

-- The loop of the thread. Each round receives a string, for which it has the fuel `line`.
unfoldable pub client_loop : ℕ → ℕ → ConfigMap → Act Session Unit
client_loop zero line cfg s = if s.client.quit then returned tt s else unfinished
client_loop (suc fuel) line cfg s =
    if s.client.quit
    then returned tt s
    else (do
      client_query ← receive_string line
      _ ← handle cfg client_query
      client_loop fuel line cfg)
        s

-- One round of that loop.
unfoldable pub client_round : ℕ → ConfigMap → Act Session Unit
client_round line cfg = do client_query ← receive_string line; handle cfg client_query

-- catch (std::exception &e): the message is printed, and the thread goes on behind.
abbrev pub caught : Result Session Unit → Result Session Unit
caught (threw m s) = returned tt s
caught r = r

-- The thread of a client.
unfoldable pub respond_client : ℕ → ℕ → ConfigMap → Act Session Unit
respond_client fuel line cfg s = caught ((do _ ← send_hello cfg; client_loop fuel line cfg) s)
