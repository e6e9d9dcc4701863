-- ===== src/Ftp/Client/Run.antt =====
-- What `run_client` of tp3_ftp_multiclient_server/common_client.cpp does on its connection.
use programming_workshop.Common.{
  ℕ, zero, suc, not, Option, none, some, [], ◌∷◌, ◌++◌, if◌then◌else◌, Bytes, codes, bytes_eq,
}
use programming_workshop.Ftp.Result.{
  Result, returned, threw, faulted, unfinished, Act, pure, ◌>>=◌, lift,
}
use programming_workshop.Ftp.Config.{split_at}
use programming_workshop.Ftp.Connection.{Session, send_string, receive_string}
use programming_workshop.Ftp.Client.{get_code, id_list_end, is_list_start}

-- The connection, and the standard streams.
pub record Terminal : Type 0 where
  pub session : Session
  pub stdin : Bytes
  pub stdout : Bytes

abbrev pub on_terminal : {A : Type 0} → Terminal → Result Session A → Result Terminal A
on_terminal t (returned a s) = returned a (record t { session = s })
on_terminal t (threw m s) = threw m (record t { session = s })
on_terminal t faulted = faulted
on_terminal t unfinished = unfinished

-- A call on the connection.
abbrev pub connected : {A : Type 0} → Act Session A → Act Terminal A
connected act t = on_terminal t (act t.session)

abbrev pub print_response : Bytes → Act Terminal Unit
print_response received_string t = returned tt (record t { stdout = t.stdout ++ received_string })

abbrev pub left_over : Option Bytes → Bytes
left_over none = []
left_over (some rest) = rest

-- A line of the input without its newline, which is put back; at the end of the input an empty one.
unfoldable pub get_user_input : Act Terminal Bytes
get_user_input t =
    let line = split_at b'\n' t.stdin in
    returned (line.0 ++ b'\n' ∷ []) (record t { stdin = left_over line.1 })

unfoldable pub receive_hello : ℕ → Act Terminal Unit
receive_hello line = do response ← connected (receive_string line); print_response response

-- The loop starts with an empty string, whose second byte is read.
unfoldable pub receive_list_loop : ℕ → ℕ → Bytes → Act Terminal Unit
receive_list_loop zero line list_item = do
  code ← lift (get_code list_item)
  if bytes_eq code id_list_end then pure tt else (λ t. unfinished)
receive_list_loop (suc fuel) line list_item = do
  code ← lift (get_code list_item)
  if bytes_eq code id_list_end then pure tt else (do
    item ← connected (receive_string line)
    _ ← print_response item
    receive_list_loop fuel line item)

unfoldable pub receive_list : ℕ → ℕ → Act Terminal Unit
receive_list fuel line = receive_list_loop fuel line []

-- One round of the loop, for a line that is not empty.
unfoldable pub ask : ℕ → ℕ → Bytes → Act Terminal Unit
ask fuel line user_input = do
  _ ← connected (send_string user_input)
  response ← connected (receive_string line)
  _ ← print_response response
  list ← lift (is_list_start response)
  if list then receive_list fuel line else pure tt

-- The loop. Its second test asks for an empty line too, so that the answer to QUIT is never looked at.
unfoldable pub run_loop : ℕ → ℕ → Act Terminal Unit
run_loop zero line t = unfinished
run_loop (suc fuel) line t =
    (do
      user_input ← get_user_input
      if not (bytes_eq user_input (codes "\n"))
          then (do _ ← ask fuel line user_input; run_loop fuel line)
          else connected (send_string user_input))
      t
