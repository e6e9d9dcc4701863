-- ===== src/Sudoku/Client.antt =====
-- tp1_sockets/client.h and client.c: reading a line of input and making it a command.
pub mod Parse
use programming_workshop.Common.{
  ℕ, zero, suc, ◌+◌, ◌-◌, Bool, true, false, not, ◌&&◌, Option, none, some, List, [], ◌∷◌, ◌++◌,
  ltb, ◌==◌, if◌then◌else◌, ◌>>=◌, Bytes, codes, bytes_eq, length, get_elem?, take, c_string,
}
use programming_workshop.Common.Decimal.{is_digit}
use programming_workshop.Common.Tokens.{read_line, strtok}
use programming_workshop.Sudoku.Socket.{Process, write_at, print_error}
use programming_workshop.Sudoku.Socket.Setup.{Network, skt_connect}
use programming_workshop.Sudoku.State.{
  Client, ClientStatus, command_valid, command_invalid, connected, eof_reached,
}
use programming_workshop.Sudoku.Protocol.{protocol_send_command, protocol_receive_string}
use programming_workshop.Sudoku.Server.{is_connected}

abbrev pub error_index : Bytes
error_index = codes "Error en los " ++ (0xc3 ∷ 0xad ∷ codes "ndices. Rango soportado: [1,9]\n")

abbrev pub error_invalid_put_command : Bytes
error_invalid_put_command = codes "Sintaxis: put <numero> in <fila>,<columna>"

abbrev pub error_input_val : Bytes
error_input_val = codes "Error en el valor ingresado. Rango soportado: [1,9]\n"

abbrev pub error_invalid_command : Bytes
error_invalid_command = codes "Ingrese:\n-put\n-verify\n-get\n-reset\n-exit\n"

-- fgets() writes up to READ_BUFF_MAX - 1 bytes and a NUL into the caller's buffer. It does not
-- return NULL here, as there is a byte to read.
abbrev pub read_nonempty : Client → Bytes → Process → Bytes → Option (Client × Bytes × Process)
read_nonempty self command p [] = some (record self { status = eof_reached }, command, p)
read_nonempty self command p (c ∷ s) = do
  let (line, rest) = read_line 49 (c ∷ s)
  command' ← write_at 0 (line ++ 0 ∷ []) command
  some (self, command', record p { stdin = rest })

unfoldable pub client_read_command : Client → Bytes → Process → Option (Client × Bytes × Process)
client_read_command self command p = read_nonempty self command p p.stdin

unfoldable pub client_receive_string : Process → Bytes → Option (Process × Bytes)
client_receive_string p board = protocol_receive_string p board

unfoldable pub client_send_command : Client → Process → Option Process
client_send_command self p = protocol_send_command p self

-- strlen(t)==4 && isdigit(t[0]) && t[0]!='0' && t[1]==',' && isdigit(t[2]) && t[2]!='0' &&
-- t[3]=='\n', and the bytes t[0] and t[2].
abbrev pub place : Bytes → Option (ℕ × ℕ)
place (a ∷ b ∷ c ∷ d ∷ []) =
    if is_digit a && (not (a == 48) && (b == 44 && (is_digit c && (not (c == 48) && d == 10))))
    then some (a, c)
    else none
place _ = none

-- strlen(t)==1 && isdigit(t[0]), and the byte t[0]. A negative char, for which isdigit() is undefined, is
-- taken for no digit.
abbrev pub digit : Bytes → Option ℕ
digit (a ∷ []) = if is_digit a then some a else none
digit _ = none

-- The tail of a put command, from the word behind the number on.
unfoldable pub process_place : Client → Bytes → Process → Option (Client × Process)
process_place self rest p = do
  (word, rest') ← strtok rest
  if bytes_eq word (codes "in")
      then (do
        (where_to, _) ← strtok rest'
        elim (place where_to) [
          | none ↦ some (self, print_error p error_index)
          | some (r, c) ↦
              some (record self { row = r - 48; col = c - 48; status = command_valid }, p)
        ])
      else some (record self { status = command_invalid }, print_error p error_invalid_put_command)

unfoldable pub process_put_line : Client → Bytes → Process → Option (Client × Process)
process_put_line self rest p = do
  (number, rest') ← strtok rest
  elim (digit number) [
    | none ↦
        some
          (record self { command = b'P'; status = command_invalid }, print_error p error_input_val)
    | some v ↦ process_place (record self { command = b'P'; value = v - 48 }) rest' p
  ]

abbrev pub valid : Client → ℕ → Client
valid self c = record self { command = c; status = command_valid }

-- `command[0] == EOF`, a comparison of a signed `char` with -1.
abbrev pub starts_with_eof : Bytes → Bool
starts_with_eof [] = false
starts_with_eof (c ∷ s) = c == 255

unfoldable pub process_word : Client → Bytes → Process → Option (Client × Process)
process_word self command p =
    if bytes_eq command (codes "verify\n")
    then some (valid self b'V', p)
    else if bytes_eq command (codes "get\n")
    then some (valid self b'G', p)
    else if bytes_eq command (codes "reset\n")
    then some (valid self b'R', p)
    else if bytes_eq command (codes "exit\n")
    then some (valid self b'E', p)
    else if starts_with_eof command
    then some (valid self b'E', p)
    else some (record self { status = command_invalid }, print_error p error_invalid_command)

abbrev pub is_eof_reached : ClientStatus → Bool
is_eof_reached eof_reached = true
is_eof_reached _ = false

-- `none`: the text has no token, and strcmp() or strlen() is called on a null pointer.
unfoldable pub client_command_process : Client → Bytes → Process → Option (Client × Process)
client_command_process self command p = if is_eof_reached self.status then some (self, p) else (do
  text ← c_string command
  (word, rest) ← strtok (take 19 text)
  if bytes_eq word (codes "put") then process_put_line self rest p else process_word self text p)

unfoldable pub client_connect :
    Network → Client → Process → Bytes → Bytes → Option (Client × Process)
client_connect n self p host port = do
  p' ← skt_connect n p host port
  some (if is_connected p'.status then record self { status = connected } else self, p')
