-- ===== src/Sudoku/Server.antt =====
-- tp1_sockets/server.h and server.c: drawing the board, and the answer to each command.
pub mod Draw
pub mod Picture
pub mod Game
pub mod Answers
pub mod Handle
use programming_workshop.Common.{
  ℕ, zero, suc, ◌+◌, Bool, true, false, Option, none, some, List, [], ◌∷◌, ◌++◌, leb, ◌==◌,
  if◌then◌else◌, ◌>>=◌, Bytes, codes, c_string,
}
use programming_workshop.Common.Int.{pos}
use programming_workshop.Sudoku.Socket.{
  Process, SocketStatus, connected, shutdown, with_status, print,
}
use programming_workshop.Sudoku.Socket.Setup.{Network, skt_create, skt_accept, close}
use programming_workshop.Sudoku.Board.{
  Board, BoardStatus, ok, non_modifiable_value, invalid, store, board_read, board_value_get,
  board_put, board_verify, board_reset,
}
use programming_workshop.Sudoku.State.{Server, ServerStatus, disconnected_client}
use programming_workshop.Sudoku.Protocol.{protocol_send_string, protocol_receive_command}

abbrev pub board_row_sep_cell : Bytes
board_row_sep_cell = codes "U===========U===========U===========U\n"

abbrev pub board_row_sep : Bytes
board_row_sep = codes "U---+---+---U---+---+---U---+---+---U\n"

abbrev pub board_row : Bytes
board_row = codes "U   |   |   U   |   |   U   |   |   U\n"

abbrev pub msg_non_modifiable_cell : Bytes
msg_non_modifiable_cell = codes "La celda indicada no es modificable\n"

abbrev pub msg_error_verify : Bytes
msg_error_verify = codes "ERROR\n"

abbrev pub msg_ok_verify : Bytes
msg_ok_verify = codes "OK\n"

-- The source file is in UTF-8: the accented letter is two bytes.
abbrev pub msg_invalid_cmd : Bytes
msg_invalid_cmd = codes "Se ingres" ++ (0xc3 ∷ 0xb3 ∷ codes " un comando invalido ")

abbrev pub msg_failed_connection : Bytes
msg_failed_connection = codes "Conexion fallida\n"

abbrev pub msg_client_connected : Bytes
msg_client_connected = codes "Cliente conectado en puerto "

-- The nineteen lines that `server_format_board` writes, and the NUL: the 723 bytes of the buffer.
unfoldable pub server_format_board : Bytes
server_format_board =
    board_row_sep_cell
    ++ (board_row
        ++ (board_row_sep
            ++ (board_row
                ++ (board_row_sep
                    ++ (board_row
                        ++ (board_row_sep_cell
                            ++ (board_row
                                ++ (board_row_sep
                                    ++ (board_row
                                        ++ (board_row_sep
                                            ++ (board_row
                                                ++ (board_row_sep_cell
                                                    ++ (board_row
                                                        ++ (board_row_sep
                                                            ++ (board_row
                                                            ++ (board_row_sep
                                                            ++ (board_row
                                                            ++ (board_row_sep_cell
                                                            ++ 0 ∷ []))))))))))))))))))

-- sb[i] = aux, if the cell (k, j) is not '0'.
unfoldable pub draw_cell : Board → ℕ → ℕ → ℕ → Bytes → Option Bytes
unfolding board_value_get
draw_cell board i j k sb = do
  aux ← board_value_get board k j
  if aux == 48 then some sb else store sb (pos i) aux

-- The loop of `server_send_board`, with `i`, `j` and `k` as at the start of a round: it goes on
-- 4 bytes, or at the ninth column to the next row, 2 + CH_PER_ROW bytes further.
unfoldable pub draw_loop : ℕ → Board → ℕ → ℕ → ℕ → Bytes → Option Bytes
unfolding draw_cell
draw_loop zero board i j k sb = none
draw_loop (suc fuel) board i j k sb = elim (leb i 680) [
  | false ↦ some sb
  | true ↦ do
    sb' ← draw_cell board i (j + 1) k sb
    elim (j + 1 == 9) [
      | true ↦ draw_loop fuel board (i + 2 + 38 + 4) 0 (k + 1) sb'
      | false ↦ draw_loop fuel board (i + 4) (j + 1) k sb'
    ]
]

-- 81 rounds and the test that ends the loop.
unfoldable pub server_send_board : Process → Board → Option Process
unfolding server_format_board draw_loop protocol_send_string c_string
server_send_board p board = do
  sb ← draw_loop 82 board 40 0 1 server_format_board
  text ← c_string sb
  protocol_send_string (print (print p (codes "\n")) text) text

-- What the handler changes: the server's record, the board, and the process.
abbrev pub Handled : Type 0
Handled = Server × Board × Process

abbrev pub is_non_modifiable : BoardStatus → Bool
is_non_modifiable non_modifiable_value = true
is_non_modifiable _ = false

abbrev pub is_invalid : BoardStatus → Bool
is_invalid invalid = true
is_invalid _ = false

unfoldable pub process_put : Server → Board → Process → Option Handled
process_put self board p = do
  board' ← board_put board self.row self.col self.value
  if is_non_modifiable board'.status
      then (do
        p' ← protocol_send_string p msg_non_modifiable_cell
        some (self, record board' { status = ok }, p'))
      else (do p' ← server_send_board p board'; some (self, board', p'))

unfoldable pub process_verify : Server → Board → Process → Option Handled
process_verify self board p = do
  board' ← board_verify board
  p' ← protocol_send_string p (if is_invalid board'.status then msg_error_verify else msg_ok_verify)
  some (self, board', p')

unfoldable pub process_reset : Server → Board → Process → Option Handled
process_reset self board p = do
  (p1, board') ← board_reset p board
  p2 ← server_send_board p1 board'
  some (self, board', p2)

unfoldable pub process_get : Server → Board → Process → Option Handled
process_get self board p = do p' ← server_send_board p board; some (self, board, p')

unfoldable pub process_default : Server → Board → Process → Option Handled
process_default self board p = do
  p' ← protocol_send_string p msg_invalid_cmd
  some (self, board, p')

-- The case 'E' has no `break` and runs into the default.
unfoldable pub server_process_command : Server → Board → Process → Option Handled
server_process_command self board p =
    if self.command == b'P'
    then process_put self board p
    else if self.command == b'V'
    then process_verify self board p
    else if self.command == b'R'
    then process_reset self board p
    else if self.command == b'G'
    then process_get self board p
    else if self.command == b'E'
    then process_default (record self { status = disconnected_client }) board p
    else process_default self board p

unfoldable pub server_receive_command : Process → Server → Option (Process × Server)
server_receive_command p self = protocol_receive_command p self

unfoldable pub server_board_read : Option Bytes → Board → Option Board
server_board_read file board = do
  board' ← board_read file board
  some (record board' { status = ok })

abbrev pub is_connected : SocketStatus → Bool
is_connected connected = true
is_connected _ = false

unfoldable pub server_wait_user : Network → Process → Bytes → Option Process
server_wait_user n p port = do
  p1 ← skt_create n p port
  let p2 = skt_accept n p1
  if is_connected p2.status
      then some (print p2 (msg_client_connected ++ (port ++ codes "\n")))
      else some (print p2 msg_failed_connection)

unfoldable pub server_destroy : Process → Process
server_destroy p = close (with_status p shutdown)
