-- ===== src/Sudoku/Protocol.antt =====
-- tp1_sockets/protocol.h and protocol.c: commands as single bytes, and strings behind a header of
-- three bytes with their length in decimal. A C string argument is its bytes before the NUL.
pub mod Command
pub mod Text
use programming_workshop.Common.{
  ℕ, zero, suc, ◌+◌, Bool, true, false, Option, none, some, List, [], ◌∷◌, ◌++◌, ltb, ◌==◌,
  if◌then◌else◌, ◌>>=◌, Bytes, codes, length, get_elem?, take, replicate, c_string,
}
use programming_workshop.Common.Int.{ℤ, pos, negsuc, ◌-ℤ◌, is_zero}
use programming_workshop.Common.Decimal.{decimal, atoi}
use programming_workshop.Sudoku.Socket.{
  Process, SocketStatus, reception_success, reception_failure, with_status, print, skt_receive,
  skt_send,
}
use programming_workshop.Sudoku.Board.{store}
use programming_workshop.Sudoku.State.{Client, Server}

unfoldable pub protocol_send_command : Process → Client → Option Process
protocol_send_command p command = do
  p1 ← skt_send p 1 (command.command ∷ [])
  if command.command == b'P'
      then (do
        p2 ← skt_send p1 1 (command.row ∷ [])
        p3 ← skt_send p2 1 (command.col ∷ [])
        skt_send p3 1 (command.value ∷ []))
      else some p1

abbrev pub is_reception_success : SocketStatus → Bool
is_reception_success reception_success = true
is_reception_success _ = false

-- char aux[10] = "00"
abbrev pub aux_buffer : Bytes
aux_buffer = 48 ∷ 48 ∷ replicate 8 0

-- One `skt_receive(socket, 1, aux)`, and aux[0] after it.
abbrev pub receive_byte : Process → Bytes → Option (Process × Bytes × ℕ)
receive_byte p aux = do
  (_, p', aux') ← skt_receive p (pos 1) aux
  c ← get_elem? aux' 0
  some (p', aux', c)

unfoldable pub protocol_receive_command : Process → Server → Option (Process × Server)
protocol_receive_command p command = do
  (p1, aux1, c) ← receive_byte p aux_buffer
  if is_reception_success p1.status
      then (if c == b'P'
          then (do
            (p2, aux2, row) ← receive_byte p1 aux1
            (p3, aux3, col) ← receive_byte p2 aux2
            (p4, _, value) ← receive_byte p3 aux3
            some (p4, record command { command = c; row = row; col = col; value = value }))
          else some (p1, record command { command = c }))
      else some (p1, command)

-- The text that snprintf() forms for a length. It cuts it to the three bytes before the NUL.
unfoldable pub length_text : ℕ → Bytes
length_text len = if ltb len 10 then 48 ∷ 48 ∷ decimal len else decimal len

unfoldable pub message_len : ℕ → Bytes
unfolding length_text
message_len len = take 3 (length_text len) ++ 0 ∷ []

unfoldable pub protocol_send_string : Process → Bytes → Option Process
protocol_send_string p command = do
  p' ← skt_send p 3 (message_len (length command))
  skt_send p' (length command) command

-- The caller's buffer `received` is written, and the string in it printed.
unfoldable pub protocol_receive_string : Process → Bytes → Option (Process × Bytes)
protocol_receive_string p received = do
  (_, p1, header) ← skt_receive p (pos 3) (replicate 4 0)
  s ← c_string header
  let len = atoi s
  if is_zero len then some (with_status p1 reception_failure, received) else (do
    (_, p2, received1) ← skt_receive p1 len received
    received2 ← store received1 (len -ℤ pos 1) 0
    text ← c_string received2
    some (print p2 (text ++ codes "\n"), received2))
