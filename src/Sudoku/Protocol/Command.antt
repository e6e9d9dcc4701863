-- ===== src/Sudoku/Protocol/Command.antt =====
-- A command of tp1_sockets/protocol.c on the wire: what is sent, and that it is read back.
use mathlib.Core.List.{append_assoc}
use programming_workshop.Common.{
  ℕ, ◌≡◌, ◌∙◌, some, List, [], ◌∷◌, ◌++◌, arith, ◌==◌, if◌then◌else◌, Bytes, drop, Bool-cases, inl,
  inr,
}
use programming_workshop.Sudoku.Socket.{
  Arrival, Process, reception_success, reception_end, send_success, skt_send, Outcome,
}
use programming_workshop.Sudoku.Socket.Receive.{available, skt_receive_lem}
use programming_workshop.Sudoku.Socket.Send.{Accepting, skt_send-Accepting}
use programming_workshop.Sudoku.State.{Client, Server}
use programming_workshop.Sudoku.Protocol.{
  protocol_send_command, protocol_receive_command, receive_byte, aux_buffer,
}

-- The bytes of a command: its letter, and row, column and value behind a 'P'.
abbrev pub command_bytes : ℕ → ℕ → ℕ → ℕ → Bytes
command_bytes command row col value =
    if command == b'P' then command ∷ row ∷ col ∷ value ∷ [] else command ∷ []

receive_byte_lem :
    (p : Process) (c x : ℕ) (aux rest : Bytes)
    → available p.arrivals ≡ c ∷ rest
    → (left : List Arrival) × (receive_byte p (x ∷ aux)
        ≡ some (record p { status = reception_success; arrivals = left }, c ∷ aux, c))
      × (available left ≡ rest)
receive_byte_lem p c x aux rest e =
    let (left, r, kept) = rw e at (skt_receive_lem p 1 (x ∷ aux) (omega arith)) in
    (left, rw r, kept (omega arith))

abbrev sent_byte : Process → ℕ → List Outcome → Process
sent_byte p b o = record p { status = send_success; outcomes = o; sent = p.sent ++ b ∷ [] }

send_byte_lem :
    (p : Process) (b : ℕ)
    → Accepting p.outcomes
    → (o : List Outcome) × (skt_send p 1 (b ∷ []) ≡ some (sent_byte p b o)) × Accepting o
send_byte_lem p b a = skt_send-Accepting p 1 (b ∷ []) (omega arith) a

-- If no call of send() fails, `protocol_send_command` sends the command's bytes behind what was
-- sent before, and reports SKT_SEND_SUCCESS.
pub protocol_send_command_lem :
    (p : Process) (c : Client)
    → Accepting p.outcomes
    → (o : List Outcome) × (protocol_send_command p c
        ≡ some (record p {
          status = send_success;
          outcomes = o;
          sent = p.sent ++ command_bytes c.command c.row c.col c.value;
        }))
      × Accepting o
unfolding protocol_send_command
protocol_send_command_lem p c a =
    let (o1, e1, a1) = send_byte_lem p c.command a in
    let p1 = sent_byte p c.command o1 in
    elim (Bool-cases (c.command == b'P')) [
      | inl put ↦
          let (o2, e2, a2) = send_byte_lem p1 c.row a1 in
          let p2 = sent_byte p1 c.row o2 in
          let (o3, e3, a3) = send_byte_lem p2 c.col a2 in
          let p3 = sent_byte p2 c.col o3 in
          let (o4, e4, a4) = send_byte_lem p3 c.value a3 in
          (o4, rw (put, e1, e2, e3, e4) (simp append_assoc), a4)
      | inr other ↦ (o1, rw (other, e1), a1)
    ]

-- `protocol_receive_command` reads back the bytes of a command, in whatever pieces they arrive: the
-- server gets its letter, and its row, column and value if it is a 'P' (the old ones stay
-- otherwise). The status is SKT_RECEPTION_SUCCESS, and what follows stays to be read.
pub protocol_receive_command_lem :
    (p : Process) (s : Server) (command row col value : ℕ) (rest : Bytes)
    → available p.arrivals ≡ command_bytes command row col value ++ rest
    → (left : List Arrival) × (protocol_receive_command p s
        ≡ some (
          record p { status = reception_success; arrivals = left },
          if command == b'P'
              then record s { command = command; row = row; col = col; value = value }
              else record s { command = command },
        ))
      × (available left ≡ rest)
unfolding protocol_receive_command
protocol_receive_command_lem p s command row col value rest e =
    elim (Bool-cases (command == b'P')) [
      | inl put ↦
          let read = λ (l : List Arrival) (c x : ℕ) (aux r : Bytes) (h : available l ≡ c ∷ r).
            receive_byte_lem (record p { status = reception_success; arrivals = l }) c x aux r h in
          let (l1, e1, k1) =
            receive_byte_lem p command 48 (drop 1 aux_buffer) (row ∷ col ∷ value ∷ rest)
              (e ∙ rw put) in
          let (l2, e2, k2) = read l1 row command (drop 1 aux_buffer) (col ∷ value ∷ rest) k1 in
          let (l3, e3, k3) = read l2 col row (drop 1 aux_buffer) (value ∷ rest) k2 in
          let (l4, e4, k4) = read l3 value col (drop 1 aux_buffer) rest k3 in
          (l4, rw (e1, put, e2, e3, e4), k4)
      | inr other ↦
          let (l1, e1, k1) =
            receive_byte_lem p command 48 (drop 1 aux_buffer) rest (e ∙ rw other) in
          (l1, rw (e1, other), k1)
    ]

-- At the end of the connection the status is SKT_RECEPTION_END, and the server's record is
-- left alone.
pub protocol_receive_command-end :
    (p : Process) (s : Server)
    → available p.arrivals ≡ []
    → (left : List Arrival) × (protocol_receive_command p s
        ≡ some (record p { status = reception_end; arrivals = left }, s))
unfolding protocol_receive_command
protocol_receive_command-end p s e =
    let (left, r, kept) = rw e at (skt_receive_lem p 1 aux_buffer (omega arith)) in (left, rw r)
