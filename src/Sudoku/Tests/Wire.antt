-- ===== src/Sudoku/Tests/Wire.antt =====
-- Instances of the theorems about the sockets and the protocol of tp1_sockets.
use programming_workshop.Common.{
  ℕ, ◌≤◌, ◌≡◌, refl, none, some, List, [], ◌∷◌, ◌++◌, arith, ◌==◌, if◌then◌else◌, codes, length,
  take, replicate,
}
use programming_workshop.Common.Int.{ℤ, pos, negsuc}
use programming_workshop.Sudoku.Socket.{
  Process, Arrival, segment, broken, Outcome, accepts, nothing_sent, skt_receive, skt_send,
  reception_success, send_success, send_failure, connection_failure, close_call,
}
use programming_workshop.Sudoku.Socket.Receive.{available, skt_receive_lem}
use programming_workshop.Sudoku.Socket.Send.{Accepting, skt_send_lem}
use programming_workshop.Sudoku.Socket.Setup.{
  Network, skt_connect, skt_create, skt_connect_lem, skt_create_lem,
}
use programming_workshop.Common.Decimal.{decimal}
use programming_workshop.Sudoku.Protocol.{
  message_len, protocol_receive_command, protocol_receive_string,
}
use programming_workshop.Sudoku.Protocol.Command.{protocol_receive_command_lem}
use programming_workshop.Sudoku.Protocol.Text.{protocol_receive_string_lem}
use programming_workshop.Sudoku.Tests.Puzzle.{process, server_with}

-- Five bytes arrive in two pieces, and the connection breaks.
abbrev two_pieces : Process
two_pieces = process (segment 97 (98 ∷ []) ∷ segment 99 (100 ∷ 101 ∷ []) ∷ broken ∷ []) []

skt_receive_lem_example :
    (left : List Arrival) × (skt_receive two_pieces (pos 3) (replicate 4 0)
      ≡ some (
        pos 3,
        record two_pieces { status = reception_success; arrivals = left },
        codes "abc" ++ 0 ∷ [],
      ))
    × (3 ≤ length (available two_pieces.arrivals) → available left ≡ codes "de")
skt_receive_lem_example = skt_receive_lem two_pieces 3 (replicate 4 0) (omega arith)

-- send() accepts two bytes, then one, then none.
abbrev slow_peer : Process
slow_peer = process [] (accepts 1 ∷ accepts 0 ∷ nothing_sent ∷ [])

skt_send_lem_example :
    (m : ℕ) × (left : List Outcome) × (skt_send slow_peer 4 (codes "abcd")
      ≡ some (record slow_peer {
        status = if m == 4 then send_success else send_failure;
        outcomes = left;
        sent = take m (codes "abcd");
      }))
    × (m ≤ 4)
    × (Accepting slow_peer.outcomes → (m ≡ 4) × Accepting left)
skt_send_lem_example = skt_send_lem slow_peer 4 (codes "abcd") (omega arith)

send_run :
    skt_send slow_peer 4 (codes "abcd")
    ≡ some (record slow_peer { status = send_failure; outcomes = []; sent = codes "abc" })
unfolding skt_send
send_run = refl

abbrev network : ℤ → ℤ → Network
network bind_result connect_result = record {
  getaddrinfo = λ host port. pos 0;
  socket_result = pos 3;
  setsockopt_result = pos 0;
  bind_result = bind_result;
  listen_result = pos 0;
  connect_result = connect_result;
  accept_result = pos 4;
}

skt_connect_lem_example :
    skt_connect (network (pos 0) (negsuc 0)) two_pieces (codes "localhost") (codes "7777")
    ≡ some (record two_pieces {
      skt = pos 3;
      status = connection_failure;
      calls = close_call (pos 3) ∷ [];
    })
skt_connect_lem_example =
    skt_connect_lem (network (pos 0) (negsuc 0)) two_pieces (codes "localhost") (codes "7777")

skt_create_lem_example : skt_create (network (negsuc 0) (pos 0)) two_pieces (codes "7777") ≡ none
skt_create_lem_example = skt_create_lem (network (negsuc 0) (pos 0)) two_pieces (codes "7777")

abbrev sender : Process
sender = process [] (accepts 0 ∷ [])

abbrev put_in_two : Process
put_in_two = process (segment b'P' (1 ∷ []) ∷ segment 2 (9 ∷ b'V' ∷ []) ∷ []) []

protocol_receive_command_lem_example :
    (left : List Arrival) × (protocol_receive_command put_in_two (server_with 0 0 0 0)
      ≡ some (
        record put_in_two { status = reception_success; arrivals = left },
        server_with b'P' 1 2 9,
      ))
    × (available left ≡ b'V' ∷ [])
protocol_receive_command_lem_example =
    protocol_receive_command_lem put_in_two (server_with 0 0 0 0) b'P' 1 2 9 (b'V' ∷ []) refl

abbrev answered : Process
answered = process (segment b'0' (codes "06ER") ∷ segment b'R' (codes "OR\n003OK\n") ∷ []) []

protocol_receive_string_lem_example :
    (left : List Arrival) × (protocol_receive_string answered (replicate 8 0)
      ≡ some (
        record answered { status = reception_success; arrivals = left; stdout = codes "ERROR\n" },
        codes "ERROR" ++ 0 ∷ 0 ∷ 0 ∷ [],
      ))
    × (available left ≡ codes "003OK\n")
unfolding message_len decimal
protocol_receive_string_lem_example =
    protocol_receive_string_lem answered (replicate 8 0) (codes "ERROR") (codes "003OK\n") 10
      (omega arith, (omega arith, (omega arith, (omega arith, (omega arith, tt {0})))))
      (omega arith) (omega arith) refl
