-- ===== src/Sudoku/Socket.antt =====
-- tp1_sockets/socket.h and socket.c: sending, receiving, connecting, accepting.
-- The answers of the operating system are data: `arrivals` is what successive calls of recv() find,
-- `outcomes` what successive calls of send() do, and `Network` holds the results of the other calls.
pub mod Receive
pub mod Send
pub mod Setup
use programming_workshop.Common.{
  ℕ, zero, suc, ◌+◌, ◌-◌, min, Bool, true, false, Option, none, some, List, [], ◌∷◌, ◌++◌, ltb, leb,
  if◌then◌else◌, ◌>>=◌, Bytes, codes, length, take, drop,
}
use programming_workshop.Common.Int.{ℤ, pos, negsuc, is_zero}

pub data SocketStatus : Type 0 where
  connection_failure create_failure reception_failure : SocketStatus
  reception_success reception_end send_failure send_success : SocketStatus
  connected shutdown : SocketStatus

-- One result of recv(): at least one byte is there, or the call fails with -1.
-- When the list has ended the peer has closed the connection, and recv() returns 0.
pub data Arrival : Type 0 where
  segment : ℕ → Bytes → Arrival
  broken : Arrival

-- One result of send(): up to `n + 1` of the bytes are accepted, or 0, or -1 is returned.
-- When the list has ended send() accepts all that it is given.
pub data Outcome : Type 0 where
  accepts : ℕ → Outcome
  nothing_sent : Outcome
  send_error : Outcome

pub data SysCall : Type 0 where
  close_call : ℤ → SysCall
  shutdown_call : ℤ → SysCall

-- `skt` and `status` are the fields of the one `socket_t` that a process has; the others are what
-- the process sees of the operating system.
pub record Process : Type 0 where
  pub skt : ℤ
  pub status : SocketStatus
  pub arrivals : List Arrival
  pub outcomes : List Outcome
  pub sent : Bytes
  pub calls : List SysCall
  pub stdin : Bytes
  pub stdout : Bytes
  pub stderr : Bytes

abbrev pub with_status : Process → SocketStatus → Process
with_status p s = record p { status = s }

abbrev pub print : Process → Bytes → Process
print p s = record p { stdout = p.stdout ++ s }

abbrev pub print_error : Process → Bytes → Process
print_error p s = record p { stderr = p.stderr ++ s }

abbrev pub remainder : Bytes → List Arrival → List Arrival
remainder [] later = later
remainder (b ∷ bs) later = segment b bs ∷ later

pub data Received : Type 0 where
  closed : List Arrival → Received
  failed : List Arrival → Received
  chunk : Bytes → List Arrival → Received

-- recv(): as many bytes as are there, at most `n`.
abbrev pub recv : ℕ → List Arrival → Received
recv n [] = closed []
recv n (broken ∷ later) = failed later
recv n (segment b bs ∷ later) = chunk (take n (b ∷ bs)) (remainder (drop n (b ∷ bs)) later)

-- The bytes `bs` stored in a buffer from `i` on. `none`: they do not fit.
unfoldable pub write_at : ℕ → Bytes → Bytes → Option Bytes
write_at zero [] buf = some buf
write_at zero (b ∷ bs) [] = none
write_at zero (b ∷ bs) (x ∷ buf) = do buf' ← write_at zero bs buf; some (b ∷ buf')
write_at (suc i) bs [] = none
write_at (suc i) bs (x ∷ buf) = do buf' ← write_at i bs buf; some (x ∷ buf')

-- What the loop of `skt_receive` leaves: `bytes_received`, the arrivals and the buffer.
abbrev pub Reception : Type 0
Reception = ℕ × List Arrival × Bytes

-- The loop of `skt_receive`. `none` also stands for fuel that has run out.
unfoldable pub receive_loop : ℕ → ℕ → ℕ → List Arrival → Bytes → Option Reception
receive_loop zero len bytes_received later buf = none
receive_loop (suc fuel) len bytes_received later buf = elim (ltb bytes_received len) [
  | false ↦ some (bytes_received, later, buf)
  | true ↦ elim (recv (len - bytes_received) later) [
    | closed later' ↦ some (bytes_received, later', buf)
    | failed later' ↦ some (bytes_received, later', buf)
    | chunk bs later' ↦ do
      buf' ← write_at bytes_received bs buf
      receive_loop fuel len (bytes_received + length bs) later' buf'
  ]
]

-- The code behind the loop: the status, and the result of the function. The last branch of the
-- source, for a negative `bytes_received`, is not there: the number never falls below 0.
abbrev pub conclude : Process → ℕ → SocketStatus × ℤ
conclude p zero = (reception_end, negsuc 0)
conclude p (suc n) = (reception_success, pos (suc n))

abbrev pub finish_reception : Process → Reception → ℤ × Process × Bytes
finish_reception p (n, later, buf) =
    ((conclude p n).1, record p { status = (conclude p n).0; arrivals = later }, buf)

-- `int skt_receive(socket_t *self, int len, char *buf)`. For a negative `len` the loop makes no
-- round. The fuel is one more than the bytes asked for: each round but the last reads one at least.
unfoldable pub skt_receive : Process → ℤ → Bytes → Option (ℤ × Process × Bytes)
unfolding receive_loop
skt_receive p (pos len) buf = do
  r ← receive_loop (suc len) len 0 p.arrivals buf
  some (finish_reception p r)
skt_receive p (negsuc n) buf = some (finish_reception p (0, p.arrivals, buf))

-- What the loop of `skt_send` leaves: `socket_running`, `bytes_sent` and the outcomes.
abbrev pub Sending : Type 0
Sending = Bool × ℕ × List Outcome

-- The loop of `skt_send`, for `n` bytes.
unfoldable pub send_loop : ℕ → ℕ → ℕ → List Outcome → Option Sending
send_loop zero n bytes_sent os = none
send_loop (suc fuel) n bytes_sent os = elim (ltb bytes_sent n) [
  | false ↦ some (true, bytes_sent, os)
  | true ↦ elim os [
    | [] ↦ send_loop fuel n n []
    | nothing_sent ∷ os' ↦ some (false, bytes_sent, os')
    | send_error ∷ os' ↦ some (false, bytes_sent, os')
    | accepts k ∷ os' ↦ send_loop fuel n (bytes_sent + min (suc k) (n - bytes_sent)) os'
  ]
]

-- `bytes_sent` bytes of the buffer have gone out, one behind the other.
abbrev pub finish_sending : Process → Bytes → Sending → Process
finish_sending p buf (running, n, os) = record p {
  status = if running then send_success else send_failure;
  outcomes = os;
  sent = p.sent ++ take n buf;
}

-- `void skt_send(socket_t *self, int len, char *buf)`. `none`: `len` is past the end of the buffer.
unfoldable pub skt_send : Process → ℕ → Bytes → Option Process
unfolding send_loop
skt_send p len buf =
    if leb len (length buf)
    then (do r ← send_loop (suc len) len 0 p.outcomes; some (finish_sending p buf r))
    else none
