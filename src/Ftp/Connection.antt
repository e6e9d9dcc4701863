-- ===== src/Ftp/Connection.antt =====
-- The client's connection on the server of tp3_ftp_multiclient_server: `Socket::send` and `receive` of
-- common_socket.cpp, `send_string` and `receive_string` of common_protocol.cpp. What send() and recv()
-- do is given as for tp1_sockets.
pub mod Lines
pub mod Sending
use programming_workshop.Common.{
  ℕ, zero, suc, ◌+◌, ◌-◌, min, Bool, true, false, Option, none, some, List, [], ◌∷◌, ◌++◌, ltb,
  ◌==◌, if◌then◌else◌, Bytes, codes, length, take, get_elem?,
}
use programming_workshop.Common.Int.{ℤ, pos, negsuc}
use programming_workshop.Sudoku.Socket.{
  Arrival, segment, broken, Outcome, accepts, nothing_sent, send_error,
}
use programming_workshop.Ftp.Result.{Result, returned, threw, faulted, unfinished, Act, pure, ◌>>=◌}
use programming_workshop.Ftp.Directories.{Directories}

pub record Client : Type 0 where
  pub socket_id : ℤ
  pub is_alive : Bool
  pub logged : Bool
  pub quit : Bool
  pub possible_user : Bytes

-- What the thread of one client works on: the client, its socket, and what it shares with the
-- other threads, that is the directories and the flag `is_alive` of the protocol's socket.
pub record Session : Type 0 where
  pub client : Client
  pub arrivals : List Arrival
  pub outcomes : List Outcome
  pub sent : Bytes
  pub alive : Bool
  pub directories : Directories

abbrev pub error_sending : Bytes
error_sending = codes "Error in sending of socket"

-- How the loop of `send` ends: `st` is positive (or no call was made), 0, or -1.
pub data SendEnd : Type 0 where
  sent_all no_more failure : SendEnd

-- The loop of `send`: the end, `bytes_sent`, and the outcomes that are left.
unfoldable pub send_loop : ℕ → ℕ → List Outcome → SendEnd × ℕ × List Outcome
send_loop len bytes_sent [] = (sent_all, len, [])
send_loop len bytes_sent (accepts k ∷ os) =
    let rest = send_loop len (bytes_sent + min (suc k) (len - bytes_sent)) os in
    if ltb bytes_sent len then rest else (sent_all, bytes_sent, accepts k ∷ os)
send_loop len bytes_sent (nothing_sent ∷ os) =
    if ltb bytes_sent len
    then (no_more, bytes_sent, os)
    else (sent_all, bytes_sent, nothing_sent ∷ os)
send_loop len bytes_sent (send_error ∷ os) =
    if ltb bytes_sent len
    then (failure, bytes_sent, os)
    else (sent_all, bytes_sent, send_error ∷ os)

abbrev pub finish_sending : Bytes → SendEnd × ℕ × List Outcome → Act Session Unit
finish_sending buf (sent_all, n, os) s =
    returned tt (record s { outcomes = os; sent = s.sent ++ take n buf })
finish_sending buf (no_more, n, os) s =
    returned tt (record s { outcomes = os; sent = s.sent ++ take n buf; alive = false })
finish_sending buf (failure, n, os) s =
    threw error_sending (record s { outcomes = os; sent = s.sent ++ take n buf })

-- The length of a string is taken to fit an `int`.
unfoldable pub send_string : Bytes → Act Session Unit
unfolding send_loop
send_string cmd s = finish_sending cmd (send_loop (length cmd) 0 s.outcomes) s

-- `receive(1, &aux, id)`, with `aux` before and after it. Its result is not looked at.
abbrev pub receive_byte : ℕ → Act Session ℕ
receive_byte aux s = elim s.arrivals [
  | [] ↦ returned aux (record s { alive = false })
  | broken ∷ later ↦ returned aux (record s { arrivals = later; alive = false })
  | segment b [] ∷ later ↦ returned b (record s { arrivals = later })
  | segment b (c ∷ bs) ∷ later ↦ returned b (record s { arrivals = segment c bs ∷ later })
]

-- The loop of `receive_string`: `aux` and `str`. Nothing bounds it.
unfoldable pub receive_loop : ℕ → ℕ → Bytes → Act Session Bytes
receive_loop zero aux str s = if aux == b'\n' then returned str s else unfinished
receive_loop (suc fuel) aux str s =
    if aux == b'\n'
    then returned str s
    else (do b ← receive_byte aux; receive_loop fuel b (str ++ b ∷ [])) s

unfoldable pub receive_string : ℕ → Act Session Bytes
unfolding receive_loop
receive_string fuel = receive_loop fuel 0 []
