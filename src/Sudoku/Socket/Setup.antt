-- ===== src/Sudoku/Socket/Setup.antt =====
-- tp1_sockets/socket.c: `skt_connect`, `skt_create`, `skt_listen`, `skt_bind`, `skt_accept` and
-- `skt_destroy`, with the life of the address list that getaddrinfo() allocates.
use programming_workshop.Common.{
  zero, suc, Bool, true, false, ◌||◌, ◌&&◌, not, ◌≡◌, Option, none, some, [], ◌∷◌, ◌++◌, arith,
  if◌then◌else◌, ◌>>=◌, Bytes, codes,
}
use programming_workshop.Common.Int.{ℤ, pos, negsuc, is_zero}
use programming_workshop.Sudoku.Socket.{
  Process, connection_failure, create_failure, connected, shutdown, close_call, shutdown_call,
  with_status, print,
}

-- What the calls that set a socket up return. Resolution depends on the host (NULL for a server)
-- and the port.
pub record Network : Type 0 where
  pub getaddrinfo : Option Bytes → Bytes → ℤ
  pub socket_result : ℤ
  pub setsockopt_result : ℤ
  pub bind_result : ℤ
  pub listen_result : ℤ
  pub connect_result : ℤ
  pub accept_result : ℤ

-- The test `x == -1`.
abbrev pub is_minus_one : ℤ → Bool
is_minus_one (pos n) = false
is_minus_one (negsuc zero) = true
is_minus_one (negsuc (suc n)) = false

-- The pointer `res` to the address list.
pub data AddrInfo : Type 0 where
  indeterminate allocated freed : AddrInfo

-- getaddrinfo() sets the pointer only if it succeeds.
abbrev pub resolved : ℤ → AddrInfo
resolved status = if is_zero status then allocated else indeterminate

-- `none`: the pointer is not set, or what it points to has been freed.
abbrev pub dereference : AddrInfo → Option AddrInfo
dereference allocated = some allocated
dereference _ = none

abbrev pub freeaddrinfo : AddrInfo → Option AddrInfo
freeaddrinfo allocated = some freed
freeaddrinfo _ = none

abbrev pub close : Process → Process
close p = record p { calls = p.calls ++ close_call p.skt ∷ [] }

unfoldable pub skt_connect : Network → Process → Bytes → Bytes → Option Process
skt_connect n p hostname port = do
  let status = n.getaddrinfo (some hostname) port
  let p1 = with_status p connected
  let p2 = if is_zero status then p1 else with_status p1 connection_failure
  res ← dereference (resolved status)
  let p3 = record p2 { skt = n.socket_result }
  let p4 = if is_minus_one n.socket_result then with_status p3 connection_failure else p3
  res' ← dereference res
  let p5 = if is_minus_one n.connect_result then with_status (close p4) connection_failure else p4
  _ ← freeaddrinfo res'
  some p5

unfoldable pub skt_listen : Network → Process → Process
skt_listen n p = if is_minus_one n.listen_result then with_status (close p) create_failure else p

unfoldable pub skt_bind : Network → Process → AddrInfo → Option (Process × AddrInfo)
skt_bind n p res = do
  res' ← dereference res
  if is_minus_one n.bind_result
      then (do gone ← freeaddrinfo res'; some (with_status (close p) create_failure, gone))
      else some (p, res')

unfoldable pub skt_create : Network → Process → Bytes → Option Process
unfolding skt_listen skt_bind
skt_create n p port = do
  let status = n.getaddrinfo none port
  let p1 = if is_zero status then p else with_status p create_failure
  res ← dereference (resolved status)
  let p2 = record p1 { skt = n.socket_result }
  (p3, res') ←
      (if is_minus_one n.socket_result
        then (do gone ← freeaddrinfo res; some (with_status p2 create_failure, gone))
        else some (p2, res))
  let p4 = if is_minus_one n.setsockopt_result then with_status p3 create_failure else p3
  (p5, res'') ← skt_bind n p4 res'
  let p6 = skt_listen n p5
  _ ← freeaddrinfo res''
  some p6

unfoldable pub skt_accept : Network → Process → Process
skt_accept n p =
    print (record p { skt = n.accept_result; status = connected }) (codes "Nuevo cliente\n")

unfoldable pub skt_destroy : Process → Process
skt_destroy p = close (record p { status = shutdown; calls = p.calls ++ shutdown_call p.skt ∷ [] })

-- `skt_connect` has undefined behaviour exactly if the address is not resolved: the list is read
-- through an indeterminate pointer. Otherwise it frees the list once, and the status is
-- SKT_CONNECTED if both socket() and connect() succeed, else SKT_CONNECTION_FAILURE; a socket
-- that does not connect is closed.
pub skt_connect_lem :
    (n : Network) (p : Process) (hostname port : Bytes)
    → skt_connect n p hostname port ≡ (
        if is_zero (n.getaddrinfo (some hostname) port)
        then some (record p {
          skt = n.socket_result;
          status =
              if is_minus_one n.socket_result || is_minus_one n.connect_result
              then connection_failure
              else connected;
          calls =
              if is_minus_one n.connect_result
              then p.calls ++ close_call n.socket_result ∷ []
              else p.calls;
        })
        else none)
unfolding skt_connect
skt_connect_lem n p hostname port = ground arith

-- `skt_create` has undefined behaviour exactly if getaddrinfo(), socket() or bind() fails: the
-- address list is then read through an indeterminate pointer, read after it was freed, or freed
-- twice. Otherwise the status becomes SKT_CREATE_FAILURE when setsockopt() or listen() fails, and is
-- left as it was if not; only a failed listen() closes the socket.
pub skt_create_lem :
    (n : Network) (p : Process) (port : Bytes)
    → skt_create n p port ≡ (
        if is_zero (n.getaddrinfo none port)
          && (not (is_minus_one n.socket_result) && not (is_minus_one n.bind_result))
        then some (record p {
          skt = n.socket_result;
          status =
              if is_minus_one n.setsockopt_result || is_minus_one n.listen_result
              then create_failure
              else p.status;
          calls =
              if is_minus_one n.listen_result
              then p.calls ++ close_call n.socket_result ∷ []
              else p.calls;
        })
        else none)
unfolding skt_create
skt_create_lem n p port = ground arith
