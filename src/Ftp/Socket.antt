-- ===== src/Ftp/Socket.antt =====
-- tp3_ftp_multiclient_server/Socket.h and common_socket.cpp: the constructors of a socket, `bind`, `listen`,
-- `accept` and `shutdown`, with the descriptors that are open and the life of the address list.
pub mod Resources
use programming_workshop.Common.{
  zero, suc, ◌==◌, Bool, true, false, not, ◌||◌, Option, none, some, List, [], ◌∷◌, if◌then◌else◌,
  Bytes, codes,
}
use programming_workshop.Common.Int.{ℤ, pos, negsuc, is_zero}
use programming_workshop.Sudoku.Socket.Setup.{
  Network, is_minus_one, AddrInfo, indeterminate, allocated, freed, resolved,
}
use programming_workshop.Ftp.Result.{Result, returned, threw, faulted, Act, pure, ◌>>=◌}

-- An object of the class, the descriptors that the process has opened for it and not closed, and the
-- list that getaddrinfo() allocates.
pub record Socket : Type 0 where
  pub socket_id : ℤ
  pub is_alive : Bool
  pub opened : List ℤ
  pub res : AddrInfo

abbrev pub error_addrinfo_server : Bytes
error_addrinfo_server = codes "Error getting server's address info"

abbrev pub error_socket_endpoint : Bytes
error_socket_endpoint = codes "Error creating socket's endpoint"

abbrev pub error_connecting : Bytes
error_connecting = codes "Error connecting socket to server"

abbrev pub error_waking_socket : Bytes
error_waking_socket = codes "Error setting socket to alive"

abbrev pub error_configuring_client_socket : Bytes
error_configuring_client_socket = codes "Error using setsockopt()"

abbrev pub error_setting_listen : Bytes
error_setting_listen = codes "Error setting socket as listening."

abbrev pub error_binding : Bytes
error_binding = codes "Error making bind."

abbrev pub error_socket_acceptor : Bytes
error_socket_acceptor = codes "Error accepting socket."

abbrev pub error_shutdown : Bytes
error_shutdown = codes "Error on socket shutdown"

-- The constructors without a connection and with one that exists.
abbrev pub not_connected : Socket
not_connected = record { socket_id = negsuc 0; is_alive = false; opened = []; res = indeterminate }

abbrev pub socket_of : ℤ → Socket
socket_of id = record not_connected { socket_id = id; is_alive = true }

abbrev pub throw : {A : Type 0} → Bytes → Act Socket A
throw message s = threw message s

-- The test `a == b`.
abbrev pub same_socket : ℤ → ℤ → Bool
same_socket (pos a) (pos b) = a == b
same_socket (negsuc a) (negsuc b) = a == b
same_socket _ _ = false

-- Without the descriptor `id`.
unfoldable pub without : ℤ → List ℤ → List ℤ
without id [] = []
without id (x ∷ xs) = let rest = without id xs in if same_socket id x then rest else x ∷ rest

-- close() of a descriptor that is not open changes nothing.
abbrev pub close : Act Socket Unit
close s = returned tt (record s { opened = without s.socket_id s.opened })

-- freeaddrinfo() of a list that is not allocated, or no longer, is undefined.
abbrev pub freeaddrinfo : Act Socket Unit
freeaddrinfo s = elim s.res [ allocated ↦ returned tt (record s { res = freed }) | _ ↦ faulted ]

-- getaddrinfo() with the list that it sets, and socket() for the first address of the list.
abbrev pub getaddrinfo : ℤ → Act Socket ℤ
getaddrinfo st s = returned st (record s { res = resolved st })

abbrev pub open_socket : ℤ → Act Socket ℤ
open_socket id s = elim s.res [
  | allocated ↦
      returned id
        (record s { socket_id = id; opened = if is_minus_one id then s.opened else id ∷ s.opened })
  | _ ↦ faulted
]

abbrev pub set_alive : Act Socket Unit
set_alive s = returned tt (record s { is_alive = true })

-- Nothing, or what is done about a failure.
abbrev pub on_failure : Bool → Act Socket Unit → Act Socket Unit
on_failure failed act = if failed then act else pure tt

-- The constructor of a client's socket.
unfoldable pub client_socket : Network → Bytes → Bytes → Act Socket Unit
unfolding without
client_socket n hostname port = do
  st ← getaddrinfo (n.getaddrinfo (some hostname) port)
  _ ← on_failure (not (is_zero st)) (throw error_addrinfo_server)
  id ← open_socket n.socket_result
  _ ← on_failure (is_minus_one id) (do _ ← freeaddrinfo; throw error_socket_endpoint)
  let st' = n.connect_result
  _ ← on_failure (is_minus_one st') (do _ ← freeaddrinfo; _ ← close; throw error_connecting)
  _ ← freeaddrinfo
  _ ← on_failure (not (is_zero st') || is_minus_one id) (throw error_waking_socket)
  set_alive

unfoldable pub bind : Network → Act Socket Unit
bind n s = (on_failure (is_minus_one n.bind_result) (do _ ← close; throw error_binding)) s

unfoldable pub listen : Network → Act Socket Unit
listen n s =
    (on_failure (is_minus_one n.listen_result) (do _ ← close; throw error_setting_listen)) s

-- The constructor of a server's socket.
unfoldable pub server_socket : Network → Bytes → Act Socket Unit
unfolding without bind listen
server_socket n port = do
  st ← getaddrinfo (n.getaddrinfo none port)
  _ ← on_failure (not (is_zero st)) (throw error_addrinfo_server)
  id ← open_socket n.socket_result
  _ ← on_failure (is_minus_one id) (do _ ← freeaddrinfo; throw error_socket_endpoint)
  _ ←
      on_failure (is_minus_one n.setsockopt_result)
        (do _ ← freeaddrinfo; throw error_configuring_client_socket)
  _ ← bind n
  _ ← listen n
  _ ← freeaddrinfo
  set_alive

unfoldable pub accept : Network → Act Socket ℤ
unfolding without
accept n = do
  _ ← on_failure (is_minus_one n.accept_result) (do _ ← close; throw error_socket_acceptor)
  pure n.accept_result

-- `result` is what ::shutdown() returns.
unfoldable pub shutdown : ℤ → Act Socket Unit
unfolding without
shutdown result = do _ ← on_failure (is_minus_one result) (throw error_shutdown); close

unfoldable pub is_accepted : Socket → Bool
is_accepted s = not (is_minus_one s.socket_id)

unfoldable pub get_id : Socket → ℤ
get_id s = s.socket_id

unfoldable pub is_dead : Socket → Bool
is_dead s = not s.is_alive
