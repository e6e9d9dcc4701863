-- ===== src/Ftp/Socket/Resources.antt =====
-- What the constructors of a socket in tp3_ftp_multiclient_server/common_socket.cpp leave open or allocated.
use programming_workshop.Common.{
  ◌≡◌, refl, ◌⊎◌, inl, inr, true, false, ◌||◌, none, some, List, [], ◌∷◌, arith, Bool-cases, Bytes,
}
use programming_workshop.Common.Int.{ℤ, pos, negsuc, is_zero}
use programming_workshop.Sudoku.Socket.Setup.{
  Network, is_minus_one, AddrInfo, indeterminate, allocated, freed,
}
use programming_workshop.Ftp.Result.{Result, returned, threw}
use programming_workshop.Ftp.Socket.{
  Socket, not_connected, same_socket, without, client_socket, server_socket, bind, listen,
  error_addrinfo_server, error_socket_endpoint, error_connecting, error_configuring_client_socket,
  error_binding, error_setting_listen,
}

zero-plain : (a : ℤ) → is_zero a ≡ true → is_minus_one a ≡ false
zero-plain (pos n) h = refl
zero-plain (negsuc n) h = absurd (ground (arith, h))

pub same_socket_refl : (a : ℤ) → same_socket a a ≡ true
same_socket_refl (pos n) = ground arith
same_socket_refl (negsuc n) = ground arith

-- The socket works: it is the one descriptor that is open, and the address list is freed.
abbrev pub working : ℤ → Socket
working id = record { socket_id = id; is_alive = true; opened = id ∷ []; res = freed }

-- An exception, with the descriptors that it leaves open and the state of the address list.
abbrev pub Throws : List ℤ → AddrInfo → Result Socket Unit → Type 0
Throws opened res r =
    (message : Bytes) × (s : Socket) × (r ≡ threw message s) × (s.opened ≡ opened) × (s.res ≡ res)

-- The object behind such an exception.
abbrev failed : ℤ → List ℤ → AddrInfo → Socket
failed id opened res = record { socket_id = id; is_alive = false; opened = opened; res = res }

-- What the constructor of a client's socket has done, by what the calls return.
pub data ClientSocket (n : Network) (hostname port : Bytes) : Result Socket Unit → Type 0 where
  unresolved :
      {r : Result Socket Unit}
      → is_zero (n.getaddrinfo (some hostname) port) ≡ false
      → Throws [] indeterminate r
      → ClientSocket n hostname port r
  no_endpoint :
      {r : Result Socket Unit}
      → is_minus_one n.socket_result ≡ true
      → Throws [] freed r
      → ClientSocket n hostname port r
  refused :
      {r : Result Socket Unit}
      → is_minus_one n.connect_result ≡ true
      → Throws [] freed r
      → ClientSocket n hostname port r
  ready :
      {r : Result Socket Unit}
      → is_zero (n.getaddrinfo (some hostname) port) ≡ true
      → is_minus_one n.socket_result ≡ false
      → is_zero n.connect_result ≡ true
      → r ≡ returned tt (working n.socket_result)
      → ClientSocket n hostname port r

-- For a socket of a client, if connect() returns 0 or -1: either the address is resolved, socket() and
-- connect() succeed, and the constructor returns with the socket as the one open descriptor and the address
-- list freed; or one of them fails, and it throws, with no descriptor open and the list freed or never
-- allocated.
pub client_socket-ClientSocket :
    (n : Network) (hostname port : Bytes)
    → (is_zero n.connect_result ≡ true) ⊎ (is_minus_one n.connect_result ≡ true)
    → ClientSocket n hostname port (client_socket n hostname port not_connected)
unfolding client_socket without
client_socket-ClientSocket n hostname port c =
    elim (Bool-cases (is_zero (n.getaddrinfo (some hostname) port))) [
      | inr g ↦
          unresolved g (
            error_addrinfo_server,
            failed (negsuc 0) [] indeterminate,
            ground (arith, g),
            refl,
            refl,
          )
      | inl g ↦ elim (Bool-cases (is_minus_one n.socket_result)) [
        | inl s ↦ no_endpoint s (
          error_socket_endpoint,
          failed n.socket_result [] freed,
          ground (arith, g, s),
          refl,
          refl,
        )
        | inr s ↦ elim c [
          | inl z ↦ ready g s z (ground (arith, g, s, z, zero-plain n.connect_result z))
          | inr m ↦ refused m (
            error_connecting,
            failed n.socket_result [] freed,
            ground (arith, g, s, m, same_socket_refl n.socket_result),
            refl,
            refl,
          )
        ]
      ]
    ]

-- The same for the constructor of a server's socket.
pub data ServerSocket (n : Network) (port : Bytes) : Result Socket Unit → Type 0 where
  unresolved :
      {r : Result Socket Unit}
      → is_zero (n.getaddrinfo none port) ≡ false
      → Throws [] indeterminate r
      → ServerSocket n port r
  no_endpoint :
      {r : Result Socket Unit}
      → is_minus_one n.socket_result ≡ true
      → Throws [] freed r
      → ServerSocket n port r
  unconfigured :
      {r : Result Socket Unit}
      → is_minus_one n.setsockopt_result ≡ true
      → Throws (n.socket_result ∷ []) freed r
      → ServerSocket n port r
  not_listening :
      {r : Result Socket Unit}
      → (is_minus_one n.bind_result || is_minus_one n.listen_result) ≡ true
      → Throws [] allocated r
      → ServerSocket n port r
  ready :
      {r : Result Socket Unit}
      → is_zero (n.getaddrinfo none port) ≡ true
      → is_minus_one n.socket_result ≡ false
      → is_minus_one n.setsockopt_result ≡ false
      → (is_minus_one n.bind_result || is_minus_one n.listen_result) ≡ false
      → r ≡ returned tt (working n.socket_result)
      → ServerSocket n port r

-- For a socket of a server, whatever its calls return: either the address is resolved, socket(),
-- setsockopt(), bind() and listen() succeed, and the constructor returns with the socket as the one open
-- descriptor and the address list freed; or it throws: without a trace if one of the first two fails, with
-- the socket open if setsockopt() fails, and with the address list allocated if bind() or listen() does.
pub server_socket-ServerSocket :
    (n : Network) (port : Bytes) → ServerSocket n port (server_socket n port not_connected)
unfolding server_socket bind listen without
server_socket-ServerSocket n port = elim (Bool-cases (is_zero (n.getaddrinfo none port))) [
  | inr g ↦
      ServerSocket.unresolved g
        (error_addrinfo_server, failed (negsuc 0) [] indeterminate, ground (arith, g), refl, refl)
  | inl g ↦ elim (Bool-cases (is_minus_one n.socket_result)) [
    | inl s ↦
        ServerSocket.no_endpoint s
          (error_socket_endpoint, failed n.socket_result [] freed, ground (arith, g, s), refl, refl)
    | inr s ↦ elim (Bool-cases (is_minus_one n.setsockopt_result)) [
      | inl o ↦ unconfigured o (
        error_configuring_client_socket,
        failed n.socket_result (n.socket_result ∷ []) freed,
        ground (arith, g, s, o),
        refl,
        refl,
      )
      | inr o ↦ elim (Bool-cases (is_minus_one n.bind_result)) [
        | inl b ↦ not_listening (ground (arith, b)) (
          error_binding,
          failed n.socket_result [] allocated,
          ground (arith, g, s, o, b, same_socket_refl n.socket_result),
          refl,
          refl,
        )
        | inr b ↦ elim (Bool-cases (is_minus_one n.listen_result)) [
          | inl l ↦ not_listening (ground (arith, l)) (
            error_setting_listen,
            failed n.socket_result [] allocated,
            ground (arith, g, s, o, b, l, same_socket_refl n.socket_result),
            refl,
            refl,
          )
          | inr l ↦ ServerSocket.ready g s o (ground (arith, b, l)) (ground (arith, g, s, o, b, l))
        ]
      ]
    ]
  ]
]
