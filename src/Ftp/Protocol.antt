-- ===== src/Ftp/Protocol.antt =====
-- The constructor of tp3_ftp_multiclient_server/Protocol.h and its tests, in common_protocol.cpp.
use programming_workshop.Common.{
  ℕ, Bool, true, false, ◌&&◌, Option, none, some, List, ◌==◌, if◌then◌else◌, ◌>>=◌, Bytes,
  get_elem?,
}

-- The pointers of an object: `none` is one that is not set.
pub record Protocol : Type 0 where
  pub config_file : Option Bytes
  pub port : Option Bytes
  pub hostname : Option Bytes

-- `argv`: `none` is the null pointer.
abbrev pub is_given : Option (List Bytes) → Bool
is_given none = false
is_given (some argv) = true

abbrev pub argument : Option (List Bytes) → ℕ → Option Bytes
argument argv i = do args ← argv; get_elem? args i

unfoldable pub validate_client_args : ℕ → Option (List Bytes) → Bool
validate_client_args argc argv = is_given argv && argc == 3

unfoldable pub validate_server_args : ℕ → Option (List Bytes) → Bool
validate_server_args argc argv = is_given argv && argc == 3

unfoldable pub validate_args : ℕ → Option (List Bytes) → ℕ → Bool
unfolding validate_client_args validate_server_args
validate_args argc argv type =
    if type == b'C'
    then validate_client_args argc argv
    else if type == b'S'
    then validate_server_args argc argv
    else false

unfoldable pub protocol : ℕ → Option (List Bytes) → ℕ → Protocol
unfolding validate_args
protocol argc argv type =
    let empty : Protocol = record { config_file = none; port = none; hostname = none } in
    let server : Protocol = record empty {
      port = argument argv 1;
      config_file = argument argv 2;
    } in
    let client : Protocol = record empty { hostname = argument argv 1; port = argument argv 2 } in
    if validate_args argc argv type
    then (if type == b'S' then server else if type == b'C' then client else empty)
    else empty
