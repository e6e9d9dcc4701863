-- ===== src/Sudoku/Game.antt =====
-- tp1_sockets/sudoku.h, sudoku.c and main.c: the arguments, the server's loop and the client's loop.
pub mod Session
pub mod Start
pub mod Input
pub mod Play
pub mod Typed
use programming_workshop.Common.{
  ℕ, zero, suc, ◌+◌, Bool, true, false, ◌||◌, ◌&&◌, Option, none, some, List, [], ◌∷◌, ◌++◌, ◌==◌,
  if◌then◌else◌, ◌>>=◌, Bytes, codes, bytes_eq, length, get_elem?, replicate,
}
use programming_workshop.Sudoku.Socket.{
  Process, SocketStatus, reception_end, Arrival, segment, broken, print,
}
use programming_workshop.Sudoku.Socket.Setup.{Network, skt_destroy}
use programming_workshop.Sudoku.Board.{Board, BoardStatus}
use programming_workshop.Sudoku.State.{
  Client, ClientStatus, command_valid, command_invalid, connected, eof_reached, Server,
}
use programming_workshop.Sudoku.Protocol.{is_reception_success}
use programming_workshop.Sudoku.Server.{
  server_process_command, server_receive_command, server_board_read, server_wait_user,
  server_destroy, is_connected,
}
use programming_workshop.Sudoku.Client.{
  client_read_command, client_command_process, client_send_command, client_receive_string,
  client_connect, is_eof_reached,
}

pub data SudokuStatus : Type 0 where
  ok args_ok args_invalid args_null endgame : SudokuStatus

-- `arg1` and `arg2` are `none` as long as they are not set.
pub record Sudoku : Type 0 where
  pub mode : ℕ
  pub arg1 : Option Bytes
  pub arg2 : Option Bytes
  pub status : SudokuStatus

abbrev pub sudoku_err_server_cmd : Bytes
sudoku_err_server_cmd = codes "Uso: ./tp server <puerto>\n"

abbrev pub sudoku_err_client_cmd : Bytes
sudoku_err_client_cmd = codes "Uso: ./tp client <host> <puerto>\n"

abbrev pub sudoku_err_cmd : Bytes
sudoku_err_cmd =
    codes "Modo no soportado, el primer par"
    ++ (0xc3 ∷ 0xa1 ∷ codes "metro debe ser server o client\n")

abbrev refused : Sudoku → Process → Bytes → Sudoku × Process
refused self p msg = (record self { status = args_invalid }, print p msg)

-- `argv` is a null pointer, with `argc` 0, or the list of the `argc` arguments.
unfoldable pub sudoku_set_mode : Sudoku → Option (List Bytes) → Process → Sudoku × Process
sudoku_set_mode self none p = (record self { status = args_null }, print p sudoku_err_cmd)
sudoku_set_mode self (some (_ ∷ m ∷ x ∷ [])) p =
    if bytes_eq m (codes "server")
    then (record self { mode = b'S'; arg1 = some x; status = args_ok }, p)
    else refused self p sudoku_err_cmd
sudoku_set_mode self (some (_ ∷ m ∷ x ∷ y ∷ [])) p =
    if bytes_eq m (codes "client")
    then (record self { mode = b'C'; arg1 = some x; arg2 = some y; status = args_ok }, p)
    else refused self p sudoku_err_cmd
sudoku_set_mode self (some (_ ∷ m ∷ [])) p =
    if bytes_eq m (codes "server")
    then refused self p sudoku_err_server_cmd
    else if bytes_eq m (codes "client")
    then refused self p sudoku_err_client_cmd
    else refused self p sudoku_err_cmd
sudoku_set_mode self (some _) p = refused self p sudoku_err_cmd

abbrev pub Serving : Type 0
Serving = Process × Board × Server

-- The server's loop: `none` also stands for fuel that has run out.
unfoldable pub serve_loop : ℕ → Process → Board → Server → Option Serving
serve_loop zero p board server = none
serve_loop (suc fuel) p board server = elim (is_reception_success p.status) [
  | false ↦ some (p, board, server)
  | true ↦ do
    (server1, board1, p1) ← server_process_command server board p
    (p2, server2) ← server_receive_command p1 server1
    serve_loop fuel p2 board1 server2
]

-- The bytes of the arrivals. A round reads one at least.
unfoldable pub arrival_bytes : List Arrival → ℕ
arrival_bytes [] = 0
arrival_bytes (broken ∷ later) = arrival_bytes later
arrival_bytes (segment b bs ∷ later) = suc (length bs + arrival_bytes later)

-- The body of `sudoku_run_server` when a client is connected.
unfoldable pub serve : Option Bytes → Process → Board → Server → Option Serving
serve file p board server = do
  board1 ← server_board_read file board
  (p1, server1) ← server_receive_command p server
  serve_loop (suc (arrival_bytes p.arrivals)) p1 board1 server1

abbrev pub is_reception_end : SocketStatus → Bool
is_reception_end reception_end = true
is_reception_end _ = false

-- The `arg1` of the mode 'S' is the port. A null pointer there would be a service of getaddrinfo().
unfoldable pub sudoku_run_server :
    Network → Option Bytes → Bytes → Sudoku → Server → Process → Board → Option (Sudoku × Serving)
sudoku_run_server n file port self server p board = do
  p1 ← server_wait_user n p port
  (p2, board2, server2) ←
      (if is_connected p1.status then serve file p1 board server else some (p1, board, server))
  some (
    if is_reception_end p2.status then record self { status = endgame } else self,
    (server_destroy p2, board2, server2),
  )

abbrev pub is_command_invalid : ClientStatus → Bool
is_command_invalid command_invalid = true
is_command_invalid _ = false

abbrev pub is_command_valid : ClientStatus → Bool
is_command_valid command_valid = true
is_command_valid _ = false

abbrev pub is_client_connected : ClientStatus → Bool
is_client_connected connected = true
is_client_connected _ = false

abbrev pub is_endgame : ClientStatus → Bool
is_endgame ClientStatus.endgame = true
is_endgame _ = false

-- The client's inner loop, which reads lines until one is no invalid command.
unfoldable pub read_loop : ℕ → Client → Bytes → Process → Option (Client × Bytes × Process)
read_loop zero client command p = none
read_loop (suc fuel) client command p = elim (is_command_invalid client.status) [
  | false ↦ some (client, command, p)
  | true ↦ do
    (client1, command1, p1) ←
        client_read_command (record client { status = ClientStatus.ok }) command p
    (client2, p2) ← client_command_process client1 command1 p1
    read_loop fuel client2 command1 p2
]

-- What the client's loop changes: the client, the buffers for a line and for an answer, the
-- process and the status of the game.
pub record Playing : Type 0 where
  pub client : Client
  pub client_command : Bytes
  pub received : Bytes
  pub process : Process
  pub status : SudokuStatus

-- The two tests behind the inner loop.
unfoldable pub play_command : Playing → Option Playing
play_command s = do
  let ends = s.client.command == b'E' || is_eof_reached s.client.status
  let s1 =
      if ends
      then record s {
        client = record s.client { status = ClientStatus.endgame };
        status = endgame;
        process = skt_destroy s.process;
      }
      else s
  if is_command_valid s1.client.status
      then (do
        p1 ← client_send_command s1.client s1.process
        (p2, received) ← client_receive_string p1 s1.received
        some (record s1 { process = p2; received = received }))
      else some s1

-- The client's outer loop. Each round reads at least one line, or the end of the input.
unfoldable pub play_loop : ℕ → Playing → Option Playing
play_loop zero s = none
play_loop (suc fuel) s = elim (is_endgame s.client.status) [
  | true ↦ some s
  | false ↦ do
    (client, command, p) ←
        read_loop (suc (suc (length s.process.stdin)))
          (record s.client { status = command_invalid }) s.client_command s.process
    s' ← play_command (record s { client = client; client_command = command; process = p })
    play_loop fuel s'
]

unfoldable pub sudoku_play :
    Network → Bytes → Bytes → Sudoku → Client → Process → Option (Sudoku × Process)
sudoku_play n host port self client p = do
  (client1, p1) ← client_connect n (record client { command = b'X' }) p host port
  if is_client_connected client1.status
      then (do
        s ← play_loop (suc (suc (length p.stdin))) (record {
          client = client1;
          client_command = replicate 20 1;
          received = replicate 800 0;
          process = p1;
          status = self.status;
        })
        some (record self { status = s.status }, s.process))
      else some (self, p1)

-- The boards are cleared before a game, and so is what the client remembers.
abbrev pub cleared_board : BoardStatus → Board
cleared_board st = record { board = replicate 200 0; board_original = replicate 200 0; status = st }

-- `server`, `client` and the board's status are not initialised by the source: they are what the
-- stack holds. A mode other than 'S' and 'C' runs nothing.
unfoldable pub sudoku_run :
    Network
    → Option Bytes
    → Server
    → Client
    → BoardStatus
    → Sudoku
    → Process
    → Option (Sudoku × Process)
sudoku_run n file server client st self p =
    if self.mode == b'S'
    then (do
      port ← self.arg1
      (self', (p', _, _)) ← sudoku_run_server n file port self server p (cleared_board st)
      some (self', p'))
    else if self.mode == b'C'
    then (do
      host ← self.arg1
      port ← self.arg2
      sudoku_play n host port self (record client { row = 0; col = 0; value = 0 }) p)
    else some (self, p)

abbrev pub is_args_ok : SudokuStatus → Bool
is_args_ok args_ok = true
is_args_ok _ = false

abbrev pub is_game_over : SudokuStatus → Bool
is_game_over endgame = true
is_game_over _ = false

-- main(): the exit code is 0 only after a game that came to its end.
unfoldable pub main :
    Network
    → Option Bytes
    → Server
    → Client
    → BoardStatus
    → Sudoku
    → Option (List Bytes)
    → Process
    → Option (ℕ × Process)
main n file server client st game argv p = do
  let (game1, p1) = sudoku_set_mode game argv p
  (game2, p2) ←
      (if is_args_ok game1.status
        then sudoku_run n file server client st game1 p1
        else some (game1, p1))
  some (if is_game_over game2.status then 0 else 1, p2)
