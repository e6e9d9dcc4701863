-- ===== src/Sudoku/Game/Typed.antt =====
-- From a line that the player types to the answer of the server: client.c, protocol.c and server.c of
-- tp1_sockets together.
use mathlib.Core.List.{append-nil}
use programming_workshop.Common.{ℕ, ◌≡◌, ◌≢◌, sym, ◌∙◌, some, [], Bytes}
use programming_workshop.Sudoku.Socket.{Process, reception_success}
use programming_workshop.Sudoku.Socket.Receive.{available}
use programming_workshop.Sudoku.Socket.Send.{Accepting}
use programming_workshop.Sudoku.Board.{Board}
use programming_workshop.Sudoku.State.{Client, command_valid, Server}
use programming_workshop.Sudoku.Protocol.Command.{command_bytes}
use programming_workshop.Sudoku.Client.{client_command_process}
use programming_workshop.Sudoku.Client.Parse.{client_command_process-IsSendable}
use programming_workshop.Sudoku.Server.{server_process_command, server_receive_command}
use programming_workshop.Sudoku.Server.Game.{IsGame, Serves}
use programming_workshop.Sudoku.Server.Handle.{server_process_command_lem}
use programming_workshop.Sudoku.Game.Session.{
  Command, Holds, got, got-Holds, receive-more, Fits-numbers,
}

-- The command of a client's record.
abbrev pub command_of : Client → Command
command_of c = record { command = c.command; row = c.row; col = c.col; value = c.value }

-- The server reads the command and serves it.
pub record IsServed (c : Command) (o g : ℕ → ℕ → ℕ) (server : Server) (board : Board) (q : Process)
    : Type 0 where
  pub q' : Process
  pub server' : Server
  pub receives : server_receive_command q server ≡ some (q', server')
  pub holds : Holds server' c
  pub serves : Serves o g server' board q' (server_process_command server' board q')

-- Whatever line the player types: if the client takes it for a valid command, and the bytes of that
-- command arrive at a server with a game in progress, in whatever pieces, the server reads the
-- command that the client meant and serves it as it promises, without undefined behaviour. No
-- condition on the command is left: the client has checked it.
pub typed_command_lem :
    (self c : Client) (line : Bytes) (p p' : Process) (o g : ℕ → ℕ → ℕ) (server : Server)
    (board : Board) (q : Process)
    → client_command_process self line p ≡ some (c, p')
    → self.status ≢ command_valid
    → c.status ≡ command_valid
    → IsGame o g board
    → Accepting q.outcomes
    → available q.arrivals ≡ command_bytes c.command c.row c.col c.value
    → IsServed (command_of c) o g server board q
typed_command_lem self c line p p' o g server board q h ne valid game a e =
    let sendable = client_command_process-IsSendable self c line p p' h ne valid in
    let (left, r, rest) =
      receive-more q server (command_of c) []
        (e ∙ sym (append-nil (command_bytes c.command c.row c.col c.value))) in
    let q1 : Process = record q { status = reception_success; arrivals = left } in
    let held = got-Holds server (command_of c) in
    record {
      q' = q1;
      server' = got server (command_of c);
      receives = r;
      holds = held;
      serves =
          server_process_command_lem o g (got server (command_of c)) board q1 game a
            (Fits-numbers (got server (command_of c)) (command_of c) held sendable.put_fits);
    }
