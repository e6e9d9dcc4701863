-- ===== src/Sudoku/Tests/Games.antt =====
-- Whole games of tp1_sockets on a concrete puzzle.
use programming_workshop.Common.{ℕ, refl, none, some, List, [], ◌∷◌, arith, codes}
use programming_workshop.Common.Int.{pos}
use programming_workshop.Sudoku.Socket.{Process, segment, accepts}
use programming_workshop.Sudoku.Socket.Setup.{Network}
use programming_workshop.Sudoku.Board.{ok}
use programming_workshop.Sudoku.Server.{server_process_command}
use programming_workshop.Sudoku.Server.Game.{Serves}
use programming_workshop.Sudoku.Server.Handle.{server_process_command_lem}
use programming_workshop.Sudoku.Game.{Sudoku, SudokuStatus, sudoku_run_server, cleared_board}
use programming_workshop.Sudoku.Game.Session.{Command, Fits}
use programming_workshop.Sudoku.Game.Start.{Resolves, GameOver, sudoku_run_server_lem}
use programming_workshop.Sudoku.Tests.Puzzle.{
  puzzle, puzzle_file, puzzle_board, puzzle-IsGame, puzzle-IsPuzzle, process, server_with,
}

-- The first byte of the answer is accepted alone.
abbrev waiting : Process
waiting = process [] (accepts 0 ∷ [])

server_process_command_lem_example :
    Serves puzzle puzzle
      (server_with b'P' 1 3 4)
      puzzle_board
      waiting
      (server_process_command (server_with b'P' 1 3 4) puzzle_board waiting)
server_process_command_lem_example =
    server_process_command_lem puzzle puzzle (server_with b'P' 1 3 4) puzzle_board waiting
      puzzle-IsGame (tt {0}) (λ h. (omega arith, omega arith))

abbrev network : Network
network = record {
  getaddrinfo = λ host port. pos 0;
  socket_result = pos 3;
  setsockopt_result = pos 0;
  bind_result = pos 0;
  listen_result = pos 0;
  connect_result = pos 0;
  accept_result = pos 4;
}

network-Resolves : Resolves network
network-Resolves = record { getaddrinfo_ok = λ port. refl; socket_ok = refl; bind_ok = refl }

abbrev command_with : ℕ → ℕ → ℕ → ℕ → Command
command_with command row col value = record {
  command = command;
  row = row;
  col = col;
  value = value;
}

abbrev commands : List Command
commands = command_with b'P' 1 3 4 ∷ command_with b'V' 0 0 0 ∷ command_with b'R' 0 0 0 ∷ []

commands-Fits : Fits commands
commands-Fits = (
  λ h. (omega arith, omega arith),
  (λ h. absurd (ground arith), (λ h. absurd (ground arith), tt {0})),
)

-- The commands arrive in two pieces, the first of which ends within the 'P'.
abbrev playing : Process
playing = process (segment b'P' (1 ∷ []) ∷ segment 3 (4 ∷ b'V' ∷ b'R' ∷ []) ∷ []) []

abbrev sudoku : Sudoku
sudoku = record {
  mode = b'S';
  arg1 = some (codes "7777");
  arg2 = none;
  status = SudokuStatus.args_ok;
}

sudoku_run_server_lem_example : GameOver puzzle commands sudoku [] (
    sudoku_run_server network
      (some puzzle_file)
      (codes "7777")
      sudoku
      (server_with 0 0 0 0)
      playing
      (cleared_board ok))
sudoku_run_server_lem_example =
    sudoku_run_server_lem network puzzle_file (codes "7777") sudoku (server_with 0 0 0 0) playing ok
      puzzle commands network-Resolves puzzle-IsPuzzle (tt {0}) refl commands-Fits
