-- ===== src/Sudoku/Tests/Lines.antt =====
-- Instances of the theorems about the lines that a player types, for tp1_sockets.
use programming_workshop.Common.{
  replicate, ◌⊎◌, ◌≡◌, refl, none, some, [], ◌∷◌, ◌++◌, arith, codes, bytes_eq, c_string,
}
use programming_workshop.Common.Tokens.{strtok}
use programming_workshop.Sudoku.Socket.{Process, segment}
use programming_workshop.Sudoku.State.{command_invalid, Client, command_valid}
use programming_workshop.Sudoku.Client.{client_command_process, process_put_line}
use programming_workshop.Sudoku.Client.Parse.{
  IsSendable, client_command_process-IsSendable, put_line, client_command_process-put,
}
use programming_workshop.Sudoku.Game.{Playing, SudokuStatus}
use programming_workshop.Sudoku.Game.Input.{ReadUndefined, ReadEnds, read_loop_lem}
use programming_workshop.Sudoku.Game.Play.{PlayUndefined, PlayEnds, play_loop_lem}
use programming_workshop.Sudoku.Game.Typed.{IsServed, command_of, typed_command_lem}
use programming_workshop.Sudoku.Tests.Puzzle.{
  process, client_with, server_with, puzzle, puzzle_board, puzzle-IsGame,
}

abbrev idle : Client
idle = client_with b'X' 0 0 0

abbrev put_7 : Client
put_7 = record (client_with b'P' 2 3 7) { status = command_valid }

-- A line that ends behind its first word: strtok() finds no other, and the null pointer that it
-- returns is used.
blank_run : client_command_process idle (codes "put " ++ 0 ∷ []) (process [] []) ≡ none
unfolding client_command_process strtok c_string bytes_eq process_put_line
blank_run = refl

client_command_process-put_example :
    client_command_process idle (put_line 7 2 3 ++ 0 ∷ []) (process [] [])
    ≡ some (put_7, process [] [])
client_command_process-put_example =
    client_command_process-put idle (process [] []) [] 7 2 3 refl (omega arith) (omega arith)

client_command_process-IsSendable_example : IsSendable put_7
client_command_process-IsSendable_example =
    client_command_process-IsSendable idle put_7 (put_line 7 2 3 ++ 0 ∷ []) (process [] [])
      (process [] []) client_command_process-put_example (λ h. ground arith) refl

-- A player that types a wrong command and then an exit.
abbrev typing : Process
typing = record (process [] []) { stdin = codes "put x\nexit\n" }

read_loop_lem_example :
    ReadEnds 13 (record idle { status = command_invalid }) (replicate 20 1) typing
    ⊎ ReadUndefined (record idle { status = command_invalid }) (replicate 20 1) typing
read_loop_lem_example =
    read_loop_lem (record idle { status = command_invalid }) (replicate 20 1) typing

abbrev playing : Playing
playing = record {
  client = idle;
  client_command = replicate 20 1;
  received = replicate 800 0;
  process = typing;
  status = SudokuStatus.args_ok;
}

play_loop_lem_example : PlayEnds 13 playing ⊎ PlayUndefined playing
play_loop_lem_example = play_loop_lem playing

typed_command_lem_example :
    IsServed
      (command_of put_7)
      puzzle
      puzzle
      (server_with 0 0 0 0)
      puzzle_board
      (process (segment b'P' (2 ∷ 3 ∷ []) ∷ segment 7 [] ∷ []) [])
typed_command_lem_example =
    typed_command_lem idle put_7 (put_line 7 2 3 ++ 0 ∷ []) (process [] []) (process [] []) puzzle
      puzzle (server_with 0 0 0 0) puzzle_board
      (process (segment b'P' (2 ∷ 3 ∷ []) ∷ segment 7 [] ∷ []) [])
      client_command_process-put_example (λ h. ground arith) refl puzzle-IsGame (tt {0}) refl
