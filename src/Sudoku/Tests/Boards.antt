-- ===== src/Sudoku/Tests/Boards.antt =====
-- Instances of the theorems about the board of tp1_sockets and its picture.
use programming_workshop.Common.{
  ℕ, zero, suc, ◌≡◌, ◌↔◌, refl, Bool, false, none, some, List, [], ◌∷◌, ◌++◌, arith, if◌then◌else◌,
  Bytes, codes, length, replicate, drop,
}
use programming_workshop.Sudoku.Socket.{print, Outcome, accepts, send_success}
use programming_workshop.Sudoku.Socket.Send.{Accepting}
use programming_workshop.Sudoku.Board.{
  Board, ok, non_modifiable_value, invalid, board_put, board_verify, board_reset, board_read,
  cell_index,
}
use programming_workshop.Sudoku.Board.Cells.{HasCells}
use programming_workshop.Sudoku.Board.Put.{HasBuffers, changed, board_put_lem, board_put_out}
use programming_workshop.Sudoku.Board.Reset.{
  NoEof, board_read_lem, board_read-none, board_reset_lem,
}
use programming_workshop.Sudoku.Board.Rules.{IsSudoku, board_verify_lem}
use programming_workshop.Sudoku.Protocol.Text.{frame}
use programming_workshop.Sudoku.Server.{server_send_board}
use programming_workshop.Sudoku.Server.Picture.{IsPicture, server_send_board_lem}
use programming_workshop.Sudoku.Game.{cleared_board}
use programming_workshop.Sudoku.Tests.Puzzle.{
  puzzle, puzzle_file, puzzle_board, puzzle-IsGame, puzzle-IsPuzzle, puzzle-HasDigits, process,
}

-- The cell (1, 3) is empty at the start, the cell (1, 1) is given.
board_put_lem_example :
    (buf : Bytes) × (board_put puzzle_board 1 3 4
      ≡ some (record puzzle_board { board = buf; status = ok }))
    × (length buf ≡ 200)
    × HasCells buf (changed puzzle 1 3 52)
board_put_lem_example =
    board_put_lem puzzle_board puzzle puzzle 1 3 4 puzzle-IsGame.buffers puzzle-IsGame.cells
      puzzle-IsGame.puzzle (omega arith)

put_given_run :
    board_put puzzle_board 1 1 4 ≡ some (record puzzle_board { status = non_modifiable_value })
unfolding board_put cell_index
put_given_run = refl

board_put_out_example : board_put puzzle_board 13 1 4 ≡ none
board_put_out_example = board_put_out puzzle_board 13 1 4 puzzle-IsGame.buffers (omega arith)

board_verify_lem_example :
    (bad : Bool) × (board_verify puzzle_board
      ≡ some (record puzzle_board { status = if bad then invalid else ok }))
    × ((bad ≡ false) ↔ IsSudoku puzzle)
board_verify_lem_example = board_verify_lem puzzle_board puzzle puzzle-HasDigits puzzle-IsGame.cells

verify_run : board_verify puzzle_board ≡ some puzzle_board
unfolding board_verify cell_index
verify_run = refl

-- A second 5 in the first row.
verify_clash_run :
    board_verify (record puzzle_board { board = codes "5 3 5 " ++ drop 6 puzzle_board.board })
    ≡ some (record puzzle_board {
      board = codes "5 3 5 " ++ drop 6 puzzle_board.board;
      status = invalid;
    })
unfolding board_verify cell_index
verify_clash_run = refl

abbrev blank : Board
blank = cleared_board ok

blank-HasBuffers : HasBuffers blank
blank-HasBuffers = record { board_length = refl; original_length = refl }

board_read_lem_example :
    board_read (some puzzle_file) blank
    ≡ some (record {
      board = puzzle_file ++ drop (length puzzle_file) blank.board;
      board_original = puzzle_file ++ drop (length puzzle_file) blank.board_original;
      status = ok;
    })
board_read_lem_example =
    board_read_lem puzzle_file blank blank-HasBuffers puzzle-IsPuzzle.no_eof (omega arith)

zeros-NoEof : (n : ℕ) → NoEof (replicate n 48)
zeros-NoEof zero = tt {0}
zeros-NoEof (suc n) = (omega arith, zeros-NoEof n)

-- A file of 201 bytes.
board_read-none_example : board_read (some (replicate 201 48)) blank ≡ none
board_read-none_example =
    board_read-none (replicate 201 48) blank blank-HasBuffers (zeros-NoEof 201) (omega arith)

board_reset_lem_example :
    (buf : Bytes) × (board_reset (process [] []) (record puzzle_board { status = invalid })
      ≡ some (
        print (process [] []) (codes "Tablero reiniciado."),
        record puzzle_board { board = buf; status = ok },
      ))
    × (length buf ≡ 200)
    × HasCells buf puzzle
board_reset_lem_example =
    board_reset_lem (process [] []) (record puzzle_board { status = invalid }) puzzle
      (record {
        board_length = puzzle-IsGame.buffers.board_length;
        original_length = puzzle-IsGame.buffers.original_length;
      })
      (record {
        text = puzzle-IsGame.text.text;
        rest = puzzle-IsGame.text.rest;
        ends = puzzle-IsGame.text.ends;
        no_nul = puzzle-IsGame.text.no_nul;
        covers = puzzle-IsGame.text.covers;
      })
      puzzle-IsGame.puzzle

server_send_board_lem_example :
    (text : Bytes) × (o : List Outcome) × (server_send_board
        (process [] (accepts 9 ∷ []))
        puzzle_board
      ≡ some (record (process [] (accepts 9 ∷ [])) {
        status = send_success;
        outcomes = o;
        sent = frame text;
        stdout = codes "\n" ++ text;
      }))
    × IsPicture puzzle text
    × Accepting o
server_send_board_lem_example =
    server_send_board_lem (process [] (accepts 9 ∷ [])) puzzle_board puzzle puzzle-HasDigits
      puzzle-IsGame.cells (tt {0})
