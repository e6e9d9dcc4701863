-- ===== src/Sudoku/Tests/Puzzle.antt =====
-- A puzzle for the tests of tp1_sockets, as text and as cells.
use programming_workshop.Common.{
  ℕ, ◌≡◌, refl, sym, ◌∙◌, ap, Bool, true, ◌&&◌, Option, none, some, List, [], ◌∷◌, ◌++◌, arith, leb,
  ltb, NoNul, Bytes, codes, get_elem?, get_elem?-lt,
}
use programming_workshop.Common.Bits.{holds_below, holds_below_sound}
use programming_workshop.Common.Int.{pos}
use programming_workshop.Sudoku.Socket.{Process, Arrival, Outcome, connected}
use programming_workshop.Sudoku.Board.{Board}
use programming_workshop.Sudoku.Board.Cells.{position, position-lt, HasCells, HasDigits}
use programming_workshop.Sudoku.Board.Reset.{NoEof}
use programming_workshop.Sudoku.State.{Server, ServerStatus, Client, ClientStatus}
use programming_workshop.Sudoku.Server.Game.{IsGame}
use programming_workshop.Sudoku.Game.Start.{IsPuzzle, loaded, loaded-IsGame}

abbrev pub puzzle_file : Bytes
puzzle_file =
    codes "5 3 0 0 7 0 0 0 0\n"
    ++ (codes "6 0 0 1 9 5 0 0 0\n"
        ++ (codes "0 9 8 0 0 0 0 6 0\n"
            ++ (codes "8 0 0 0 6 0 0 0 3\n"
                ++ (codes "4 0 0 8 0 3 0 0 1\n"
                    ++ (codes "7 0 0 0 2 0 0 0 6\n"
                        ++ (codes "0 6 0 0 0 0 2 8 0\n"
                            ++ (codes "0 0 0 4 1 9 0 0 5\n" ++ codes "0 0 0 0 8 0 0 7 9\n")))))))

abbrev byte_or_zero : Option ℕ → ℕ
byte_or_zero none = b'0'
byte_or_zero (some c) = c

abbrev pub puzzle : ℕ → ℕ → ℕ
puzzle i j = byte_or_zero (get_elem? puzzle_file (position i j))

abbrev is_digit_cell : ℕ → ℕ → Bool
is_digit_cell i j = leb 48 (puzzle i j) && leb (puzzle i j) 57

puzzle_table : holds_below 10 (λ i. holds_below 10 (is_digit_cell i)) ≡ true
unfolding holds_below
puzzle_table = refl

pub puzzle-HasDigits : HasDigits puzzle
puzzle-HasDigits i j h =
    let row =
      holds_below_sound 10 (λ i. holds_below 10 (is_digit_cell i)) i puzzle_table (omega arith) in
    let cell = holds_below_sound 10 (is_digit_cell i) j row (omega arith) in ground arith

pub puzzle-HasCells : HasCells puzzle_file puzzle
puzzle-HasCells i j h =
    let (a, e) = get_elem?-lt puzzle_file (position i j) (omega (arith, position-lt i j h)) in
    e ∙ ap (λ x. some (byte_or_zero x)) (sym e)

unfoldable is_plain : Bytes → Bool
is_plain [] = true
is_plain (c ∷ file) = ltb 0 c && (ltb c 255 && is_plain file)

is_plain_sound : (file : Bytes) → is_plain file ≡ true → NoEof file × NoNul file
unfolding is_plain
is_plain_sound [] h = (tt {0}, tt {0})
is_plain_sound (c ∷ file) h =
    let rest = is_plain_sound file (ground arith) in
    ((ground arith, rest.0), (ground arith, rest.1))

puzzle-is_plain : is_plain puzzle_file ≡ true
unfolding is_plain
puzzle-is_plain = refl

pub puzzle-IsPuzzle : IsPuzzle puzzle_file puzzle
puzzle-IsPuzzle = record {
  size = omega arith;
  covers = omega arith;
  no_eof = (is_plain_sound puzzle_file puzzle-is_plain).0;
  no_nul = (is_plain_sound puzzle_file puzzle-is_plain).1;
  cells = puzzle-HasCells;
  digits = puzzle-HasDigits;
}

-- The board with the puzzle loaded, and a game on it.
abbrev pub puzzle_board : Board
puzzle_board = loaded puzzle_file

pub puzzle-IsGame : IsGame puzzle puzzle puzzle_board
puzzle-IsGame = loaded-IsGame puzzle_file puzzle puzzle-IsPuzzle

-- A process that is connected, with nothing printed, read or sent so far.
abbrev pub process : List Arrival → List Outcome → Process
process arrivals outcomes = record {
  skt = pos 4;
  status = connected;
  arrivals = arrivals;
  outcomes = outcomes;
  sent = [];
  calls = [];
  stdin = [];
  stdout = [];
  stderr = [];
}

abbrev pub server_with : ℕ → ℕ → ℕ → ℕ → Server
server_with command row col value = record {
  command = command;
  row = row;
  col = col;
  value = value;
  status = ServerStatus.ok;
}

abbrev pub client_with : ℕ → ℕ → ℕ → ℕ → Client
client_with command row col value = record {
  command = command;
  row = row;
  col = col;
  value = value;
  status = ClientStatus.ok;
}
