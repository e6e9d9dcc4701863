-- ===== src/Sudoku/Board/Cells.antt =====
-- Where the cells of tp1_sockets/board.c lie: `cell_index` in closed form, and grids of cells.
use programming_workshop.Common.{
  ℕ, zero, suc, ◌+◌, ◌-◌, ◌*◌, ◌%◌, ◌≤◌, ◌<◌, ◌≡◌, refl, ◌∙◌, ap, some, arith, Bytes, get_elem?,
  ◌==◌,
}
use programming_workshop.Common.Int.{pos, ◌-ℤ◌, is_zero, int_of_char}
use programming_workshop.Sudoku.Board.{
  Board, load, column_offset, cell_index, board_value_get, board_value_get_original,
}

column_offset_from : (j tmp : ℕ) → tmp < 256 → column_offset tmp (suc j) ≡ (tmp + 2 * j) % 256
unfolding column_offset
column_offset_from zero tmp h = omega arith
column_offset_from (suc j) tmp h =
    column_offset_from j ((tmp + 2) % 256) (omega arith) ∙ omega arith

-- The loop that counts the column down computes 2 (j - 1) in a `uint8_t`, and 0 for the column 0.
pub column_offset_lem : (j : ℕ) → column_offset 0 j ≡ 2 * (j - 1) % 256
unfolding column_offset
column_offset_lem zero = refl
column_offset_lem (suc j) = column_offset_from j 0 (omega arith) ∙ omega arith

-- The rows and columns of the game are 1 to 9.
pub record InGrid (i j : ℕ) : Type 0 where
  pub row_pos : 1 ≤ i
  pub row_le : i ≤ 9
  pub col_pos : 1 ≤ j
  pub col_le : j ≤ 9

abbrev pub position : ℕ → ℕ → ℕ
position i j = 18 * (i - 1) + 2 * (j - 1)

pub cell_index_lem : (i j : ℕ) → InGrid i j → cell_index i j ≡ pos (position i j)
unfolding cell_index
cell_index_lem i j h = ground (arith, column_offset_lem j)

pub position-lt : (i j : ℕ) → InGrid i j → position i j < 161
position-lt i j h = omega arith

-- Different cells lie at different places.
pub position-injective :
    (i j k l : ℕ) → InGrid i j → InGrid k l → position i j ≡ position k l → (i ≡ k) × (j ≡ l)
position-injective i j k l h h' e = omega arith

-- Row `i` from 1 on has its cells `CHARS_PER_ROW` apart, and never below the buffer.
pub cell_index_pos : (i j : ℕ) → 1 ≤ i → cell_index i j ≡ pos (18 * (i - 1) + 2 * (j - 1) % 256)
unfolding cell_index
cell_index_pos i j h = ground (arith, column_offset_lem j)

-- A buffer shows the bytes of `g` in its cells.
abbrev pub HasCells : Bytes → (ℕ → ℕ → ℕ) → Type 0
HasCells buf g = (i j : ℕ) → InGrid i j → get_elem? buf (position i j) ≡ some (g i j)

-- All of them are digits, '0' for an empty cell.
abbrev pub HasDigits : (ℕ → ℕ → ℕ) → Type 0
HasDigits g = (i j : ℕ) → InGrid i j → (48 ≤ g i j) × (g i j ≤ 57)

pub board_value_get_lem :
    (self : Board) (g : ℕ → ℕ → ℕ) (i j : ℕ)
    → HasCells self.board g
    → InGrid i j
    → board_value_get self i j ≡ some (g i j)
unfolding board_value_get
board_value_get_lem self g i j c h = ap (load self.board) (cell_index_lem i j h) ∙ c i j h

pub board_value_get_original_lem :
    (self : Board) (g : ℕ → ℕ → ℕ) (i j : ℕ)
    → HasCells self.board_original g
    → InGrid i j
    → board_value_get_original self i j ≡ some (g i j)
unfolding board_value_get_original
board_value_get_original_lem self g i j c h =
    ap (load self.board_original) (cell_index_lem i j h) ∙ c i j h

-- The test `(int)c - 48 == 0` of a `char`.
pub is_zero-char : (c : ℕ) → is_zero (int_of_char c -ℤ pos 48) ≡ (c == 48)
is_zero-char c = ground arith
