-- ===== src/Sudoku/Board.antt =====
-- tp1_sockets/board.h and board.c. The board is a buffer of text, nine rows of 18 bytes, in which
-- the cell (i, j) stands at 18 (i - 1) + 2 (j - 1). Bytes are numbers below 256, read as signed
-- `char`s; an access outside the 200 bytes of a buffer is `none`.
pub mod Cells
pub mod Marks
pub mod Put
pub mod Verify
pub mod Repeats
pub mod Rules
pub mod Reset
use Prim.Native.Nat.{bit_and, bit_or}
use programming_workshop.Common.{
  ℕ, zero, suc, ◌+◌, ◌-◌, ◌*◌, ◌/◌, ◌%◌, ◌^◌, Bool, true, false, not, Option, none, some, List, [],
  ◌∷◌, ◌++◌, ltb, ◌==◌, if◌then◌else◌, ◌>>=◌, Bytes, codes, length, get_elem?, set, take, c_string,
}
use programming_workshop.Common.Int.{ℤ, pos, negsuc, ◌+ℤ◌, ◌-ℤ◌, ◌*ℤ◌, is_zero, int_of_char}
use programming_workshop.Common.Loop.{for_range}
use programming_workshop.Sudoku.Socket.{Process, print, write_at}

pub data BoardStatus : Type 0 where
  ok non_modifiable_value file_error invalid : BoardStatus

abbrev pub board_size : ℕ
board_size = 200

pub record Board : Type 0 where
  pub board : Bytes
  pub board_original : Bytes
  pub status : BoardStatus

abbrev pub chars_per_row : ℤ
chars_per_row = pos 18

-- The arrays' accesses at an `int` index.
abbrev pub load : Bytes → ℤ → Option ℕ
load buf (pos n) = get_elem? buf n
load buf (negsuc n) = none

abbrev pub store : Bytes → ℤ → ℕ → Option Bytes
store buf (pos n) c = if ltb n (length buf) then some (set buf n c) else none
store buf (negsuc n) c = none

-- The loop of `board_read`, from position `i` on. `fgetc` is stored in a `char`, so that the byte
-- 255 compares equal to EOF too.
unfoldable pub read_loop : Bytes → ℕ → Board → Option Board
read_loop [] i self = some self
read_loop (c ∷ file) i self = if c == 255 then some self else (do
  board ← store self.board (pos i) c
  original ← store self.board_original (pos i) c
  read_loop file (i + 1) (record self { board = board; board_original = original }))

-- `none` for the file: fopen() fails.
unfoldable pub board_read : Option Bytes → Board → Option Board
unfolding read_loop
board_read none self = some (record self { status = file_error })
board_read (some file) self = do self' ← read_loop file 0 self; some (record self' { status = ok })

-- while (j > 1) { tmp = tmp + 2; j--; } with a `uint8_t tmp`.
unfoldable pub column_offset : ℕ → ℕ → ℕ
column_offset tmp zero = tmp
column_offset tmp (suc zero) = tmp
column_offset tmp (suc (suc j)) = column_offset ((tmp + 2) % 256) (suc j)

-- CHARS_PER_ROW*(i-1) + tmp
unfoldable pub cell_index : ℕ → ℕ → ℤ
unfolding column_offset
cell_index i j = chars_per_row *ℤ (pos i -ℤ pos 1) +ℤ pos (column_offset 0 j)

unfoldable pub board_value_get : Board → ℕ → ℕ → Option ℕ
board_value_get self i j = load self.board (cell_index i j)

unfoldable pub board_value_get_original : Board → ℕ → ℕ → Option ℕ
board_value_get_original self i j = load self.board_original (cell_index i j)

unfoldable pub board_value_set : Board → ℕ → ℕ → ℕ → Option Board
board_value_set self i j value = do
  board ← store self.board (cell_index i j) ((value + 48) % 256)
  some (record self { board = board })

unfoldable pub board_put : Board → ℕ → ℕ → ℕ → Option Board
unfolding board_value_get_original board_value_set
board_put self i j value = do
  c ← board_value_get_original self i j
  if is_zero (int_of_char c -ℤ pos 48)
      then board_value_set self i j value
      else some (record self { status = non_modifiable_value })

-- The 32-bit pattern of a `short` promoted to `int`, and back.
abbrev pub int_of_short : ℕ → ℕ
int_of_short r = if ltb r (2 ^ 15) then r else r + (2 ^ 32 - 2 ^ 16)

abbrev pub short_of_int : ℕ → ℕ
short_of_int x = x % 2 ^ 16

-- x >> k of an `int`, which keeps the sign.
abbrev pub arithmetic_shift : ℕ → ℕ → ℕ
arithmetic_shift x k = if ltb x (2 ^ 31) then x / 2 ^ k else 2 ^ 32 - 1 - (2 ^ 32 - 1 - x) / 2 ^ k

-- Shifts by a negative amount, or by the width or more, are undefined, and so is `1 << 31`.
abbrev pub shift_right : ℕ → ℤ → Option ℕ
shift_right x (pos k) = if ltb k 32 then some (arithmetic_shift x k) else none
shift_right x (negsuc k) = none

abbrev pub shift_left_one : ℤ → Option ℕ
shift_left_one (pos k) = if ltb k 31 then some (2 ^ k) else none
shift_left_one (negsuc k) = none

-- A board and the marks of the digits seen in the group at hand, a `short`.
abbrev pub Marked : Type 0
Marked = Board × ℕ

-- The body of the three innermost loops, for the cell's byte `c`.
unfoldable pub mark : Marked → ℕ → Option Marked
mark (self, row) c = do
  let value = int_of_char c -ℤ pos 48
  shifted ← shift_right (int_of_short row) (pos 9 -ℤ value)
  if not (bit_and shifted 1 == 0)
      then some (record self { status = invalid }, row)
      else (if is_zero value then some (self, row) else (do
        m ← shift_left_one (pos 9 -ℤ value)
        some (self, short_of_int (bit_or (int_of_short row) m))))

-- The body of an innermost loop at the cell (i, j).
abbrev pub visit : ℕ → ℕ → Marked → Option Marked
visit i j (self, row) = do c ← board_value_get self i j; mark (self, row) c

abbrev pub clear : Marked → Option Marked
clear (self, row) = some (self, 0)

unfoldable pub board_row_verify : Board → Option Board
unfolding for_range board_value_get mark
board_row_verify self = do
  (self', _) ←
      for_range 9 1 (λ i s. do s' ← for_range 9 1 (λ j t. visit i j t) s; clear s') (self, 0)
  some self'

unfoldable pub board_col_verify : Board → Option Board
unfolding for_range board_value_get mark
board_col_verify self = do
  (self', _) ←
      for_range 9 1 (λ i s. do s' ← for_range 9 1 (λ j t. visit j i t) s; clear s') (self, 0)
  some self'

-- One of the nine 3 by 3 boxes: the loops over k and l, and `cell = 0`.
abbrev pub visit_box : ℕ → ℕ → Marked → Option Marked
visit_box i j t = do
  t' ← for_range 3 (3 * i - 2) (λ k u. for_range 3 (3 * j - 2) (λ l v. visit k l v) u) t
  clear t'

unfoldable pub board_cell_verify : Board → Option Board
unfolding for_range board_value_get mark
board_cell_verify self = do
  (self', _) ← for_range 3 1 (λ i s. for_range 3 1 (λ j t. visit_box i j t) s) (self, 0)
  some self'

unfoldable pub board_verify : Board → Option Board
unfolding board_row_verify board_col_verify board_cell_verify
board_verify self = do
  self1 ← board_row_verify self
  self2 ← board_col_verify self1
  board_cell_verify self2

-- snprintf(self->board, sizeof(self->board), "%s", self->board_original), and the message.
unfoldable pub board_reset : Process → Board → Option (Process × Board)
unfolding c_string write_at
board_reset p self = do
  original ← c_string self.board_original
  board ← write_at 0 (take 199 original ++ 0 ∷ []) self.board
  some (print p (codes "Tablero reiniciado."), record self { board = board; status = ok })
