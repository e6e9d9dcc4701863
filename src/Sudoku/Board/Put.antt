-- ===== src/Sudoku/Board/Put.antt =====
-- `board_put` of tp1_sockets/board.c: what it writes, where, and when it refuses.
use programming_workshop.Common.{
  ℕ, ◌+◌, ◌-◌, ◌*◌, ◌%◌, ◌≤◌, ◌≡◌, ◌≢◌, ◌∙◌, inl, inr, true, ◌&&◌, none, some, arith, Bytes, ltb,
  ◌==◌, if◌then◌else◌, set, length, length-set, get_elem?-set_self, get_elem?-set_ne, get_elem?-ge,
  Bool-cases,
}
use programming_workshop.Sudoku.Board.{
  Board, non_modifiable_value, board_value_get_original, board_value_set, board_put,
}
use programming_workshop.Sudoku.Board.Cells.{
  InGrid, position, cell_index_lem, cell_index_pos, position-lt, position-injective, HasCells,
  board_value_get_original_lem, is_zero-char,
}

-- Both buffers have their 200 bytes.
pub record HasBuffers (self : Board) : Type 0 where
  pub board_length : length self.board ≡ 200
  pub original_length : length self.board_original ≡ 200

abbrev pub changed : (ℕ → ℕ → ℕ) → ℕ → ℕ → ℕ → ℕ → ℕ → ℕ
changed g i j v k l = if k == i && l == j then v else g k l

set-HasCells :
    (buf : Bytes) (g : ℕ → ℕ → ℕ) (i j v : ℕ)
    → length buf ≡ 200
    → InGrid i j
    → HasCells buf g
    → HasCells (set buf (position i j) v) (changed g i j v)
set-HasCells buf g i j v n h c k l h' = elim (Bool-cases (k == i && l == j)) [
  | inl same ↦
      let e : position k l ≡ position i j = ground arith in
      rw (same, e) (get_elem?-set_self buf (position i j) v (omega (arith, position-lt i j h)))
  | inr other ↦
      let d : position i j ≢ position k l =
        λ e. ground (arith, position-injective i j k l h h' e) in
      rw other (get_elem?-set_ne buf (position i j) (position k l) v d ∙ c k l h')
]

-- `board_put` at a cell of the grid returns. It changes the board only if the cell was empty at
-- the start, that is '0' in the original: then the cell holds the digit's character, every other
-- cell keeps its byte, and the status stays. Otherwise the status becomes
-- BOARD_NON_MODIFIABLE_VALUE and all cells stay. The original is never changed.
pub board_put_lem :
    (self : Board) (g o : ℕ → ℕ → ℕ) (i j value : ℕ)
    → HasBuffers self
    → HasCells self.board g
    → HasCells self.board_original o
    → InGrid i j
    → (buf : Bytes) × (board_put self i j value
        ≡ some (record self {
          board = buf;
          status = if o i j == 48 then self.status else non_modifiable_value;
        }))
      × (length buf ≡ 200)
      × HasCells buf (if o i j == 48 then changed g i j ((value + 48) % 256) else g)
unfolding board_put
board_put_lem self g o i j value b c c' h = elim (Bool-cases (o i j == 48)) [
  | inl empty ↦
      let fits : ltb (position i j) (length self.board) ≡ true =
        ground (arith, position-lt i j h, b.board_length) in
      (
        set self.board (position i j) ((value + 48) % 256),
        rw (board_value_get_original_lem self o i j c' h, is_zero-char (o i j), empty)
            (unfold board_value_set in rw (cell_index_lem i j h, fits)),
        length-set self.board (position i j) _ ∙ b.board_length,
        rw empty (set-HasCells self.board g i j _ b.board_length h c),
      )
  | inr given ↦ (
    self.board,
    rw (board_value_get_original_lem self o i j c' h, is_zero-char (o i j), given),
    b.board_length,
    rw given c,
  )
]

-- The row and column come from the peer as bytes and are not checked: from row 13 on every access
-- is past the end of the 200 bytes, whatever the column and the value.
pub board_put_out :
    (self : Board) (i j value : ℕ) → HasBuffers self → 13 ≤ i → board_put self i j value ≡ none
unfolding board_put board_value_get_original
board_put_out self i j value b h =
    let e = b.original_length in
    rw (
      cell_index_pos i j (omega arith),
      get_elem?-ge self.board_original (18 * (i - 1) + 2 * (j - 1) % 256) (omega arith),
    )
