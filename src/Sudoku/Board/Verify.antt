-- ===== src/Sudoku/Board/Verify.antt =====
-- `board_verify` of tp1_sockets/board.c: what the marks compute, and the rules of the game.
use programming_workshop.Common.{
  ℕ, zero, suc, ◌+◌, ◌-◌, ◌*◌, ◌≤◌, ◌<◌, ◌≡◌, refl, ◌∙◌, Bool, false, ◌||◌, Option, some, List, [],
  ◌∷◌, arith, Bytes, ◌>>=◌,
}
use programming_workshop.Common.Loop.{for_range}
use programming_workshop.Sudoku.Board.{
  Board, Marked, visit, visit_box, clear, board_row_verify, board_col_verify, board_cell_verify,
  board_verify,
}
use programming_workshop.Sudoku.Board.Cells.{InGrid, HasCells, HasDigits, board_value_get_lem}
use programming_workshop.Sudoku.Board.Marks.{
  clashes, IsMarked, IsMarked-nil, with_clash, with_clash-or, Scans, mark-Scans, gather,
  for_range-Scans,
}

-- Some `p k` holds, for `n` values from `first` on.
abbrev pub any : ℕ → ℕ → (ℕ → Bool) → Bool
any zero first p = false
any (suc n) first p = p first || any n (first + 1) p

-- A loop over groups, each of which starts with no marks and ends with none.
groups_lem :
    (buf : Bytes) (body : ℕ → Marked → Option Marked) (bad : ℕ → Bool) (top : ℕ)
    → ((k : ℕ) (self : Board)
        → 1 ≤ k
        → k < top
        → self.board ≡ buf
        → body k (self, 0) ≡ some (with_clash self (bad k), 0))
    → (n first : ℕ) (self : Board) → 1 ≤ first
    → first + n ≤ top
    → self.board ≡ buf
    → for_range n first body (self, 0) ≡ some (with_clash self (any n first bad), 0)
unfolding for_range
groups_lem buf body bad top each zero first self lo hi e = refl
groups_lem buf body bad top each (suc n) first self lo hi e =
    rw (each first self lo (omega arith) e) (
      groups_lem buf body bad top each n (first + 1) (with_clash self (bad first)) (omega arith)
        (omega arith) e
      ∙ rw with_clash-or)

Scans-clear :
    (self : Board) (cs : List ℕ) (r : Option Marked)
    → Scans self [] cs r
    → (r >>= clear) ≡ some (with_clash self (clashes [] cs), 0)
Scans-clear self cs r (row, e, m) = rw e

module _ (g : ℕ → ℕ → ℕ) where
  abbrev pub row_cells : ℕ → List ℕ
  row_cells i = gather 9 1 (λ j. g i j ∷ [])

  abbrev pub col_cells : ℕ → List ℕ
  col_cells j = gather 9 1 (λ i. g i j ∷ [])

  abbrev pub box_cells : ℕ → ℕ → List ℕ
  box_cells i j = gather 3 (3 * i - 2) (λ k. gather 3 (3 * j - 2) (λ l. g k l ∷ []))

  unfoldable pub rows_clash : Bool
  rows_clash = any 9 1 (λ i. clashes [] (row_cells i))

  unfoldable pub cols_clash : Bool
  cols_clash = any 9 1 (λ j. clashes [] (col_cells j))

  unfoldable pub boxes_clash : Bool
  boxes_clash = any 3 1 (λ i. any 3 1 (λ j. clashes [] (box_cells i j)))

module _ (g : ℕ → ℕ → ℕ) (digits : HasDigits g) (buf : Bytes) (cells : HasCells buf g) where
  visit-Scans :
      (i j row : ℕ) (self : Board) (seen : List ℕ)
      → InGrid i j
      → self.board ≡ buf
      → IsMarked row seen
      → Scans self seen (g i j ∷ []) (visit i j (self, row))
  visit-Scans i j row self seen h e m =
      rw (board_value_get_lem self g i j (λ k l. rw e (cells k l)) h)
        (mark-Scans self row (g i j) seen (digits i j h).0 (digits i j h).1 m)

  -- A row of visits, whose cells lie in the grid.
  line-Scans :
      (cell : ℕ → ℕ × ℕ) (n first row top : ℕ) (self : Board) (seen : List ℕ)
      → ((k : ℕ) → 1 ≤ k → k < top → InGrid (cell k).0 (cell k).1)
      → 1 ≤ first
      → first + n ≤ top
      → self.board ≡ buf
      → IsMarked row seen
      → Scans self seen
          (gather n first (λ k. g (cell k).0 (cell k).1 ∷ []))
          (for_range n first (λ k t. visit (cell k).0 (cell k).1 t) (self, row))
  line-Scans cell n first row top self seen inside lo hi e m =
      for_range-Scans buf (λ k t. visit (cell k).0 (cell k).1 t) (λ k. g (cell k).0 (cell k).1 ∷ [])
        top
        (λ k row' t seen' lo' hi'.
          visit-Scans (cell k).0 (cell k).1 row' t seen' (inside k lo' hi'))
        n first row self seen lo hi e m

  row_lem :
      (self : Board)
      → self.board ≡ buf
      → board_row_verify self ≡ some (with_clash self (rows_clash g))
  unfolding board_row_verify rows_clash
  row_lem self e = rw (
      groups_lem buf _ (λ i. clashes [] (row_cells g i)) 10
        (λ i t lo hi e'. Scans-clear t (row_cells g i) _ (
          line-Scans (λ j. (i, j)) 9 1 0 10 t [] (λ j lo' hi'. omega arith) (omega arith)
            (omega arith) e' IsMarked-nil))
        9 1 self (omega arith) (omega arith) e)

  col_lem :
      (self : Board)
      → self.board ≡ buf
      → board_col_verify self ≡ some (with_clash self (cols_clash g))
  unfolding board_col_verify cols_clash
  col_lem self e = rw (
      groups_lem buf _ (λ j. clashes [] (col_cells g j)) 10
        (λ j t lo hi e'. Scans-clear t (col_cells g j) _ (
          line-Scans (λ i. (i, j)) 9 1 0 10 t [] (λ i lo' hi'. omega arith) (omega arith)
            (omega arith) e' IsMarked-nil))
        9 1 self (omega arith) (omega arith) e)

  visit_box_lem :
      (i j : ℕ) (self : Board)
      → 1 ≤ i
      → i < 4
      → 1 ≤ j
      → j < 4
      → self.board ≡ buf
      → visit_box i j (self, 0) ≡ some (with_clash self (clashes [] (box_cells g i j)), 0)
  visit_box_lem i j self lo hi lo' hi' e = Scans-clear self (box_cells g i j) _ (
      for_range-Scans buf (λ k u. for_range 3 (3 * j - 2) (λ l v. visit k l v) u)
        (λ k. gather 3 (3 * j - 2) (λ l. g k l ∷ [])) 10
        (λ k row v seen low high.
          line-Scans (λ l. (k, l)) 3 (3 * j - 2) row 10 v seen (λ l low' high'. omega arith)
            (omega arith) (omega arith))
        3 (3 * i - 2) 0 self [] (omega arith) (omega arith) e IsMarked-nil)

  box_lem :
      (self : Board)
      → self.board ≡ buf
      → board_cell_verify self ≡ some (with_clash self (boxes_clash g))
  unfolding board_cell_verify boxes_clash
  box_lem self e = rw (
      groups_lem buf (λ i t. for_range 3 1 (λ j u. visit_box i j u) t)
        (λ i. any 3 1 (λ j. clashes [] (box_cells g i j))) 4
        (λ i t lo hi e'.
          groups_lem buf (λ j u. visit_box i j u) (λ j. clashes [] (box_cells g i j)) 4
            (λ j u lo' hi' e''. visit_box_lem i j u lo hi lo' hi' e'') 3 1 t (omega arith)
            (omega arith) e')
        3 1 self (omega arith) (omega arith) e)

  pub board_verify-clash :
      (self : Board)
      → self.board ≡ buf
      → board_verify self ≡ some (with_clash self (rows_clash g || (cols_clash g || boxes_clash g)))
  unfolding board_verify
  board_verify-clash self e =
      rw
        (
          row_lem self e,
          col_lem (with_clash self (rows_clash g)) e,
          box_lem (with_clash (with_clash self (rows_clash g)) (cols_clash g)) e,
          with_clash-or,
          with_clash-or,
        )
        (ground arith)
