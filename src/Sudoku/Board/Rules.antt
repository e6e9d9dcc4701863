-- ===== src/Sudoku/Board/Rules.antt =====
-- The rules of Sudoku, and that `board_verify` of tp1_sockets/board.c decides them.
use programming_workshop.Common.{
  ℕ, zero, suc, ◌+◌, ◌-◌, ◌*◌, ◌/◌, ◌%◌, ◌≤◌, ◌<◌, ◌≡◌, ◌≢◌, ◌↔◌, refl, ◌∙◌, ◌⊎◌, inl, inr, Bool,
  false, ◌||◌, some, [], ◌∷◌, arith, get_elem?, if◌then◌else◌, Bool-cases, ◌==◌, ltb, ltb→lt,
  ltb-false→le, get_elem?-ge,
}
use programming_workshop.Sudoku.Board.{Board, invalid, board_verify}
use programming_workshop.Sudoku.Board.Cells.{InGrid, HasCells, HasDigits}
use programming_workshop.Sudoku.Board.Marks.{clashes, gather}
use programming_workshop.Sudoku.Board.Repeats.{
  NoRepeat-iff, any-false, false-any, line-apart, apart-line,
}
use programming_workshop.Sudoku.Board.Verify.{
  any, row_cells, col_cells, box_cells, rows_clash, cols_clash, boxes_clash, board_verify-clash,
}

-- No digit stands twice in a row, in a column or in a 3 by 3 box. 48 is '0', an empty cell.
pub record IsSudoku (g : ℕ → ℕ → ℕ) : Type 0 where
  pub rows : (i j l : ℕ) → InGrid i j → InGrid i l → j < l → g i j ≡ g i l → g i j ≡ 48
  pub cols : (i k j : ℕ) → InGrid i j → InGrid k j → i < k → g i j ≡ g k j → g i j ≡ 48
  pub boxes :
      (i j k l : ℕ)
      → InGrid i j
      → InGrid k l
      → (i - 1) / 3 ≡ (k - 1) / 3
      → (j - 1) / 3 ≡ (l - 1) / 3
      → (i ≢ k) ⊎ (j ≢ l)
      → g i j ≡ g k l
      → g i j ≡ 48

module _ (g : ℕ → ℕ → ℕ) where
  box-get_at :
      (r c m : ℕ)
      → m < 9
      → r + 0 ≡ r
      → r + 1 + 1 ≡ r + 2
      → c + 0 ≡ c
      → c + 1 + 1 ≡ c + 2
      → get_elem? (gather 3 r (λ k. gather 3 c (λ l. g k l ∷ []))) m
        ≡ some (g (r + m / 3) (c + m % 3))
  box-get_at r c zero h r0 r2 c0 c2 = cc
  box-get_at r c (suc zero) h r0 r2 c0 c2 = cc
  box-get_at r c (suc (suc zero)) h r0 r2 c0 c2 = cc
  box-get_at r c (suc (suc (suc zero))) h r0 r2 c0 c2 = cc
  box-get_at r c (suc (suc (suc (suc zero)))) h r0 r2 c0 c2 = cc
  box-get_at r c (suc (suc (suc (suc (suc zero))))) h r0 r2 c0 c2 = cc
  box-get_at r c (suc (suc (suc (suc (suc (suc zero)))))) h r0 r2 c0 c2 = cc
  box-get_at r c (suc (suc (suc (suc (suc (suc (suc zero))))))) h r0 r2 c0 c2 = cc
  box-get_at r c (suc (suc (suc (suc (suc (suc (suc (suc zero)))))))) h r0 r2 c0 c2 = cc
  box-get_at r c (suc (suc (suc (suc (suc (suc (suc (suc (suc m))))))))) h r0 r2 c0 c2 =
      absurd (omega arith)

  box-get :
      (i j m : ℕ)
      → m < 9
      → get_elem? (box_cells g i j) m ≡ some (g (3 * i - 2 + m / 3) (3 * j - 2 + m % 3))
  box-get i j m h =
      box-get_at (3 * i - 2) (3 * j - 2) m h (omega arith) (omega arith) (omega arith) (omega arith)

  box-lt : (i j m a : ℕ) → get_elem? (box_cells g i j) m ≡ some a → m < 9
  box-lt i j m a e = elim (Bool-cases (ltb m 9)) [
    | inl t ↦ ground arith
    | inr t ↦ absurd (cc (get_elem?-ge (box_cells g i j) m (ground arith)))
  ]

  rows_iff :
      (rows_clash g ≡ false)
      ↔ ((i j l : ℕ) → InGrid i j → InGrid i l → j < l → g i j ≡ g i l → g i j ≡ 48)
  unfolding rows_clash
  rows_iff = (
    λ h i j l a b lt.
        line-apart (g i)
          (any-false 9 1 (λ k. clashes [] (row_cells g k)) h i (omega arith) (omega arith)) j l
          (omega arith) lt (omega arith),
    λ r.
        false-any 9 1 _
          (λ i lo hi. apart-line (g i) (λ j l lo' lt hi'. r i j l (omega arith) (omega arith) lt)),
  )

  cols_iff :
      (cols_clash g ≡ false)
      ↔ ((i k j : ℕ) → InGrid i j → InGrid k j → i < k → g i j ≡ g k j → g i j ≡ 48)
  unfolding cols_clash
  cols_iff = (
    λ h i k j a b lt.
        line-apart (λ m. g m j)
          (any-false 9 1 (λ m. clashes [] (col_cells g m)) h j (omega arith) (omega arith)) i k
          (omega arith) lt (omega arith),
    λ r. false-any 9 1 _ (λ j lo hi.
        apart-line (λ m. g m j) (λ i k lo' lt hi'. r i k j (omega arith) (omega arith) lt)),
  )

  abbrev BoxRule : Type 0
  BoxRule =
      (i j k l : ℕ)
      → InGrid i j
      → InGrid k l
      → (i - 1) / 3 ≡ (k - 1) / 3
      → (j - 1) / 3 ≡ (l - 1) / 3
      → (i ≢ k) ⊎ (j ≢ l)
      → g i j ≡ g k l
      → g i j ≡ 48

  -- The place of the cell (i, j) in its box.
  abbrev spot : ℕ → ℕ → ℕ
  spot i j = (i - 1) % 3 * 3 + (j - 1) % 3

  box-get_cell :
      (i j : ℕ)
      → InGrid i j
      → get_elem? (box_cells g ((i - 1) / 3 + 1) ((j - 1) / 3 + 1)) (spot i j) ≡ some (g i j)
  box-get_cell i j h =
      let r : 3 * ((i - 1) / 3 + 1) - 2 + spot i j / 3 ≡ i = omega arith in
      let c : 3 * ((j - 1) / 3 + 1) - 2 + spot i j % 3 ≡ j = omega arith in
      box-get ((i - 1) / 3 + 1) ((j - 1) / 3 + 1) (spot i j) (omega arith) ∙ rw (r, c)

  boxes_rule : boxes_clash g ≡ false → BoxRule
  unfolding boxes_clash
  boxes_rule h i j k l a b row col ne e =
      let none_twice = (NoRepeat-iff (box_cells g ((i - 1) / 3 + 1) ((j - 1) / 3 + 1))).0 (
        any-false 3 1 (λ n. clashes [] (box_cells g ((i - 1) / 3 + 1) n))
          (any-false 3 1 (λ m. any 3 1 (λ n. clashes [] (box_cells g m n))) h ((i - 1) / 3 + 1)
            (omega arith) (omega arith))
          ((j - 1) / 3 + 1) (omega arith) (omega arith)) in
      let first = box-get_cell i j a in
      let second : get_elem? (box_cells g ((i - 1) / 3 + 1) ((j - 1) / 3 + 1)) (spot k l)
          ≡ some (g i j) =
        rw (row, col, e) (box-get_cell k l b) in
      elim (Bool-cases (ltb (spot i j) (spot k l))) [
        | inl t ↦ none_twice (spot i j) (spot k l) (g i j) (ltb→lt _ _ t) first second
        | inr t ↦
            none_twice (spot k l) (spot i j) (g i j)
              (let le : spot k l ≤ spot i j = ltb-false→le _ _ t in omega arith) second first
      ]

  rule_boxes : BoxRule → boxes_clash g ≡ false
  unfolding boxes_clash
  rule_boxes r = false-any 3 1 _ (λ i lo hi. false-any 3 1 _ (λ j lo' hi'.
      (NoRepeat-iff (box_cells g i j)).1 (λ m n a lt x y.
        let hn = box-lt i j n a y in
        let ex = box-get i j m (omega arith) in
        let ey = box-get i j n hn in
        let fx : a ≡ g (3 * i - 2 + m / 3) (3 * j - 2 + m % 3) = cc in
        let fy : a ≡ g (3 * i - 2 + n / 3) (3 * j - 2 + n % 3) = cc in
        fx
        ∙ r (3 * i - 2 + m / 3) (3 * j - 2 + m % 3) (3 * i - 2 + n / 3) (3 * j - 2 + n % 3)
            (omega arith) (omega arith) (omega arith) (omega arith) (differ m n lt i j) cc)))
    where
      differ :
          (m n : ℕ)
          → m < n
          → (i j : ℕ)
          → (3 * i - 2 + m / 3 ≢ 3 * i - 2 + n / 3) ⊎ (3 * j - 2 + m % 3 ≢ 3 * j - 2 + n % 3)
      differ m n lt i j = elim (Bool-cases (m / 3 == n / 3)) [
        | inl t ↦ let e : m / 3 ≡ n / 3 = ground arith in inr (omega arith)
        | inr t ↦ let e : m / 3 ≢ n / 3 = ground arith in inl (omega arith)
      ]

  clash_iff : (rows_clash g || (cols_clash g || boxes_clash g) ≡ false) ↔ IsSudoku g
  clash_iff = (
    λ h. record {
      rows = rows_iff.0 (ground arith);
      cols = cols_iff.0 (ground arith);
      boxes = boxes_rule (ground arith);
    },
    λ s. rw (rows_iff.1 s.rows, cols_iff.1 s.cols, rule_boxes s.boxes),
  )

-- On a board whose 81 cells are digits `board_verify` returns, that is, no shift has an invalid
-- amount and no access is out of bounds. It sets the status to BOARD_INVALID if the cells break a
-- rule of Sudoku, and changes nothing at all if they keep them.
pub board_verify_lem :
    (self : Board) (g : ℕ → ℕ → ℕ)
    → HasDigits g
    → HasCells self.board g
    → (bad : Bool) × (board_verify self
        ≡ some (record self { status = if bad then invalid else self.status }))
      × ((bad ≡ false) ↔ IsSudoku g)
board_verify_lem self g digits cells = (
  rows_clash g || (cols_clash g || boxes_clash g),
  board_verify-clash g digits self.board cells self refl,
  clash_iff g,
)
