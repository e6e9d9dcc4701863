-- ===== src/Sudoku/Server/Draw.antt =====
-- The picture that `server_send_board` of tp1_sockets/server.c draws.
use programming_workshop.Common.{
  ℕ, zero, suc, ◌+◌, ◌-◌, ◌*◌, ◌≤◌, ◌<◌, ◌≡◌, ◌≢◌, refl, sym, ◌∙◌, ap, inl, inr, true, Option, some,
  arith, ltb, lt→ltb, ◌==◌, if◌then◌else◌, Bool-cases, Bytes, length, get_elem?, set, length-set,
  get_elem?-set_self, get_elem?-set_ne,
}
use programming_workshop.Sudoku.Board.{Board}
use programming_workshop.Sudoku.Board.Cells.{InGrid, HasCells, board_value_get_lem}
use programming_workshop.Sudoku.Server.{draw_cell, draw_loop, server_format_board}

-- Where the cell (k, j) is drawn, and the round that draws it.
abbrev pub spot : ℕ → ℕ → ℕ
spot k j = 40 + 76 * (k - 1) + 4 * (j - 1)

abbrev round : ℕ → ℕ → ℕ
round k j = 9 * (k - 1) + (j - 1)

spot-injective : (a b k j : ℕ) → InGrid a b → InGrid k j → spot a b ≡ spot k j → (a ≡ k) × (b ≡ j)
spot-injective a b k j h h' e = omega arith

-- The byte shown for a cell: the frame's byte if it is empty.
abbrev pub shown : (ℕ → ℕ → ℕ) → Bytes → ℕ → ℕ → Option ℕ
shown g buf a b = if g a b == 48 then get_elem? buf (spot a b) else some (g a b)

-- `buf'` is `buf` with the cells of the rounds from `r` on drawn, and nothing else changed.
pub record Drawn (g : ℕ → ℕ → ℕ) (r : ℕ) (buf buf' : Bytes) : Type 0 where
  pub same_length : length buf' ≡ length buf
  pub shows : (a b : ℕ) → InGrid a b → r ≤ round a b → get_elem? buf' (spot a b) ≡ shown g buf a b
  pub keeps :
      (q : ℕ)
      → ((a b : ℕ) → InGrid a b → r ≤ round a b → q ≢ spot a b)
      → get_elem? buf' q ≡ get_elem? buf q

module _ (g : ℕ → ℕ → ℕ) (k j : ℕ) (here : InGrid k j) (buf : Bytes) where
  -- The buffer after the round of the cell (k, j).
  abbrev drawn_cell : Bytes
  drawn_cell = if g k j == 48 then buf else set buf (spot k j) (g k j)

  length-drawn_cell : length drawn_cell ≡ length buf
  length-drawn_cell = elim (Bool-cases (g k j == 48)) [
    | inl e ↦ rw e
    | inr e ↦ rw e (length-set buf (spot k j) (g k j))
  ]

  drawn_cell-keeps : (q : ℕ) → q ≢ spot k j → get_elem? drawn_cell q ≡ get_elem? buf q
  drawn_cell-keeps q ne = elim (Bool-cases (g k j == 48)) [
    | inl e ↦ rw e
    | inr e ↦ rw e (get_elem?-set_ne buf (spot k j) q (g k j) (λ x. ne (sym x)))
  ]

  drawn_cell-shows : 680 < length buf → get_elem? drawn_cell (spot k j) ≡ shown g buf k j
  drawn_cell-shows n = elim (Bool-cases (g k j == 48)) [
    | inl e ↦ rw e
    | inr e ↦ rw e (get_elem?-set_self buf (spot k j) (g k j) (omega arith))
  ]

  Drawn-step :
      (r : ℕ) (buf' : Bytes)
      → 680 < length buf
      → r ≡ round k j
      → Drawn g (r + 1) drawn_cell buf'
      → Drawn g r buf buf'
  Drawn-step r buf' n e d = record {
    same_length = d.same_length ∙ length-drawn_cell;
    shows = λ a b h le. elim (Bool-cases (round a b == r)) [
      | inl now ↦
          (let now' : round a b ≡ r = ground arith in
            let a' : a ≡ k = omega arith in
            let b' : b ≡ j = omega arith in
            rw (a', b') (d.keeps (spot k j) (λ a b h le s. omega arith) ∙ drawn_cell-shows n))
      | inr later ↦
          (let later' : round a b ≢ r = ground arith in
            let other : spot a b ≢ spot k j = λ s. omega arith in
            d.shows a b h (omega arith)
            ∙ ap (λ x. if g a b == 48 then x else some (g a b)) (drawn_cell-keeps (spot a b) other))
    ];
    keeps = λ q no.
        d.keeps q (λ a b h le. no a b h (omega arith))
        ∙ drawn_cell-keeps q (no k j here (omega arith));
  }

-- The 722 bytes of the frame and the NUL.
pub format_length : length server_format_board ≡ 723
unfolding server_format_board
format_length = refl

module _ (g : ℕ → ℕ → ℕ) (board : Board) (cells : HasCells board.board g) where
  draw_cell_lem :
      (k j i : ℕ) (buf : Bytes)
      → (h : InGrid k j) → i ≡ spot k j
      → 680 < length buf
      → draw_cell board i j k buf ≡ some (drawn_cell g k j h buf)
  unfolding draw_cell
  draw_cell_lem k j i buf h e n =
      let fits : ltb (spot k j) (length buf) ≡ true = lt→ltb _ _ (omega arith) in
      rw (board_value_get_lem board g k j cells h, e, fits)
        (elim (Bool-cases (g k j == 48)) [ inl x ↦ rw x | inr x ↦ rw x ])

  module _ (fuel k j i : ℕ) (buf : Bytes) where
    draw_stops : 680 < i → draw_loop (suc fuel) board i j k buf ≡ some buf
    unfolding draw_loop
    draw_stops h = ground arith

    draw_goes_on :
        (sb : Bytes)
        → i ≤ 680
        → draw_cell board i (j + 1) k buf ≡ some sb
        → j + 1 ≢ 9
        → draw_loop (suc fuel) board i j k buf ≡ draw_loop fuel board (i + 4) (j + 1) k sb
    unfolding draw_loop
    draw_goes_on sb h e ne = ground arith

    draw_next_row :
        (sb : Bytes)
        → i ≤ 680
        → draw_cell board i (j + 1) k buf ≡ some sb
        → j + 1 ≡ 9
        → draw_loop (suc fuel) board i j k buf ≡ draw_loop fuel board (i + 2 + 38 + 4) 0 (k + 1) sb
    unfolding draw_loop
    draw_next_row sb h e nine = ground arith

  draw_loop-Drawn :
      (fuel n k j i : ℕ) (buf : Bytes)
      → 1 ≤ k
      → j < 9
      → i ≡ 40 + 76 * (k - 1) + 4 * j
      → 9 * (k - 1) + j + n ≡ 81
      → n < fuel
      → 680 < length buf
      → (buf' : Bytes) × (draw_loop fuel board i j k buf ≡ some buf')
        × Drawn g (9 * (k - 1) + j) buf buf'
  unfolding draw_loop
  draw_loop-Drawn zero n k j i buf k1 j9 e r f l = elim f [ ]
  draw_loop-Drawn (suc fuel) zero k j i buf k1 j9 e r f l = (
    buf,
    draw_stops fuel k j i buf (omega arith),
    record { same_length = refl; shows = λ a b h le. absurd (omega arith); keeps = λ q no. refl },
  )
  draw_loop-Drawn (suc fuel) (suc n) k j i buf k1 j9 e r f l =
      let h : InGrid k (j + 1) = omega arith in
      let drawn = drawn_cell g k (j + 1) h buf in
      let cell = draw_cell_lem k (j + 1) i buf h (omega arith) l in
      let long : 680 < length drawn = omega (arith, length-drawn_cell g k (j + 1) h buf) in
      elim (Bool-cases (j + 1 == 9)) [
        | inl last ↦
            (let nine : j + 1 ≡ 9 = ground arith in
              let (buf', x, d) =
                draw_loop-Drawn fuel n (k + 1) 0 (i + 2 + 38 + 4) drawn (omega arith) (omega arith)
                  (omega arith) (omega arith) (omega arith) long in
              let r' : 9 * (k + 1 - 1) + 0 ≡ 9 * (k - 1) + j + 1 = omega arith in
              (
                buf',
                draw_next_row fuel k j i buf drawn (omega arith) cell nine ∙ x,
                Drawn-step g k (j + 1) h buf (9 * (k - 1) + j) buf' l (omega arith) (rw r' at d),
              ))
        | inr more ↦
            (let other : j + 1 ≢ 9 = ground arith in
              let (buf', x, d) =
                draw_loop-Drawn fuel n k (j + 1) (i + 4) drawn k1 (omega arith) (omega arith)
                  (omega arith) (omega arith) long in
              let r' : 9 * (k - 1) + (j + 1) ≡ 9 * (k - 1) + j + 1 = omega arith in
              (
                buf',
                draw_goes_on fuel k j i buf drawn (omega arith) cell other ∙ x,
                Drawn-step g k (j + 1) h buf (9 * (k - 1) + j) buf' l (omega arith) (rw r' at d),
              ))
      ]

  -- The loop of `server_send_board` ends after its 81 rounds, and has drawn every cell of the grid
  -- at its spot and changed no other byte of the frame.
  pub draw_loop_lem :
      (buf' : Bytes) × (draw_loop 82 board 40 0 1 server_format_board ≡ some buf')
      × Drawn g 0 server_format_board buf'
  draw_loop_lem =
      draw_loop-Drawn 82 81 1 0 40 server_format_board (omega arith) (omega arith) refl refl
        (omega arith) (omega (arith, format_length))
