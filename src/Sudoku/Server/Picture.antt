-- ===== src/Sudoku/Server/Picture.antt =====
-- What `server_send_board` of tp1_sockets/server.c sends.
use programming_workshop.Common.{
  ℕ, zero, suc, ◌+◌, ◌-◌, ◌/◌, ◌%◌, ◌≤◌, ◌<◌, ◌≡◌, ◌≢◌, refl, ◌∙◌, ap, inl, inr, le→leb, Bool, true,
  false, ◌&&◌, Option, none, some, List, [], ◌∷◌, ◌++◌, arith, leb, ◌==◌, ==_iff, if◌then◌else◌,
  Bool-cases, Bytes, codes, length, get_elem?, take, NoNul, c_string, length-take,
}
use programming_workshop.Common.Bits.{holds_below, holds_below_sound}
use programming_workshop.Sudoku.Socket.{Process, Outcome, send_success, print}
use programming_workshop.Sudoku.Socket.Send.{Accepting}
use programming_workshop.Sudoku.Board.{Board}
use programming_workshop.Sudoku.Board.Cells.{InGrid, HasCells, HasDigits}
use programming_workshop.Sudoku.Protocol.Text.{frame, protocol_send_string_lem}
use programming_workshop.Sudoku.Server.{server_format_board, server_send_board}
use programming_workshop.Sudoku.Server.Draw.{spot, Drawn, draw_loop_lem, format_length}

-- A C string whose NUL is at `n`.
c_string_at :
    (n : ℕ) (buf : Bytes)
    → get_elem? buf n ≡ some 0
    → ((q : ℕ) → q < n → (c : ℕ) × (get_elem? buf q ≡ some (suc c)))
    → (c_string buf ≡ some (take n buf)) × NoNul (take n buf)
unfolding c_string
c_string_at n [] e full = absurd (cc)
c_string_at zero (zero ∷ buf) e full = (refl, tt)
c_string_at zero (suc b ∷ buf) e full = absurd (cc)
c_string_at (suc n) (zero ∷ buf) e full = absurd (cc (full 0 (omega arith)).1)
c_string_at (suc n) (suc b ∷ buf) e full =
    let (s, nn) = c_string_at n buf e (λ q lt. full (suc q) (omega arith)) in
    (rw s, (omega arith, nn))

get-take : (n q : ℕ) (buf : Bytes) → q < n → get_elem? (take n buf) q ≡ get_elem? buf q
get-take zero q buf h = elim h [ ]
get-take (suc n) q [] h = refl
get-take (suc n) zero (b ∷ buf) h = refl
get-take (suc n) (suc q) (b ∷ buf) h = get-take n q buf (omega arith)

abbrev is_text : Option ℕ → Bool
is_text none = false
is_text (some zero) = false
is_text (some (suc c)) = true

is_text_lem : (o : Option ℕ) → is_text o ≡ true → (c : ℕ) × (o ≡ some (suc c))
is_text_lem none h = absurd (cc)
is_text_lem (some zero) h = absurd (cc)
is_text_lem (some (suc c)) h = (c, refl)

format_table : holds_below 722 (λ q. is_text (get_elem? server_format_board q)) ≡ true
unfolding holds_below server_format_board
format_table = refl

format_end : get_elem? server_format_board 722 ≡ some 0
unfolding server_format_board
format_end = refl

abbrev is_blank : Option ℕ → Bool
is_blank none = false
is_blank (some c) = c == 32

is_blank_lem : (o : Option ℕ) → is_blank o ≡ true → o ≡ some 32
is_blank_lem none h = absurd (cc)
is_blank_lem (some c) h = ground arith

abbrev blank_spot : ℕ → ℕ → Bool
blank_spot a b = is_blank (get_elem? server_format_board (spot (a + 1) (b + 1)))

blank_table : holds_below 9 (λ a. holds_below 9 (blank_spot a)) ≡ true
unfolding holds_below server_format_board
blank_table = refl

-- The empty frame has a space where a cell is drawn.
format_blank : (a b : ℕ) → InGrid a b → get_elem? server_format_board (spot a b) ≡ some 32
format_blank a b h =
    let a' : a - 1 + 1 ≡ a = omega arith in
    let b' : b - 1 + 1 ≡ b = omega arith in
    rw (a', b') at
      (is_blank_lem (get_elem? server_format_board (spot (a - 1 + 1) (b - 1 + 1))) (
        holds_below_sound 9 (blank_spot (a - 1)) (b - 1)
          (holds_below_sound 9 (λ a. holds_below 9 (blank_spot a)) (a - 1) blank_table
            (omega arith))
          (omega arith)))

-- What a cell shows: its digit, or a space if it is empty.
abbrev pub picture_cell : ℕ → ℕ
picture_cell c = if c == 48 then 32 else c

-- The text shows the cells of `g` at their spots in the frame that server_format_board() makes.
pub record IsPicture (g : ℕ → ℕ → ℕ) (text : Bytes) : Type 0 where
  pub has_length : length text ≡ 722
  pub no_nul : NoNul text
  pub cells : (a b : ℕ) → InGrid a b → get_elem? text (spot a b) ≡ some (picture_cell (g a b))
  pub border :
      (q : ℕ)
      → q < 722
      → ((a b : ℕ) → InGrid a b → q ≢ spot a b)
      → get_elem? text q ≡ get_elem? server_format_board q

module _ (g : ℕ → ℕ → ℕ) (digits : HasDigits g) (buf : Bytes)
    (d : Drawn g 0 server_format_board buf) where
  drawn_spot : (a b : ℕ) → InGrid a b → get_elem? buf (spot a b) ≡ some (picture_cell (g a b))
  drawn_spot a b h = d.shows a b h (omega arith) ∙ ground (arith, format_blank a b h)

  abbrev row_at : ℕ → ℕ
  row_at q = (q - 40) / 76 + 1

  abbrev col_at : ℕ → ℕ
  col_at q = (q - 40) % 76 / 4 + 1

  -- Whether a cell is drawn at `q`.
  abbrev on_spot : ℕ → Bool
  on_spot q = leb (row_at q) 9 && (leb (col_at q) 9 && spot (row_at q) (col_at q) == q)

  on_spot-grid :
      (q : ℕ) → on_spot q ≡ true → InGrid (row_at q) (col_at q) × (spot (row_at q) (col_at q) ≡ q)
  on_spot-grid q h = (
    record {
      row_pos = omega arith;
      row_le = ground arith;
      col_pos = omega arith;
      col_le = ground arith;
    },
    ground arith,
  )

  grid-on_spot : (k j : ℕ) → InGrid k j → on_spot (spot k j) ≡ true
  grid-on_spot k j h =
      let r : row_at (spot k j) ≡ k = omega arith in
      let c : col_at (spot k j) ≡ j = omega arith in
      rw (r, c, le→leb k 9 h.row_le, le→leb j 9 h.col_le, (==_iff (spot k j) (spot k j)).1 refl)

  digit_text : (c : ℕ) → 48 ≤ c → (b : ℕ) × (picture_cell c ≡ suc b)
  digit_text c h = (picture_cell c - 1, ground arith)

  drawn_text : (q : ℕ) → q < 722 → (c : ℕ) × (get_elem? buf q ≡ some (suc c))
  drawn_text q lt = elim (Bool-cases (on_spot q)) [
    | inl on ↦
        (let (h, e) = on_spot-grid q on in
          let (c, x) = digit_text (g (row_at q) (col_at q)) (digits (row_at q) (col_at q) h).0 in
          (c, rw e at (drawn_spot (row_at q) (col_at q) h) ∙ ap some x))
    | inr off ↦
        (let (c, x) = is_text_lem (get_elem? server_format_board q) (
            holds_below_sound 722 (λ q. is_text (get_elem? server_format_board q)) q format_table
              lt) in
          (c, d.keeps q (λ k j h le s. absurd (cc (grid-on_spot k j h, ap on_spot s))) ∙ x))
  ]

  drawn-IsPicture : (c_string buf ≡ some (take 722 buf)) × IsPicture g (take 722 buf)
  drawn-IsPicture =
      let n = d.same_length ∙ format_length in
      let end : get_elem? buf 722 ≡ some 0 = d.keeps 722 (λ a b h le s. omega arith) ∙ format_end in
      let (s, nn) = c_string_at 722 buf end drawn_text in
      (
        s,
        record {
          has_length = omega (arith, length-take 722 buf);
          no_nul = nn;
          cells = λ a b h. get-take 722 (spot a b) buf (omega arith) ∙ drawn_spot a b h;
          border = λ q lt no. get-take 722 q buf lt ∙ d.keeps q (λ a b h le. no a b h);
        },
      )

-- `server_send_board` on a board whose 81 cells are digits returns: it draws a picture of the cells
-- with 722 bytes, prints it and, if no call of send() fails, sends it as one framed string.
pub server_send_board_lem :
    (p : Process) (board : Board) (g : ℕ → ℕ → ℕ)
    → HasDigits g
    → HasCells board.board g
    → Accepting p.outcomes
    → (text : Bytes) × (o : List Outcome) × (server_send_board p board
        ≡ some (record p {
          status = send_success;
          outcomes = o;
          sent = p.sent ++ frame text;
          stdout = (p.stdout ++ codes "\n") ++ text;
        }))
      × IsPicture g text
      × Accepting o
unfolding server_send_board
server_send_board_lem p board g digits cells a =
    let (buf, e, d) = draw_loop_lem g board cells in
    let (s, pic) = drawn-IsPicture g digits buf d in
    let (o, x, a') =
      protocol_send_string_lem (print (print p (codes "\n")) (take 722 buf)) (take 722 buf)
        (let n = pic.has_length in omega arith) a in
    (take 722 buf, o, rw (e, s) x, pic, a')
