-- ===== src/Sudoku/Board/Reset.antt =====
-- `board_read` and `board_reset` of tp1_sockets/board.c: loading a game and starting it again.
use programming_workshop.Common.{
  ℕ, suc, ◌+◌, ◌≤◌, ◌<◌, ◌≡◌, ◌≢◌, refl, sym, ◌∙◌, ap, true, false, none, some, [], ◌∷◌, ◌++◌,
  arith, ltb, lt→ltb, ◌==◌, Bytes, codes, length, get_elem?, drop, set, set-append, length-append,
  length-set, length-drop, get_elem?-append_left, take-all, NoNul, c_string, c_string-append,
}
use mathlib.Core.List.{append_assoc}
use programming_workshop.Common.Int.{pos}
use programming_workshop.Sudoku.Socket.{Process, print}
use programming_workshop.Sudoku.Socket.Receive.{write_at-start}
use programming_workshop.Sudoku.Board.{Board, ok, store, read_loop, board_read, board_reset}
use programming_workshop.Sudoku.Board.Cells.{position, position-lt, HasCells}
use programming_workshop.Sudoku.Board.Put.{HasBuffers}

-- No byte of the file reads as EOF when it is stored in a `char`.
abbrev pub NoEof : Bytes → Type 0
NoEof [] = Unit {0}
NoEof (c ∷ file) = (c ≢ 255) × NoEof file

store-front :
    (front rest : Bytes) (x c i : ℕ)
    → i ≡ length front
    → store (front ++ x ∷ rest) (pos i) c ≡ some (front ++ c ∷ rest)
store-front front rest x c i e =
    let fits : ltb (length front) (length (front ++ x ∷ rest)) ≡ true =
      lt→ltb _ _ (omega (arith, length-append front (x ∷ rest))) in
    rw (e, fits, set-append front rest x c)

read_loop_lem :
    (file front front' rest rest' : Bytes) (i : ℕ) (self : Board)
    → NoEof file
    → i ≡ length front
    → i ≡ length front'
    → length file ≤ length rest
    → length file ≤ length rest'
    → self.board ≡ front ++ rest
    → self.board_original ≡ front' ++ rest'
    → read_loop file i self
      ≡ some (record self {
        board = front ++ (file ++ drop (length file) rest);
        board_original = front' ++ (file ++ drop (length file) rest');
      })
unfolding read_loop
read_loop_lem [] front front' rest rest' i self n e e' f f' b b' = ground arith
read_loop_lem (c ∷ file) front front' [] rest' i self n e e' f f' b b' = absurd (omega arith)
read_loop_lem (c ∷ file) front front' (x ∷ rest) [] i self n e e' f f' b b' = absurd (omega arith)
read_loop_lem (c ∷ file) front front' (x ∷ rest) (x' ∷ rest') i self n e e' f f' b b' =
    let go : (c == 255) ≡ false = ground arith in
    rw (go, b, store-front front rest x c i e, b', store-front front' rest' x' c i e')
      (read_loop_lem file (front ++ c ∷ []) (front' ++ c ∷ []) rest rest' (i + 1) _ n.1
          (omega (arith, length-append front (c ∷ [])))
          (omega (arith, length-append front' (c ∷ []))) (omega arith) (omega arith)
          (sym (append_assoc front (c ∷ []) rest)) (sym (append_assoc front' (c ∷ []) rest'))
        ∙ rw (append_assoc front (c ∷ []), append_assoc front' (c ∷ [])))

-- A file of at most 200 bytes, none of them 255, is copied to the start of both buffers.
pub board_read_lem :
    (file : Bytes) (self : Board)
    → HasBuffers self
    → NoEof file
    → length file ≤ 200
    → board_read (some file) self
      ≡ some (record {
        board = file ++ drop (length file) self.board;
        board_original = file ++ drop (length file) self.board_original;
        status = ok;
      })
unfolding board_read
board_read_lem file self b n h =
    let l = b.board_length in
    let l' = b.original_length in
    rw (
      read_loop_lem file [] [] self.board self.board_original 0 self n refl refl (omega arith)
        (omega arith) refl refl)

read_loop-none :
    (file : Bytes) (i : ℕ) (self : Board)
    → NoEof file
    → length self.board ≡ 200
    → i ≤ 200
    → 200 < i + length file
    → read_loop file i self ≡ none
unfolding read_loop
read_loop-none [] i self n l lo hi = absurd (omega arith)
read_loop-none (c ∷ file) i self n l lo hi = ground (
  arith,
  length-set self.board i c,
  read_loop-none file (i + 1)
      (record self { board = set self.board i c; board_original = set self.board_original i c })
      n.1,
)

-- A longer file overflows the buffers: nothing stops the loop at their end.
pub board_read-none :
    (file : Bytes) (self : Board)
    → HasBuffers self
    → NoEof file
    → 200 < length file
    → board_read (some file) self ≡ none
unfolding board_read
board_read-none file self b n h =
    rw (read_loop-none file 0 self n b.board_length (omega arith) (omega arith))

-- The original is a text that covers the cells and ends with a NUL.
pub record HasText (self : Board) : Type 0 where
  pub text : Bytes
  pub rest : Bytes
  pub ends : self.board_original ≡ text ++ 0 ∷ rest
  pub no_nul : NoNul text
  pub covers : 161 ≤ length text

-- `board_reset` returns, and every cell shows the original again, whatever was put on the board.
-- The status becomes BOARD_OK, the original stays, and the message is printed.
pub board_reset_lem :
    (p : Process) (self : Board) (o : ℕ → ℕ → ℕ)
    → HasBuffers self
    → HasText self
    → HasCells self.board_original o
    → (buf : Bytes) × (board_reset p self
        ≡ some (print p (codes "Tablero reiniciado."), record self { board = buf; status = ok }))
      × (length buf ≡ 200)
      × HasCells buf o
unfolding board_reset
board_reset_lem p self o b t cells =
    let l = b.board_length in
    let size : length t.text + suc (length t.rest) ≡ 200 =
      omega (arith, b.original_length, ap length t.ends, length-append t.text (0 ∷ t.rest)) in
    let line : Bytes = t.text ++ 0 ∷ [] in
    let n : length line ≡ suc (length t.text) = omega (arith, length-append t.text (0 ∷ [])) in
    let fits : length line ≤ length self.board = omega arith in
    let read : c_string self.board_original ≡ some t.text =
      ap c_string t.ends ∙ c_string-append t.text t.rest t.no_nul in
    (
      line ++ drop (length line) self.board,
      rw (read, take-all 199 t.text (omega arith), write_at-start line self.board fits),
      omega (
        arith,
        length-append line (drop (length line) self.board),
        length-drop (length line) self.board,
      ),
      λ i j h.
          let inside : position i j < length t.text = omega (arith, t.covers, position-lt i j h) in
          get_elem?-append_left line _ (position i j) (omega arith)
          ∙ get_elem?-append_left t.text (0 ∷ []) (position i j) inside
          ∙ sym (get_elem?-append_left t.text (0 ∷ t.rest) (position i j) inside)
          ∙ ap (λ x. get_elem? x (position i j)) (sym t.ends)
          ∙ cells i j h,
    )
