-- ===== src/Sudoku/Board/Marks.antt =====
-- The bit marks of tp1_sockets/board.c: one visited cell, and loops over cells, against the list of
-- the bytes visited so far.
use Prim.Native.Nat.{bit_or}
use programming_workshop.Common.{
  ℕ, zero, suc, ◌+◌, ◌-◌, ◌/◌, ◌^◌, ◌≤◌, ◌<◌, ◌≡◌, refl, ◌∙◌, Bool, true, false, not, ◌&&◌, ◌||◌,
  Option, some, List, [], ◌∷◌, ◌++◌, arith, Bytes, ltb, ◌==◌, if◌then◌else◌, Bool-cases, inl, inr,
}
use programming_workshop.Common.Int.{pos, ◌-ℤ◌, int_of_char}
use programming_workshop.Common.Bits.{bit_at, bit_at-mark, mark-lt}
use programming_workshop.Common.Loop.{for_range}
use programming_workshop.Sudoku.Board.{
  Board, invalid, Marked, mark, shift_right, shift_left_one, int_of_short, short_of_int,
}

abbrev pub member : ℕ → List ℕ → Bool
member c [] = false
member c (x ∷ xs) = x == c || member c xs

-- The byte `c` is a digit other than '0' that was seen before.
abbrev pub clash : ℕ → List ℕ → Bool
clash c seen = not (c == 48) && member c seen

-- Some byte clashes when `cs` are visited after `seen`.
abbrev pub clashes : List ℕ → List ℕ → Bool
clashes seen [] = false
clashes seen (c ∷ cs) = clash c seen || clashes (c ∷ seen) cs

abbrev pub seen_after : List ℕ → List ℕ → List ℕ
seen_after seen [] = seen
seen_after seen (c ∷ cs) = seen_after (c ∷ seen) cs

-- The marks are those of the digits seen.
pub record IsMarked (row : ℕ) (seen : List ℕ) : Type 0 where
  pub below : row < 512
  pub bits : (c : ℕ) → 49 ≤ c → c ≤ 57 → bit_at row (57 - c) ≡ (if member c seen then 1 else 0)

pub IsMarked-nil : IsMarked 0 []
IsMarked-nil = record { below = omega arith; bits = λ c lo hi. zero_bit (57 - c) }
  where
    zero_bit : (k : ℕ) → bit_at 0 k ≡ 0
    zero_bit k = let e : 0 / 2 ^ k ≡ 0 = omega arith in unfold bit_at in rw e

abbrev pub with_clash : Board → Bool → Board
with_clash self b = record self { status = if b then invalid else self.status }

mark-empty : (self : Board) (row : ℕ) → row < 512 → mark (self, row) 48 ≡ some (self, row)
unfolding mark
mark-empty self row h =
    let e : row / 2 ^ 9 ≡ 0 = omega arith in
    let f : ltb row (2 ^ 15) ≡ true = ground arith in
    let g : ltb row (2 ^ 31) ≡ true = ground arith in rw (f, g, e)

-- The two shifts and the sum with `row` in terms of the amount `k`.
mark-amount :
    (self : Board) (row c k : ℕ)
    → row < 512
    → k < 9
    → c ≡ 57 - k
    → mark (self, row) c ≡ (
        if bit_at row k == 0
        then some (self, bit_or row (2 ^ k))
        else some (record self { status = invalid }, row))
unfolding mark bit_at
mark-amount self row c k h hk e =
    let value : int_of_char c -ℤ pos 48 ≡ pos (suc (8 - k)) = ground arith in
    let amount : pos 9 -ℤ pos (suc (8 - k)) ≡ pos k = ground arith in
    let short : int_of_short row ≡ row = ground arith in
    let right : shift_right row (pos k) ≡ some (row / 2 ^ k) = ground arith in
    let left : shift_left_one (pos k) ≡ some (2 ^ k) = ground arith in
    let back : short_of_int (bit_or row (2 ^ k)) ≡ bit_or row (2 ^ k) =
      omega (arith, mark-lt row k h hk) in
    ground arith

-- The run `r`, from `self` with the digits of `seen` marked, visits the bytes `cs`.
abbrev pub Scans : Board → List ℕ → List ℕ → Option Marked → Type 0
Scans self seen cs r =
    (row : ℕ) × (r ≡ some (with_clash self (clashes seen cs), row))
    × IsMarked row (seen_after seen cs)

mark_new :
    (row c : ℕ) (seen : List ℕ)
    → 49 ≤ c
    → c ≤ 57
    → IsMarked row seen
    → IsMarked (bit_or row (2 ^ (57 - c))) (c ∷ seen)
mark_new row c seen lo hi m = record {
  below = mark-lt row (57 - c) m.below (omega arith);
  bits = λ d lo' hi'.
      let b = m.bits d lo' hi' in ground (arith, bit_at-mark row (57 - c) (57 - d) m.below);
}

mark_again :
    (row c : ℕ) (seen : List ℕ) → member c seen ≡ true → IsMarked row seen → IsMarked row (c ∷ seen)
mark_again row c seen old m = record {
  below = m.below;
  bits = λ d lo hi. let b = m.bits d lo hi in ground arith;
}

mark_zero : (row : ℕ) (seen : List ℕ) → IsMarked row seen → IsMarked row (48 ∷ seen)
mark_zero row seen m = record {
  below = m.below;
  bits = λ d lo hi. let b = m.bits d lo hi in ground arith;
}

-- One visit of a digit: it is a clash if the digit is not '0' and was seen.
pub mark-Scans :
    (self : Board) (row c : ℕ) (seen : List ℕ)
    → 48 ≤ c
    → c ≤ 57
    → IsMarked row seen
    → Scans self seen (c ∷ []) (mark (self, row) c)
mark-Scans self row c seen lo hi m = elim (Bool-cases (c == 48)) [
  | inl empty ↦
      let e : c ≡ 48 = ground arith in rw e (row, mark-empty self row m.below, mark_zero row seen m)
  | inr digit ↦
      let lo' : 49 ≤ c = ground arith in
      let step = mark-amount self row c (57 - c) m.below (omega arith) (omega arith) in
      let bit = m.bits c lo' hi in
      elim (Bool-cases (member c seen)) [
        | inl old ↦ (row, step ∙ ground arith, mark_again row c seen old m)
        | inr new ↦ (bit_or row (2 ^ (57 - c)), step ∙ ground arith, mark_new row c seen lo' hi m)
      ]
]

-- The lists `cells k` for `k` from `first` on, one behind the other.
abbrev pub gather : ℕ → ℕ → (ℕ → List ℕ) → List ℕ
gather zero first cells = []
gather (suc n) first cells = cells first ++ gather n (first + 1) cells

clashes-append :
    (cs ds seen : List ℕ)
    → clashes seen (cs ++ ds) ≡ (clashes seen cs || clashes (seen_after seen cs) ds)
clashes-append [] ds seen = refl
clashes-append (c ∷ cs) ds seen = ground (arith, clashes-append cs ds (c ∷ seen))

seen_after-append :
    (cs ds seen : List ℕ) → seen_after seen (cs ++ ds) ≡ seen_after (seen_after seen cs) ds
seen_after-append [] ds seen = refl
seen_after-append (c ∷ cs) ds seen = seen_after-append cs ds (c ∷ seen)

pub with_clash-or :
    (self : Board) (a b : Bool) → with_clash (with_clash self a) b ≡ with_clash self (a || b)
with_clash-or self true true = refl
with_clash-or self true false = refl
with_clash-or self false b = refl

-- A loop whose every round visits some bytes visits them all, in order. The rounds leave the
-- cells alone, so `buf` stays the board's buffer.
pub for_range-Scans :
    (buf : Bytes) (body : ℕ → Marked → Option Marked) (cells : ℕ → List ℕ) (top : ℕ)
    → ((k row : ℕ) (self : Board) (seen : List ℕ)
        → 1 ≤ k
        → k < top
        → self.board ≡ buf
        → IsMarked row seen
        → Scans self seen (cells k) (body k (self, row)))
    → (n first row : ℕ) (self : Board) (seen : List ℕ) → 1 ≤ first
    → first + n ≤ top
    → self.board ≡ buf
    → IsMarked row seen
    → Scans self seen (gather n first cells) (for_range n first body (self, row))
unfolding for_range
for_range-Scans buf body cells top each zero first row self seen lo hi e m = (row, refl, m)
for_range-Scans buf body cells top each (suc n) first row self seen lo hi e m =
    let (row', done, m') = each first row self seen lo (omega arith) e m in
    let (row'', rest, m'') =
      for_range-Scans buf body cells top each n (first + 1) row'
        (with_clash self (clashes seen (cells first))) (seen_after seen (cells first)) (omega arith)
        (omega arith) e m' in
    (
      row'',
      rw done (
          rest
          ∙ rw (with_clash-or, ← clashes-append (cells first) (gather n (first + 1) cells) seen)),
      rw seen_after-append m'',
    )
