-- ===== src/Sudoku/Board/Repeats.antt =====
-- When the marks of tp1_sockets/board.c clash: a digit stands twice in a list of cells.
use programming_workshop.Common.{
  ℕ, zero, suc, ◌+◌, ◌-◌, ◌≤◌, ◌<◌, ◌≡◌, ◌↔◌, refl, ◌∙◌, inl, inr, Bool, true, false, some, List,
  [], ◌∷◌, arith, get_elem?, Bool-cases, ◌==◌,
}
use programming_workshop.Sudoku.Board.Marks.{clashes, member, gather}
use programming_workshop.Sudoku.Board.Verify.{any}

abbrev pub NoRepeat : List ℕ → Type 0
NoRepeat cs = (i j a : ℕ) → i < j → get_elem? cs i ≡ some a → get_elem? cs j ≡ some a → a ≡ 48

abbrev NoneSeen : List ℕ → List ℕ → Type 0
NoneSeen seen cs = (j a : ℕ) → get_elem? cs j ≡ some a → member a seen ≡ true → a ≡ 48

member_self : (c : ℕ) (seen : List ℕ) → member c (c ∷ seen) ≡ true
member_self c seen = ground arith

clashes-NoRepeat : (cs seen : List ℕ) → clashes seen cs ≡ false → NoRepeat cs × NoneSeen seen cs
clashes-NoRepeat [] seen h = (λ i j a lt x y. cc, λ j a x s. cc)
clashes-NoRepeat (c ∷ cs) seen h =
    let rest : clashes (c ∷ seen) cs ≡ false = ground arith in
    let (apart, fresh) = clashes-NoRepeat cs (c ∷ seen) rest in
    (repeat apart fresh, none_seen fresh)
  where
    repeat : NoRepeat cs → NoneSeen (c ∷ seen) cs → NoRepeat (c ∷ cs)
    repeat apart fresh zero zero a lt x y = absurd (omega arith)
    repeat apart fresh zero (suc j) a lt x y =
        fresh j a y (let e : c ≡ a = cc in rw e (member_self a seen))
    repeat apart fresh (suc i) zero a lt x y = absurd (omega arith)
    repeat apart fresh (suc i) (suc j) a lt x y = apart i j a (omega arith) x y

    none_seen : NoneSeen (c ∷ seen) cs → NoneSeen seen (c ∷ cs)
    none_seen fresh zero a x s = ground arith
    none_seen fresh (suc j) a x s = fresh j a x (ground arith)

NoRepeat-clashes : (cs seen : List ℕ) → NoRepeat cs → NoneSeen seen cs → clashes seen cs ≡ false
NoRepeat-clashes [] seen apart fresh = refl
NoRepeat-clashes (c ∷ cs) seen apart fresh = ground (
  arith,
  fresh 0 c refl,
  NoRepeat-clashes cs (c ∷ seen) (λ i j a lt x y. apart (suc i) (suc j) a (omega arith) x y) later,
)
  where
    later : NoneSeen (c ∷ seen) cs
    later j a x s =
        ground
          (arith, fresh (suc j) a x, λ (e : some c ≡ some a). apart 0 (suc j) a (omega arith) e x)

pub NoRepeat-iff : (cs : List ℕ) → (clashes [] cs ≡ false) ↔ NoRepeat cs
NoRepeat-iff cs = (λ h. (clashes-NoRepeat cs [] h).0, λ a. NoRepeat-clashes cs [] a (λ j a x s. cc))

pub any-false :
    (n first : ℕ) (p : ℕ → Bool)
    → any n first p ≡ false
    → (k : ℕ) → first ≤ k
    → k < first + n
    → p k ≡ false
any-false zero first p h k lo hi = absurd (omega arith)
any-false (suc n) first p h k lo hi = elim (Bool-cases (k == first)) [
  | inl e ↦ let e' : k ≡ first = ground arith in rw e' (ground arith)
  | inr ne ↦ any-false n (first + 1) p (ground arith) k (ground arith) (omega arith)
]

pub false-any :
    (n first : ℕ) (p : ℕ → Bool)
    → ((k : ℕ) → first ≤ k → k < first + n → p k ≡ false)
    → any n first p ≡ false
false-any zero first p h = refl
false-any (suc n) first p h = ground (
  arith,
  h first (omega arith) (omega arith),
  false-any n (first + 1) p (λ k lo hi. h k (omega arith) (omega arith)),
)

any_iff :
    (n first : ℕ) (p : ℕ → Bool)
    → (any n first p ≡ false) ↔ ((k : ℕ) → first ≤ k → k < first + n → p k ≡ false)
any_iff n first p = (any-false n first p, false-any n first p)

get-line :
    (n first : ℕ) (f : ℕ → ℕ) (m : ℕ)
    → m < n
    → get_elem? (gather n first (λ j. f j ∷ [])) m ≡ some (f (first + m))
get-line zero first f m h = elim h [ ]
get-line (suc n) first f zero h = let e : first + 0 ≡ first = omega arith in rw e
get-line (suc n) first f (suc m) h =
    let e : first + 1 + m ≡ first + suc m = omega arith in
    get-line n (first + 1) f m (omega arith) ∙ rw e

line-lt :
    (n first : ℕ) (f : ℕ → ℕ) (m a : ℕ)
    → get_elem? (gather n first (λ j. f j ∷ [])) m ≡ some a
    → m < n
line-lt zero first f m a h = cc
line-lt (suc n) first f zero a h = omega arith
line-lt (suc n) first f (suc m) a h = omega (arith, line-lt n (first + 1) f m a h)

-- The nine cells of a row or a column.
abbrev line : (ℕ → ℕ) → List ℕ
line f = gather 9 1 (λ k. f k ∷ [])

pub line-apart :
    (f : ℕ → ℕ)
    → clashes [] (line f) ≡ false
    → (j l : ℕ) → 1 ≤ j
    → j < l
    → l ≤ 9
    → f j ≡ f l
    → f j ≡ 48
line-apart f h j l lo lt hi e =
    let e1 : 1 + (j - 1) ≡ j = omega arith in
    let e2 : 1 + (l - 1) ≡ l = omega arith in
    (NoRepeat-iff (line f)).0 h (j - 1) (l - 1) (f j) (omega arith)
      (get-line 9 1 f (j - 1) (omega arith) ∙ cc) (get-line 9 1 f (l - 1) (omega arith) ∙ cc)

pub apart-line :
    (f : ℕ → ℕ)
    → ((j l : ℕ) → 1 ≤ j → j < l → l ≤ 9 → f j ≡ f l → f j ≡ 48)
    → clashes [] (line f) ≡ false
apart-line f r = (NoRepeat-iff (line f)).1 (λ m n a lt x y.
    let hn = line-lt 9 1 f n a y in
    let ex = get-line 9 1 f m (omega arith) in
    let ey = get-line 9 1 f n hn in
    let fx : a ≡ f (1 + m) = cc in
    let fy : a ≡ f (1 + n) = cc in
    fx ∙ r (1 + m) (1 + n) (omega arith) (omega arith) (omega arith) cc)
