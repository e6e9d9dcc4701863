-- ===== src/Sudoku/Socket/Receive.antt =====
-- `skt_receive` of tp1_sockets/socket.c against the bytes that arrive.
use mathlib.Core.List.{append_assoc}
use programming_workshop.Common.{
  ℕ, zero, suc, ◌+◌, ◌-◌, ◌≤◌, ◌<◌, ◌≡◌, refl, sym, ap, ◌∙◌, Option, some, List, [], ◌∷◌, ◌++◌,
  arith, ◌==◌, ◌⊎◌, inl, inr, if◌then◌else◌, Bytes, length, take, drop, length-append, length-take,
  length-drop, take-append, drop-append,
}
use programming_workshop.Common.Int.{pos, negsuc}
use programming_workshop.Sudoku.Socket.{
  Arrival, segment, broken, Process, remainder, recv, closed, failed, chunk, write_at, Reception,
  receive_loop, conclude, skt_receive, reception_success, reception_end,
}

-- The bytes that can be read before the connection ends or breaks.
abbrev pub available : List Arrival → Bytes
available [] = []
available (broken ∷ later) = []
available (segment b bs ∷ later) = b ∷ (bs ++ available later)

available-remainder :
    (bs : Bytes) (later : List Arrival) → available (remainder bs later) ≡ bs ++ available later
available-remainder [] later = refl
available-remainder (b ∷ bs) later = refl

take-append_split :
    (k : ℕ) (xs ys : Bytes)
    → take k (xs ++ ys) ≡ take k xs ++ take (k - length (take k xs)) (drop k xs ++ ys)
take-append_split zero xs ys = refl
take-append_split (suc k) [] ys = let e : suc k - 0 ≡ suc k = omega arith in rw e
take-append_split (suc k) (x ∷ xs) ys =
    let e : suc k - suc (length (take k xs)) ≡ k - length (take k xs) = omega arith in
    rw e (ap (◌∷◌ x) (take-append_split k xs ys))

drop-append_split :
    (k : ℕ) (xs ys : Bytes) → drop k (xs ++ ys) ≡ drop (k - length (take k xs)) (drop k xs ++ ys)
drop-append_split zero xs ys = refl
drop-append_split (suc k) [] ys = let e : suc k - 0 ≡ suc k = omega arith in rw e
drop-append_split (suc k) (x ∷ xs) ys =
    let e : suc k - suc (length (take k xs)) ≡ k - length (take k xs) = omega arith in
    rw e (drop-append_split k xs ys)

drop-nil : (m : ℕ) → drop {A = ℕ} m [] ≡ []
drop-nil zero = refl
drop-nil (suc m) = refl

drop-drop : (n m : ℕ) (xs : Bytes) → drop m (drop n xs) ≡ drop (n + m) xs
drop-drop zero m xs = let e : zero + m ≡ m = omega arith in rw e
drop-drop (suc n) m [] = let e : suc n + m ≡ suc (n + m) = omega arith in rw e (drop-nil m)
drop-drop (suc n) m (x ∷ xs) =
    let e : suc n + m ≡ suc (n + m) = omega arith in rw e (drop-drop n m xs)

pub write_at-start :
    (bs rest : Bytes)
    → length bs ≤ length rest
    → write_at zero bs rest ≡ some (bs ++ drop (length bs) rest)
unfolding write_at
write_at-start [] rest h = refl
write_at-start (b ∷ bs) [] h = absurd (omega arith)
write_at-start (b ∷ bs) (x ∷ rest) h = rw (write_at-start bs rest (omega arith))

pub write_at-append :
    (front bs rest : Bytes)
    → length bs ≤ length rest
    → write_at (length front) bs (front ++ rest) ≡ some (front ++ (bs ++ drop (length bs) rest))
unfolding write_at
write_at-append [] bs rest h = write_at-start bs rest h
write_at-append (x ∷ front) bs rest h = rw (write_at-append front bs rest h)

-- What the loop makes of a buffer `front ++ rest` whose first part is filled, when `k` bytes are
-- still wanted.
record Reads (k got : ℕ) (later : List Arrival) (front rest : Bytes) (r : Option Reception)
    : Type 0 where
  left : List Arrival
  result :
      r
      ≡ some (
        got + length (take k (available later)),
        left,
        front ++ (take k (available later) ++ drop (length (take k (available later))) rest),
      )
  kept : k ≤ length (available later) → available left ≡ drop k (available later)

take-segment :
    (k b : ℕ) (bs : Bytes) (later : List Arrival)
    → take (suc k) (available (segment b bs ∷ later))
      ≡ b ∷ (take k bs ++ take (k - length (take k bs)) (drop k bs ++ available later))
take-segment k b bs later = ap (◌∷◌ b) (take-append_split k bs (available later))

regrouped :
    (got : ℕ) (left : List Arrival) (front rest all first second : Bytes) (b : ℕ)
    → all ≡ b ∷ (first ++ second)
    → ◌≡◌ {A = Option Reception}
        (some (
          got + suc (length first) + length second,
          left,
          (front ++ (b ∷ first))
              ++ (second ++ drop (length second) (drop (suc (length first)) rest)),
        ))
        (some (got + length all, left, front ++ (all ++ drop (length all) rest)))
regrouped got left front rest all first second b e =
    let n : suc (length first) + length second ≡ length all =
      omega (arith, ap length e, length-append first second) in
    let m : got + suc (length first) + length second ≡ got + length all = omega arith in
    cc (
      n,
      m,
      append_assoc front (b ∷ first)
          (second ++ drop (length second) (drop (suc (length first)) rest)),
      append_assoc first second (drop (length all) rest),
      drop-drop (suc (length first)) (length second) rest,
    )

-- One read of `bs` and then reads for the rest.
Reads-chunk :
    (k got : ℕ) (b : ℕ) (bs : Bytes) (later : List Arrival) (front rest : Bytes)
    (r : Option Reception)
    → Reads
        (k - length (take k bs))
        (got + suc (length (take k bs)))
        (remainder (drop k bs) later)
        (front ++ (b ∷ take k bs))
        (drop (suc (length (take k bs))) rest)
        r
    → Reads (suc k) got (segment b bs ∷ later) front rest r
Reads-chunk k got b bs later front rest r ih = record {
  left = ih.left;
  result =
      ih.result
      ∙ rw (available-remainder (drop k bs) later)
          (regrouped got ih.left front rest _ (take k bs) _ b (take-segment k b bs later));
  kept = λ h.
      ih.kept (
        rw (available-remainder (drop k bs) later) (
          omega (
            arith,
            length-append (drop k bs) (available later),
            length-append bs (available later),
            length-drop k bs,
            length-take k bs,
            h,
          )))
      ∙ rw (drop-append_split k bs (available later), available-remainder (drop k bs) later);
}

length-take-le : (k : ℕ) (bs : Bytes) → length (take k bs) ≤ k
length-take-le k bs = omega (arith, length-take k bs)

module _ (fuel len got : ℕ) (buf : Bytes) where
  loop_stops :
      (later : List Arrival)
      → len ≤ got
      → receive_loop (suc fuel) len got later buf ≡ some (got, later, buf)
  unfolding receive_loop
  loop_stops later h = ground arith

  loop_closed :
      (later left : List Arrival)
      → got < len
      → (recv (len - got) later ≡ closed left) ⊎ (recv (len - got) later ≡ failed left)
      → receive_loop (suc fuel) len got later buf ≡ some (got, left, buf)
  unfolding receive_loop
  loop_closed later left h r = ground arith

  loop_reads :
      (later left : List Arrival) (bs buf' : Bytes)
      → got < len
      → recv (len - got) later ≡ chunk bs left
      → write_at got bs buf ≡ some buf'
      → receive_loop (suc fuel) len got later buf
        ≡ receive_loop fuel len (got + length bs) left buf'
  unfolding receive_loop
  loop_reads later left bs buf' h r w = ground arith

-- The loop reads on until `len` bytes are there or no more come, and stores them in order.
receive_loop-Reads :
    (fuel k len got : ℕ) (later : List Arrival) (front rest : Bytes)
    → got ≡ length front
    → got + k ≡ len
    → k ≤ length rest
    → k < fuel
    → Reads k got later front rest (receive_loop fuel len got later (front ++ rest))
unfolding receive_loop
receive_loop-Reads zero k len got later front rest e l h f = elim f [ ]
receive_loop-Reads (suc fuel) zero len got later front rest e l h f = record {
  left = later;
  result = loop_stops fuel len got (front ++ rest) later (omega arith) ∙ ground arith;
  kept = λ _. refl;
}
receive_loop-Reads (suc fuel) (suc k) len got [] front rest e l h f = record {
  left = [];
  result = loop_closed fuel len got (front ++ rest) [] [] (omega arith) (inl refl) ∙ ground arith;
  kept = λ x. absurd (omega arith);
}
receive_loop-Reads (suc fuel) (suc k) len got (broken ∷ later) front rest e l h f = record {
  left = later;
  result =
      loop_closed fuel len got (front ++ rest) (broken ∷ later) later (omega arith) (inr refl)
      ∙ ground arith;
  kept = λ x. absurd (omega arith);
}
receive_loop-Reads (suc fuel) (suc k) len got (segment b bs ∷ later) front rest e l h f =
    let want : len - got ≡ suc k = omega arith in
    let fits = length-take-le k bs in
    let taken : Bytes = b ∷ take k bs in
    rw
      (loop_reads fuel len got (front ++ rest) (segment b bs ∷ later) (remainder (drop k bs) later)
        taken (front ++ (taken ++ drop (length taken) rest)) (omega arith) (rw want)
        (rw e (write_at-append front taken rest (omega arith))))
      (Reads-chunk k got b bs later front rest _ (
        rw append_assoc at (
          receive_loop-Reads fuel (k - length (take k bs)) len (got + length taken)
            (remainder (drop k bs) later) (front ++ taken) (drop (length taken) rest)
            (omega (arith, length-append front taken)) (omega arith)
            (omega (arith, length-drop (length taken) rest)) (omega arith))))

conclude_lem :
    (p : Process) (n : ℕ)
    → conclude p n ≡ (if n == 0 then (reception_end, negsuc 0) else (reception_success, pos n))
conclude_lem p zero = refl
conclude_lem p (suc n) = ground arith

-- `skt_receive` with a buffer of at least `len` bytes returns, whatever pieces the bytes arrive in.
-- It stores the first `len` of the bytes that arrive before the connection ends or breaks, or all
-- of them if they are fewer, and leaves the rest of the buffer alone. It returns their number
-- with status SKT_RECEPTION_SUCCESS, or -1 with SKT_RECEPTION_END if there is none. The bytes
-- behind the first `len` stay to be read.
pub skt_receive_lem :
    (p : Process) (len : ℕ) (buf : Bytes)
    → len ≤ length buf
    → let got = take len (available p.arrivals) in
      (left : List Arrival) × (skt_receive p (pos len) buf
        ≡ some (
          if length got == 0 then negsuc 0 else pos (length got),
          record p {
            status = if length got == 0 then reception_end else reception_success;
            arrivals = left;
          },
          got ++ drop (length got) buf,
        ))
      × (len ≤ length (available p.arrivals) → available left ≡ drop len (available p.arrivals))
unfolding skt_receive
skt_receive_lem p len buf h =
    let r =
      receive_loop-Reads (suc len) len len 0 p.arrivals [] buf refl (omega arith) h (omega arith) in
    (
      r.left,
      rw r.result (ground (arith, conclude_lem p (length (take len (available p.arrivals))))),
      r.kept,
    )

-- Bytes that are there, at least one, are read whole and alone.
pub skt_receive_exact :
    (p : Process) (len : ℕ) (buf bs rest : Bytes)
    → len ≡ length bs
    → 0 < len
    → len ≤ length buf
    → available p.arrivals ≡ bs ++ rest
    → (left : List Arrival) × (skt_receive p (pos len) buf
        ≡ some
            (pos len, record p { status = reception_success; arrivals = left }, bs ++ drop len buf))
      × (available left ≡ rest)
skt_receive_exact p len buf bs rest n more fits e =
    let (left, r, kept) = skt_receive_lem p len buf fits in
    let got : take len (available p.arrivals) ≡ bs = rw e (take-append len bs rest n) in
    let stays : drop len (available p.arrivals) ≡ rest = rw e (drop-append len bs rest n) in
    let count : length (take len (available p.arrivals)) ≡ len = rw got (sym n) in
    (left, r ∙ ground arith, kept (omega (arith, ap length e, length-append bs rest)) ∙ stays)
