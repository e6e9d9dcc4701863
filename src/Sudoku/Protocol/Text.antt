-- ===== src/Sudoku/Protocol/Text.antt =====
-- A string of tp1_sockets/protocol.c on the wire: its header, and that it is read back.
use mathlib.Core.List.{append_assoc}
use programming_workshop.Common.{
  ℕ, suc, ◌≤◌, ◌<◌, ◌≡◌, refl, ◌∙◌, Bool, true, false, Option, none, some, List, [], ◌∷◌, ◌++◌,
  arith, ltb, ◌==◌, ◌>>=◌, >>=-eq-some, Bytes, codes, length, drop, take, NoNul, c_string,
  c_string-append, length-append, length-take, take-all, set-append, lt→ltb,
}
use programming_workshop.Common.Int.{ℤ, pos, negsuc, ◌-ℤ◌}
use programming_workshop.Common.Bits.{holds_below, holds_below_sound}
use programming_workshop.Common.Decimal.{decimal, atoi}
use programming_workshop.Sudoku.Socket.{Arrival, Process, reception_success, send_success, Outcome}
use programming_workshop.Sudoku.Socket.Receive.{available, skt_receive_exact}
use programming_workshop.Sudoku.Socket.Send.{Accepting, skt_send-Accepting}
use programming_workshop.Sudoku.Board.{store}
use programming_workshop.Sudoku.Protocol.{
  message_len, protocol_send_string, protocol_receive_string,
}

-- What the receiver makes of the three bytes sent for a length: the number in the header.
abbrev header_value : ℕ → Option ℤ
header_value n = do s ← c_string (take 3 (message_len n) ++ 0 ∷ []); some (atoi s)

abbrev reads_back : ℕ → Bool
reads_back n = elim (header_value n) [
  | none ↦ false
  | some z ↦ elim z [ pos m ↦ m == n | negsuc m ↦ false ]
]

header_table : holds_below 1000 reads_back ≡ true
unfolding holds_below message_len decimal atoi c_string
header_table = refl

reads_back_lem : (n : ℕ) → reads_back n ≡ true → header_value n ≡ some (pos n)
reads_back_lem n h = ground arith

-- A length below 1000 is read back from its header, although the header is not padded evenly.
header_lem : (n : ℕ) → n < 1000 → header_value n ≡ some (pos n)
header_lem n h = reads_back_lem n (holds_below_sound 1000 reads_back n header_table h)

length_table : holds_below 1000 (λ n. ltb 2 (length (message_len n))) ≡ true
unfolding holds_below message_len decimal
length_table = refl

header_length : (n : ℕ) → n < 1000 → 3 ≤ length (message_len n)
header_length n h =
    let t = holds_below_sound 1000 (λ n. ltb 2 (length (message_len n))) n length_table h in
    ground arith

-- The bytes of a string on the wire.
abbrev pub frame : Bytes → Bytes
frame s = take 3 (message_len (length s)) ++ s

-- If no call of send() fails, `protocol_send_string` sends a string below 1000 bytes as its frame.
pub protocol_send_string_lem :
    (p : Process) (s : Bytes)
    → length s < 1000
    → Accepting p.outcomes
    → (o : List Outcome) × (protocol_send_string p s
        ≡ some (record p { status = send_success; outcomes = o; sent = p.sent ++ frame s }))
      × Accepting o
unfolding protocol_send_string
protocol_send_string_lem p s n a =
    let (o1, e1, a1) =
      skt_send-Accepting p 3 (message_len (length s)) (header_length (length s) n) a in
    let (o2, e2, a2) =
      skt_send-Accepting
        (record p {
          status = send_success;
          outcomes = o1;
          sent = p.sent ++ take 3 (message_len (length s));
        })
        (length s) s (omega arith) a1 in
    (
      o2,
      rw (
        e1,
        e2,
        take-all (length s) s (omega arith),
        append_assoc p.sent (take 3 (message_len (length s))) s,
      ),
      a2,
    )

store-last :
    (msg rest : Bytes) (last len : ℕ)
    → len ≡ suc (length msg)
    → store ((msg ++ last ∷ []) ++ rest) (pos len -ℤ pos 1) 0 ≡ some (msg ++ 0 ∷ rest)
store-last msg rest last len e =
    let i : pos len -ℤ pos 1 ≡ pos (length msg) = ground arith in
    let fits : ltb (length msg) (length (msg ++ last ∷ rest)) ≡ true =
      lt→ltb _ _ (omega (arith, length-append msg (last ∷ rest))) in
    rw (i, append_assoc msg (last ∷ []) rest, fits, set-append msg rest last 0)

-- `protocol_receive_string` reads a framed string of 1 to 999 bytes that fits the buffer, in
-- whatever pieces it arrives, prints it without its last byte and with a newline, and leaves it
-- in the buffer so. What follows stays to be read.
pub protocol_receive_string_lem :
    (p : Process) (received msg rest : Bytes) (last : ℕ)
    → NoNul msg
    → length msg < 999
    → length msg < length received
    → available p.arrivals ≡ frame (msg ++ last ∷ []) ++ rest
    → (left : List Arrival) × (protocol_receive_string p received
        ≡ some (
          record p {
            status = reception_success;
            arrivals = left;
            stdout = p.stdout ++ (msg ++ codes "\n");
          },
          msg ++ 0 ∷ drop (suc (length msg)) received,
        ))
      × (available left ≡ rest)
unfolding protocol_receive_string
protocol_receive_string_lem p received msg rest last nn short fits e =
    let s : Bytes = msg ++ last ∷ [] in
    let n : length s ≡ suc (length msg) = omega (arith, length-append msg (last ∷ [])) in
    let three : 3 ≡ length (take 3 (message_len (length s))) =
      omega
        (arith, length-take 3 (message_len (length s)), header_length (length s) (omega arith)) in
    let (l1, e1, k1) =
      skt_receive_exact p 3 (0 ∷ 0 ∷ 0 ∷ 0 ∷ []) (take 3 (message_len (length s))) (s ++ rest) three
        (omega arith) (omega arith) (e ∙ append_assoc (take 3 (message_len (length s))) s rest) in
    let (text, shown, number) =
      >>=-eq-some (c_string (take 3 (message_len (length s)) ++ 0 ∷ [])) (λ t. some (atoi t))
        (header_lem (length s) (omega arith)) in
    let len : atoi text ≡ pos (suc (length msg)) = ground arith in
    let (l2, e2, k2) =
      skt_receive_exact (record p { status = reception_success; arrivals = l1 }) (suc (length msg))
        received s rest (omega arith) (omega arith) (omega arith) k1 in
    (
      l2,
      rw (
        e1,
        shown,
        len,
        e2,
        store-last msg (drop (suc (length msg)) received) last (suc (length msg)) refl,
        c_string-append msg (drop (suc (length msg)) received) nn,
      ),
      k2,
    )
