-- ===== src/Ftp/Connection/Lines.antt =====
-- The lines that `receive_string` of tp3_ftp_multiclient_server/common_protocol.cpp reads.
use mathlib.Core.List.{append_assoc}
use programming_workshop.Common.{
  ℕ, zero, suc, ◌<◌, ◌≡◌, ◌≢◌, refl, ◌∙◌, ap, false, List, [], ◌∷◌, ◌++◌, arith, ◌==◌,
  if◌then◌else◌, Bytes, length,
}
use programming_workshop.Sudoku.Socket.{Arrival, segment, broken}
use programming_workshop.Sudoku.Socket.Receive.{available}
use programming_workshop.Ftp.Result.{returned, unfinished, continue}
use programming_workshop.Ftp.Config.Lookup.{Lacks}
use programming_workshop.Ftp.Connection.{Session, receive_byte, receive_loop, receive_string}

abbrev with_arrivals : Session → List Arrival → Session
with_arrivals s later = record s { arrivals = later }

receive_byte_lem :
    (aux b : ℕ) (rest : Bytes) (s : Session) (later : List Arrival)
    → available later ≡ b ∷ rest
    → (left : List Arrival) × (receive_byte aux (with_arrivals s later)
        ≡ returned b (with_arrivals s left))
      × (available left ≡ rest)
receive_byte_lem aux b rest s [] e = absurd (ground arith)
receive_byte_lem aux b rest s (broken ∷ later) e = absurd (ground arith)
receive_byte_lem aux b rest s (segment c [] ∷ later) e =
    (later, ground (arith, e), ground (arith, e))
receive_byte_lem aux b rest s (segment c (d ∷ bs) ∷ later) e =
    (segment d bs ∷ later, ground (arith, e), ground (arith, e))

receive_loop-more :
    (fuel aux b : ℕ) (str : Bytes) (s s1 : Session)
    → aux ≢ b'\n'
    → receive_byte aux s ≡ returned b s1
    → receive_loop (suc fuel) aux str s ≡ receive_loop fuel b (str ++ b ∷ []) s1
unfolding receive_loop
receive_loop-more fuel aux b str s s1 ne e =
    let go : (aux == b'\n') ≡ false = ground arith in
    ap
      (λ t.
        (if t
          then returned str s
          else continue (λ c. receive_loop fuel c (str ++ c ∷ [])) (receive_byte aux s)))
      go
    ∙ ap (continue (λ c. receive_loop fuel c (str ++ c ∷ []))) e

receive_loop-done :
    (fuel : ℕ) (str : Bytes) (s : Session) → receive_loop fuel b'\n' str s ≡ returned str s
unfolding receive_loop
receive_loop-done zero str s = refl
receive_loop-done (suc fuel) str s = refl

receive_loop_lem :
    (line rest str : Bytes) (fuel aux : ℕ) (s : Session) (later : List Arrival)
    → Lacks b'\n' line
    → aux ≢ b'\n'
    → length line < fuel
    → available later ≡ line ++ b'\n' ∷ rest
    → (left : List Arrival) × (receive_loop fuel aux str (with_arrivals s later)
        ≡ returned (str ++ (line ++ b'\n' ∷ [])) (with_arrivals s left))
      × (available left ≡ rest)
receive_loop_lem line rest str zero aux s later l ne n e = absurd (omega arith)
receive_loop_lem [] rest str (suc fuel) aux s later l ne n e =
    let (left, r, k) = receive_byte_lem aux b'\n' rest s later e in
    (
      left,
      receive_loop-more fuel aux b'\n' str (with_arrivals s later) (with_arrivals s left) ne r
          ∙ receive_loop-done fuel (str ++ b'\n' ∷ []) (with_arrivals s left),
      k,
    )
receive_loop_lem (c ∷ line) rest str (suc fuel) aux s later l ne n e =
    let (left, r, k) = receive_byte_lem aux c (line ++ b'\n' ∷ rest) s later e in
    let (left', r', k') =
      receive_loop_lem line rest (str ++ c ∷ []) fuel c s left l.1 l.0 (omega arith) k in
    (
      left',
      receive_loop-more fuel aux c str (with_arrivals s later) (with_arrivals s left) ne r
          ∙ r'
          ∙ ap (λ x. returned x (with_arrivals s left'))
              (append_assoc str (c ∷ []) (line ++ b'\n' ∷ [])),
      k',
    )

-- `receive_string` returns a line with its newline, in whatever pieces it arrives, when it may read
-- one byte more than the line has before the newline. It changes nothing but the arrivals, and what
-- follows the line stays to be read.
pub receive_string_lem :
    (fuel : ℕ) (s : Session) (line rest : Bytes)
    → Lacks b'\n' line
    → length line < fuel
    → available s.arrivals ≡ line ++ b'\n' ∷ rest
    → (left : List Arrival) × (receive_string fuel s
        ≡ returned (line ++ b'\n' ∷ []) (record s { arrivals = left }))
      × (available left ≡ rest)
unfolding receive_string
receive_string_lem fuel s line rest l n e =
    receive_loop_lem line rest [] fuel 0 s s.arrivals l (λ h. ground arith) n e

-- No byte that arrives is a newline.
abbrev pub NoNewline : List Arrival → Type 0
NoNewline [] = Unit {0}
NoNewline (broken ∷ later) = NoNewline later
NoNewline (segment b bs ∷ later) = (b ≢ b'\n') × Lacks b'\n' bs × NoNewline later

-- A byte read or not, the loop goes on.
receive_byte-more :
    (aux : ℕ) (s : Session) (later : List Arrival)
    → aux ≢ b'\n'
    → NoNewline later
    → (b : ℕ) × (s1 : Session) × (receive_byte aux (with_arrivals s later) ≡ returned b s1)
      × (b ≢ b'\n')
      × NoNewline s1.arrivals
receive_byte-more aux s [] ne h = (aux, record s { arrivals = []; alive = false }, refl, ne, tt {0})
receive_byte-more aux s (broken ∷ later) ne h =
    (aux, record s { arrivals = later; alive = false }, refl, ne, h)
receive_byte-more aux s (segment b [] ∷ later) ne h =
    let (x, y, z) = h in (b, record s { arrivals = later }, refl, x, z)
receive_byte-more aux s (segment b (c ∷ bs) ∷ later) ne h =
    let (x, y, z) = h in (b, record s { arrivals = segment c bs ∷ later }, refl, x, (y.0, y.1, z))

receive_loop-unfinished :
    (fuel aux : ℕ) (str : Bytes) (s : Session)
    → aux ≢ b'\n'
    → NoNewline s.arrivals
    → receive_loop fuel aux str s ≡ unfinished
unfolding receive_loop
receive_loop-unfinished zero aux str s ne h =
    let go : (aux == b'\n') ≡ false = ground arith in
    ap (λ t. (if t then returned str s else unfinished)) go
receive_loop-unfinished (suc fuel) aux str s ne h =
    let (b, s1, r, ne', h') = receive_byte-more aux s s.arrivals ne h in
    receive_loop-more fuel aux b str s s1 ne r
    ∙ receive_loop-unfinished fuel b (str ++ b ∷ []) s1 ne' h'

-- If the client closes the connection, or it breaks, before a newline has arrived, `receive_string`
-- does not return, however long it runs: the result of `receive` is not looked at.
pub receive_string-unfinished :
    (fuel : ℕ) (s : Session) → NoNewline s.arrivals → receive_string fuel s ≡ unfinished
unfolding receive_string
receive_string-unfinished fuel s h = receive_loop-unfinished fuel 0 [] s (λ e. ground arith) h
