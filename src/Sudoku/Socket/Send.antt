-- ===== src/Sudoku/Socket/Send.antt =====
-- `skt_send` of tp1_sockets/socket.c: what goes out, and when success is reported.
use programming_workshop.Common.{
  ℕ, zero, suc, ◌+◌, ◌-◌, ◌≤◌, ◌<◌, min, ◌≡◌, refl, true, false, Option, some, List, [], ◌∷◌, ◌++◌,
  arith, ltb, leb, ◌==◌, if◌then◌else◌, Bytes, length, take, Bool-cases, inl, inr, ◌∙◌,
}
use programming_workshop.Sudoku.Socket.{
  Outcome, accepts, nothing_sent, send_error, Process, Sending, send_loop, skt_send, send_success,
  send_failure,
}

-- No call of send() fails.
abbrev pub Accepting : List Outcome → Type 0
Accepting [] = Unit {0}
Accepting (accepts k ∷ os) = Accepting os
Accepting (nothing_sent ∷ os) = ⊥
Accepting (send_error ∷ os) = ⊥

abbrev Sends : ℕ → List Outcome → Option Sending → Type 0
Sends n os r =
    (m : ℕ) × (left : List Outcome) × (r ≡ some (m == n, m, left))
    × (m ≤ n)
    × (Accepting os → (m ≡ n) × Accepting left)

send_loop-stop : (fuel n : ℕ) (os : List Outcome) → Sends n os (send_loop (suc fuel) n n os)
unfolding send_loop
send_loop-stop fuel n os = (n, os, ground arith, omega arith, λ a. (refl, a))

module _ (fuel n sent : ℕ) (more : sent < n) where
  step_all : send_loop (suc fuel) n sent [] ≡ send_loop fuel n n []
  unfolding send_loop
  step_all = ground arith

  step_accepts :
      (k : ℕ) (os : List Outcome)
      → send_loop (suc fuel) n sent (accepts k ∷ os)
        ≡ send_loop fuel n (sent + min (suc k) (n - sent)) os
  unfolding send_loop
  step_accepts k os = ground arith

  step_nothing :
      (os : List Outcome) → send_loop (suc fuel) n sent (nothing_sent ∷ os) ≡ some (false, sent, os)
  unfolding send_loop
  step_nothing os = ground arith

  step_error :
      (os : List Outcome) → send_loop (suc fuel) n sent (send_error ∷ os) ≡ some (false, sent, os)
  unfolding send_loop
  step_error os = ground arith

  not_all : false ≡ (sent == n)
  not_all = ground arith

send_loop-Sends :
    (fuel n sent : ℕ) (os : List Outcome)
    → sent ≤ n
    → n - sent < fuel
    → Sends n os (send_loop fuel n sent os)
send_loop-Sends zero n sent os h f = elim f [ ]
send_loop-Sends (suc fuel) n sent os h f = elim (Bool-cases (ltb sent n)) [
  | inl t ↦
      go os (ground arith) (send_loop-Sends fuel n n [] (omega arith))
        (λ k later. send_loop-Sends fuel n (sent + min (suc k) (n - sent)) later (omega arith))
  | inr t ↦ let e : sent ≡ n = ground arith in rw e (send_loop-stop fuel n os)
]
  where
    go :
        (os : List Outcome) (more : sent < n)
        → (n - n < fuel → Sends n [] (send_loop fuel n n []))
        → ((k : ℕ) (later : List Outcome)
            → n - (sent + min (suc k) (n - sent)) < fuel
            → Sends n later (send_loop fuel n (sent + min (suc k) (n - sent)) later))
        → Sends n os (send_loop (suc fuel) n sent os)
    go [] more all some_more = rw (step_all fuel n sent more) (all (omega arith))
    go (accepts k ∷ later) more all some_more =
        rw (step_accepts fuel n sent more k later) (some_more k later (omega arith))
    go (nothing_sent ∷ later) more all some_more = (
      sent,
      later,
      rw (step_nothing fuel n sent more later, ← not_all fuel n sent more),
      h,
      λ a. absurd a,
    )
    go (send_error ∷ later) more all some_more = (
      sent,
      later,
      rw (step_error fuel n sent more later, ← not_all fuel n sent more),
      h,
      λ a. absurd a,
    )

-- `skt_send` of `len` bytes that the buffer holds returns, in whatever portions send() accepts
-- them. What goes out is a beginning of the buffer, behind all that was sent before; the status
-- is SKT_SEND_SUCCESS if that is all `len` bytes, and SKT_SEND_FAILURE otherwise. If no call of
-- send() fails, it is all of them.
pub skt_send_lem :
    (p : Process) (len : ℕ) (buf : Bytes)
    → len ≤ length buf
    → (m : ℕ) × (left : List Outcome) × (skt_send p len buf
        ≡ some (record p {
          status = if m == len then send_success else send_failure;
          outcomes = left;
          sent = p.sent ++ take m buf;
        }))
      × (m ≤ len)
      × (Accepting p.outcomes → (m ≡ len) × Accepting left)
unfolding skt_send
skt_send_lem p len buf h =
    let (m, left, r, b, a) =
      send_loop-Sends (suc len) len 0 p.outcomes (omega arith) (omega arith) in
    let fits : leb len (length buf) ≡ true = ground arith in (m, left, rw (fits, r), b, a)

-- With a peer that accepts everything, all the bytes go out.
pub skt_send-Accepting :
    (p : Process) (len : ℕ) (buf : Bytes)
    → len ≤ length buf
    → Accepting p.outcomes
    → (left : List Outcome) × (skt_send p len buf
        ≡ some (record p { status = send_success; outcomes = left; sent = p.sent ++ take len buf }))
      × Accepting left
skt_send-Accepting p len buf h a =
    let (m, left, r, b, all) = skt_send_lem p len buf h in
    let e = (all a).0 in (left, r ∙ ground arith, (all a).1)
