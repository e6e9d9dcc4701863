-- ===== src/Ftp/Connection/Sending.antt =====
-- What `send_string` of tp3_ftp_multiclient_server/common_protocol.cpp sends.
use programming_workshop.Common.{
  ℕ, suc, ◌+◌, ◌-◌, ◌≤◌, ◌<◌, ◌≡◌, refl, ◌∙◌, ap, inl, inr, List, [], ◌∷◌, ◌++◌, arith, ltb,
  Bool-cases, Bytes, length, take-all, min,
}
use programming_workshop.Sudoku.Socket.{Outcome, accepts, nothing_sent, send_error}
use programming_workshop.Sudoku.Socket.Send.{Accepting}
use programming_workshop.Ftp.Result.{returned}
use programming_workshop.Ftp.Connection.{Session, sent_all, send_loop, finish_sending, send_string}

-- A call of send() accepts a part, and the loop goes on with the rest.
send_loop-step :
    (len n k : ℕ) (os : List Outcome)
    → n < len
    → send_loop len n (accepts k ∷ os) ≡ send_loop len (n + min (suc k) (len - n)) os
unfolding send_loop
send_loop-step len n k os h = ground arith

send_loop-full :
    (len k : ℕ) (os : List Outcome)
    → send_loop len len (accepts k ∷ os) ≡ (sent_all, len, accepts k ∷ os)
unfolding send_loop
send_loop-full len k os = ground arith

send_loop_lem :
    (len n : ℕ) (os : List Outcome)
    → n ≤ len
    → Accepting os
    → (left : List Outcome) × (send_loop len n os ≡ (sent_all, len, left)) × Accepting left
unfolding send_loop
send_loop_lem len n [] h a = ([], refl, a)
send_loop_lem len n (nothing_sent ∷ os) h a = elim a [ ]
send_loop_lem len n (send_error ∷ os) h a = elim a [ ]
send_loop_lem len n (accepts k ∷ os) h a = elim (Bool-cases (ltb n len)) [
  | inl t ↦
      (let (left, r, b) = send_loop_lem len (n + min (suc k) (len - n)) os (ground arith) a in
        (left, send_loop-step len n k os (ground arith) ∙ r, b))
  | inr f ↦
      (let full : n ≡ len = ground arith in
        (
          accepts k ∷ os,
          ap (λ x. send_loop len x (accepts k ∷ os)) full ∙ send_loop-full len k os,
          a,
        ))
]

-- If no call of send() fails or accepts nothing, the whole string is sent, in whatever pieces.
pub send_string_lem :
    (cmd : Bytes) (s : Session)
    → Accepting s.outcomes
    → (left : List Outcome) × (send_string cmd s
        ≡ returned tt (record s { outcomes = left; sent = s.sent ++ cmd }))
      × Accepting left
unfolding send_string
send_string_lem cmd s a =
    let (left, r, b) = send_loop_lem (length cmd) 0 s.outcomes (omega arith) a in
    (
      left,
      ap (λ e. finish_sending cmd e s) r
          ∙ ap (λ x. returned tt (record s { outcomes = left; sent = s.sent ++ x }))
              (take-all (length cmd) cmd (omega arith)),
      b,
    )
