-- ===== src/Ftp/Result.antt =====
-- How a call of tp3_ftp_multiclient_server ends, and the state it threads.
use programming_workshop.Common.{Option, none, some, Bytes}

-- A call returns, throws an `Error` with the text that its message starts with, meets undefined
-- behaviour, or has not ended when the fuel of a loop has run out.
pub data Result (S A : Type 0) : Type 0 where
  returned : A → S → Result S A
  threw : Bytes → S → Result S A
  faulted : Result S A
  unfinished : Result S A

-- A call with the state `S`.
abbrev pub Act : Type 0 → Type 0 → Type 0
Act S A = S → Result S A

abbrev pub pure : {S A : Type 0} → A → Act S A
pure a s = returned a s

-- One call behind another, unless the first does not return.
abbrev pub continue : {S A B : Type 0} → (A → Act S B) → Result S A → Result S B
continue f (returned a s) = f a s
continue f (threw m s) = threw m s
continue f faulted = faulted
continue f unfinished = unfinished

infixl 5 ◌>>=◌
abbrev pub ◌>>=◌ : {S A B : Type 0} → Act S A → (A → Act S B) → Act S B
(m >>= f) s = continue f (m s)

-- The state behind a call that returns or throws.
abbrev pub state_after : {S A : Type 0} → Result S A → Option S
state_after (returned a s) = some s
state_after (threw m s) = some s
state_after faulted = none
state_after unfinished = none

-- `none` is undefined behaviour.
abbrev pub lift : {S A : Type 0} → Option A → Act S A
lift none s = faulted
lift (some a) s = returned a s
