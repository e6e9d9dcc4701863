-- ===== src/Ftp/Threads/Whole.antt =====
-- `respond_client` of tp3_ftp_multiclient_server/common_server.cpp is its rounds, one after the other.
pub mod Served
use programming_workshop.Common.{
  ℕ, zero, suc, ◌≡◌, refl, sym, ◌∙◌, ap, inl, inr, true, false, Option, none, some, ◌>>=◌, arith,
  if◌then◌else◌, Bool-cases,
}
use programming_workshop.Ftp.Result.{
  Result, returned, threw, faulted, unfinished, Act, continue, state_after,
}
use programming_workshop.Ftp.Config.{ConfigMap}
use programming_workshop.Ftp.Connection.{Session, receive_string}
use programming_workshop.Ftp.Server.Loop.{client_loop-round, client_loop-quit}
use programming_workshop.Ftp.Server.{
  handle, send_hello, client_loop, client_round, caught, respond_client,
}
use programming_workshop.Ftp.Threads.{Phase, greeting, serving, ended, joined, after, thread_round}

-- The rounds of a thread, `fuel` at most, when no other thread takes part: the state in which it ends.
unfoldable pub run_rounds : ℕ → ℕ → ConfigMap → Phase → Session → Option Session
unfolding thread_round
run_rounds zero line cfg phase s = none
run_rounds (suc fuel) line cfg ended s = some s
run_rounds (suc fuel) line cfg joined s = some s
run_rounds (suc fuel) line cfg phase s = do
  (phase', s') ← thread_round line cfg phase s
  run_rounds fuel line cfg phase' s'

continue_assoc :
    {S A B C : Type 0} (f : A → Act S B) (g : B → Act S C) (r : Result S A)
    → continue (λ a t. continue g (f a t)) r ≡ continue g (continue f r)
continue_assoc f g (returned a s) = refl
continue_assoc f g (threw m s) = refl
continue_assoc f g faulted = refl
continue_assoc f g unfinished = refl

client_loop-step :
    (fuel line : ℕ) (cfg : ConfigMap) (s : Session)
    → s.client.quit ≡ false
    → client_loop (suc fuel) line cfg s
      ≡ continue (λ u. client_loop fuel line cfg) (client_round line cfg s)
unfolding client_round
client_loop-step fuel line cfg s h =
    client_loop-round fuel line cfg s h
    ∙ continue_assoc (handle cfg) (λ u. client_loop fuel line cfg) (receive_string line s)

client_loop-zero :
    (line : ℕ) (cfg : ConfigMap) (s : Session)
    → s.client.quit ≡ false
    → client_loop zero line cfg s ≡ unfinished
unfolding client_loop
client_loop-zero line cfg s h = rw h refl

abbrev pub then_rounds : ℕ → ℕ → ConfigMap → Option (Phase × Session) → Option Session
then_rounds fuel line cfg o = do (phase, s) ← o; run_rounds fuel line cfg phase s

rounds-quit :
    (fuel line : ℕ) (cfg : ConfigMap) (s : Session)
    → s.client.quit ≡ true
    → run_rounds (suc fuel) line cfg serving s ≡ run_rounds fuel line cfg ended s
unfolding run_rounds thread_round
rounds-quit fuel line cfg s h =
    ap
      (λ b.
        then_rounds fuel line cfg (if b then some (ended, s) else after (client_round line cfg s)))
      h

rounds-step :
    (fuel line : ℕ) (cfg : ConfigMap) (s : Session)
    → s.client.quit ≡ false
    → run_rounds (suc fuel) line cfg serving s
      ≡ then_rounds fuel line cfg (after (client_round line cfg s))
unfolding run_rounds thread_round
rounds-step fuel line cfg s h =
    ap
      (λ b.
        then_rounds fuel line cfg (if b then some (ended, s) else after (client_round line cfg s)))
      h

-- The loop behind a round, and the rounds behind it.
behind_round :
    (fuel line : ℕ) (cfg : ConfigMap) (r : Result Session Unit) (s' : Session)
    → ((t : Session)
        → state_after (client_loop fuel line cfg t) ≡ some s'
        → run_rounds (suc (suc fuel)) line cfg serving t ≡ some s')
    → state_after (continue (λ u. client_loop fuel line cfg) r) ≡ some s'
    → then_rounds (suc (suc fuel)) line cfg (after r) ≡ some s'
unfolding run_rounds
behind_round fuel line cfg (returned u t) s' k h = k t h
behind_round fuel line cfg (threw m t) s' k h = h
behind_round fuel line cfg faulted s' k h = absurd (ground (arith, h))
behind_round fuel line cfg unfinished s' k h = absurd (ground (arith, h))

rounds-client_loop :
    (fuel line : ℕ) (cfg : ConfigMap) (s s' : Session)
    → state_after (client_loop fuel line cfg s) ≡ some s'
    → run_rounds (suc (suc fuel)) line cfg serving s ≡ some s'
unfolding run_rounds
rounds-client_loop zero line cfg s s' h = elim (Bool-cases s.client.quit) [
  | inl t ↦
      rounds-quit 1 line cfg s t ∙ sym (ap state_after (client_loop-quit zero line cfg s t)) ∙ h
  | inr f ↦ absurd (ground (arith, sym (ap state_after (client_loop-zero line cfg s f)) ∙ h))
]
rounds-client_loop (suc fuel) line cfg s s' h = elim (Bool-cases s.client.quit) [
  | inl t ↦
      rounds-quit (suc (suc fuel)) line cfg s t
      ∙ sym (ap state_after (client_loop-quit (suc fuel) line cfg s t))
      ∙ h
  | inr f ↦
      rounds-step (suc (suc fuel)) line cfg s f
      ∙ behind_round fuel line cfg (client_round line cfg s) s'
          (λ t. rounds-client_loop fuel line cfg t s')
          (sym (ap state_after (client_loop-step fuel line cfg s f)) ∙ h)
]

-- The rounds behind a round, and the loop behind it.
ahead_of_round :
    (fuel line : ℕ) (cfg : ConfigMap) (r : Result Session Unit) (s' : Session)
    → ((t : Session)
        → run_rounds fuel line cfg serving t ≡ some s'
        → state_after (client_loop fuel line cfg t) ≡ some s')
    → then_rounds fuel line cfg (after r) ≡ some s'
    → state_after (continue (λ u. client_loop fuel line cfg) r) ≡ some s'
unfolding run_rounds
ahead_of_round fuel line cfg (returned u t) s' k h = k t h
ahead_of_round zero line cfg (threw m t) s' k h = absurd (ground (arith, h))
ahead_of_round (suc fuel) line cfg (threw m t) s' k h = h
ahead_of_round fuel line cfg faulted s' k h = absurd (ground (arith, h))
ahead_of_round fuel line cfg unfinished s' k h = absurd (ground (arith, h))

rounds_over :
    (fuel line : ℕ) (cfg : ConfigMap) (s s' : Session)
    → run_rounds fuel line cfg ended s ≡ some s'
    → some s ≡ some s'
unfolding run_rounds
rounds_over zero line cfg s s' h = absurd (ground (arith, h))
rounds_over (suc fuel) line cfg s s' h = h

client_loop-rounds :
    (fuel line : ℕ) (cfg : ConfigMap) (s s' : Session)
    → run_rounds fuel line cfg serving s ≡ some s'
    → state_after (client_loop fuel line cfg s) ≡ some s'
unfolding run_rounds
client_loop-rounds zero line cfg s s' h = absurd (ground (arith, h))
client_loop-rounds (suc fuel) line cfg s s' h = elim (Bool-cases s.client.quit) [
  | inl t ↦
      ap state_after (client_loop-quit (suc fuel) line cfg s t)
      ∙ rounds_over fuel line cfg s s' (sym (rounds-quit fuel line cfg s t) ∙ h)
  | inr f ↦
      ap state_after (client_loop-step fuel line cfg s f)
      ∙ ahead_of_round fuel line cfg (client_round line cfg s) s'
          (λ t. client_loop-rounds fuel line cfg t s') (sym (rounds-step fuel line cfg s f) ∙ h)
]

-- The greeting and the loop, and the end of both by an exception.
caught_state : (r : Result Session Unit) → state_after (caught r) ≡ state_after r
caught_state (returned u s) = refl
caught_state (threw m s) = refl
caught_state faulted = refl
caught_state unfinished = refl

caught-returned :
    (r : Result Session Unit) (s' : Session) → state_after r ≡ some s' → caught r ≡ returned tt s'
caught-returned (returned u s) s' h =
    (let same : s ≡ s' = ground (arith, h) in ap (returned tt) same)
caught-returned (threw m s) s' h = (let same : s ≡ s' = ground (arith, h) in ap (returned tt) same)
caught-returned faulted s' h = absurd (ground (arith, h))
caught-returned unfinished s' h = absurd (ground (arith, h))

-- The thread of a client that nothing interrupts: if `respond_client` returns within some rounds of its
-- loop, the rounds that the interleavings are made of end in the same state, with three more for the
-- greeting and the two looks at `quit` at the end.
pub respond_client-rounds :
    (fuel line : ℕ) (cfg : ConfigMap) (s s' : Session)
    → respond_client fuel line cfg s ≡ returned tt s'
    → run_rounds (suc (suc (suc fuel))) line cfg greeting s ≡ some s'
unfolding respond_client run_rounds thread_round
respond_client-rounds fuel line cfg s s' h =
    behind_round fuel line cfg (send_hello cfg s) s' (λ t. rounds-client_loop fuel line cfg t s')
      (sym (caught_state (continue (λ u. client_loop fuel line cfg) (send_hello cfg s)))
        ∙ ap state_after h)

-- And if these rounds end, `respond_client` returns in their state.
pub rounds-respond_client :
    (fuel line : ℕ) (cfg : ConfigMap) (s s' : Session)
    → run_rounds (suc fuel) line cfg greeting s ≡ some s'
    → respond_client fuel line cfg s ≡ returned tt s'
unfolding respond_client run_rounds thread_round
rounds-respond_client fuel line cfg s s' h =
    caught-returned (continue (λ u. client_loop fuel line cfg) (send_hello cfg s)) s' (
      ahead_of_round fuel line cfg (send_hello cfg s) s'
        (λ t. client_loop-rounds fuel line cfg t s') h)
