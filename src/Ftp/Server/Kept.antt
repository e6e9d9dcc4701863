-- ===== src/Ftp/Server/Kept.antt =====
-- Calls on the server of tp3_ftp_multiclient_server that change no client and no directory.
use programming_workshop.Common.{
  ℕ, zero, suc, ◌≡◌, refl, inl, inr, false, [], ◌==◌, Bool-cases, ◌∙◌, Option, none, some, List,
  ◌∷◌, ◌++◌, arith, Bytes, length,
}
use programming_workshop.Ftp.Result.{
  Result, returned, threw, faulted, unfinished, Act, pure, continue, lift, state_after,
}
use programming_workshop.Ftp.Config.{ConfigMap, get_message}
use programming_workshop.Ftp.Connection.{
  Session, send_string, send_loop, SendEnd, sent_all, no_more, failure, finish_sending,
  receive_loop, receive_string,
}
use programming_workshop.Sudoku.Socket.{Arrival, segment, broken, Outcome}
use programming_workshop.Ftp.Server.{format_cmd, answer}

-- The client's record and the directories are the same.
pub record IsKept (s s' : Session) : Type 0 where
  pub client : s'.client ≡ s.client
  pub directories : s'.directories ≡ s.directories

-- Whatever state the call leaves.
abbrev pub Keeps : {A : Type 0} → Act Session A → Type 0
Keeps act = (s s' : Session) → state_after (act s) ≡ some s' → IsKept s s'

pub continue-Keeps :
    {A B : Type 0} (f : A → Act Session B) (r : Result Session A) (s : Session)
    → ((s1 : Session) → state_after r ≡ some s1 → IsKept s s1)
    → ((a : A) → Keeps (f a))
    → (s' : Session) → state_after (continue f r) ≡ some s'
    → IsKept s s'
continue-Keeps f (returned a s1) s k kf s' h =
    let first = k s1 refl in
    let second = kf a s1 s' h in
    record {
      client = second.client ∙ first.client;
      directories = second.directories ∙ first.directories;
    }
continue-Keeps f (threw m s1) s k kf s' h = k s' h
continue-Keeps f faulted s k kf s' h = absurd (ground arith)
continue-Keeps f unfinished s k kf s' h = absurd (ground arith)

pub lift-Keeps : {A : Type 0} (o : Option A) → Keeps (lift o)
lift-Keeps none s s' h = absurd (ground arith)
lift-Keeps (some a) s s' h = record { client = ground (arith, h); directories = ground (arith, h) }

finish_sending-Keeps : (buf : Bytes) (r : SendEnd × ℕ × List Outcome) → Keeps (finish_sending buf r)
finish_sending-Keeps buf (sent_all, n, os) s s' h = record {
  client = ground (arith, h);
  directories = ground (arith, h);
}
finish_sending-Keeps buf (no_more, n, os) s s' h = record {
  client = ground (arith, h);
  directories = ground (arith, h);
}
finish_sending-Keeps buf (failure, n, os) s s' h = record {
  client = ground (arith, h);
  directories = ground (arith, h);
}

pub send_string-Keeps : (cmd : Bytes) → Keeps (send_string cmd)
unfolding send_string
send_string-Keeps cmd s s' h = finish_sending-Keeps cmd (send_loop (length cmd) 0 s.outcomes) s s' h

format_cmd-Keeps : (cfg : ConfigMap) (id message : Bytes) → Keeps (format_cmd cfg id message)
unfolding format_cmd
format_cmd-Keeps cfg id message s s' h =
    continue-Keeps (λ text. pure (id ++ b' ' ∷ text)) (lift (get_message cfg message) s) s
      (lift-Keeps (get_message cfg message) s)
      (λ text t t' e. record { client = ground (arith, e); directories = ground (arith, e) }) s' h

pub answer-Keeps : (cfg : ConfigMap) (id message : Bytes) → Keeps (answer cfg id message)
unfolding answer
answer-Keeps cfg id message s s' h =
    continue-Keeps send_string (format_cmd cfg id message s) s (format_cmd-Keeps cfg id message s)
      send_string-Keeps s' h

-- What `receive_byte` does with what arrives.
abbrev received : List Arrival → ℕ → Act Session ℕ
received arrivals aux s = elim arrivals [
  | [] ↦ returned aux (record s { alive = false })
  | broken ∷ later ↦ returned aux (record s { arrivals = later; alive = false })
  | segment b [] ∷ later ↦ returned b (record s { arrivals = later })
  | segment b (c ∷ bs) ∷ later ↦ returned b (record s { arrivals = segment c bs ∷ later })
]

received-Keeps : (arrivals : List Arrival) (aux : ℕ) → Keeps (received arrivals aux)
received-Keeps [] aux s s' h = record {
  client = ground (arith, h);
  directories = ground (arith, h);
}
received-Keeps (broken ∷ later) aux s s' h = record {
  client = ground (arith, h);
  directories = ground (arith, h);
}
received-Keeps (segment b [] ∷ later) aux s s' h = record {
  client = ground (arith, h);
  directories = ground (arith, h);
}
received-Keeps (segment b (c ∷ bs) ∷ later) aux s s' h = record {
  client = ground (arith, h);
  directories = ground (arith, h);
}

receive_loop-Keeps : (fuel aux : ℕ) (str : Bytes) → Keeps (receive_loop fuel aux str)
unfolding receive_loop
receive_loop-Keeps zero aux str s s' h = elim (Bool-cases (aux == b'\n')) [
  | inl t ↦
      (let e : some s ≡ some s' = rw t at h in
        record { client = ground (arith, e); directories = ground (arith, e) })
  | inr f ↦ absurd (ground (arith, rw f at h))
]
receive_loop-Keeps (suc fuel) aux str s s' h = elim (Bool-cases (aux == b'\n')) [
  | inl t ↦
      (let e : some s ≡ some s' = rw t at h in
        record { client = ground (arith, e); directories = ground (arith, e) })
  | inr f ↦
      continue-Keeps (λ b. receive_loop fuel b (str ++ b ∷ [])) (received s.arrivals aux s) s
        (received-Keeps s.arrivals aux s) (λ b. receive_loop-Keeps fuel b (str ++ b ∷ [])) s'
        (rw f at h)
]

pub receive_string-Keeps : (fuel : ℕ) → Keeps (receive_string fuel)
unfolding receive_string
receive_string-Keeps fuel = receive_loop-Keeps fuel 0 []
