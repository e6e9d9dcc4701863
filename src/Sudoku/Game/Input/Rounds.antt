-- ===== src/Sudoku/Game/Input/Rounds.antt =====
-- One line of the player's input, read and parsed by client.c of tp1_sockets.
use programming_workshop.Common.{
  ℕ, zero, suc, ◌-◌, ◌≤◌, ◌<◌, ◌≡◌, ◌⊎◌, inl, inr, some, [], ◌∷◌, ◌++◌, arith, >>=-eq-some,
  Bool-cases, Option-cases, Bytes, codes, bytes_eq, length, take, c_string,
}
use programming_workshop.Common.Tokens.{read_line, strtok}
use programming_workshop.Sudoku.Socket.{Process, write_at}
use programming_workshop.Sudoku.State.{Client, eof_reached}
use programming_workshop.Sudoku.Client.{
  client_read_command, read_nonempty, client_command_process, process_place, process_put_line,
  process_word, place, digit, is_eof_reached,
}

read_line-length : (n : ℕ) (s : Bytes) → length (read_line n s).1 ≤ length s
unfolding read_line
read_line-length zero s = omega arith
read_line-length (suc n) [] = omega arith
read_line-length (suc n) (c ∷ s) = ground (arith, read_line-length n s)

read_line-shorter : (n c : ℕ) (s : Bytes) → length (read_line (suc n) (c ∷ s)).1 < length (c ∷ s)
unfolding read_line
read_line-shorter n c s = ground (arith, read_line-length n s)

-- Some input is read, or there is none left.
abbrev pub Advances : Client → Process → Process → Type 0
Advances c p p' = (c.status ≡ eof_reached) ⊎ (length p'.stdin < length p.stdin)

read_nonempty_lem :
    (self c : Client) (command command' s : Bytes) (p p' : Process)
    → read_nonempty self command p s ≡ some (c, command', p')
    → (c.status ≡ eof_reached) ⊎ (length p'.stdin < length s)
read_nonempty_lem self c command command' [] p p' h = inl (ground (arith, h))
read_nonempty_lem self c command command' (x ∷ s) p p' h =
    let (w, e, h1) = >>=-eq-some (write_at 0 ((read_line 49 (x ∷ s)).0 ++ 0 ∷ []) command) _ h in
    let same : p'.stdin ≡ (read_line 49 (x ∷ s)).1 = ground (arith, h1) in
    inr (rw same (read_line-shorter 48 x s))

client_read_command-Advances :
    (self c : Client) (command command' : Bytes) (p p' : Process)
    → client_read_command self command p ≡ some (c, command', p')
    → Advances c p p'
unfolding client_read_command
client_read_command-Advances self c command command' p p' h =
    read_nonempty_lem self c command command' p.stdin p p' h

process_place-stdin :
    (self c : Client) (rest : Bytes) (p p' : Process)
    → process_place self rest p ≡ some (c, p')
    → p'.stdin ≡ p.stdin
unfolding process_place
process_place-stdin self c rest p p' h =
    let (w, e1, h1) = >>=-eq-some (strtok rest) _ h in
    elim (Bool-cases (bytes_eq w.0 (codes "in"))) [
      | inl t ↦
          (let (w', e2, h2) = >>=-eq-some (strtok w.1) _ (rw t at h1) in
            elim (Option-cases (place w'.0)) [
              | inl n ↦ ground arith
              | inr ((r, k), s) ↦ ground arith
            ])
      | inr f ↦ ground arith
    ]

process_put_line-stdin :
    (self c : Client) (rest : Bytes) (p p' : Process)
    → process_put_line self rest p ≡ some (c, p')
    → p'.stdin ≡ p.stdin
unfolding process_put_line
process_put_line-stdin self c rest p p' h =
    let (w, e1, h1) = >>=-eq-some (strtok rest) _ h in
    elim (Option-cases (digit w.0)) [
      | inl n ↦ ground arith
      | inr (v, s) ↦
          process_place-stdin (record self { command = b'P'; value = v - 48 }) c w.1 p p'
            (rw s at h1)
    ]

process_word-stdin :
    (self c : Client) (text : Bytes) (p p' : Process)
    → process_word self text p ≡ some (c, p')
    → p'.stdin ≡ p.stdin
unfolding process_word
process_word-stdin self c text p p' h = ground arith

-- The parser does not read from the input.
client_command_process-stdin :
    (self c : Client) (command : Bytes) (p p' : Process)
    → client_command_process self command p ≡ some (c, p')
    → p'.stdin ≡ p.stdin
unfolding client_command_process
client_command_process-stdin self c command p p' h =
    elim (Bool-cases (is_eof_reached self.status)) [
      | inl t ↦ ground arith
      | inr f ↦
          (let (text, e1, h1) = >>=-eq-some (c_string command) _ (rw f at h) in
            let (w, e2, h2) = >>=-eq-some (strtok (take 19 text)) _ h1 in
            elim (Bool-cases (bytes_eq w.0 (codes "put"))) [
              | inl t ↦ process_put_line-stdin self c w.1 p p' (rw t at h2)
              | inr g ↦ process_word-stdin self c text p p' (rw g at h2)
            ])
    ]

process-eof :
    (self c : Client) (command : Bytes) (p p' : Process)
    → self.status ≡ eof_reached
    → client_command_process self command p ≡ some (c, p')
    → c.status ≡ eof_reached
unfolding client_command_process
process-eof self c command p p' e h = ground (arith, e, h)

-- A line read and parsed.
pub round_lem :
    (self c1 c2 : Client) (command command1 : Bytes) (p p1 p2 : Process)
    → client_read_command self command p ≡ some (c1, command1, p1)
    → client_command_process c1 command1 p1 ≡ some (c2, p2)
    → Advances c2 p p2
round_lem self c1 c2 command command1 p p1 p2 e1 e2 =
    elim (client_read_command-Advances self c1 command command1 p p1 e1) [
      | inl eof ↦ inl (process-eof c1 c2 command1 p1 p2 eof e2)
      | inr less ↦ inr (rw (client_command_process-stdin c1 c2 command1 p1 p2 e2) less)
    ]
