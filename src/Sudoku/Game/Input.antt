-- ===== src/Sudoku/Game/Input.antt =====
-- The loops of `sudoku_play` in tp1_sockets/sudoku.c against the player's input: their fuel is enough.
pub mod Rounds
use programming_workshop.Common.{
  ℕ, zero, suc, ◌+◌, ◌-◌, ◌≤◌, ◌<◌, ◌≡◌, refl, sym, ◌∙◌, ap, ◌⊎◌, inl, inr, true, false, none, some,
  [], ◌∷◌, ◌++◌, arith, >>=-eq-some, Bool-cases, Option-cases, Bytes, codes, bytes_eq, length, take,
  c_string,
}
use programming_workshop.Common.Tokens.{read_line, strtok}
use programming_workshop.Sudoku.Socket.{Process, write_at}
use programming_workshop.Sudoku.State.{Client, ClientStatus, eof_reached}
use programming_workshop.Sudoku.Client.{
  client_read_command, read_nonempty, client_command_process, process_place, process_put_line,
  process_word, place, digit, is_eof_reached,
}
use programming_workshop.Sudoku.Game.{read_loop, is_command_invalid}
use programming_workshop.Sudoku.Game.Input.Rounds.{Advances, round_lem}

abbrev started : Client → Client
started client = record client { status = ClientStatus.ok }

read_loop-zero :
    (client : Client) (command : Bytes) (p : Process) → read_loop zero client command p ≡ none
unfolding read_loop
read_loop-zero client command p = refl

read_loop-done :
    (fuel : ℕ) (client : Client) (command : Bytes) (p : Process)
    → is_command_invalid client.status ≡ false
    → read_loop (suc fuel) client command p ≡ some (client, command, p)
unfolding read_loop
read_loop-done fuel client command p h = ground (arith, h)

read_loop-stuck :
    (fuel : ℕ) (client : Client) (command : Bytes) (p : Process)
    → is_command_invalid client.status ≡ true
    → client_read_command (started client) command p ≡ none
    → read_loop (suc fuel) client command p ≡ none
unfolding read_loop
read_loop-stuck fuel client command p h e = ground (arith, h, e)

read_loop-refused :
    (fuel : ℕ) (client c1 : Client) (command command1 : Bytes) (p p1 : Process)
    → is_command_invalid client.status ≡ true
    → client_read_command (started client) command p ≡ some (c1, command1, p1)
    → client_command_process c1 command1 p1 ≡ none
    → read_loop (suc fuel) client command p ≡ none
unfolding read_loop
read_loop-refused fuel client c1 command command1 p p1 h e e' = ground (arith, h, e, e')

read_loop-more :
    (fuel : ℕ) (client c1 c2 : Client) (command command1 : Bytes) (p p1 p2 : Process)
    → is_command_invalid client.status ≡ true
    → client_read_command (started client) command p ≡ some (c1, command1, p1)
    → client_command_process c1 command1 p1 ≡ some (c2, p2)
    → read_loop (suc fuel) client command p ≡ read_loop fuel c2 command1 p2
unfolding read_loop
read_loop-more fuel client c1 c2 command command1 p p1 p2 h e e' = ground (arith, h, e, e')

-- Undefined behaviour of the loop: it reads and parses lines until `client_read_command` or
-- `client_command_process` has no result.
pub data ReadUndefined : Client → Bytes → Process → Type 0 where
  stuck :
      {client : Client} {command : Bytes} {p : Process}
      → is_command_invalid client.status ≡ true
      → client_read_command (started client) command p ≡ none
      → ReadUndefined client command p
  refused :
      {client : Client} {command : Bytes} {p : Process} (c1 : Client) (command1 : Bytes)
      (p1 : Process)
      → is_command_invalid client.status ≡ true
      → client_read_command (started client) command p ≡ some (c1, command1, p1)
      → client_command_process c1 command1 p1 ≡ none
      → ReadUndefined client command p
  later :
      {client : Client} {command : Bytes} {p : Process} (c1 c2 : Client) (command1 : Bytes)
      (p1 p2 : Process)
      → is_command_invalid client.status ≡ true
      → client_read_command (started client) command p ≡ some (c1, command1, p1)
      → client_command_process c1 command1 p1 ≡ some (c2, p2)
      → ReadUndefined c2 command1 p2
      → ReadUndefined client command p

-- The loop returns, by its test.
pub record ReadEnds (fuel : ℕ) (client : Client) (command : Bytes) (p : Process) : Type 0 where
  pub client' : Client
  pub command' : Bytes
  pub process' : Process
  pub result : read_loop fuel client command p ≡ some (client', command', process')
  pub over : is_command_invalid client'.status ≡ false

ended_at :
    (fuel : ℕ) (client : Client) (command : Bytes) (p : Process)
    → is_command_invalid client.status ≡ false
    → ReadEnds (suc fuel) client command p
ended_at fuel client command p h = record {
  client' = client;
  command' = command;
  process' = p;
  result = read_loop-done fuel client command p h;
  over = h;
}

-- A round in front of the others.
behind_line :
    (fuel : ℕ) (client c1 c2 : Client) (command command1 : Bytes) (p p1 p2 : Process)
    → is_command_invalid client.status ≡ true
    → client_read_command (started client) command p ≡ some (c1, command1, p1)
    → client_command_process c1 command1 p1 ≡ some (c2, p2)
    → ReadEnds fuel c2 command1 p2 ⊎ ReadUndefined c2 command1 p2
    → ReadEnds (suc fuel) client command p ⊎ ReadUndefined client command p
behind_line fuel client c1 c2 command command1 p p1 p2 t e1 e2 (inl r) = inl (record {
  client' = r.client';
  command' = r.command';
  process' = r.process';
  result = read_loop-more fuel client c1 c2 command command1 p p1 p2 t e1 e2 ∙ r.result;
  over = r.over;
})
behind_line fuel client c1 c2 command command1 p p1 p2 t e1 e2 (inr u) =
    inr (later c1 c2 command1 p1 p2 t e1 e2 u)

read_loop-ends :
    (f : ℕ) (client : Client) (command : Bytes) (p : Process)
    → suc (length p.stdin) < f
    → ReadEnds f client command p ⊎ ReadUndefined client command p
read_loop-ends zero client command p h = absurd (omega arith)
read_loop-ends (suc zero) client command p h = absurd (omega arith)
read_loop-ends (suc (suc f)) client command p h =
    elim (Bool-cases (is_command_invalid client.status)) [
      | inr over ↦ inl (ended_at (suc f) client command p over)
      | inl t ↦ elim (Option-cases (client_read_command (started client) command p)) [
        | inl n ↦ inr (stuck t n)
        | inr ((c1, command1, p1), e1) ↦
            elim (Option-cases (client_command_process c1 command1 p1)) [
              | inl n ↦ inr (refused c1 command1 p1 t e1 n)
              | inr ((c2, p2), e2) ↦
                  behind_line (suc f) client c1 c2 command command1 p p1 p2 t e1 e2
                    (elim (round_lem (started client) c1 c2 command command1 p p1 p2 e1 e2) [
                      | inl eof ↦ inl (ended_at f c2 command1 p2 (ap is_command_invalid eof))
                      | inr less ↦ read_loop-ends (suc f) c2 command1 p2 (omega arith)
                    ])
            ]
      ]
    ]

-- Whatever the player types, the loop that reads lines returns within two rounds more than the bytes of the
-- input, the fuel that `sudoku_play` gives it, and its last status is not CLIENT_COMMAND_INVALID; or after
-- some of its rounds the reading or the parsing of a line is undefined behaviour.
pub read_loop_lem :
    (client : Client) (command : Bytes) (p : Process)
    → ReadEnds (suc (suc (length p.stdin))) client command p ⊎ ReadUndefined client command p
read_loop_lem client command p =
    read_loop-ends (suc (suc (length p.stdin))) client command p (omega arith)

last_round :
    (f : ℕ) (c2 c : Client) (command1 command' : Bytes) (p p2 p' : Process)
    → is_command_invalid c2.status ≡ false
    → read_loop f c2 command1 p2 ≡ some (c, command', p')
    → Advances c2 p p2
    → Advances c p p'
last_round zero c2 c command1 command' p p2 p' over h a =
    absurd (ground (arith, sym (read_loop-zero c2 command1 p2) ∙ h))
last_round (suc f) c2 c command1 command' p p2 p' over h a =
    let same : some (c2, command1, p2) ≡ some (c, command', p') =
      sym (read_loop-done f c2 command1 p2 over) ∙ h in
    let same_client : c2 ≡ c = ground (arith, same) in
    let same_process : p2 ≡ p' = ground (arith, same) in
    elim a [
      | inl eof ↦ inl (sym (ap (λ x. x.status) same_client) ∙ eof)
      | inr less ↦ inr (omega (arith, less, ap (λ x. length x.stdin) same_process))
    ]

-- What the loop returns has read some input, or found its end.
pub read_loop-Advances :
    (f : ℕ) (client c : Client) (command command' : Bytes) (p p' : Process)
    → is_command_invalid client.status ≡ true
    → read_loop f client command p ≡ some (c, command', p')
    → Advances c p p'
read_loop-Advances zero client c command command' p p' t h =
    absurd (ground (arith, sym (read_loop-zero client command p) ∙ h))
read_loop-Advances (suc f) client c command command' p p' t h =
    elim (Option-cases (client_read_command (started client) command p)) [
      | inl n ↦ absurd (ground (arith, sym (read_loop-stuck f client command p t n) ∙ h))
      | inr ((c1, command1, p1), e1) ↦ elim (Option-cases (client_command_process c1 command1 p1)) [
        | inl n ↦
            absurd
              (ground (arith, sym (read_loop-refused f client c1 command command1 p p1 t e1 n) ∙ h))
        | inr ((c2, p2), e2) ↦
            (let rest : read_loop f c2 command1 p2 ≡ some (c, command', p') =
                sym (read_loop-more f client c1 c2 command command1 p p1 p2 t e1 e2) ∙ h in
              let advanced = round_lem (started client) c1 c2 command command1 p p1 p2 e1 e2 in
              elim (Bool-cases (is_command_invalid c2.status)) [
                | inl again ↦ elim (read_loop-Advances f c2 c command1 command' p2 p' again rest) [
                  | inl eof ↦ inl eof
                  | inr less ↦ inr (elim advanced [
                    | inl eof ↦ absurd (ground (arith, again, eof))
                    | inr less' ↦ omega arith
                  ])
                ]
                | inr over ↦ last_round f c2 c command1 command' p p2 p' over rest advanced
              ])
      ]
    ]
