-- ===== src/Sudoku/Game/Play.antt =====
-- The outer loop of `sudoku_play` in tp1_sockets/sudoku.c: its fuel is enough.
use programming_workshop.Common.{
  ℕ, zero, suc, ◌<◌, ◌≡◌, ◌≢◌, refl, ◌∙◌, ap, ◌⊎◌, inl, inr, true, false, ◌||◌, Option, none, some,
  [], ◌∷◌, arith, leb, ◌==◌, >>=-eq-some, Bool-cases, Option-cases, Bytes, length, replicate,
  c_string,
}
use programming_workshop.Common.Int.{ℤ, pos, negsuc, ◌-ℤ◌, is_zero}
use programming_workshop.Common.Decimal.{atoi}
use programming_workshop.Sudoku.Socket.{Process, skt_send, skt_receive, send_loop, receive_loop}
use programming_workshop.Sudoku.Socket.Setup.{skt_destroy}
use programming_workshop.Sudoku.Board.{store}
use programming_workshop.Sudoku.State.{Client, eof_reached, command_invalid}
use programming_workshop.Sudoku.Protocol.{protocol_send_command, protocol_receive_string}
use programming_workshop.Sudoku.Client.{client_send_command, client_receive_string, is_eof_reached}
use programming_workshop.Sudoku.Game.{
  Playing, play_command, play_loop, read_loop, is_command_valid, is_endgame,
}
use programming_workshop.Sudoku.Game.Input.{ReadUndefined, read_loop_lem, read_loop-Advances}

skt_send-stdin :
    (p p' : Process) (len : ℕ) (buf : Bytes) → skt_send p len buf ≡ some p' → p'.stdin ≡ p.stdin
unfolding skt_send
skt_send-stdin p p' len buf h = elim (Bool-cases (leb len (length buf))) [
  | inl t ↦
      (let (r, e, h1) = >>=-eq-some (send_loop (suc len) len 0 p.outcomes) _ (rw t at h) in
        ground arith)
  | inr f ↦ absurd (ground arith)
]

skt_receive-stdin :
    (p p' : Process) (len n : ℤ) (buf buf' : Bytes)
    → skt_receive p len buf ≡ some (n, p', buf')
    → p'.stdin ≡ p.stdin
unfolding skt_receive
skt_receive-stdin p p' (pos len) n buf buf' h =
    let (r, e, h1) = >>=-eq-some (receive_loop (suc len) len 0 p.arrivals buf) _ h in ground arith
skt_receive-stdin p p' (negsuc len) n buf buf' h = ground arith

client_send_command-stdin :
    (p p' : Process) (c : Client) → client_send_command c p ≡ some p' → p'.stdin ≡ p.stdin
unfolding client_send_command protocol_send_command
client_send_command-stdin p p' c h =
    let (p1, e1, h1) = >>=-eq-some (skt_send p 1 (c.command ∷ [])) _ h in
    let s1 = skt_send-stdin p p1 1 (c.command ∷ []) e1 in
    elim (Bool-cases (c.command == b'P')) [
      | inl t ↦
          (let (p2, e2, h2) = >>=-eq-some (skt_send p1 1 (c.row ∷ [])) _ (rw t at h1) in
            let (p3, e3, h3) = >>=-eq-some (skt_send p2 1 (c.col ∷ [])) _ h2 in
            skt_send-stdin p3 p' 1 (c.value ∷ []) h3
            ∙ skt_send-stdin p2 p3 1 (c.col ∷ []) e3
            ∙ skt_send-stdin p1 p2 1 (c.row ∷ []) e2
            ∙ s1)
      | inr f ↦ ground arith
    ]

client_receive_string-stdin :
    (p p' : Process) (buf buf' : Bytes)
    → client_receive_string p buf ≡ some (p', buf')
    → p'.stdin ≡ p.stdin
unfolding client_receive_string protocol_receive_string
client_receive_string-stdin p p' buf buf' h =
    let ((n, p1, header), e1, h1) = >>=-eq-some (skt_receive p (pos 3) (replicate 4 0)) _ h in
    let s1 = skt_receive-stdin p p1 (pos 3) n (replicate 4 0) header e1 in
    let (s, e2, h2) = >>=-eq-some (c_string header) _ h1 in
    elim (Bool-cases (is_zero (atoi s))) [
      | inl t ↦ ground arith
      | inr f ↦
          (let ((m, p2, received1), e3, h3) =
              >>=-eq-some (skt_receive p1 (atoi s) buf) _ (rw f at h2) in
            let s2 = skt_receive-stdin p1 p2 (atoi s) m buf received1 e3 in
            let (received2, e4, h4) = >>=-eq-some (store received1 (atoi s -ℤ pos 1) 0) _ h3 in
            let (text, e5, h5) = >>=-eq-some (c_string received2) _ h4 in ground arith)
    ]

-- What the tests behind the inner loop do: the input stays, and its end ends the game.
play_command_lem :
    (s s' : Playing)
    → play_command s ≡ some s'
    → (s'.process.stdin ≡ s.process.stdin)
      × (s.client.status ≡ eof_reached → is_endgame s'.client.status ≡ true)
unfolding play_command skt_destroy
play_command_lem s s' h =
    elim (Bool-cases (s.client.command == b'E' || is_eof_reached s.client.status)) [
      | inl t ↦ (ground (arith, rw t at h), λ e. ground (arith, rw t at h))
      | inr f ↦
          (let going : s.client.status ≢ eof_reached = λ e. ground (arith, f, e) in
            elim (Bool-cases (is_command_valid s.client.status)) [
              | inr g ↦ (ground (arith, rw (f, g) at h), λ e. absurd (going e))
              | inl g ↦
                  (let (p1, e1, h1) =
                      >>=-eq-some (client_send_command s.client s.process) _ (rw (f, g) at h) in
                    let ((p2, received), e2, h2) =
                      >>=-eq-some (client_receive_string p1 s.received) _ h1 in
                    let sent = client_send_command-stdin s.process p1 s.client e1 in
                    let got = client_receive_string-stdin p1 p2 s.received received e2 in
                    (ground arith, λ e. absurd (going e)))
            ])
    ]

-- One reading of a command, from the state of the outer loop.
abbrev reading : Playing → Option (Client × Bytes × Process)
reading s =
    read_loop (suc (suc (length s.process.stdin))) (record s.client { status = command_invalid })
      s.client_command s.process

abbrev with_reading : Playing → Client → Bytes → Process → Playing
with_reading s client command p = record s {
  client = client;
  client_command = command;
  process = p;
}

play_loop-done :
    (fuel : ℕ) (s : Playing) → is_endgame s.client.status ≡ true → play_loop (suc fuel) s ≡ some s
unfolding play_loop
play_loop-done fuel s h = ground (arith, h)

play_loop-more :
    (fuel : ℕ) (s s' : Playing) (client : Client) (command : Bytes) (p : Process)
    → is_endgame s.client.status ≡ false
    → reading s ≡ some (client, command, p)
    → play_command (with_reading s client command p) ≡ some s'
    → play_loop (suc fuel) s ≡ play_loop fuel s'
unfolding play_loop
play_loop-more fuel s s' client command p h e e' = ground (arith, h, e, e')

-- Undefined behaviour of the game: after some of its rounds a line is read or parsed by undefined behaviour,
-- or the tests behind the inner loop meet it.
pub data PlayUndefined : Playing → Type 0 where
  reads :
      {s : Playing}
      → is_endgame s.client.status ≡ false
      → ReadUndefined (record s.client { status = command_invalid }) s.client_command s.process
      → PlayUndefined s
  answers :
      {s : Playing} (client : Client) (command : Bytes) (p : Process)
      → is_endgame s.client.status ≡ false
      → reading s ≡ some (client, command, p)
      → play_command (with_reading s client command p) ≡ none
      → PlayUndefined s
  later :
      {s : Playing} (client : Client) (command : Bytes) (p : Process) (s' : Playing)
      → is_endgame s.client.status ≡ false
      → reading s ≡ some (client, command, p)
      → play_command (with_reading s client command p) ≡ some s'
      → PlayUndefined s'
      → PlayUndefined s

-- The loop returns, by its test.
pub record PlayEnds (fuel : ℕ) (s : Playing) : Type 0 where
  pub last : Playing
  pub result : play_loop fuel s ≡ some last
  pub over : is_endgame last.client.status ≡ true

ended_at : (fuel : ℕ) (s : Playing) → is_endgame s.client.status ≡ true → PlayEnds (suc fuel) s
ended_at fuel s h = record { last = s; result = play_loop-done fuel s h; over = h }

-- A round in front of the others.
behind_command :
    (fuel : ℕ) (s s' : Playing) (client : Client) (command : Bytes) (p : Process)
    → is_endgame s.client.status ≡ false
    → reading s ≡ some (client, command, p)
    → play_command (with_reading s client command p) ≡ some s'
    → PlayEnds fuel s' ⊎ PlayUndefined s'
    → PlayEnds (suc fuel) s ⊎ PlayUndefined s
behind_command fuel s s' client command p go e e' (inl r) = inl (record {
  last = r.last;
  result = play_loop-more fuel s s' client command p go e e' ∙ r.result;
  over = r.over;
})
behind_command fuel s s' client command p go e e' (inr u) =
    inr (later client command p s' go e e' u)

play_loop-ends :
    (f : ℕ) (s : Playing) → suc (length s.process.stdin) < f → PlayEnds f s ⊎ PlayUndefined s
play_loop-ends zero s h = absurd (omega arith)
play_loop-ends (suc zero) s h = absurd (omega arith)
play_loop-ends (suc (suc f)) s h =
    let invalid : Client = record s.client { status = command_invalid } in
    elim (Bool-cases (is_endgame s.client.status)) [
      | inl t ↦ inl (ended_at (suc f) s t)
      | inr go ↦ elim (read_loop_lem invalid s.client_command s.process) [
        | inr u ↦ inr (reads go u)
        | inl r ↦
            elim (Option-cases (play_command (with_reading s r.client' r.command' r.process'))) [
              | inl n ↦ inr (answers r.client' r.command' r.process' go r.result n)
              | inr (s', e') ↦
                  (let (same, ends) =
                      play_command_lem (with_reading s r.client' r.command' r.process') s' e' in
                    behind_command (suc f) s s' r.client' r.command' r.process' go r.result e'
                      (elim (read_loop-Advances (suc (suc (length s.process.stdin))) invalid
                        r.client' s.client_command r.command' s.process r.process' refl r.result) [
                          | inl eof ↦ inl (ended_at f s' (ends eof))
                          | inr less ↦
                              play_loop-ends (suc f) s' (omega (arith, h, less, ap length same))
                        ]))
            ]
      ]
    ]

-- Whatever the player types and whatever the server answers, the outer loop of the client returns within two
-- rounds more than the bytes of the input, the fuel that `sudoku_play` gives it, with CLIENT_ENDGAME for a
-- status; or after some of its rounds the reading of a command, or what is done with it, is undefined
-- behaviour.
pub play_loop_lem :
    (s : Playing) → PlayEnds (suc (suc (length s.process.stdin))) s ⊎ PlayUndefined s
play_loop_lem s = play_loop-ends (suc (suc (length s.process.stdin))) s (omega arith)
