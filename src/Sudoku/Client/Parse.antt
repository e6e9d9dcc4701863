-- ===== src/Sudoku/Client/Parse.antt =====
-- `client_command_process` of tp1_sockets/client.c: which lines become commands, and which
-- commands can come of it.
use programming_workshop.Common.{
  ℕ, ◌+◌, ◌-◌, ◌≤◌, ◌≡◌, ◌≢◌, refl, ◌⊎◌, inl, inr, false, some, [], ◌∷◌, ◌++◌, arith, >>=-eq-some,
  Bool-cases, Option-cases, Bytes, codes, bytes_eq, take, c_string, c_string-append, NoNul,
}
use programming_workshop.Common.Tokens.{strtok}
use programming_workshop.Sudoku.Socket.{Process}
use programming_workshop.Sudoku.Board.Cells.{InGrid}
use programming_workshop.Sudoku.State.{Client, command_valid}
use programming_workshop.Sudoku.Client.{
  place, digit, process_place, process_put_line, process_word, client_command_process,
  is_eof_reached,
}

-- The command can be sent: it is one of the five letters, and a 'P' has a cell and a digit.
pub record IsSendable (c : Client) : Type 0 where
  pub put_fits : c.command ≡ b'P' → InGrid c.row c.col × (c.value ≤ 9)
  pub known :
      (c.command ≡ b'P')
      ⊎ ((c.command ≡ b'V') ⊎ ((c.command ≡ b'G') ⊎ ((c.command ≡ b'R') ⊎ (c.command ≡ b'E'))))

place_lem : (t : Bytes) (r c : ℕ) → place t ≡ some (r, c) → InGrid (r - 48) (c - 48)
place_lem (a ∷ b ∷ c' ∷ d ∷ []) r c h = ground arith
place_lem [] r c h = absurd (cc)
place_lem (a ∷ []) r c h = absurd (cc)
place_lem (a ∷ b ∷ []) r c h = absurd (cc)
place_lem (a ∷ b ∷ c' ∷ []) r c h = absurd (cc)
place_lem (a ∷ b ∷ c' ∷ d ∷ x ∷ t) r c h = absurd (cc)

digit_lem : (t : Bytes) (v : ℕ) → digit t ≡ some v → v - 48 ≤ 9
digit_lem (a ∷ []) v h = ground arith
digit_lem [] v h = absurd (cc)
digit_lem (a ∷ b ∷ t) v h = absurd (cc)

process_place-IsSendable :
    (self c : Client) (rest : Bytes) (p p' : Process)
    → process_place self rest p ≡ some (c, p')
    → self.command ≡ b'P'
    → self.value ≤ 9
    → self.status ≢ command_valid
    → c.status ≡ command_valid
    → IsSendable c
unfolding process_place
process_place-IsSendable self c rest p p' h e v ne valid =
    let (w, e1, h1) = >>=-eq-some (strtok rest) _ h in
    elim (Bool-cases (bytes_eq w.0 (codes "in"))) [
      | inl t ↦
          (let (w', e2, h2) = >>=-eq-some (strtok w.1) _ (rw t at h1) in
            elim (Option-cases (place w'.0)) [
              | inl n ↦ absurd (ground arith)
              | inr ((r, k), s) ↦
                  (let grid = place_lem w'.0 r k s in
                    record { put_fits = λ x. ground arith; known = ground arith })
            ])
      | inr f ↦ absurd (ground arith)
    ]

process_put_line-IsSendable :
    (self c : Client) (rest : Bytes) (p p' : Process)
    → process_put_line self rest p ≡ some (c, p')
    → self.status ≢ command_valid
    → c.status ≡ command_valid
    → IsSendable c
unfolding process_put_line
process_put_line-IsSendable self c rest p p' h ne valid =
    let (w, e1, h1) = >>=-eq-some (strtok rest) _ h in
    elim (Option-cases (digit w.0)) [
      | inl n ↦ absurd (ground arith)
      | inr (v, s) ↦
          process_place-IsSendable (record self { command = b'P'; value = v - 48 }) c w.1 p p'
            (rw s at h1) refl (digit_lem w.0 v s) ne valid
    ]

process_word-IsSendable :
    (self c : Client) (text : Bytes) (p p' : Process)
    → process_word self text p ≡ some (c, p')
    → self.status ≢ command_valid
    → c.status ≡ command_valid
    → IsSendable c
unfolding process_word
process_word-IsSendable self c text p p' h ne valid = record {
  put_fits = λ x. absurd (ground arith);
  known = ground arith;
}

-- Whatever the line: when `client_command_process` reports CLIENT_COMMAND_VALID, the command is
-- one of the five, and a 'P' names a cell of the grid and a value up to 9.
pub client_command_process-IsSendable :
    (self c : Client) (command : Bytes) (p p' : Process)
    → client_command_process self command p ≡ some (c, p')
    → self.status ≢ command_valid
    → c.status ≡ command_valid
    → IsSendable c
unfolding client_command_process
client_command_process-IsSendable self c command p p' h ne valid =
    elim (Bool-cases (is_eof_reached self.status)) [
      | inl t ↦ absurd (ground arith)
      | inr f ↦
          (let (text, e1, h1) = >>=-eq-some (c_string command) _ (rw f at h) in
            let (w, e2, h2) = >>=-eq-some (strtok (take 19 text)) _ h1 in
            elim (Bool-cases (bytes_eq w.0 (codes "put"))) [
              | inl t ↦ process_put_line-IsSendable self c w.1 p p' (rw t at h2) ne valid
              | inr g ↦ process_word-IsSendable self c text p p' (rw g at h2) ne valid
            ])
    ]

-- The line "put v in r,c" and its newline.
abbrev pub put_line : ℕ → ℕ → ℕ → Bytes
put_line v r c = codes "put " ++ ((48 + v) ∷ codes " in " ++ ((48 + r) ∷ 44 ∷ (48 + c) ∷ 10 ∷ []))

put_tokens :
    (v r c : ℕ)
    → v ≤ 9
    → InGrid r c
    → strtok (take 19 (put_line v r c))
      ≡ some (codes "put", (48 + v) ∷ codes " in " ++ ((48 + r) ∷ 44 ∷ (48 + c) ∷ 10 ∷ []))
unfolding strtok
put_tokens v r c hv h = ground arith

put_line-NoNul : (v r c : ℕ) → NoNul (put_line v r c)
put_line-NoNul v r c = omega arith

number_token :
    (v r c : ℕ)
    → v ≤ 9
    → strtok ((48 + v) ∷ codes " in " ++ ((48 + r) ∷ 44 ∷ (48 + c) ∷ 10 ∷ []))
      ≡ some ((48 + v) ∷ [], codes "in " ++ ((48 + r) ∷ 44 ∷ (48 + c) ∷ 10 ∷ []))
unfolding strtok
number_token v r c hv = ground arith

in_token :
    (r c : ℕ)
    → strtok (codes "in " ++ ((48 + r) ∷ 44 ∷ (48 + c) ∷ 10 ∷ []))
      ≡ some (codes "in", (48 + r) ∷ 44 ∷ (48 + c) ∷ 10 ∷ [])
unfolding strtok
in_token r c = refl

place_token :
    (r c : ℕ)
    → strtok ((48 + r) ∷ 44 ∷ (48 + c) ∷ 10 ∷ []) ≡ some ((48 + r) ∷ 44 ∷ (48 + c) ∷ 10 ∷ [], [])
unfolding strtok
place_token r c = ground arith

process_place-put :
    (self : Client) (p : Process) (r c : ℕ)
    → InGrid r c
    → process_place self (codes "in " ++ ((48 + r) ∷ 44 ∷ (48 + c) ∷ 10 ∷ [])) p
      ≡ some (record self { row = r; col = c; status = command_valid }, p)
unfolding process_place bytes_eq
process_place-put self p r c h = ground (arith, in_token r c, place_token r c)

process_put_line-put :
    (self : Client) (p : Process) (v r c : ℕ)
    → v ≤ 9
    → InGrid r c
    → process_put_line self ((48 + v) ∷ codes " in " ++ ((48 + r) ∷ 44 ∷ (48 + c) ∷ 10 ∷ [])) p
      ≡ some (record { command = b'P'; row = r; col = c; value = v; status = command_valid }, p)
unfolding process_put_line
process_put_line-put self p v r c hv h =
    let ev : 48 + v - 48 ≡ v = omega arith in
    ground (
      arith,
      number_token v r c hv,
      process_place-put (record self { command = b'P'; value = 48 + v - 48 }) p r c h,
    )

-- The line "put v in r,c" in the command buffer, for a value up to 9 and a cell of the grid, is a
-- valid command with just these numbers, and nothing is printed.
pub client_command_process-put :
    (self : Client) (p : Process) (rest : Bytes) (v r c : ℕ)
    → is_eof_reached self.status ≡ false
    → v ≤ 9
    → InGrid r c
    → client_command_process self (put_line v r c ++ 0 ∷ rest) p
      ≡ some (record { command = b'P'; row = r; col = c; value = v; status = command_valid }, p)
unfolding client_command_process bytes_eq
client_command_process-put self p rest v r c open_input hv h =
    rw
      (
        open_input,
        c_string-append (put_line v r c) rest (put_line-NoNul v r c),
        put_tokens v r c hv h,
      )
      (process_put_line-put self p v r c hv h)
