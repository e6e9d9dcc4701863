-- ===== src/Ftp/Client/Exchange.antt =====
-- A client of tp3_ftp_multiclient_server that types lines and prints the answers.
use mathlib.Core.List.{append_assoc, append-nil}
use programming_workshop.Common.{
  ℕ, zero, suc, ◌<◌, ◌≡◌, refl, sym, ◌∙◌, ap, false, not, some, List, [], ◌∷◌, ◌++◌, arith,
  if◌then◌else◌, Bytes, codes, bytes_eq, length,
}
use programming_workshop.Sudoku.Socket.{Arrival, Outcome}
use programming_workshop.Sudoku.Socket.Receive.{available}
use programming_workshop.Sudoku.Socket.Send.{Accepting}
use programming_workshop.Ftp.Result.{returned, faulted, Act, pure, continue, ◌>>=◌, lift}
use programming_workshop.Ftp.Config.{split_at}
use programming_workshop.Ftp.Config.Lookup.{Lacks, split_at_lem}
use programming_workshop.Ftp.Connection.{Session, send_string, receive_string}
use programming_workshop.Ftp.Connection.Lines.{receive_string_lem}
use programming_workshop.Ftp.Connection.Sending.{send_string_lem}
use programming_workshop.Ftp.Client.{get_code, is_list_start}
use programming_workshop.Ftp.Client.Run.{
  Terminal, on_terminal, connected, print_response, left_over, get_user_input, ask, receive_list,
  receive_list_loop, run_loop,
}

abbrev after_print : ℕ → ℕ → Bytes → Act Terminal Unit
after_print fuel line response = do
  list ← lift (is_list_start response)
  if list then receive_list fuel line else pure tt

abbrev after_receive : ℕ → ℕ → Bytes → Act Terminal Unit
after_receive fuel line response = do _ ← print_response response; after_print fuel line response

-- The terminal behind a round.
abbrev asked : Terminal → List Arrival → List Outcome → Bytes → Bytes → Terminal
asked t left outs user_input response = record t {
  session = record t.session {
    arrivals = left;
    outcomes = outs;
    sent = t.session.sent ++ user_input;
  };
  stdout = t.stdout ++ (response ++ b'\n' ∷ []);
}

ask_lem :
    (fuel limit : ℕ) (user_input response rest : Bytes) (t : Terminal)
    → Lacks b'\n' response
    → length response < limit
    → is_list_start (response ++ b'\n' ∷ []) ≡ some false
    → Accepting t.session.outcomes
    → available t.session.arrivals ≡ response ++ b'\n' ∷ rest
    → (left : List Arrival) × (outs : List Outcome) × (ask fuel limit user_input t
        ≡ returned tt (asked t left outs user_input response))
      × Accepting outs
      × (available left ≡ rest)
unfolding ask
ask_lem fuel limit user_input response rest t l n plain a e =
    let (outs, r, b) = send_string_lem user_input t.session a in
    let s1 : Session = record t.session { outcomes = outs; sent = t.session.sent ++ user_input } in
    let (left, r', k) = receive_string_lem limit s1 response rest l n e in
    (
      left,
      outs,
      ap
            (λ x.
              continue
                (λ u. (do
                  response' ← connected (receive_string limit)
                  after_receive fuel limit response'))
                (on_terminal t x))
            r
          ∙ ap
              (λ x. continue (after_receive fuel limit) (on_terminal (record t { session = s1 }) x))
              r'
          ∙ ap
              (λ o.
                continue (λ list. if list then receive_list fuel limit else pure tt)
                  (lift o (asked t left outs user_input response)))
              plain,
      b,
      k,
    )

-- A line that is typed, and the answer to it, both without their newlines.
pub record Turn : Type 0 where
  pub typed : Bytes
  pub answered : Bytes

-- The line is not empty and the answer, of less than `limit` bytes, starts no list.
pub record IsTurn (limit : ℕ) (x : Turn) : Type 0 where
  pub typed_line : Lacks b'\n' x.typed
  pub typed_some : 0 < length x.typed
  pub answered_line : Lacks b'\n' x.answered
  pub answered_short : length x.answered < limit
  pub answered_plain : is_list_start (x.answered ++ b'\n' ∷ []) ≡ some false

abbrev pub AreTurns : ℕ → List Turn → Type 0
AreTurns limit [] = Unit {0}
AreTurns limit (x ∷ xs) = IsTurn limit x × AreTurns limit xs

abbrev pub typed_lines : List Turn → Bytes
typed_lines [] = []
typed_lines (x ∷ xs) = x.typed ++ b'\n' ∷ typed_lines xs

abbrev pub answered_lines : List Turn → Bytes
answered_lines [] = []
answered_lines (x ∷ xs) = x.answered ++ b'\n' ∷ answered_lines xs

get_user_input_lem :
    (line rest : Bytes) (t : Terminal)
    → Lacks b'\n' line
    → t.stdin ≡ line ++ b'\n' ∷ rest
    → get_user_input t ≡ returned (line ++ b'\n' ∷ []) (record t { stdin = rest })
unfolding get_user_input
get_user_input_lem line rest t l e =
    ap (λ x. returned (x.0 ++ b'\n' ∷ []) (record t { stdin = left_over x.1 }))
      (ap (split_at b'\n') e ∙ split_at_lem b'\n' line rest l)

abbrev loop_body : ℕ → ℕ → Bytes → Act Terminal Unit
loop_body fuel line user_input =
    if not (bytes_eq user_input (codes "\n"))
    then (do _ ← ask fuel line user_input; run_loop fuel line)
    else connected (send_string user_input)

run_loop-next :
    (fuel limit : ℕ) (user_input : Bytes) (t t1 : Terminal)
    → get_user_input t ≡ returned user_input t1
    → run_loop (suc fuel) limit t ≡ loop_body fuel limit user_input t1
unfolding run_loop
run_loop-next fuel limit user_input t t1 e = ap (continue (loop_body fuel limit)) e

some_line :
    (line : Bytes)
    → 0 < length line
    → Lacks b'\n' line
    → bytes_eq (line ++ b'\n' ∷ []) (codes "\n") ≡ false
unfolding bytes_eq
some_line [] n l = absurd (omega arith)
some_line (c ∷ line) n l = ground arith

-- The terminal behind a whole conversation.
abbrev pub finished : Terminal → List Arrival → List Outcome → List Turn → Terminal
finished t left outs turns = record t {
  session = record t.session {
    arrivals = left;
    outcomes = outs;
    sent = t.session.sent ++ (typed_lines turns ++ b'\n' ∷ []);
  };
  stdin = [];
  stdout = t.stdout ++ answered_lines turns;
}

get_user_input-end :
    (t : Terminal)
    → t.stdin ≡ []
    → get_user_input t ≡ returned (codes "\n") (record t { stdin = [] })
unfolding get_user_input split_at
get_user_input-end t e =
    ap
      (λ x.
        returned ((split_at b'\n' x).0 ++ b'\n' ∷ [])
          (record t { stdin = left_over (split_at b'\n' x).1 }))
      e

run_loop-last :
    (fuel limit : ℕ) (t : Terminal)
    → t.stdin ≡ []
    → Accepting t.session.outcomes
    → (outs : List Outcome) × (run_loop (suc fuel) limit t
        ≡ returned tt (record t {
          session = record t.session { outcomes = outs; sent = t.session.sent ++ codes "\n" };
          stdin = [];
        }))
      × Accepting outs
unfolding bytes_eq
run_loop-last fuel limit t e a =
    let (outs, r, b) = send_string_lem (codes "\n") t.session a in
    (
      outs,
      run_loop-next fuel limit (codes "\n") t (record t { stdin = [] }) (get_user_input-end t e)
          ∙ ap (on_terminal (record t { stdin = [] })) r,
      b,
    )

-- A player that types lines, none of them empty, up to the end of the input: if the answers start no
-- list, no call of send() fails, and each answer is below the bound for a line, the loop of
-- `run_client` sends each line with its newline and prints the answer, in whatever pieces the answers
-- arrive, and then sends an empty line and returns.
pub run_loop_lem :
    (turns : List Turn) (fuel limit : ℕ) (rest : Bytes) (t : Terminal)
    → AreTurns limit turns
    → length turns < fuel
    → t.stdin ≡ typed_lines turns
    → Accepting t.session.outcomes
    → available t.session.arrivals ≡ answered_lines turns ++ rest
    → (left : List Arrival) × (outs : List Outcome) × (run_loop fuel limit t
        ≡ returned tt (finished t left outs turns))
      × (available left ≡ rest)
run_loop_lem turns zero limit rest t h n i a e = absurd (omega arith)
run_loop_lem [] (suc fuel) limit rest t h n i a e =
    let (outs, r, b) = run_loop-last fuel limit t i a in
    (
      t.session.arrivals,
      outs,
      r
          ∙ ap (λ x. returned tt (record (finished t t.session.arrivals outs []) { stdout = x }))
              (sym (append-nil t.stdout)),
      e,
    )
run_loop_lem (x ∷ xs) (suc fuel) limit rest t h n i a e =
    let line : Bytes = x.typed ++ b'\n' ∷ [] in
    let t1 : Terminal = record t { stdin = typed_lines xs } in
    let arrives : available t1.session.arrivals
        ≡ x.answered ++ b'\n' ∷ (answered_lines xs ++ rest) =
      e ∙ append_assoc x.answered (b'\n' ∷ answered_lines xs) rest in
    let (left1, outs1, r1, b1, k1) =
      ask_lem fuel limit line x.answered (answered_lines xs ++ rest) t1 h.0.answered_line
        h.0.answered_short h.0.answered_plain a arrives in
    let t2 = asked t1 left1 outs1 line x.answered in
    let (left, outs, r2, k2) = run_loop_lem xs fuel limit rest t2 h.1 (omega arith) refl b1 k1 in
    (
      left,
      outs,
      run_loop-next fuel limit line t t1
            (get_user_input_lem x.typed (typed_lines xs) t h.0.typed_line i)
          ∙ ap
              (λ q.
                (if not q
                    then (do _ ← ask fuel limit line; run_loop fuel limit)
                    else connected (send_string line))
                  t1)
              (some_line x.typed h.0.typed_some h.0.typed_line)
          ∙ ap (continue (λ u. run_loop fuel limit)) r1
          ∙ r2
          ∙ ap
              (λ y. returned tt (record (finished t2 left outs xs) {
                session = record (finished t2 left outs xs).session { sent = y };
              }))
              (append_assoc t.session.sent line (typed_lines xs ++ b'\n' ∷ [])
                ∙ ap (λ z. t.session.sent ++ z)
                    (append_assoc x.typed (b'\n' ∷ []) (typed_lines xs ++ b'\n' ∷ [])
                      ∙ sym (append_assoc x.typed (b'\n' ∷ typed_lines xs) (b'\n' ∷ []))))
          ∙ ap (λ y. returned tt (record (finished t left outs (x ∷ xs)) { stdout = y }))
              (append_assoc t.stdout (x.answered ++ b'\n' ∷ []) (answered_lines xs)
                ∙ ap (λ z. t.stdout ++ z)
                    (append_assoc x.answered (b'\n' ∷ []) (answered_lines xs))),
      k2,
    )

-- `receive_list` never receives a list: its loop starts by reading the second byte of an empty
-- string, which is undefined.
pub receive_list-faulted : (fuel limit : ℕ) (t : Terminal) → receive_list fuel limit t ≡ faulted
unfolding receive_list receive_list_loop get_code
receive_list-faulted zero limit t = refl
receive_list-faulted (suc fuel) limit t = refl
