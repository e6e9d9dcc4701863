-- ===== src/Ftp/Server/Conversation/Served.antt =====
-- The thread of a client, `respond_client` of tp3_ftp_multiclient_server/common_server.cpp, keeps the
-- promised conversation.
use mathlib.Core.List.{append_assoc, append-nil}
use programming_workshop.Common.{
  ℕ, zero, suc, ◌≤◌, ◌≡◌, ◌≢◌, refl, sym, ◌∙◌, ap, inl, inr, true, false, some, List, [], ◌∷◌, ◌++◌,
  arith, if◌then◌else◌, Bool-cases, Bytes, codes, ltb, length, length-append,
}
use programming_workshop.Sudoku.Socket.{Arrival}
use programming_workshop.Sudoku.Socket.Receive.{available}
use programming_workshop.Sudoku.Socket.Send.{Accepting}
use programming_workshop.Ftp.Result.{Result, returned, Act, continue, lift}
use programming_workshop.Ftp.Directories.{Directories, contains}
use programming_workshop.Ftp.Config.{ConfigMap}
use programming_workshop.Ftp.Connection.{Session, send_string}
use programming_workshop.Ftp.Connection.Lines.{receive_string_lem}
use programming_workshop.Ftp.Connection.Sending.{send_string_lem}
use programming_workshop.Ftp.Command.{
  Command, user_command, pass_command, syst_command, list_command, help_command, pwd_command,
  mkd_command, rmd_command, quit_command, invalid_command, cmd_mkd, cmd_quit, create_command,
}
use programming_workshop.Ftp.Command.Named.{
  create_command-total, create_command-mkd, create_command-quit,
}
use programming_workshop.Ftp.Server.Loop.{round, client_loop-round, client_loop-quit}
use programming_workshop.Ftp.Server.{
  handle, set_client, send_response, respond_query, send_hello, client_loop, caught, respond_client,
}
use programming_workshop.Ftp.Server.Promised.{HasTexts, HasName, replied, IsAnswered, coded}
use programming_workshop.Ftp.Server.Promised.Commands.{send_response-IsAnswered}
use programming_workshop.Ftp.Server.Conversation.{
  Conversation, hung_up, last_answer, next_answer, IsQuery, AreQueries, all_lines, quit-Reply,
  named-Reply,
}

-- A call has sent what the conversation promises, and its state is the promised one.
pub record IsServed (texts : Bytes → Bytes) (qs : List Bytes) (s : Session) (hello : Bytes)
    (r : Result Session Unit) : Type 0 where
  pub final : Session
  pub text : Bytes
  pub conversation :
      Conversation texts s.client s.directories qs text final.client final.directories
  pub result : r ≡ returned tt final
  pub sends : final.sent ≡ s.sent ++ (hello ++ text)

abbrev leave : Act Session Unit
leave = set_client (λ c. record c { quit = true })

handle-query :
    (cfg : ConfigMap) (q : Bytes) (cmd : Command) (s : Session)
    → q ≢ []
    → create_command (q ++ b'\n' ∷ []) ≡ some cmd
    → handle cfg (q ++ b'\n' ∷ []) s ≡ send_response cfg cmd s
unfolding respond_query
handle-query cfg [] cmd s h e = absurd (h refl)
handle-query cfg (x ∷ q) cmd s h e =
    let longer : ltb 1 (length ((x ∷ q) ++ b'\n' ∷ [])) ≡ true =
      ground (arith, length-append q (b'\n' ∷ [])) in
    ap (λ b. (if b then respond_query cfg ((x ∷ q) ++ b'\n' ∷ []) else leave) s) longer
    ∙ ap (λ o. continue (send_response cfg) (lift o s)) e

-- A bare MKD apart, a command names its directory if no directory has the empty name.
command-HasName :
    (q : Bytes) (cmd : Command) (ds : Directories)
    → q ≢ cmd_mkd
    → create_command (q ++ b'\n' ∷ []) ≡ some cmd
    → contains [] ds ≡ false
    → HasName ds cmd
command-HasName q (mkd_command d) ds bare e h = inl (create_command-mkd q b'\n' d bare e)
command-HasName q (rmd_command []) ds bare e h = inr h
command-HasName q (rmd_command (x ∷ d)) ds bare e h = inl (λ z. ground (arith, z))
command-HasName q (user_command _) ds bare e h = tt {0}
command-HasName q (pass_command _) ds bare e h = tt {0}
command-HasName q syst_command ds bare e h = tt {0}
command-HasName q list_command ds bare e h = tt {0}
command-HasName q help_command ds bare e h = tt {0}
command-HasName q pwd_command ds bare e h = tt {0}
command-HasName q quit_command ds bare e h = tt {0}
command-HasName q invalid_command ds bare e h = tt {0}

quit_line :
    (q : Bytes) (cmd : Command)
    → q ≡ cmd_quit
    → create_command (q ++ b'\n' ∷ []) ≡ some cmd
    → cmd ≡ quit_command
quit_line q cmd z e =
    let same : some quit_command ≡ some cmd =
      sym create_command-quit ∙ ap (λ w. create_command (w ++ b'\n' ∷ [])) (sym z) ∙ e in
    ground (arith, same)

module _ (cfg : ConfigMap) (texts : Bytes → Bytes) (t : HasTexts cfg texts) (limit : ℕ) where
  -- One line that is not empty: what is left to do behind its answer.
  client_loop_step :
      (fuel : ℕ) (q later : Bytes) (s : Session)
      → q ≢ []
      → IsQuery limit q
      → s.client.quit ≡ false
      → contains [] s.directories ≡ false
      → Accepting s.outcomes
      → available s.arrivals ≡ q ++ b'\n' ∷ later
      → (cmd : Command) × (left : List Arrival) × (a : IsAnswered texts cmd
          (record s { arrivals = left })
          (send_response cfg cmd (record s { arrivals = left })))
        × (create_command (q ++ b'\n' ∷ []) ≡ some cmd)
        × (available left ≡ later)
        × (client_loop (suc fuel) limit cfg s
            ≡ client_loop fuel limit cfg
                (replied (record s { arrivals = left }) a.left a.text a.client a.directories))
  client_loop_step fuel q later s more query going named a e =
      let (left, r, rest) = receive_string_lem limit s q later query.line query.short e in
      let s1 : Session = record s { arrivals = left } in
      let (cmd, is_cmd) = create_command-total q b'\n' in
      let done : IsAnswered texts cmd s1 (send_response cfg cmd s1) =
        send_response-IsAnswered cfg texts cmd s1 t a
          (command-HasName q cmd s.directories query.named is_cmd named) in
      (
        cmd,
        left,
        done,
        is_cmd,
        rest,
        client_loop-round fuel limit cfg s going
            ∙ ap (continue (round fuel limit cfg)) r
            ∙ ap (continue (λ u. client_loop fuel limit cfg))
                (handle-query cfg q cmd s1 more is_cmd ∙ done.result),
      )

  client_loop_lem :
      (qs : List Bytes) (fuel : ℕ) (later : Bytes) (s : Session)
      → AreQueries limit qs
      → length qs ≤ fuel
      → s.client.quit ≡ false
      → contains [] s.directories ≡ false
      → Accepting s.outcomes
      → available s.arrivals ≡ all_lines qs ++ later
      → IsServed texts qs s [] (client_loop fuel limit cfg s)
  client_loop_lem [] fuel later s qs n going named a e = absurd qs
  client_loop_lem (q ∷ qs) zero later s are n going named a e = absurd (ground (arith, n))
  client_loop_lem ([] ∷ qs) (suc fuel) later s are n going named a e =
      let (left, r, rest) =
        receive_string_lem limit s [] (all_lines qs ++ later) are.0.line are.0.short e in
      record {
        final = record s { client = record s.client { quit = true }; arrivals = left };
        text = [];
        conversation = hung_up s.client s.directories qs;
        result =
            client_loop-round fuel limit cfg s going
            ∙ ap (continue (round fuel limit cfg)) r
            ∙ client_loop-quit fuel limit cfg
                (record s { client = record s.client { quit = true }; arrivals = left }) refl;
        sends = sym (append-nil s.sent);
      }
  client_loop_lem ((x ∷ q') ∷ qs) (suc fuel) later s are n going named a e =
      let q : Bytes = x ∷ q' in
      let more : q ≢ [] = λ z. ground (arith, z) in
      let (cmd, left, done, is_cmd, rest, goes_on) =
        client_loop_step fuel q (all_lines qs ++ later) s more are.0 going named a
          (e ∙ append_assoc q (b'\n' ∷ all_lines qs) later) in
      let s1 : Session =
        replied (record s { arrivals = left }) done.left done.text done.client done.directories in
      elim (Bool-cases done.client.quit) [
        | inl over ↦ record {
          final = s1;
          text = done.text;
          conversation =
              last_answer s.client done.client s.directories done.directories q qs cmd done.text
                more is_cmd done.reply over;
          result = goes_on ∙ client_loop-quit fuel limit cfg s1 over;
          sends = refl;
        }
        | inr on ↦
            (let still : AreQueries limit qs = elim are.1 [
              | inr others ↦ others
              | inl (inl z) ↦ absurd (more z)
              | inl (inr z) ↦
                  absurd (ground (arith, on, quit-Reply done.reply (quit_line q cmd z is_cmd)))
            ] in
              let served =
                client_loop_lem qs fuel later s1 still (ground (arith, n)) on
                  (named-Reply done.reply named) done.accepting rest in
              record {
                final = served.final;
                text = done.text ++ served.text;
                conversation =
                    next_answer s.client done.client served.final.client s.directories
                      done.directories served.final.directories q qs cmd done.text served.text more
                      is_cmd done.reply on served.conversation;
                result = goes_on ∙ served.result;
                sends = served.sends ∙ append_assoc s.sent done.text served.text;
              })
      ]

-- The thread of a client whose `quit` is not set, while no directory has the empty name. If the
-- configuration has the texts, no call of send() fails, and the client sends lines of less than `limit`
-- bytes, none a bare MKD and some empty or the word QUIT, in whatever pieces they arrive, then with one
-- round for each line the thread returns. It has sent the greeting and behind it exactly what the
-- conversation promises, and leaves the client and the directories as promised.
pub respond_client-IsServed :
    (cfg : ConfigMap) (texts : Bytes → Bytes) (limit fuel : ℕ) (qs : List Bytes) (later : Bytes)
    (s : Session)
    → HasTexts cfg texts
    → AreQueries limit qs
    → length qs ≤ fuel
    → s.client.quit ≡ false
    → contains [] s.directories ≡ false
    → Accepting s.outcomes
    → available s.arrivals ≡ all_lines qs ++ later
    → IsServed texts qs s
        (coded (codes "220") (texts (codes "newClient")))
        (respond_client fuel limit cfg s)
unfolding respond_client send_hello
respond_client-IsServed cfg texts limit fuel qs later s t are n going named a e =
    let hello : Bytes = coded (codes "220") (texts (codes "newClient")) in
    let (left, r, b) = send_string_lem hello s a in
    let s1 : Session = record s { outcomes = left; sent = s.sent ++ hello } in
    let served = client_loop_lem cfg texts t limit qs fuel later s1 are n going named b e in
    record {
      final = served.final;
      text = served.text;
      conversation = served.conversation;
      result =
          ap
            (λ o. caught (
              continue (λ u. client_loop fuel limit cfg)
                (continue (λ text. send_string (codes "220 " ++ text)) (lift o s))))
            t.new_client
          ∙ ap (λ x. caught (continue (λ u. client_loop fuel limit cfg) x)) r
          ∙ ap caught served.result;
      sends = served.sends ∙ append_assoc s.sent hello served.text;
    }
