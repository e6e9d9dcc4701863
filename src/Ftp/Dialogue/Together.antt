-- ===== src/Ftp/Dialogue/Together.antt =====
-- The server and the client of tp3_ftp_multiclient_server on one connection.
use mathlib.Core.List.{append_assoc, append-nil}
use programming_workshop.Common.{
  ℕ, suc, ◌+◌, ◌≤◌, ◌<◌, ◌≡◌, ◌≢◌, refl, sym, ◌∙◌, ap, inl, inr, false, some, List, [], ◌∷◌, ◌++◌,
  arith, Bytes, codes, bytes_eq, length, length-append, All,
}
use programming_workshop.Common.Int.{ℤ}
use programming_workshop.Sudoku.Socket.Receive.{available}
use programming_workshop.Sudoku.Socket.Send.{Accepting}
use programming_workshop.Sudoku.Socket.Setup.{Network}
use programming_workshop.Ftp.Result.{Result, returned, threw, faulted, unfinished}
use programming_workshop.Ftp.Directories.{Directories, contains}
use programming_workshop.Ftp.Config.{ConfigMap}
use programming_workshop.Ftp.Connection.{Client, Session}
use programming_workshop.Ftp.Command.{Command, list_command, quit_command, create_command}
use programming_workshop.Ftp.Command.Named.{create_command-NameLacks}
use programming_workshop.Ftp.Server.{respond_client}
use programming_workshop.Ftp.Server.Promised.{
  HasTexts, Reply, asked_password, logged_in, failed_login, refused_guest, told_system,
  told_commands, told_directory, listed, made, not_made, removed, not_removed, took_leave, unknown,
  coded,
}
use programming_workshop.Ftp.Server.Conversation.{
  Conversation, hung_up, last_answer, next_answer, IsQuery, AreQueries, all_lines,
}
use programming_workshop.Ftp.Server.Conversation.Served.{respond_client-IsServed}
use programming_workshop.Ftp.Socket.{not_connected}
use programming_workshop.Ftp.Client.Exchange.{Turn, AreTurns, typed_lines, answered_lines}
use programming_workshop.Ftp.Client.Program.{ClientProcess, Connects, run_client, run_client_lem}
use programming_workshop.Ftp.Dialogue.{IsLine, IsAnswer, coded-IsAnswer, Reply-IsAnswer}

-- Only the answer to QUIT ends the session.
stays-Reply :
    {texts : Bytes → Bytes} {c c1 : Client} {ds ds1 : Directories} {cmd : Command} {text : Bytes}
    → Reply texts c ds cmd text c1 ds1
    → cmd ≢ quit_command
    → c1.quit ≡ c.quit
stays-Reply took_leave other = absurd (other refl)
stays-Reply (asked_password _) other = refl
stays-Reply (logged_in _ _ _) other = refl
stays-Reply (failed_login _ _) other = refl
stays-Reply (refused_guest _ _ _) other = refl
stays-Reply (told_system _) other = refl
stays-Reply (told_commands _) other = refl
stays-Reply (told_directory _) other = refl
stays-Reply (listed _) other = refl
stays-Reply (made _ _ _ _ _ _) other = refl
stays-Reply (not_made _ _ _) other = refl
stays-Reply (removed _ _ _ _ _ _) other = refl
stays-Reply (not_removed _ _ _) other = refl
stays-Reply unknown other = refl

-- A line of the player that is not empty, no bare MKD, and is read neither as LIST nor as QUIT.
pub record IsTyped (limit : ℕ) (q : Bytes) : Type 0 where
  pub query : IsQuery limit q
  pub some_text : q ≢ []
  pub no_list : create_command (q ++ b'\n' ∷ []) ≢ some list_command
  pub no_quit : create_command (q ++ b'\n' ∷ []) ≢ some quit_command

-- The answers, one line for each line of the player.
record IsExchanged (qs : List Bytes) (text : Bytes) : Type 0 where
  turns : List Turn
  typed : typed_lines turns ≡ all_lines qs
  answered : answered_lines turns ≡ text
  each : (limit : ℕ) → length text < limit → AreTurns limit turns
  count : length turns ≡ length qs

not_empty : (q : Bytes) → q ≢ [] → 0 < length q
not_empty [] h = absurd (h refl)
not_empty (x ∷ q) h = omega arith

next-IsExchanged :
    (limit : ℕ) (q : Bytes) (qs : List Bytes) (text later : Bytes)
    → IsTyped limit q
    → IsAnswer text
    → IsExchanged qs later
    → IsExchanged (q ∷ qs) (text ++ later)
next-IsExchanged limit q qs text later t a x = record {
  turns = record { typed = q; answered = a.body } ∷ x.turns;
  typed = ap (λ z. q ++ b'\n' ∷ z) x.typed;
  answered =
      ap (λ z. a.body ++ b'\n' ∷ z) x.answered
      ∙ sym (append_assoc a.body (b'\n' ∷ []) later)
      ∙ ap (λ z. z ++ later) (sym a.same);
  each = λ bound n.
      let size : length text + length later < bound = omega (arith, n, length-append text later) in
      let inner : length text ≡ length a.body + 1 =
        ap length a.same ∙ length-append a.body (b'\n' ∷ []) in
      (
        record {
          typed_line = t.query.line;
          typed_some = not_empty q t.some_text;
          answered_line = a.line;
          answered_short = omega (arith, size, inner);
          answered_plain = a.plain;
        },
        x.each bound (omega (arith, size)),
      );
  count = ap suc x.count;
}

Conversation-IsExchanged :
    {texts : Bytes → Bytes} {c c' : Client} {ds ds' : Directories} {text : Bytes} (limit : ℕ)
    (qs : List Bytes)
    → ((key : Bytes) → IsLine (texts key))
    → All (IsTyped limit) qs
    → c.quit ≡ false
    → Conversation texts c ds (qs ++ [] ∷ []) text c' ds'
    → IsExchanged qs text
Conversation-IsExchanged limit [] lines h on (hung_up _ _ _) = record {
  turns = [];
  typed = refl;
  answered = refl;
  each = λ bound n. tt {0};
  count = refl;
}
Conversation-IsExchanged limit [] lines h on (last_answer _ _ _ _ _ _ _ _ some_text _ _ _) =
    absurd (some_text refl)
Conversation-IsExchanged limit [] lines h on (next_answer _ _ _ _ _ _ _ _ _ _ _ some_text _ _ _ _) =
    absurd (some_text refl)
Conversation-IsExchanged limit (q ∷ qs) lines h on (hung_up _ _ _) = absurd (h.0.some_text refl)
Conversation-IsExchanged limit (q ∷ qs) lines h on
      (last_answer _ _ _ _ _ _ cmd text some_text is_cmd reply over) =
    absurd (ground (arith, on, over, stays-Reply reply (λ z. h.0.no_quit (is_cmd ∙ ap some z))))
Conversation-IsExchanged limit (q ∷ qs) lines h on
      (next_answer _ _ _ _ _ _ _ _ cmd text later some_text is_cmd reply goes_on rest) =
    next-IsExchanged limit q qs text later h.0
      (Reply-IsAnswer lines
        (create_command-NameLacks q b'\n' cmd (λ z. ground (arith, z)) h.0.query.line is_cmd)
        (λ z. h.0.no_list (is_cmd ∙ ap some z)) reply)
      (Conversation-IsExchanged limit qs lines h.1 goes_on rest)

IsTyped-AreQueries :
    (limit : ℕ) (qs : List Bytes)
    → 0 < limit
    → All (IsTyped limit) qs
    → AreQueries limit (qs ++ [] ∷ [])
IsTyped-AreQueries limit [] n h =
    (record { line = tt {0}; short = n; named = λ z. ground (arith, z) }, inl (inl refl))
IsTyped-AreQueries limit (q ∷ qs) n h = (h.0.query, inr (IsTyped-AreQueries limit qs n h.1))

length-end : (qs : List Bytes) → length (qs ++ [] ∷ []) ≤ suc (length qs)
length-end qs = omega (arith, length-append qs ([] ∷ []))

all_lines-end : (qs : List Bytes) → all_lines (qs ++ [] ∷ []) ≡ all_lines qs ++ b'\n' ∷ []
all_lines-end [] = refl
all_lines-end (q ∷ qs) =
    ap (λ z. q ++ b'\n' ∷ z) (all_lines-end qs)
    ∙ sym (append_assoc q (b'\n' ∷ all_lines qs) (b'\n' ∷ []))

-- What has been sent when a call is over.
abbrev pub sent_by : {A : Type 0} → Result Session A → Bytes
sent_by (returned a s) = s.sent
sent_by (threw m s) = s.sent
sent_by faulted = []
sent_by unfinished = []

-- A player who types lines, none empty, none a bare MKD and none LIST or QUIT, on a connection between the
-- client and the server: no call of send() fails, the configuration has the texts and each is a line, and
-- no directory has the empty name at the start. If what the server has been sent is what the player types
-- and an empty line, and what the client receives is what the server's thread sends, both in whatever pieces,
-- then with one round more than lines the thread returns and `run_client` returns, has printed all that
-- the server sent, and has sent just what the server was taken to be sent.
pub dialogue_lem :
    (cfg : ConfigMap) (texts : Bytes → Bytes) (limit : ℕ) (qs : List Bytes) (s : Session)
    (hostname port : Bytes) (n : Network) (down : ℤ) (p : ClientProcess)
    → HasTexts cfg texts
    → ((key : Bytes) → IsLine (texts key))
    → 0 < limit
    → All (IsTyped limit) qs
    → s.client.quit ≡ false
    → contains [] s.directories ≡ false
    → Accepting s.outcomes
    → s.sent ≡ []
    → available s.arrivals ≡ all_lines (qs ++ [] ∷ [])
    → Connects n down hostname port
    → p.socket ≡ not_connected
    → p.terminal.stdin ≡ all_lines qs
    → Accepting p.terminal.session.outcomes
    → available p.terminal.session.arrivals ≡ sent_by (respond_client (suc (length qs)) limit cfg s)
    → (final : Session) × (p' : ClientProcess) × (respond_client (suc (length qs)) limit cfg s
        ≡ returned tt final)
      × (run_client n down (suc (length qs)) (suc (length final.sent)) hostname port p
          ≡ returned tt p')
      × (p'.terminal.stdout ≡ p.terminal.stdout ++ final.sent)
      × (p'.terminal.session.sent ≡ p.terminal.session.sent ++ all_lines (qs ++ [] ∷ []))
unfolding bytes_eq
dialogue_lem cfg texts limit qs s hostname port n down p t lines pos_limit typed on named a fresh e
      link start stdin b back =
    let served =
      respond_client-IsServed cfg texts limit (suc (length qs)) (qs ++ [] ∷ []) [] s t
        (IsTyped-AreQueries limit qs pos_limit typed) (length-end qs) on named a
        (e ∙ sym (append-nil (all_lines (qs ++ [] ∷ [])))) in
    let x = Conversation-IsExchanged limit qs lines typed on served.conversation in
    let hello =
      coded-IsAnswer b'2' b'2' b'0' (texts (codes "newClient")) refl (lines (codes "newClient")) in
    let final : Session = served.final in
    let sent : final.sent ≡ (hello.body ++ b'\n' ∷ []) ++ answered_lines x.turns =
      served.sends
      ∙ ap (λ z. z ++ (coded (codes "220") (texts (codes "newClient")) ++ served.text)) fresh
      ∙ ap (λ z. z ++ served.text) hello.same
      ∙ ap (λ z. (hello.body ++ b'\n' ∷ []) ++ z) (sym x.answered) in
    let size : length final.sent ≡ (length hello.body + 1) + length served.text = omega (
      arith,
      ap length sent,
      length-append (hello.body ++ b'\n' ∷ []) (answered_lines x.turns),
      length-append hello.body (b'\n' ∷ []),
      ap length x.answered,
    ) in
    let (_, _, p', r, _, out, gone) =
      run_client_lem x.turns (suc (length qs)) (suc (length final.sent)) hello.body [] hostname port
        n down p link start hello.line (omega (arith, size))
        (x.each (suc (length final.sent)) (omega (arith, size))) (omega (arith, x.count))
        (stdin ∙ sym x.typed) b
        (back
          ∙ ap sent_by served.result
          ∙ sent
          ∙ append_assoc hello.body (b'\n' ∷ []) (answered_lines x.turns)
          ∙ ap (λ z. hello.body ++ b'\n' ∷ z) (sym (append-nil (answered_lines x.turns)))) in
    (
      final,
      p',
      served.result,
      r,
      out ∙ ap (λ z. p.terminal.stdout ++ z) (sym sent),
      gone
          ∙ ap (λ z. p.terminal.session.sent ++ z)
              (ap (λ z. z ++ b'\n' ∷ []) x.typed ∙ sym (all_lines-end qs)),
    )
