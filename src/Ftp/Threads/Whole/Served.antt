-- ===== src/Ftp/Threads/Whole/Served.antt =====
-- A run of the server of tp3_ftp_multiclient_server/common_server.cpp that serves one of its clients to the end.
use programming_workshop.Common.{
  ℕ, zero, suc, ◌≡◌, refl, sym, ◌∙◌, ap, inl, inr, false, some, List, [], ◌++◌, arith, Option-cases,
  Bytes, codes, length, get_elem?, set, set-get_elem?, set-set, get_elem?-set,
}
use programming_workshop.Sudoku.Socket.{Arrival}
use programming_workshop.Sudoku.Socket.Receive.{available}
use programming_workshop.Sudoku.Socket.Send.{Accepting}
use programming_workshop.Ftp.Directories.{contains}
use programming_workshop.Ftp.Config.{ConfigMap}
use programming_workshop.Ftp.Connection.{Session}
use programming_workshop.Ftp.Server.Promised.{HasTexts, coded}
use programming_workshop.Ftp.Server.Conversation.{Conversation, AreQueries, all_lines}
use programming_workshop.Ftp.Server.Conversation.Served.{respond_client-IsServed}
use programming_workshop.Ftp.Threads.{
  Phase, greeting, serving, ended, joined, Thread, ServerState, thread_round, session_of, resumed,
}
use programming_workshop.Ftp.Threads.Steps.{runs, Reach, here, next}
use programming_workshop.Ftp.Threads.Closing.{IsOver}
use programming_workshop.Ftp.Threads.Whole.{run_rounds, then_rounds, respond_client-rounds}

Reach-trans :
    {cfg : ConfigMap} {grow : ℕ → ℕ} {shut : List Arrival → List Arrival} {w v u : ServerState}
    → Reach cfg grow shut w v
    → Reach cfg grow shut v u
    → Reach cfg grow shut w u
Reach-trans r here = r
Reach-trans r (next r' step) = next (Reach-trans r r') step

-- A run in which the thread `i` alone goes on to its end, with the session `s` there.
record Walk (cfg : ConfigMap) (grow : ℕ → ℕ) (shut : List Arrival → List Arrival) (w : ServerState)
    (i : ℕ) (s : Session) : Type 0 where
  w' : ServerState
  t' : Thread
  reach : Reach cfg grow shut w w'
  threads : w'.threads ≡ set w.threads i t'
  over : IsOver t'.phase
  session : session_of w' t' ≡ s
  clients : w'.clients ≡ w.clients

-- The thread behind a round.
abbrev thread_of : Phase → Session → Thread
thread_of phase s = record {
  client = s.client;
  arrivals = s.arrivals;
  outcomes = s.outcomes;
  sent = s.sent;
  phase = phase;
}

module _ (cfg : ConfigMap) (grow : ℕ → ℕ) (shut : List Arrival → List Arrival) (line i : ℕ) where
  arrived :
      (w : ServerState) (t : Thread) (s' : Session)
      → get_elem? w.threads i ≡ some t
      → IsOver t.phase
      → some (session_of w t) ≡ some s'
      → Walk cfg grow shut w i s'
  arrived w t s' at over h = record {
    w' = w;
    t' = t;
    reach = here;
    threads = sym (set-get_elem? w.threads i t at);
    over = over;
    session = ground (arith, h);
    clients = refl;
  }

  behind_step :
      (w : ServerState) (t : Thread) (phase : Phase) (s s' : Session)
      → get_elem? w.threads i ≡ some t
      → thread_round line cfg t.phase (session_of w t) ≡ some (phase, s)
      → Walk cfg grow shut (resumed w i phase s) i s'
      → Walk cfg grow shut w i s'
  behind_step w t phase s s' at h k = record {
    w' = k.w';
    t' = k.t';
    reach = Reach-trans (next here (runs i line t phase s at h)) k.reach;
    threads = k.threads ∙ set-set w.threads i (thread_of phase s) k.t';
    over = k.over;
    session = k.session;
    clients = k.clients;
  }

  -- A round, and what is done behind it.
  behind_round :
      (fuel : ℕ) (w : ServerState) (t : Thread) (phase : Phase) (s' : Session)
      → get_elem? w.threads i ≡ some t
      → t.phase ≡ phase
      → ((v : ServerState) (u : Thread) (phase' : Phase)
          → get_elem? v.threads i ≡ some u
          → u.phase ≡ phase'
          → run_rounds fuel line cfg phase' (session_of v u) ≡ some s'
          → Walk cfg grow shut v i s')
      → then_rounds fuel line cfg (thread_round line cfg phase (session_of w t)) ≡ some s'
      → Walk cfg grow shut w i s'
  behind_round fuel w t phase s' at p k h =
      elim (Option-cases (thread_round line cfg phase (session_of w t))) [
        | inl n ↦ absurd (ground (arith, sym (ap (then_rounds fuel line cfg) n) ∙ h))
        | inr ((phase', s1), e) ↦
            behind_step w t phase' s1 s' at
              (ap (λ x. thread_round line cfg x (session_of w t)) p ∙ e)
              (k (resumed w i phase' s1) (thread_of phase' s1) phase'
                (get_elem?-set w.threads i t (thread_of phase' s1) at) refl
                (sym (ap (then_rounds fuel line cfg) e) ∙ h))
      ]

  -- The rounds of a thread are steps of the server.
  rounds-Walk :
      (fuel : ℕ) (w : ServerState) (t : Thread) (phase : Phase) (s' : Session)
      → get_elem? w.threads i ≡ some t
      → t.phase ≡ phase
      → run_rounds fuel line cfg phase (session_of w t) ≡ some s'
      → Walk cfg grow shut w i s'
  unfolding run_rounds
  rounds-Walk zero w t phase s' at p h = absurd (ground (arith, h))
  rounds-Walk (suc fuel) w t ended s' at p h = arrived w t s' at (rw p (tt {0})) h
  rounds-Walk (suc fuel) w t joined s' at p h = arrived w t s' at (rw p (tt {0})) h
  rounds-Walk (suc fuel) w t greeting s' at p h =
      behind_round fuel w t greeting s' at p
        (λ v u phase' at' p' h'. rounds-Walk fuel v u phase' s' at' p' h') h
  rounds-Walk (suc fuel) w t serving s' at p h =
      behind_round fuel w t serving s' at p
        (λ v u phase' at' p' h'. rounds-Walk fuel v u phase' s' at' p' h') h

-- The thread `i` has ended: it has sent `hello` and what the conversation over the lines promises, the client
-- and the directories are as promised there, and the other threads and the acceptor's list are as before.
pub record IsAttended (cfg : ConfigMap) (texts : Bytes → Bytes) (grow : ℕ → ℕ)
    (shut : List Arrival → List Arrival) (qs : List Bytes) (hello : Bytes) (w : ServerState) (i : ℕ)
    (t : Thread) : Type 0 where
  pub w' : ServerState
  pub t' : Thread
  pub text : Bytes
  pub reach : Reach cfg grow shut w w'
  pub threads : w'.threads ≡ set w.threads i t'
  pub clients : w'.clients ≡ w.clients
  pub over : IsOver t'.phase
  pub conversation : Conversation texts t.client w.directories qs text t'.client w'.directories
  pub sends : t'.sent ≡ t.sent ++ (hello ++ text)

-- In every state of the server in which the thread of a client is about to greet it, its `quit` is not set and
-- no directory has the empty name: if the configuration has the texts, no call of send() fails, and the client
-- sends lines of less than `limit` bytes, none a bare MKD and some empty or the word QUIT, in whatever
-- pieces, then steps of the server lead to a state in which that thread has ended, has sent the greeting
-- and behind it exactly what the conversation promises, the client and the directories are as promised, and
-- the other threads and the acceptor's list are as they were.
pub Reach-IsAttended :
    (cfg : ConfigMap) (texts : Bytes → Bytes) (grow : ℕ → ℕ) (shut : List Arrival → List Arrival)
    (limit i : ℕ) (qs : List Bytes) (later : Bytes) (w : ServerState) (t : Thread)
    → HasTexts cfg texts
    → AreQueries limit qs
    → get_elem? w.threads i ≡ some t
    → t.phase ≡ greeting
    → t.client.quit ≡ false
    → contains [] w.directories ≡ false
    → Accepting t.outcomes
    → available t.arrivals ≡ all_lines qs ++ later
    → IsAttended cfg texts grow shut qs (coded (codes "220") (texts (codes "newClient"))) w i t
Reach-IsAttended cfg texts grow shut limit i qs later w t texted are at first going named a e =
    let s : Session = session_of w t in
    let served =
      respond_client-IsServed cfg texts limit (length qs) qs later s texted are (omega arith) going
        named a e in
    let k =
      rounds-Walk cfg grow shut limit i (suc (suc (suc (length qs)))) w t greeting served.final at
        first (respond_client-rounds (length qs) limit cfg s served.final served.result) in
    let same : served.final ≡ session_of k.w' k.t' = sym k.session in
    record {
      w' = k.w';
      t' = k.t';
      text = served.text;
      reach = k.reach;
      threads = k.threads;
      clients = k.clients;
      over = k.over;
      conversation = rw same at served.conversation;
      sends = ap (λ x. x.sent) k.session ∙ served.sends;
    }
