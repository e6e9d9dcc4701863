-- ===== src/Ftp/Threads/Sound/Reached.antt =====
-- No step of the threads of tp3_ftp_multiclient_server/common_server.cpp breaks what holds of the server.
use programming_workshop.Common.{ℕ, ◌≡◌, refl, ◌∙◌, inl, inr, some, List, arith, get_elem?}
use programming_workshop.Sudoku.Socket.{Arrival}
use programming_workshop.Ftp.Directories.{contains}
use programming_workshop.Ftp.Config.{ConfigMap}
use programming_workshop.Ftp.Connection.{Session}
use programming_workshop.Ftp.Threads.{Phase, Thread, ServerState, session_of, resumed}
use programming_workshop.Ftp.Threads.Rounds.{IsRound, thread_round-IsRound}
use programming_workshop.Ftp.Threads.Steps.{
  Step, accepts_client, runs, shuts, joins, stops, Reach, here, next, started,
}
use programming_workshop.Ftp.Threads.Sound.{
  IsSound, any_logged-get, any_logged-set, any_logged-set_back,
}
use programming_workshop.Ftp.Threads.Sound.Same.{
  same-IsSound, accept_client-IsSame, shutdown_socket-IsSame, pop_last-IsAlive, close_thread-IsSame,
}

resumed-IsSound :
    (cfg : ConfigMap) (w : ServerState) (i : ℕ) (t : Thread) (phase : Phase) (s : Session)
    → get_elem? w.threads i ≡ some t
    → IsRound cfg (session_of w t) s
    → IsSound cfg w
    → IsSound cfg (resumed w i phase s)
resumed-IsSound cfg w i t phase s at r sound =
    let t' : Thread = record {
      client = s.client;
      arrivals = s.arrivals;
      outcomes = s.outcomes;
      sent = s.sent;
      phase = phase;
    } in
    record {
      ordered = r.followed.ordered sound.ordered;
      named = r.followed.named sound.named;
      earned = elim r.earned [
        | inr l ↦ inr (
            any_logged-set w.threads i t t' at r.followed.logged
              (any_logged-get w.threads i t at l))
        | inl same ↦ elim sound.earned [
          | inl none_there ↦ inl (same ∙ none_there)
          | inr l ↦ inr (any_logged-set w.threads i t t' at r.followed.logged l)
        ]
      ];
      login = λ l. elim (any_logged-set_back w.threads i t' l) [
        | inl before ↦ sound.login before
        | inr now ↦ elim (r.login now) [
          | inl already ↦ sound.login (any_logged-get w.threads i t at already)
          | inr creds ↦ creds
        ]
      ];
      clients_alive = sound.clients_alive;
    }

pub Step-IsSound :
    {cfg : ConfigMap} {grow : ℕ → ℕ} {shut : List Arrival → List Arrival} {w w' : ServerState}
    → Step cfg grow shut w w'
    → IsSound cfg w
    → IsSound cfg w'
Step-IsSound {cfg = cfg} {grow = grow} {shut = shut} {w = w} {w' = w'}
      (accepts_client id arrivals outcomes h) s =
    same-IsSound cfg w w'
      (accept_client-IsSame grow shut id arrivals outcomes w w' s.clients_alive h) s
Step-IsSound {cfg = cfg} {w = w} (runs i line t phase s' at h) s =
    resumed-IsSound cfg w i t phase s' at
      (thread_round-IsRound line cfg t.phase phase (session_of w t) s' h) s
Step-IsSound {cfg = cfg} {shut = shut} {w = w} {w' = w'} (shuts a) s =
    same-IsSound cfg w w' (shutdown_socket-IsSame shut a w) s
Step-IsSound {cfg = cfg} {w = w} (joins {w' = v} rest a last h) s =
    let same = close_thread-IsSame a w v h in
    let closed : IsSound cfg v = same-IsSound cfg w v same s in
    record {
      ordered = closed.ordered;
      named = closed.named;
      earned = closed.earned;
      login = closed.login;
      clients_alive = pop_last-IsAlive w.clients rest a last s.clients_alive;
    }
Step-IsSound stops s = record {
  ordered = s.ordered;
  named = s.named;
  earned = s.earned;
  login = s.login;
  clients_alive = s.clients_alive;
}

-- At every moment of every run of the server, whatever connections come, whatever is sent and received
-- on them, and in whatever order the threads go on: the directories are in order, each once and none with
-- the empty name; if there is a directory, some client has logged in, which may have left since; if some
-- client has, the configuration file has a user and a password; and no client of the acceptor's list is
-- marked as dead.
pub Reach-IsSound :
    {cfg : ConfigMap} {grow : ℕ → ℕ} {shut : List Arrival → List Arrival} {w : ServerState}
    → Reach cfg grow shut started w
    → IsSound cfg w
unfolding contains
Reach-IsSound here = record {
  ordered = tt {0};
  named = refl;
  earned = inl refl;
  login = λ l. absurd (ground (arith, l));
  clients_alive = tt {0};
}
Reach-IsSound (next r step) = Step-IsSound step (Reach-IsSound r)
