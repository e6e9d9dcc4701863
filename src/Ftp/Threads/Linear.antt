-- ===== src/Ftp/Threads/Linear.antt =====
-- The calls on the directories that the threads of tp3_ftp_multiclient_server/common_server.cpp make, in
-- the order of their steps.
pub mod Reached
use programming_workshop.Common.{
  ℕ, ◌≡◌, refl, sym, ◌∙◌, ap, inl, inr, Bool, true, false, some, List, [], ◌∷◌, ◌++◌, arith,
  if◌then◌else◌, Bool-cases, Bytes, ltb, length,
}
use programming_workshop.Ftp.Result.{
  Result, returned, threw, faulted, unfinished, continue, state_after,
}
use programming_workshop.Ftp.Directories.{Directories}
use programming_workshop.Ftp.Directories.Refinement.{Call, call}
use programming_workshop.Ftp.Config.{ConfigMap}
use programming_workshop.Ftp.Connection.{Session, receive_string}
use programming_workshop.Ftp.Server.{handle, set_client, respond_query, send_hello, client_round}
use programming_workshop.Ftp.Server.Kept.{IsKept, receive_string-Keeps}
use programming_workshop.Ftp.Server.Calls.{
  query_calls, directories_after, respond_query-Calls, set_client-Leaves,
}
use programming_workshop.Ftp.Threads.{Phase, greeting, serving, ended, joined, after, thread_round}
use programming_workshop.Ftp.Threads.Rounds.{after-state, send_hello-Keeps}

abbrev pub handle_calls : Bool → Bytes → List Call
handle_calls logged q = if ltb 1 (length q) then query_calls logged q else []

abbrev pub line_calls : Bool → Result Session Bytes → List Call
line_calls logged (returned q s) = handle_calls logged q
line_calls logged (threw m s) = []
line_calls logged faulted = []
line_calls logged unfinished = []

-- The call of a thread's round: MKD and RMD of a client that is logged in.
unfoldable pub round_calls : ℕ → Phase → Session → List Call
round_calls line greeting s = []
round_calls line serving s =
    if s.client.quit then [] else line_calls s.client.logged (receive_string line s)
round_calls line ended s = []
round_calls line joined s = []

pub directories_after-append :
    (cs ds : List Call) (x : Directories)
    → directories_after (cs ++ ds) x ≡ directories_after ds (directories_after cs x)
directories_after-append [] ds x = refl
directories_after-append (c ∷ cs) ds x = directories_after-append cs ds (call c x).1

handle_calls_lem :
    (cfg : ConfigMap) (q : Bytes) (s s' : Session)
    → state_after (handle cfg q s) ≡ some s'
    → s'.directories ≡ directories_after (handle_calls s.client.logged q) s.directories
handle_calls_lem cfg q s s' h =
    let leave = set_client-Leaves (λ c. record c { quit = true }) in
    let run = λ (b : Bool).
      state_after
        ((if b then respond_query cfg q else set_client (λ c. record c { quit = true })) s) in
    elim (Bool-cases (ltb 1 (length q))) [
      | inl t ↦ rw t (respond_query-Calls cfg q s s' (ap run (sym t) ∙ h))
      | inr f ↦ rw f (leave s s' (ap run (sym f) ∙ h))
    ]

line_calls_lem :
    (cfg : ConfigMap) (r : Result Session Bytes) (s s' : Session)
    → ((s1 : Session) → state_after r ≡ some s1 → IsKept s s1)
    → state_after (continue (handle cfg) r) ≡ some s'
    → s'.directories ≡ directories_after (line_calls s.client.logged r) s.directories
line_calls_lem cfg (returned q s1) s s' k h =
    let kept = k s1 refl in
    handle_calls_lem cfg q s1 s' h
    ∙ ap (λ c. directories_after (handle_calls c.logged q) s1.directories) kept.client
    ∙ ap (directories_after (handle_calls s.client.logged q)) kept.directories
line_calls_lem cfg (threw m s1) s s' k h = (k s' h).directories
line_calls_lem cfg faulted s s' k h = absurd (ground (arith, h))
line_calls_lem cfg unfinished s s' k h = absurd (ground (arith, h))

pub round_calls_lem :
    (line : ℕ) (cfg : ConfigMap) (phase phase' : Phase) (s s' : Session)
    → thread_round line cfg phase s ≡ some (phase', s')
    → s'.directories ≡ directories_after (round_calls line phase s) s.directories
unfolding thread_round round_calls client_round
round_calls_lem line cfg greeting phase' s s' h =
    (send_hello-Keeps cfg s s' (after-state (send_hello cfg s) phase' s' h)).directories
round_calls_lem line cfg serving phase' s s' h =
    let run = λ (b : Bool). if b then some (ended, s) else after (client_round line cfg s) in
    let made_by = λ (b : Bool).
      directories_after (if b then [] else line_calls s.client.logged (receive_string line s))
        s.directories in
    elim (Bool-cases s.client.quit) [
      | inl t ↦
          (let same : some (ended, s) ≡ some (phase', s') = ap run (sym t) ∙ h in
            let left : s'.directories ≡ s.directories = ground (arith, same) in
            left ∙ ap made_by (sym t))
      | inr f ↦
          line_calls_lem cfg (receive_string line s) s s' (receive_string-Keeps line s)
            (after-state (client_round line cfg s) phase' s' (ap run (sym f) ∙ h))
          ∙ ap made_by (sym f)
    ]
round_calls_lem line cfg ended phase' s s' h = absurd (ground (arith, h))
round_calls_lem line cfg joined phase' s s' h = absurd (ground (arith, h))
