-- ===== src/Ftp/Threads/Rounds.antt =====
-- What one round of a client's thread of tp3_ftp_multiclient_server/common_server.cpp leaves.
use programming_workshop.Common.{
  ℕ, ◌≡◌, refl, sym, ◌∙◌, ap, ◌⊎◌, inl, inr, Bool, true, some, ◌++◌, arith, if◌then◌else◌,
  Bool-cases, Bytes, codes, ltb, length,
}
use programming_workshop.Ftp.Result.{
  Result, returned, threw, faulted, unfinished, continue, lift, state_after,
}
use programming_workshop.Ftp.Config.{ConfigMap, get_message}
use programming_workshop.Ftp.Connection.{Session, send_string, receive_string}
use programming_workshop.Ftp.Server.{handle, set_client, respond_query, send_hello, client_round}
use programming_workshop.Ftp.Server.Kept.{
  IsKept, Keeps, continue-Keeps, lift-Keeps, send_string-Keeps, receive_string-Keeps,
}
use programming_workshop.Ftp.Server.Login.{IsLogin, respond_query-guarded}
use programming_workshop.Ftp.Server.Stays.{
  IsFollowed, IsFollowed-trans, kept-IsFollowed, set_client-Follows,
}
use programming_workshop.Ftp.Server.Stays.Queries.{respond_query-Follows}
use programming_workshop.Ftp.Threads.{Phase, greeting, serving, ended, joined, after, thread_round}

-- The configuration file has a user and a password.
abbrev pub HasLogin : ConfigMap → Type 0
HasLogin cfg = (user : Bytes) × (password : Bytes) × IsLogin cfg user password

-- The directories change only for a client that is logged in, and it gets there only with the
-- credentials of the configuration file.
pub record IsRound (cfg : ConfigMap) (s s' : Session) : Type 0 where
  pub followed : IsFollowed s s'
  pub earned : (s'.directories ≡ s.directories) ⊎ (s.client.logged ≡ true)
  pub login : s'.client.logged ≡ true → (s.client.logged ≡ true) ⊎ HasLogin cfg

kept-IsRound : (cfg : ConfigMap) (s s' : Session) → IsKept s s' → IsRound cfg s s'
kept-IsRound cfg s s' k = record {
  followed = kept-IsFollowed s s' k;
  earned = inl k.directories;
  login = λ l. inl (sym (ap (λ c. c.logged) k.client) ∙ l);
}

kept-then-IsRound :
    (cfg : ConfigMap) (s t s' : Session) → IsKept s t → IsRound cfg t s' → IsRound cfg s s'
kept-then-IsRound cfg s t s' k r = record {
  followed = IsFollowed-trans s t s' (kept-IsFollowed s t k) r.followed;
  earned = elim r.earned [
    | inl e ↦ inl (e ∙ k.directories)
    | inr l ↦ inr (sym (ap (λ c. c.logged) k.client) ∙ l)
  ];
  login =
      λ h. elim (r.login h) [ inl l ↦ inl (sym (ap (λ c. c.logged) k.client) ∙ l) | inr c ↦ inr c ];
}

respond_query-IsRound :
    (cfg : ConfigMap) (q : Bytes) (s s' : Session)
    → state_after (respond_query cfg q s) ≡ some s'
    → IsRound cfg s s'
respond_query-IsRound cfg q s s' h = elim (Bool-cases s.client.logged) [
  | inl t ↦ record {
    followed = respond_query-Follows cfg q s s' h;
    earned = inr t;
    login = λ l. inl t;
  }
  | inr f ↦
      (let (same, login) = respond_query-guarded cfg q s s' f h in
        record {
          followed = respond_query-Follows cfg q s s' h;
          earned = inl same;
          login = λ l. let (arg, _, creds) = login l in inr (_, arg, creds);
        })
]

quit-IsRound :
    (cfg : ConfigMap) (s s' : Session)
    → state_after (set_client (λ c. record c { quit = true }) s) ≡ some s'
    → IsRound cfg s s'
quit-IsRound cfg s s' h =
    let same : record s { client = record s.client { quit = true } } ≡ s' = ground (arith, h) in
    record {
      followed = set_client-Follows (λ c. record c { quit = true }) (λ c l. l) s s' h;
      earned = inl (ap (λ x. x.directories) (sym same));
      login = λ l. inl (ap (λ x. x.client.logged) same ∙ l);
    }

handle-IsRound :
    (cfg : ConfigMap) (q : Bytes) (s s' : Session)
    → state_after (handle cfg q s) ≡ some s'
    → IsRound cfg s s'
handle-IsRound cfg q s s' h =
    let run = λ (b : Bool).
      state_after
        ((if b then respond_query cfg q else set_client (λ c. record c { quit = true })) s) in
    elim (Bool-cases (ltb 1 (length q))) [
      | inl t ↦ respond_query-IsRound cfg q s s' (ap run (sym t) ∙ h)
      | inr f ↦ quit-IsRound cfg s s' (ap run (sym f) ∙ h)
    ]

behind_line :
    (cfg : ConfigMap) (r : Result Session Bytes) (s s' : Session)
    → ((s1 : Session) → state_after r ≡ some s1 → IsKept s s1)
    → state_after (continue (handle cfg) r) ≡ some s'
    → IsRound cfg s s'
behind_line cfg (returned q s1) s s' k h =
    kept-then-IsRound cfg s s1 s' (k s1 refl) (handle-IsRound cfg q s1 s' h)
behind_line cfg (threw m s1) s s' k h = kept-IsRound cfg s s' (k s' h)
behind_line cfg faulted s s' k h = absurd (ground (arith, h))
behind_line cfg unfinished s s' k h = absurd (ground (arith, h))

client_round-IsRound :
    (line : ℕ) (cfg : ConfigMap) (s s' : Session)
    → state_after (client_round line cfg s) ≡ some s'
    → IsRound cfg s s'
unfolding client_round
client_round-IsRound line cfg s s' h =
    behind_line cfg (receive_string line s) s s' (receive_string-Keeps line s) h

pub send_hello-Keeps : (cfg : ConfigMap) → Keeps (send_hello cfg)
unfolding send_hello
send_hello-Keeps cfg s s' h =
    continue-Keeps (λ text. send_string (codes "220 " ++ text))
      (lift (get_message cfg (codes "newClient")) s) s
      (lift-Keeps (get_message cfg (codes "newClient")) s)
      (λ text. send_string-Keeps (codes "220 " ++ text)) s' h

-- `after` gives the state behind the call.
pub after-state :
    (r : Result Session Unit) (phase : Phase) (s' : Session)
    → after r ≡ some (phase, s')
    → state_after r ≡ some s'
after-state (returned a s) phase s' h = ground (arith, h)
after-state (threw m s) phase s' h = ground (arith, h)
after-state faulted phase s' h = absurd (ground (arith, h))
after-state unfinished phase s' h = absurd (ground (arith, h))

pub thread_round-IsRound :
    (line : ℕ) (cfg : ConfigMap) (phase phase' : Phase) (s s' : Session)
    → thread_round line cfg phase s ≡ some (phase', s')
    → IsRound cfg s s'
unfolding thread_round
thread_round-IsRound line cfg greeting phase' s s' h =
    kept-IsRound cfg s s' (send_hello-Keeps cfg s s' (after-state (send_hello cfg s) phase' s' h))
thread_round-IsRound line cfg serving phase' s s' h =
    let run = λ (b : Bool). if b then some (ended, s) else after (client_round line cfg s) in
    elim (Bool-cases s.client.quit) [
      | inl t ↦
          (let same : some (ended, s) ≡ some (phase', s') = ap run (sym t) ∙ h in
            kept-IsRound cfg s s'
              (record { client = ground (arith, same); directories = ground (arith, same) }))
      | inr f ↦
          client_round-IsRound line cfg s s'
            (after-state (client_round line cfg s) phase' s' (ap run (sym f) ∙ h))
    ]
thread_round-IsRound line cfg ended phase' s s' h = absurd (ground (arith, h))
thread_round-IsRound line cfg joined phase' s s' h = absurd (ground (arith, h))
