-- ===== src/Ftp/Threads/Sound.antt =====
-- What holds of the server of tp3_ftp_multiclient_server at every moment.
pub mod Same
pub mod Reached
use programming_workshop.Common.{
  ℕ, zero, suc, ◌+◌, ◌≡◌, refl, sym, ◌∙◌, ap, ◌⊎◌, inl, inr, Bool, true, false, ◌||◌, Option, some,
  List, [], ◌∷◌, ◌++◌, map, arith, if◌then◌else◌, ◌==◌, Bool-cases, Option-cases, not, Bytes,
  length, get_elem?, set, All, All-append,
}
use programming_workshop.Common.Int.{ℤ}
use programming_workshop.Sudoku.Socket.{Arrival, Outcome}
use programming_workshop.Ftp.Result.{
  Result, returned, Act, state_after, faulted, unfinished, continue, ◌>>=◌,
}
use programming_workshop.Ftp.Directories.{contains}
use programming_workshop.Ftp.Directories.Refinement.{IsOrdered}
use programming_workshop.Ftp.Config.{ConfigMap}
use programming_workshop.Ftp.Connection.{Client, Session}
use programming_workshop.Ftp.Socket.{same_socket}
use programming_workshop.Ftp.Threads.{
  Phase, greeting, serving, ended, joined, Thread, Pointer, Attended, ServerState, new_client,
  is_accepted, is_dead, emplace_back, find_thread, join, close_dead_sockets, pop_last, close_thread,
  shutdown_socket, accept_client, thread_round, session_of, resumed,
}
use programming_workshop.Ftp.Threads.Rounds.{HasLogin, IsRound, thread_round-IsRound}
use programming_workshop.Ftp.Threads.Steps.{
  Step, accepts_client, runs, shuts, joins, stops, Reach, here, next, started,
}

-- Some client's record says that it has logged in. The record of a thread that has ended stays and counts.
abbrev pub any_logged : List Thread → Bool
any_logged [] = false
any_logged (t ∷ ts) = t.client.logged || any_logged ts

abbrev pub IsAlive : Attended → Type 0
IsAlive a = a.client.is_alive ≡ true

-- The directories are in order, each once and none with the empty name; there is none unless some
-- client has logged in, one that has left included; some client has only if the configuration file has a user
-- and a password; and no client of the acceptor's list is marked as dead.
pub record IsSound (cfg : ConfigMap) (w : ServerState) : Type 0 where
  pub ordered : IsOrdered w.directories
  pub named : contains [] w.directories ≡ false
  pub earned : (w.directories ≡ []) ⊎ (any_logged w.threads ≡ true)
  pub login : any_logged w.threads ≡ true → HasLogin cfg
  pub clients_alive : All IsAlive w.clients

pub any_logged-append :
    (ts : List Thread) (t : Thread)
    → t.client.logged ≡ false
    → any_logged (ts ++ t ∷ []) ≡ any_logged ts
any_logged-append [] t h = ground (arith, h)
any_logged-append (u ∷ ts) t h = ap (λ b. u.client.logged || b) (any_logged-append ts t h)

pub any_logged-get :
    (ts : List Thread) (i : ℕ) (t : Thread)
    → get_elem? ts i ≡ some t
    → t.client.logged ≡ true
    → any_logged ts ≡ true
any_logged-get [] i t h l = absurd (ground (arith, h))
any_logged-get (u ∷ ts) zero t h l =
    let same : u ≡ t = ground (arith, h) in
    let here' : u.client.logged ≡ true = ap (λ x. x.client.logged) same ∙ l in ground (arith, here')
any_logged-get (u ∷ ts) (suc i) t h l =
    let rest : any_logged ts ≡ true = any_logged-get ts i t h l in ground (arith, rest)

-- One thread goes on.
pub any_logged-set :
    (ts : List Thread) (i : ℕ) (t t' : Thread)
    → get_elem? ts i ≡ some t
    → (t.client.logged ≡ true → t'.client.logged ≡ true)
    → any_logged ts ≡ true
    → any_logged (set ts i t') ≡ true
any_logged-set [] i t t' h k a = a
any_logged-set (u ∷ ts) zero t t' h k a =
    let same : u ≡ t = ground (arith, h) in
    elim (Bool-cases u.client.logged) [
      | inl l ↦
          (let now : t'.client.logged ≡ true = k (ap (λ x. x.client.logged) (sym same) ∙ l) in
            ground (arith, now))
      | inr f ↦ ground (arith, f, a)
    ]
any_logged-set (u ∷ ts) (suc i) t t' h k a = elim (Bool-cases u.client.logged) [
  | inl l ↦ ground (arith, l)
  | inr f ↦
      (let rest : any_logged (set ts i t') ≡ true =
          any_logged-set ts i t t' h k (ground (arith, f, a)) in
        ground (arith, rest))
]

-- What was logged in behind a step of one thread.
pub any_logged-set_back :
    (ts : List Thread) (i : ℕ) (t' : Thread)
    → any_logged (set ts i t') ≡ true
    → (any_logged ts ≡ true) ⊎ (t'.client.logged ≡ true)
any_logged-set_back [] i t' a = inl a
any_logged-set_back (u ∷ ts) zero t' a = elim (Bool-cases t'.client.logged) [
  | inl l ↦ inr l
  | inr f ↦ inl (ground (arith, f, a))
]
any_logged-set_back (u ∷ ts) (suc i) t' a = elim (Bool-cases u.client.logged) [
  | inl l ↦ inl (ground (arith, l))
  | inr f ↦ elim (any_logged-set_back ts i t' (ground (arith, f, a))) [
    | inl b ↦ inl (ground (arith, b))
    | inr b ↦ inr b
  ]
]

pub any_logged-set_same :
    (ts : List Thread) (i : ℕ) (t t' : Thread)
    → get_elem? ts i ≡ some t
    → t'.client.logged ≡ t.client.logged
    → any_logged (set ts i t') ≡ any_logged ts
any_logged-set_same [] i t t' h k = refl
any_logged-set_same (u ∷ ts) zero t t' h k =
    let same : u ≡ t = ground (arith, h) in
    ap (λ b. b || any_logged ts) (k ∙ ap (λ x. x.client.logged) (sym same))
any_logged-set_same (u ∷ ts) (suc i) t t' h k =
    ap (λ b. u.client.logged || b) (any_logged-set_same ts i t t' h k)

pub any_logged-map :
    (f : Thread → Thread) (ts : List Thread)
    → ((t : Thread) → (f t).client.logged ≡ t.client.logged)
    → any_logged (map f ts) ≡ any_logged ts
any_logged-map f [] h = refl
any_logged-map f (t ∷ ts) h =
    ap (λ b. b || any_logged (map f ts)) (h t)
    ∙ ap (λ b. t.client.logged || b) (any_logged-map f ts h)
