-- ===== src/Ftp/Command/Named.antt =====
-- Which commands name a directory, and which line ends a session, by create_command of
-- tp3_ftp_multiclient_server/common_command.cpp.
use programming_workshop.Common.{
  ℕ, suc, ◌+◌, ◌<◌, ◌≡◌, ◌≢◌, refl, sym, ◌∙◌, ap, inl, inr, true, false, some, [], ◌∷◌, ◌++◌, arith,
  ltb, ◌==◌, Bytes, codes, bytes_eq, bytes_eq_iff, length, length-append, Bool-cases, Option-cases,
}
use programming_workshop.Ftp.Config.Lookup.{Lacks}
use programming_workshop.Ftp.Command.{
  Command, user_command, pass_command, syst_command, list_command, help_command, pwd_command,
  mkd_command, rmd_command, quit_command, invalid_command, split_command, cmd_mkd, identify_command,
  split_space, or_whole, pop_back, create_command,
}
use programming_workshop.Ftp.Command.Parse.{pop_back-append}

-- Only the word MKD makes a directory.
identify_command-mkd :
    (cmd arg d : Bytes)
    → identify_command cmd arg ≡ mkd_command d
    → (bytes_eq cmd cmd_mkd ≡ true) × (arg ≡ d)
unfolding identify_command
identify_command-mkd cmd arg d h = (ground (arith, h), ground (arith, h))

split_space-length :
    (s a b : Bytes) → split_space s ≡ some (a, b) → length s ≡ suc (length a + length b)
unfolding split_space
split_space-length [] a b h = absurd (ground (arith, h))
split_space-length (c ∷ s) a b h = elim (Bool-cases (c == b' ')) [
  | inl t ↦ ground (arith, rw t at h)
  | inr f ↦ elim (Option-cases (split_space s)) [
    | inl n ↦ absurd (ground (arith, rw (f, n) at h))
    | inr ((a', b'), e) ↦
        (let k : some (c ∷ a', b') ≡ some (a, b) = rw (f, e) at h in
          ground (arith, k, split_space-length s a' b' e))
  ]
]

-- The argument of a line is the end of the line, its newline included.
split_space-end :
    (q a b : Bytes) (c : ℕ)
    → c ≢ b' '
    → Lacks c q
    → split_space (q ++ c ∷ []) ≡ some (a, b)
    → (rest : Bytes) × (b ≡ rest ++ c ∷ []) × Lacks c rest
unfolding split_space
split_space-end [] a b c n l h =
    let plain : (c == b' ') ≡ false = ground (arith, n) in absurd (ground (arith, rw plain at h))
split_space-end (x ∷ q) a b c n l h = elim (Bool-cases (x == b' ')) [
  | inl t ↦
      (let k : some ([], q ++ c ∷ []) ≡ some (a, b) = rw t at h in (q, ground (arith, k), l.1))
  | inr f ↦ elim (Option-cases (split_space (q ++ c ∷ []))) [
    | inl z ↦ absurd (ground (arith, rw (f, z) at h))
    | inr ((a', b'), e) ↦
        (let k : some (x ∷ a', b') ≡ some (a, b) = rw (f, e) at h in
          let same : b' ≡ b = ground (arith, k) in
          let (rest, r, m) = split_space-end q a' b' c n l.1 e in (rest, sym same ∙ r, m))
  ]
]

-- The command of a line of more than 5 bytes, and the one of a shorter line.
create_command-long :
    (s : Bytes)
    → ltb 5 (length s) ≡ true
    → create_command s ≡ some (identify_command (split_command s).0 (split_command s).1)
unfolding create_command
create_command-long s n = rw n refl

create_command-brief :
    (q : Bytes) (c : ℕ)
    → ltb 5 (length (q ++ c ∷ [])) ≡ false
    → create_command (q ++ c ∷ []) ≡ some (identify_command q [])
unfolding create_command
create_command-brief q c n = rw (n, pop_back-append q c) refl

-- Every line is read as some command.
pub create_command-total :
    (q : Bytes) (c : ℕ) → (cmd : Command) × (create_command (q ++ c ∷ []) ≡ some cmd)
create_command-total q c = elim (Bool-cases (ltb 5 (length (q ++ c ∷ [])))) [
  | inl t ↦ (_, create_command-long (q ++ c ∷ []) t)
  | inr f ↦ (_, create_command-brief q c f)
]

-- The argument of a long line is not empty if its first word is short.
argument-some :
    (s : Bytes) → 5 < length s → length (split_command s).0 ≡ 3 → (split_command s).1 ≢ []
argument-some s n w h = elim (Option-cases (split_space s)) [
  | inl e ↦
      (let whole : or_whole s (split_space s) ≡ (s, s) = ap (or_whole s) e in
        ground (arith, n, ap (λ p. length p.1) whole, ap length h))
  | inr ((a, b), e) ↦
      (let parts : or_whole s (split_space s) ≡ (a, b) = ap (or_whole s) e in
        ground (
          arith,
          n,
          w,
          ap (λ p. length p.0) parts,
          ap (λ p. length p.1) parts,
          ap length h,
          split_space-length s a b e,
        ))
]

-- A line that makes a directory names it, unless it is a bare MKD.
pub create_command-mkd :
    (q : Bytes) (c : ℕ) (d : Bytes)
    → q ≢ cmd_mkd
    → create_command (q ++ c ∷ []) ≡ some (mkd_command d)
    → d ≢ []
create_command-mkd q c d bare h z = elim (Bool-cases (ltb 5 (length (q ++ c ∷ [])))) [
  | inl t ↦
      (let s : Bytes = q ++ c ∷ [] in
        let (word, arg) =
          identify_command-mkd (split_command s).0 (split_command s).1 d
            (ground (arith, sym (create_command-long s t) ∙ h)) in
        argument-some s (ground (arith, t))
          (ap length ((bytes_eq_iff (split_command s).0 cmd_mkd).0 word)) (arg ∙ z))
  | inr f ↦
      (let (word, arg) =
          identify_command-mkd q [] d (ground (arith, sym (create_command-brief q c f) ∙ h)) in
        bare ((bytes_eq_iff q cmd_mkd).0 word))
]

-- A line that is the word QUIT ends the session.
pub create_command-quit : create_command (codes "QUIT" ++ b'\n' ∷ []) ≡ some quit_command
unfolding create_command identify_command bytes_eq
create_command-quit = refl

identify_command-rmd : (cmd arg d : Bytes) → identify_command cmd arg ≡ rmd_command d → arg ≡ d
unfolding identify_command
identify_command-rmd cmd arg d h = ground (arith, h)

last-same : (a b : Bytes) (c d : ℕ) → a ++ c ∷ [] ≡ b ++ d ∷ [] → a ≡ b
last-same a b c d h =
    let k : some a ≡ some b = sym (pop_back-append a c) ∙ ap pop_back h ∙ pop_back-append b d in
    ground (arith, k)

-- A name in a line has the byte that ends the line at its end only.
argument-Lacks :
    (q name : Bytes) (c b : ℕ)
    → c ≢ b' '
    → Lacks c q
    → (split_command (q ++ c ∷ [])).1 ≡ name ++ b ∷ []
    → Lacks c name
argument-Lacks q name c b n l h = elim (Option-cases (split_space (q ++ c ∷ []))) [
  | inl e ↦
      (let whole : q ++ c ∷ [] ≡ name ++ b ∷ [] =
          ap (λ o. (or_whole (q ++ c ∷ []) o).1) (sym e) ∙ h in
        rw (sym (last-same q name c b whole)) l)
  | inr ((x, y), e) ↦
      (let (rest, r, m) = split_space-end q x y c n l e in
        let same : rest ++ c ∷ [] ≡ name ++ b ∷ [] =
          sym r ∙ ap (λ o. (or_whole (q ++ c ∷ []) o).1) (sym e) ∙ h in
        rw (sym (last-same rest name c b same)) m)
]

-- The argument of a command that a line is read as.
abbrev pub NameLacks : ℕ → Command → Type 0
NameLacks c (mkd_command d) = (name : Bytes) (b : ℕ) → d ≡ name ++ b ∷ [] → Lacks c name
NameLacks c (rmd_command d) = (name : Bytes) (b : ℕ) → d ≡ name ++ b ∷ [] → Lacks c name
NameLacks c _ = Unit {0}

named_argument :
    (q d name : Bytes) (c b : ℕ)
    → c ≢ b' '
    → Lacks c q
    → ((word arg : Bytes)
        → create_command (q ++ c ∷ []) ≡ some (identify_command word arg)
        → arg ≡ d)
    → d ≡ name ++ b ∷ []
    → Lacks c name
named_argument q d name c b n l k e = elim (Bool-cases (ltb 5 (length (q ++ c ∷ [])))) [
  | inl t ↦ argument-Lacks q name c b n l (k _ _ (create_command-long (q ++ c ∷ []) t) ∙ e)
  | inr f ↦
      (let none_there : [] ≡ name ++ b ∷ [] = k _ _ (create_command-brief q c f) ∙ e in
        absurd (ground (arith, ap length none_there, length-append name (b ∷ []))))
]

pub create_command-NameLacks :
    (q : Bytes) (c : ℕ) (cmd : Command)
    → c ≢ b' '
    → Lacks c q
    → create_command (q ++ c ∷ []) ≡ some cmd
    → NameLacks c cmd
create_command-NameLacks q c (mkd_command d) n l h = λ name b e.
    named_argument q d name c b n l
      (λ word arg k. (identify_command-mkd word arg d (ground (arith, sym k ∙ h))).1) e
create_command-NameLacks q c (rmd_command d) n l h = λ name b e.
    named_argument q d name c b n l
      (λ word arg k. identify_command-rmd word arg d (ground (arith, sym k ∙ h))) e
create_command-NameLacks q c (user_command _) n l h = tt {0}
create_command-NameLacks q c (pass_command _) n l h = tt {0}
create_command-NameLacks q c syst_command n l h = tt {0}
create_command-NameLacks q c list_command n l h = tt {0}
create_command-NameLacks q c help_command n l h = tt {0}
create_command-NameLacks q c pwd_command n l h = tt {0}
create_command-NameLacks q c quit_command n l h = tt {0}
create_command-NameLacks q c invalid_command n l h = tt {0}
