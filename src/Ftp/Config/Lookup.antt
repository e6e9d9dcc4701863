-- ===== src/Ftp/Config/Lookup.antt =====
-- What `get_message` finds in a configuration file of tp3_ftp_multiclient_server.
use programming_workshop.Common.{
  ℕ, zero, suc, ◌<◌, ◌≡◌, ◌≢◌, refl, ◌∙◌, ap, inl, inr, false, Option, none, some, List, [], ◌∷◌,
  ◌++◌, arith, ◌==◌, if◌then◌else◌, Bool-cases, Option-cases, Bytes, bytes_eq, bytes_eq_iff, length,
  length-append,
}
use programming_workshop.Ftp.Config.{
  ConfigMap, find, emplace, split_at, getline, read_loop, config, get_message,
}

-- The byte does not occur.
abbrev pub Lacks : ℕ → Bytes → Type 0
Lacks d [] = Unit {0}
Lacks d (c ∷ s) = (c ≢ d) × Lacks d s

-- Lines key=text, and what a file of them looks like.
abbrev pub Entries : Type 0
Entries = List (Bytes × Bytes)

abbrev pub file_of : Entries → Bytes
file_of [] = []
file_of ((k, v) ∷ es) = k ++ b'=' ∷ (v ++ b'\n' ∷ file_of es)

abbrev pub IsWritten : Entries → Type 0
IsWritten [] = Unit {0}
IsWritten ((k, v) ∷ es) = Lacks b'=' k × Lacks b'\n' v × IsWritten es

-- The text of the first line with the key, and its newline.
unfoldable pub first_text : Bytes → Entries → Option Bytes
first_text key [] = none
first_text key ((k, v) ∷ es) = if bytes_eq key k then some (v ++ b'\n' ∷ []) else first_text key es

pub split_at_lem :
    (d : ℕ) (a rest : Bytes) → Lacks d a → split_at d (a ++ d ∷ rest) ≡ (a, some rest)
unfolding split_at
split_at_lem d [] rest h = ground arith
split_at_lem d (c ∷ a) rest h =
    let ne : (c == d) ≡ false = ground arith in rw (ne, split_at_lem d a rest h.1) refl

-- The first of two answers that is there.
abbrev pub or_else : Option Bytes → Option Bytes → Option Bytes
or_else none o = o
or_else (some v) o = some v

find-append :
    (key : Bytes) (m : ConfigMap) (k v : Bytes)
    → find key (m ++ (k, v) ∷ []) ≡ or_else (find key m) (if bytes_eq key k then some v else none)
unfolding find
find-append key [] k v = ground arith
find-append key ((k', v') ∷ m) k v = elim (Bool-cases (bytes_eq key k')) [
  | inl t ↦ rw t refl
  | inr f ↦ rw (f, find-append key m k v) refl
]

emplace-old : (k v w : Bytes) (m : ConfigMap) → find k m ≡ some w → emplace k v m ≡ m
unfolding emplace
emplace-old k v w m e = ground (arith, e)

emplace-new : (k v : Bytes) (m : ConfigMap) → find k m ≡ none → emplace k v m ≡ m ++ (k, v) ∷ []
unfolding emplace
emplace-new k v m e = ground (arith, e)

or_else_assoc : (a b c : Option Bytes) → or_else (or_else a b) c ≡ or_else a (or_else b c)
or_else_assoc none b c = refl
or_else_assoc (some v) b c = refl

find-emplace :
    (key : Bytes) (m : ConfigMap) (k v : Bytes)
    → find key (emplace k v m) ≡ or_else (find key m) (if bytes_eq key k then some v else none)
find-emplace key m k v = elim (Option-cases (find k m)) [
  | inl n ↦ ap (find key) (emplace-new k v m n) ∙ find-append key m k v
  | inr (w, s) ↦ ap (find key) (emplace-old k v w m s) ∙ elim (Bool-cases (bytes_eq key k)) [
    | inl t ↦
        (let here : find key m ≡ some w = ap (λ x. find x m) ((bytes_eq_iff key k).0 t) ∙ s in
          rw (t, here) refl)
    | inr f ↦ rw f (elim (Option-cases (find key m)) [ inl n ↦ rw n refl | inr (u, e) ↦ rw e refl ])
  ]
]

-- One round of the loop on a line.
read_loop-line :
    (fuel : ℕ) (k v rest s1 s2 : Bytes) (m : ConfigMap)
    → Lacks b'=' k
    → Lacks b'\n' v
    → read_loop (suc fuel) (some (k ++ b'=' ∷ (v ++ b'\n' ∷ rest))) s1 s2 m
      ≡ read_loop fuel (some rest) k (v ++ b'\n' ∷ []) (emplace k (v ++ b'\n' ∷ []) m)
unfolding read_loop
read_loop-line fuel k v rest s1 s2 m h h' =
    ap
      (λ r.
        let text = getline b'\n' r.1 s2 in
        read_loop fuel text.1 r.0 (text.0 ++ b'\n' ∷ []) (emplace r.0 (text.0 ++ b'\n' ∷ []) m))
      (split_at_lem b'=' k (v ++ b'\n' ∷ rest) h)
    ∙ ap (λ r. read_loop fuel r.1 k (r.0 ++ b'\n' ∷ []) (emplace k (r.0 ++ b'\n' ∷ []) m))
        (split_at_lem b'\n' v rest h')

-- And the round behind the last line, which finds an empty key.
read_loop-last :
    (fuel : ℕ) (s1 s2 : Bytes) (m : ConfigMap)
    → read_loop (suc fuel) (some []) s1 s2 m ≡ some (emplace [] (s2 ++ b'\n' ∷ []) m)
unfolding read_loop split_at
read_loop-last zero s1 s2 m = refl
read_loop-last (suc fuel) s1 s2 m = refl

read_loop_lem :
    (es : Entries) (fuel : ℕ) (s1 s2 : Bytes) (m : ConfigMap) (key : Bytes)
    → IsWritten es
    → length (file_of es) < fuel
    → bytes_eq key [] ≡ false
    → (m' : ConfigMap) × (read_loop fuel (some (file_of es)) s1 s2 m ≡ some m')
      × (find key m' ≡ or_else (find key m) (first_text key es))
unfolding first_text
read_loop_lem es zero s1 s2 m key w n ne = absurd (omega arith)
read_loop_lem [] (suc fuel) s1 s2 m key w n ne = (
  emplace [] (s2 ++ b'\n' ∷ []) m,
  read_loop-last fuel s1 s2 m,
  find-emplace key m [] (s2 ++ b'\n' ∷ [])
      ∙ ap (λ b. or_else (find key m) (if b then some (s2 ++ b'\n' ∷ []) else none)) ne,
)
read_loop_lem ((k, v) ∷ es) (suc fuel) s1 s2 m key w n ne =
    let text : Bytes = v ++ b'\n' ∷ [] in
    let (wk, wv, wes) = w in
    let shorter : length (file_of es) < fuel = omega (
      arith,
      length-append k (b'=' ∷ (v ++ b'\n' ∷ file_of es)),
      length-append v (b'\n' ∷ file_of es),
    ) in
    let (m', r, e) = read_loop_lem es fuel k text (emplace k text m) key wes shorter ne in
    (
      m',
      read_loop-line fuel k v (file_of es) s1 s2 m wk wv ∙ r,
      e
          ∙ ap (λ o. or_else o (first_text key es)) (find-emplace key m k text)
          ∙ or_else_assoc (find key m) (if bytes_eq key k then some text else none)
              (first_text key es)
          ∙ ap (or_else (find key m))
              (elim (Bool-cases (bytes_eq key k)) [ inl t ↦ rw t refl | inr f ↦ rw f refl ]),
    )

-- A configuration file of lines key=text is read to its end, and `get_message` gives for a key that
-- is not empty the text of the first line with it, and a newline behind. A key that no line has
-- is undefined behaviour.
pub config_lem :
    (es : Entries) (key : Bytes)
    → IsWritten es
    → bytes_eq key [] ≡ false
    → (m : ConfigMap) × (config (file_of es) ≡ some m) × (get_message m key ≡ first_text key es)
unfolding config get_message
config_lem es key w ne =
    read_loop_lem es (suc (suc (length (file_of es)))) [] [] [] key w (omega arith) ne
