-- ===== src/Ftp/Directories/Refinement.antt =====
-- The directories of tp3_ftp_multiclient_server/common_server.cpp as a set: what a client is promised, in
-- whatever order the clients' calls come.
use programming_workshop.Common.{
  ◌≡◌, refl, sym, ◌∙◌, ap, inl, inr, Bool, true, false, not, ◌&&◌, ◌||◌, List, [], ◌∷◌, arith,
  Bool-cases, Bytes, bytes_eq, bytes_eq_iff,
}
use programming_workshop.Ftp.Strings.{
  bytes_lt, bytes_lt_trans, bytes_lt_irrefl, bytes_lt_total, bytes_eq_sym,
}
use programming_workshop.Ftp.Directories.{
  Directories, contains, insert, erase, add_directory, remove_directory,
}

-- Below all the names of the list.
abbrev pub IsBelow : Bytes → Directories → Type 0
IsBelow d [] = Unit {0}
IsBelow d (x ∷ ds) = (bytes_lt d x ≡ true) × IsBelow d ds

-- The names are in strictly increasing order.
abbrev pub IsOrdered : Directories → Type 0
IsOrdered [] = Unit {0}
IsOrdered (x ∷ ds) = IsBelow x ds × IsOrdered ds

IsBelow-trans : (a b : Bytes) (ds : Directories) → bytes_lt a b ≡ true → IsBelow b ds → IsBelow a ds
IsBelow-trans a b [] h k = tt {0}
IsBelow-trans a b (x ∷ ds) h k = (bytes_lt_trans a b x h k.0, IsBelow-trans a b ds h k.1)

insert-IsBelow :
    (a d : Bytes) (ds : Directories) → bytes_lt a d ≡ true → IsBelow a ds → IsBelow a (insert d ds)
unfolding insert
insert-IsBelow a d [] h k = (h, k)
insert-IsBelow a d (x ∷ ds) h k = elim (Bool-cases (bytes_lt d x)) [
  | inl lt ↦ rw lt (h, k)
  | inr ge ↦ elim (Bool-cases (bytes_eq d x)) [
    | inl eq ↦ rw (ge, eq) k
    | inr ne ↦ rw (ge, ne) (k.0, insert-IsBelow a d ds h k.1)
  ]
]

pub insert-IsOrdered : (d : Bytes) (ds : Directories) → IsOrdered ds → IsOrdered (insert d ds)
unfolding insert
insert-IsOrdered d [] h = (tt {0}, tt {0})
insert-IsOrdered d (x ∷ ds) h = elim (Bool-cases (bytes_lt d x)) [
  | inl lt ↦ rw lt ((lt, IsBelow-trans d x ds lt h.0), h)
  | inr ge ↦ elim (Bool-cases (bytes_eq d x)) [
    | inl eq ↦ rw (ge, eq) h
    | inr ne ↦
        rw (ge, ne)
          (insert-IsBelow x d ds (bytes_lt_total d x ge ne) h.0, insert-IsOrdered d ds h.1)
  ]
]

erase-IsBelow : (a d : Bytes) (ds : Directories) → IsBelow a ds → IsBelow a (erase d ds)
unfolding erase
erase-IsBelow a d [] k = k
erase-IsBelow a d (x ∷ ds) k = elim (Bool-cases (bytes_eq d x)) [
  | inl eq ↦ rw eq k.1
  | inr ne ↦ rw ne (k.0, erase-IsBelow a d ds k.1)
]

pub erase-IsOrdered : (d : Bytes) (ds : Directories) → IsOrdered ds → IsOrdered (erase d ds)
unfolding erase
erase-IsOrdered d [] h = h
erase-IsOrdered d (x ∷ ds) h = elim (Bool-cases (bytes_eq d x)) [
  | inl eq ↦ rw eq h.1
  | inr ne ↦ rw ne (erase-IsBelow x d ds h.0, erase-IsOrdered d ds h.1)
]

IsBelow-contains :
    (a e : Bytes) (ds : Directories) → IsBelow a ds → bytes_eq e a ≡ true → contains e ds ≡ false
unfolding contains
IsBelow-contains a e [] h eq = refl
IsBelow-contains a e (x ∷ ds) h eq =
    let same : e ≡ a = (bytes_eq_iff e a).0 eq in
    let ne : bytes_eq e x ≡ false = elim (Bool-cases (bytes_eq e x)) [
      | inl t ↦
          (let also : a ≡ x = sym same ∙ (bytes_eq_iff e x).0 t in
            absurd (ground (arith, bytes_lt_irrefl x, also, h.0)))
      | inr f ↦ f
    ] in
    rw (ne, IsBelow-contains a e ds h.1 eq)

pub contains-insert :
    (d e : Bytes) (ds : Directories) → contains e (insert d ds) ≡ bytes_eq e d || contains e ds
unfolding contains insert
contains-insert d e [] = refl
contains-insert d e (x ∷ ds) = elim (Bool-cases (bytes_lt d x)) [
  | inl lt ↦ rw lt refl
  | inr ge ↦ elim (Bool-cases (bytes_eq d x)) [
    | inl eq ↦ (let same : d ≡ x = (bytes_eq_iff d x).0 eq in rw (ge, eq, same) (ground arith))
    | inr ne ↦ rw (ge, ne, contains-insert d e ds) (ground arith)
  ]
]

pub contains-erase_empty :
    (d : Bytes) (ds : Directories) → contains [] ds ≡ false → contains [] (erase d ds) ≡ false
unfolding contains erase
contains-erase_empty d [] h = refl
contains-erase_empty d (x ∷ ds) h = elim (Bool-cases (bytes_eq d x)) [
  | inl t ↦ rw t (ground arith)
  | inr f ↦
      (let first : bytes_eq [] x ≡ false = ground arith in
        rw (f, first) (contains-erase_empty d ds (ground arith)))
]

contains-erase :
    (d e : Bytes) (ds : Directories)
    → IsOrdered ds
    → contains e (erase d ds) ≡ (contains e ds && not (bytes_eq e d))
unfolding contains erase
contains-erase d e [] h = refl
contains-erase d e (x ∷ ds) h = elim (Bool-cases (bytes_eq d x)) [
  | inl eq ↦
      (let same : d ≡ x = (bytes_eq_iff d x).0 eq in
        rw (eq, same)
          (elim (Bool-cases (bytes_eq e x)) [
            | inl t ↦ rw (t, IsBelow-contains x e ds h.0 t) refl
            | inr f ↦ rw f (ground arith)
          ]))
  | inr ne ↦
      rw (ne, contains-erase d e ds h.1)
        (elim (Bool-cases (bytes_eq e x)) [
          | inl t ↦
              (let same : e ≡ x = (bytes_eq_iff e x).0 t in
                let other : bytes_eq e d ≡ false =
                  ap (λ z. bytes_eq z d) same ∙ bytes_eq_sym x d ∙ ne in
                rw (t, other) refl)
          | inr f ↦ rw f refl
        ])
]

-- A call of a client that changes the directories. Each holds the mutex `dir_m` from its start
-- to its end, so that the calls of all the clients come one behind the other.
pub data Call : Type 0 where
  add : Bytes → Call
  remove : Bytes → Call

abbrev pub call : Call → Directories → Bool × Directories
call (add d) ds = add_directory d ds
call (remove d) ds = remove_directory d ds

-- The answers to a sequence of calls, and the directories behind them.
abbrev pub calls : List Call → Directories → List Bool × Directories
calls [] ds = ([], ds)
calls (c ∷ cs) ds = let r = call c ds in let rest = calls cs r.1 in (r.0 ∷ rest.0, rest.1)

-- What is promised: a set of names, as a test, without order or representation.
abbrev pub Names : Type 0
Names = Bytes → Bool

abbrev pub promised : Call → Names → Bool × Names
promised (add d) s = (not (s d), λ e. bytes_eq e d || s e)
promised (remove d) s = (s d, λ e. s e && not (bytes_eq e d))

abbrev pub promises : List Call → Names → List Bool × Names
promises [] s = ([], s)
promises (c ∷ cs) s = let r = promised c s in let rest = promises cs r.1 in (r.0 ∷ rest.0, rest.1)

-- The list shows the names of the set, in order and each once.
pub record Shows (ds : Directories) (s : Names) : Type 0 where
  pub ordered : IsOrdered ds
  pub names : (e : Bytes) → contains e ds ≡ s e

-- One call answers as the set does and shows what the set becomes.
pub call_lem :
    (c : Call) (ds : Directories) (s : Names)
    → Shows ds s
    → ((call c ds).0 ≡ (promised c s).0) × Shows (call c ds).1 (promised c s).1
unfolding add_directory remove_directory
call_lem (add d) ds s h = elim (Bool-cases (contains d ds)) [
  | inl t ↦ rw t (
    ground (arith, h.names d),
    record {
      ordered = h.ordered;
      names = λ e. elim (Bool-cases (bytes_eq e d)) [
        | inl eq ↦ rw eq (rw ((bytes_eq_iff e d).0 eq) t)
        | inr ne ↦ rw ne (h.names e)
      ];
    },
  )
  | inr f ↦ rw f (
    ground (arith, h.names d),
    record {
      ordered = insert-IsOrdered d ds h.ordered;
      names = λ e. contains-insert d e ds ∙ ap (λ b. bytes_eq e d || b) (h.names e);
    },
  )
]
call_lem (remove d) ds s h = elim (Bool-cases (contains d ds)) [
  | inl t ↦ rw t (
    sym t ∙ h.names d,
    record {
      ordered = erase-IsOrdered d ds h.ordered;
      names = λ e. contains-erase d e ds h.ordered ∙ ap (λ b. b && not (bytes_eq e d)) (h.names e);
    },
  )
  | inr f ↦ rw f (
    sym f ∙ h.names d,
    record {
      ordered = h.ordered;
      names = λ e. elim (Bool-cases (bytes_eq e d)) [
        | inl eq ↦
            (let gone : s e ≡ false = sym (h.names e) ∙ rw ((bytes_eq_iff e d).0 eq) f in
              rw (eq, gone) (h.names e ∙ gone))
        | inr ne ↦ rw ne (h.names e ∙ ground arith)
      ];
    },
  )
]

-- In whatever order the clients' calls come, `add_directory` and `remove_directory` answer as the
-- promised set does: a name is added exactly if it is absent, and removed exactly if it is
-- present. The list behind them shows the set, in order and each name once.
pub calls_lem :
    (cs : List Call) (ds : Directories) (s : Names)
    → Shows ds s
    → ((calls cs ds).0 ≡ (promises cs s).0) × Shows (calls cs ds).1 (promises cs s).1
calls_lem [] ds s h = (refl, h)
calls_lem (c ∷ cs) ds s h =
    let (answer, shows) = call_lem c ds s h in
    let (answers, rest) = calls_lem cs (call c ds).1 (promised c s).1 shows in
    (rw (answer, answers) refl, rest)
