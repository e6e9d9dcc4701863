-- ===== src/Ftp/Server/Promised/Folders.antt =====
-- The answers of tp3_ftp_multiclient_server/common_command.cpp to LIST, MKD and RMD.
use mathlib.Core.List.{append_assoc, append-nil}
use programming_workshop.Common.{
  ℕ, ◌≡◌, ◌≢◌, refl, sym, ◌∙◌, ap, inl, inr, Bool, true, false, some, List, [], ◌∷◌, ◌++◌, arith,
  if◌then◌else◌, Bool-cases, Bytes, codes, ltb, length,
}
use programming_workshop.Sudoku.Socket.{Outcome}
use programming_workshop.Sudoku.Socket.Send.{Accepting}
use programming_workshop.Ftp.Result.{Result, returned, continue, ◌>>=◌, pure}
use programming_workshop.Ftp.Directories.{
  Directories, contains, insert, erase, add_directory, remove_directory, get_list, directories_size,
}
use programming_workshop.Ftp.Config.{ConfigMap, get_message}
use programming_workshop.Ftp.Connection.{Session, send_string}
use programming_workshop.Ftp.Connection.Sending.{send_string_lem}
use programming_workshop.Ftp.Command.{Command, list_command, mkd_command, rmd_command}
use programming_workshop.Ftp.Server.{
  answer, answer_dir, set_directories, send_directories, send_list, send_mkd, send_rmd,
}
use programming_workshop.Ftp.Server.Replies.{answer_lem, answer_dir_lem, sent_more}
use programming_workshop.Ftp.Server.Promised.{
  one_answer, HasName, HasTexts, Reply, listed, made, not_made, removed, not_removed, coded, quoted,
  IsAnswered,
}

send_list_of :
    (s : Session) (ds : Directories)
    → Accepting s.outcomes
    → (left : List Outcome) × ((if ltb 0 (length ds) then send_string (get_list ds) else pure tt) s
        ≡ returned tt (sent_more s left (get_list ds)))
      × Accepting left
unfolding get_list
send_list_of s [] a =
    (s.outcomes, ap (λ x. returned tt (record s { sent = x })) (sym (append-nil s.sent)), a)
send_list_of s (d ∷ ds) a =
    let some_list : ltb 0 (length (d ∷ ds)) ≡ true = ground arith in
    let (left, r, b) = send_string_lem (get_list (d ∷ ds)) s a in
    (left, ap (λ t. (if t then send_string (get_list (d ∷ ds)) else pure tt) s) some_list ∙ r, b)

-- The list is sent, and nothing if it is empty.
send_directories_lem :
    (s : Session)
    → Accepting s.outcomes
    → (left : List Outcome) × (send_directories s
        ≡ returned tt (sent_more s left (get_list s.directories)))
      × Accepting left
unfolding send_directories directories_size
send_directories_lem s a = send_list_of s s.directories a

pub send_list-IsAnswered :
    (cfg : ConfigMap) (texts : Bytes → Bytes) (s : Session)
    → HasTexts cfg texts
    → Accepting s.outcomes
    → s.client.logged ≡ true
    → IsAnswered texts list_command s (send_list cfg s)
unfolding send_list
send_list-IsAnswered cfg texts s t a granted =
    let begin : Bytes = coded (codes "150") (texts (codes "listBegin")) in
    let end : Bytes = coded (codes "226") (texts (codes "listEnd")) in
    let (left1, r1, a1) =
      answer_lem cfg (codes "150") (codes "listBegin") (texts (codes "listBegin")) s t.list_begin
        a in
    let s1 : Session = sent_more s left1 begin in
    let (left2, r2, a2) = send_directories_lem s1 a1 in
    let s2 : Session = sent_more s1 left2 (get_list s.directories) in
    let (left, r, b) =
      answer_lem cfg (codes "226") (codes "listEnd") (texts (codes "listEnd")) s2 t.list_end a2 in
    record {
      left = left;
      text = begin ++ (get_list s.directories ++ end);
      client = s.client;
      directories = s.directories;
      reply = listed granted;
      result =
          ap (continue (λ u. (do _ ← send_directories; answer cfg (codes "226") (codes "listEnd"))))
            r1
          ∙ ap (continue (λ u. answer cfg (codes "226") (codes "listEnd"))) r2
          ∙ r
          ∙ ap (λ x. returned tt (record s { outcomes = left; sent = x }))
              (append_assoc (s.sent ++ begin) (get_list s.directories) end
                ∙ append_assoc s.sent begin (get_list s.directories ++ end));
      accepting = b;
    }

-- A string that is not empty is its last byte behind the rest.
last_byte : (d : Bytes) → d ≢ [] → (name : Bytes) × (b : ℕ) × (d ≡ name ++ b ∷ [])
last_byte [] h = absurd (h refl)
last_byte (x ∷ []) h = ([], x, refl)
last_byte (x ∷ y ∷ d) h =
    let (name, b, e) = last_byte (y ∷ d) (λ z. ground (arith, z)) in
    (x ∷ name, b, ap (λ z. x ∷ z) e)

-- A directory that is added or removed is answered with its name, and one that is not with an error.
answer_dir-IsAnswered :
    (cfg : ConfigMap) (texts : Bytes → Bytes) (cmd : Command) (id d name message : Bytes) (b : ℕ)
    (s : Session) (ds : Directories)
    → d ≡ name ++ b ∷ []
    → get_message cfg message ≡ some (texts message)
    → Accepting s.outcomes
    → (r : Result Session Unit) → r ≡ answer_dir cfg id d message (record s { directories = ds })
    → Reply texts s.client s.directories cmd (quoted id name (texts message)) s.client ds
    → IsAnswered texts cmd s r
answer_dir-IsAnswered cfg texts cmd id d name message c s ds same e a r h reply =
    let (left, sent, b) =
      answer_dir_lem cfg id name message (texts message) c (record s { directories = ds }) e a in
    record {
      left = left;
      text = quoted id name (texts message);
      client = s.client;
      directories = ds;
      reply = reply;
      result =
          h ∙ ap (λ x. answer_dir cfg id x message (record s { directories = ds })) same ∙ sent;
      accepting = b;
    }

pub send_mkd-IsAnswered :
    (cfg : ConfigMap) (texts : Bytes → Bytes) (d : Bytes) (s : Session)
    → HasTexts cfg texts
    → Accepting s.outcomes
    → HasName s.directories (mkd_command d)
    → s.client.logged ≡ true
    → IsAnswered texts (mkd_command d) s (send_mkd cfg d s)
unfolding send_mkd add_directory
send_mkd-IsAnswered cfg texts d s t a named granted =
    let step = λ (present : Bool).
      let r : Bool × Directories =
        if present then (false, s.directories) else (true, insert d s.directories) in
      continue
        (λ (u : Unit {0}).
          if r.0
          then answer_dir cfg (codes "257") d (codes "mkdSuccess")
          else answer cfg (codes "550") (codes "mkdFailed"))
        (set_directories r.1 s) in
    elim (Bool-cases (contains d s.directories)) [
      | inl present ↦
          one_answer cfg texts (mkd_command d) (codes "550") (codes "mkdFailed") s t.mkd_failed a
            (send_mkd cfg d s) (ap step present) (not_made d granted present)
      | inr absent ↦ elim named [
        | inl some_name ↦
            (let (name, c, e) = last_byte d some_name in
              answer_dir-IsAnswered cfg texts (mkd_command d) (codes "257") d name
                (codes "mkdSuccess") c s (insert d s.directories) e t.mkd_success a
                (send_mkd cfg d s) (ap step absent) (made d name c granted e absent))
        | inr present ↦ absurd (ground (arith, absent, present))
      ]
    ]

pub send_rmd-IsAnswered :
    (cfg : ConfigMap) (texts : Bytes → Bytes) (d : Bytes) (s : Session)
    → HasTexts cfg texts
    → Accepting s.outcomes
    → HasName s.directories (rmd_command d)
    → s.client.logged ≡ true
    → IsAnswered texts (rmd_command d) s (send_rmd cfg d s)
unfolding send_rmd remove_directory
send_rmd-IsAnswered cfg texts d s t a named granted =
    let step = λ (present : Bool).
      let r : Bool × Directories =
        if present then (true, erase d s.directories) else (false, s.directories) in
      continue
        (λ (u : Unit {0}).
          if r.0
          then answer_dir cfg (codes "250") d (codes "rmdSuccess")
          else answer cfg (codes "550") (codes "rmdFailed"))
        (set_directories r.1 s) in
    elim (Bool-cases (contains d s.directories)) [
      | inl present ↦ elim named [
        | inl some_name ↦
            (let (name, c, e) = last_byte d some_name in
              answer_dir-IsAnswered cfg texts (rmd_command d) (codes "250") d name
                (codes "rmdSuccess") c s (erase d s.directories) e t.rmd_success a
                (send_rmd cfg d s) (ap step present) (removed d name c granted e present))
        | inr absent ↦ absurd (ground (arith, absent, present))
      ]
      | inr absent ↦
          one_answer cfg texts (rmd_command d) (codes "550") (codes "rmdFailed") s t.rmd_failed a
            (send_rmd cfg d s) (ap step absent) (not_removed d granted absent)
    ]
