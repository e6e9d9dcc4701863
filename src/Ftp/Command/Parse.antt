-- ===== src/Ftp/Command/Parse.antt =====
-- Which lines `create_command` of tp3_ftp_multiclient_server/common_command.cpp reads as what.
use programming_workshop.Common.{
  ℕ, ◌≤◌, ◌<◌, ◌≡◌, refl, ap, false, some, [], ◌∷◌, ◌++◌, arith, ltb, lt→ltb, ◌==◌, Bytes, length,
  length-append,
}
use programming_workshop.Ftp.Config.Lookup.{Lacks}
use programming_workshop.Ftp.Command.{
  identify_command, split_space, or_whole, pop_back, create_command,
}

split_space-append : (a b : Bytes) → Lacks b' ' a → split_space (a ++ b' ' ∷ b) ≡ some (a, b)
unfolding split_space
split_space-append [] b h = refl
split_space-append (c ∷ a) b h =
    let ne : (c == b' ') ≡ false = ground arith in rw (ne, split_space-append a b h.1) refl

pub pop_back-append : (a : Bytes) (c : ℕ) → pop_back (a ++ c ∷ []) ≡ some a
unfolding pop_back
pop_back-append [] c = refl
pop_back-append (x ∷ []) c = refl
pop_back-append (x ∷ y ∷ a) c = rw (pop_back-append (y ∷ a) c) refl

-- A line of more than 5 bytes, that is a word without a space, a space and an argument, is the
-- command that the word names, with the rest of the line as its argument, the newline included.
pub create_command_lem :
    (word arg : Bytes)
    → Lacks b' ' word
    → 5 < length (word ++ b' ' ∷ arg)
    → create_command (word ++ b' ' ∷ arg) ≡ some (identify_command word arg)
unfolding create_command
create_command_lem word arg h n = rw (lt→ltb 5 (length (word ++ b' ' ∷ arg)) n) (
    ap (λ r. let parts = or_whole (word ++ b' ' ∷ arg) r in some (identify_command parts.0 parts.1))
      (split_space-append word arg h))

-- A line of at most 5 bytes is the command that the word before its last byte names, without
-- an argument. So a bare MKD names the empty directory.
pub create_command-short :
    (word : Bytes) (c : ℕ)
    → length word ≤ 4
    → create_command (word ++ c ∷ []) ≡ some (identify_command word [])
unfolding create_command
create_command-short word c n =
    let short : ltb 5 (length (word ++ c ∷ [])) ≡ false =
      ground (arith, length-append word (c ∷ [])) in
    rw (short, pop_back-append word c) refl
