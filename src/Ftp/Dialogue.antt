-- ===== src/Ftp/Dialogue.antt =====
-- The answers of the server of tp3_ftp_multiclient_server as lines that its client reads.
pub mod Together
use mathlib.Core.List.{append_assoc}
use programming_workshop.Common.{
  ℕ, ◌+◌, ◌<◌, ◌≤◌, ◌≡◌, ◌≢◌, refl, sym, ◌∙◌, ap, inl, inr, Bool, true, false, not, ◌&&◌, ◌==◌,
  some, List, [], ◌∷◌, ◌++◌, arith, Bytes, codes, bytes_eq, length, length-append,
}
use programming_workshop.Ftp.Directories.{Directories}
use programming_workshop.Ftp.Config.Lookup.{Lacks}
use programming_workshop.Ftp.Connection.{Client}
use programming_workshop.Ftp.Command.{
  Command, user_command, pass_command, syst_command, list_command, help_command, pwd_command,
  mkd_command, rmd_command, quit_command, invalid_command, create_command,
}
use programming_workshop.Ftp.Command.Named.{NameLacks, create_command-NameLacks}
use programming_workshop.Ftp.Server.Promised.{
  Reply, asked_password, logged_in, failed_login, refused_guest, told_system, told_commands,
  told_directory, listed, made, not_made, removed, not_removed, took_leave, unknown, coded, quoted,
}
use programming_workshop.Ftp.Client.{get_code, is_list_start}

Lacks-append : (d : ℕ) (a b : Bytes) → Lacks d a → Lacks d b → Lacks d (a ++ b)
Lacks-append d [] b h k = k
Lacks-append d (x ∷ a) b h k = (h.0, Lacks-append d a b h.1 k)

-- A text that is a line.
abbrev pub IsLine : Bytes → Type 0
IsLine text = (body : Bytes) × (text ≡ body ++ b'\n' ∷ []) × Lacks b'\n' body

-- A line that starts with a code of three bytes other than 150.
pub record IsAnswer (text : Bytes) : Type 0 where
  pub body : Bytes
  pub same : text ≡ body ++ b'\n' ∷ []
  pub line : Lacks b'\n' body
  pub plain : is_list_start (body ++ b'\n' ∷ []) ≡ some false

-- A code, its three bytes no newline and not those of 150.
abbrev is_code : ℕ → ℕ → ℕ → Bool
is_code x y z =
    not (x == b'\n')
    && (not (y == b'\n') && (not (z == b'\n') && not (bytes_eq (x ∷ y ∷ z ∷ []) (codes "150"))))

pub coded-IsAnswer :
    (x y z : ℕ) (text : Bytes)
    → is_code x y z ≡ true
    → IsLine text
    → IsAnswer (coded (x ∷ y ∷ z ∷ []) text)
unfolding is_list_start get_code
coded-IsAnswer x y z text c (body, e, l) = record {
  body = x ∷ y ∷ z ∷ b' ' ∷ body;
  same = ap (λ t. x ∷ y ∷ z ∷ b' ' ∷ t) e;
  line = (
    (λ h. ground (arith, c, h)),
    ((λ h. ground (arith, c, h)), ((λ h. ground (arith, c, h)), ((λ h. ground (arith, h)), l))),
  );
  plain = ap some (ground (arith, c));
}

quoted-IsAnswer :
    (x y z : ℕ) (name text : Bytes)
    → is_code x y z ≡ true
    → Lacks b'\n' name
    → IsLine text
    → IsAnswer (quoted (x ∷ y ∷ z ∷ []) name text)
unfolding is_list_start get_code
quoted-IsAnswer x y z name text c n (body, e, l) = record {
  body = x ∷ y ∷ z ∷ b' ' ∷ b'"' ∷ (name ++ b'"' ∷ b' ' ∷ body);
  same =
      ap (λ t. x ∷ y ∷ z ∷ b' ' ∷ b'"' ∷ t)
        (ap (λ t. name ++ b'"' ∷ b' ' ∷ t) e
          ∙ sym (append_assoc name (b'"' ∷ b' ' ∷ body) (b'\n' ∷ [])));
  line = (
    (λ h. ground (arith, c, h)),
    (
      (λ h. ground (arith, c, h)),
      (
        (λ h. ground (arith, c, h)),
        (
          (λ h. ground (arith, h)),
          (
            (λ h. ground (arith, h)),
            Lacks-append b'\n' name (b'"' ∷ b' ' ∷ body) n
                ((λ h. ground (arith, h)), ((λ h. ground (arith, h)), l)),
          ),
        ),
      ),
    ),
  );
  plain = ap some (ground (arith, c));
}

-- Every answer but the list, if the texts are lines and the name of the command has no newline but at
-- its end.
pub Reply-IsAnswer :
    {texts : Bytes → Bytes} {c c1 : Client} {ds ds1 : Directories} {cmd : Command} {text : Bytes}
    → ((key : Bytes) → IsLine (texts key))
    → NameLacks b'\n' cmd
    → cmd ≢ list_command
    → Reply texts c ds cmd text c1 ds1
    → IsAnswer text
unfolding bytes_eq
Reply-IsAnswer lines n other (asked_password _) = coded-IsAnswer b'3' b'3' b'1' _ refl (lines _)
Reply-IsAnswer lines n other (logged_in _ _ _) = coded-IsAnswer b'2' b'3' b'0' _ refl (lines _)
Reply-IsAnswer lines n other (failed_login _ _) = coded-IsAnswer b'5' b'3' b'0' _ refl (lines _)
Reply-IsAnswer lines n other (refused_guest _ _ _) = coded-IsAnswer b'5' b'3' b'0' _ refl (lines _)
Reply-IsAnswer lines n other (told_system _) = coded-IsAnswer b'2' b'1' b'5' _ refl (lines _)
Reply-IsAnswer lines n other (told_commands _) = coded-IsAnswer b'2' b'1' b'4' _ refl (lines _)
Reply-IsAnswer lines n other (told_directory _) = coded-IsAnswer b'2' b'5' b'7' _ refl (lines _)
Reply-IsAnswer lines n other (listed _) = absurd (other refl)
Reply-IsAnswer lines n other (made d name b _ e _) =
    quoted-IsAnswer b'2' b'5' b'7' name _ refl (n name b e) (lines _)
Reply-IsAnswer lines n other (not_made _ _ _) = coded-IsAnswer b'5' b'5' b'0' _ refl (lines _)
Reply-IsAnswer lines n other (removed d name b _ e _) =
    quoted-IsAnswer b'2' b'5' b'0' name _ refl (n name b e) (lines _)
Reply-IsAnswer lines n other (not_removed _ _ _) = coded-IsAnswer b'5' b'5' b'0' _ refl (lines _)
Reply-IsAnswer lines n other took_leave = coded-IsAnswer b'2' b'2' b'1' _ refl (lines _)
Reply-IsAnswer lines n other unknown = coded-IsAnswer b'5' b'3' b'0' _ refl (lines _)
