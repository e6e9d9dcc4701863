-- ===== src/Ftp/Error/Messages.antt =====
-- The text of an exception with a message, a label and two numbers, as common_socket.cpp of
-- tp3_ftp_multiclient_server throws it.
use programming_workshop.Common.{
  ℕ, zero, suc, ◌+◌, ◌*◌, ◌/◌, ◌%◌, ◌≤◌, ◌<◌, ◌≡◌, refl, ap, inl, inr, true, false, some, [], ◌∷◌,
  ◌++◌, arith, ltb, Bool-cases, Bytes, codes, length, length-append, take-all,
}
use programming_workshop.Common.Int.{ℤ, pos, negsuc}
use programming_workshop.Common.Decimal.{decimal, decimal_onto}
use programming_workshop.Ftp.Error.{text, number, signed_decimal, format, error, numbered}

abbrev tens : ℕ → ℕ
tens zero = 1
tens (suc k) = 10 * tens k

onto-digit :
    (fuel n : ℕ) (rest : Bytes) → ltb n 10 ≡ true → decimal_onto (suc fuel) n rest ≡ (48 + n) ∷ rest
unfolding decimal_onto
onto-digit fuel n rest h = rw (decimal_onto, h) refl

onto-more :
    (fuel n : ℕ) (rest : Bytes)
    → ltb n 10 ≡ false
    → decimal_onto (suc fuel) n rest ≡ decimal_onto fuel (n / 10) ((48 + n % 10) ∷ rest)
unfolding decimal_onto
onto-more fuel n rest h = rw (decimal_onto, h) refl

length-decimal_onto :
    (k fuel n : ℕ) (rest : Bytes)
    → n < tens (suc k)
    → length (decimal_onto fuel n rest) ≤ suc k + length rest
unfolding decimal_onto
length-decimal_onto k zero n rest h = omega arith
length-decimal_onto zero (suc fuel) n rest h =
    let digit : ltb n 10 ≡ true = ground arith in
    omega (arith, ap length (onto-digit fuel n rest digit))
length-decimal_onto (suc k) (suc fuel) n rest h = elim (Bool-cases (ltb n 10)) [
  | inl t ↦ omega (arith, ap length (onto-digit fuel n rest t))
  | inr f ↦
      (let less : n / 10 < tens (suc k) = omega (arith, h) in
        omega (
          arith,
          ap length (onto-more fuel n rest f),
          length-decimal_onto k fuel (n / 10) ((48 + n % 10) ∷ rest) less,
        ))
]

-- A value of `int`, whose text has 11 bytes at most.
abbrev pub IsInt : ℤ → Type 0
IsInt (pos n) = n < 2147483648
IsInt (negsuc n) = n < 2147483648

length-decimal : (n : ℕ) → n ≤ 2147483648 → length (decimal n) ≤ 10
unfolding decimal
length-decimal n h = length-decimal_onto 9 (suc n) n [] (omega (arith, h))

length-signed : (n : ℤ) → IsInt n → length (signed_decimal n) ≤ 11
unfolding signed_decimal
length-signed (pos n) h = omega (arith, length-decimal n (omega (arith, h)))
length-signed (negsuc n) h = omega (arith, length-decimal (suc n) (omega (arith, h)))

-- The text of most exceptions, for a message and a label of 57 bytes at most and two values of `int`: it is
-- whole, though the class keeps 99 bytes.
pub error_lem :
    (message label : Bytes) (n errno : ℤ)
    → length message + length label ≤ 57
    → IsInt n
    → IsInt errno
    → error numbered (text message ∷ text label ∷ number n ∷ number errno ∷ [])
      ≡ some (
          message
          ++ (codes " ("
              ++ (label
                  ++ (signed_decimal n
                      ++ (codes "). Error number: " ++ (signed_decimal errno ++ codes "."))))))
unfolding error format
error_lem message label n errno short i j =
    let tail : Bytes = codes "). Error number: " ++ (signed_decimal errno ++ codes ".") in
    let whole : Bytes = message ++ (codes " (" ++ (label ++ (signed_decimal n ++ tail))) in
    ap some (
      take-all 99 whole (
        omega (
          arith,
          short,
          length-signed n i,
          length-signed errno j,
          length-append message (codes " (" ++ (label ++ (signed_decimal n ++ tail))),
          length-append label (signed_decimal n ++ tail),
          length-append (signed_decimal n) tail,
          length-append (signed_decimal errno) (codes "."),
        )))
