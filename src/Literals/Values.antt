-- ===== src/Literals/Values.antt =====
-- The value of an integer literal, by the numerals that it may be written with.
use three.Base.{
  ℕ, ◌+◌, ◌-◌, ◌*◌, ◌≤◌, ◌<◌, ◌≡◌, ◌≢◌, ◌⊎◌, true, false, ◌&&◌, ◌==◌, refl, ◌∙◌, [], ◌∷◌, ◌++◌,
  if◌then◌else◌, ltb, inl, inr, Bytes, codes, char_at, length, All, All-append, ok, arith,
}
use three.TypeParser.Parsing.{largest_long}
use three.Literals.{digit_value, leading_digits, strtol, integer_value}

pub data Radix : Type 0 where
  decimal hexadecimal binary : Radix

abbrev pub base_of : Radix → ℕ
base_of decimal = 10
base_of hexadecimal = 16
base_of binary = 2

abbrev pub prefix_of : Radix → Bytes
prefix_of decimal = []
prefix_of hexadecimal = codes "0x"
prefix_of binary = codes "0b"

-- The byte `c` is the digit `d`: a digit, or a letter of either case.
abbrev pub IsDigit : ℕ → ℕ → Type 0
IsDigit c d =
    ((d < 10) × (c ≡ b'0' + d))
    ⊎ ((10 ≤ d) × (c ≡ b'a' + (d - 10)))
    ⊎ ((10 ≤ d) × (c ≡ b'A' + (d - 10)))

-- `Writes r s n`: the digits `s`, the most significant one first, write the number `n`.
pub data Writes (r : Radix) : Bytes → ℕ → Type 0 where
  no_digits : Writes r [] 0
  and_digit :
      {s : Bytes} {n : ℕ}
      → Writes r s n
      → (c d : ℕ) → IsDigit c d
      → d < base_of r
      → Writes r (s ++ c ∷ []) (n * base_of r + d)

-- A decimal numeral of several digits does not begin with 0.
abbrev pub HasNoPrefix : Radix → Bytes → Type 0
HasNoPrefix decimal s = (char_at s 0 ≢ b'0') ⊎ (length s ≡ 1)
HasNoPrefix _ s = Unit

-- The digits of a literal of the number.
abbrev pub IsNumeral : Radix → Bytes → ℕ → Type 0
IsNumeral r s n = Writes r s n × (0 < length s) × HasNoPrefix r s

base-bound : (r : Radix) → base_of r ≤ 16
base-bound decimal = omega arith
base-bound hexadecimal = omega arith
base-bound binary = omega arith

digit_value-IsDigit : (c d : ℕ) → IsDigit c d → d < 16 → digit_value c ≡ d
unfolding digit_value
digit_value-IsDigit c d (inl (low, e)) h = rw e (ground arith)
digit_value-IsDigit c d (inr (inl (high, e))) h = rw e (ground arith)
digit_value-IsDigit c d (inr (inr (high, e))) h = rw e (ground arith)

abbrev AreDigits : Radix → Bytes → Type 0
AreDigits r = All (λ c. digit_value c < base_of r)

leading_digits-append :
    (r : Radix) (value : ℕ) (s : Bytes) (c : ℕ)
    → AreDigits r s
    → digit_value c < base_of r
    → leading_digits (base_of r) value (s ++ c ∷ [])
      ≡ leading_digits (base_of r) value s * base_of r + digit_value c
unfolding leading_digits
leading_digits-append r value [] c h small =
    let test : ltb (digit_value c) (base_of r) ≡ true = ground arith in rw test refl
leading_digits-append r value (x ∷ s) c h small =
    let test : ltb (digit_value x) (base_of r) ≡ true = ground (arith, h.0) in
    rw test (leading_digits-append r (value * base_of r + digit_value x) s c h.1 small)

-- `strtol` adds the digits up to the number that they write.
leading_digits-Writes :
    (r : Radix) {s : Bytes} {n : ℕ}
    → Writes r s n
    → AreDigits r s × (leading_digits (base_of r) 0 s ≡ n)
leading_digits-Writes r no_digits = (tt, unfold leading_digits in refl)
leading_digits-Writes r (and_digit {s = s} w c d is small) =
    let (digits, value) = leading_digits-Writes r w in
    let same = digit_value-IsDigit c d is (omega (arith, base-bound r)) in
    let less : digit_value c < base_of r = rw same small in
    (
      All-append _ s digits _ (less, tt),
      leading_digits-append r 0 s c digits less ∙ rw (value, same) refl,
    )

-- What is kept of a number: the largest signed integer of 64 bits for the larger ones.
abbrev pub saturated : ℕ → ℕ
saturated n = if ltb largest_long n then largest_long else n

strtol-Writes : {s : Bytes} {n : ℕ} (r : Radix) → Writes r s n → strtol (base_of r) s ≡ saturated n
unfolding strtol
strtol-Writes r w = rw (leading_digits-Writes r w).1 refl

no_prefix : (s : Bytes) → HasNoPrefix decimal s → (char_at s 0 == b'0' && ltb 1 (length s)) ≡ false
no_prefix s (inl other) = ground (arith, other)
no_prefix s (inr single) = ground (arith, single)

pub integer_value-IsNumeral :
    (r : Radix) (s : Bytes) (n : ℕ)
    → IsNumeral r s n
    → integer_value (prefix_of r ++ s) ≡ ok (saturated n)
unfolding integer_value char_at
integer_value-IsNumeral decimal s n (w, some, bare) =
    rw (no_prefix s bare) (rw (strtol-Writes decimal w) refl)
integer_value-IsNumeral hexadecimal s n (w, some, bare) =
    let long : ltb 1 (length (prefix_of hexadecimal ++ s)) ≡ true = ground arith in
    let longer : ltb 2 (length (prefix_of hexadecimal ++ s)) ≡ true = ground arith in
    rw long (rw longer (rw (strtol-Writes hexadecimal w) refl))
integer_value-IsNumeral binary s n (w, some, bare) =
    let long : ltb 1 (length (prefix_of binary ++ s)) ≡ true = ground arith in
    let longer : ltb 2 (length (prefix_of binary ++ s)) ≡ true = ground arith in
    rw long (rw longer (rw (strtol-Writes binary w) refl))
