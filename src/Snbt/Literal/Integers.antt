-- ===== src/Snbt/Literal/Integers.antt =====
-- The digits that strconv.FormatInt writes, and their reading by strconv.ParseInt, as nbt/snbt.go and
-- nbt/snbt_decode.go use them.
use mc_afk_go.Base.{
  ℕ, zero, suc, ◌+◌, ◌-◌, ◌*◌, ◌/◌, ◌%◌, ◌^◌, ◌≤◌, ◌<◌, ◌≡◌, refl, sym, ap, subst, ◌∙◌,
}
use mc_afk_go.Base.{arith, true, false, ltb, leb, ◌==◌, le→leb, lt→leb}
use mc_afk_go.Base.{leb→le, lt→ltb, if◌then◌else◌}
use mc_afk_go.Base.{Bool-cases, inl, inr, ◌⊎◌, none, some, [], ◌∷◌, ◌++◌, All}
use mc_afk_go.Base.Bits.{IsByte}
use mc_afk_go.Io.{Bytes}
use mc_afk_go.Snbt.{is_number}
use mc_afk_go.Snbt.Print.{decimal, format_int}
use mc_afk_go.Snbt.Literal.{parse_digits, parse_unsigned, signed, parse_int}

abbrev pub IsDigit : ℕ → Type 0
IsDigit c = is_number c ≡ true

digit : (d : ℕ) → d < 10 → IsDigit (d + b'0')
unfolding is_number
digit d h = ground arith

pub All-append-IsDigit :
    (xs : Bytes) (d : ℕ) → All IsDigit xs → IsDigit d → All IsDigit (xs ++ d ∷ [])
All-append-IsDigit [] d h k = (k, tt)
All-append-IsDigit (x ∷ xs) d h k = (h.0, All-append-IsDigit xs d h.1 k)

pub decimal-digits : (fuel n : ℕ) → All IsDigit (decimal fuel n)
unfolding decimal
decimal-digits zero n = tt
decimal-digits (suc fuel) n = elim (Bool-cases (ltb n 10)) [
  | inl small ↦ rw small (digit n (ground arith), tt)
  | inr large ↦ rw large (
      All-append-IsDigit (decimal fuel (n / 10)) ((n % 10) + b'0') (decimal-digits fuel (n / 10))
        (digit (n % 10) (omega arith)))
]

parse_digits-nil : (acc : ℕ) → parse_digits acc [] ≡ some acc
unfolding parse_digits
parse_digits-nil acc = refl

parse_digits-append_digit :
    (acc a d : ℕ) (xs : Bytes)
    → parse_digits acc xs ≡ some a
    → d < 10
    → parse_digits acc (xs ++ (d + b'0') ∷ []) ≡ some (a * 10 + d)
unfolding parse_digits
parse_digits-append_digit acc a d [] h k = rw (digit d k) (ground arith)
parse_digits-append_digit acc a d (x ∷ xs) h k = elim (Bool-cases (is_number x)) [
  | inl yes' ↦ rw yes' (parse_digits-append_digit (acc * 10 + (x - b'0')) a d xs (rw yes' at h) k)
  | inr no' ↦ ground arith
]

pub parse_digits-decimal : (fuel n : ℕ) → n < fuel → parse_digits 0 (decimal fuel n) ≡ some n
unfolding decimal
parse_digits-decimal zero n h = absurd (omega arith)
parse_digits-decimal (suc fuel) n h = elim (Bool-cases (ltb n 10)) [
  | inl small ↦ rw small (
      parse_digits-append_digit 0 0 n [] (parse_digits-nil 0) (ground arith)
      ∙ ap some (omega arith))
  | inr large ↦ rw large (
      parse_digits-append_digit 0 (n / 10) (n % 10) (decimal fuel (n / 10))
        (parse_digits-decimal fuel (n / 10) (ground arith)) (omega arith)
      ∙ ap some (omega arith))
]

-- A sign or a digit, and digits.
abbrev pub IsNumeral : Bytes → Type 0
IsNumeral [] = ⊥
IsNumeral (c ∷ cs) = (IsDigit c ⊎ (c ≡ b'-')) × All IsDigit cs

decimal-cons : (fuel n : ℕ) → n < fuel → (c : ℕ) × (cs : Bytes) × (decimal fuel n ≡ c ∷ cs)
unfolding decimal
decimal-cons zero n h = absurd (omega arith)
decimal-cons (suc fuel) n h = elim (Bool-cases (ltb n 10)) [
  | inl small ↦ (n + b'0', [], rw small)
  | inr large ↦
      (let (c, cs, e) = decimal-cons fuel (n / 10) (ground arith) in
        (c, cs ++ ((n % 10) + b'0') ∷ [], rw (large, e)))
]

decimal-IsNumeral : (fuel n : ℕ) → n < fuel → IsNumeral (decimal fuel n)
decimal-IsNumeral fuel n h =
    let (c, cs, e) = decimal-cons fuel n h in
    let digits : All IsDigit (c ∷ cs) = subst (All IsDigit) e (decimal-digits fuel n) in
    subst IsNumeral (sym e) (inl digits.0, digits.1)

pub format_int-IsNumeral : (bits v : ℕ) → IsNumeral (format_int bits v)
unfolding format_int
format_int-IsNumeral bits v = elim (Bool-cases (leb (2 ^ (bits - 1)) v)) [
  | inl negative ↦ rw negative (inr refl, decimal-digits (suc (2 ^ bits - v)) (2 ^ bits - v))
  | inr positive ↦ rw positive (decimal-IsNumeral (suc v) v (omega arith))
]

parse_unsigned-cons : (c : ℕ) (cs : Bytes) → parse_unsigned (c ∷ cs) ≡ parse_digits 0 (c ∷ cs)
unfolding parse_unsigned
parse_unsigned-cons c cs = refl

signed-positive : (bits n : ℕ) → n < 2 ^ (bits - 1) → signed bits false (some n) ≡ some n
unfolding signed
signed-positive bits n h = rw (lt→ltb n (2 ^ (bits - 1)) h)

signed-negative :
    (bits n : ℕ) → 0 < n → n ≤ 2 ^ (bits - 1) → signed bits true (some n) ≡ some (2 ^ bits - n)
unfolding signed
signed-negative bits n pos h = rw (le→leb n (2 ^ (bits - 1)) h, nonzero)
  where
    nonzero : (n == 0) ≡ false
    nonzero = ground arith

signed_byte : (n : ℕ) → signed 8 false (some n) ≡ (if ltb n 0x80 then some n else none)
unfolding signed
signed_byte n = refl

parse_unsigned-decimal : (fuel n : ℕ) → n < fuel → parse_unsigned (decimal fuel n) ≡ some n
parse_unsigned-decimal fuel n h =
    let (c, cs, e) = decimal-cons fuel n h in
    ap parse_unsigned e
    ∙ parse_unsigned-cons c cs
    ∙ ap (parse_digits 0) (sym e)
    ∙ parse_digits-decimal fuel n h

parse_int-digits :
    (bits : ℕ) (xs : Bytes)
    → All IsDigit xs
    → parse_int bits xs ≡ signed bits false (parse_unsigned xs)
unfolding parse_int is_number
parse_int-digits bits [] h = refl
parse_int-digits bits (c ∷ cs) h =
    let digit' : IsDigit c = h.0 in
    let not_minus : (c == b'-') ≡ false = ground arith in
    let not_plus : (c == b'+') ≡ false = ground arith in rw (not_minus, not_plus)

-- A positive number and a negative one, in a type of `bits` bits.
parse_int-positive : (bits v : ℕ) → v < 2 ^ (bits - 1) → parse_int bits (decimal (suc v) v) ≡ some v
parse_int-positive bits v h =
    parse_int-digits bits (decimal (suc v) v) (decimal-digits (suc v) v)
    ∙ ap (signed bits false) (parse_unsigned-decimal (suc v) v (omega arith))
    ∙ signed-positive bits v h

parse_int-negative :
    (bits m : ℕ)
    → 0 < m
    → m ≤ 2 ^ (bits - 1)
    → parse_int bits (b'-' ∷ decimal (suc m) m) ≡ some (2 ^ bits - m)
unfolding parse_int
parse_int-negative bits m pos h =
    ap (signed bits true) (parse_unsigned-decimal (suc m) m (omega arith))
    ∙ signed-negative bits m pos h

-- What is printed of a pattern is read as that pattern.
pub parse_int-format_int :
    (bits v : ℕ)
    → 2 ^ bits ≡ 2 * 2 ^ (bits - 1)
    → v < 2 ^ bits
    → parse_int bits (format_int bits v) ≡ some v
unfolding format_int
parse_int-format_int bits v half h = elim (Bool-cases (leb (2 ^ (bits - 1)) v)) [
  | inl negative ↦ rw negative (
      parse_int-negative bits (2 ^ bits - v) (omega arith)
        (omega (arith, leb→le (2 ^ (bits - 1)) v negative))
      ∙ ap some (omega arith))
  | inr positive ↦ rw positive (parse_int-positive bits v (ground arith))
]

-- A byte, printed without a sign, in a type of eight bits.
pub parse_int-byte :
    (b : ℕ) → IsByte b → parse_int 8 (format_int 64 b) ≡ (if ltb b 0x80 then some b else none)
unfolding format_int
parse_int-byte b h = rw (lt→leb 0x8000_0000_0000_0000 b (omega arith)) (
    parse_int-digits 8 (decimal (suc b) b) (decimal-digits (suc b) b)
    ∙ ap (signed 8 false) (parse_unsigned-decimal (suc b) b (omega arith))
    ∙ signed_byte b)
