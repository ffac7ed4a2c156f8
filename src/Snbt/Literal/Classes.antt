-- ===== src/Snbt/Literal/Classes.antt =====
-- The loop of `parseLiteral` of nbt/snbt_decode.go over a numeral.
use mc_afk_go.Base.{ℕ, ◌+◌, ◌-◌, ◌<◌, ◌≡◌, refl, ap, ◌∙◌}
use mc_afk_go.Base.{arith, true, false, ◌==◌}
use mc_afk_go.Base.{inl, inr, [], ◌∷◌, ◌++◌, length, take, All}
use mc_afk_go.Base.{length-append}
use mc_afk_go.Io.{Bytes}
use mc_afk_go.Snbt.{is_number}
use mc_afk_go.Snbt.Literal.{Class, start_class, class_byte, class_bytes, is_integer_type}
use mc_afk_go.Snbt.Literal.Integers.{IsDigit, IsNumeral}

pub take-length : (xs : Bytes) → take (length xs) xs ≡ xs
take-length [] = refl
take-length (x ∷ xs) = ap (◌∷◌ x) (take-length xs)

-- The loop over digits changes nothing.
pub class_bytes-digits : (i : ℕ) (xs : Bytes) (k : Class) → All IsDigit xs → class_bytes i xs k ≡ k
unfolding class_bytes class_byte
class_bytes-digits i [] k h = refl
class_bytes-digits i (x ∷ xs) k h = rw h.0 (class_bytes-digits (i + 1) xs k h.1)

pub class_bytes-append :
    (i : ℕ) (xs ys : Bytes) (k : Class)
    → class_bytes i (xs ++ ys) k ≡ class_bytes (i + length xs) ys (class_bytes i xs k)
unfolding class_bytes
class_bytes-append i [] ys k = ap (λ (j : ℕ). class_bytes j ys k) (omega arith)
class_bytes-append i (x ∷ xs) ys k =
    class_bytes-append (i + 1) xs ys (class_byte i x k)
    ∙ ap (λ (j : ℕ). class_bytes j ys (class_bytes (i + 1) xs (class_byte i x k))) (omega arith)

pub class_byte-minus : (len : ℕ) → class_byte 0 b'-' (start_class len) ≡ start_class len
unfolding class_byte is_number
class_byte-minus len = ground arith

-- So does the loop over a numeral, if it starts as parseLiteral does.
pub class_bytes-numeral :
    (xs : Bytes) (len : ℕ) → IsNumeral xs → class_bytes 0 xs (start_class len) ≡ start_class len
unfolding class_bytes
class_bytes-numeral [] len h = absurd h
class_bytes-numeral (c ∷ cs) len h = elim h.0 [
  | inl d ↦ class_bytes-digits 0 (c ∷ cs) (start_class len) (d, h.1)
  | inr minus ↦
      ap (λ (x : ℕ). class_bytes 1 cs (class_byte 0 x (start_class len))) minus
      ∙ ap (class_bytes 1 cs) (class_byte-minus len)
      ∙ class_bytes-digits 1 cs (start_class len) h.1
]

pub class_byte-suffix :
    (n len t : ℕ)
    → 0 < n
    → len ≡ n + 1
    → is_number t ≡ false
    → is_integer_type t ≡ true
    → class_byte n t (start_class len) ≡ record (start_class n) { number_type = t }
unfolding class_byte
class_byte-suffix n len t pos e h k =
    rw (h, last, not_first, k)
      (ap (λ (m : ℕ). record (start_class m) { number_type = t }) (omega arith))
  where
    last : (n == len - 1) ≡ true
    last = ground arith

    not_first : (n == 0) ≡ false
    not_first = ground arith

pub IsNumeral-nonempty : (xs : Bytes) → IsNumeral xs → 0 < length xs
IsNumeral-nonempty [] h = absurd h
IsNumeral-nonempty (c ∷ cs) h = omega arith

-- The letter of an integer type after a numeral.
pub class_bytes-suffix :
    (xs : Bytes) (t : ℕ)
    → IsNumeral xs
    → is_number t ≡ false
    → is_integer_type t ≡ true
    → class_bytes 0 (xs ++ t ∷ []) (start_class (length (xs ++ t ∷ [])))
      ≡ record (start_class (length xs)) { number_type = t }
unfolding class_bytes
class_bytes-suffix xs t h k l =
    class_bytes-append 0 xs (t ∷ []) (start_class (length (xs ++ t ∷ [])))
    ∙ ap (class_byte (0 + length xs) t) (class_bytes-numeral xs (length (xs ++ t ∷ [])) h)
    ∙ class_byte-suffix (0 + length xs) (length (xs ++ t ∷ [])) t
        (omega (arith, IsNumeral-nonempty xs h)) (omega (arith, length-append xs (t ∷ []))) k l
    ∙ ap (λ (m : ℕ). record (start_class m) { number_type = t }) (omega arith)

pub class_byte-other :
    (n len t : ℕ)
    → 0 < n
    → is_number t ≡ false
    → is_integer_type t ≡ false
    → class_byte n t (start_class len)
      ≡ record (start_class len) { integer = false; number = t == b'.' }
unfolding class_byte
class_byte-other n len t pos h k = rw (h, k) (ground arith)

-- A byte after a numeral that is no letter of an integer type.
pub class_bytes-other :
    (xs ys : Bytes) (t len : ℕ)
    → IsNumeral xs
    → is_number t ≡ false
    → is_integer_type t ≡ false
    → class_bytes 0 (xs ++ t ∷ ys) (start_class len)
      ≡ class_bytes
          (length xs + 1)
          ys
          (record (start_class len) { integer = false; number = t == b'.' })
unfolding class_bytes
class_bytes-other xs ys t len h k l =
    class_bytes-append 0 xs (t ∷ ys) (start_class len)
    ∙ ap (λ (j : Class). class_bytes (0 + length xs + 1) ys (class_byte (0 + length xs) t j))
        (class_bytes-numeral xs len h)
    ∙ ap (class_bytes (0 + length xs + 1) ys)
        (class_byte-other (0 + length xs) len t (omega (arith, IsNumeral-nonempty xs h)) k l)
    ∙ ap
        (λ (j : ℕ).
          class_bytes j ys (record (start_class len) { integer = false; number = t == b'.' }))
        (omega arith)
