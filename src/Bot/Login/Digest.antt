-- ===== src/Bot/Login/Digest.antt =====
-- What the text of `authDigest` of bot/login.go denotes.
use mc_afk_go.Base.{ℕ, ◌+◌, ◌-◌, ◌*◌, ◌/◌, ◌%◌, ◌^◌, ◌<◌, ◌≡◌, refl, sym, ap, ap₂, ◌∙◌}
use mc_afk_go.Base.{arith, Bool, true, false, ltb, ◌==◌, not, if◌then◌else◌, Bool-cases, inl, inr}
use mc_afk_go.Base.{[], ◌∷◌, ◌++◌, length, All}
use native.Mathlib.Nat.{add-mul, mul_assoc}
use mc_afk_go.Base.Bits.{IsByte}
use mc_afk_go.Io.{Bytes}
use mc_afk_go.Bot.Login.Complement.{
  magnitude, pow_next, magnitude-lt, is_negative-half, twos_complement-magnitude,
}
use mc_afk_go.Bot.Login.{
  twos_complement, hex_digit, encode_to_string, trim_left, is_negative, digest_text, auth_digest,
}

digit_value : ℕ → ℕ
digit_value c = if ltb c b'a' then c - b'0' else (c - b'a') + 10

-- The value of a hexadecimal text, behind digits that are worth `acc`.
unfoldable pub read_hex : ℕ → Bytes → ℕ
unfolding digit_value
read_hex acc [] = acc
read_hex acc (c ∷ cs) = read_hex (acc * 16 + digit_value c) cs

-- A text with a sign: whether it is negative, and its magnitude.
unfoldable pub read_signed : Bytes → Bool × ℕ
unfolding read_hex
read_signed [] = (false, 0)
read_signed (c ∷ cs) = if c == b'-' then (true, read_hex 0 cs) else (false, read_hex 0 (c ∷ cs))

-- The digits behind the sign do not begin with a zero.
starts_zero : Bytes → Bool
starts_zero [] = false
starts_zero (c ∷ cs) = c == b'0'

unfoldable pub trimmed : Bytes → Bool
unfolding starts_zero
trimmed [] = true
trimmed (c ∷ cs) = if c == b'-' then not (starts_zero cs) else not (c == b'0')

abbrev IsHex : ℕ → Type 0
IsHex c = (c == b'-') ≡ false

digit_value-hex_digit : (d : ℕ) → d < 16 → digit_value (hex_digit d) ≡ d
unfolding digit_value hex_digit
digit_value-hex_digit d h = ground arith

place_value : (acc b n m : ℕ) → (acc * 256 + b) * n + m ≡ acc * (256 * n) + (b * n + m)
place_value acc b n m = omega (arith, add-mul (acc * 256) b n, mul_assoc acc 256 n)

read_hex-encode_to_string :
    (acc : ℕ) (bs : Bytes)
    → All IsByte bs
    → read_hex acc (encode_to_string bs) ≡ acc * 256 ^ length bs + magnitude bs
unfolding read_hex encode_to_string magnitude
read_hex-encode_to_string acc [] h = omega arith
read_hex-encode_to_string acc (b ∷ bs) h =
    ap₂ (λ (x y : ℕ). read_hex ((acc * 16 + x) * 16 + y) (encode_to_string bs))
      (digit_value-hex_digit (b / 16) (omega arith)) (digit_value-hex_digit (b % 16) (omega arith))
    ∙ read_hex-encode_to_string ((acc * 16 + b / 16) * 16 + b % 16) bs h.1
    ∙ ap (λ (k : ℕ). k * 256 ^ length bs + magnitude bs) whole
    ∙ place_value acc b (256 ^ length bs) (magnitude bs)
    ∙ ap (λ (n : ℕ). acc * n + (b * 256 ^ length bs + magnitude bs)) (pow_next (length bs))
  where
    whole : (acc * 16 + b / 16) * 16 + b % 16 ≡ acc * 256 + b
    whole = omega arith

read_hex-trim_left : (cs : Bytes) → read_hex 0 (trim_left cs) ≡ read_hex 0 cs
unfolding read_hex trim_left digit_value
read_hex-trim_left [] = refl
read_hex-trim_left (c ∷ cs) = elim (Bool-cases (c == b'0')) [
  | inl zero_digit ↦
      rw zero_digit (read_hex-trim_left cs ∙ ap (λ (k : ℕ). read_hex k cs) (ground arith))
  | inr other ↦ rw other refl
]

IsHex-hex_digit : (d : ℕ) → IsHex (hex_digit d)
unfolding hex_digit
IsHex-hex_digit d = ground arith

IsHex-encode_to_string : (bs : Bytes) → All IsByte bs → All IsHex (encode_to_string bs)
unfolding encode_to_string
IsHex-encode_to_string [] h = tt
IsHex-encode_to_string (b ∷ bs) h =
    (IsHex-hex_digit (b / 16), (IsHex-hex_digit (b % 16), IsHex-encode_to_string bs h.1))

IsHex-trim_left : (cs : Bytes) → All IsHex cs → All IsHex (trim_left cs)
unfolding trim_left
IsHex-trim_left [] h = tt
IsHex-trim_left (c ∷ cs) h = elim (Bool-cases (c == b'0')) [
  | inl zero_digit ↦ rw zero_digit (IsHex-trim_left cs h.1)
  | inr other ↦ rw other h
]

starts_zero-trim_left : (cs : Bytes) → starts_zero (trim_left cs) ≡ false
unfolding trim_left starts_zero
starts_zero-trim_left [] = refl
starts_zero-trim_left (c ∷ cs) = elim (Bool-cases (c == b'0')) [
  | inl zero_digit ↦ rw zero_digit (starts_zero-trim_left cs)
  | inr other ↦ rw other other
]

-- Digits without a sign, none of them a zero in front.
unsigned_text :
    (cs : Bytes)
    → All IsHex cs
    → starts_zero cs ≡ false
    → (read_signed cs ≡ (false, read_hex 0 cs)) × (trimmed cs ≡ true)
unfolding read_signed read_hex trimmed starts_zero
unsigned_text [] h k = (refl, refl)
unsigned_text (c ∷ cs) h k = rw (h.0, k) (refl, refl)

signed_text :
    (cs : Bytes)
    → starts_zero cs ≡ false
    → (read_signed (b'-' ∷ cs) ≡ (true, read_hex 0 cs)) × (trimmed (b'-' ∷ cs) ≡ true)
unfolding read_signed trimmed
signed_text cs k = rw k (refl, refl)

hex_text-value :
    (bs : Bytes) → All IsByte bs → read_hex 0 (trim_left (encode_to_string bs)) ≡ magnitude bs
hex_text-value bs h =
    read_hex-trim_left (encode_to_string bs) ∙ read_hex-encode_to_string 0 bs h ∙ omega arith

positive_text :
    (bs : Bytes)
    → All IsByte bs
    → let t = trim_left (encode_to_string bs) in
      (read_signed t ≡ (false, magnitude bs)) × (trimmed t ≡ true)
positive_text bs h =
    let u =
      unsigned_text (trim_left (encode_to_string bs))
        (IsHex-trim_left (encode_to_string bs) (IsHex-encode_to_string bs h))
        (starts_zero-trim_left (encode_to_string bs)) in
    (u.0 ∙ ap (λ (v : ℕ). (false, v)) (hex_text-value bs h), u.1)

negative_text :
    (bs : Bytes)
    → All IsByte bs
    → let t = b'-' ∷ trim_left (encode_to_string bs) in
      (read_signed t ≡ (true, magnitude bs)) × (trimmed t ≡ true)
negative_text bs h =
    let u =
      signed_text (trim_left (encode_to_string bs)) (starts_zero-trim_left (encode_to_string bs)) in
    (u.0 ∙ ap (λ (v : ℕ). (true, v)) (hex_text-value bs h), u.1)

-- The number of a digest by its value: the upper half of the range is negative.
abbrev pub signed_value : Bytes → Bool × ℕ
signed_value bs =
    if ltb (2 * magnitude bs) (256 ^ length bs)
    then (false, magnitude bs)
    else (true, 256 ^ length bs - magnitude bs)

positive_digest :
    (hash : Bytes)
    → All IsByte hash
    → is_negative hash ≡ false
    → ltb (2 * magnitude hash) (256 ^ length hash) ≡ true
    → (read_signed (digest_text hash) ≡ signed_value hash) × (trimmed (digest_text hash) ≡ true)
unfolding digest_text
positive_digest hash h k l = rw (k, l) (positive_text hash h)

negative_digest :
    (hash : Bytes)
    → All IsByte hash
    → is_negative hash ≡ true
    → ltb (2 * magnitude hash) (256 ^ length hash) ≡ false
    → (read_signed (digest_text hash) ≡ signed_value hash) × (trimmed (digest_text hash) ≡ true)
unfolding digest_text
negative_digest hash h k l =
    let c = twos_complement-magnitude hash h (ground (arith, l, magnitude-lt hash h)) in
    rw (k, l, sym c.1) (negative_text (twos_complement hash) c.0)

digest_text-signed :
    (hash : Bytes)
    → All IsByte hash
    → 0 < length hash
    → (read_signed (digest_text hash) ≡ signed_value hash) × (trimmed (digest_text hash) ≡ true)
digest_text-signed hash h k = elim (Bool-cases (ltb (2 * magnitude hash) (256 ^ length hash))) [
  | inl low ↦ positive_digest hash h (is_negative-half hash h k ∙ ap not low) low
  | inr high ↦ negative_digest hash h (is_negative-half hash h k ∙ ap not high) high
]

-- With a hash function of 20 bytes, the text of authDigest is the hash as a signed number: it
-- is read as the hash itself where that is in the lower half of the range, and else as
-- negative, with the magnitude that is missing to 2 ^ 160; behind the sign it does not begin
-- with a zero.
pub auth_digest_is_signed :
    (sha1 : Bytes → Bytes)
    → ((bs : Bytes) → All IsByte (sha1 bs) × (length (sha1 bs) ≡ 20))
    → (server_id shared_secret public_key : Bytes)
    → let text = auth_digest sha1 server_id shared_secret public_key in
      (read_signed text ≡ signed_value (sha1 (server_id ++ (shared_secret ++ public_key))))
      × (trimmed text ≡ true)
unfolding auth_digest
auth_digest_is_signed sha1 h server_id shared_secret public_key =
    let k = h (server_id ++ (shared_secret ++ public_key)) in
    digest_text-signed _ k.0 (omega (arith, k.1))
