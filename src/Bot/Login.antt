-- ===== src/Bot/Login.antt =====
-- The digest of the login (bot/login.go): `authDigest` and `twosComplement`. SHA-1 is a parameter.
pub mod Complement
pub mod Digest
use mc_afk_go.Base.{ℕ, ◌+◌, ◌-◌, ◌/◌, ◌%◌, ◌==◌, Bool, true, false, if◌then◌else◌, [], ◌∷◌, ◌++◌}
use mc_afk_go.Base.{ltb, bit_and}
use mc_afk_go.Base.Bits.{u8}
use mc_afk_go.Io.{Bytes}

-- One round of the loop of twosComplement: the byte as it is stored, and the carry.
pub complement_byte : ℕ → Bool → ℕ × Bool
complement_byte b carry = let c = 0xff - b in if carry then (u8 (c + 1), c == 0xff) else (c, false)

complement_onto : ℕ → Bytes × Bool → Bytes × Bool
unfolding complement_byte
complement_onto b (cs, carry) = let (c, carry') = complement_byte b carry in (c ∷ cs, carry')

-- The loop of twosComplement, which goes from the last byte to the first.
pub complement_from : Bytes → Bytes × Bool
unfolding complement_onto
complement_from [] = ([], true)
complement_from (b ∷ bs) = complement_onto b (complement_from bs)

pub twos_complement : Bytes → Bytes
unfolding complement_from
twos_complement p = (complement_from p).0

-- A digit of `hex.EncodeToString`.
pub hex_digit : ℕ → ℕ
hex_digit d = if ltb d 10 then d + b'0' else (d - 10) + b'a'

pub encode_to_string : Bytes → Bytes
encode_to_string [] = []
encode_to_string (b ∷ bs) = hex_digit (b / 16) ∷ hex_digit (b % 16) ∷ encode_to_string bs

-- `strings.TrimLeft(s, "0")`
pub trim_left : Bytes → Bytes
trim_left [] = []
trim_left (c ∷ cs) = if c == b'0' then trim_left cs else c ∷ cs

-- `(hash[0] & 0x80) == 0x80`; a hash is never empty.
pub is_negative : Bytes → Bool
is_negative [] = false
is_negative (b ∷ bs) = bit_and b 0x80 == 0x80

pub digest_text : Bytes → Bytes
unfolding twos_complement encode_to_string trim_left is_negative
digest_text hash =
    if is_negative hash
    then b'-' ∷ trim_left (encode_to_string (twos_complement hash))
    else trim_left (encode_to_string hash)

-- `authDigest`: the writes to the hash put the three one after the other.
pub auth_digest : (Bytes → Bytes) → Bytes → Bytes → Bytes → Bytes
unfolding digest_text
auth_digest sha1 server_id shared_secret public_key =
    digest_text (sha1 (server_id ++ (shared_secret ++ public_key)))
