-- ===== src/Nbt/Write.antt =====
-- The writing primitives of the encoder: writeTag to writeInt64 of nbt/encode.go. The Go functions
-- return no count; the count here is of the bytes that they put out.
pub mod Headers
use mc_afk_go.Base.{ℕ, Option, none, some, [], ◌∷◌, length}
use mc_afk_go.Base.Bits.{shr, u8, u16, u32}
use mc_afk_go.Io.{Bytes, Error, Writer, Written, write, and_then}

pub write_int16 : ℕ → Writer → Written
write_int16 n w = write w (u8 (shr n 8) ∷ u8 n ∷ [])

pub write_int32 : ℕ → Writer → Written
write_int32 n w = write w (u8 (shr n 24) ∷ u8 (shr n 16) ∷ u8 (shr n 8) ∷ u8 n ∷ [])

pub write_int64 : ℕ → Writer → Written
write_int64 n w = write w (
    u8 (shr n 56)
    ∷ u8 (shr n 48)
    ∷ u8 (shr n 40)
    ∷ u8 (shr n 32)
    ∷ u8 (shr n 24)
    ∷ u8 (shr n 16)
    ∷ u8 (shr n 8)
    ∷ u8 n
    ∷ [])

-- `int16(len(bName))` keeps the low 16 bits.
pub write_tag : ℕ → Bytes → Writer → Written
write_tag tag name w =
    and_then (write w (tag ∷ []))
      λ v. and_then (write_int16 (u16 (length name)) v) (λ u. write u name)

-- The error of the length's write is assigned, and nil is returned.
ignore_err : Written → Written
ignore_err o = record o { err = none }

pub write_list_header : ℕ → ℕ → Writer → Written
unfolding ignore_err
write_list_header element_type n w =
    and_then (write w (element_type ∷ [])) (λ v. ignore_err (write_int32 (u32 n) v))
