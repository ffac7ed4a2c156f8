-- ===== src/Nbt/Write/Headers.antt =====
-- The headers that nbt/encode.go writes before a value, and their reading.
use mc_afk_go.Base.{ℕ, ◌≤◌, ◌<◌, ◌≡◌, refl, ap, fun_ext, ◌∙◌, arith}
use mc_afk_go.Base.{Bool, none, some, [], ◌∷◌, ◌++◌, length, append_assoc, length-append}
use mc_afk_go.Base.Bits.{u16, u32}
use mc_afk_go.Io.{Bytes, Writer, Written, write, and_then, buffer, source, done, fail}
use mc_afk_go.Io.{negative_string_length}
use mc_afk_go.Io.Laws.{write-append, write-buffer}
use mc_afk_go.Wire.Fixed.{put_uint16, put_uint32, put_uint64}
use mc_afk_go.Nbt.Write.{write_int16, write_int32, write_int64, write_tag, write_list_header}
use mc_afk_go.Nbt.Read.{read_tag}
use mc_afk_go.Nbt.Read.Ints.{read_tag-put, read_tag-negative, length-put16}

write_int16-put : (n : ℕ) (w : Writer) → write_int16 n w ≡ write w (put_uint16 n)
unfolding write_int16 put_uint16
write_int16-put n w = refl

write_int32-put : (n : ℕ) (w : Writer) → write_int32 n w ≡ write w (put_uint32 n)
unfolding write_int32 put_uint32
write_int32-put n w = refl

write_int64-put : (n : ℕ) (w : Writer) → write_int64 n w ≡ write w (put_uint64 n)
unfolding write_int64 put_uint64
write_int64-put n w = refl

-- A tag is written as its type, the length of its name modulo 2^16, and the name.
write_tag-bytes :
    (tag : ℕ) (name : Bytes) (w : Writer)
    → write_tag tag name w ≡ write w (tag ∷ (put_uint16 (u16 (length name)) ++ name))
unfolding write_tag
write_tag-bytes tag name w =
    ap (and_then (write w (tag ∷ []))) (
      fun_ext λ v.
        ap (λ (o : Written). and_then o (λ u. write u name)) (write_int16-put (u16 (length name)) v)
        ∙ write-append v (put_uint16 (u16 (length name))) name)
    ∙ write-append w (tag ∷ []) (put_uint16 (u16 (length name)) ++ name)

-- A tag between 1 and 0x1e with a name shorter than 2 ^ 15 bytes, written by writeTag into a
-- buffer, is read back by readTag with the same count, and what follows is left.
pub tag_round_trip :
    (tag : ℕ) (name rest : Bytes) (b : Bool)
    → 0 < tag
    → tag < 0x1f
    → length name < 0x8000
    → let o = write_tag tag name (buffer []) in
      (o.err ≡ none)
      × (read_tag (source (o.sink.written ++ rest) b) ≡ done o.count (tag, name) (source rest b))
tag_round_trip tag name rest b pos low h =
    rw
      (
        write_tag-bytes tag name (buffer []),
        write-buffer [] (tag ∷ (put_uint16 (u16 (length name)) ++ name)),
        short,
        append_assoc (put_uint16 (length name)) name rest,
        read_tag-put tag name rest b pos low h,
      )
      (
        refl,
        ap (λ (k : ℕ). done k (tag, name) (source rest b))
            (omega
              (arith, length-append (put_uint16 (length name)) name, length-put16 (length name))),
      )
  where
    short : u16 (length name) ≡ length name
    short = omega arith

-- With a name of at least 2 ^ 15 and less than 2 ^ 16 bytes writeTag succeeds, and readTag
-- refuses what it wrote, for a negative length.
pub long_name_is_unreadable :
    (tag : ℕ) (name rest : Bytes) (b : Bool)
    → 0 < tag
    → tag < 0x1f
    → 0x8000 ≤ length name
    → length name < 0x1_0000
    → let o = write_tag tag name (buffer []) in
      (o.err ≡ none)
      × (read_tag (source (o.sink.written ++ rest) b) ≡ fail 3 negative_string_length)
long_name_is_unreadable tag name rest b pos low h k =
    rw
      (
        write_tag-bytes tag name (buffer []),
        write-buffer [] (tag ∷ (put_uint16 (u16 (length name)) ++ name)),
        append_assoc (put_uint16 (u16 (length name))) name rest,
        read_tag-negative tag (u16 (length name)) (name ++ rest) b pos low (omega arith)
            (omega arith),
      )
      (refl, refl)

write_list_header_lem :
    (element_type n : ℕ)
    → write_list_header element_type n (buffer [])
      ≡ record { count = 5; err = none; sink = buffer (element_type ∷ put_uint32 (u32 n)) }
unfolding write_list_header write_int32 write and_then put_uint32
write_list_header_lem element_type n = refl

-- On a writer with room for the element type but not for the whole length, writeListHeader
-- writes what fits and returns no error.
pub list_header_error_is_dropped :
    (element_type n room : ℕ) (out : Bytes)
    → 1 ≤ room
    → room < 5
    → let o = write_list_header element_type n (record { written = out; room = some room }) in
      (o.err ≡ none) × (o.count ≡ room)
unfolding write_list_header write_int32 write and_then
list_header_error_is_dropped element_type n room out h k = ground arith
