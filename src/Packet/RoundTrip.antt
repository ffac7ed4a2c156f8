-- ===== src/Packet/RoundTrip.antt =====
-- UnPack (net/packet/packet.go) on what Pack sends.
use mc_afk_go.Base.{ℕ, suc, ◌+◌, ◌-◌, ◌≤◌, ◌<◌, ◌≡◌, refl, ◌∙◌, arith}
use mc_afk_go.Base.{Bool, true, false, some, none, Option, Bool-cases, inl, inr}
use mc_afk_go.Base.{[], ◌∷◌, ◌++◌, length, append_assoc, append-nil, length-append}
use mc_afk_go.Base.{ltb, ◌==◌, le→ltb, le→leb, lt→leb, if◌then◌else◌}
use mc_afk_go.Base.{take-length_append, drop-length_append}
use mc_afk_go.Base.{◌||◌}
use mc_afk_go.Base.Bits.{IsU32, negative64, u64, int_of32, signed_less}
use mc_afk_go.Io.{Bytes, source, done, buffer}
use mc_afk_go.Io.Laws.{write-buffer, read_full-append}
use mc_afk_go.Wire.VarInt.{read_var_int}
use mc_afk_go.Wire.VarInt.Groups.{groups, length-groups}
use mc_afk_go.Wire.VarInt.Decode.{read_var_int-groups}
use mc_afk_go.Packet.{Packet, got, max_data_length, copy_n}
use mc_afk_go.Packet.{
  fill_sized, unpack_without_compression, fill_counted, unpack_zlib, unpack_copied,
}
use mc_afk_go.Packet.{left_behind, unpack_with_compression, unpack, pack}
use mc_afk_go.Packet.Frame.{body, framed, payload, pack-framed}

-- A packet that both ways of sending can carry.
abbrev pub Fits : Packet → Type 0
Fits p = IsU32 p.id × (length (body p) ≤ max_data_length)

read_framed :
    (bs rest : Bytes) (b : Bool)
    → IsU32 (length bs)
    → read_var_int (source (framed bs ++ rest) b)
      ≡ done (length (groups 4 (length bs))) (length bs) (source (bs ++ rest) b)
read_framed bs rest b h =
    rw (append_assoc (groups 4 (length bs)) bs rest) (read_var_int-groups _ (bs ++ rest) b h)

read_body :
    (p : Packet) (rest : Bytes) (b : Bool)
    → IsU32 p.id
    → read_var_int (source (body p ++ rest) b)
      ≡ done (length (groups 4 p.id)) p.id (source (p.contents ++ rest) b)
read_body p rest b h =
    rw (append_assoc (groups 4 p.id) p.contents rest) (read_var_int-groups p.id _ b h)

plain_back :
    (p : Packet) (rest : Bytes) (b : Bool)
    → Fits p
    → unpack_without_compression (source (framed (body p) ++ rest) b) ≡ got p (source rest b)
unfolding unpack_without_compression fill_sized
plain_back p rest b (hid, hlen) =
    rw (read_framed (body p) rest b (omega arith), read_body p rest b hid)
      (rw
        (
          sized,
          not_refused,
          lt→leb 0x8000_0000_0000_0000 (length p.contents) (omega (arith, split)),
        )
        (rw (read_full-append p.contents rest b)))
  where
    split : length (body p) ≡ length (groups 4 p.id) + length p.contents
    split = length-append (groups 4 p.id) p.contents

    sized :
        u64 (int_of32 (length (body p)) + 0x1_0000_0000_0000_0000 - length (groups 4 p.id))
        ≡ length p.contents
    sized = ground (arith, split, hlen)

    not_refused :
        (negative64 (length p.contents) || signed_less max_data_length (length p.contents)) ≡ false
    not_refused = ground (arith, split, hlen)

fill_back :
    (p : Packet) (n : ℕ) (rest : Bytes) (b : Bool)
    → n ≡ length p.contents
    → n < 0x8000_0000
    → fill_counted p.id n (source (p.contents ++ rest) b) ≡ got p (source rest b)
unfolding fill_counted
fill_back p n rest b e h = rw (lt→leb 0x8000_0000 n h, e, read_full-append p.contents rest b)

fill_end :
    (p : Packet) (n : ℕ) (b : Bool)
    → n ≡ length p.contents
    → n < 0x8000_0000
    → fill_counted p.id n (source p.contents b) ≡ got p (source [] b)
fill_end p n b e h = rw append-nil at (fill_back p n [] b e h)

read_body_end :
    (p : Packet) (b : Bool)
    → IsU32 p.id
    → read_var_int (source (body p) b) ≡ done (length (groups 4 p.id)) p.id (source p.contents b)
read_body_end p b h = read_var_int-groups p.id p.contents b h

read_zero : (bs : Bytes) (b : Bool) → read_var_int (source (0 ∷ bs) b) ≡ done 1 0 (source bs b)
read_zero bs b = unfold groups in read_var_int-groups 0 bs b (omega arith)

copy_back :
    (bs rest : Bytes) (b : Bool)
    → length bs < 0x8000_0000
    → copy_n (length bs) (source (bs ++ rest) b) ≡ done (length bs) bs (source rest b)
unfolding copy_n
copy_back bs rest b h = rw (
  lt→leb 0x8000_0000 (length bs) h,
  le→leb (length bs) (length (bs ++ rest)) (omega (arith, length-append bs rest)),
  take-length_append bs rest,
  drop-length_append bs rest,
)

module _ (inflate : Bytes → Option Bytes) where
  pub unpack_framed :
      (threshold : ℕ) (bs rest : Bytes) (b : Bool)
      → length bs < 0x8000_0000
      → unpack_with_compression inflate (source (framed bs ++ rest) b) threshold
        ≡ left_behind (source rest b) (unpack_copied inflate threshold (length bs) bs)
  unfolding unpack_with_compression
  unpack_framed threshold bs rest b h =
      rw (read_framed bs rest b (omega arith)) (rw (copy_back bs rest b h))

  zero_copied :
      (p : Packet) (threshold : ℕ)
      → Fits p
      → unpack_copied inflate threshold (suc (length (body p))) (0 ∷ body p)
        ≡ got p (source [] true)
  unfolding unpack_copied
  zero_copied p threshold (hid, hlen) = rw (read_zero (body p) true) (
      rw (read_body_end p true hid) (
        fill_end p _ true (omega (arith, length-append (groups 4 p.id) p.contents))
          (omega (arith, length-append (groups 4 p.id) p.contents))))

  deflated_copied :
      (p : Packet) (threshold n : ℕ) (packed : Bytes)
      → Fits p
      → threshold ≤ length (body p)
      → inflate packed ≡ some (body p)
      → unpack_copied inflate threshold n (groups 4 (length (body p)) ++ packed)
        ≡ got p (source [] false)
  unfolding unpack_copied unpack_zlib
  deflated_copied p threshold n packed (hid, hlen) large inv =
      rw (read_var_int-groups (length (body p)) packed true (omega arith)) (
        rw
          (
            nonzero,
            lt→leb 0x8000_0000 (length (body p)) (omega arith),
            le→ltb (length (body p)) threshold large,
            le→ltb max_data_length (length (body p)) hlen,
            inv,
            read_body_end p false hid,
          )
          (fill_end p _ false (omega (arith, length-append (groups 4 p.id) p.contents))
            (omega (arith, length-append (groups 4 p.id) p.contents))))
    where
      nonzero : (length (body p) == 0) ≡ false
      nonzero = ground (arith, length-append (groups 4 p.id) p.contents, length-groups 4 p.id)

module _ (deflate : Bytes → Bytes) (inflate : Bytes → Option Bytes) where
  module _ (p : Packet) (threshold : ℕ) (fits : Fits p)
      (inv : inflate (deflate (body p)) ≡ some (body p))
      (sized : length (deflate (body p)) + 5 < 0x8000_0000) where
    compressed_sized : length (groups 4 (length (body p)) ++ deflate (body p)) < 0x8000_0000
    compressed_sized = omega (
      arith,
      length-append (groups 4 (length (body p))) (deflate (body p)),
      length-groups 4 (length (body p)),
    )

    payload_back :
        (rest : Bytes) (b : Bool)
        → unpack_with_compression inflate
            (source (framed (payload deflate p threshold) ++ rest) b)
            threshold
          ≡ got p (source rest b)
    payload_back rest b = elim (Bool-cases (ltb (length p.contents) threshold)) [
      | inl small ↦
          rw
            (
              small,
              unpack_framed inflate threshold (0 ∷ body p) rest b (omega arith),
              zero_copied inflate p threshold fits,
            )
            (unfold left_behind in refl)
      | inr large ↦
          rw
            (
              large,
              unpack_framed inflate threshold (groups 4 (length (body p)) ++ deflate (body p)) rest
                  b compressed_sized,
              deflated_copied inflate p threshold _ (deflate (body p)) fits
                  (ground (arith, length-append (groups 4 p.id) p.contents)) inv,
            )
            (unfold left_behind in refl)
    ]

    -- What UnPack makes of the frame that Pack sends.
    framed_back :
        (rest : Bytes) (b : Bool)
        → unpack inflate
            (source
              (framed (if negative64 threshold then body p else payload deflate p threshold)
                ++ rest)
              b)
            threshold
          ≡ got p (source rest b)
    unfolding unpack
    framed_back rest b = elim (Bool-cases (negative64 threshold)) [
      | inl off ↦ rw off (plain_back p rest b fits)
      | inr on ↦ rw on (payload_back rest b)
    ]

    -- What Pack sends into a buffer, UnPack with the same threshold turns into the packet
    -- again, and it leaves what follows: without compression, below the threshold, and above
    -- it. The packet's ID has 32 bits, the packet at most 2097152 bytes, the inflated data is
    -- what was deflated, and the deflated packet is below 2 ^ 31 - 5 bytes.
    pub unpack-pack :
        (rest : Bytes) (b : Bool)
        → (bytes : Bytes) × (pack deflate p (buffer []) threshold ≡ some (none, buffer bytes))
          × (unpack inflate (source (bytes ++ rest) b) threshold ≡ got p (source rest b))
    unpack-pack rest b = (
      framed (if negative64 threshold then body p else payload deflate p threshold),
      pack-framed deflate p threshold (buffer []) fits.0 (omega arith)
            (omega (arith, compressed_sized))
          ∙ rw write-buffer,
      framed_back rest b,
    )
