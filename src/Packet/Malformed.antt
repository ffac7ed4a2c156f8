-- ===== src/Packet/Malformed.antt =====
-- UnPack (net/packet/packet.go) on packets that no Pack sends.
use mc_afk_go.Base.{ℕ, ◌+◌, ◌-◌, ◌≤◌, ◌<◌, ◌≡◌, arith}
use mc_afk_go.Base.{Bool, true, false, some, Option, ◌≢◌, Bool-cases, inl, inr, ◌||◌}
use mc_afk_go.Base.{◌++◌, length, length-append, length-take}
use mc_afk_go.Base.{leb, if◌then◌else◌}
use mc_afk_go.Base.Bits.{IsU32, negative64, signed_less, int_of32, u64}
use mc_afk_go.Io.{
  Bytes, Reader, source, Outcome, done, fail, panic, stuck, read_full, bad_packet_length,
}
use mc_afk_go.Io.{below_threshold, above_maximum}
use mc_afk_go.Wire.VarInt.{read_var_int}
use mc_afk_go.Wire.VarInt.Groups.{groups, length-groups}
use mc_afk_go.Wire.VarInt.Decode.{read_var_int-groups}
use mc_afk_go.Wire.VarInt.Bounds.{Bounded, read_var_int-Bounded}
use mc_afk_go.Packet.{Unpacked, got, refused, crashed, looped, max_data_length, ◌>>=◌}
use mc_afk_go.Packet.{
  fill_sized, unpack_without_compression, fill_counted, unpack_zlib, unpack_copied,
}
use mc_afk_go.Packet.{left_behind, unpack_with_compression}
use mc_afk_go.Packet.Frame.{framed}
use mc_afk_go.Packet.RoundTrip.{unpack_framed}

module _ (inflate : Bytes → Option Bytes) (threshold size : ℕ) (packed rest : Bytes) (b : Bool)
    (short : length packed < 0x7000_0000) where
  -- A compressed packet that declares `size`.
  abbrev declared : Reader
  declared = source (framed (groups 4 size ++ packed) ++ rest) b

  sized_step :
      IsU32 size
      → unpack_with_compression inflate declared threshold
        ≡ left_behind (source rest b) (
            unpack_copied inflate threshold
              (length (groups 4 size ++ packed))
              (groups 4 size ++ packed))
  sized_step h =
      unpack_framed inflate threshold (groups 4 size ++ packed) rest b
        (omega (arith, length-append (groups 4 size) packed, length-groups 4 size))

  -- A declared size that is not zero is refused below the threshold.
  pub size_below_threshold :
      size ≢ 0
      → size < threshold
      → size < 0x8000_0000
      → unpack_with_compression inflate declared threshold ≡ refused below_threshold
  unfolding unpack_copied left_behind
  size_below_threshold pos small h =
      rw (sized_step (omega arith), read_var_int-groups size packed true (omega arith))
        (ground arith)

  -- A declared size above the protocol's maximum is refused before anything is decompressed.
  pub size_above_maximum :
      threshold ≤ size
      → max_data_length < size
      → size < 0x8000_0000
      → unpack_with_compression inflate declared threshold ≡ refused above_maximum
  unfolding unpack_copied left_behind
  size_above_maximum enough large h =
      rw (sized_step (omega arith), read_var_int-groups size packed true (omega arith))
        (ground arith)

  -- A compressed packet that declares a size which is not zero, is not below the threshold, and
  -- is smaller than the packet's own ID passes every test that UnPack makes, and UnPack panics.
  pub size_below_id_panics :
      (id : ℕ) (extra : Bytes)
      → size ≢ 0
      → threshold ≤ size
      → IsU32 id
      → size < length (groups 4 id)
      → inflate packed ≡ some (groups 4 id ++ extra)
      → unpack_with_compression inflate declared threshold ≡ crashed
  unfolding unpack_copied left_behind unpack_zlib fill_counted
  size_below_id_panics id extra pos enough hid few inv =
      rw
        (
          sized_step (omega (arith, length-groups 4 id)),
          read_var_int-groups size packed true (omega (arith, length-groups 4 id)),
        )
        (rw (inv, read_var_int-groups id extra false hid) (ground (arith, length-groups 4 id)))

-- A packet or an error: never a panic, never an endless loop, and the packet's contents are at most
-- so long.
abbrev pub ContentsWithin : ℕ → Unpacked → Type 0
ContentsWithin m (got p r) = length p.contents ≤ m
ContentsWithin m (refused e) = Unit {0}
ContentsWithin m crashed = ⊥
ContentsWithin m looped = ⊥

module _ (m : ℕ) where
  bind-within :
      (o : Outcome ℕ) (f : ℕ → ℕ → Reader → Unpacked)
      → Bounded 6 32 o
      → ((n a : ℕ) (r : Reader) → ContentsWithin m (f n a r))
      → ContentsWithin m (o >>= f)
  bind-within (done n a r) f h k = k n a r
  bind-within (fail n e) f h k = tt
  bind-within panic f h k = h
  bind-within stuck f h k = h

  fill-within :
      (id k : ℕ) (r : Reader)
      → k ≤ m
      → ContentsWithin m (read_full k r >>= λ n bs r'. got (record { id = id; contents = bs }) r')
  fill-within id k r h = elim (Bool-cases (leb k (length r.input))) [
    | inl enough ↦ unfold read_full in rw enough (omega (arith, length-take k r.input))
    | inr short ↦ unfold read_full in rw short tt
  ]

-- What passes both tests is not negative, so that it can be a length.
sized :
    (len id : ℕ) (r : Reader)
    → ContentsWithin max_data_length (
        if negative64 len || signed_less max_data_length len
        then refused bad_packet_length
        else fill_sized id len r)
unfolding fill_sized
sized len id r = elim (Bool-cases (negative64 len || signed_less max_data_length len)) [
  | inl bad ↦ rw bad tt
  | inr good ↦
      let positive : negative64 len ≡ false = ground arith in
      rw (good, positive) (fill-within max_data_length id len r (ground arith))
]

-- On every source UnPack without compression returns an error or a packet whose contents have
-- at most MaxDataLength bytes; it never panics, also where the length that is sent is negative
-- or smaller than the packet's ID, and never loops.
pub unpack_without_compression-ContentsWithin :
    (r : Reader) → ContentsWithin max_data_length (unpack_without_compression r)
unfolding unpack_without_compression
unpack_without_compression-ContentsWithin r =
    bind-within max_data_length (read_var_int r) _ (read_var_int-Bounded r) (λ n1 len r1.
      bind-within max_data_length (read_var_int r1) _ (read_var_int-Bounded r1)
        (λ n id r2. sized (u64 (int_of32 len + 0x1_0000_0000_0000_0000 - n)) id r2))
