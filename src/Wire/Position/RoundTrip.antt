-- ===== src/Wire/Position/RoundTrip.antt =====
-- Position (net/packet/types.go): the packed word, and its reading.
use mc_afk_go.Base.{
  ℕ, ◌+◌, ◌-◌, ◌*◌, ◌%◌, ◌^◌, ◌≤◌, ◌<◌, ◌≡◌, ◌⊎◌, arith, ◌++◌, ap, ◌∙◌, sym, refl, none, [], length,
}
use mc_afk_go.Base.{Bool, replicate}
use mc_afk_go.Base.Bits.{bit_and-low, bit_or-shl}
use mc_afk_go.Io.{Bytes, done, source, Writer, write, buffer}
use mc_afk_go.Io.Laws.{write-buffer}
use mc_afk_go.Wire.Fixed.{put_uint64}
use mc_afk_go.Wire.Fixed.RoundTrip.{read_long-put}
use mc_afk_go.Wire.Position.{Position, packed, fill_down, write_position, unpacked, read_position}

-- `x` is the 64-bit pattern of an integer that a signed field of `k + 1` bits holds.
abbrev pub FitsSigned : ℕ → ℕ → Type 0
FitsSigned k x = (x < 2 ^ k) ⊎ ((2 ^ 64 - 2 ^ k ≤ x) × (x < 2 ^ 64))

packed_sum :
    (p : Position) → packed p ≡ p.x % 2 ^ 26 * 2 ^ 38 + p.z % 2 ^ 26 * 2 ^ 12 + p.y % 2 ^ 12
unfolding packed
packed_sum p = ground (
  arith,
  bit_and-low 26 p.x,
  bit_and-low 26 p.z,
  bit_and-low 12 p.y,
  bit_or-shl 38 (p.x % 2 ^ 26) (p.z % 2 ^ 26 * 2 ^ 12),
  bit_or-shl 12 (p.x % 2 ^ 26 * 2 ^ 26 + p.z % 2 ^ 26) (p.y % 2 ^ 12),
)

-- The loop stores the word with its highest byte first.
fill_down-put_uint64 : (v : ℕ) → fill_down 8 v (replicate 8 0) ≡ put_uint64 v
unfolding fill_down put_uint64
fill_down-put_uint64 v = ground arith

pub write_position-put :
    (p : Position) (w : Writer) → write_position p w ≡ write w (put_uint64 (packed p))
unfolding write_position
write_position-put p w = ap (write w) (fill_down-put_uint64 (packed p))

unpacked-packed :
    (p : Position)
    → FitsSigned 25 p.x
    → FitsSigned 11 p.y
    → FitsSigned 25 p.z
    → unpacked (packed p) ≡ p
unfolding unpacked
unpacked-packed p hx hy hz = rw (packed_sum p) (ground arith)

read_position-put :
    (p : Position) (rest : Bytes) (b : Bool)
    → FitsSigned 25 p.x
    → FitsSigned 11 p.y
    → FitsSigned 25 p.z
    → read_position (source (put_uint64 (packed p) ++ rest) b) ≡ done 8 p (source rest b)
unfolding read_position
read_position-put p rest b hx hy hz =
    rw (read_long-put (packed p) rest b (omega (arith, packed_sum p)), unpacked-packed p hx hy hz)

-- Position.WriteTo into a buffer succeeds with eight bytes, and Position.ReadFrom of them and
-- more bytes behind them returns the position with that count, negative coordinates included,
-- and leaves what follows. The coordinates x and z fit 26 bits and y fits 12.
pub position_round_trip :
    (p : Position) (rest : Bytes) (b : Bool)
    → FitsSigned 25 p.x
    → FitsSigned 11 p.y
    → FitsSigned 25 p.z
    → let o = write_position p (buffer []) in
      (o.err ≡ none)
      × (o.count ≡ 8)
      × (read_position (source (o.sink.written ++ rest) b) ≡ done o.count p (source rest b))
position_round_trip p rest b hx hy hz =
    rw (write_position-put p (buffer []), write-buffer [] (put_uint64 (packed p)))
      (
        refl,
        eight,
        read_position-put p rest b hx hy hz ∙ ap (λ (n : ℕ). done n p (source rest b)) (sym eight),
      )
  where
    eight : length (put_uint64 (packed p)) ≡ 8
    eight = unfold put_uint64 in refl
