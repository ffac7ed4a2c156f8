-- ===== src/Wire/VarInt/Bounds.antt =====
-- VarInt.ReadFrom and VarLong.ReadFrom (net/packet/types.go) on any source, well formed or not.
use mc_afk_go.Base.{ℕ, zero, suc, ◌+◌, ◌*◌, ◌%◌, ◌^◌, ◌≤◌, ◌<◌, ◌≡◌, refl, ap, All, ◌∙◌, arith}
use mc_afk_go.Base.{bit_and, bit_or, [], ◌∷◌, ltb, leb, Bool, true}
use mc_afk_go.Base.{Bool-cases, inl, inr, ◌≢◌}
use mc_afk_go.Base.Bits.{shl, bit_or-lt, bit_or-shl_right, bit_or-zero}
use mc_afk_go.Io.{Bytes, Error, var_int_too_big, var_long_too_big, Reader, Outcome, source}
use mc_afk_go.Io.{done, fail, panic, stuck}
use mc_afk_go.Io.Exact.{Takes, Exact, Takes-trans, Takes-none}
use mc_afk_go.Wire.VarInt.{read_groups, read_var_int, read_var_long}
use mc_afk_go.Wire.VarInt.{max_var_int_len, max_var_long_len}
use mc_afk_go.Wire.VarInt.Decode.{
  join_group, read_groups-nil, read_groups-too_many, read_groups-cons,
}
use mc_afk_go.Wire.VarInt.Decode.{read_groups-last}
use native.Mathlib.Decide.{ℕ_discrete}
use mc_afk_go.Wire.VarInt.Groups.{top_bit, low_seven}
use native.Mathlib.Nat.{mod-lt, one-le-pow}

-- At most `top` bytes counted, a value of `width` bits, and neither a panic nor a loop.
abbrev pub Bounded : ℕ → ℕ → Outcome ℕ → Type 0
Bounded top width (done n v r) = (n ≤ top) × (v < 2 ^ width)
Bounded top width (fail n e) = n ≤ top
Bounded top width panic = ⊥
Bounded top width stuck = ⊥

Takes-byte : (c : ℕ) (cs : Bytes) (b : Bool) → Takes (source (c ∷ cs) b) (source cs b) 1
Takes-byte c cs b = record { used = c ∷ []; splits = refl; counted = refl; same_kind = refl }

module _ (width : ℕ) (too_many : ℕ → Bool) (e : Error) (limit : ℕ)
    (many : (j : ℕ) → limit < j → too_many j ≡ true) where
  abbrev reads : ℕ → ℕ → ℕ → ℕ → Reader → Outcome ℕ
  reads fuel num v sec r = read_groups (λ x. x % 2 ^ width) too_many e fuel num v num sec r

  reads-Bounded :
      (fuel num v sec : ℕ) (input : Bytes) (b : Bool)
      → v < 2 ^ width
      → num ≤ limit + 1
      → limit + 2 ≤ fuel + num
      → Bounded (limit + 1) width (reads fuel num v sec (source input b))
  reads-Bounded zero num v sec input b hv hn hf = absurd (omega arith)
  reads-Bounded (suc fuel) num v sec [] b hv hn hf = elim (ℕ_discrete (bit_and sec 0x80) 0) [
    | yes last ↦ rw (read_groups-last _ too_many e fuel num v num sec _ last) (hn, hv)
    | no more ↦ elim (Bool-cases (too_many num)) [
      | inl full ↦ rw (read_groups-too_many _ too_many e fuel num v num sec _ more full) hn
      | inr few ↦ rw (read_groups-nil _ too_many e fuel num v num sec b more few) hn
    ]
  ]
  reads-Bounded (suc fuel) num v sec (c ∷ cs) b hv hn hf = elim (ℕ_discrete (bit_and sec 0x80) 0) [
    | yes last ↦ rw (read_groups-last _ too_many e fuel num v num sec _ last) (hn, hv)
    | no more ↦ elim (Bool-cases (too_many num)) [
      | inl full ↦ rw (read_groups-too_many _ too_many e fuel num v num sec _ more full) hn
      | inr few ↦ rw (read_groups-cons _ too_many e fuel num v num sec c cs b more few) (
          reads-Bounded fuel (num + 1) (bit_or v (shl (bit_and c 0x7F) (7 * num) % 2 ^ width)) c cs
            b (bit_or-lt width v _ hv (mod-lt _ (one-le-pow width 2 (omega arith))))
            (ground (arith, many num)) (omega arith))
    ]
  ]

  reads-Exact :
      (fuel num v n sec : ℕ) (input : Bytes) (b : Bool) (r : Reader)
      → Takes r (source input b) n
      → Exact r (read_groups (λ x. x % 2 ^ width) too_many e fuel num v n sec (source input b))
  reads-Exact zero num v n sec input b r h = unfold read_groups in tt
  reads-Exact (suc fuel) num v n sec [] b r h = elim (ℕ_discrete (bit_and sec 0x80) 0) [
    | yes last ↦ rw (read_groups-last _ too_many e fuel num v n sec _ last) h
    | no more ↦ elim (Bool-cases (too_many num)) [
      | inl full ↦ rw (read_groups-too_many _ too_many e fuel num v n sec _ more full) tt
      | inr few ↦ rw (read_groups-nil _ too_many e fuel num v n sec b more few) tt
    ]
  ]
  reads-Exact (suc fuel) num v n sec (c ∷ cs) b r h = elim (ℕ_discrete (bit_and sec 0x80) 0) [
    | yes last ↦ rw (read_groups-last _ too_many e fuel num v n sec _ last) h
    | no more ↦ elim (Bool-cases (too_many num)) [
      | inl full ↦ rw (read_groups-too_many _ too_many e fuel num v n sec _ more full) tt
      | inr few ↦ rw (read_groups-cons _ too_many e fuel num v n sec c cs b more few) (
          reads-Exact fuel (num + 1) (bit_or v (shl (bit_and c 0x7F) (7 * num) % 2 ^ width)) (n + 1)
            c cs b r (Takes-trans h (Takes-byte c cs b)))
    ]
  ]

-- VarInt.ReadFrom ends on every source, without a panic; it counts six bytes at most, and a
-- value that it returns fits 32 bits.
pub read_var_int-Bounded : (r : Reader) → Bounded 6 32 (read_var_int r)
unfolding read_var_int
read_var_int-Bounded r =
    reads-Bounded 32 (λ num. ltb max_var_int_len num) var_int_too_big 5 (λ j h. ground arith) 8 0 0
      0x80 r.input r.is_byte_reader (omega arith) (omega arith) (omega arith)

-- VarLong.ReadFrom ends on every source, without a panic; it counts ten bytes at most, and a
-- value that it returns fits 64 bits.
pub read_var_long-Bounded : (r : Reader) → Bounded 10 64 (read_var_long r)
unfolding read_var_long
read_var_long-Bounded r =
    reads-Bounded 64 (λ num. leb max_var_long_len num) var_long_too_big 9 (λ j h. ground arith) 12 0
      0 0x80 r.input r.is_byte_reader (omega arith) (omega arith) (omega arith)

pub read_var_int-Exact : (r : Reader) → Exact r (read_var_int r)
unfolding read_var_int
read_var_int-Exact r =
    reads-Exact 32 (λ num. ltb max_var_int_len num) var_int_too_big 5 (λ j h. ground arith) 8 0 0 0
      0x80 r.input r.is_byte_reader r (Takes-none r)

pub read_var_long-Exact : (r : Reader) → Exact r (read_var_long r)
unfolding read_var_long
read_var_long-Exact r =
    reads-Exact 64 (λ num. leb max_var_long_len num) var_long_too_big 9 (λ j h. ground arith) 12 0 0
      0 0x80 r.input r.is_byte_reader r (Takes-none r)

abbrev int_reads : ℕ → ℕ → ℕ → ℕ → Reader → Outcome ℕ
int_reads fuel num v sec r =
    read_groups (λ x. x % 2 ^ 32) (λ j. ltb max_var_int_len j) var_int_too_big fuel num v num sec r

-- A byte with the top bit set is joined, and the loop goes on.
int_reads-inner :
    (fuel num v sec c : ℕ) (rest : Bytes) (k : Bool)
    → bit_and sec 0x80 ≢ 0
    → num < 6
    → v < 2 ^ (7 * num)
    → v + c % 128 * 2 ^ (7 * num) < 2 ^ 32
    → int_reads (suc fuel) num v sec (source (c ∷ rest) k)
      ≡ int_reads fuel (num + 1) (v + c % 128 * 2 ^ (7 * num)) c (source rest k)
int_reads-inner fuel num v sec c rest k more few hv fits = ground (
  arith,
  read_groups-cons (λ x. x % 2 ^ 32) (λ j. ltb max_var_int_len j) var_int_too_big fuel num v num sec
      c rest k more (ground arith),
  join_group (2 ^ 32) v c num,
)

continues : (c : ℕ) → 128 ≤ c → c < 256 → bit_and c 0x80 ≢ 0
continues c lo hi e = omega (arith, top_bit c)

-- The four bits of the fifth byte that fit, and a sixth byte, none of whose bits fit.
int_reads-fifth :
    (v sec c : ℕ) (rest : Bytes) (k : Bool)
    → bit_and sec 0x80 ≢ 0
    → v < 2 ^ 28
    → int_reads 4 4 v sec (source (c ∷ rest) k)
      ≡ int_reads 3 5 (v + c % 16 * 2 ^ 28) c (source rest k)
int_reads-fifth v sec c rest k more hv = ground (
  arith,
  read_groups-cons (λ x. x % 2 ^ 32) (λ j. ltb max_var_int_len j) var_int_too_big 3 4 v 4 sec c rest
      k more refl,
  low_seven c,
  bit_or-shl_right 28 (c % 16) v hv,
)

int_reads-sixth :
    (v sec x : ℕ) (rest : Bytes) (k : Bool)
    → bit_and sec 0x80 ≢ 0
    → x < 128
    → int_reads 3 5 v sec (source (x ∷ rest) k) ≡ done 6 v (source rest k)
int_reads-sixth v sec x rest k more h = ground (
  arith,
  read_groups-cons (λ y. y % 2 ^ 32) (λ j. ltb max_var_int_len j) var_int_too_big 2 5 v 5 sec x rest
      k more refl,
  low_seven x,
  top_bit x,
  bit_or-zero v,
  read_groups-last (λ y. y % 2 ^ 32) (λ j. ltb max_var_int_len j) var_int_too_big 1 6 v 6 x
      (source rest k),
)

-- After five bytes that have the top bit, VarInt.ReadFrom takes a sixth one without it, whose
-- bits are shifted out, and succeeds with the count six.
pub read_var_int_six :
    (a b c d g x : ℕ) (rest : Bytes) (k : Bool)
    → All (λ y. (128 ≤ y) × (y < 256)) (a ∷ b ∷ c ∷ d ∷ g ∷ [])
    → x < 128
    → read_var_int (source (a ∷ b ∷ c ∷ d ∷ g ∷ x ∷ rest) k)
      ≡ done 6
          (a % 128 + b % 128 * 2 ^ 7 + c % 128 * 2 ^ 14 + d % 128 * 2 ^ 21 + g % 16 * 2 ^ 28)
          (source rest k)
unfolding read_var_int
read_var_int_six a b c d g x rest k (ha, (hb, (hc, (hd, (hg, _))))) hx =
    int_reads-inner 7 0 0 0x80 a (b ∷ c ∷ d ∷ g ∷ x ∷ rest) k (omega arith) (omega arith)
      (omega arith) (omega arith)
    ∙ int_reads-inner 6 1 _ a b (c ∷ d ∷ g ∷ x ∷ rest) k (continues a ha.0 ha.1) (omega arith)
        (omega arith) (omega arith)
    ∙ int_reads-inner 5 2 _ b c (d ∷ g ∷ x ∷ rest) k (continues b hb.0 hb.1) (omega arith)
        (omega arith) (omega arith)
    ∙ int_reads-inner 4 3 _ c d (g ∷ x ∷ rest) k (continues c hc.0 hc.1) (omega arith) (omega arith)
        (omega arith)
    ∙ int_reads-fifth _ d g (x ∷ rest) k (continues d hd.0 hd.1) (omega arith)
    ∙ int_reads-sixth _ g x rest k (continues g hg.0 hg.1) hx
    ∙ ap (λ (v : ℕ). done 6 v (source rest k)) (omega arith)
