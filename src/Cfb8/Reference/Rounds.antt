-- ===== src/Cfb8/Reference/Rounds.antt =====
-- The rounds of the byte loop (net/CFB8/cfb8.go), each against the shift register.
use mc_afk_go.Base.{
  ℕ, suc, ◌+◌, ◌-◌, ◌*◌, ◌%◌, ◌^◌, ◌≤◌, ◌<◌, ◌≡◌, ◌≢◌, refl, ap, sym, ◌∙◌, arith, true, false,
}
use mc_afk_go.Base.{[], ◌∷◌, length, take, drop, get_elem?, set, some, inl, inr}
use mc_afk_go.Base.{
  length-take, length-drop, length-set, if◌then◌else◌, bit_xor, bit_and, ltb, lt→ltb, le→ltb,
}
use mc_afk_go.Base.{Bool-cases, ◌==◌}
use mc_afk_go.Base.Bits.{shl, bit_and-low}
use mc_afk_go.Io.{Bytes}
use mc_afk_go.Cfb8.{Cfb8, copy_at, store, stored, feed_back, mask, xor_byte}
use mc_afk_go.Cfb8.Window.{length-copy_at, get-copy_inside}
use mc_afk_go.Cfb8.Reference.{first, shift_in, Beside, advance, wrap}
use native.Mathlib.Decide.{ℕ_discrete}
use native.Mathlib.Nat.{one-le-pow, pow-suc, mod-eq_of_lt, mod-eq-sub-mod}

-- The state between two rounds, for blocks of a power of two.
abbrev pub Ready : ℕ → Cfb8 → Type 0
Ready k cf = (cf.block_size ≡ 2 ^ k) × (cf.iv_pos ≤ 2 * 2 ^ k) × (length cf.iv ≡ 3 * 2 ^ k)

-- The register that the state holds.
abbrev pub register_of : Cfb8 → Bytes
register_of cf = take cf.block_size (drop cf.iv_pos cf.iv)

-- `tempPos` is the register's place shifted by a block, in either direction.
temp_pos-Beside :
    (k b p : ℕ)
    → b ≡ 2 ^ k
    → p ≤ 2 * b
    → Beside b p (bit_and (p + b) (shl b 1 - 1)) × (bit_and (p + b) (shl b 1 - 1) + b ≤ 3 * b)
temp_pos-Beside k b p e h =
    let pos : 1 ≤ b = omega (arith, one-le-pow k 2 (omega arith)) in
    rw (masked) (elim (Bool-cases (ltb p b)) [
      | inl low ↦
          let small : p + b < 2 * b = ground arith in
          rw (mod-eq_of_lt small) (inl refl, ground arith)
      | inr high ↦
          let large : 2 * b ≤ p + b = ground arith in
          let rest : p + b - 2 * b < 2 * b = ground arith in
          rw (mod-eq-sub-mod large, mod-eq_of_lt rest) (inr (ground arith), ground arith)
    ])
  where
    masked : bit_and (p + b) (shl b 1 - 1) ≡ (p + b) % (2 * b)
    masked =
        ap (λ (m : ℕ). bit_and (p + b) (m - 1))
          (let d : shl b 1 ≡ 2 ^ suc k = omega (arith, pow-suc 2 k) in d)
        ∙ bit_and-low (suc k) (p + b)
        ∙ ap (λ (m : ℕ). (p + b) % m) (let d : 2 ^ suc k ≡ 2 * b = omega (arith, pow-suc 2 k) in d)

get-first : (xs : Bytes) → 1 ≤ length xs → get_elem? xs 0 ≡ some (first xs)
get-first [] h = absurd (omega arith)
get-first (x ∷ xs) h = refl

store-some : (xs : Bytes) (i v : ℕ) → i < length xs → store xs i v ≡ some (set xs i v)
unfolding store
store-some xs i v h = rw (lt→ltb i (length xs) h)

-- The end of a round that still has room behind the register, and of one at the vector's end.
feed_advance :
    (cf : Cfb8) (src val : ℕ)
    → cf.iv_pos ≢ 2 * cf.block_size
    → cf.iv_pos + cf.block_size < length cf.iv
    → feed_back cf src val
      ≡ some (
        record cf {
          iv_pos = cf.iv_pos + 1;
          iv = set cf.iv (cf.iv_pos + cf.block_size) (if cf.de then src else val);
        },
        val,
      )
unfolding feed_back stored
feed_advance cf src val n h = rw (
  (let off : (cf.iv_pos == shl cf.block_size 1) ≡ false = ground (arith, n) in off),
  store-some cf.iv (cf.iv_pos + cf.block_size) (if cf.de then src else val) h,
)

feed_wrap :
    (cf : Cfb8) (src val : ℕ)
    → cf.iv_pos ≡ 2 * cf.block_size
    → cf.block_size - 1 < length cf.iv
    → feed_back cf src val
      ≡ some (
        record cf {
          iv_pos = 0;
          iv =
              set
                (copy_at cf.iv 0 (drop (cf.iv_pos + 1) cf.iv))
                (cf.block_size - 1)
                (if cf.de then src else val);
        },
        val,
      )
unfolding feed_back stored
feed_wrap cf src val e h = rw (
  (let on : (cf.iv_pos == shl cf.block_size 1) ≡ true = ground arith in on),
  store-some (copy_at cf.iv 0 (drop (cf.iv_pos + 1) cf.iv)) (cf.block_size - 1)
      (if cf.de then src else val)
      (omega (arith, length-copy_at cf.iv 0 (drop (cf.iv_pos + 1) cf.iv))),
)

module _ (encrypt : Bytes → Bytes) (k : ℕ)
    (sized : (block : Bytes) → length block ≡ 2 ^ k → length (encrypt block) ≡ 2 ^ k) where
  -- What a round promises: no panic, the register's output, and the register's next value.
  abbrev pub Rounds : Cfb8 → ℕ → Type 0
  Rounds cf v =
      let out = bit_xor v (first (encrypt (register_of cf))) in
      (next : Cfb8) × (xor_byte encrypt cf v ≡ some (next, out))
      × Ready k next
      × (next.de ≡ cf.de)
      × (register_of next ≡ shift_in (register_of cf) (if cf.de then v else out))

  module _ (cf : Cfb8) (ready : Ready k cf) where
    abbrev block : Bytes
    block = encrypt (register_of cf)

    abbrev temp : ℕ
    temp = bit_and (cf.iv_pos + cf.block_size) (shl cf.block_size 1 - 1)

    block-length : length block ≡ cf.block_size
    block-length =
        sized (register_of cf) (
          omega (
            arith,
            ready,
            length-take cf.block_size (drop cf.iv_pos cf.iv),
            length-drop cf.iv_pos cf.iv,
          ))
        ∙ sym ready.0

    placed : Beside cf.block_size cf.iv_pos temp × (temp + cf.block_size ≤ 3 * cf.block_size)
    placed = temp_pos-Beside k cf.block_size cf.iv_pos ready.0 (omega (arith, ready))

    positive : 1 ≤ cf.block_size
    positive = omega (arith, ready, one-le-pow k 2 (omega arith))

    xor_step :
        (v : ℕ)
        → xor_byte encrypt cf v
          ≡ feed_back (record cf { iv = copy_at cf.iv temp block }) v (bit_xor v (first block))
    unfolding xor_byte mask
    xor_step v = rw (
      le→ltb (length cf.iv) (cf.iv_pos + cf.block_size) (omega (arith, ready)),
      le→ltb (length cf.iv) (temp + cf.block_size) (omega (arith, ready, placed)),
      get-copy_inside cf.iv temp block 0 temp (omega arith) (omega (arith, block-length, positive))
          (omega (arith, block-length, ready, placed)),
      get-first block (omega (arith, block-length, positive)),
    )

    pub round : (v : ℕ) → Rounds cf v
    round v = elim (ℕ_discrete cf.iv_pos (2 * cf.block_size)) [
      | yes e ↦ (
        _,
        xor_step v
            ∙ feed_wrap (record cf { iv = copy_at cf.iv temp block }) v (bit_xor v (first block)) e
                (omega (arith, ready, length-copy_at cf.iv temp block, positive)),
        (
          ready.0,
          omega arith,
          length-set _ (cf.block_size - 1) _
              ∙ length-copy_at _ 0 _
              ∙ length-copy_at cf.iv temp block
              ∙ ready.2,
        ),
        refl,
        wrap cf.iv block cf.block_size cf.iv_pos temp _ (omega (arith, ready)) block-length positive
            e placed.0,
      )
      | no n ↦ (
        _,
        xor_step v
            ∙ feed_advance (record cf { iv = copy_at cf.iv temp block }) v (bit_xor v (first block))
                n (omega (arith, ready, length-copy_at cf.iv temp block, n)),
        (
          ready.0,
          omega (arith, ready, n),
          length-set _ (cf.iv_pos + cf.block_size) _ ∙ length-copy_at cf.iv temp block ∙ ready.2,
        ),
        refl,
        advance cf.iv block cf.block_size cf.iv_pos temp _ (omega (arith, ready)) block-length
            positive (omega (arith, ready, n)) placed.0,
      )
    ]
