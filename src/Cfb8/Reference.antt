-- ===== src/Cfb8/Reference.antt =====
-- The byte loop of CFB8 (net/CFB8/cfb8.go) beside the cipher with a shift register of one block.
pub mod Rounds
pub mod Streams
use mc_afk_go.Base.{
  ℕ, zero, suc, ◌+◌, ◌-◌, ◌*◌, ◌≤◌, ◌<◌, ◌≡◌, refl, ap, sym, ◌∙◌, arith, Bool, true, false,
}
use mc_afk_go.Base.{
  List, [], ◌∷◌, ◌++◌, length, take, drop, get_elem?, set, Option, none, some, ◌⊎◌, inl, inr,
}
use mc_afk_go.Base.{length-take, length-drop, length-set, length-append, if◌then◌else◌, bit_xor}
use mc_afk_go.Io.{Bytes}
use mc_afk_go.Cfb8.{copy_at}
use mc_afk_go.Cfb8.Window.{
  length-copy_at, get-copy_before, get-copy_after, get-copy_inside, list_ext,
}
use mc_afk_go.Cfb8.Window.{get-set_same, get-set_below, get-drop, get-take, get-append_end}
use mc_afk_go.Cfb8.Window.{get-append_front}
use native.Mathlib.Decide.{ℕ_discrete}

-- The first byte of a block.
abbrev pub first : Bytes → ℕ
first [] = 0
first (x ∷ xs) = x

abbrev pub shift_in : Bytes → ℕ → Bytes
shift_in register v = drop 1 register ++ v ∷ []

-- CFB8 with a register of one block: the output, and the register after it. The byte of the
-- ciphertext is shifted in.
abbrev pub register_stream : (Bytes → Bytes) → Bool → Bytes → Bytes → Bytes × Bytes
register_stream encrypt de register [] = (register, [])
register_stream encrypt de register (v ∷ vs) =
    let out = bit_xor v (first (encrypt register)) in
    let (register', outs) =
      register_stream encrypt de (shift_in register (if de then v else out)) vs in
    (register', out ∷ outs)

-- A register after a round is known by its bytes: those of the vector behind the old register's
-- first one, and then the byte that was shifted in.
shifted :
    (iv new : Bytes) (b p v : ℕ)
    → 1 ≤ b
    → p + b ≤ length iv
    → length new ≡ b
    → ((i : ℕ) → suc i < b → get_elem? new i ≡ get_elem? iv (p + suc i))
    → get_elem? new (b - 1) ≡ some v
    → new ≡ shift_in (take b (drop p iv)) v
shifted iv new b p v pos fits len inner last = list_ext _ _ lengths agree
  where
    front : length (drop 1 (take b (drop p iv))) ≡ b - 1
    front =
        omega
          (arith, length-drop 1 (take b (drop p iv)), length-take b (drop p iv), length-drop p iv)

    lengths : length new ≡ length (shift_in (take b (drop p iv)) v)
    lengths = omega (arith, length-append (drop 1 (take b (drop p iv))) (v ∷ []), front)

    agree :
        (i : ℕ) → i < length new → get_elem? new i ≡ get_elem? (shift_in (take b (drop p iv)) v) i
    agree i h = elim (ℕ_discrete i (b - 1)) [
      | yes e ↦
          ap (get_elem? new) e
          ∙ last
          ∙ sym (get-append_end (drop 1 (take b (drop p iv))) v i (omega (arith, front)))
      | no n ↦
          inner i (omega arith)
          ∙ sym (
              get-append_front (drop 1 (take b (drop p iv))) (v ∷ []) i (omega (arith, front))
              ∙ get-drop 1 (take b (drop p iv)) i
              ∙ get-take b (drop p iv) (1 + i) (omega arith)
              ∙ get-drop p iv (1 + i)
              ∙ ap (get_elem? iv) (let e : p + (1 + i) ≡ p + suc i = omega arith in e))
    ]

-- Where the encrypted block is written, seen from the register at `p`: right behind it, or right in
-- front of it.
abbrev pub Beside : ℕ → ℕ → ℕ → Type 0
Beside b p t = (t ≡ p + b) ⊎ (t + b ≡ p)

module _ (iv block : Bytes) (b p t v : ℕ) (len : length iv ≡ 3 * b) (sized : length block ≡ b)
    (pos : 1 ≤ b) where
  -- A byte of the vector behind the register's first one is not overwritten by the block.
  Beside-keeps :
      (i : ℕ)
      → suc i < b
      → Beside b p t
      → get_elem? (copy_at iv t block) (p + suc i) ≡ get_elem? iv (p + suc i)
  Beside-keeps i h (inl behind) = get-copy_before iv t block (p + suc i) (omega arith)
  Beside-keeps i h (inr in_front) = get-copy_after iv t block (p + suc i) (omega arith)

  -- The next register, where the vector has room behind the present one.
  pub advance :
      p < 2 * b
      → Beside b p t
      → take b (drop (p + 1) (set (copy_at iv t block) (p + b) v)) ≡ shift_in (take b (drop p iv)) v
  advance room beside =
      let iv2 : Bytes = set (copy_at iv t block) (p + b) v in
      shifted iv (take b (drop (p + 1) iv2)) b p v pos (omega arith)
        (omega (
          arith,
          length-take b (drop (p + 1) iv2),
          length-drop (p + 1) iv2,
          length-set (copy_at iv t block) (p + b) v,
          length-copy_at iv t block,
        ))
        (λ i h.
          get-take b (drop (p + 1) iv2) i (omega arith)
          ∙ get-drop (p + 1) iv2 i
          ∙ ap (get_elem? iv2) (let e : p + 1 + i ≡ p + suc i = omega arith in e)
          ∙ get-set_below (copy_at iv t block) (p + b) v (p + suc i) (omega arith)
          ∙ Beside-keeps i h beside)
        (get-take b (drop (p + 1) iv2) (b - 1) (omega arith)
          ∙ get-drop (p + 1) iv2 (b - 1)
          ∙ ap (get_elem? iv2) (let e : p + 1 + (b - 1) ≡ p + b = omega arith in e)
          ∙ get-set_same (copy_at iv t block) (p + b) v (omega (arith, length-copy_at iv t block)))

  -- The next register at the end of the vector: it is moved to the front.
  pub wrap :
      p ≡ 2 * b
      → Beside b p t
      → take b (
          drop 0
            (set (copy_at (copy_at iv t block) 0 (drop (p + 1) (copy_at iv t block))) (b - 1) v))
        ≡ shift_in (take b (drop p iv)) v
  wrap at_end beside =
      let iv1 : Bytes = copy_at iv t block in
      let moved : Bytes = drop (p + 1) iv1 in
      let iv2 : Bytes = copy_at iv1 0 moved in
      let moved_length : length moved ≡ b - 1 =
        omega (arith, length-drop (p + 1) iv1, length-copy_at iv t block) in
      let iv2_length : length iv2 ≡ 3 * b =
        omega (arith, length-copy_at iv1 0 moved, length-copy_at iv t block) in
      shifted iv (take b (set iv2 (b - 1) v)) b p v pos (omega arith)
        (omega (arith, length-take b (set iv2 (b - 1) v), length-set iv2 (b - 1) v))
        (λ i h.
          get-take b (set iv2 (b - 1) v) i (omega arith)
          ∙ get-set_below iv2 (b - 1) v i (omega arith)
          ∙ get-copy_inside iv1 0 moved i i (omega arith) (omega arith)
              (omega (arith, length-copy_at iv t block))
          ∙ get-drop (p + 1) iv1 i
          ∙ ap (get_elem? iv1) (let e : p + 1 + i ≡ p + suc i = omega arith in e)
          ∙ Beside-keeps i h beside)
        (get-take b (set iv2 (b - 1) v) (b - 1) (omega arith)
          ∙ get-set_same iv2 (b - 1) v (omega arith))
