-- ===== src/Cfb8/Reference/Streams.antt =====
-- Whole streams of CFB8 (net/CFB8/cfb8.go): the byte loop against the shift register, and decryption
-- of what was encrypted.
use mc_afk_go.Base.{ℕ, ◌*◌, ◌^◌, ◌≡◌, refl, ap, sym, ◌∙◌, arith, Bool, true, false}
use mc_afk_go.Base.{[], ◌∷◌, ◌++◌, length, take, some}
use mc_afk_go.Base.{length-append, bit_xor}
use mc_afk_go.Base.{replicate, length-replicate, take-length_append}
use mc_afk_go.Base.Bits.{bit_xor_twice}
use mc_afk_go.Io.{Bytes}
use mc_afk_go.Cfb8.{Cfb8, new_cfb8, prepend, go_on}
use mc_afk_go.Cfb8.{xor_key_stream}
use mc_afk_go.Cfb8.Reference.{first, shift_in, register_stream}
use mc_afk_go.Cfb8.Reference.Rounds.{Ready, register_of, round}

module _ (encrypt : Bytes → Bytes) (k : ℕ)
    (sized : (block : Bytes) → length block ≡ 2 ^ k → length (encrypt block) ≡ 2 ^ k) where
  -- From any state between two rounds, with blocks of 2 ^ k bytes that the cipher maps to such
  -- blocks, the byte loop does not panic and has the output of CFB8 with a shift register; the
  -- register that it holds afterwards is the one of the specification, and the state is again
  -- one between two rounds.
  pub xor_key_stream-register :
      (src : Bytes) (cf : Cfb8)
      → Ready k cf
      → (next : Cfb8) × (xor_key_stream encrypt cf src
          ≡ some (next, (register_stream encrypt cf.de (register_of cf) src).1))
        × (register_of next ≡ (register_stream encrypt cf.de (register_of cf) src).0)
        × Ready k next
        × (next.de ≡ cf.de)
  unfolding xor_key_stream go_on prepend
  xor_key_stream-register [] cf ready = (cf, refl, refl, ready, refl)
  xor_key_stream-register (v ∷ vs) cf ready =
      let (mid, stepped, mid_ready, same, shifts) = round encrypt k sized cf ready v in
      let (next, run, holds, next_ready, next_same) = xor_key_stream-register vs mid mid_ready in
      (
        next,
        rw (stepped, run, same, shifts) refl,
        rw (holds, same, shifts) refl,
        next_ready,
        next_same ∙ same,
      )

  -- A new stream holds the vector as its register.
  pub new_cfb8-register :
      (iv : Bytes) (de : Bool)
      → length iv ≡ 2 ^ k
      → Ready k (new_cfb8 (2 ^ k) iv de) × (register_of (new_cfb8 (2 ^ k) iv de) ≡ iv)
  unfolding new_cfb8
  new_cfb8-register iv de e = (
    (
      refl,
      omega arith,
      omega (
        arith,
        length-append iv (replicate (2 * length iv) 0),
        length-replicate {A = ℕ} (2 * length iv) 0,
      ),
    ),
    ap (λ (n : ℕ). take n (iv ++ replicate (2 * length iv) 0)) (sym e)
        ∙ take-length_append iv (replicate (2 * length iv) 0),
  )

  register_round_trip :
      (vs register : Bytes)
      → let c = register_stream encrypt false register vs in
        register_stream encrypt true register c.1 ≡ (c.0, vs)
  register_round_trip [] register = refl
  register_round_trip (v ∷ vs) register =
      let key = first (encrypt register) in
      rw (register_round_trip vs (shift_in register (bit_xor v key)), bit_xor_twice v key)

  -- Two streams that start from one vector of a block, with one block cipher on blocks of 2 ^ k
  -- bytes: what the one encrypts, the other decrypts, and neither panics.
  pub decrypt-encrypt :
      (iv src : Bytes)
      → length iv ≡ 2 ^ k
      → (sent received : Cfb8) × (cipher : Bytes) × (xor_key_stream encrypt
            (new_cfb8 (2 ^ k) iv false)
            src
          ≡ some (sent, cipher))
        × (xor_key_stream encrypt (new_cfb8 (2 ^ k) iv true) cipher ≡ some (received, src))
  unfolding new_cfb8
  decrypt-encrypt iv src e =
      let (ready1, holds1) = new_cfb8-register iv false e in
      let (ready2, holds2) = new_cfb8-register iv true e in
      let (sent, run1, r1, q1, d1) =
        xor_key_stream-register src (new_cfb8 (2 ^ k) iv false) ready1 in
      let cipher : Bytes = (register_stream encrypt false iv src).1 in
      let (received, run2, r2, q2, d2) =
        xor_key_stream-register cipher (new_cfb8 (2 ^ k) iv true) ready2 in
      (
        sent,
        received,
        cipher,
        run1 ∙ ap (λ r. some (sent, (register_stream encrypt false r src).1)) holds1,
        run2
            ∙ ap (λ r. some (received, (register_stream encrypt true r cipher).1)) holds2
            ∙ ap (λ c. some (received, c.1)) (register_round_trip src iv),
      )
