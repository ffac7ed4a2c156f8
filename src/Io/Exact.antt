-- ===== src/Io/Exact.antt =====
-- The bytes that a read takes from the front of its source, against its count.
use mc_afk_go.Base.{ℕ, ◌+◌, ◌≡◌, refl, sym, ap, ◌∙◌, arith}
use mc_afk_go.Base.{[], ◌++◌, leb, length, take, append_assoc}
use mc_afk_go.Base.{length-append, length-take, take-append-drop, append-nil, leb→le, Bool-cases}
use mc_afk_go.Base.{inl, inr}
use mc_afk_go.Io.{Bytes, Reader, Outcome, done, fail, panic, stuck, Decoder, add_count}
use mc_afk_go.Io.{◌>>=◌, map_value, read_full, read_all}

-- `used` are the bytes that lead from the one source to the other.
pub record Takes (r r' : Reader) (n : ℕ) : Type 0 where
  pub used : Bytes
  pub splits : r.input ≡ used ++ r'.input
  pub counted : length used ≡ n
  pub same_kind : r'.is_byte_reader ≡ r.is_byte_reader

abbrev pub Exact {ℓ} : {A : Type ℓ} → Reader → Outcome A → Type 0
Exact r (done n v r') = Takes r r' n
Exact r (fail n e) = Unit {0}
Exact r panic = Unit {0}
Exact r stuck = Unit {0}

pub Takes-trans : {r s t : Reader} {n m : ℕ} → Takes r s n → Takes s t m → Takes r t (n + m)
Takes-trans {r} {s} {t} h k = record {
  used = h.used ++ k.used;
  splits =
      h.splits
      ∙ ap (λ (xs : Bytes). h.used ++ xs) k.splits
      ∙ sym (append_assoc h.used k.used t.input);
  counted = omega (arith, length-append h.used k.used, h.counted, k.counted);
  same_kind = k.same_kind ∙ h.same_kind;
}

pub Takes-none : (r : Reader) → Takes r r 0
Takes-none r = record { used = []; splits = refl; counted = refl; same_kind = refl }

pub Exact-add_count {ℓ} :
    {A : Type ℓ} {r s : Reader} {n : ℕ} (o : Outcome A)
    → Takes r s n
    → Exact s o
    → Exact r (add_count n o)
Exact-add_count (done m v t) h k = Takes-trans h k
Exact-add_count (fail m e) h k = tt
Exact-add_count panic h k = tt
Exact-add_count stuck h k = tt

pub Exact-bind {ℓ κ} :
    {A : Type ℓ} {B : Type κ} (r : Reader) (o : Outcome A) (f : A → Decoder B)
    → Exact r o
    → ((a : A) (s : Reader) → Exact s (f a s))
    → Exact r (o >>= f)
Exact-bind r (done n a s) f h k = Exact-add_count (f a s) h (k a s)
Exact-bind r (fail n e) f h k = tt
Exact-bind r panic f h k = tt
Exact-bind r stuck f h k = tt

pub Exact-map_value {ℓ κ} :
    {A : Type ℓ} {B : Type κ} (r : Reader) (f : A → B) (o : Outcome A)
    → Exact r o
    → Exact r (map_value f o)
Exact-map_value r f (done n a s) h = h
Exact-map_value r f (fail n e) h = tt
Exact-map_value r f panic h = tt
Exact-map_value r f stuck h = tt

pub read_full-Exact : (k : ℕ) (r : Reader) → Exact r (read_full k r)
unfolding read_full
read_full-Exact k r = elim (Bool-cases (leb k (length r.input))) [
  | inl fits ↦ rw fits (record {
    used = take k r.input;
    splits = sym (take-append-drop k r.input);
    counted = omega (arith, length-take k r.input, leb→le k _ fits);
    same_kind = refl;
  })
  | inr short ↦ rw short tt
]

pub read_all-Exact : (r : Reader) → Exact r (read_all r)
unfolding read_all
read_all-Exact r = record {
  used = r.input;
  splits = sym (append-nil r.input);
  counted = refl;
  same_kind = refl;
}
