-- ===== src/Cfb8/Window.antt =====
-- Reads of the vector of net/CFB8/cfb8.go by index, after the copies and stores of a round.
use mc_afk_go.Base.{ℕ, zero, suc, ◌+◌, ◌≤◌, ◌<◌, ◌≡◌, refl, ap, ap₂, ◌∙◌, arith}
use mc_afk_go.Base.{List, [], ◌∷◌, ◌++◌, length, take, drop, get_elem?, set, some}
use mc_afk_go.Io.{Bytes}
use mc_afk_go.Cfb8.{copy_at}

pub length-copy_at : (xs : Bytes) (i : ℕ) (ys : Bytes) → length (copy_at xs i ys) ≡ length xs
length-copy_at xs zero [] = refl
length-copy_at [] zero (y ∷ ys) = refl
length-copy_at [] (suc i) ys = refl
length-copy_at (x ∷ xs) zero (y ∷ ys) = ap suc (length-copy_at xs zero ys)
length-copy_at (x ∷ xs) (suc i) ys = ap suc (length-copy_at xs i ys)

pub get-copy_before :
    (xs : Bytes) (i : ℕ) (ys : Bytes) (j : ℕ)
    → j < i
    → get_elem? (copy_at xs i ys) j ≡ get_elem? xs j
get-copy_before xs zero ys j h = absurd (omega arith)
get-copy_before [] (suc i) ys j h = refl
get-copy_before (x ∷ xs) (suc i) ys zero h = refl
get-copy_before (x ∷ xs) (suc i) ys (suc j) h = get-copy_before xs i ys j (omega arith)

pub get-copy_after :
    (xs : Bytes) (i : ℕ) (ys : Bytes) (j : ℕ)
    → i + length ys ≤ j
    → get_elem? (copy_at xs i ys) j ≡ get_elem? xs j
get-copy_after xs zero [] j h = refl
get-copy_after [] zero (y ∷ ys) j h = refl
get-copy_after [] (suc i) ys j h = refl
get-copy_after (x ∷ xs) zero (y ∷ ys) zero h = absurd (omega arith)
get-copy_after (x ∷ xs) zero (y ∷ ys) (suc j) h = get-copy_after xs zero ys j (omega arith)
get-copy_after (x ∷ xs) (suc i) ys zero h = absurd (omega arith)
get-copy_after (x ∷ xs) (suc i) ys (suc j) h = get-copy_after xs i ys j (omega arith)

pub get-copy_inside :
    (xs : Bytes) (i : ℕ) (ys : Bytes) (k j : ℕ)
    → i + k ≡ j
    → k < length ys
    → i + length ys ≤ length xs
    → get_elem? (copy_at xs i ys) j ≡ get_elem? ys k
get-copy_inside xs zero [] k j e h f = absurd (omega arith)
get-copy_inside [] zero (y ∷ ys) k j e h f = absurd (omega arith)
get-copy_inside [] (suc i) ys k j e h f = absurd (omega arith)
get-copy_inside (x ∷ xs) zero (y ∷ ys) zero zero e h f = refl
get-copy_inside (x ∷ xs) zero (y ∷ ys) zero (suc j) e h f = absurd (omega arith)
get-copy_inside (x ∷ xs) zero (y ∷ ys) (suc k) zero e h f = absurd (omega arith)
get-copy_inside (x ∷ xs) zero (y ∷ ys) (suc k) (suc j) e h f =
    get-copy_inside xs zero ys k j (omega arith) (omega arith) (omega arith)
get-copy_inside (x ∷ xs) (suc i) ys k zero e h f = absurd (omega arith)
get-copy_inside (x ∷ xs) (suc i) ys k (suc j) e h f =
    get-copy_inside xs i ys k j (omega arith) h (omega arith)

module _ {ℓ} {A : Type ℓ} where
  pub get-set_same :
      (xs : List A) (i : ℕ) (v : A) → i < length xs → get_elem? (set xs i v) i ≡ some v
  get-set_same [] i v h = absurd (omega arith)
  get-set_same (x ∷ xs) zero v h = refl
  get-set_same (x ∷ xs) (suc i) v h = get-set_same xs i v (omega arith)

  pub get-set_below :
      (xs : List A) (i : ℕ) (v : A) (j : ℕ) → j < i → get_elem? (set xs i v) j ≡ get_elem? xs j
  get-set_below [] i v j h = refl
  get-set_below (x ∷ xs) zero v j h = absurd (omega arith)
  get-set_below (x ∷ xs) (suc i) v zero h = refl
  get-set_below (x ∷ xs) (suc i) v (suc j) h = get-set_below xs i v j (omega arith)

  pub get-drop : (n : ℕ) (xs : List A) (i : ℕ) → get_elem? (drop n xs) i ≡ get_elem? xs (n + i)
  get-drop zero xs i = ap (get_elem? xs) (let e : i ≡ 0 + i = omega arith in e)
  get-drop (suc n) [] i = refl
  get-drop (suc n) (x ∷ xs) i =
      get-drop n xs i ∙ ap (get_elem? (x ∷ xs)) (let e : suc (n + i) ≡ suc n + i = omega arith in e)

  pub get-take : (n : ℕ) (xs : List A) (i : ℕ) → i < n → get_elem? (take n xs) i ≡ get_elem? xs i
  get-take zero xs i h = absurd (omega arith)
  get-take (suc n) [] i h = refl
  get-take (suc n) (x ∷ xs) zero h = refl
  get-take (suc n) (x ∷ xs) (suc i) h = get-take n xs i (omega arith)

  pub get-append_end :
      (xs : List A) (v : A) (i : ℕ) → i ≡ length xs → get_elem? (xs ++ v ∷ []) i ≡ some v
  get-append_end [] v zero h = refl
  get-append_end [] v (suc i) h = absurd (omega arith)
  get-append_end (x ∷ xs) v zero h = absurd (omega arith)
  get-append_end (x ∷ xs) v (suc i) h = get-append_end xs v i (omega arith)

  pub get-append_front :
      (xs ys : List A) (i : ℕ) → i < length xs → get_elem? (xs ++ ys) i ≡ get_elem? xs i
  get-append_front [] ys i h = absurd (omega arith)
  get-append_front (x ∷ xs) ys zero h = refl
  get-append_front (x ∷ xs) ys (suc i) h = get-append_front xs ys i (omega arith)

  -- Lists of one length that agree at every index are equal.
  pub list_ext :
      (xs ys : List A)
      → length xs ≡ length ys
      → ((i : ℕ) → i < length xs → get_elem? xs i ≡ get_elem? ys i)
      → xs ≡ ys
  list_ext [] [] e h = refl
  list_ext [] (y ∷ ys) e h = absurd (omega arith)
  list_ext (x ∷ xs) [] e h = absurd (omega arith)
  list_ext (x ∷ xs) (y ∷ ys) e h =
      let same : x ≡ y = ground (arith, h 0 (omega arith)) in
      ap₂ ◌∷◌ same (list_ext xs ys (omega arith) (λ i k. h (suc i) (omega arith)))
