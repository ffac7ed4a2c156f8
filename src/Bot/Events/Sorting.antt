-- ===== src/Bot/Events/Sorting.antt =====
-- The order in which the handlers of a packet ID stand (sortPacketHandlers of bot/event.go).
use mc_afk_go.Base.{◌≡◌, refl, true, false, arith, Bool-cases}
use mc_afk_go.Base.{List, [], ◌∷◌, ◌++◌, All, inl, inr}
use mc_afk_go.Bot.Events.{PacketHandler, before, insert, sort_from, sort_packet_handlers}

module _ {S E : Type 0} where
  -- No handler stands in front of one that has a higher priority.
  abbrev pub Sorted : List (PacketHandler S E) → Type 0
  Sorted [] = Unit {0}
  Sorted (x ∷ xs) = All (λ y. before y x ≡ false) xs × Sorted xs

  before_trans :
      (x y z : PacketHandler S E) → before y x ≡ false → before z y ≡ false → before z x ≡ false
  unfolding before
  before_trans x y z h k = ground arith

  before_asym : (x y : PacketHandler S E) → before x y ≡ true → before y x ≡ false
  unfolding before
  before_asym x y h = ground arith

  behind_each :
      (x y : PacketHandler S E) (ys : List (PacketHandler S E))
      → before x y ≡ true
      → All (λ z. before z y ≡ false) ys
      → All (λ z. before z x ≡ false) ys
  behind_each x y [] h k = tt
  behind_each x y (z ∷ ys) h k =
      (before_trans x y z (before_asym x y h) k.0, behind_each x y ys h k.1)

  insert-All :
      (P : PacketHandler S E → Type 0) (x : PacketHandler S E) (ys : List (PacketHandler S E))
      → P x
      → All P ys
      → All P (insert x ys)
  unfolding insert
  insert-All P x [] h k = (h, tt)
  insert-All P x (y ∷ ys) h k = elim (Bool-cases (before x y)) [
    | inl first ↦ rw (first) (h, k)
    | inr later ↦ rw (later) (k.0, insert-All P x ys h k.1)
  ]

  pub insert-Sorted :
      (x : PacketHandler S E) (ys : List (PacketHandler S E)) → Sorted ys → Sorted (insert x ys)
  unfolding insert
  insert-Sorted x [] h = (tt, tt)
  insert-Sorted x (y ∷ ys) h = elim (Bool-cases (before x y)) [
    | inl first ↦ rw (first) ((before_asym x y first, behind_each x y ys first h.0), h)
    | inr later ↦
        rw (later) (insert-All (λ z. before z y ≡ false) x ys later h.0, insert-Sorted x ys h.1)
  ]

  sort_from-Sorted : (done xs : List (PacketHandler S E)) → Sorted done → Sorted (sort_from done xs)
  unfolding sort_from
  sort_from-Sorted done [] h = h
  sort_from-Sorted done (x ∷ xs) h = sort_from-Sorted (insert x done) xs (insert-Sorted x done h)

  pub sort-Sorted : (xs : List (PacketHandler S E)) → Sorted (sort_packet_handlers xs)
  unfolding sort_packet_handlers
  sort-Sorted xs = sort_from-Sorted [] xs tt

  sort_from-append :
      (done xs : List (PacketHandler S E)) (x : PacketHandler S E)
      → sort_from done (xs ++ x ∷ []) ≡ insert x (sort_from done xs)
  unfolding sort_from
  sort_from-append done [] x = refl
  sort_from-append done (y ∷ ys) x = sort_from-append (insert y done) ys x

  pub sort-append :
      (xs : List (PacketHandler S E)) (x : PacketHandler S E)
      → sort_packet_handlers (xs ++ x ∷ []) ≡ insert x (sort_packet_handlers xs)
  unfolding sort_packet_handlers
  sort-append xs x = sort_from-append [] xs x

  -- A handler that is before none of those that are there goes to the end.
  pub insert_last :
      (x : PacketHandler S E) (ys : List (PacketHandler S E))
      → All (λ y. before x y ≡ false) ys
      → insert x ys ≡ ys ++ x ∷ []
  unfolding insert
  insert_last x [] h = refl
  insert_last x (y ∷ ys) h = rw (h.0, insert_last x ys h.1)
