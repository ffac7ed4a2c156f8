-- ===== src/Bot/Events/Stable.antt =====
-- What a stable sort by descending priority is, for sortPacketHandlers of bot/event.go.
use mc_afk_go.Base.{
  ℕ, ◌+◌, ◌%◌, ◌≡◌, ◌≤◌, ◌<◌, refl, sym, ap, subst, ◌∙◌, true, false, arith, Bool-cases,
}
use mc_afk_go.Base.{
  List, [], ◌∷◌, ◌++◌, All, inl, inr, ◌==◌, if◌then◌else◌, append_assoc, append-nil,
}
use mc_afk_go.Bot.Events.{PacketHandler, before, insert, sort_from, sort_packet_handlers}
use mc_afk_go.Bot.Events.Sorting.{Sorted, insert-Sorted, sort-Sorted}

module _ {S E : Type 0} where
  -- The place of a priority among the ints: 0 for the least one, whose pattern is 2 ^ 63.
  abbrev pub rank : PacketHandler S E → ℕ
  rank x = (x.priority + 0x8000_0000_0000_0000) % 0x1_0000_0000_0000_0000

  -- No handler has a lower priority than one behind it.
  abbrev pub Descending : List (PacketHandler S E) → Type 0
  Descending [] = Unit {0}
  Descending (x ∷ xs) = All (λ y. rank y ≤ rank x) xs × Descending xs

  -- The handlers of one priority, in their order.
  abbrev pub of_rank : ℕ → List (PacketHandler S E) → List (PacketHandler S E)
  of_rank k [] = []
  of_rank k (x ∷ xs) = let rest = of_rank k xs in if rank x == k then x ∷ rest else rest

  not_higher :
      (x : PacketHandler S E) (xs : List (PacketHandler S E))
      → All (λ y. before y x ≡ false) xs
      → All (λ y. rank y ≤ rank x) xs
  unfolding before
  not_higher x [] h = tt
  not_higher x (y ∷ ys) h = (ground (arith, h.0), not_higher x ys h.1)

  Sorted-Descending : (xs : List (PacketHandler S E)) → Sorted xs → Descending xs
  Sorted-Descending [] h = tt
  Sorted-Descending (x ∷ xs) h = (not_higher x xs h.0, Sorted-Descending xs h.1)

  pub sort-Descending : (xs : List (PacketHandler S E)) → Descending (sort_packet_handlers xs)
  sort-Descending xs = Sorted-Descending (sort_packet_handlers xs) (sort-Sorted xs)

  none_of_rank :
      (k : ℕ) (xs : List (PacketHandler S E)) → All (λ y. rank y < k) xs → of_rank k xs ≡ []
  none_of_rank k [] h = refl
  none_of_rank k (y ∷ ys) h =
      rw (let e : (rank y == k) ≡ false = ground (arith, h.0) in e) (none_of_rank k ys h.1)

  lower_each :
      (x y : PacketHandler S E) (ys : List (PacketHandler S E))
      → rank y < rank x
      → All (λ z. rank z ≤ rank y) ys
      → All (λ z. rank z < rank x) ys
  lower_each x y [] h k = tt
  lower_each x y (z ∷ ys) h k = (omega (arith, k.0), lower_each x y ys h k.1)

  -- In front of handlers of lower priorities, a handler is the last of its own.
  of_rank-front :
      (k : ℕ) (x : PacketHandler S E) (ys : List (PacketHandler S E))
      → All (λ y. rank y < rank x) ys
      → of_rank k (x ∷ ys) ≡ of_rank k ys ++ of_rank k (x ∷ [])
  of_rank-front k x ys h = elim (Bool-cases (rank x == k)) [
    | inl same ↦
        let e : rank x ≡ k = ground arith in
        rw (same, none_of_rank k ys (subst (λ (n : ℕ). All (λ y. rank y < n) ys) e h)) refl
    | inr other ↦ rw (other) (sym (append-nil (of_rank k ys)))
  ]

  higher : (x y : PacketHandler S E) → before x y ≡ true → rank y < rank x
  unfolding before
  higher x y h = ground arith

  of_rank-insert :
      (k : ℕ) (x : PacketHandler S E) (ys : List (PacketHandler S E))
      → Descending ys
      → of_rank k (insert x ys) ≡ of_rank k ys ++ of_rank k (x ∷ [])
  unfolding insert
  of_rank-insert k x [] h = refl
  of_rank-insert k x (y ∷ ys) h = elim (Bool-cases (before x y)) [
    | inl first ↦ rw (first) (
        let lower : rank y < rank x = higher x y first in
        of_rank-front k x (y ∷ ys) (lower, lower_each x y ys lower h.0))
    | inr later ↦ rw (later) (elim (Bool-cases (rank y == k)) [
      | inl same ↦ rw (same) (ap (◌∷◌ y) (of_rank-insert k x ys h.1))
      | inr other ↦ rw (other) (of_rank-insert k x ys h.1)
    ])
  ]

  of_rank-cons :
      (k : ℕ) (x : PacketHandler S E) (xs : List (PacketHandler S E))
      → of_rank k (x ∷ xs) ≡ of_rank k (x ∷ []) ++ of_rank k xs
  of_rank-cons k x xs = elim (Bool-cases (rank x == k)) [
    | inl same ↦ rw (same) refl
    | inr other ↦ rw (other) refl
  ]

  of_rank-sort_from :
      (k : ℕ) (done xs : List (PacketHandler S E))
      → Sorted done
      → of_rank k (sort_from done xs) ≡ of_rank k done ++ of_rank k xs
  unfolding sort_from
  of_rank-sort_from k done [] h = sym (append-nil (of_rank k done))
  of_rank-sort_from k done (x ∷ xs) h =
      of_rank-sort_from k (insert x done) xs (insert-Sorted x done h)
      ∙ ap (λ l. l ++ of_rank k xs) (of_rank-insert k x done (Sorted-Descending done h))
      ∙ append_assoc (of_rank k done) (of_rank k (x ∷ [])) (of_rank k xs)
      ∙ ap (λ l. of_rank k done ++ l) (sym (of_rank-cons k x xs))

  pub of_rank-sort :
      (k : ℕ) (xs : List (PacketHandler S E)) → of_rank k (sort_packet_handlers xs) ≡ of_rank k xs
  unfolding sort_packet_handlers
  of_rank-sort k xs = of_rank-sort_from k [] xs tt
