-- ===== src/Bot/Events/Registered.antt =====
-- The handlers of a packet ID after AddListener (bot/event.go), and their order.
use mc_afk_go.Base.{ℕ, zero, suc, ◌≡◌, ◌≤◌, ◌<◌, refl, ap, sym, subst, ◌∙◌, false, arith}
use mc_afk_go.Base.{List, [], ◌∷◌, ◌++◌, length, some, All, inl, inr, if◌then◌else◌}
use mc_afk_go.Base.{
  append_assoc, append-nil, get_elem?, replicate, ◌==◌, Bool-cases, lt→leb, length-replicate,
}
use mc_afk_go.Bot.Events.{PacketHandler, Events, before, insert, sort_from, sort_packet_handlers}
use mc_afk_go.Bot.Events.{add_to, add_at, add_listener, new_events}
use mc_afk_go.Bot.Events.Sorting.{Sorted, sort-Sorted, sort-append, insert_last}
use mc_afk_go.Bot.Events.Stable.{Descending, of_rank, sort-Descending, of_rank-sort}

module _ {S E : Type 0} where
  -- The listeners for one packet ID, in the order in which they were registered.
  abbrev pub with_id : ℕ → List (PacketHandler S E) → List (PacketHandler S E)
  with_id i [] = []
  with_id i (x ∷ xs) = let rest = with_id i xs in if x.id == i then x ∷ rest else rest

  ahead_of_each :
      (done : List (PacketHandler S E)) (x : PacketHandler S E) (xs : List (PacketHandler S E))
      → Sorted (done ++ x ∷ xs)
      → All (λ y. before x y ≡ false) done
  ahead_of_each [] x xs h = tt
  ahead_of_each (d ∷ ds) x xs h = (at_x ds h.0, ahead_of_each ds x xs h.1)
    where
      at_x :
          (ds : List (PacketHandler S E))
          → All (λ y. before y d ≡ false) (ds ++ x ∷ xs)
          → before x d ≡ false
      at_x [] k = k.0
      at_x (e ∷ es) k = at_x es k.1

  sort_from_keeps :
      (done xs : List (PacketHandler S E)) → Sorted (done ++ xs) → sort_from done xs ≡ done ++ xs
  unfolding sort_from
  sort_from_keeps done [] h = sym (append-nil done)
  sort_from_keeps done (x ∷ xs) h =
      let shift = append_assoc done (x ∷ []) xs in
      ap (λ d. sort_from d xs) (insert_last x done (ahead_of_each done x xs h))
      ∙ sort_from_keeps (done ++ x ∷ []) xs (subst Sorted (sym shift) h)
      ∙ shift

  sort_again : (xs : List (PacketHandler S E)) → Sorted xs → sort_packet_handlers xs ≡ xs
  unfolding sort_packet_handlers
  sort_again xs h = sort_from_keeps [] xs h

  add_to_any :
      (l : List (PacketHandler S E)) (x : PacketHandler S E)
      → add_to l x ≡ sort_packet_handlers (l ++ x ∷ [])
  unfolding add_to sort_packet_handlers sort_from insert
  add_to_any [] x = refl
  add_to_any (y ∷ ys) x = refl

  -- Sorting again after each handler is sorting once.
  add_to-sort :
      (xs : List (PacketHandler S E)) (x : PacketHandler S E)
      → add_to (sort_packet_handlers xs) x ≡ sort_packet_handlers (xs ++ x ∷ [])
  add_to-sort xs x =
      add_to_any (sort_packet_handlers xs) x
      ∙ sort-append (sort_packet_handlers xs) x
      ∙ ap (insert x) (sort_again (sort_packet_handlers xs) (sort-Sorted xs))
      ∙ sym (sort-append xs x)

  get-add_at_same :
      (i : ℕ) (x : PacketHandler S E) (hs : List (List (PacketHandler S E)))
      (l : List (PacketHandler S E))
      → get_elem? hs i ≡ some l
      → get_elem? (add_at i x hs) i ≡ some (add_to l x)
  unfolding add_at
  get-add_at_same i x [] l h = ground arith
  get-add_at_same zero x (s ∷ ss) l h = ground arith
  get-add_at_same (suc i) x (s ∷ ss) l h = get-add_at_same i x ss l h

  get-add_at_other :
      (i j : ℕ) (x : PacketHandler S E) (hs : List (List (PacketHandler S E)))
      → (j == i) ≡ false
      → get_elem? (add_at j x hs) i ≡ get_elem? hs i
  unfolding add_at
  get-add_at_other i j x [] h = refl
  get-add_at_other zero zero x (s ∷ ss) h = absurd (ground arith)
  get-add_at_other zero (suc j) x (s ∷ ss) h = refl
  get-add_at_other (suc i) zero x (s ∷ ss) h = refl
  get-add_at_other (suc i) (suc j) x (s ∷ ss) h = get-add_at_other i j x ss (ground arith)

  length-add_at :
      (i : ℕ) (x : PacketHandler S E) (hs : List (List (PacketHandler S E)))
      → length (add_at i x hs) ≡ length hs
  unfolding add_at
  length-add_at i x [] = refl
  length-add_at zero x (s ∷ ss) = refl
  length-add_at (suc i) x (s ∷ ss) = ap suc (length-add_at i x ss)

  -- The packet IDs that AddListener takes.
  abbrev pub InRange : ℕ → PacketHandler S E → Type 0
  InRange n x = (x.id < n) × (n ≤ 0x8000_0000)

  step_at :
      (i : ℕ) (x : PacketHandler S E) (hs : List (List (PacketHandler S E)))
      (before_it after_it : List (PacketHandler S E))
      → get_elem? hs i ≡ some (sort_packet_handlers before_it)
      → (l : List (PacketHandler S E)) × (get_elem? (add_at x.id x hs) i
          ≡ some (sort_packet_handlers l))
        × (l ++ with_id i after_it ≡ before_it ++ with_id i (x ∷ after_it))
  step_at i x hs before_it after_it h = elim (Bool-cases (x.id == i)) [
    | inl same ↦ (
      before_it ++ x ∷ [],
      subst (λ j. get_elem? (add_at j x hs) i ≡ some (sort_packet_handlers (before_it ++ x ∷ [])))
          (let e : i ≡ x.id = ground arith in e)
          (get-add_at_same i x hs _ h ∙ ap some (add_to-sort before_it x)),
      rw (same) (append_assoc before_it (x ∷ []) (with_id i after_it)),
    )
    | inr other ↦ (before_it, get-add_at_other i x.id x hs other ∙ h, rw (other) refl)
  ]

  add_listener_many :
      (ls : List (PacketHandler S E)) (e : Events S E) (i : ℕ) (hs : List (PacketHandler S E))
      → All (InRange (length e.handlers)) ls
      → get_elem? e.handlers i ≡ some (sort_packet_handlers hs)
      → (e' : Events S E) × (add_listener ls e ≡ some e')
        × (e'.generic ≡ e.generic)
        × (get_elem? e'.handlers i ≡ some (sort_packet_handlers (hs ++ with_id i ls)))
  unfolding add_listener
  add_listener_many [] e i hs h g = (e, refl, refl, rw append-nil g)
  add_listener_many (x ∷ xs) e i hs h g =
      let (l, at_i, joined) = step_at i x e.handlers hs xs g in
      let next : Events S E = record e { handlers = add_at x.id x e.handlers } in
      let (e', added, same, found) =
        add_listener_many xs next i l
          (subst (λ n. All (InRange n) xs) (sym (length-add_at x.id x e.handlers)) h.1) at_i in
      (
        e',
        rw (
          lt→leb 0x8000_0000 x.id (omega (arith, h.0)),
          lt→leb (length e.handlers) x.id h.0.0,
          added,
        ),
        same,
        found ∙ ap (λ k. some (sort_packet_handlers k)) joined,
      )

  get-replicate :
      (n i : ℕ) (l : List (PacketHandler S E)) → i < n → get_elem? (replicate n l) i ≡ some l
  get-replicate zero i l h = absurd (omega arith)
  get-replicate (suc n) zero l h = refl
  get-replicate (suc n) (suc i) l h = get-replicate n i l (omega arith)

  -- With the events of a new client and listeners whose packet IDs are in range, AddListener
  -- succeeds, the generic handlers stay, and the handlers of a packet ID are in descending
  -- order of their priorities as signed integers; for every priority they are the listeners
  -- registered for that packet ID with it, in their order, however they were interleaved with
  -- others.
  pub registered :
      (ls : List (PacketHandler S E)) (n i k : ℕ)
      → All (InRange n) ls
      → i < n
      → (e : Events S E) × (hs : List (PacketHandler S E)) × (add_listener ls (new_events n)
          ≡ some e)
        × (e.generic ≡ [])
        × (get_elem? e.handlers i ≡ some hs)
        × Descending hs
        × (of_rank k hs ≡ of_rank k (with_id i ls))
  unfolding new_events
  registered ls n i k h l =
      let (e, added, same, found) =
        add_listener_many ls (new_events n) i []
          (subst (λ m. All (InRange m) ls) (sym (length-replicate n [])) h)
          (get-replicate n i [] l ∙ ap some (sym (sort_again [] tt))) in
      (
        e,
        sort_packet_handlers (with_id i ls),
        added,
        same,
        found,
        sort-Descending (with_id i ls),
        of_rank-sort k (with_id i ls),
      )
