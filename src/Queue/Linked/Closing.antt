-- ===== src/Queue/Linked/Closing.antt =====
-- Closing a LinkedListQueue (net/queue/queue.go), and what a push behind it does to the mutex.
use mc_afk_go.Base.{◌≡◌, refl, sym, ap, ◌∙◌, Bool, true, false, ◌||◌, if◌then◌else◌, arith}
use mc_afk_go.Base.{List, [], ◌∷◌, ◌++◌, Option, none, some, ◌⊎◌, inl, inr, ℕ, zero, suc}
use mc_afk_go.Queue.Linked.{
  LinkedQueue, new_linked_queue, push, push_with, pull_round, pull_with, close,
}
use mc_afk_go.Queue.Linked.{broadcast, signal, signal_count, Event, pushes, pulls, closes}
use mc_afk_go.Queue.Linked.{
  Step, by_push, by_pull, by_woken, by_close, Reached, at_start, then_step,
}

module _ {A : Type 0} where
  is_close : Event A → Bool
  is_close (pushes v r) = false
  is_close (pulls r) = false
  is_close closes = true

  -- Whether a close is among the events.
  unfoldable pub any_close : List (Event A) → Bool
  unfolding is_close
  any_close [] = false
  any_close (e ∷ es) = is_close e || any_close es

  is_panic : Event A → Bool
  is_panic (pushes v none) = true
  is_panic (pushes v (some b)) = false
  is_panic (pulls r) = false
  is_panic closes = false

  any_panic : List (Event A) → Bool
  unfolding is_panic
  any_panic [] = false
  any_panic (e ∷ es) = is_panic e || any_panic es

  -- The state and the events agree on whether the queue is closed, and whether the mutex is held.
  abbrev Agrees : List (Event A) → LinkedQueue A → Type 0
  Agrees es p = (p.closed ≡ any_close es) × (p.held ≡ any_panic es)

  signal_count_keeps :
      (n : ℕ) (p : LinkedQueue A)
      → ((signal_count n p).closed ≡ p.closed) × ((signal_count n p).held ≡ p.held)
  unfolding signal_count
  signal_count_keeps zero p = (refl, refl)
  signal_count_keeps (suc n) p = (refl, refl)

  push_with-Agrees :
      (b : Bool) (es : List (Event A)) (p : LinkedQueue A) (v : A)
      → Agrees es p
      → p.held ≡ false
      → Agrees (pushes v (push_with b p v).1 ∷ es) (push_with b p v).0
  unfolding push_with signal any_close any_panic is_close is_panic
  push_with-Agrees true es p v h free = (h.0, refl)
  push_with-Agrees false es p v h free =
      let k = signal_count_keeps p.waiting (record p { queue = p.queue ++ v ∷ [] }) in
      (k.0 ∙ h.0, k.1 ∙ h.1)

  pull_with-Agrees :
      (vs : List A) (b : Bool) (es : List (Event A)) (p : LinkedQueue A)
      → Agrees es p
      → Agrees (pulls (pull_with vs b p).1 ∷ es) (pull_with vs b p).0
  unfolding pull_with any_close any_panic is_close is_panic
  pull_with-Agrees [] true es p h = h
  pull_with-Agrees [] false es p h = h
  pull_with-Agrees (v ∷ vs) b es p h = h

  step-Agrees :
      (es : List (Event A)) (p q : LinkedQueue A) (e : Event A)
      → Step p e q
      → Agrees es p
      → Agrees (e ∷ es) q
  unfolding push pull_round close broadcast any_close any_panic is_close is_panic
  step-Agrees es _ _ _ (by_push p v free) h = push_with-Agrees p.closed es p v h free
  step-Agrees es _ _ _ (by_pull p free) h = pull_with-Agrees p.queue p.closed es p h
  step-Agrees es _ _ _ (by_woken p n free woken) h =
      pull_with-Agrees p.queue p.closed es (record p { woken = n }) h
  step-Agrees es _ _ _ (by_close p free) h = (refl, h.1)

  Reached-Agrees : (es : List (Event A)) (p : LinkedQueue A) → Reached es p → Agrees es p
  unfolding new_linked_queue any_close any_panic
  Reached-Agrees _ _ at_start = (refl, refl)
  Reached-Agrees _ _ (then_step es p q e r step) = step-Agrees es p q e step (Reached-Agrees es p r)

  step_free : (p q : LinkedQueue A) (e : Event A) → Step p e q → p.held ≡ false
  step_free _ _ _ (by_push p v free) = free
  step_free _ _ _ (by_pull p free) = free
  step_free _ _ _ (by_woken p n free woken) = free
  step_free _ _ _ (by_close p free) = free

  -- Nothing comes behind a panic.
  no_panic_before :
      (es : List (Event A)) (e : Event A) (q : LinkedQueue A)
      → Reached (e ∷ es) q
      → any_panic es ≡ false
  no_panic_before _ _ _ (then_step es p q e r step) =
      sym (Reached-Agrees es p r).1 ∙ step_free p q e step

  -- What a push returns, by the events before it.
  abbrev Answers : List (Event A) → Event A → Type 0
  Answers es (pushes v r) = r ≡ (if any_close es then none else some true)
  Answers es (pulls r) = Unit {0}
  Answers es closes = Unit {0}

  push_with-answer :
      (b : Bool) (p : LinkedQueue A) (v : A) → (push_with b p v).1 ≡ (if b then none else some true)
  unfolding push_with
  push_with-answer true p v = refl
  push_with-answer false p v = refl

  step-Answers :
      (es : List (Event A)) (p q : LinkedQueue A) (e : Event A)
      → Step p e q
      → p.closed ≡ any_close es
      → Answers es e
  unfolding push
  step-Answers es _ _ _ (by_push p v free) h =
      push_with-answer p.closed p v ∙ ap (λ b. if b then none else some true) h
  step-Answers es _ _ _ (by_pull p free) h = tt
  step-Answers es _ _ _ (by_woken p n free woken) h = tt
  step-Answers es _ _ _ (by_close p free) h = tt

  Reached-Answers :
      (es : List (Event A)) (e : Event A) (q : LinkedQueue A) → Reached (e ∷ es) q → Answers es e
  Reached-Answers _ _ _ (then_step es p q e r step) =
      step-Answers es p q e step (Reached-Agrees es p r).0

  one_before :
      (es : List (Event A)) (e : Event A) (q : LinkedQueue A)
      → Reached (e ∷ es) q
      → (p : LinkedQueue A) × Reached es p
  one_before _ _ _ (then_step es p q e r step) = (p, r)

  Reached-before :
      (later es : List (Event A)) (q : LinkedQueue A)
      → Reached (later ++ es) q
      → (p : LinkedQueue A) × Reached es p
  Reached-before [] es q r = (q, r)
  Reached-before (e ∷ later) es q r =
      let (p, k) = one_before (later ++ es) e q r in Reached-before later es p k

  panic_within :
      (later es : List (Event A)) (e : Event A)
      → any_panic (later ++ e ∷ es) ≡ false
      → is_panic e ≡ false
  unfolding any_panic
  panic_within [] es e h = ground (arith, h)
  panic_within (l ∷ later) es e h = panic_within later es e (ground (arith, h))

  no_panic :
      (b : Bool) (v : A) (r : Option Bool)
      → r ≡ (if b then none else some true)
      → is_panic (pushes v r) ≡ false
      → b ≡ false
  unfolding is_panic
  no_panic true v none e h = h
  no_panic true v (some c) e h = absurd (ground (arith, e))
  no_panic false v r e h = refl

  -- In every order of steps of any threads, Push returns true as long as no Close has come
  -- before it, and panics behind one, however many steps lie between; behind a panic no further
  -- step of any thread is possible.
  pub push_after_close :
      (later es : List (Event A)) (v : A) (r : Option Bool) (q : LinkedQueue A)
      → Reached (later ++ pushes v r ∷ es) q
      → (r ≡ (if any_close es then none else some true)) × ((any_close es ≡ false) ⊎ (later ≡ []))
  push_after_close [] es v r q h = (Reached-Answers es (pushes v r) q h, inr refl)
  push_after_close (e ∷ later) es v r q h =
      let (p, k) = Reached-before (e ∷ later) (pushes v r ∷ es) q h in
      let answer = Reached-Answers es (pushes v r) p k in
      (
        answer,
        inl (
            no_panic (any_close es) v r answer (
              panic_within later es (pushes v r)
                (no_panic_before (later ++ pushes v r ∷ es) e q h))),
      )
