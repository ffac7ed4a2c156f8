-- ===== src/Bot/Game/Ends.antt =====
-- The end of HandleGame (bot/ingame.go).
use mc_afk_go.Base.{ℕ, zero, suc, ◌≢◌, ◌<◌, ap, arith}
use mc_afk_go.Base.{List, [], ◌∷◌, ◌++◌, length, Option, none, some, inl, inr, ◌==◌}
use mc_afk_go.Base.{Bool-cases, get_elem?}
use mc_afk_go.Packet.{Packet}
use mc_afk_go.Bot.Events.{PacketHandler, Events}
use mc_afk_go.Bot.Game.{GameErr, unfinished}
use mc_afk_go.Bot.Game.{
  bundle_delimiter, bundle_limit, handle_packet, handle_all, handle_each, handle_next,
  handle_specific, Collected, bundle,
}
use mc_afk_go.Bot.Game.{
  broken, collect, Next, continues, stops, continue_with, handle_collected, all_next, play_on,
}
use mc_afk_go.Bot.Game.{handle_bundle_packets, game_round, handle_game}

module _ {S E : Type 0} (e : Events S E) where
  handle_each_finishes :
      (hs : List (PacketHandler S E)) (p : Packet) (rest : S → S × Option (GameErr E)) (s : S)
      → ((t : S) → (rest t).1 ≢ some unfinished)
      → (handle_each hs p rest s).1 ≢ some unfinished
  unfolding handle_each handle_next
  handle_each_finishes [] p rest s h = h s
  handle_each_finishes (x ∷ xs) p rest s h =
      go (x.run p s) (λ t. handle_each_finishes xs p rest t h)
    where
      go :
          (o : S × Option E)
          → ((t : S) → (handle_each xs p rest t).1 ≢ some unfinished)
          → (handle_next p.id o (λ t. handle_each xs p rest t)).1 ≢ some unfinished
      go (t, none) ih = ih t
      go (t, some err) ih = λ q. ground arith

  handle_packet_finishes : (p : Packet) (s : S) → (handle_packet e p s).1 ≢ some unfinished
  unfolding handle_packet handle_specific
  handle_packet_finishes p s =
      handle_each_finishes e.generic p _ s (λ t. specific (get_elem? e.handlers p.id) t)
    where
      specific :
          (o : Option (List (PacketHandler S E))) (t : S)
          → (handle_specific o p t).1 ≢ some unfinished
      specific none t = λ q. ground arith
      specific (some hs) t = handle_each_finishes hs p _ t (λ u q. ground arith)

  handle_all_finishes : (ps : List Packet) (s : S) → (handle_all e ps s).1 ≢ some unfinished
  unfolding handle_all all_next
  handle_all_finishes [] s = λ q. ground arith
  handle_all_finishes (p ∷ ps) s =
      go (handle_packet e p s) (handle_packet_finishes p s) (λ t. handle_all_finishes ps t)
    where
      go :
          (o : S × Option (GameErr E))
          → o.1 ≢ some unfinished
          → ((t : S) → (handle_all e ps t).1 ≢ some unfinished)
          → (all_next o (λ t. handle_all e ps t)).1 ≢ some unfinished
      go (t, none) h ih = ih t
      go (t, some err) h ih = h

  -- A round stops with an error of Go's, or goes on with fewer packets to come.
  abbrev Shrinks : ℕ → Next S E → Type 0
  Shrinks n (continues t rest) = length rest < n
  Shrinks n (stops t err) = err ≢ unfinished

  continue_with-Shrinks :
      (n : ℕ) (rest : List Packet) (o : S × Option (GameErr E))
      → length rest < n
      → o.1 ≢ some unfinished
      → Shrinks n (continue_with rest o)
  unfolding continue_with
  continue_with-Shrinks n rest (t, none) h k = h
  continue_with-Shrinks n rest (t, some err) h k = λ q. k (ap some q)

  abbrev Leaves : ℕ → Collected E → Type 0
  Leaves n (bundle packets rest) = length rest < n
  Leaves n (broken err) = err ≢ unfinished

  collect-Leaves :
      (left : ℕ) (seen ps : List Packet) → Leaves (suc (length ps)) (collect left seen ps)
  unfolding collect
  collect-Leaves zero seen ps = λ q. ground arith
  collect-Leaves (suc left) seen [] = λ q. ground arith
  collect-Leaves (suc left) seen (p ∷ ps) = elim (Bool-cases (p.id == bundle_delimiter)) [
    | inl close ↦ rw (close) (omega arith)
    | inr more ↦
        rw (more)
          (longer (collect left (seen ++ p ∷ []) ps) (collect-Leaves left (seen ++ p ∷ []) ps))
  ]
    where
      longer : (c : Collected E) → Leaves (suc (length ps)) c → Leaves (suc (suc (length ps))) c
      longer (bundle packets rest) h = omega arith
      longer (broken err) h = h

  collected-Shrinks :
      (n : ℕ) (c : Collected E) (s : S) → Leaves n c → Shrinks n (handle_collected e c s)
  unfolding handle_collected
  collected-Shrinks n (bundle packets rest) s h =
      continue_with-Shrinks n rest (handle_all e packets s) h (handle_all_finishes packets s)
  collected-Shrinks n (broken err) s h = h

  round-Shrinks : (ps : List Packet) (s : S) → Shrinks (length ps) (game_round e ps s)
  unfolding game_round handle_bundle_packets
  round-Shrinks [] s = λ q. ground arith
  round-Shrinks (p ∷ ps) s = elim (Bool-cases (p.id == bundle_delimiter)) [
    | inl open_it ↦
        rw (open_it)
          (collected-Shrinks _ (collect bundle_limit [] ps) s (collect-Leaves bundle_limit [] ps))
    | inr plain ↦ rw (plain) (
        continue_with-Shrinks _ ps (handle_packet e p s) (omega arith) (handle_packet_finishes p s))
  ]

  -- HandleGame ends on every sequence of packets, once the connection fails: with more fuel
  -- than packets, the error is one that the code returns, or its panic, and not the model's
  -- own.
  pub handle_game_ends :
      (fuel : ℕ) (ps : List Packet) (s : S)
      → length ps < fuel
      → (handle_game fuel e ps s).1 ≢ unfinished
  unfolding handle_game play_on
  handle_game_ends zero ps s h = absurd (omega arith)
  handle_game_ends (suc fuel) ps s h =
      go (game_round e ps s) (round-Shrinks ps s)
        (λ rest t k. handle_game_ends fuel rest t (omega arith))
    where
      go :
          (o : Next S E)
          → Shrinks (length ps) o
          → ((rest : List Packet) (t : S)
              → length rest < length ps
              → (handle_game fuel e rest t).1 ≢ unfinished)
          → (play_on o (λ t rest. handle_game fuel e rest t)).1 ≢ unfinished
      go (continues t rest) k ih = ih rest t k
      go (stops t err) k ih = k
