-- ===== src/Bot/Game/Bundles.antt =====
-- Bundles (bot/ingame.go): when they are handled, and to what effect.
use mc_afk_go.Base.{ℕ, zero, suc, ◌+◌, ◌≡◌, ◌≢◌, ◌<◌, refl, ap, sym, ◌∙◌, false, arith}
use mc_afk_go.Base.{List, [], ◌∷◌, ◌++◌, length, Option, none, some, All, if◌then◌else◌, ◌==◌}
use mc_afk_go.Base.{append_assoc, append-nil, ltb}
use mc_afk_go.Packet.{Packet}
use mc_afk_go.Bot.Events.{Events}
use mc_afk_go.Bot.Game.{GameErr, read_failed, bundle_too_long}
use mc_afk_go.Bot.Game.{bundle_delimiter, bundle_limit, handle_packet, handle_all, bundle}
use mc_afk_go.Bot.Game.{broken, collect, continue_with, handle_collected, all_next, play_on}
use mc_afk_go.Bot.Game.{handle_bundle_packets, game_round, handle_game}

abbrev pub IsPlain : Packet → Type 0
IsPlain p = p.id ≢ bundle_delimiter

plain_test : (p : Packet) → IsPlain p → (p.id == bundle_delimiter) ≡ false
plain_test p h = ground (arith, h)

module _ {E : Type 0} where
  collect_whole :
      (n : ℕ) (seen ps : List Packet) (d : Packet) (rest : List Packet)
      → All IsPlain ps
      → d.id ≡ bundle_delimiter
      → length ps < n
      → collect {E = E} n seen (ps ++ d ∷ rest) ≡ bundle (seen ++ ps) rest
  unfolding collect
  collect_whole zero seen ps d rest h e few = absurd (omega arith)
  collect_whole (suc n) seen [] d rest h e few = rw (e, append-nil seen)
  collect_whole (suc n) seen (p ∷ ps) d rest h e few = rw (plain_test p h.0) (
      collect_whole n (seen ++ p ∷ []) ps d rest h.1 e (omega arith)
      ∙ ap (λ l. bundle l rest) (append_assoc seen (p ∷ []) ps))

  collect_open :
      (n : ℕ) (seen ps : List Packet)
      → All IsPlain ps
      → collect {E = E} n seen ps
        ≡ broken (if ltb (length ps) n then read_failed else bundle_too_long)
  unfolding collect
  collect_open zero seen ps h = ground arith
  collect_open (suc n) seen [] h = ground arith
  collect_open (suc n) seen (p ∷ ps) h =
      rw (plain_test p h.0) (collect_open n (seen ++ p ∷ []) ps h.1 ∙ ground arith)

module _ {S E : Type 0} (e : Events S E) where
  -- What HandleGame goes on to, after packets that were all handled, or not.
  abbrev after : ℕ → List Packet → S × Option (GameErr E) → S × GameErr E
  after fuel rest (t, none) = handle_game fuel e rest t
  after fuel rest (t, some err) = (t, err)

  next-continue_with :
      (fuel : ℕ) (rest : List Packet) (o : S × Option (GameErr E))
      → play_on (continue_with rest o) (λ t more. handle_game fuel e more t) ≡ after fuel rest o
  unfolding continue_with play_on
  next-continue_with fuel rest (t, none) = refl
  next-continue_with fuel rest (t, some err) = refl

  singles :
      (ps rest : List Packet) (n fuel : ℕ) (s : S)
      → n ≡ length ps + fuel
      → All IsPlain ps
      → handle_game n e (ps ++ rest) s ≡ after fuel rest (handle_all e ps s)
  unfolding handle_game play_on game_round handle_all all_next continue_with
  singles [] rest n fuel s sum h =
      ap (λ (m : ℕ). handle_game m e rest s) (let same : n ≡ fuel = omega arith in same)
  singles (p ∷ ps) rest zero fuel s sum h = absurd (omega arith)
  singles (p ∷ ps) rest (suc n) fuel s sum h =
      rw (plain_test p h.0)
        (go (handle_packet e p s) (λ t. singles ps rest n fuel t (omega arith) h.1))
    where
      go :
          (o : S × Option (GameErr E))
          → ((t : S) → handle_game n e (ps ++ rest) t ≡ after fuel rest (handle_all e ps t))
          → play_on (continue_with (ps ++ rest) o) (λ t more. handle_game n e more t)
            ≡ after fuel rest (all_next o (λ t. handle_all e ps t))
      go (t, none) ih = ih t
      go (t, some err) ih = refl

  -- A bundle whose closing delimiter has come, with fewer than 4096 packets, none of them a
  -- delimiter, has the effect of its packets sent without delimiters: the same handlers in the
  -- same order, the same world and error, and the game goes on with what follows.
  pub bundle_as_singles :
      (open_it close_it : Packet) (ps rest : List Packet) (fuel : ℕ) (s : S)
      → open_it.id ≡ bundle_delimiter
      → close_it.id ≡ bundle_delimiter
      → All IsPlain ps
      → length ps < bundle_limit
      → handle_game (suc fuel) e (open_it ∷ ps ++ close_it ∷ rest) s
        ≡ handle_game (length ps + fuel) e (ps ++ rest) s
  unfolding handle_game play_on game_round handle_bundle_packets handle_collected
  bundle_as_singles open_it close_it ps rest fuel s eo ec h few =
      rw (eo, collect_whole bundle_limit [] ps close_it rest h ec few)
        (next-continue_with fuel rest (handle_all e ps s))
      ∙ sym (singles ps rest (length ps + fuel) fuel s refl h)

  -- No packet of a bundle is handled before the bundle is closed: where no packet behind the
  -- opening delimiter is a delimiter, the game stops with the world as it was, by the
  -- connection's error below 4096 packets, and else by the error for a bundle that is too long.
  pub open_bundle_changes_nothing :
      (open_it : Packet) (ps : List Packet) (fuel : ℕ) (s : S)
      → open_it.id ≡ bundle_delimiter
      → All IsPlain ps
      → handle_game (suc fuel) e (open_it ∷ ps) s
        ≡ (s, if ltb (length ps) bundle_limit then read_failed else bundle_too_long)
  unfolding handle_game play_on game_round handle_bundle_packets handle_collected
  open_bundle_changes_nothing open_it ps fuel s eo h =
      rw (eo, collect_open bundle_limit [] ps h) refl
