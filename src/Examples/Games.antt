-- ===== src/Examples/Games.antt =====
-- The bot's handlers and bundles (bot/event.go, bot/ingame.go) at concrete values.
use mc_afk_go.Base.{ℕ, ◌≡◌, ◌≢◌, refl, List, [], ◌∷◌, none, some, arith, get_elem?}
use mc_afk_go.Packet.{Packet}
use mc_afk_go.Bot.Events.{PacketHandler, Events, add_listener, new_events}
use mc_afk_go.Bot.Events.Stable.{Descending, of_rank}
use mc_afk_go.Bot.Events.Registered.{registered}
use mc_afk_go.Bot.Game.{handle_game, unfinished, read_failed}
use mc_afk_go.Bot.Game.Bundles.{bundle_as_singles, open_bundle_changes_nothing}
use mc_afk_go.Bot.Game.Ends.{handle_game_ends}

-- A handler that notes the packet's ID, under a priority.
abbrev noting : ℕ → ℕ → PacketHandler (List ℕ) ℕ
noting id priority = record { id = id; priority = priority; run = λ p seen. (p.id ∷ seen, none) }

abbrev listeners : List (PacketHandler (List ℕ) ℕ)
listeners = noting 1 5 ∷ noting 2 0 ∷ noting 1 7 ∷ []

registered_example :
    (e : Events (List ℕ) ℕ) × (hs : List (PacketHandler (List ℕ) ℕ)) × (add_listener listeners
        (new_events 3)
      ≡ some e)
    × (e.generic ≡ [])
    × (get_elem? e.handlers 1 ≡ some hs)
    × Descending hs
    × (of_rank 0x8000_0000_0000_0007 hs ≡ noting 1 7 ∷ [])
registered_example =
    registered listeners 3 1 0x8000_0000_0000_0007
      ((omega arith, omega arith), ((omega arith, omega arith), ((omega arith, omega arith), tt)))
      (omega arith)

abbrev events : Events (List ℕ) ℕ
events = record { generic = noting 0 0 ∷ []; handlers = [] ∷ (noting 1 0 ∷ []) ∷ [] ∷ [] }

abbrev packet : ℕ → Packet
packet id = record { id = id; contents = [] }

bundle_as_singles_example :
    handle_game 5 events (packet 0 ∷ packet 1 ∷ packet 2 ∷ packet 0 ∷ packet 1 ∷ []) []
    ≡ handle_game 6 events (packet 1 ∷ packet 2 ∷ packet 1 ∷ []) []
bundle_as_singles_example =
    bundle_as_singles events (packet 0) (packet 0) (packet 1 ∷ packet 2 ∷ []) (packet 1 ∷ []) 4 []
      refl refl ((λ e. omega arith), ((λ e. omega arith), tt)) (omega arith)

open_bundle_changes_nothing_example :
    handle_game 3 events (packet 0 ∷ packet 1 ∷ []) (9 ∷ []) ≡ (9 ∷ [], read_failed)
open_bundle_changes_nothing_example =
    open_bundle_changes_nothing events (packet 0) (packet 1 ∷ []) 2 (9 ∷ []) refl
      ((λ e. omega arith), tt)

handle_game_ends_example :
    (handle_game 4 events (packet 1 ∷ packet 0 ∷ packet 2 ∷ []) []).1 ≢ unfinished
handle_game_ends_example =
    handle_game_ends events 4 (packet 1 ∷ packet 0 ∷ packet 2 ∷ []) [] (omega arith)
