-- ===== src/Bot/Game.antt =====
-- HandleGame (bot/ingame.go): packets and bundles of packets, given to the handlers. The packets
-- that the connection will deliver are a list, after which ReadPacket fails.
pub mod Bundles
pub mod Ends
use mc_afk_go.Base.{ℕ, zero, suc, ◌+◌, Bool, true, false, ltb, leb, ◌==◌, if◌then◌else◌, get_elem?}
use mc_afk_go.Base.{List, [], ◌∷◌, ◌++◌, length, Option, none, some}
use mc_afk_go.Packet.{Packet}
use mc_afk_go.Bot.Events.{PacketHandler, Events}

-- `packetid.BundleDelimiter`
abbrev pub bundle_delimiter : ℕ
bundle_delimiter = 0

abbrev pub bundle_limit : ℕ
bundle_limit = 4096

-- What stops the game: the connection's error, a PacketHandlerError, a bundle that is too long, or a
-- panic for a packet ID that has no place in `handlers`. `unfinished` is a model out of fuel.
pub data GameErr (E : Type 0) : Type 0 where
  read_failed bundle_too_long no_such_id unfinished : GameErr E
  handler_failed : ℕ → E → GameErr E

-- What the reading loop of handleBundlePackets comes to: the bundle with the packets that follow it,
-- or an error.
pub data Collected (E : Type 0) : Type 0 where
  bundle : List Packet → List Packet → Collected E
  broken : GameErr E → Collected E

-- What a round of HandleGame's loop comes to.
pub data Next (S E : Type 0) : Type 0 where
  continues : S → List Packet → Next S E
  stops : S → GameErr E → Next S E

module _ {E : Type 0} where
  -- The reading loop, with `left` rounds to go.
  pub collect : ℕ → List Packet → List Packet → Collected E
  collect zero packets incoming = broken bundle_too_long
  collect (suc left) packets [] = broken read_failed
  collect (suc left) packets (p ∷ ps) =
      let more = collect left (packets ++ p ∷ []) ps in
      if p.id == bundle_delimiter then bundle packets ps else more

module _ {S E : Type 0} where
  -- A range loop over handlers, which ends with the first error.
  handle_next : ℕ → S × Option E → (S → S × Option (GameErr E)) → S × Option (GameErr E)
  handle_next id (s, none) rest = rest s
  handle_next id (s, some e) rest = (s, some (handler_failed id e))

  pub handle_each :
      List (PacketHandler S E) → Packet → (S → S × Option (GameErr E)) → S → S × Option (GameErr E)
  unfolding handle_next
  handle_each [] p rest s = rest s
  handle_each (h ∷ hs) p rest s = handle_next p.id (h.run p s) (λ t. handle_each hs p rest t)

  -- The range loop over `c.Events.handlers[packetID]`; an ID out of range panics.
  handle_specific : Option (List (PacketHandler S E)) → Packet → S → S × Option (GameErr E)
  unfolding handle_each
  handle_specific none p s = (s, some no_such_id)
  handle_specific (some hs) p s = handle_each hs p (λ t. (t, none)) s

  pub handle_packet : Events S E → Packet → S → S × Option (GameErr E)
  unfolding handle_each handle_specific
  handle_packet e p s =
      handle_each e.generic p (λ t. handle_specific (get_elem? e.handlers p.id) p t) s

  -- The loop behind the label `handlePackets`.
  pub all_next : S × Option (GameErr E) → (S → S × Option (GameErr E)) → S × Option (GameErr E)
  all_next (s, none) rest = rest s
  all_next (s, some err) rest = (s, some err)

  pub handle_all : Events S E → List Packet → S → S × Option (GameErr E)
  unfolding all_next
  handle_all e [] s = (s, none)
  handle_all e (p ∷ ps) s = all_next (handle_packet e p s) (λ t. handle_all e ps t)

  pub continue_with : List Packet → S × Option (GameErr E) → Next S E
  continue_with rest (s, none) = continues s rest
  continue_with rest (s, some err) = stops s err

  handle_collected : Events S E → Collected E → S → Next S E
  unfolding handle_all continue_with
  handle_collected e (broken err) s = stops s err
  handle_collected e (bundle packets rest) s = continue_with rest (handle_all e packets s)

  -- handleBundlePackets
  pub handle_bundle_packets : Events S E → List Packet → S → Next S E
  unfolding collect handle_collected
  handle_bundle_packets e incoming s = handle_collected e (collect bundle_limit [] incoming) s

  -- A round of HandleGame's loop.
  pub game_round : Events S E → List Packet → S → Next S E
  unfolding handle_bundle_packets handle_packet continue_with
  game_round e [] s = stops s read_failed
  game_round e (p ∷ ps) s =
      if p.id == bundle_delimiter
      then handle_bundle_packets e ps s
      else continue_with ps (handle_packet e p s)

  pub play_on : Next S E → (S → List Packet → S × GameErr E) → S × GameErr E
  play_on (continues s rest) go_on = go_on s rest
  play_on (stops s err) go_on = (s, err)

  -- HandleGame, on fuel.
  pub handle_game : ℕ → Events S E → List Packet → S → S × GameErr E
  unfolding play_on
  handle_game zero e incoming s = (s, unfinished)
  handle_game (suc fuel) e incoming s =
      play_on (game_round e incoming s) (λ t rest. handle_game fuel e rest t)
