-- ===== src/Bot/Events.antt =====
-- The packet handlers of a client (bot/event.go). A handler runs in a world `S` that it changes, and
-- its errors are of a type `E`.
pub mod Sorting
pub mod Stable
pub mod Registered
use mc_afk_go.Base.{ℕ, zero, suc, ◌+◌, Bool, true, false, leb, ◌||◌, if◌then◌else◌}
use mc_afk_go.Base.{List, [], ◌∷◌, ◌++◌, length, Option, none, some, replicate}
use mc_afk_go.Base.Bits.{signed_less, negative32}
use mc_afk_go.Packet.{Packet}

-- `id` is an int32 and `priority` an int.
pub record PacketHandler (S E : Type 0) : Type 0 where
  pub id : ℕ
  pub priority : ℕ
  pub run : Packet → S → S × Option E

-- `handlers` has a list for every packet ID, of which a nil slice is the empty one.
pub record Events (S E : Type 0) : Type 0 where
  pub generic : List (PacketHandler S E)
  pub handlers : List (List (PacketHandler S E))

module _ {S E : Type 0} where
  -- The `less` of sortPacketHandlers: the higher priority first.
  pub before : PacketHandler S E → PacketHandler S E → Bool
  before x y = signed_less y.priority x.priority

  -- Behind all that it is not before.
  pub insert : PacketHandler S E → List (PacketHandler S E) → List (PacketHandler S E)
  insert x [] = x ∷ []
  insert x (y ∷ ys) = let rest = insert x ys in if before x y then x ∷ y ∷ ys else y ∷ rest

  -- `sort.SliceStable`, as an insertion sort from the left.
  pub sort_from : List (PacketHandler S E) → List (PacketHandler S E) → List (PacketHandler S E)
  unfolding insert
  sort_from done [] = done
  sort_from done (x ∷ xs) = sort_from (insert x done) xs

  pub sort_packet_handlers : List (PacketHandler S E) → List (PacketHandler S E)
  unfolding sort_from
  sort_packet_handlers slice = sort_from [] slice

  -- One more handler for a packet ID: `s == nil` makes a slice of it alone.
  pub add_to : List (PacketHandler S E) → PacketHandler S E → List (PacketHandler S E)
  unfolding sort_packet_handlers
  add_to [] listener = listener ∷ []
  add_to (x ∷ xs) listener = sort_packet_handlers ((x ∷ xs) ++ listener ∷ [])

  -- `e.handlers[listener.ID] = …`
  pub add_at :
      ℕ → PacketHandler S E → List (List (PacketHandler S E)) → List (List (PacketHandler S E))
  unfolding add_to
  add_at i listener [] = []
  add_at zero listener (s ∷ ss) = add_to s listener ∷ ss
  add_at (suc i) listener (s ∷ ss) = s ∷ add_at i listener ss

  -- AddListener: none for the panic on an ID out of range.
  pub add_listener : List (PacketHandler S E) → Events S E → Option (Events S E)
  unfolding add_at
  add_listener [] e = some e
  add_listener (listener ∷ listeners) e =
      let rest =
        add_listener listeners (record e { handlers = add_at listener.id listener e.handlers }) in
      if negative32 listener.id || leb (length e.handlers) listener.id then none else rest

  -- `Events{handlers: make([][]PacketHandler, n)}` of NewClient
  pub new_events : ℕ → Events S E
  new_events n = record { generic = []; handlers = replicate n [] }
