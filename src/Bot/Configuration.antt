-- ===== src/Bot/Configuration.antt =====
-- The data of the configuration phase (bot/configuration.go): data packs, the resource packs of the
-- default handler, and the decoder that skips tags.
pub mod RoundTrip
use mc_afk_go.Base.{ℕ, zero, suc, Bool, true, false, ◌==◌, ◌&&◌, if◌then◌else◌}
use mc_afk_go.Base.{Option, List, [], ◌∷◌, ◌++◌}
use mc_afk_go.Base.Bits.{negative32}
use mc_afk_go.Io.{Bytes, Decoder, done, ◌>>=◌, map_value, Writer, Written, and_then}
use mc_afk_go.Wire.Text.{write_string, read_string}
use mc_afk_go.Wire.VarInt.{read_var_int}

pub record DataPack : Type 0 where
  pub namespace : Bytes
  pub id : Bytes
  pub version : Bytes

-- `DataPack.WriteTo`
pub write_data_pack : DataPack → Writer → Written
write_data_pack d w =
    and_then (write_string d.namespace w)
      λ v. and_then (write_string d.id v) (λ u. write_string d.version u)

-- `DataPack.ReadFrom`; where it fails, the receiver is not used.
pub read_data_pack : Decoder DataPack
read_data_pack r = read_string r >>= λ namespace r'. read_string r' >>= λ id s.
    map_value (λ version. record { namespace = namespace; id = id; version = version })
      (read_string s)

-- `Message` is the type of a prompt.
pub record ResourcePack (Message : Type 0) : Type 0 where
  pub id : Bytes
  pub url : Bytes
  pub hash : Bytes
  pub forced : Bool
  pub prompt_message : Option Message

unfoldable pub same_bytes : Bytes → Bytes → Bool
same_bytes [] [] = true
same_bytes [] (b ∷ bs) = false
same_bytes (a ∷ as') [] = false
same_bytes (a ∷ as') (b ∷ bs) = (a == b) && same_bytes as' bs

-- `DefaultConfigHandler`: its state is the slice of the resource packs.
pub record DefaultConfigHandler (Message : Type 0) : Type 0 where
  pub resources_pack : List (ResourcePack Message)

module _ {Message : Type 0} where
  pub new_default_config_handler : DefaultConfigHandler Message
  new_default_config_handler = record { resources_pack = [] }

  pub push_resource_pack :
      ResourcePack Message → DefaultConfigHandler Message → DefaultConfigHandler Message
  push_resource_pack res d = record { resources_pack = d.resources_pack ++ res ∷ [] }

  -- The loop of PopResourcePack takes out the first pack with that ID.
  without : Bytes → List (ResourcePack Message) → List (ResourcePack Message)
  unfolding same_bytes
  without id [] = []
  without id (v ∷ vs) = let rest = without id vs in if same_bytes id v.id then vs else v ∷ rest

  pub pop_resource_pack : Bytes → DefaultConfigHandler Message → DefaultConfigHandler Message
  unfolding without
  pop_resource_pack id d = record { resources_pack = without id d.resources_pack }

  pub pop_all_resource_pack : DefaultConfigHandler Message → DefaultConfigHandler Message
  pop_all_resource_pack d = record { resources_pack = [] }

-- The default handler knows no data packs.
pub select_data_packs : List DataPack → List DataPack
select_data_packs packs = []

-- The loops of idleTagsDecoder.ReadFrom; a negative count is no round.
skip_ids : ℕ → Decoder (Unit {0})
skip_ids zero r = done 0 tt r
skip_ids (suc k) r = read_var_int r >>= λ id r'. skip_ids k r'

skip_tag : Decoder (Unit {0})
unfolding skip_ids
skip_tag r = read_string r >>= λ tag r'.
    read_var_int r' >>= λ len s. skip_ids (if negative32 len then 0 else len) s

skip_tags : ℕ → Decoder (Unit {0})
unfolding skip_tag
skip_tags zero r = done 0 tt r
skip_tags (suc k) r = skip_tag r >>= λ _ r'. skip_tags k r'

pub skip_idle_tags : Decoder (Unit {0})
unfolding skip_tags
skip_idle_tags r =
    read_var_int r >>= λ count r'. skip_tags (if negative32 count then 0 else count) r'
