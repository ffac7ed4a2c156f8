-- ===== src/Field/Optional.antt =====
-- Opt and Option (net/packet/util.go).
pub mod RoundTrip
use mc_afk_go.Base.{ℕ, zero, suc, ◌+◌, Bool, true, false, List, [], ◌∷◌, Option, none, some}
use mc_afk_go.Io.{Bytes, Error, field, Reader, Outcome, done, fail, panic, stuck}
use mc_afk_go.Io.{Decoder, ◌>>=◌, add_count, map_value, Writer, Written, and_then}
use mc_afk_go.Wire.Fixed.{write_boolean, read_boolean}
use mc_afk_go.Field.{FieldEncoder, FieldDecoder}

-- `Opt.Has`: pointers to a bool, or a function that returns one; any other value panics (`none`).
pub data HasValue : Type 0 where
  ptr : HasValue → HasValue
  bool : Bool → HasValue
  func : (Unit {0} → Bool) → HasValue
  other_has : HasValue

pub has : HasValue → Option Bool
has (ptr v) = has v
has (bool b) = some b
has (func f) = some (f tt)
has other_has = none

-- `Opt.Field`: a field, or a function that returns one; any other value panics.
pub data OptField (F : Type 0) : Type 0 where
  plain : F → OptField F
  made : (Unit {0} → F) → OptField F
  other_field : OptField F

-- `Opt.WriteTo`; `none` is a panic.
write_opt_field : OptField FieldEncoder → Writer → Option Written
write_opt_field (plain f) w = some (f w)
write_opt_field (made f) w = some (f tt w)
write_opt_field other_field w = none

write_opt_if : Option Bool → OptField FieldEncoder → Writer → Option Written
unfolding write_opt_field
write_opt_if none f w = none
write_opt_if (some true) f w = write_opt_field f w
write_opt_if (some false) f w = some (record { count = 0; err = none; sink = w })

pub write_opt : HasValue → OptField FieldEncoder → Writer → Option Written
unfolding write_opt_if has
write_opt h f w = write_opt_if (has h) f w

module _ {A : Type 0} where
  read_opt_field : OptField (FieldDecoder A) → FieldDecoder A
  read_opt_field (plain f) old r = f old r
  read_opt_field (made f) old r = f tt old r
  read_opt_field other_field old r = panic

  read_opt_if : Option Bool → OptField (FieldDecoder A) → FieldDecoder A
  unfolding read_opt_field
  read_opt_if none f old r = panic
  read_opt_if (some true) f old r = read_opt_field f old r
  read_opt_if (some false) f old r = done 0 old r

  -- `Opt.ReadFrom` into a field that has the value `old`.
  pub read_opt : HasValue → OptField (FieldDecoder A) → FieldDecoder A
  unfolding read_opt_if has
  read_opt h f old r = read_opt_if (has h) f old r

-- `Option[T, P]`, and `OptionDecoder` and `OptionEncoder`, which have its fields and half of its
-- methods each.
pub record OptionField (A : Type 0) : Type 0 where
  pub has_value : Bool
  pub val : A

module _ {A : Type 0} where
  write_option_val : Bool → (A → FieldEncoder) → A → Writer → Written
  write_option_val true elem v w = elem v w
  write_option_val false elem v w = record { count = 0; err = none; sink = w }

  pub write_option : (A → FieldEncoder) → OptionField A → Writer → Written
  unfolding write_option_val
  write_option elem o w =
      and_then (write_boolean o.has_value w) (write_option_val o.has_value elem o.val)

  read_option_val : FieldDecoder A → A → Bool → Decoder (OptionField A)
  read_option_val elem old true r =
      map_value (λ v. record { has_value = true; val = v }) (elem old r)
  read_option_val elem old false r = done 0 (record { has_value = false; val = old }) r

  -- An absent value leaves `Val` as it was.
  pub read_option : FieldDecoder A → FieldDecoder (OptionField A)
  unfolding read_option_val
  read_option elem old r = read_boolean r >>= read_option_val elem old.val
