-- ===== src/Bot/Configuration/RoundTrip.antt =====
-- The data of the configuration phase (bot/configuration.go) on the wire, and the pack that
-- PopResourcePack takes out.
use mc_afk_go.Base.{ℕ, ◌≡◌, refl, ap, ◌∙◌, fun_ext, arith, Bool, true, false}
use mc_afk_go.Base.{
  List, [], ◌∷◌, ◌++◌, length, All, append_assoc, length-append, if◌then◌else◌, ◌==◌,
}
use mc_afk_go.Base.{lt→leb}
use mc_afk_go.Base.Bits.{IsU32, negative32}
use mc_afk_go.Io.{Bytes, Decoder, done, source, ◌>>=◌, add_count, map_value, Writer, Written}
use mc_afk_go.Io.{write, and_then}
use mc_afk_go.Io.Laws.{bind-done, write-append}
use mc_afk_go.Wire.VarInt.{read_var_int}
use mc_afk_go.Wire.VarInt.Groups.{groups}
use mc_afk_go.Wire.VarInt.Decode.{read_var_int-groups}
use mc_afk_go.Wire.Text.{write_string, read_string}
use mc_afk_go.Wire.Text.RoundTrip.{
  FitsInt, length_prefixed, write_string-prefixed, read_string-prefixed,
}
use mc_afk_go.Bot.Configuration.{
  DataPack, write_data_pack, read_data_pack, skip_ids, skip_tag, skip_tags, skip_idle_tags,
  ResourcePack, same_bytes, without, pop_resource_pack,
}

-- A read of its own bytes, and the one behind it.
reads_on :
    {A B : Type 0} (read : Decoder A) (f : A → Decoder B) (xs ys rest : Bytes) (b : Bool) (a : A)
    (c : B)
    → read (source (xs ++ (ys ++ rest)) b) ≡ done (length xs) a (source (ys ++ rest) b)
    → f a (source (ys ++ rest) b) ≡ done (length ys) c (source rest b)
    → (read (source ((xs ++ ys) ++ rest) b) >>= f) ≡ done (length (xs ++ ys)) c (source rest b)
reads_on read f xs ys rest b a c h k =
    ap (λ (bs : Bytes). read (source bs b) >>= f) (append_assoc xs ys rest)
    ∙ bind-done f h
    ∙ ap (add_count (length xs)) k
    ∙ ap (λ (n : ℕ). done n c (source rest b)) (omega (arith, length-append xs ys))

encode_data_pack : DataPack → Bytes
encode_data_pack d =
    length_prefixed d.namespace ++ (length_prefixed d.id ++ length_prefixed d.version)

abbrev IsShort : DataPack → Type 0
IsShort d = FitsInt (length d.namespace) × FitsInt (length d.id) × FitsInt (length d.version)

strings_written :
    (s t : Bytes) (w : Writer)
    → FitsInt (length s)
    → FitsInt (length t)
    → and_then (write_string s w) (λ v. write_string t v)
      ≡ write w (length_prefixed s ++ length_prefixed t)
strings_written s t w h k =
    ap (λ (o : Written). and_then o (λ v. write_string t v)) (write_string-prefixed s w h)
    ∙ ap (and_then (write w (length_prefixed s))) (fun_ext λ v. write_string-prefixed t v k)
    ∙ write-append w (length_prefixed s) (length_prefixed t)

write_data_pack-encode :
    (d : DataPack) (w : Writer) → IsShort d → write_data_pack d w ≡ write w (encode_data_pack d)
unfolding write_data_pack encode_data_pack
write_data_pack-encode d w (h, k, l) =
    ap
      (λ (o : Written).
        and_then o (λ v. and_then (write_string d.id v) (λ u. write_string d.version u)))
      (write_string-prefixed d.namespace w h)
    ∙ ap (and_then (write w (length_prefixed d.namespace)))
        (fun_ext λ v. strings_written d.id d.version v k l)
    ∙ write-append w (length_prefixed d.namespace)
        (length_prefixed d.id ++ length_prefixed d.version)

read_data_pack-encode :
    (d : DataPack) (rest : Bytes) (b : Bool)
    → IsShort d
    → read_data_pack (source (encode_data_pack d ++ rest) b)
      ≡ done (length (encode_data_pack d)) d (source rest b)
unfolding read_data_pack encode_data_pack
read_data_pack-encode d rest b (h, k, l) =
    reads_on read_string _ (length_prefixed d.namespace)
      (length_prefixed d.id ++ length_prefixed d.version) rest b d.namespace d
      (read_string-prefixed d.namespace _ b h)
      (reads_on read_string _ (length_prefixed d.id) (length_prefixed d.version) rest b d.id d
        (read_string-prefixed d.id _ b k)
        (ap (map_value _) (read_string-prefixed d.version rest b l)))

-- A data pack of strings shorter than 2 ^ 31 bytes is written by one Write, on every writer, and what
-- was written is read back, with the count of its bytes.
data_pack_round_trip :
    (d : DataPack) (w : Writer) (rest : Bytes) (b : Bool)
    → FitsInt (length d.namespace)
    → FitsInt (length d.id)
    → FitsInt (length d.version)
    → (bs : Bytes) × (write_data_pack d w ≡ write w bs)
      × (read_data_pack (source (bs ++ rest) b) ≡ done (length bs) d (source rest b))
data_pack_round_trip d w rest b h k l = (
  encode_data_pack d,
  write_data_pack-encode d w (h, k, l),
  read_data_pack-encode d rest b (h, k, l),
)

-- The tags of a registry: each has a name and the numbers of its entries.
encode_ids : List ℕ → Bytes
encode_ids [] = []
encode_ids (i ∷ is) = groups 4 i ++ encode_ids is

unfoldable pub encode_tags : List (Bytes × List ℕ) → Bytes
unfolding encode_ids
encode_tags [] = []
encode_tags ((name, ids) ∷ ts) =
    (length_prefixed name ++ (groups 4 (length ids) ++ encode_ids ids)) ++ encode_tags ts

abbrev pub IsTag : Bytes × List ℕ → Type 0
IsTag t = FitsInt (length t.0) × FitsInt (length t.1) × All IsU32 t.1

skip_ids-encode :
    (is : List ℕ) (rest : Bytes) (b : Bool)
    → All IsU32 is
    → skip_ids (length is) (source (encode_ids is ++ rest) b)
      ≡ done (length (encode_ids is)) tt (source rest b)
unfolding skip_ids encode_ids
skip_ids-encode [] rest b h = refl
skip_ids-encode (i ∷ is) rest b h =
    reads_on read_var_int _ (groups 4 i) (encode_ids is) rest b i tt (read_var_int-groups i _ b h.0)
      (skip_ids-encode is rest b h.1)

-- A count that is no negative int32, and its rounds.
counted :
    (skip : ℕ → Decoder (Unit {0})) (n : ℕ) (bs rest : Bytes) (b : Bool)
    → FitsInt n
    → skip n (source (bs ++ rest) b) ≡ done (length bs) tt (source rest b)
    → (read_var_int (source ((groups 4 n ++ bs) ++ rest) b) >>= λ k r.
        skip (if negative32 k then 0 else k) r)
      ≡ done (length (groups 4 n ++ bs)) tt (source rest b)
counted skip n bs rest b h e =
    reads_on read_var_int _ (groups 4 n) bs rest b n tt (read_var_int-groups n _ b (omega arith))
      (rw (lt→leb 0x8000_0000 n h) e)

skip_tag-encode :
    (t : Bytes × List ℕ) (rest : Bytes) (b : Bool)
    → IsTag t
    → skip_tag
        (source ((length_prefixed t.0 ++ (groups 4 (length t.1) ++ encode_ids t.1)) ++ rest) b)
      ≡ done
          (length (length_prefixed t.0 ++ (groups 4 (length t.1) ++ encode_ids t.1)))
          tt
          (source rest b)
unfolding skip_tag
skip_tag-encode (name, ids) rest b h =
    reads_on read_string _ (length_prefixed name) (groups 4 (length ids) ++ encode_ids ids) rest b
      name tt (read_string-prefixed name _ b h.0)
      (counted skip_ids (length ids) (encode_ids ids) rest b h.1 (skip_ids-encode ids rest b h.2))

skip_tags-encode :
    (ts : List (Bytes × List ℕ)) (rest : Bytes) (b : Bool)
    → All IsTag ts
    → skip_tags (length ts) (source (encode_tags ts ++ rest) b)
      ≡ done (length (encode_tags ts)) tt (source rest b)
unfolding skip_tags encode_tags
skip_tags-encode [] rest b h = refl
skip_tags-encode ((name, ids) ∷ ts) rest b h =
    reads_on skip_tag _ (length_prefixed name ++ (groups 4 (length ids) ++ encode_ids ids))
      (encode_tags ts) rest b tt tt (skip_tag-encode (name, ids) _ b h.0)
      (skip_tags-encode ts rest b h.1)

-- idleTagsDecoder takes the tags that the server sent for a registry, with their names and
-- entries, counts their bytes and leaves what follows. The count of the tags, the lengths of
-- the names and the counts of entries are below 2 ^ 31, the entries have 32 bits.
pub skip_idle_tags-encode :
    (ts : List (Bytes × List ℕ)) (rest : Bytes) (b : Bool)
    → FitsInt (length ts)
    → All IsTag ts
    → skip_idle_tags (source ((groups 4 (length ts) ++ encode_tags ts) ++ rest) b)
      ≡ done (length (groups 4 (length ts) ++ encode_tags ts)) tt (source rest b)
unfolding skip_idle_tags
skip_idle_tags-encode ts rest b n h =
    counted skip_tags (length ts) (encode_tags ts) rest b n (skip_tags-encode ts rest b h)

without-first :
    {Message : Type 0} (id : Bytes) (xs ys : List (ResourcePack Message)) (v : ResourcePack Message)
    → All (λ (x : ResourcePack Message). same_bytes id x.id ≡ false) xs
    → same_bytes id v.id ≡ true
    → without id (xs ++ v ∷ ys) ≡ xs ++ ys
unfolding without
without-first id [] ys v h k = rw k refl
without-first id (x ∷ xs) ys v h k = rw h.0 (ap (◌∷◌ x) (without-first id xs ys v h.1 k))

pub same_bytes_refl : (bs : Bytes) → same_bytes bs bs ≡ true
unfolding same_bytes
same_bytes_refl [] = refl
same_bytes_refl (b ∷ bs) = rw (let e : (b == b) ≡ true = ground arith in e) (same_bytes_refl bs)

-- The first pack with the ID is taken out, and the packs in front of it and behind it stay.
pop_resource_pack-first :
    {Message : Type 0} (xs ys : List (ResourcePack Message)) (v : ResourcePack Message)
    → All (λ (x : ResourcePack Message). same_bytes v.id x.id ≡ false) xs
    → pop_resource_pack v.id (record { resources_pack = xs ++ v ∷ ys })
      ≡ record { resources_pack = xs ++ ys }
unfolding pop_resource_pack
pop_resource_pack-first xs ys v h =
    ap (λ (vs : List (ResourcePack _)). record { resources_pack = vs })
      (without-first v.id xs ys v h (same_bytes_refl v.id))
