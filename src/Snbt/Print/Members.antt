-- ===== src/Snbt/Print/Members.antt =====
-- The members of a compound in `encode` of nbt/snbt.go.
use mc_afk_go.Base.{ℕ, suc, ◌<◌, ◌≡◌, refl, sym, ap, ◌∙◌, arith}
use mc_afk_go.Base.{Bool, true, false, ◌==◌, if◌then◌else◌, List, [], ◌∷◌, ◌++◌, length}
use mc_afk_go.Base.{length-append, append_assoc}
use mc_afk_go.Io.{Bytes, source, done, Decoder, map_value}
use mc_afk_go.Wire.Fixed.{put_uint16}
use mc_afk_go.Nbt.Raw.Payload.{length-member}
use mc_afk_go.Nbt.Read.{read_string}
use mc_afk_go.Nbt.Read.Ints.{read_string-put, read_tag-put, read_tag-end, length-put16}
use mc_afk_go.Snbt.Escape.{write_escape_str}
use mc_afk_go.Snbt.Print.{print_members, print_members_next}
use mc_afk_go.Snbt.Print.Values.{separated, preceded, preceded-separated}

pub print_members-last :
    (value : ℕ → Decoder Bytes) (fuel : ℕ) (first : Bool) (rest : Bytes) (b : Bool)
    → print_members value (suc fuel) first (source (0 ∷ rest) b)
      ≡ done 1 ((if first then b'{' ∷ [] else []) ++ b'}' ∷ []) (source rest b)
unfolding print_members print_members_next
print_members-last value fuel first rest b = rw (read_tag-end rest b)

pub print_members-cons :
    (value : ℕ → Decoder Bytes) (fuel tag : ℕ) (first : Bool) (name bs cs rest t u : Bytes)
    (b : Bool)
    → 0 < tag
    → tag < 0x1f
    → length name < 0x8000
    → value tag (source (bs ++ (cs ++ rest)) b) ≡ done (length bs) t (source (cs ++ rest) b)
    → print_members value fuel false (source (cs ++ rest) b) ≡ done (length cs) u (source rest b)
    → print_members value
        (suc fuel)
        first
        (source ((tag ∷ (put_uint16 (length name) ++ (name ++ (bs ++ cs)))) ++ rest) b)
      ≡ done
          (length (tag ∷ (put_uint16 (length name) ++ (name ++ (bs ++ cs)))))
          ((if first then b'{' ∷ [] else b',' ∷ []) ++ (write_escape_str name ++ (b':' ∷ (t ++ u))))
          (source rest b)
unfolding print_members print_members_next
print_members-cons value fuel tag first name bs cs rest t u b pos low short_name h k =
    rw
      (
        append_assoc (put_uint16 (length name)) (name ++ (bs ++ cs)) rest,
        append_assoc name (bs ++ cs) rest,
        append_assoc bs cs rest,
        read_tag-put tag name (bs ++ (cs ++ rest)) b pos low short_name,
        not_end,
        h,
        k,
      )
      (ap
        (λ (m : ℕ).
          done m
            ((if first then b'{' ∷ [] else b',' ∷ [])
              ++ (write_escape_str name ++ (b':' ∷ (t ++ u))))
            (source rest b))
        (omega (arith, length-member tag name bs cs)))
  where
    not_end : (tag == 0) ≡ false
    not_end = ground arith

pub print_string :
    (s rest : Bytes) (b : Bool)
    → length s < 0x8000
    → map_value write_escape_str (read_string (source ((put_uint16 (length s) ++ s) ++ rest) b))
      ≡ done (length (put_uint16 (length s) ++ s)) (write_escape_str s) (source rest b)
print_string s rest b h =
    rw (append_assoc (put_uint16 (length s)) s rest, read_string-put s rest b h)
      (ap (λ (m : ℕ). done m (write_escape_str s) (source rest b))
        (omega (arith, length-append (put_uint16 (length s)) s, length-put16 (length s))))

-- The members as the loop writes them, with the brace that opens them or a comma before each.
unfoldable pub opened : Bool → List Bytes → Bytes
opened first [] = (if first then b'{' ∷ [] else []) ++ b'}' ∷ []
opened first (t ∷ ts) = (if first then b'{' ∷ [] else b',' ∷ []) ++ (t ++ opened false ts)

opened-later : (ts : List Bytes) → opened false ts ≡ preceded false ts ++ b'}' ∷ []
unfolding opened preceded
opened-later [] = refl
opened-later (t ∷ ts) =
    ap (λ (rest : Bytes). b',' ∷ (t ++ rest)) (opened-later ts)
    ∙ ap (λ (rest : Bytes). b',' ∷ rest) (sym (append_assoc t (preceded false ts) (b'}' ∷ [])))

pub opened-first : (ts : List Bytes) → opened true ts ≡ b'{' ∷ (separated ts ++ b'}' ∷ [])
unfolding opened preceded separated
opened-first [] = refl
opened-first (t ∷ ts) =
    ap (λ (rest : Bytes). b'{' ∷ (t ++ rest)) (opened-later ts)
    ∙ ap (◌∷◌ b'{') (sym (append_assoc t (preceded false ts) (b'}' ∷ [])))
    ∙ ap (λ (text : Bytes). b'{' ∷ (text ++ b'}' ∷ [])) (preceded-separated (t ∷ ts))
