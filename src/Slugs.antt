-- ===== src/Slugs.antt =====
-- The slug of a new page: src/common/text/slugify.ts and src/common/validation/slug.ts.
pub mod Unique
mod Tests
use Prim.Native.Char.{Char, code}
use Prim.Native.String.{◌++◌}
use safeer_api.Common.{
  ℕ, zero, suc, ◌+◌, ◌-◌, String, Option, none, some, List, Bool, true, false, not, ◌&&◌, ◌||◌,
  ◌==◌, leb, ltb, str_eq, if◌then◌else◌, any, length,
}

abbrev pub slug_max : ℕ
slug_max = 180

abbrev is_dash : Char → Bool
is_dash c = code c == 45

-- a lower-case letter of ASCII or a digit
abbrev is_word_char : Char → Bool
is_word_char c = leb 97 (code c) && leb (code c) 122 || leb 48 (code c) && leb (code c) 57

-- /^[a-z0-9]+(?:-[a-z0-9]+)*$/, where `at_start` says that a word has to begin
unfoldable pub matches_slug : Bool → String → Bool
matches_slug at_start String.[] = not at_start
matches_slug at_start (String.◌∷◌ c s) =
    let in_word = matches_slug false s in
    let next_word = matches_slug true s in
    if is_word_char c then in_word else if is_dash c && not at_start then next_word else false

-- the length of a text of ASCII
unfoldable pub text_length : String → ℕ
text_length String.[] = 0
text_length (String.◌∷◌ c s) = suc (text_length s)

unfoldable pub is_valid_slug : (String → Bool) → String → Bool
unfolding matches_slug text_length
is_valid_slug reserved value =
    leb (text_length value) slug_max && matches_slug true value && not (reserved value)

-- full.slice(0, n)
unfoldable pub take_text : ℕ → String → String
take_text zero s = ""
take_text (suc n) String.[] = ""
take_text (suc n) (String.◌∷◌ c s) = String.◌∷◌ c (take_text n s)

unfoldable pub has_dash : String → Bool
has_dash String.[] = false
has_dash (String.◌∷◌ c s) = is_dash c || has_dash s

-- replace(/-[^-]*$/, ''): what stands before the last dash
unfoldable pub drop_last_word : String → String
unfolding has_dash
drop_last_word String.[] = ""
drop_last_word (String.◌∷◌ c s) =
    let rest = drop_last_word s in
    if has_dash s then String.◌∷◌ c rest else if is_dash c then "" else String.◌∷◌ c s

-- replace(/-+$/, '')
unfoldable pub drop_end_dashes : String → String
drop_end_dashes String.[] = ""
drop_end_dashes (String.◌∷◌ c s) =
    let rest = drop_end_dashes s in if is_dash c && str_eq rest "" then "" else String.◌∷◌ c rest

-- `full` is the slug of the title, and `reserved` the words that no slug may be
unfoldable pub slug_stem : (String → Bool) → String → String → String
unfolding take_text drop_last_word drop_end_dashes is_valid_slug text_length
slug_stem reserved fallback full =
    let cut = drop_end_dashes (
      if ltb (slug_max - 6) (text_length full)
      then drop_last_word (take_text (slug_max - 6) full)
      else full) in
    if is_valid_slug reserved cut then cut else fallback

-- `same` is the collation of the column, and `shown` the text of a number
module _ (same : String → String → Bool) (shown : ℕ → String) where
  -- repo.exists({ where: { slug } })
  unfoldable pub exists_slug : List String → String → Bool
  exists_slug slugs candidate = any (λ s. same s candidate) slugs

  abbrev pub numbered : String → ℕ → String
  numbered base i = base ++ ("-" ++ shown i)

  -- the loop; `none` says that the fuel ran out
  unfoldable pub free_slug : List String → ℕ → String → ℕ → String → Option String
  free_slug slugs zero base i candidate = none
  free_slug slugs (suc fuel) base i candidate =
      let rest = free_slug slugs fuel base (i + 1) (numbered base i) in
      if exists_slug slugs candidate then rest else some candidate

  -- each round meets another row
  unfoldable pub generate_unique_slug :
      (String → Bool) → String → String → List String → Option String
  unfolding slug_stem exists_slug free_slug
  generate_unique_slug reserved fallback full slugs =
      let base = slug_stem reserved fallback full in
      free_slug slugs (suc (length slugs)) base 2 base
