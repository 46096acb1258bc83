-- ===== src/Slugs/Tests.antt =====
-- The theorem on slugs at small data.
use Prim.Native.String.{◌++◌}
use text.Mathlib.TextLemmas.{cons-append, nil-append}
use safeer_api.Common as Common
use safeer_api.Common.{
  ℕ, suc, zero, ◌+◌, ap, sym, ◌∙◌, inl, inr, Bool-cases, String, Bool, true, false, ◌≡◌, refl,
  Option, some, none, List, [], ◌∷◌, str_eq, arith, eq_iff,
}
use safeer_api.Slugs.{
  text_length, numbered, exists_slug, generate_unique_slug, is_valid_slug, slug_stem,
}
use safeer_api.Slugs.Unique.{AreApart, generate_unique_slug-free}

-- a number as that many strokes
abbrev strokes : ℕ → String
strokes zero = ""
strokes (suc n) = String.◌∷◌ "1" (strokes n)

abbrev none_reserved : String → Bool
none_reserved s = str_eq s "new"

text_length-append : (s t : String) → text_length (s ++ t) ≡ text_length s + text_length t
unfolding text_length
text_length-append String.[] t = rw (nil-append t) (omega arith)
text_length-append (String.◌∷◌ c s) t =
    rw (cons-append c s t) (omega (arith, text_length-append s t))

text_length-strokes : (n : ℕ) → text_length (strokes n) ≡ n
unfolding text_length
text_length-strokes zero = refl
text_length-strokes (suc n) = ap suc (text_length-strokes n)

text_length-numbered :
    (base : String) (n : ℕ)
    → text_length (numbered str_eq strokes base n) ≡ text_length base + (1 + n)
unfolding text_length
text_length-numbered base n =
    text_length-append base ("-" ++ strokes n)
    ∙ ap (λ k. text_length base + k)
        (text_length-append "-" (strokes n) ∙ ap (λ k. 1 + k) (text_length-strokes n))

strokes-AreApart : (base : String) → AreApart str_eq strokes base
strokes-AreApart base = record {
  first = λ s j e. elim (Bool-cases (str_eq s (numbered str_eq strokes base j))) [
    | inr other ↦ other
    | inl same ↦
        let lengths : text_length base ≡ text_length (numbered str_eq strokes base j) =
          ap text_length
            (sym ((eq_iff s base).0 e) ∙ (eq_iff s (numbered str_eq strokes base j)).0 same) in
        absurd (omega (arith, lengths, text_length-numbered base j))
  ];
  others = λ s i j e l. elim (Bool-cases (str_eq s (numbered str_eq strokes base j))) [
    | inr other ↦ other
    | inl same ↦
        let lengths : text_length (numbered str_eq strokes base i)
            ≡ text_length (numbered str_eq strokes base j) =
          ap text_length (
            sym ((eq_iff s (numbered str_eq strokes base i)).0 e)
            ∙ (eq_iff s (numbered str_eq strokes base j)).0 same) in
        absurd (omega (arith, lengths, text_length-numbered base i, text_length-numbered base j))
  ];
}

generate_unique_slug-free_example :
    (slug : String) × (generate_unique_slug str_eq strokes none_reserved "post" "tide"
        ("tide" ∷ "tide-11" ∷ [])
      ≡ some slug)
    × (exists_slug str_eq strokes ("tide" ∷ "tide-11" ∷ []) slug ≡ false)
generate_unique_slug-free_example =
    generate_unique_slug-free str_eq strokes none_reserved "post" "tide" ("tide" ∷ "tide-11" ∷ [])
      (strokes-AreApart (slug_stem none_reserved "post" "tide"))

valid : is_valid_slug none_reserved "high-tide-2" ≡ true
unfolding is_valid_slug
valid = refl

not_valid : is_valid_slug none_reserved "high--tide" ≡ false
unfolding is_valid_slug
not_valid = refl

third :
    generate_unique_slug str_eq strokes none_reserved "post" "tide" ("tide" ∷ "tide-11" ∷ [])
    ≡ some "tide-111"
unfolding generate_unique_slug Common.any
third = refl
