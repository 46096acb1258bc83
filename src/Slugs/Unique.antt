-- ===== src/Slugs/Unique.antt =====
-- The loop of generateUniqueSlug ends, with a slug that no row has.
use safeer_api.Common.{
  ℕ, zero, suc, ◌+◌, ◌≤◌, ◌<◌, ◌≡◌, ◌≢◌, refl, subst, inl, inr, String, none, some, List, [], ◌∷◌,
  Bool, true, false, arith, Bool-cases, Option-cases, any, length, select, delete_where,
}
use safeer_api.Slugs.{slug_stem, exists_slug, numbered, free_slug, generate_unique_slug}

module _ {ℓ} {A : Type ℓ} where
  length-delete_where-le : (p : A → Bool) (xs : List A) → length (delete_where p xs) ≤ length xs
  unfolding delete_where select
  length-delete_where-le p [] = omega arith
  length-delete_where-le p (x ∷ xs) = ground (arith, length-delete_where-le p xs)

  length-delete_where-lt :
      (p : A → Bool) (xs : List A) → any p xs ≡ true → length (delete_where p xs) < length xs
  unfolding delete_where select any
  length-delete_where-lt p [] h = absurd (ground (arith, h))
  length-delete_where-lt p (x ∷ xs) h =
      ground (arith, h, length-delete_where-lt p xs, length-delete_where-le p xs)

  any-delete_where_other :
      (q p : A → Bool)
      → ((x : A) → p x ≡ true → q x ≡ false)
      → (xs : List A) → any q (delete_where p xs) ≡ any q xs
  unfolding delete_where select any
  any-delete_where_other q p h [] = refl
  any-delete_where_other q p h (x ∷ xs) = ground (arith, h x, any-delete_where_other q p h xs)

-- no stored text equals two of the candidates `base`, `base-2`, `base-3` and so on
pub record AreApart (same : String → String → Bool) (shown : ℕ → String) (base : String)
    : Type 0 where
  pub first :
      (s : String) (j : ℕ) → same s base ≡ true → same s (numbered same shown base j) ≡ false
  pub others :
      (s : String) (i j : ℕ)
      → same s (numbered same shown base i) ≡ true
      → i < j
      → same s (numbered same shown base j) ≡ false

module _ (same : String → String → Bool) (shown : ℕ → String) (base : String) where
  abbrev taken : List String → String → Bool
  taken slugs = exists_slug same shown slugs

  abbrev nth : ℕ → String
  nth i = numbered same shown base i

  -- the loop asks only for the candidate and those that come later
  free_slug-same :
      (slugs slugs' : List String) (fuel i : ℕ) (candidate : String)
      → taken slugs candidate ≡ taken slugs' candidate
      → ((j : ℕ) → i ≤ j → taken slugs (nth j) ≡ taken slugs' (nth j))
      → free_slug same shown slugs fuel base i candidate
        ≡ free_slug same shown slugs' fuel base i candidate
  unfolding free_slug
  free_slug-same slugs slugs' zero i candidate h later = refl
  free_slug-same slugs slugs' (suc fuel) i candidate h later =
      rw
        (
          h,
          free_slug-same slugs slugs' fuel (i + 1) (nth i) (later i (omega arith))
              (λ j l. later j (omega arith)),
        )
        refl

  free_slug_total :
      (fuel : ℕ) (slugs : List String) (i : ℕ) (candidate : String)
      → AreApart same shown base
      → ((s : String) (j : ℕ) → same s candidate ≡ true → i ≤ j → same s (nth j) ≡ false)
      → length slugs < fuel
      → free_slug same shown slugs fuel base i candidate ≢ none
  unfolding free_slug exists_slug
  free_slug_total zero slugs i candidate apart later h = elim h [ ]
  free_slug_total (suc fuel) slugs i candidate apart later h =
      elim (Bool-cases (taken slugs candidate)) [
        | inr free ↦ ground (arith, free)
        | inl used ↦
            let left : List String = delete_where (λ s. same s candidate) slugs in
            let fewer : length left < length slugs =
              length-delete_where-lt (λ s. same s candidate) slugs used in
            let alike = λ (j : ℕ) (l : i ≤ j).
              any-delete_where_other (λ s. same s (nth j)) (λ s. same s candidate)
                (λ s e. later s j e l) slugs in
            let ih : free_slug same shown left fuel base (i + 1) (nth i) ≢ none =
              free_slug_total fuel left (i + 1) (nth i) apart
                (λ s j e l. apart.others s i j e (omega arith)) (omega arith) in
            rw
              (
                used,
                ← free_slug-same left slugs fuel (i + 1) (nth i) (alike i (omega arith))
                    (λ j l. alike j (omega arith)),
              )
              ih
      ]

  free_slug_sound :
      (fuel : ℕ) (slugs : List String) (i : ℕ) (candidate found : String)
      → free_slug same shown slugs fuel base i candidate ≡ some found
      → taken slugs found ≡ false
  unfolding free_slug
  free_slug_sound zero slugs i candidate found h = cc
  free_slug_sound (suc fuel) slugs i candidate found h = elim (Bool-cases (taken slugs candidate)) [
    | inl used ↦ free_slug_sound fuel slugs (i + 1) (nth i) found (ground (arith, used, h))
    | inr free ↦
        subst (λ c. taken slugs c ≡ false)
          (let e : candidate ≡ found = ground (arith, free, h) in e) free
  ]

-- The loop of generateUniqueSlug ends after at most one round more than there are rows, with a slug
-- that no row has, where no stored slug equals two of the candidates.
pub generate_unique_slug-free :
    (same : String → String → Bool) (shown : ℕ → String) (reserved : String → Bool)
    (fallback full : String) (slugs : List String)
    → AreApart same shown (slug_stem reserved fallback full)
    → (slug : String) × (generate_unique_slug same shown reserved fallback full slugs ≡ some slug)
      × (exists_slug same shown slugs slug ≡ false)
unfolding generate_unique_slug
generate_unique_slug-free same shown reserved fallback full slugs apart =
    elim (Option-cases (free_slug same shown slugs (suc (length slugs)) base 2 base)) [
      | inl out ↦ absurd (
          free_slug_total same shown base (suc (length slugs)) slugs 2 base apart
            (λ s j e l. apart.first s j e) (omega arith) out)
      | inr (found, e) ↦
          (found, e, free_slug_sound same shown base (suc (length slugs)) slugs 2 base found e)
    ]
  where
    base : String
    base = slug_stem reserved fallback full
