-- ===== src/Common/Table.antt =====
-- A database table as the list of its rows. A WHERE clause is a Boolean test on a row.
use Prim.Native.Nat.{ℕ, suc, ◌+◌}
use mathlib.Core.Path.{◌≡◌, refl}
use mathlib.Core.Logic.{◌≢◌, inl, inr}
use mathlib.Core.Bool.{Bool, true, false, not, ◌||◌, ◌&&◌}
use mathlib.Core.Option.{Option, none, some}
use mathlib.Core.List.{List, [], ◌∷◌, ◌++◌}
use native.Mathlib.Omega.{arith}
use safeer_api.Common.Tests.{if◌then◌else◌, Bool-cases}

module _ {ℓ} {A : Type ℓ} where
  abbrev pub length : List A → ℕ
  length [] = 0
  length (x ∷ xs) = suc (length xs)

  -- SELECT … WHERE p LIMIT 1
  unfoldable pub find : (A → Bool) → List A → Option A
  find p [] = none
  find p (x ∷ xs) = if p x then some x else find p xs

  -- SELECT … WHERE p
  unfoldable pub select : (A → Bool) → List A → List A
  select p [] = []
  select p (x ∷ xs) = let rest = select p xs in if p x then x ∷ rest else rest

  -- UPDATE … SET f WHERE p
  unfoldable pub update_where : (A → Bool) → (A → A) → List A → List A
  update_where p f [] = []
  update_where p f (x ∷ xs) = (if p x then f x else x) ∷ update_where p f xs

  -- SELECT COUNT(*) WHERE p; also the `affected` of an UPDATE or a DELETE
  unfoldable pub count_where : (A → Bool) → List A → ℕ
  count_where p [] = 0
  count_where p (x ∷ xs) = (if p x then 1 else 0) + count_where p xs

  unfoldable pub any : (A → Bool) → List A → Bool
  any p [] = false
  any p (x ∷ xs) = p x || any p xs

  abbrev pub All {κ} : (A → Type κ) → List A → Type κ
  All P [] = Unit
  All P (x ∷ xs) = P x × All P xs

module _ {ℓ} {A : Type ℓ} where
  -- DELETE … WHERE p
  unfoldable pub delete_where : (A → Bool) → List A → List A
  unfolding select
  delete_where p xs = select (λ x. not (p x)) xs

module _ {ℓ κ} {A : Type ℓ} (P : A → Type κ) where
  pub All-append : (xs ys : List A) → All P xs → All P ys → All P (xs ++ ys)
  All-append [] ys h k = k
  All-append (x ∷ xs) ys (p, h) k = (p, All-append xs ys h k)

  pub All-map : (xs : List A) → ((x : A) → P x) → All P xs
  All-map [] h = tt
  All-map (x ∷ xs) h = (h x, All-map xs h)

module _ {ℓ} {A : Type ℓ} where
  pub find_sound : (p : A → Bool) (xs : List A) (x : A) → find p xs ≡ some x → p x ≡ true
  unfolding find
  find_sound p (y ∷ ys) x h = elim (Bool-cases (p y)) [
    | inl e ↦ ground (arith, h, e)
    | inr e ↦ find_sound p ys x (ground (arith, e, h))
  ]
  find_sound p [] x h = ground (arith, h)

  pub any_of_count_where : (p : A → Bool) (xs : List A) → count_where p xs ≢ 0 → any p xs ≡ true
  unfolding count_where any
  any_of_count_where p [] h = absurd (h refl)
  any_of_count_where p (x ∷ xs) h = ground (arith, any_of_count_where p xs)

  -- Rows that pass `q` pass `r` after the UPDATE.
  pub any-update_where :
      (q r p : A → Bool) (f : A → A)
      → ((x : A) → q x ≡ true → r (if p x then f x else x) ≡ true)
      → (xs : List A) → any q xs ≡ true
      → any r (update_where p f xs) ≡ true
  unfolding any update_where
  any-update_where q r p f h [] e = e
  any-update_where q r p f h (x ∷ xs) e = ground (arith, h x, any-update_where q r p f h xs)

  -- Rows that pass `q` are kept by the selection, and pass `r`.
  pub any-select :
      (q r p : A → Bool)
      → ((x : A) → q x ≡ true → p x && r x ≡ true)
      → (xs : List A) → any q xs ≡ true
      → any r (select p xs) ≡ true
  unfolding any select
  any-select q r p h [] e = e
  any-select q r p h (x ∷ xs) e = ground (arith, h x, any-select q r p h xs)

  -- The row that a SELECT found is among those that the UPDATE writes.
  pub any-update_where_found :
      (p q : A → Bool) (y : A) (xs : List A) (x : A)
      → find p xs ≡ some x
      → q y ≡ true
      → any q (update_where p (λ _. y) xs) ≡ true
  unfolding any update_where find
  any-update_where_found p q y [] x h k = ground (arith, h)
  any-update_where_found p q y (z ∷ zs) x h k = ground (arith, any-update_where_found p q y zs x)

module _ {ℓ κ} {A : Type ℓ} (P : A → Type κ) (p : A → Bool) where
  pub All-update_where :
      (f : A → A)
      → ((x : A) → P x → P (if p x then f x else x))
      → (xs : List A) → All P xs
      → All P (update_where p f xs)
  unfolding update_where
  All-update_where f h [] a = tt
  All-update_where f h (x ∷ xs) a = (h x a.0, All-update_where f h xs a.1)

  -- A fact that the UPDATE establishes for each row, written or not.
  pub All-update_where_total :
      (f : A → A)
      → ((x : A) → P (if p x then f x else x))
      → (xs : List A) → All P (update_where p f xs)
  unfolding update_where
  All-update_where_total f h [] = tt
  All-update_where_total f h (x ∷ xs) = (h x, All-update_where_total f h xs)

  pub All-select : (xs : List A) → All P xs → All P (select p xs)
  unfolding select
  All-select [] a = tt
  All-select (x ∷ xs) a = head (p x) (All-select xs a.1)
    where
      head : (b : Bool) → All P (select p xs) → All P (if b then x ∷ select p xs else select p xs)
      head true k = (a.0, k)
      head false k = k

  pub All-find : (xs : List A) (x : A) → find p xs ≡ some x → All P xs → P x
  unfolding find
  All-find [] x h a = absurd (ground (arith, h))
  All-find (y ∷ ys) x h a = elim (Bool-cases (p y)) [
    | inl e ↦ let same : y ≡ x = ground (arith, h, e) in rw (← same) a.0
    | inr e ↦ All-find ys x (ground (arith, e, h)) a.1
  ]
