-- ===== src/Common/Rows.antt =====
-- Further lemmas on tables: what is found, counted and kept after an UPDATE or a DELETE.
use Prim.Native.Nat.{◌+◌}
use mathlib.Core.Path.{◌≡◌, refl}
use mathlib.Core.Logic.{◌⊎◌, inl, inr}
use mathlib.Core.Bool.{Bool, true, false, not, ◌||◌}
use mathlib.Core.Option.{none, some}
use mathlib.Core.List.{List, [], ◌∷◌, ◌++◌}
use native.Mathlib.Omega.{arith}
use safeer_api.Common.Tests.{if◌then◌else◌, Bool-cases}
use safeer_api.Common.Table.{All, any, count_where, delete_where, find, select, update_where}

module _ {ℓ} {A : Type ℓ} (p : A → Bool) where
  pub any-append_left : (xs ys : List A) → any p xs ≡ true → any p (xs ++ ys) ≡ true
  unfolding any
  any-append_left [] ys h = ground (arith, h)
  any-append_left (x ∷ xs) ys h = ground (arith, h, any-append_left xs ys)

module _ {ℓ} {A : Type ℓ} where
  -- After the UPDATE no row passes the test that the UPDATE makes false.
  pub All-update_where_done :
      (p : A → Bool) (f : A → A)
      → ((x : A) → p x ≡ true → p (f x) ≡ false)
      → (xs : List A) → All (λ x. p x ≡ false) (update_where p f xs)
  unfolding update_where
  All-update_where_done p f h [] = tt
  All-update_where_done p f h (x ∷ xs) = (head (Bool-cases (p x)), All-update_where_done p f h xs)
    where
      head : (p x ≡ true) ⊎ (p x ≡ false) → p (if p x then f x else x) ≡ false
      head (inl e) = rw e (h x e)
      head (inr e) = rw e e

  pub All-delete_where : (p : A → Bool) (xs : List A) → All (λ x. p x ≡ false) (delete_where p xs)
  unfolding delete_where select
  All-delete_where p [] = tt
  All-delete_where p (x ∷ xs) = head (Bool-cases (p x)) (All-delete_where p xs)
    where
      head :
          (p x ≡ true) ⊎ (p x ≡ false)
          → All (λ y. p y ≡ false) (delete_where p xs)
          → All
              (λ y. p y ≡ false)
              (if not (p x) then x ∷ select (λ y. not (p y)) xs else select (λ y. not (p y)) xs)
      head (inl e) k = rw e k
      head (inr e) k = rw e (e, k)

  -- What is found by a test that the UPDATE leaves alone.
  pub find-update_where :
      (q p : A → Bool) (f : A → A)
      → ((x : A) → p x ≡ true → (q x ≡ false) × (q (f x) ≡ false))
      → (xs : List A) → find q (update_where p f xs) ≡ find q xs
  unfolding find update_where
  find-update_where q p f h [] = refl
  find-update_where q p f h (x ∷ xs) = ground (arith, h x, find-update_where q p f h xs)

  -- What is found by the test of an UPDATE that keeps the tested column.
  pub find-update_where_self :
      (p : A → Bool) (f : A → A)
      → ((x : A) → p x ≡ true → p (f x) ≡ true)
      → (xs : List A) (x : A) → find p xs ≡ some x
      → find p (update_where p f xs) ≡ some (f x)
  unfolding find update_where
  find-update_where_self p f h [] x e = ground (arith, e)
  find-update_where_self p f h (y ∷ ys) x e =
      ground (arith, e, h y, find-update_where_self p f h ys x)

module _ {ℓ} {A : Type ℓ} (q : A → Bool) where
  pub find_of_any : (xs : List A) → any q xs ≡ true → (x : A) × (find q xs ≡ some x)
  unfolding any find
  find_of_any [] h = absurd (ground (arith, h))
  find_of_any (x ∷ xs) h = elim (Bool-cases (q x)) [
    | inl e ↦ (x, rw e)
    | inr e ↦ rw e (find_of_any xs (ground (arith, e, h)))
  ]

  pub find-append :
      (xs : List A) (x : A)
      → All (λ y. q y ≡ false) xs
      → q x ≡ true
      → find q (xs ++ x ∷ []) ≡ some x
  unfolding find
  find-append [] x h k = rw k
  find-append (y ∷ ys) x h k = rw h.0 (find-append ys x h.1 k)

module _ {ℓ} {A : Type ℓ} (q : A → Bool) where
  pub find-none : (xs : List A) → All (λ x. q x ≡ false) xs → find q xs ≡ none
  unfolding find
  find-none [] h = refl
  find-none (x ∷ xs) h = rw h.0 (find-none xs h.1)

module _ {ℓ} {A : Type ℓ} (q : A → Bool) where
  pub any-append : (xs ys : List A) → any q (xs ++ ys) ≡ any q xs || any q ys
  unfolding any
  any-append [] ys = refl
  any-append (x ∷ xs) ys = ground (arith, any-append xs ys)

  -- Deleted rows do not count, whatever they pass.
  pub any-select_none :
      (p : A → Bool) (xs : List A) → any q xs ≡ false → any q (select p xs) ≡ false
  unfolding any select
  any-select_none p [] h = h
  any-select_none p (x ∷ xs) h = ground (arith, h, any-select_none p xs)

  pub any-update_where_same :
      (p : A → Bool) (f : A → A)
      → ((x : A) → q (f x) ≡ q x)
      → (xs : List A) → any q (update_where p f xs) ≡ any q xs
  unfolding any update_where
  any-update_where_same p f h [] = refl
  any-update_where_same p f h (x ∷ xs) = ground (arith, h x, any-update_where_same p f h xs)

  pub any-delete_where_done :
      (p : A → Bool)
      → ((x : A) → q x ≡ true → p x ≡ true)
      → (xs : List A) → any q (delete_where p xs) ≡ false
  unfolding any delete_where select
  any-delete_where_done p h [] = refl
  any-delete_where_done p h (x ∷ xs) = ground (arith, h x, any-delete_where_done p h xs)

  pub none_of_any : (xs : List A) → any q xs ≡ false → All (λ x. q x ≡ false) xs
  unfolding any
  none_of_any [] h = tt
  none_of_any (x ∷ xs) h = (ground (arith, h), none_of_any xs (ground (arith, h)))

module _ {ℓ κ κ'} {A : Type ℓ} (P : A → Type κ) (Q : A → Type κ') where
  pub All-weaken : ((x : A) → P x → Q x) → (xs : List A) → All P xs → All Q xs
  All-weaken h [] a = tt
  All-weaken h (x ∷ xs) a = (h x a.0, All-weaken h xs a.1)

  -- A fact on the rows before the UPDATE gives one on the rows after it.
  pub All-update_where_of :
      (p : A → Bool) (f : A → A)
      → ((x : A) → P x → Q (if p x then f x else x))
      → (xs : List A) → All P xs
      → All Q (update_where p f xs)
  unfolding update_where
  All-update_where_of p f h [] a = tt
  All-update_where_of p f h (x ∷ xs) a = (h x a.0, All-update_where_of p f h xs a.1)

module _ {ℓ} {A : Type ℓ} (q : A → Bool) where
  pub count_where-append :
      (xs ys : List A) → count_where q (xs ++ ys) ≡ count_where q xs + count_where q ys
  unfolding count_where
  count_where-append [] ys = ground arith
  count_where-append (x ∷ xs) ys = ground (arith, count_where-append xs ys)

module _ {ℓ} {A : Type ℓ} where
  pub any_of_find : (q : A → Bool) (xs : List A) (x : A) → find q xs ≡ some x → any q xs ≡ true
  unfolding find any
  any_of_find q [] x h = ground (arith, h)
  any_of_find q (y ∷ ys) x h = ground (arith, h, any_of_find q ys x)

  pub find-append_left :
      (q : A → Bool) (xs ys : List A) (x : A) → find q xs ≡ some x → find q (xs ++ ys) ≡ some x
  unfolding find
  find-append_left q [] ys x h = absurd (ground (arith, h))
  find-append_left q (z ∷ zs) ys x h = ground (arith, h, find-append_left q zs ys x)

  pub find-delete_where :
      (q p : A → Bool)
      → ((x : A) → q x ≡ true → p x ≡ false)
      → (xs : List A) → find q (delete_where p xs) ≡ find q xs
  unfolding find delete_where select
  find-delete_where q p h [] = refl
  find-delete_where q p h (x ∷ xs) = ground (arith, h x, find-delete_where q p h xs)

  pub All-both {κ κ'} :
      (P : A → Type κ) (Q : A → Type κ') (xs : List A)
      → All P xs
      → All Q xs
      → All (λ x. P x × Q x) xs
  All-both P Q [] a b = tt
  All-both P Q (x ∷ xs) a b = ((a.0, b.0), All-both P Q xs a.1 b.1)

module _ {ℓ} {A : Type ℓ} where
  -- rows that a DELETE does not touch
  pub select-delete_where :
      (q p : A → Bool)
      → ((x : A) → q x ≡ true → p x ≡ false)
      → (xs : List A) → select q (delete_where p xs) ≡ select q xs
  unfolding select delete_where
  select-delete_where q p h [] = refl
  select-delete_where q p h (x ∷ xs) = ground (arith, h x, select-delete_where q p h xs)
