-- ===== src/OrgChart/Siblings.antt =====
-- Where a position without a sort order of its own is put among its siblings.
use safeer_api.Common.{
  ℕ, zero, suc, ◌≡◌, refl, subst, sym, inl, inr, Option, none, some, List, [], ◌||◌, ◌∷◌, map, Bool,
  true, false, not, arith, find, select, if◌then◌else◌, Bool-cases, Option-cases, All, All-weaken,
  err, problem, validation_failed, ok, err, problem, validation_failed,
}
use safeer_api.OrgChart.{
  ℤ, pos, negsuc, lebℤ, succ, maxℤ, max_or, OrgPosition, OrgDb, has_position_id, lock_tree,
  CreateOrgPosition, UpdateOrgPosition, or_else, is_moving, next_sort_order, order_of,
  edited_position, new_position, create_position, update_position,
}
use safeer_api.OrgChart.Guard.{is_at, check_parent}

lebℤ_refl : (a : ℤ) → lebℤ a a ≡ true
lebℤ_refl (pos a) = ground arith
lebℤ_refl (negsuc a) = ground arith

lebℤ_trans : (a b c : ℤ) → lebℤ a b ≡ true → lebℤ b c ≡ true → lebℤ a c ≡ true
lebℤ_trans (pos a) (pos b) (pos c) h k = ground arith
lebℤ_trans (pos a) (pos b) (negsuc c) h k = cc
lebℤ_trans (pos a) (negsuc b) c h k = cc
lebℤ_trans (negsuc a) (pos b) (pos c) h k = refl
lebℤ_trans (negsuc a) (pos b) (negsuc c) h k = cc
lebℤ_trans (negsuc a) (negsuc b) (pos c) h k = refl
lebℤ_trans (negsuc a) (negsuc b) (negsuc c) h k = ground arith

lebℤ_total : (a b : ℤ) → lebℤ a b ≡ false → lebℤ b a ≡ true
lebℤ_total (pos a) (pos b) h = ground arith
lebℤ_total (pos a) (negsuc b) h = refl
lebℤ_total (negsuc a) (pos b) h = cc
lebℤ_total (negsuc a) (negsuc b) h = ground arith

lebℤ-succ : (a b : ℤ) → lebℤ a b ≡ true → lebℤ (succ a) (succ b) ≡ true
lebℤ-succ (pos a) (pos b) h = ground arith
lebℤ-succ (pos a) (negsuc b) h = cc
lebℤ-succ (negsuc zero) (pos b) h = ground arith
lebℤ-succ (negsuc (suc a)) (pos b) h = refl
lebℤ-succ (negsuc zero) (negsuc zero) h = ground arith
lebℤ-succ (negsuc zero) (negsuc (suc b)) h = ground arith
lebℤ-succ (negsuc (suc a)) (negsuc zero) h = refl
lebℤ-succ (negsuc (suc a)) (negsuc (suc b)) h = ground arith

maxℤ_bounds : (a b : ℤ) → (lebℤ a (maxℤ a b) ≡ true) × (lebℤ b (maxℤ a b) ≡ true)
maxℤ_bounds a b = elim (Bool-cases (lebℤ a b)) [
  | inl h ↦ rw h (h, lebℤ_refl b)
  | inr h ↦ rw h (lebℤ_refl a, lebℤ_total a b h)
]

max_or_bound : (d : ℤ) (xs : List ℤ) → All (λ x. lebℤ x (max_or d xs) ≡ true) xs
max_or_bound d [] = tt
max_or_bound d (x ∷ []) = (lebℤ_refl x, tt)
max_or_bound d (x ∷ y ∷ ys) =
    let (left, right) = maxℤ_bounds x (max_or d (y ∷ ys)) in
    (
      left,
      All-weaken (λ z. lebℤ z (max_or d (y ∷ ys)) ≡ true)
          (λ z. lebℤ z (maxℤ x (max_or d (y ∷ ys))) ≡ true)
          (λ z h. lebℤ_trans z (max_or d (y ∷ ys)) (maxℤ x (max_or d (y ∷ ys))) h right) (y ∷ ys)
          (max_or_bound d (y ∷ ys)),
    )

-- `o` is greater than the sort order of each position under `parent`
abbrev pub IsAfter : Option ℕ → List OrgPosition → ℤ → Type 0
IsAfter parent positions o =
    All (λ p. not (is_at p.parent_id parent) || lebℤ (succ p.sort_order) o ≡ true) positions

-- what holds of the siblings, on the whole table
of_siblings :
    (parent : Option ℕ) (o : ℤ) (ps : List OrgPosition)
    → All
        (λ x. lebℤ (succ x) o ≡ true)
        (map (λ q. q.sort_order) (select (λ p. is_at p.parent_id parent) ps))
    → IsAfter parent ps o
unfolding select
of_siblings parent o [] h = tt
of_siblings parent o (q ∷ ps) h = either (is_at q.parent_id parent) h (of_siblings parent o ps)
  where
    siblings : List OrgPosition
    siblings = select (λ p. is_at p.parent_id parent) ps

    either :
        (b : Bool)
        → All
            (λ x. lebℤ (succ x) o ≡ true)
            (map (λ (r : OrgPosition). r.sort_order) (if b then q ∷ siblings else siblings))
        → (All (λ x. lebℤ (succ x) o ≡ true) (map (λ (r : OrgPosition). r.sort_order) siblings)
            → IsAfter parent ps o)
        → (not b || lebℤ (succ q.sort_order) o ≡ true) × IsAfter parent ps o
    either true k rest = (k.0, rest k.1)
    either false k rest = (refl, rest k)

next_sort_order-IsAfter :
    (parent : Option ℕ) (ps : List OrgPosition) → IsAfter parent ps (next_sort_order parent ps)
unfolding next_sort_order
next_sort_order-IsAfter parent ps = of_siblings parent (succ (max_or (negsuc 0) xs)) ps (
    All-weaken (λ x. lebℤ x (max_or (negsuc 0) xs) ≡ true)
      (λ x. lebℤ (succ x) (succ (max_or (negsuc 0) xs)) ≡ true)
      (λ x h. lebℤ-succ x (max_or (negsuc 0) xs) h) xs (max_or_bound (negsuc 0) xs))
  where
    xs : List ℤ
    xs = map (λ (p : OrgPosition). p.sort_order) (select (λ p. is_at p.parent_id parent) ps)

pub create_position-IsAfter :
    (dto : CreateOrgPosition) (db : OrgDb) (saved : OrgPosition)
    → dto.sort_order ≡ none
    → (create_position dto db).0 ≡ ok saved
    → IsAfter saved.parent_id db.positions saved.sort_order
unfolding create_position
create_position-IsAfter dto db saved e h =
    elim (Option-cases (check_parent (lock_tree db) none (or_else none dto.parent_id))) [
      | inr (error, refused) ↦ absurd (ground (arith, refused, h))
      | inl allowed ↦
          let made : new_position db.next_id dto db.positions ≡ saved =
            ground (arith, allowed, h) in
          subst (λ (p : OrgPosition). IsAfter p.parent_id db.positions p.sort_order) made
            (subst
              (λ o.
                IsAfter (or_else none dto.parent_id) db.positions
                  (order_of o (or_else none dto.parent_id) db.positions))
              (sym e) (next_sort_order-IsAfter (or_else none dto.parent_id) db.positions))
    ]

-- A position that a request without a sort order moves to another parent comes after every position
-- that stood under that parent.
pub move_position-IsAfter :
    (text i : ℕ) (dto : UpdateOrgPosition) (db : OrgDb) (current saved : OrgPosition)
    → find (has_position_id i) db.positions ≡ some current
    → is_moving current dto ≡ true
    → dto.sort_order ≡ none
    → (update_position text i dto db).0 ≡ ok saved
    → IsAfter saved.parent_id db.positions saved.sort_order
unfolding update_position
move_position-IsAfter text i dto db current saved found moving e h =
    elim (Option-cases (check_parent (lock_tree db) (some text) parent)) [
      | inr (error, refused) ↦
          let failed : (update_position text i dto db).0 ≡ err (problem 400 validation_failed) =
            rw (found, moving, refused) refl in
          absurd (ground (arith, failed, h))
      | inl allowed ↦
          let done : (update_position text i dto db).0
              ≡ ok (edited_position dto current db.positions) =
            rw (found, moving, allowed) refl in
          let made : edited_position dto current db.positions ≡ saved = ground (arith, done, h) in
          subst (λ (p : OrgPosition). IsAfter p.parent_id db.positions p.sort_order) made
            (rw moving (
              subst (λ o. IsAfter parent db.positions (order_of o parent db.positions)) (sym e)
                (next_sort_order-IsAfter parent db.positions)))
    ]
  where
    parent : Option ℕ
    parent = or_else current.parent_id dto.parent_id
