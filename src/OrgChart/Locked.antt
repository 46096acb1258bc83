-- ===== src/OrgChart/Locked.antt =====
-- The rows that the guard reads, against the table that they come from.
use safeer_api.Common.{
  ℕ, ◌<◌, ◌≡◌, refl, ap, subst, inl, inr, Option, none, some, List, [], ◌∷◌, ◌++◌, map, true, false,
  not, arith, find, any, delete_where, select, update_where, Bool-cases, All,
}
use safeer_api.OrgChart.{OrgPosition, has_position_id, tree_row, or_else}
use safeer_api.OrgChart.Guard.{TreeRow, has_row_id, is_at}
use safeer_api.OrgChart.Forest.{is_child}

pub rows-append :
    (ps : List OrgPosition) (p : OrgPosition)
    → map tree_row (ps ++ p ∷ []) ≡ map tree_row ps ++ tree_row p ∷ []
rows-append [] p = refl
rows-append (q ∷ ps) p = ap (λ rs. tree_row q ∷ rs) (rows-append ps p)

pub rows-update :
    (i : ℕ) (new : OrgPosition) (ps : List OrgPosition)
    → map tree_row (update_where (has_position_id i) (λ _. new) ps)
      ≡ update_where (has_row_id i) (λ _. tree_row new) (map tree_row ps)
unfolding update_where
rows-update i new [] = refl
rows-update i new (p ∷ ps) = ground (arith, rows-update i new ps)

pub rows-delete :
    (i : ℕ) (ps : List OrgPosition)
    → map tree_row (delete_where (has_position_id i) ps)
      ≡ delete_where (has_row_id i) (map tree_row ps)
unfolding delete_where select
rows-delete i [] = refl
rows-delete i (p ∷ ps) = ground (arith, rows-delete i ps)

pub rows-any :
    (i : ℕ) (ps : List OrgPosition)
    → any (has_row_id i) (map tree_row ps) ≡ any (has_position_id i) ps
unfolding any
rows-any i [] = refl
rows-any i (p ∷ ps) = ground (arith, rows-any i ps)

pub rows_fresh :
    (n : ℕ) (ps : List OrgPosition)
    → All (λ p. p.id < n) ps
    → any (has_row_id n) (map tree_row ps) ≡ false
unfolding any
rows_fresh n [] h = refl
rows_fresh n (p ∷ ps) h = ground (arith, h.0, rows_fresh n ps h.1)

pub no_child :
    (i : ℕ) (ps : List OrgPosition)
    → any (λ p. is_at p.parent_id (some i)) ps ≡ false
    → All (λ r. is_child i r ≡ false) (map tree_row ps)
unfolding any
no_child i [] h = tt
no_child i (p ∷ ps) h = (ground (arith, h), no_child i ps (ground (arith, h)))

pub is_at→≡ : (a b : Option ℕ) → is_at a b ≡ true → a ≡ b
is_at→≡ none none h = refl
is_at→≡ none (some b) h = cc
is_at→≡ (some a) none h = cc
is_at→≡ (some a) (some b) h = ground (arith, h)

pub stays_put : (a : Option ℕ) (p : Option ℕ) → not (is_at a p) ≡ false → a ≡ p
stays_put a p h = is_at→≡ a p (ground (arith, h))

-- a row written over itself
pub update_same :
    (rows : List TreeRow) (i : ℕ) (row : TreeRow)
    → find (has_row_id i) rows ≡ some row
    → (rs : List TreeRow) → All (λ r. find (has_row_id r.id) rows ≡ some r) rs
    → update_where (has_row_id i) (λ _. row) rs ≡ rs
unfolding update_where
update_same rows i row found [] h = refl
update_same rows i row found (r ∷ rs) h = elim (Bool-cases (has_row_id i r)) [
  | inl mine ↦
      let e : r.id ≡ i = ground (arith, mine) in
      let again : find (has_row_id i) rows ≡ some r =
        subst (λ j. find (has_row_id j) rows ≡ some r) e h.0 in
      let same : row ≡ r = cc in
      rw (mine, update_same rows i row found rs h.1) (ap (λ t. t ∷ rs) same)
  | inr other ↦ rw (other, update_same rows i row found rs h.1) refl
]

pub rows-find :
    (i : ℕ) (ps : List OrgPosition) (p : OrgPosition)
    → find (has_position_id i) ps ≡ some p
    → find (has_row_id i) (map tree_row ps) ≡ some (tree_row p)
unfolding find
rows-find i [] p h = ground (arith, h)
rows-find i (q ∷ ps) p h = ground (arith, h, rows-find i ps p)

-- a request that names no other parent
pub same_parent :
    (a : Option ℕ) (o : Option (Option ℕ))
    → (elim o [ none ↦ false | some parent ↦ not (is_at parent a) ]) ≡ false
    → or_else a o ≡ a
same_parent a none h = refl
same_parent a (some b) h = stays_put b a h
