-- ===== src/OrgChart/Chart/Shown.antt =====
-- Which positions the public chart shows.
use safeer_api.Common.{
  ℕ, zero, suc, ◌+◌, ◌≡◌, ◌∙◌, ◌↔◌, refl, sym, subst, inl, inr, Option, none, some, List, [], ◌∷◌,
  Bool, true, false, not, ◌&&◌, ◌||◌, arith, ◌==◌, select, any, find, find_sound, find_of_any,
  any_of_find, All, All-find, Bool-cases,
}
use safeer_api.OrgChart.{OrgPosition, Holder, has_position_id}
use safeer_api.OrgChart.Guard.{is_at, org_max_depth}
use safeer_api.OrgChart.Chart.{
  PublicOrgNode, PublicOrgNodes, box, nil, cons, is_hidden, children_of, boxes, build,
  build_org_forest,
}
use safeer_api.OrgChart.Chart.Stands.{stands, leads, stands-up, stands-down, stands_here, any_from}

unfoldable mutual
  pub shows : ℕ → PublicOrgNodes → Bool
  shows i nil = false
  shows i (cons n ns) = shows_box i n || shows i ns

  pub shows_box : ℕ → PublicOrgNode → Bool
  shows_box i (box j a e t h below) = j == i || shows i below

shows-boxes :
    (members : List Holder) (below : ℕ → PublicOrgNodes) (i depth : ℕ) (ps : List OrgPosition)
    → shows i (boxes members below depth ps) ≡ any (λ p. p.id == i || shows i (below p.id)) ps
unfolding shows boxes any
shows-boxes members below i depth [] = refl
shows-boxes members below i depth (p ∷ ps) = ground (arith, shows-boxes members below i depth ps)

any-select_and :
    (q p : OrgPosition → Bool) (xs : List OrgPosition)
    → any q (select p xs) ≡ any (λ x. p x && q x) xs
unfolding any select
any-select_and q p [] = refl
any-select_and q p (x ∷ xs) = ground (arith, any-select_and q p xs)

module _ (positions : List OrgPosition) where
  abbrev present : ℕ → Bool
  present i = any (has_position_id i) positions

  module _ (keyed : All (λ p. find (has_position_id p.id) positions ≡ some p) positions) where
    -- what the children of `top` are drawn from, where that is shown itself
    abbrev IsTop : Option ℕ → Type 0
    IsTop top = (p : OrgPosition) → is_at p.parent_id top ≡ true → is_hidden positions p ≡ false

    IsTop-none : IsTop none
    IsTop-none p h = visible p.parent_id h
      where
        visible :
            (at : Option ℕ)
            → is_at at none ≡ true
            → (elim at [ none ↦ false | some x ↦ not (any (has_position_id x) positions) ]) ≡ false
        visible none e = refl
        visible (some x) e = cc

    IsTop-some : (x : ℕ) → present x ≡ true → IsTop (some x)
    IsTop-some x there p h = visible p.parent_id h
      where
        visible :
            (at : Option ℕ)
            → is_at at (some x) ≡ true
            → (elim at [ none ↦ false | some y ↦ not (any (has_position_id y) positions) ]) ≡ false
        visible none e = cc
        visible (some y) e = let same : y ≡ x = ground (arith, e) in rw (same, there) refl

    module _ (members : List Holder) (i : ℕ) where
      abbrev drawn : ℕ → ℕ → OrgPosition → Bool
      drawn k depth p = p.id == i || shows i (build members positions k (some p.id) depth)

      shows-build_level :
          (k : ℕ) (top : Option ℕ) (depth : ℕ)
          → shows i (build members positions (suc k) top depth)
            ≡ any
                (λ p.
                  (is_at p.parent_id top && not (is_hidden positions p)) && drawn k (depth + 1) p)
                positions
      unfolding build
      shows-build_level k top depth =
          shows-boxes members (λ j. build members positions k (some j) (depth + 1)) i depth
            (children_of positions top)
          ∙ any-select_and (drawn k (depth + 1))
              (λ p. is_at p.parent_id top && not (is_hidden positions p)) positions

      shows-build_bottom :
          (top : Option ℕ) (depth : ℕ) → shows i (build members positions zero top depth) ≡ false
      unfolding build shows
      shows-build_bottom top depth = refl

      present_of :
          (p : OrgPosition) → find (has_position_id p.id) positions ≡ some p → present p.id ≡ true
      present_of p f = any_of_find (has_position_id p.id) positions p f

      shown_stands :
          (k : ℕ) (top : Option ℕ) (depth : ℕ)
          → shows i (build members positions k top depth) ≡ true
          → stands positions k i top ≡ true
      shown_stands zero top depth h =
          let none_shown : shows i (build members positions zero top depth) ≡ false =
            shows-build_bottom top depth in
          cc
      shown_stands (suc k) top depth h =
          let test = λ (p : OrgPosition).
            (is_at p.parent_id top && not (is_hidden positions p)) && drawn k (depth + 1) p in
          let (p, first) = find_of_any test positions (sym (shows-build_level k top depth) ∙ h) in
          let passes : test p ≡ true = find_sound test positions p first in
          let mine : find (has_position_id p.id) positions ≡ some p =
            All-find (λ p. find (has_position_id p.id) positions ≡ some p) test positions p first
              keyed in
          elim (Bool-cases (p.id == i)) [
            | inl here ↦
                subst (λ j. stands positions (suc k) j top ≡ true)
                  (let e : p.id ≡ i = ground (arith, here) in e)
                  (stands_here positions k p top mine (ground (arith, passes)))
            | inr lower ↦
                stands-up positions k i p top mine (ground (arith, passes))
                  (shown_stands k (some p.id) (depth + 1) (ground (arith, passes, lower)))
          ]

      stands_shown :
          (k : ℕ) (top : Option ℕ) (depth : ℕ)
          → IsTop top
          → stands positions k i top ≡ true
          → shows i (build members positions k top depth) ≡ true
      stands_shown zero top depth v h = unfold stands in cc
      stands_shown (suc k) top depth v h =
          let test = λ (p : OrgPosition). is_at p.parent_id top && leads positions k i p in
          let (p, first) = find_of_any test positions (stands-down positions keyed k i top h) in
          let passes : test p ≡ true = find_sound test positions p first in
          let mine : find (has_position_id p.id) positions ≡ some p =
            All-find (λ p. find (has_position_id p.id) positions ≡ some p) test positions p first
              keyed in
          let visible : is_hidden positions p ≡ false = v p (ground (arith, passes)) in
          shows-build_level k top depth
          ∙ any_from (has_position_id p.id)
              (λ q. (is_at q.parent_id top && not (is_hidden positions q)) && drawn k (depth + 1) q)
              positions p mine
              (elim (Bool-cases (p.id == i)) [
                | inl here ↦ ground (arith, passes, visible, here)
                | inr lower ↦
                    let ih : shows i (build members positions k (some p.id) (depth + 1)) ≡ true =
                      stands_shown k (some p.id) (depth + 1) (IsTop-some p.id (present_of p mine))
                        (ground (arith, passes, lower)) in
                    ground (arith, passes, visible, ih)
              ])

-- The public chart shows exactly the positions from which the climb to the top goes over published
-- positions alone and takes at most five levels. Each published position is the one that its id finds.
pub shows-build_org_forest :
    (positions : List OrgPosition) (members : List Holder) (i : ℕ)
    → All (λ p. find (has_position_id p.id) positions ≡ some p) positions
    → (shows i (build_org_forest positions members) ≡ true)
      ↔ (stands positions org_max_depth i none ≡ true)
unfolding build_org_forest
shows-build_org_forest positions members i keyed = (
  shown_stands positions keyed members i org_max_depth none 0,
  stands_shown positions keyed members i org_max_depth none 0 (IsTop-none positions keyed),
)
