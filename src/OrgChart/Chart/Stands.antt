-- ===== src/OrgChart/Chart/Stands.antt =====
-- Where a position stands among the published ones.
use safeer_api.Common.{
  ℕ, zero, suc, ◌≡◌, ◌∙◌, refl, ap, subst, inl, inr, Option, none, some, List, [], ◌∷◌, Bool, true,
  false, ◌&&◌, ◌||◌, arith, ◌==◌, any, find, find_sound, find_of_any, All, All-find, Bool-cases,
  Option-cases,
}
use safeer_api.OrgChart.{OrgPosition, has_position_id}
use safeer_api.OrgChart.Guard.{is_at}

pub any_from :
    (r test : OrgPosition → Bool) (xs : List OrgPosition) (q : OrgPosition)
    → find r xs ≡ some q
    → test q ≡ true
    → any test xs ≡ true
unfolding any find
any_from r test [] q f t = absurd (ground (arith, f))
any_from r test (x ∷ xs) q f t = elim (Bool-cases (r x)) [
  | inl e ↦
      let same : x ≡ q = ground (arith, e, f) in
      let holds : test x ≡ true = ap test same ∙ t in ground (arith, holds)
  | inr e ↦ ground (arith, any_from r test xs q (ground (arith, e, f)) t)
]

module _ (positions : List OrgPosition) where
  abbrev via : (ℕ → Bool) → Option ℕ → Bool
  via f none = false
  via f (some y) = f y

  abbrev reaches : (ℕ → Bool) → Option ℕ → Option OrgPosition → Bool
  reaches f top none = false
  reaches f top (some q) = is_at q.parent_id top || via f q.parent_id

  -- `i` stands below `top` (below nothing: at the top), at most `k` levels down
  unfoldable pub stands : ℕ → ℕ → Option ℕ → Bool
  stands zero i top = false
  stands (suc k) i top = reaches (λ y. stands k y top) top (find (has_position_id i) positions)

  -- the position itself, or what its subtree holds
  abbrev pub leads : ℕ → ℕ → OrgPosition → Bool
  leads k i p = p.id == i || stands k i (some p.id)

  -- one level more, above the top
  pub stands-up :
      (k i : ℕ) (p : OrgPosition) (top : Option ℕ)
      → find (has_position_id p.id) positions ≡ some p
      → is_at p.parent_id top ≡ true
      → stands k i (some p.id) ≡ true
      → stands (suc k) i top ≡ true
  unfolding stands
  stands-up zero i p top f e h = cc
  stands-up (suc k) i p top f e h =
      step (find (has_position_id i) positions) (λ y. stands-up k y p top f e) h
    where
      top_of_p : reaches (λ y. stands k y top) top (find (has_position_id p.id) positions) ≡ true
      top_of_p = rw f (ground (arith, e))

      climb :
          (at : Option ℕ)
          → ((y : ℕ) → stands k y (some p.id) ≡ true → stands (suc k) y top ≡ true)
          → is_at at (some p.id) || via (λ y. stands k y (some p.id)) at ≡ true
          → is_at at top || via (λ y. stands (suc k) y top) at ≡ true
      climb none ih w = cc
      climb (some y) ih w = elim (Bool-cases (y == p.id)) [
        | inl here ↦
            let same : p.id ≡ y = ground (arith, here) in
            let found : stands (suc k) y top ≡ true =
              subst (λ j. stands (suc k) j top ≡ true) same top_of_p in
            ground (arith, found)
        | inr lower ↦
            let found : stands (suc k) y top ≡ true = ih y (ground (arith, lower, w)) in
            ground (arith, found)
      ]

      step :
          (o : Option OrgPosition)
          → ((y : ℕ) → stands k y (some p.id) ≡ true → stands (suc k) y top ≡ true)
          → reaches (λ y. stands k y (some p.id)) (some p.id) o ≡ true
          → reaches (λ y. stands (suc k) y top) top o ≡ true
      step none ih w = cc
      step (some q) ih w = climb q.parent_id ih w

  pub stands_here :
      (k : ℕ) (p : OrgPosition) (top : Option ℕ)
      → find (has_position_id p.id) positions ≡ some p
      → is_at p.parent_id top ≡ true
      → stands (suc k) p.id top ≡ true
  unfolding stands
  stands_here k p top f e = rw f (ground (arith, e))

  module _ (keyed : All (λ p. find (has_position_id p.id) positions ≡ some p) positions) where
    -- the way down to `i` goes through its parent `y`
    through :
        (k i y : ℕ) (q : OrgPosition) (top : Option ℕ)
        → find (has_position_id i) positions ≡ some q
        → q.parent_id ≡ some y
        → any (λ p. is_at p.parent_id top && leads k y p) positions ≡ true
        → any (λ p. is_at p.parent_id top && leads (suc k) i p) positions ≡ true
    unfolding stands
    through k i y q top found e h =
        let (p, first) = find_of_any (λ p. is_at p.parent_id top && leads k y p) positions h in
        let passes : is_at p.parent_id top && leads k y p ≡ true =
          find_sound (λ p. is_at p.parent_id top && leads k y p) positions p first in
        let mine : find (has_position_id p.id) positions ≡ some p =
          All-find (λ p. find (has_position_id p.id) positions ≡ some p)
            (λ p. is_at p.parent_id top && leads k y p) positions p first keyed in
        any_from (has_position_id p.id) (λ p. is_at p.parent_id top && leads (suc k) i p) positions
          p mine (rw found (next p.id (is_at p.parent_id top) (p.id == i) q.parent_id e passes))
      where
        next :
            (j : ℕ) (a b : Bool) (at : Option ℕ)
            → at ≡ some y
            → a && ((j == y) || stands k y (some j)) ≡ true
            → a && (b || (is_at at (some j) || via (λ z. stands k z (some j)) at)) ≡ true
        next j a b none w h' = cc
        next j a b (some z) w h' =
            let same : z ≡ y = ground (arith, w) in
            let there : stands k z (some j) ≡ stands k y (some j) =
              ap (λ t. stands k t (some j)) same in
            ground (arith, there, h', same)

    -- the position right below the top on the way down to `i`
    pub stands-down :
        (k i : ℕ) (top : Option ℕ)
        → stands (suc k) i top ≡ true
        → any (λ p. is_at p.parent_id top && leads k i p) positions ≡ true
    unfolding stands
    stands-down zero i top h = elim (Option-cases (find (has_position_id i) positions)) [
      | inl missing ↦ absurd (ground (arith, missing, h))
      | inr (q, found) ↦
          any_from (has_position_id i) (λ p. is_at p.parent_id top && leads zero i p) positions q
            found
            (at_top q.parent_id _ _ (subst (λ o. reaches (λ y. false) top o ≡ true) found h)
              (find_sound (has_position_id i) positions q found))
    ]
      where
        at_top :
            (at : Option ℕ) (b c : Bool)
            → is_at at top || via (λ y. false) at ≡ true
            → b ≡ true
            → is_at at top && (b || c) ≡ true
        at_top none b c w e = ground (arith, w, e)
        at_top (some y) b c w e = ground (arith, w, e)
    stands-down (suc k) i top h = elim (Option-cases (find (has_position_id i) positions)) [
      | inl missing ↦ absurd (ground (arith, missing, h))
      | inr (q, found) ↦
          step q.parent_id q found refl (λ y. stands-down k y top)
            (subst (λ o. reaches (λ y. stands (suc k) y top) top o ≡ true) found h)
    ]
      where
        step :
            (at : Option ℕ) (q : OrgPosition)
            → find (has_position_id i) positions ≡ some q
            → q.parent_id ≡ at
            → ((y : ℕ)
                → stands (suc k) y top ≡ true
                → any (λ p. is_at p.parent_id top && leads k y p) positions ≡ true)
            → is_at q.parent_id top || via (λ y. stands (suc k) y top) q.parent_id ≡ true
            → any (λ p. is_at p.parent_id top && leads (suc k) i p) positions ≡ true
        step at q found e ih w = elim (Bool-cases (is_at q.parent_id top)) [
          | inl here ↦
              any_from (has_position_id i) (λ p. is_at p.parent_id top && leads (suc k) i p)
                positions q found
                (ground (arith, here, find_sound (has_position_id i) positions q found))
          | inr lower ↦
              deeper at e
                (subst (λ o. via (λ y. stands (suc k) y top) o ≡ true) e (ground (arith, lower, w)))
        ]
          where
            deeper :
                (o : Option ℕ)
                → q.parent_id ≡ o
                → via (λ y. stands (suc k) y top) o ≡ true
                → any (λ p. is_at p.parent_id top && leads (suc k) i p) positions ≡ true
            deeper none e' w' = cc
            deeper (some y) e' w' = through k i y q top found e' (ih y w')
