-- ===== src/OrgChart/Adding.antt =====
-- A new position keeps the levels.
use safeer_api.Common.{
  any_of_find, find-append_left, ℕ, ◌+◌, ◌≤◌, ◌≡◌, ◌∙◌, refl, subst, inl, inr, Option, none, some,
  List, [], ◌∷◌, ◌++◌, true, false, arith, ◌==◌, ==_refl, find, any, if◌then◌else◌, Bool-cases,
  All-weaken, All-append, find-append, any-append_left, none_of_any,
}
use safeer_api.OrgChart.Guard.{TreeRow, has_row_id, check_parent, org_max_depth}
use safeer_api.OrgChart.Levels.{IsRow, IsRowOrTop, level_of, Placed, depth_of-level}
use safeer_api.OrgChart.Forest.{Forest, check_parent_new}

module _ (rows : List TreeRow) where
  module _ (new : TreeRow) (fresh : any (has_row_id new.id) rows ≡ false) where
    apart : (x : ℕ) → IsRow rows x → (x == new.id) ≡ false
    apart x h = elim (Bool-cases (x == new.id)) [
      | inr other ↦ other
      | inl same ↦
          let e : x ≡ new.id = ground (arith, same) in
          absurd (let old : any (has_row_id new.id) rows ≡ true = subst (IsRow rows) e h in cc)
    ]

    pub Forest-add :
        Forest rows → check_parent rows none new.parent_id ≡ none → Forest (rows ++ new ∷ [])
    Forest-add (level, placed) allowed = (
      level',
      All-append (Placed (rows ++ new ∷ []) level') rows (new ∷ [])
          (All-weaken (Placed rows level) (Placed (rows ++ new ∷ []) level') old rows placed)
          (last, tt),
    )
      where
        level' : ℕ → ℕ
        level' x = if x == new.id then level_of level new.parent_id + 1 else level x

        same_level : (x : ℕ) → IsRow rows x → level' x ≡ level x
        same_level x h = rw (apart x h)

        above_old :
            (at : Option ℕ) (l : ℕ)
            → IsRowOrTop rows at
            → l ≡ level_of level at + 1
            → IsRowOrTop (rows ++ new ∷ []) at × (l ≡ level_of level' at + 1)
        above_old none l t e = (tt, e)
        above_old (some p) l t e =
            (any-append_left (has_row_id p) rows (new ∷ []) t, omega (arith, e, same_level p t))

        old : (r : TreeRow) → Placed rows level r → Placed (rows ++ new ∷ []) level' r
        old r (found, low, there, step) =
            let me : level' r.id ≡ level r.id =
              same_level r.id (any_of_find (has_row_id r.id) rows r found) in
            let (up, next) = above_old r.parent_id (level r.id) there step in
            (find-append_left (has_row_id r.id) rows (new ∷ []) r found, omega arith, up, me ∙ next)

        found_new : find (has_row_id new.id) (rows ++ new ∷ []) ≡ some new
        found_new =
            find-append (has_row_id new.id) rows new (none_of_any (has_row_id new.id) rows fresh)
              (==_refl new.id)

        room :
            (at : Option ℕ)
            → check_parent rows none at ≡ none
            → IsRowOrTop rows at × (level_of level at + 1 ≤ org_max_depth)
        room none h = (tt, omega arith)
        room (some p) h =
            let (there, low) = check_parent_new rows p h in
            (there, omega (arith, depth_of-level rows level placed p there))

        mine : level' new.id ≡ level_of level new.parent_id + 1
        mine = rw (==_refl new.id) refl

        last : Placed (rows ++ new ∷ []) level' new
        last =
            let (there, low) = room new.parent_id allowed in
            let (up, next) =
              above_old new.parent_id (level_of level new.parent_id + 1) there refl in
            (found_new, rw mine low, up, mine ∙ next)
