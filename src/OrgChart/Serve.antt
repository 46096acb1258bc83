-- ===== src/OrgChart/Serve.antt =====
-- Sequences of the admin's requests on the chart.
use safeer_api.Common.{
  ℕ, suc, ◌≤◌, ◌≡◌, refl, subst, sym, Option, none, some, List, [], ◌∷◌, map, Bool, true, false,
  arith, any, ◌&&◌, zero, All, All-weaken, any_of_find,
}
use safeer_api.OrgChart.{
  OrgPosition, OrgDb, tree_row, lock_tree, CreateOrgPosition, UpdateOrgPosition, create_position,
  update_position, remove_position,
}
use safeer_api.OrgChart.Guard.{TreeRow, has_row_id, parent_of, org_max_depth}
use safeer_api.OrgChart.Levels.{IsRowOrTop, Placed, level_of, parent_level}
use safeer_api.OrgChart.Requests.{
  Consistent, create_position-Consistent, update_position-Consistent, remove_position-Consistent,
}

pub data OrgRequest : Type 0 where
  add : CreateOrgPosition → OrgRequest
  change : (text i : ℕ) → UpdateOrgPosition → OrgRequest
  drop : ℕ → OrgRequest

-- the id in the address of the request is written as the database writes it
abbrev pub IsPlain : OrgRequest → Type 0
IsPlain (add dto) = Unit
IsPlain (change text i dto) = text ≡ i
IsPlain (drop i) = Unit

unfoldable pub serve_position : OrgRequest → OrgDb → OrgDb
serve_position (add dto) db = (create_position dto db).1
serve_position (change text i dto) db = (update_position text i dto db).1
serve_position (drop i) db = (remove_position i db).1

unfoldable pub serve_positions : List OrgRequest → OrgDb → OrgDb
serve_positions [] db = db
serve_positions (r ∷ rs) db = serve_positions rs (serve_position r db)

-- the climb from a position ends at the top of the chart, within `k` positions that are all there
unfoldable pub climbs : List TreeRow → ℕ → Option ℕ → Bool
climbs rows k none = true
climbs rows zero (some x) = false
climbs rows (suc k) (some x) = any (has_row_id x) rows && climbs rows k (parent_of rows x)

serve_position-Consistent :
    (r : OrgRequest) (db : OrgDb) → IsPlain r → Consistent db → Consistent (serve_position r db)
unfolding serve_position
serve_position-Consistent (add dto) db plain c = create_position-Consistent dto db c
serve_position-Consistent (change text i dto) db plain c =
    subst (λ t. Consistent (update_position t i dto db).1) (sym plain)
      (update_position-Consistent i dto db c)
serve_position-Consistent (drop i) db plain c = remove_position-Consistent i db c

serve_positions-Consistent :
    (rs : List OrgRequest) (db : OrgDb)
    → All IsPlain rs
    → Consistent db
    → Consistent (serve_positions rs db)
unfolding serve_positions
serve_positions-Consistent [] db plain c = c
serve_positions-Consistent (r ∷ rs) db plain c =
    serve_positions-Consistent rs (serve_position r db) plain.1
      (serve_position-Consistent r db plain.0 c)

module _ (rows : List TreeRow) (level : ℕ → ℕ) (placed : All (Placed rows level) rows) where
  climbs_level :
      (k : ℕ) (at : Option ℕ) → IsRowOrTop rows at → level_of level at ≤ k → climbs rows k at ≡ true
  unfolding climbs
  climbs_level k none t h = refl
  climbs_level zero (some x) t h =
      absurd (let step = (parent_level rows level placed x t).1 in omega arith)
  climbs_level (suc k) (some x) t h =
      let (there, step, _) = parent_level rows level placed x t in
      ground (arith, t, climbs_level k (parent_of rows x) there (omega arith))

-- On a chart that is consistent, whatever positions are then added, changed, moved and removed, the
-- climb from each position ends at the top within five positions, all of them there, and so does the
-- climb from the position of each member who has one. The requests name a position by its id as the
-- database writes it.
pub serve_positions_climb :
    (rs : List OrgRequest) (db : OrgDb)
    → All IsPlain rs
    → Consistent db
    → All
        (λ p. climbs (lock_tree (serve_positions rs db)) org_max_depth (some p.id) ≡ true)
        (serve_positions rs db).positions
      × All
          (λ m. climbs (lock_tree (serve_positions rs db)) org_max_depth m.org_position_id ≡ true)
          (serve_positions rs db).members
serve_positions_climb rs db plain c = (
  rows_climb (serve_positions rs db).positions placed,
  All-weaken (λ m. IsRowOrTop rows m.org_position_id)
      (λ m. climbs rows org_max_depth m.org_position_id ≡ true)
      (λ m h.
        climbs_level rows level placed org_max_depth m.org_position_id h (low m.org_position_id h))
      (serve_positions rs db).members after.held,
)
  where
    after : Consistent (serve_positions rs db)
    after = serve_positions-Consistent rs db plain c

    rows : List TreeRow
    rows = lock_tree (serve_positions rs db)

    level : ℕ → ℕ
    level = after.forest.0

    placed : All (Placed rows level) rows
    placed = after.forest.1

    low : (at : Option ℕ) → IsRowOrTop rows at → level_of level at ≤ org_max_depth
    low none h = omega arith
    low (some x) h = (parent_level rows level placed x h).2

    rows_climb :
        (ps : List OrgPosition)
        → All (Placed rows level) (map tree_row ps)
        → All (λ p. climbs rows org_max_depth (some p.id) ≡ true) ps
    rows_climb [] h = tt
    rows_climb (p ∷ ps) h = (
      climbs_level rows level placed org_max_depth (some p.id)
          (any_of_find (has_row_id p.id) rows (tree_row p) h.0.0) h.0.1,
      rows_climb ps h.1,
    )
