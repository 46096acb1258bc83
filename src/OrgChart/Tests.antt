-- ===== src/OrgChart/Tests.antt =====
-- The theorems on the chart at small data.
use safeer_api.Common as Common
use safeer_api.OrgChart as OrgChart
use safeer_api.OrgChart.Guard as Guard
use safeer_api.Common.{
  ℕ, ◌+◌, ◌≡◌, ◌≢◌, ◌↔◌, refl, none, some, List, [], ◌∷◌, arith, true, false, ok, err, Option, All,
  problem, validation_failed, resource_in_use,
}
use safeer_api.OrgChart.{
  pos, OrgPosition, OrgDb, auto, CreateOrgPosition, UpdateOrgPosition, lock_tree, create_position,
  update_position, remove_position,
}
use safeer_api.OrgChart.Guard.{TreeRow, ancestor_walk, depth_walk, subtree_walk, parent_of, rounds}
use safeer_api.OrgChart.Walks.{walks_total}
use safeer_api.OrgChart.Siblings.{IsAfter, move_position-IsAfter}
use safeer_api.OrgChart.Requests.{Consistent}
use safeer_api.OrgChart.Chart.{build_org_forest}
use safeer_api.OrgChart.Chart.Stands.{stands}
use safeer_api.OrgChart.Chart.Shown.{shows, shows-build_org_forest}
use safeer_api.OrgChart.Serve.{add, change, drop, serve_positions, climbs, serve_positions_climb}

abbrev box : ℕ → Option ℕ → ℕ → OrgPosition
box i parent order = record {
  id = i;
  name_ar = "";
  name_en = none;
  parent_id = parent;
  tone = auto;
  show_holders = true;
  is_published = true;
  sort_order = pos order;
}

-- a director (1), a manager (2) and a clerk (3) who holds the lowest box
abbrev chart : OrgDb
chart = record {
  positions = box 1 none 0 ∷ box 2 (some 1) 0 ∷ box 3 (some 2) 4 ∷ [];
  next_id = 4;
  members = record { id = 7; name_ar = ""; name_en = none; org_position_id = some 3 } ∷ [];
}

chart-Consistent : Consistent chart
unfolding Common.find Common.any
chart-Consistent = record {
  forest = (
    (λ x. x),
    (
      (refl, omega arith, tt, refl),
      ((refl, omega arith, refl, refl), ((refl, omega arith, refl, refl), tt)),
    ),
  );
  numbered = omega arith;
  held = (refl, tt);
}

abbrev under : Option ℕ → UpdateOrgPosition
under parent = record {
  name_ar = none;
  name_en = none;
  parent_id = some parent;
  tone = none;
  show_holders = none;
  is_published = none;
  sort_order = none;
}

abbrev fresh_box : Option ℕ → CreateOrgPosition
fresh_box parent = record {
  name_ar = "";
  name_en = none;
  parent_id = some parent;
  tone = none;
  show_holders = none;
  is_published = none;
  sort_order = none;
}

-- the manager may not move below the clerk
move_below_self :
    (update_position 2 2 (under (some 3)) chart).0 ≡ err (problem 400 validation_failed)
unfolding update_position OrgChart.assert_parent Guard.check_parent Common.find Common.any
    Guard.is_descendant
move_below_self = refl

-- Under another spelling of its id (02, which is the text of no row) the manager moves below himself.
own_parent : (update_position 9 2 (under (some 2)) chart).0 ≡ ok (box 2 (some 2) 5)
unfolding update_position OrgChart.assert_parent Guard.check_parent Common.find Common.any
    Guard.is_descendant Guard.depth_of Guard.subtree_depth OrgChart.next_sort_order Common.select
own_parent = refl

remove_used : (remove_position 3 chart).0 ≡ err (problem 409 resource_in_use)
unfolding remove_position Common.find Common.any
remove_used = refl

serve_positions_climb_example :
    All
      (λ p.
        climbs
          (lock_tree (
            serve_positions
              (change 3 3 (under (some 1)) ∷ add (fresh_box (some 3)) ∷ drop 2 ∷ [])
              chart))
          5
          (some p.id)
        ≡ true)
      (serve_positions
        (change 3 3 (under (some 1)) ∷ add (fresh_box (some 3)) ∷ drop 2 ∷ [])
        chart).positions
    × All
        (λ m.
          climbs
            (lock_tree (
              serve_positions
                (change 3 3 (under (some 1)) ∷ add (fresh_box (some 3)) ∷ drop 2 ∷ [])
                chart))
            5
            m.org_position_id
          ≡ true)
        (serve_positions
          (change 3 3 (under (some 1)) ∷ add (fresh_box (some 3)) ∷ drop 2 ∷ [])
          chart).members
serve_positions_climb_example =
    serve_positions_climb (change 3 3 (under (some 1)) ∷ add (fresh_box (some 3)) ∷ drop 2 ∷ [])
      chart (refl, (tt, (tt, tt))) chart-Consistent

-- two positions that report to each other
abbrev ring : List TreeRow
ring = record { id = 1; parent_id = some 2 } ∷ record { id = 2; parent_id = some 1 } ∷ []

walks_total_example :
    (ancestor_walk ring (rounds ring) 5 [] (parent_of ring 1) ≢ none)
    × (depth_walk ring (rounds ring) [] 0 (some 1) ≢ none)
    × (subtree_walk ring (rounds ring) 1 [] ≢ none)
walks_total_example = walks_total ring 1 5

abbrev moved_clerk : OrgPosition
moved_clerk = record (box 3 (some 1) 4) { sort_order = pos 1 }

move_position-IsAfter_example : IsAfter (some 1) chart.positions (pos 1)
unfolding update_position Common.find Guard.check_parent Common.any OrgChart.next_sort_order
    Common.select
move_position-IsAfter_example =
    move_position-IsAfter 3 3 (under (some 1)) chart (box 3 (some 2) 4) moved_clerk refl refl refl
      refl

-- the manager (2) is not published, so the clerk (3) is not shown either
abbrev published : List OrgPosition
published = box 1 none 0 ∷ box 3 (some 2) 4 ∷ box 4 (some 1) 5 ∷ []

shows-build_org_forest_example :
    (shows 4 (build_org_forest published chart.members) ≡ true) ↔ (stands published 5 4 none ≡ true)
unfolding Common.find
shows-build_org_forest_example =
    shows-build_org_forest published chart.members 4 (refl, (refl, (refl, tt)))

shown_ids :
    (shows 1 (build_org_forest published chart.members) ≡ true)
    × (shows 4 (build_org_forest published chart.members) ≡ true)
    × (shows 3 (build_org_forest published chart.members) ≡ false)
unfolding shows build_org_forest Common.select Common.any
shown_ids = (refl, refl, refl)
