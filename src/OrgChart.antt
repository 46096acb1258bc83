-- ===== src/OrgChart.antt =====
-- The organisation chart: src/org-chart/ (the write rules of tree-guard.ts and the admin's requests).
mod Order
pub mod Guard
pub mod Walks
pub mod Levels
pub mod Visits
pub mod Subtree
pub mod Forest
pub mod Adding
pub mod Moving
pub mod Removing
pub mod Locked
pub mod Requests
pub mod Serve
pub mod Siblings
pub mod Chart
mod Tests
pub use Order.*
use safeer_api.Common.{
  ℕ, suc, ◌+◌, String, Option, none, some, List, [], ◌∷◌, ◌++◌, map, Bool, true, false, not, ◌||◌,
  ◌==◌, ltb, length, find, any, select, delete_where, update_where, Exec, pure, gets, modify,
  require, refuse_if, ◌>>=◌, ◌>>◌, transaction, fail, validation_failed, not_found, resource_in_use,
  if◌then◌else◌,
}
use safeer_api.OrgChart.Guard.{TreeRow, is_at, TreeGuardError, has_row_id, check_parent}

pub data OrgTone : Type 0 where
  auto neutral sky green brand : OrgTone

-- the two time stamps are left out
pub record OrgPosition : Type 0 where
  pub id : ℕ
  pub name_ar : String
  pub name_en : Option String
  pub parent_id : Option ℕ
  pub tone : OrgTone
  pub show_holders : Bool
  pub is_published : Bool
  pub sort_order : ℤ

-- what a board member has to do with the chart
pub record Holder : Type 0 where
  pub id : ℕ
  pub name_ar : String
  pub name_en : Option String
  pub org_position_id : Option ℕ

pub record OrgDb : Type 0 where
  pub positions : List OrgPosition
  pub next_id : ℕ
  pub members : List Holder

abbrev pub has_position_id : ℕ → OrgPosition → Bool
has_position_id i p = p.id == i

abbrev pub tree_row : OrgPosition → TreeRow
tree_row p = record { id = p.id; parent_id = p.parent_id }

-- the rows come by their id, which no check depends on
abbrev pub lock_tree : OrgDb → List TreeRow
lock_tree db = map tree_row db.positions

-- `undefined` is `none`; `null` is `some none`. Ids are compared as texts: a text that is not the id of a
-- row as the database writes it (07) stands as a number that is no id.
pub record CreateOrgPosition : Type 0 where
  pub name_ar : String
  pub name_en : Option String
  pub parent_id : Option (Option ℕ)
  pub tone : Option OrgTone
  pub show_holders : Option Bool
  pub is_published : Option Bool
  pub sort_order : Option ℤ

pub record UpdateOrgPosition : Type 0 where
  pub name_ar : Option String
  pub name_en : Option (Option String)
  pub parent_id : Option (Option ℕ)
  pub tone : Option OrgTone
  pub show_holders : Option Bool
  pub is_published : Option Bool
  pub sort_order : Option ℤ

abbrev pub or_else {ℓ} : {A : Type ℓ} → A → Option A → A
or_else d none = d
or_else d (some a) = a

-- COALESCE(MAX(sort_order), -1) + 1 over the siblings
unfoldable pub next_sort_order : Option ℕ → List OrgPosition → ℤ
next_sort_order parent positions =
    succ (
      max_or (negsuc 0)
        (map (λ p. p.sort_order) (select (λ p. is_at p.parent_id parent) positions)))

abbrev pub refuse_parent : Option TreeGuardError → Exec OrgDb Unit
refuse_parent none = pure tt
refuse_parent (some error) = fail 400 validation_failed

unfoldable pub assert_parent : Option ℕ → Option ℕ → Exec OrgDb Unit
assert_parent id parent db = refuse_parent (check_parent (lock_tree db) id parent) db

-- the sort order of the request, or the place after the siblings
abbrev pub order_of : Option ℤ → Option ℕ → List OrgPosition → ℤ
order_of given parent positions = or_else (next_sort_order parent positions) given

abbrev pub new_position : ℕ → CreateOrgPosition → List OrgPosition → OrgPosition
new_position i dto positions =
    let parent : Option ℕ = or_else none dto.parent_id in
    record {
      id = i;
      name_ar = dto.name_ar;
      name_en = dto.name_en;
      parent_id = parent;
      tone = or_else auto dto.tone;
      show_holders = or_else true dto.show_holders;
      is_published = or_else true dto.is_published;
      sort_order = order_of dto.sort_order parent positions;
    }

unfoldable pub create_position : CreateOrgPosition → Exec OrgDb OrgPosition
unfolding assert_parent
create_position dto = transaction (do
  assert_parent none (or_else none dto.parent_id)
  db ← gets (λ db. db)
  let saved : OrgPosition = new_position db.next_id dto db.positions
  modify (λ db. record db { positions = db.positions ++ saved ∷ []; next_id = db.next_id + 1 })
  pure saved)

abbrev pub is_moving : OrgPosition → UpdateOrgPosition → Bool
is_moving current dto = elim dto.parent_id [
  | none ↦ false
  | some parent ↦ not (is_at parent current.parent_id)
]

abbrev pub edited_position : UpdateOrgPosition → OrgPosition → List OrgPosition → OrgPosition
edited_position dto p positions =
    let parent : Option ℕ = or_else p.parent_id dto.parent_id in
    record {
      id = p.id;
      name_ar = or_else p.name_ar dto.name_ar;
      name_en = or_else p.name_en dto.name_en;
      parent_id = parent;
      tone = or_else p.tone dto.tone;
      show_holders = or_else p.show_holders dto.show_holders;
      is_published = or_else p.is_published dto.is_published;
      sort_order =
          if is_moving p dto
          then order_of dto.sort_order parent positions
          else or_else p.sort_order dto.sort_order;
    }

abbrev pub assert_move : Bool → ℕ → Option ℕ → Exec OrgDb Unit
assert_move true i parent = assert_parent (some i) parent
assert_move false i parent = pure tt

-- `text` is the id of the address as the guard compares it, `i` the row that MySQL finds by it
unfoldable pub update_position : ℕ → ℕ → UpdateOrgPosition → Exec OrgDb OrgPosition
unfolding assert_parent
update_position text i dto = transaction (do
  found ← gets (λ db. find (has_position_id i) db.positions)
  current ← require 404 not_found found
  assert_move (is_moving current dto) text (or_else current.parent_id dto.parent_id)
  db ← gets (λ db. db)
  let saved : OrgPosition = edited_position dto current db.positions
  modify
      (λ db. record db { positions = update_where (has_position_id i) (λ _. saved) db.positions })
  pure saved)

-- what still points at the position: sub-positions and members
abbrev pub is_in_use : ℕ → OrgDb → Bool
is_in_use i db =
    any (λ p. is_at p.parent_id (some i)) db.positions
    || any (λ m. is_at m.org_position_id (some i)) db.members

unfoldable pub remove_position : ℕ → Exec OrgDb OrgPosition
remove_position i = transaction (do
  found ← gets (λ db. find (has_position_id i) db.positions)
  current ← require 404 not_found found
  used ← gets (is_in_use i)
  refuse_if used 409 resource_in_use
  modify (λ db. record db { positions = delete_where (has_position_id current.id) db.positions })
  pure current)
