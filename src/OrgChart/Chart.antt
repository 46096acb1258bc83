-- ===== src/OrgChart/Chart.antt =====
-- The public chart: src/org-chart/public-org-chart.ts.
pub mod Stands
pub mod Shown
use safeer_api.Common.{
  ℕ, zero, suc, ◌+◌, String, Option, none, some, List, [], ◌∷◌, Bool, true, false, not, ◌&&◌, ◌||◌,
  ◌==◌, select, any, if◌then◌else◌,
}
use safeer_api.OrgChart.{OrgTone, OrgPosition, Holder, has_position_id}
use safeer_api.OrgChart.Guard.{is_at, org_max_depth}

pub data ResolvedTone : Type 0 where
  neutral sky green brand : ResolvedTone

-- AUTO_TONES, the last for every level from the fourth
abbrev pub auto_tone : ℕ → ResolvedTone
auto_tone depth =
    if depth == 0 then neutral else if depth == 1 then sky else if depth == 2 then green else brand

unfoldable pub resolve_tone : OrgTone → ℕ → ResolvedTone
resolve_tone OrgTone.auto depth = auto_tone depth
resolve_tone OrgTone.neutral depth = neutral
resolve_tone OrgTone.sky depth = sky
resolve_tone OrgTone.green depth = green
resolve_tone OrgTone.brand depth = brand

mutual
  -- the id, the two names, the tone, the holders and the children
  pub data PublicOrgNode : Type 0 where
    box : ℕ → String → Option String → ResolvedTone → List Holder → PublicOrgNodes → PublicOrgNode

  pub data PublicOrgNodes : Type 0 where
    nil : PublicOrgNodes
    cons : PublicOrgNode → PublicOrgNodes → PublicOrgNodes

abbrev pub is_hidden : List OrgPosition → OrgPosition → Bool
is_hidden positions p = elim p.parent_id [
  | none ↦ false
  | some x ↦ not (any (has_position_id x) positions)
]

-- children.get(parent) ?? []
abbrev pub children_of : List OrgPosition → Option ℕ → List OrgPosition
children_of positions parent =
    select (λ p. is_at p.parent_id parent && not (is_hidden positions p)) positions

abbrev pub holders_of : List Holder → OrgPosition → List Holder
holders_of members p =
    if p.show_holders then select (λ m. is_at m.org_position_id (some p.id)) members else []

module _ (members : List Holder) where
  unfoldable pub boxes : (ℕ → PublicOrgNodes) → ℕ → List OrgPosition → PublicOrgNodes
  unfolding resolve_tone
  boxes below depth [] = nil
  boxes below depth (p ∷ ps) =
      cons
        (box p.id p.name_ar p.name_en (resolve_tone p.tone depth) (holders_of members p)
          (below p.id))
        (boxes below depth ps)

  -- `levels` is what is left of ORG_MAX_DEPTH
  unfoldable pub build : List OrgPosition → ℕ → Option ℕ → ℕ → PublicOrgNodes
  unfolding boxes
  build positions zero parent depth = nil
  build positions (suc levels) parent depth =
      boxes (λ i. build positions levels (some i) (depth + 1)) depth (children_of positions parent)

-- The positions and the members are the published ones, in their order.
unfoldable pub build_org_forest : List OrgPosition → List Holder → PublicOrgNodes
unfolding build
build_org_forest positions members = build members positions org_max_depth none 0
