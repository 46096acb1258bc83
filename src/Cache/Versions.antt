-- ===== src/Cache/Versions.antt =====
-- A value that was read before a purge is not stored after it.
use safeer_api.Common.{
  ℕ, ◌+◌, ◌≤◌, String, ◌≡◌, refl, ◌∙◌, inl, inr, Option, none, some, List, [], ◌∷◌, Bool, true,
  false, arith, str_eq, eq_iff, if◌then◌else◌, any, map, Bool-cases,
}
use safeer_api.Cache.{
  TagStore, CacheState, Snapshot, same_numbers, same_snapshot, version, bump, version_of,
  get_cached, get_memo, set_cached, set_memo, purge_cached, purge_found, purge_keys, purge_key,
  clear_cached, keys_of,
}

version-bump :
    (t tag : String) (vs : List (String × ℕ))
    → version t (bump tag vs) ≡ (if str_eq tag t then version t vs + 1 else version t vs)
unfolding version bump
version-bump t tag [] = ground arith
version-bump t tag ((u, n) ∷ vs) =
    ground (arith, version-bump t tag vs, eq_iff u tag, eq_iff u t, eq_iff tag t)

total : List String → List (String × ℕ) → ℕ
total [] vs = 0
total (t ∷ ts) vs = version t vs + total ts vs

total-bump :
    (tag : String) (ts : List String) (vs : List (String × ℕ))
    → (if any (λ t. str_eq tag t) ts then 1 else 0) + total ts vs ≤ total ts (bump tag vs)
unfolding total any
total-bump tag [] vs = omega arith
total-bump tag (t ∷ ts) vs = ground (arith, version-bump t tag vs, total-bump tag ts vs)

total_of_same :
    (ts : List String) (vs ws : List (String × ℕ))
    → same_numbers (map (λ t. version t vs) ts) (map (λ t. version t ws) ts) ≡ true
    → total ts vs ≡ total ts ws
unfolding total
total_of_same [] vs ws h = refl
total_of_same (t ∷ ts) vs ws h = ground (arith, h, total_of_same ts vs ws)

-- what happens to the cache between the snapshot and the `set` of a request
pub data CacheEvent (V : Type 0) : Type 0 where
  read : String → CacheEvent V
  read_memo : String → CacheEvent V
  write : String → V → List String → Option Snapshot → CacheEvent V
  write_memo : String → Bool → List String → Option Snapshot → CacheEvent V
  purge_event : String → CacheEvent V
  clear_event : CacheEvent V

-- the event makes values under these tags old
abbrev pub invalidates : {V : Type 0} → List String → CacheEvent V → Bool
invalidates tags (purge_event tag) = any (λ t. str_eq tag t) tags
invalidates tags clear_event = true
invalidates tags _ = false

module _ {C M V : Type 0} (store : TagStore C V) (memos : TagStore M Bool) where
  pub cache_event : CacheEvent V → CacheState C M → CacheState C M
  cache_event (read key) s = (get_cached store memos key s).1
  cache_event (read_memo key) s = (get_memo store memos key s).1
  cache_event (write key value tags v) s = (set_cached store memos key value tags v s).1
  cache_event (write_memo key value tags v) s = (set_memo store memos key value tags v s).1
  cache_event (purge_event tag) s = (purge_cached store memos tag s).1
  cache_event clear_event s = clear_cached store memos s

  pub cache_events : List (CacheEvent V) → CacheState C M → CacheState C M
  cache_events [] s = s
  cache_events (e ∷ es) s = cache_events es (cache_event e s)

  -- how often values under these tags became old
  stamp : List String → CacheState C M → ℕ
  stamp tags s = s.epoch + total tags s.tag_versions

  SameVersions : CacheState C M → CacheState C M → Type 0
  SameVersions s t = (t.epoch ≡ s.epoch) × (t.tag_versions ≡ s.tag_versions)

  same-purge_key :
      (key : String) (r : ℕ × CacheState C M) → SameVersions r.1 (purge_key store memos key r).1
  unfolding SameVersions
  same-purge_key key (n, s) = (ground arith, ground arith)

  same-purge_keys :
      (keys : List String) (r : ℕ × CacheState C M)
      → SameVersions r.1 (purge_keys store memos keys r).1
  unfolding SameVersions
  same-purge_keys [] r = (refl, refl)
  same-purge_keys (key ∷ keys) r =
      let first = same-purge_key key r in
      let rest = same-purge_keys keys (purge_key store memos key r) in
      (rest.0 ∙ first.0, rest.1 ∙ first.1)

  same-purge_found :
      (tag : String) (keys : Option (List String)) (s : CacheState C M)
      → SameVersions s (purge_found store memos tag keys s).1
  unfolding SameVersions
  same-purge_found tag none s = (refl, refl)
  same-purge_found tag (some keys) s = same-purge_keys keys (0, s)

  -- a purge raises the version of its tag alone
  versions-purge :
      (tag : String) (s : CacheState C M)
      → ((purge_cached store memos tag s).1.epoch ≡ s.epoch)
        × ((purge_cached store memos tag s).1.tag_versions ≡ bump tag s.tag_versions)
  unfolding purge_cached SameVersions
  versions-purge tag s =
      same-purge_found tag (keys_of tag s.tag_index)
        (record s { tag_versions = bump tag s.tag_versions })

  stamp-cache_event :
      (tags : List String) (e : CacheEvent V) (s : CacheState C M)
      → (if invalidates tags e then 1 else 0) + stamp tags s ≤ stamp tags (cache_event e s)
  unfolding stamp cache_event get_cached get_memo set_cached set_memo clear_cached
  stamp-cache_event tags (read key) s = ground arith
  stamp-cache_event tags (read_memo key) s = ground arith
  stamp-cache_event tags (write key value ts v) s = ground arith
  stamp-cache_event tags (write_memo key value ts v) s = ground arith
  stamp-cache_event tags (purge_event tag) s =
      let kept = versions-purge tag s in
      rw (kept.0, kept.1) (let more = total-bump tag tags s.tag_versions in omega arith)
  stamp-cache_event tags clear_event s = omega arith

  stamp-cache_events :
      (tags : List String) (es : List (CacheEvent V)) (s : CacheState C M)
      → (if any (invalidates tags) es then 1 else 0) + stamp tags s ≤ stamp tags (cache_events es s)
  unfolding cache_events any
  stamp-cache_events tags [] s = omega arith
  stamp-cache_events tags (e ∷ es) s =
      let first = stamp-cache_event tags e s in
      let rest = stamp-cache_events tags es (cache_event e s) in ground (arith, first, rest)

  stamp_of_same :
      (tags : List String) (s t : CacheState C M)
      → same_snapshot (version_of store memos tags s) (version_of store memos tags t) ≡ true
      → stamp tags s ≡ stamp tags t
  unfolding stamp version_of
  stamp_of_same tags s t same =
      ground (arith, same, total_of_same tags s.tag_versions t.tag_versions)

  -- A value whose snapshot of versions was taken before a purge of one of its tags, or before the cache
  -- was cleared, is not stored afterwards, whatever else is read, stored and purged in between: `set`
  -- answers false and changes nothing.
  pub set_cached_stale :
      (key : String) (value : V) (tags : List String) (es : List (CacheEvent V))
      (s : CacheState C M)
      → any (invalidates tags) es ≡ true
      → set_cached store memos key value tags
          (some (version_of store memos tags s))
          (cache_events es s)
        ≡ (false, cache_events es s)
  unfolding set_cached
  set_cached_stale key value tags es s h =
      let t = cache_events es s in
      elim (Bool-cases
        (same_snapshot (version_of store memos tags s) (version_of store memos tags t))) [
          | inr other ↦ rw other
          | inl same ↦
              let equal = stamp_of_same tags s t same in
              let later = stamp-cache_events tags es s in absurd (ground (arith, equal, later, h))
        ]
