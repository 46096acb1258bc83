-- ===== src/Cache.antt =====
-- The response cache: src/cache/cache.service.ts. `lru-cache` is a parameter: a call returns what it
-- disposed of, which the service takes out of its index of tags.

mod Tests
pub mod Versions
use safeer_api.Common.{
  ℕ, ◌+◌, String, Option, none, some, List, [], ◌∷◌, ◌++◌, Bool, true, false, ◌&&◌, not, ◌==◌,
  str_eq, if◌then◌else◌, find, any, delete_where, map,
}

-- keys and values of one store, with the tags of each entry
pub record TagStore (C V : Type 0) : Type 0 where
  pub get : String → C → Option V × C
  pub tags_of : String → C → Option (List String)
  pub set : String → V → List String → C → C × List (String × List String)
  pub delete : String → C → (Bool × C) × List (String × List String)
  pub clear : C → C

-- the index from a tag to its keys, and the versions, as association lists
pub record CacheState (C M : Type 0) : Type 0 where
  pub cache : C
  pub memo : M
  pub tag_index : List (String × List String)
  pub tag_versions : List (String × ℕ)
  pub epoch : ℕ
  pub hits : ℕ
  pub misses : ℕ

-- `epoch:v1,v2,…`, as the numbers that the text is made of
pub record Snapshot : Type 0 where
  pub epoch : ℕ
  pub versions : List ℕ

abbrev pub same_numbers : List ℕ → List ℕ → Bool
same_numbers [] [] = true
same_numbers (m ∷ ms) (n ∷ ns) = (m == n) && same_numbers ms ns
same_numbers _ _ = false

abbrev pub same_snapshot : Snapshot → Snapshot → Bool
same_snapshot a b = (a.epoch == b.epoch) && same_numbers a.versions b.versions

-- `tagVersions.get(t) ?? 0`
unfoldable pub version : String → List (String × ℕ) → ℕ
version tag [] = 0
version tag ((t, n) ∷ vs) = if str_eq t tag then n else version tag vs

unfoldable pub bump : String → List (String × ℕ) → List (String × ℕ)
bump tag [] = (tag, 1) ∷ []
bump tag ((t, n) ∷ vs) =
    let rest = bump tag vs in if str_eq t tag then (t, n + 1) ∷ vs else (t, n) ∷ rest

abbrev keys_of : String → List (String × List String) → Option (List String)
keys_of tag [] = none
keys_of tag ((t, ks) ∷ index) = if str_eq t tag then some ks else keys_of tag index

abbrev is_key : String → String → Bool
is_key key k = str_eq k key

abbrev add_key : String → List String → List String
add_key key ks = if any (is_key key) ks then ks else ks ++ key ∷ []

abbrev tag_one : String → String → List (String × List String) → List (String × List String)
tag_one key tag [] = (tag, key ∷ []) ∷ []
tag_one key tag ((t, ks) ∷ index) =
    let rest = tag_one key tag index in
    if str_eq t tag then (t, add_key key ks) ∷ index else (t, ks) ∷ rest

abbrev pub tag_key :
    String → List String → List (String × List String) → List (String × List String)
tag_key key [] index = index
tag_key key (tag ∷ tags) index = tag_key key tags (tag_one key tag index)

abbrev keep_tag : String → List String → List (String × List String) → List (String × List String)
keep_tag t [] index = index
keep_tag t (k ∷ ks) index = (t, k ∷ ks) ∷ index

abbrev untag_one : String → String → List (String × List String) → List (String × List String)
untag_one key tag [] = []
untag_one key tag ((t, ks) ∷ index) =
    let rest = untag_one key tag index in
    if str_eq t tag then keep_tag t (delete_where (is_key key) ks) index else (t, ks) ∷ rest

abbrev pub untag_key :
    String → List String → List (String × List String) → List (String × List String)
untag_key key [] index = index
untag_key key (tag ∷ tags) index = untag_key key tags (untag_one key tag index)

-- `dispose`, for each entry that a call threw out
abbrev pub dispose :
    List (String × List String) → List (String × List String) → List (String × List String)
dispose [] index = index
dispose ((key, tags) ∷ out) index = dispose out (untag_key key tags index)

abbrev pub untag_old :
    String → Option (List String) → List (String × List String) → List (String × List String)
untag_old key none index = index
untag_old key (some tags) index = untag_key key tags index

module _ {C M V : Type 0} (store : TagStore C V) (memos : TagStore M Bool) where
  unfoldable pub version_of : List String → CacheState C M → Snapshot
  version_of tags s = record {
    epoch = s.epoch;
    versions = map (λ t. version t s.tag_versions) tags;
  }

  abbrev pub is_stale : Option Snapshot → Snapshot → Bool
  is_stale none now = false
  is_stale (some before) now = not (same_snapshot before now)

  abbrev count_get : Option V × C → CacheState C M → Option V × CacheState C M
  count_get (none, c) s = (none, record s { cache = c; misses = s.misses + 1 })
  count_get (some v, c) s = (some v, record s { cache = c; hits = s.hits + 1 })

  unfoldable pub get_cached : String → CacheState C M → Option V × CacheState C M
  get_cached key s = count_get (store.get key s.cache) s

  unfoldable pub set_cached :
      String → V → List String → Option Snapshot → CacheState C M → Bool × CacheState C M
  unfolding version_of
  set_cached key value tags if_version s =
      if is_stale if_version (version_of tags s)
      then (false, s)
      else (let cleared = untag_old key (store.tags_of key s.cache) s.tag_index in
          let (c, out) = store.set key value tags s.cache in
          (true, record s { cache = c; tag_index = tag_key key tags (dispose out cleared) }))

  unfoldable pub get_memo : String → CacheState C M → Option Bool × CacheState C M
  get_memo key s = let (v, m) = memos.get key s.memo in (v, record s { memo = m })

  unfoldable pub set_memo :
      String → Bool → List String → Option Snapshot → CacheState C M → Bool × CacheState C M
  unfolding version_of
  set_memo key value tags if_version s =
      if is_stale if_version (version_of tags s)
      then (false, s)
      else (let cleared = untag_old key (memos.tags_of key s.memo) s.tag_index in
          let (c, out) = memos.set key value tags s.memo in
          (true, record s { memo = c; tag_index = tag_key key tags (dispose out cleared) }))

  abbrev purge_memo : String → CacheState C M → CacheState C M
  purge_memo key s =
      let ((gone, m), out) = memos.delete key s.memo in
      record s { memo = m; tag_index = dispose out s.tag_index }

  abbrev purge_key : String → ℕ × CacheState C M → ℕ × CacheState C M
  purge_key key (n, s) =
      let ((gone, c), out) = store.delete key s.cache in
      let t : CacheState C M = record s { cache = c; tag_index = dispose out s.tag_index } in
      if gone then (n + 1, t) else (n, purge_memo key t)

  abbrev purge_keys : List String → ℕ × CacheState C M → ℕ × CacheState C M
  purge_keys [] r = r
  purge_keys (key ∷ keys) r = purge_keys keys (purge_key key r)

  abbrev drop_tag : String → ℕ × CacheState C M → ℕ × CacheState C M
  drop_tag tag (n, s) = (n, record s { tag_index = delete_where (λ e. str_eq e.0 tag) s.tag_index })

  abbrev purge_found : String → Option (List String) → CacheState C M → ℕ × CacheState C M
  purge_found tag none s = (0, s)
  purge_found tag (some keys) s = drop_tag tag (purge_keys keys (0, s))

  unfoldable pub purge_cached : String → CacheState C M → ℕ × CacheState C M
  unfolding bump
  purge_cached tag s =
      purge_found tag (keys_of tag s.tag_index)
        (record s { tag_versions = bump tag s.tag_versions })

  unfoldable pub clear_cached : CacheState C M → CacheState C M
  clear_cached s = record s {
    epoch = s.epoch + 1;
    cache = store.clear s.cache;
    memo = memos.clear s.memo;
    tag_index = [];
  }
