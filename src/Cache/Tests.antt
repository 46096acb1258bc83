-- ===== src/Cache/Tests.antt =====
-- The theorem on stale values at small data: a cache that holds one page.
use safeer_api.Common.{
  String, ◌≡◌, refl, none, some, List, [], ◌∷◌, Bool, true, false, Option, any, find, select,
  delete_where, str_eq,
}
use safeer_api.Cache.{TagStore, CacheState, set_cached, version_of}
use safeer_api.Cache.Versions.{read, purge_event, cache_events, set_cached_stale}

-- entries: a key, a value and its tags
abbrev Entry : Type 0
Entry = String × Bool × List String

abbrev value_of : Option Entry → Option Bool
value_of none = none
value_of (some (k, v, ts)) = some v

abbrev entry_tags : Option Entry → Option (List String)
entry_tags none = none
entry_tags (some (k, v, ts)) = some ts

abbrev has_key : String → Entry → Bool
has_key key (k, v, ts) = str_eq k key

abbrev entry_of : List Entry → List (String × List String)
entry_of [] = []
entry_of ((k, v, ts) ∷ es) = (k, ts) ∷ entry_of es

-- a store without a limit
abbrev lists : TagStore (List Entry) Bool
lists = record {
  get = λ key c. (value_of (find (has_key key) c), c);
  tags_of = λ key c. entry_tags (find (has_key key) c);
  set = λ key v ts c.
      ((key, v, ts) ∷ delete_where (has_key key) c, entry_of (select (has_key key) c));
  delete = λ key c.
      ((any (has_key key) c, delete_where (has_key key) c), entry_of (select (has_key key) c));
  clear = λ c. [];
}

abbrev news_cached : CacheState (List Entry) (List Entry)
news_cached = record {
  cache = ("/news", true, "news" ∷ []) ∷ [];
  memo = [];
  tag_index = ("news", "/news" ∷ []) ∷ [];
  tag_versions = ("news", 3) ∷ [];
  epoch = 0;
  hits = 0;
  misses = 0;
}

-- The news were edited while the page was built.
set_cached_stale_example :
    set_cached lists lists "/news" true
      ("news" ∷ [])
      (some (version_of lists lists ("news" ∷ []) news_cached))
      (cache_events lists lists (read "/home" ∷ purge_event "news" ∷ []) news_cached)
    ≡ (false, cache_events lists lists (read "/home" ∷ purge_event "news" ∷ []) news_cached)
unfolding any
set_cached_stale_example =
    set_cached_stale lists lists "/news" true ("news" ∷ []) (read "/home" ∷ purge_event "news" ∷ [])
      news_cached refl
