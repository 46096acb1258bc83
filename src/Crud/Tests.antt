-- ===== src/Crud/Tests.antt =====
-- The theorems on the content kernel at a small collection.
use safeer_api.Common.{
  ℕ, String, ◌≡◌, refl, Option, none, some, [], ◌∷◌, Bool, true, false, str_eq, if◌then◌else◌, ok,
  Problem, publish_blocked, problem, find, any,
}
use safeer_api.Redirects.{redirect, resolve}
use safeer_api.Crud.{CrudOptions, CrudDb, Saved, update, update_action}
use safeer_api.Crud.Serve.{update_row, serve_row, Atomic, serve_row-Atomic}
use safeer_api.Crud.Paths.{PathMove, as_redirects, Allowed, serve_row_redirects, update-resolve}

record Post : Type 0 where
  id : ℕ
  slug : String
  title : String
  is_published : Bool
  sort_order : ℕ

-- the slug and the title of a request
abbrev PostInput : Type 0
PostInput = String × String

abbrev untitled : Option Problem
untitled = some (problem 409 publish_blocked)

abbrev posts : CrudOptions Post PostInput
posts = record {
  entity_type = "posts";
  extra_purge_tags = "home" ∷ [];
  id = λ e. e.id;
  slug = λ e. some e.slug;
  is_published = λ e. e.is_published;
  set_published = λ b e. record e { is_published = b };
  set_sort_order = λ n e. record e { sort_order = n };
  stored = λ e. e;
  weight = λ s. s;
  make = λ i d. record { id = i; slug = d.0; title = d.1; is_published = false; sort_order = 0 };
  assign = λ d e. record e { slug = d.0; title = d.1 };
  asset_ids = λ d. [];
  on_publish = λ e. e;
  publish_rules = λ e. if str_eq e.title "" then untitled else none;
  publish_warnings = none;
  redirect_from = some (λ e. some e.slug);
}

abbrev tide : Post
tide = record { id = 1; slug = "/tide"; title = "Tide"; is_published = true; sort_order = 0 }

abbrev blog : CrudDb Post
blog = record {
  rows = tide ∷ [];
  assets = [];
  redirects = record { rows = redirect 1 "/sea" "/tide" 301 ∷ []; next_id = 2 };
  journal = [];
  next_id = 2;
}

abbrev unused : Post → Bool
unused e = false

serve_row-Atomic_example :
    Atomic posts unused (serve_row posts unused (update_row 1 ("/wave", "Wave")) blog) blog
serve_row-Atomic_example = serve_row-Atomic posts unused (update_row 1 ("/wave", "Wave")) blog

serve_row_redirects_example :
    (m : Option PathMove) × ((serve_row posts unused
        (update_row 1 ("/wave", "Wave"))
        blog).1.redirects
      ≡ as_redirects (λ s. s) m blog.redirects)
    × Allowed posts (update_row 1 ("/wave", "Wave")) blog m
serve_row_redirects_example = serve_row_redirects posts unused (update_row 1 ("/wave", "Wave")) blog

abbrev saved : Saved Post
saved = record {
  row = record tide { slug = "/wave"; title = "Wave" };
  warnings = none;
  action = update_action;
}

-- The published page moves to /wave.
update-resolve_example :
    (resolve (λ s. s) "/tide" (update posts 1 ("/wave", "Wave") blog).1.redirects).0
    ≡ ok ("/wave", 301)
unfolding update find any
update-resolve_example =
    update-resolve posts 1 ("/wave", "Wave") blog tide saved "/tide" "/wave" refl refl refl refl
      refl refl refl refl
