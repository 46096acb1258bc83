-- ===== src/Redirects.antt =====
-- The redirects table: src/redirects/ (the admin's rules and `resolve`) and the redirects that a
-- rename writes (`saveWithRedirect` and `clearRedirectsInto` of src/common/crud/crud.factory.ts).
pub mod Direct
mod Tests
pub mod Admin
pub mod Renames
pub mod Serve
use safeer_api.Common.{
  ℕ, ◌+◌, String, Option, none, some, List, [], ◌∷◌, ◌++◌, Bool, false, ◌&&◌, ◌||◌, not, ltb, ◌==◌,
  str_eq, find, any, select, length, delete_where, update_where, Exec, pure, gets, modify, require,
  refuse_if, ◌>>=◌, ◌>>◌, validation_failed, not_found, redirect_chain,
}

-- `created_at` is left out
pub record Redirect : Type 0 where
  pub id : ℕ
  pub from_path : String
  pub to_path : String
  pub status_code : ℕ
  pub hits : ℕ

pub record RedirectDb : Type 0 where
  pub rows : List Redirect
  pub next_id : ℕ

abbrev pub has_redirect_id : ℕ → Redirect → Bool
has_redirect_id i r = r.id == i

abbrev pub redirect : ℕ → String → String → ℕ → Redirect
redirect i from_path to_path status = record {
  id = i;
  from_path = from_path;
  to_path = to_path;
  status_code = status;
  hits = 0;
}

abbrev pub repoint : String → Redirect → Redirect
repoint path r = record r { to_path = path }

abbrev pub no_one : ℕ → Bool
no_one i = false

abbrev pub or_default : ℕ → Option ℕ → ℕ
or_default d none = d
or_default d (some n) = n

pub record RedirectEdit : Type 0 where
  pub from_path : Option String
  pub to_path : Option String
  pub status_code : Option ℕ

abbrev pub given : String → Option String → String
given old none = old
given old (some new) = new

abbrev pub edited_redirect : RedirectEdit → Redirect → Redirect
edited_redirect e r = record r {
  from_path = given r.from_path e.from_path;
  to_path = given r.to_path e.to_path;
  status_code = or_default r.status_code e.status_code;
}

unfoldable pub remove_redirect : ℕ → Exec RedirectDb Unit
remove_redirect i = do
  found ← gets (λ db. find (has_redirect_id i) db.rows)
  row ← require 404 not_found found
  modify (λ db. record db { rows = delete_where (has_redirect_id row.id) db.rows })

-- `key` gives the weights by which the database compares two texts (the collation utf8mb4_unicode_ci).
module _ (key : String → String) where
  abbrev same_text : String → String → Bool
  same_text a b = str_eq (key a) (key b)

  abbrev pub leads_from : String → Redirect → Bool
  leads_from path r = same_text r.from_path path

  abbrev pub leads_to : String → Redirect → Bool
  leads_to path r = same_text r.to_path path

  -- `path` is live: nothing leads away from it, and no rule leads to itself
  unfoldable pub clear_redirects_into : String → RedirectDb → RedirectDb
  clear_redirects_into path db = record db {
    rows = delete_where (λ r. leads_from path r || same_text r.from_path r.to_path) db.rows;
  }

  -- the three statements of a rename of a published row
  unfoldable pub redirect_rename : String → String → RedirectDb → RedirectDb
  redirect_rename from_path to_path db = record {
    rows =
        delete_where (leads_from from_path)
          (update_where (leads_to from_path) (repoint to_path) db.rows)
        ++ redirect db.next_id from_path to_path 301 ∷ [];
    next_id = db.next_id + 1;
  }

  -- GET /redirects/resolve: the counter of the rule is raised
  unfoldable pub resolve : String → Exec RedirectDb (String × ℕ)
  resolve path = do
    refuse_if (str_eq path "") 400 validation_failed
    found ← gets (λ db. find (leads_from path) db.rows)
    row ← require 404 not_found found
    modify (λ db. record db {
      rows = update_where (has_redirect_id row.id) (λ r. record r { hits = r.hits + 1 }) db.rows;
    })
    pure (row.to_path, row.status_code)

  -- the rules that a new or changed rule `from_path` → `to_path` may not meet; `self` is its own id
  abbrev pub is_conflict : (ℕ → Bool) → String → String → Redirect → Bool
  is_conflict is_self from_path to_path r =
      (leads_from to_path r || leads_to from_path r || leads_from from_path r) && not (is_self r.id)

  unfoldable pub assert_no_chain : (ℕ → Bool) → String → String → Exec RedirectDb Unit
  assert_no_chain is_self from_path to_path = do
    others ← gets (λ db. select (is_conflict is_self from_path to_path) db.rows)
    refuse_if (any (leads_from from_path) others) 409 redirect_chain
    refuse_if (ltb 0 (length others)) 409 redirect_chain

  -- The schema refuses equal paths. The kernel's `create` has no publish rule, image or path of its own
  -- for a redirect.
  unfoldable pub create_redirect : String → String → Option ℕ → Exec RedirectDb Redirect
  unfolding assert_no_chain
  create_redirect from_path to_path status = do
    refuse_if (str_eq from_path to_path) 400 validation_failed
    assert_no_chain no_one from_path to_path
    i ← gets (λ db. db.next_id)
    let row : Redirect = redirect i from_path to_path (or_default 301 status)
    modify (λ db. record { rows = db.rows ++ row ∷ []; next_id = i + 1 })
    pure row

  -- `plain`: the id of the address is written as the database writes it, with which the code compares it;
  -- a missing row passes the checks of the controller, and the kernel answers 404
  unfoldable pub update_redirect : Bool → ℕ → RedirectEdit → Exec RedirectDb Redirect
  unfolding assert_no_chain
  update_redirect plain i e = do
    found ← gets (λ db. find (has_redirect_id i) db.rows)
    current ← require 404 not_found found
    let new : Redirect = edited_redirect e current
    refuse_if (str_eq new.from_path new.to_path) 400 validation_failed
    assert_no_chain (λ j. plain && (j == i)) new.from_path new.to_path
    modify (λ db. record db { rows = update_where (has_redirect_id current.id) (λ _. new) db.rows })
    pure new
