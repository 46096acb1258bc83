-- ===== src/Redirects/Tests.antt =====
-- The theorems on redirects at small data.
use safeer_api.Common as Common
use safeer_api.Redirects as Redirects
use safeer_api.Common.{
  ℕ, ◌≡◌, refl, none, some, [], ◌∷◌, ok, err, String, true, str_eq, ◌⊎◌, if◌then◌else◌, Problem,
  find, any,
}
use safeer_api.Redirects.{RedirectDb, redirect, redirect_rename, clear_redirects_into, resolve}
use safeer_api.Redirects.Serve.{
  rename, add, visit, serve_redirects, serve_redirects_one_hop, serve_redirect,
}

-- an old address of the page /tide
abbrev table : RedirectDb
table = record { rows = redirect 1 "/sea" "/tide" 302 ∷ []; next_id = 2 }

-- a collation of which every text is its own weight
abbrev binary : String → String
binary s = s

-- The page moves to /wave, and an admin's rule into a moved page is refused.
serve_redirects_one_hop_example :
    ((e : Problem) × ((resolve binary "/wave" (
          serve_redirects binary
            (rename "/tide" "/wave" ∷ add "/old" "/sea" none ∷ visit "/sea" ∷ [])
            table)).0
        ≡ err e))
    ⊎ (str_eq "/sea" "/wave" ≡ true)
unfolding serve_redirects serve_redirect redirect_rename clear_redirects_into
    Redirects.create_redirect resolve Common.select Common.delete_where find any Common.update_where
serve_redirects_one_hop_example =
    serve_redirects_one_hop binary
      (rename "/tide" "/wave" ∷ add "/old" "/sea" none ∷ visit "/sea" ∷ []) table "/sea" "/wave" 302
      (refl, tt) refl

-- two spellings of /a that the collation takes for one
abbrev folded : String → String
folded s = if str_eq s "/A" then "/a" else s

abbrev empty_table : RedirectDb
empty_table = record { rows = []; next_id = 1 }

-- An admin's rule from /a to /A passes every check, and is followed for ever.
rule_to_itself :
    (resolve folded "/A" (serve_redirects folded (add "/a" "/A" none ∷ []) empty_table)).0
    ≡ ok ("/A", 301)
unfolding serve_redirects serve_redirect Redirects.create_redirect resolve find any Common.select
rule_to_itself = refl
