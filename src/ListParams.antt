-- ===== src/ListParams.antt =====
-- What the list routes read from a query: src/common/query/list-params.ts.
mod Tests
use Prim.Native.Char.{Char, code}
use safeer_api.Common.{
  ℕ, ◌+◌, ◌-◌, ◌*◌, ◌≡◌, ◌≤◌, min, max, ◌∙◌, refl, ap, String, Option, none, some, List, Bool, true,
  false, ◌&&◌, ◌||◌, ◌==◌, ltb, leb, if◌then◌else◌, arith, Bool-cases, inl, inr,
}
use safeer_api.OrgChart.{ℤ, pos, negsuc}

-- what the query parser gives for a key: a text, or the list of a repeated key
pub data QueryValue : Type 0 where
  missing : QueryValue
  text : String → QueryValue
  repeated : List String → QueryValue

unfoldable pub as_string : QueryValue → Option String
as_string missing = none
as_string (text s) = some s
as_string (repeated ss) = none

abbrev pub max_offset : ℕ
max_offset = 20000

pub record PageLimitOptions : Type 0 where
  pub default_limit : ℕ
  pub max_limit : ℕ

pub record PageLimitResult : Type 0 where
  pub page : ℕ
  pub limit : ℕ
  pub offset : ℕ
  pub beyond_max_offset : Bool

-- Math.max(1, parsed || otherwise), where a text that is no number counts as 0
unfoldable pub at_least_one : Option ℤ → ℕ → ℕ
at_least_one none otherwise = max 1 otherwise
at_least_one (some (pos n)) otherwise = max 1 (if n == 0 then otherwise else n)
at_least_one (some (negsuc n)) otherwise = 1

-- The absent limit is printed and parsed again, which gives the default.
unfoldable pub parsed : (String → Option ℤ) → ℕ → Option String → Option ℤ
parsed parse_int otherwise none = some (pos otherwise)
parsed parse_int otherwise (some s) = parse_int s

unfoldable pub read_page_limit :
    (String → Option ℤ) → QueryValue → QueryValue → PageLimitOptions → PageLimitResult
unfolding as_string at_least_one parsed
read_page_limit parse_int page_raw limit_raw opts =
    let page = at_least_one (parsed parse_int 1 (as_string page_raw)) 1 in
    let limit = min opts.max_limit (
      at_least_one (parsed parse_int opts.default_limit (as_string limit_raw))
        opts.default_limit) in
    let raw_offset = (page - 1) * limit in
    record {
      page = page;
      limit = limit;
      offset = min raw_offset max_offset;
      beyond_max_offset = ltb max_offset raw_offset;
    }

-- a backslash, a percent sign or an underscore
abbrev pub is_like_special : Char → Bool
is_like_special c = code c == 92 || code c == 37 || code c == 95

unfoldable pub escape_like_value : String → String
escape_like_value String.[] = ""
escape_like_value (String.◌∷◌ c s) =
    let rest = escape_like_value s in
    if is_like_special c then String.◌∷◌ "\\" (String.◌∷◌ c rest) else String.◌∷◌ c rest

at_least_one_bound : (o : Option ℤ) (d : ℕ) → 1 ≤ at_least_one o d
unfolding at_least_one
at_least_one_bound none d = ground arith
at_least_one_bound (some (pos n)) d = ground arith
at_least_one_bound (some (negsuc n)) d = ground arith

-- A list route asks the database for a page and a limit of at least 1, a limit of at most the
-- route's, and an offset of at most 20000, which is exactly that of the page unless the result says
-- that the page lies beyond. The route's limit is at least 1.
pub read_page_limit_bounds :
    (parse_int : String → Option ℤ) (page_raw limit_raw : QueryValue) (opts : PageLimitOptions)
    → 1 ≤ opts.max_limit
    → (1 ≤ (read_page_limit parse_int page_raw limit_raw opts).page)
      × (1 ≤ (read_page_limit parse_int page_raw limit_raw opts).limit)
      × ((read_page_limit parse_int page_raw limit_raw opts).limit ≤ opts.max_limit)
      × ((read_page_limit parse_int page_raw limit_raw opts).offset ≤ max_offset)
      × ((read_page_limit parse_int page_raw limit_raw opts).beyond_max_offset ≡ false
          → (read_page_limit parse_int page_raw limit_raw opts).offset
            ≡ ((read_page_limit parse_int page_raw limit_raw opts).page - 1)
              * (read_page_limit parse_int page_raw limit_raw opts).limit)
unfolding read_page_limit
read_page_limit_bounds parse_int page_raw limit_raw opts h =
    let p = at_least_one_bound (parsed parse_int 1 (as_string page_raw)) 1 in
    let l =
      at_least_one_bound (parsed parse_int opts.default_limit (as_string limit_raw))
        opts.default_limit in
    (p, ground (arith, l, h), ground arith, ground arith, λ e. ground (arith, e))

abbrev put : Char → Option String → Option String
put c none = none
put c (some t) = some (String.◌∷◌ c t)

-- what a pattern of LIKE with the escape character \ stands for that has no wildcard % or _ of its own
unfoldable pub like_literal : Bool → String → Option String
like_literal escaped String.[] = if escaped then none else some ""
like_literal escaped (String.◌∷◌ c s) =
    let after = like_literal true s in
    let rest = like_literal false s in
    if escaped
    then put c rest
    else if code c == 92
    then after
    else if code c == 37
    then none
    else if code c == 95
    then none
    else put c rest

-- Whatever is searched for, the escaped value is a pattern without a wildcard that stands for exactly
-- that value.
pub like_literal-escape_like_value :
    (value : String) → like_literal false (escape_like_value value) ≡ some value
unfolding like_literal escape_like_value
like_literal-escape_like_value String.[] = refl
like_literal-escape_like_value (String.◌∷◌ c s) =
    let ih : like_literal false (escape_like_value s) ≡ some s = like_literal-escape_like_value s in
    elim (Bool-cases (is_like_special c)) [
      | inl e ↦ rw (e, like_literal, ih) refl
      | inr e ↦
          let plain : (code c == 92) ≡ false = ground (arith, e) in
          let no_percent : (code c == 37) ≡ false = ground (arith, e) in
          let no_underscore : (code c == 95) ≡ false = ground (arith, e) in
          rw (e, like_literal, plain, no_percent, no_underscore, ih) refl
    ]
