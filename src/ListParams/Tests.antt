-- ===== src/ListParams/Tests.antt =====
-- The theorem on pages at a small query, and escaped values.
use safeer_api.Common.{◌≡◌, ◌≤◌, refl, String, Option, some, arith, [], false, ◌-◌, ◌*◌}
use safeer_api.OrgChart.{ℤ, pos}
use safeer_api.ListParams.{
  text, repeated, PageLimitOptions, read_page_limit, max_offset, read_page_limit_bounds,
  escape_like_value, like_literal, like_literal-escape_like_value,
}

-- every text is the number 500
abbrev always : String → Option ℤ
always s = some (pos 500)

abbrev twenty_of_two_hundred : PageLimitOptions
twenty_of_two_hundred = record { default_limit = 20; max_limit = 200 }

read_page_limit_bounds_example :
    (1 ≤ (read_page_limit always (text "500") (text "500") twenty_of_two_hundred).page)
    × (1 ≤ (read_page_limit always (text "500") (text "500") twenty_of_two_hundred).limit)
    × ((read_page_limit always (text "500") (text "500") twenty_of_two_hundred).limit ≤ 200)
    × ((read_page_limit always (text "500") (text "500") twenty_of_two_hundred).offset ≤ max_offset)
    × ((read_page_limit always (text "500") (text "500") twenty_of_two_hundred).beyond_max_offset
          ≡ false
        → (read_page_limit always (text "500") (text "500") twenty_of_two_hundred).offset
          ≡ ((read_page_limit always (text "500") (text "500") twenty_of_two_hundred).page - 1)
            * (read_page_limit always (text "500") (text "500") twenty_of_two_hundred).limit)
read_page_limit_bounds_example =
    read_page_limit_bounds always (text "500") (text "500") twenty_of_two_hundred (omega arith)

like_literal-escape_like_value_example :
    like_literal false (escape_like_value "50%_a") ≡ some "50%_a"
like_literal-escape_like_value_example = like_literal-escape_like_value "50%_a"

offset_of_repeated :
    (read_page_limit always (text "3") (repeated []) twenty_of_two_hundred).offset ≡ 9980
unfolding read_page_limit
offset_of_repeated = refl

escape_like_value_run : escape_like_value "a%" ≡ "a\\%"
unfolding escape_like_value
escape_like_value_run = refl
