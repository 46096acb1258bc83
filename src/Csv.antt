-- ===== src/Csv.antt =====
-- The CSV exports: src/common/csv.ts.
pub mod Reader
pub mod Fields
pub mod RoundTrip
mod Tests
use Prim.Native.Char.{Char, code}
use Prim.Native.String.{◌++◌}
use safeer_api.Common.{
  ℕ, String, Option, none, some, List, [], ◌∷◌, map, Bool, true, false, ◌||◌, ◌==◌, if◌then◌else◌,
}

abbrev pub is_code : ℕ → Char → Bool
is_code n c = code c == n

-- = + - @, a tab or a carriage return
abbrev pub is_trigger : Char → Bool
is_trigger c =
    is_code 61 c || is_code 43 c || is_code 45 c || is_code 64 c || is_code 9 c || is_code 13 c

-- FORMULA_TRIGGER.test(raw)
unfoldable pub is_formula : String → Bool
is_formula String.[] = false
is_formula (String.◌∷◌ c s) = is_trigger c

-- what a character is to CSV
pub data CsvChar : Type 0 where
  quote comma carriage line other : CsvChar

abbrev pub kind : Char → CsvChar
kind c =
    if is_code 34 c
    then quote
    else if is_code 44 c
    then comma
    else if is_code 13 c
    then carriage
    else if is_code 10 c
    then line
    else other

abbrev pub is_special : CsvChar → Bool
is_special other = false
is_special _ = true

-- /[",\r\n]/.test(value)
unfoldable pub has_special : String → Bool
has_special String.[] = false
has_special (String.◌∷◌ c s) = is_special (kind c) || has_special s

abbrev pub double_if : CsvChar → Char → String → String
double_if quote c s = String.◌∷◌ c (String.◌∷◌ c s)
double_if _ c s = String.◌∷◌ c s

-- value.replace(/"/g, '""')
unfoldable pub double_quotes : String → String
double_quotes String.[] = ""
double_quotes (String.◌∷◌ c s) = double_if (kind c) c (double_quotes s)

-- the text that the cell shows
unfoldable pub shown_value : String → String
unfolding is_formula
shown_value raw = if is_formula raw then "'" ++ raw else raw

unfoldable pub escape_csv_field : String → String
unfolding is_formula has_special double_quotes shown_value
escape_csv_field raw =
    let value = shown_value raw in
    if is_formula raw || has_special value then "\"" ++ (double_quotes value ++ "\"") else value

-- `value` gives the text of a number or a Boolean, and `none` for null and undefined
pub record CsvColumn (A : Type 0) : Type 0 where
  pub header : String
  pub value : A → Option String

abbrev pub cell_to_string : Option String → String
cell_to_string none = ""
cell_to_string (some s) = s

unfoldable pub join : String → List String → String
join separator [] = ""
join separator (s ∷ []) = s
join separator (s ∷ t ∷ ts) = s ++ (separator ++ join separator (t ∷ ts))

module _ {A : Type 0} where
  abbrev pub header_line : List (CsvColumn A) → String
  header_line columns = join "," (map (λ c. escape_csv_field c.header) columns)

  abbrev pub row_line : List (CsvColumn A) → A → String
  row_line columns row =
      join "," (map (λ c. escape_csv_field (cell_to_string (c.value row))) columns)

  unfoldable pub to_csv : List A → List (CsvColumn A) → String
  unfolding escape_csv_field join
  to_csv rows columns = join "\r\n" (header_line columns ∷ map (row_line columns) rows)
