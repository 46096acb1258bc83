-- ===== src/Csv/Reader.antt =====
-- A reader of CSV (RFC 4180), as an independent account of what an export says: fields between commas,
-- rows between line breaks, and quoted fields in which a quote is doubled.
use Prim.Native.Char.{Char}
use Prim.Native.String.{◌++◌}
use safeer_api.Common as Common
use safeer_api.Common.{String, List, [], ◌∷◌}
use safeer_api.Csv.{quote, comma, carriage, line, other, kind}

-- before a field, in a plain one, in quotes, and after a quote within quotes
pub data Mode : Type 0 where
  start plain quoted closing : Mode

abbrev pub and_field : List String → String → List String
and_field row field = Common.◌++◌ row (field ∷ [])

abbrev pub and_char : String → Char → String
and_char s c = s ++ String.◌∷◌ c ""

-- the mode, the field and the row so far, and the text left
unfoldable pub read_from : Mode → String → List String → String → List (List String)
read_from mode field row String.[] = and_field row field ∷ []
read_from quoted field row (String.◌∷◌ c s) = elim (kind c) [
  | quote ↦ read_from closing field row s
  | _ ↦ read_from quoted (and_char field c) row s
]
read_from start field row (String.◌∷◌ c s) = elim (kind c) [
  | quote ↦ read_from quoted field row s
  | comma ↦ read_from start "" (and_field row field) s
  | carriage ↦ read_from plain field row s
  | line ↦ and_field row field ∷ read_from start "" [] s
  | other ↦ read_from plain (and_char field c) row s
]
read_from closing field row (String.◌∷◌ c s) = elim (kind c) [
  | quote ↦ read_from quoted (and_char field c) row s
  | comma ↦ read_from start "" (and_field row field) s
  | carriage ↦ read_from plain field row s
  | line ↦ and_field row field ∷ read_from start "" [] s
  | other ↦ read_from plain (and_char field c) row s
]
read_from plain field row (String.◌∷◌ c s) = elim (kind c) [
  | quote ↦ read_from plain (and_char field c) row s
  | comma ↦ read_from start "" (and_field row field) s
  | carriage ↦ read_from plain field row s
  | line ↦ and_field row field ∷ read_from start "" [] s
  | other ↦ read_from plain (and_char field c) row s
]

unfoldable pub read_csv : String → List (List String)
unfolding read_from
read_csv text = read_from start "" [] text
