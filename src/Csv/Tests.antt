-- ===== src/Csv/Tests.antt =====
-- The theorem on exports at small data.
use safeer_api.Common.{String, ◌≡◌, refl, Option, some, none, List, [], ◌∷◌, false, All}
use safeer_api.Csv.{CsvColumn, is_formula, to_csv}
use safeer_api.Csv.Reader.{read_csv}
use safeer_api.Csv.RoundTrip.{shown_table, read_csv-to_csv}

abbrev email : CsvColumn (String × Option String)
email = record { header = "email"; value = λ r. some r.0 }

abbrev name : CsvColumn (String × Option String)
name = record { header = "name"; value = λ r. r.1 }

-- a formula, quotes and a comma, and a missing value
abbrev rows : List (String × Option String)
rows = ("=HYPERLINK(1)", some "A \"B\", C") ∷ ("a@b.c", none) ∷ []

exported :
    to_csv rows (email ∷ name ∷ [])
    ≡ "email,name\r\n\"'=HYPERLINK(1)\",\"A \"\"B\"\", C\"\r\na@b.c,"
unfolding to_csv
exported = refl

read_csv-to_csv_example :
    (read_csv (to_csv rows (email ∷ name ∷ [])) ≡ shown_table rows (email ∷ name ∷ []))
    × All (All (λ v. is_formula v ≡ false)) (read_csv (to_csv rows (email ∷ name ∷ [])))
read_csv-to_csv_example = read_csv-to_csv rows email (name ∷ [])

read_back :
    read_csv (to_csv rows (email ∷ name ∷ []))
    ≡ ("email" ∷ "name" ∷ []) ∷ ("'=HYPERLINK(1)" ∷ "A \"B\", C" ∷ []) ∷ ("a@b.c" ∷ "" ∷ []) ∷ []
unfolding read_csv to_csv
read_back = refl
