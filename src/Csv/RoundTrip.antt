-- ===== src/Csv/RoundTrip.antt =====
-- The reader gets back what an export shows.
use Prim.Native.String.{◌++◌}
use text.Mathlib.TextLemmas.{cons-append, nil-append, append-nil, append_assoc}
use safeer_api.Common as Common
use safeer_api.Common.{
  String, ◌≡◌, ◌∙◌, refl, ap, sym, subst, inl, inr, ◌⊎◌, Option, none, some, List, [], ◌∷◌, map,
  Bool, true, false, not, ◌||◌, arith, if◌then◌else◌, Bool-cases, All,
}
use safeer_api.Csv.{
  is_formula, shown_value, escape_csv_field, join, CsvColumn, cell_to_string, to_csv,
}
use safeer_api.Csv.Reader.{start, closing, and_field, read_from, read_csv}
use safeer_api.Csv.Fields.{is_end, read-escape_csv_field}

-- after the text `t` of a row's end, the rows `next` follow
abbrev EndsRow : String → List (List String) → Type 0
EndsRow t next =
    (f : String) (row : List String) → read_from closing f row t ≡ and_field row f ∷ next

EndsRow-end : EndsRow "" []
unfolding read_from
EndsRow-end f row = refl

break-is_end : (text : String) → is_end ("\r\n" ++ text) ≡ true
break-is_end text = ap is_end (cons-append "\r" "\n" text)

EndsRow-break : (text : String) → EndsRow ("\r\n" ++ text) (read_from start "" [] text)
unfolding read_from
EndsRow-break text f row =
    ap (λ u. read_from closing f row u)
      (cons-append "\r" "\n" text
        ∙ ap (λ u. String.◌∷◌ "\r" u)
            (cons-append "\n" "" text ∙ ap (λ u. String.◌∷◌ "\n" u) (nil-append text)))

after_comma : (s : String) → "," ++ s ≡ String.◌∷◌ "," s
after_comma s = cons-append "," "" s ∙ ap (λ u. String.◌∷◌ "," u) (nil-append s)

comma_next :
    (f : String) (row : List String) (s : String)
    → read_from closing f row (String.◌∷◌ "," s) ≡ read_from start "" (and_field row f) s
unfolding read_from
comma_next f row s = refl

row_assoc :
    (row : List String) (v : String) (vs : List String)
    → Common.◌++◌ (and_field row v) vs ≡ Common.◌++◌ row (v ∷ vs)
row_assoc [] v vs = refl
row_assoc (w ∷ ws) v vs = ap (λ r. w ∷ r) (row_assoc ws v vs)

module _ {A : Type 0} where
  abbrev line_of : (A → String) → List A → String
  line_of g cs = join "," (map (λ c. escape_csv_field (g c)) cs)

  -- a row, before its end
  read_row :
      (g : A → String) (c : A) (cs : List A) (t : String) (next : List (List String))
      (row : List String)
      → is_end t ≡ true
      → EndsRow t next
      → read_from start "" row (line_of g (c ∷ cs) ++ t)
        ≡ Common.◌++◌ row (map (λ k. shown_value (g k)) (c ∷ cs)) ∷ next
  unfolding join
  read_row g c [] t next row h ends =
      read-escape_csv_field (g c) t row h ∙ ends (shown_value (g c)) row
  read_row g c (d ∷ ds) t next row h ends =
      let rest : String = line_of g (d ∷ ds) in
      let row' : List String = and_field row (shown_value (g c)) in
      ap (λ u. read_from start "" row u)
        (append_assoc (escape_csv_field (g c)) ("," ++ rest) t
          ∙ ap (λ u. escape_csv_field (g c) ++ u)
              (append_assoc "," rest t ∙ after_comma (rest ++ t)))
      ∙ read-escape_csv_field (g c) (String.◌∷◌ "," (rest ++ t)) row refl
      ∙ comma_next (shown_value (g c)) row (rest ++ t)
      ∙ read_row g d ds t next row' h ends
      ∙ ap (λ r. r ∷ next)
          (row_assoc row (shown_value (g c)) (map (λ k. shown_value (g k)) (d ∷ ds)))

  -- the lines of an export
  read_lines :
      {B : Type 0} (f : A → String) (g : B → A → String) (c : A) (cs : List A) (rows : List B)
      → read_from start "" []
          (join "\r\n" (line_of f (c ∷ cs) ∷ map (λ r. line_of (g r) (c ∷ cs)) rows))
        ≡ map (λ k. shown_value (f k)) (c ∷ cs)
          ∷ map (λ r. map (λ k. shown_value (g r k)) (c ∷ cs)) rows
  unfolding join
  read_lines f g c cs [] =
      ap (λ u. read_from start "" [] u) (sym (append-nil (line_of f (c ∷ cs))))
      ∙ read_row f c cs "" [] [] refl EndsRow-end
  read_lines f g c cs (r ∷ rs) =
      read_row f c cs _ _ []
        (break-is_end (join "\r\n" (line_of (g r) (c ∷ cs) ∷ map (λ q. line_of (g q) (c ∷ cs)) rs)))
        (EndsRow-break
          (join "\r\n" (line_of (g r) (c ∷ cs) ∷ map (λ q. line_of (g q) (c ∷ cs)) rs)))
      ∙ ap (λ next. map (λ k. shown_value (f k)) (c ∷ cs) ∷ next) (read_lines (g r) g c cs rs)

shown_value-safe : (raw : String) → is_formula (shown_value raw) ≡ false
unfolding shown_value is_formula
shown_value-safe raw = elim (Bool-cases (is_formula raw)) [
  | inl formula ↦ rw formula (ap is_formula (cons-append "'" "" raw))
  | inr plain_text ↦ rw plain_text plain_text
]

-- The cells that a spreadsheet shows: the texts of the values, each that would start a formula behind
-- a quotation mark.
abbrev pub shown_table : {A : Type 0} → List A → List (CsvColumn A) → List (List String)
shown_table rows columns =
    map (λ c. shown_value c.header) columns
    ∷ map (λ r. map (λ c. shown_value (cell_to_string (c.value r))) columns) rows

map_safe :
    {A : Type 0} (g : A → String) (xs : List A)
    → All (λ v. is_formula v ≡ false) (map (λ x. shown_value (g x)) xs)
map_safe g [] = tt
map_safe g (x ∷ xs) = (shown_value-safe (g x), map_safe g xs)

rows_safe :
    {A B : Type 0} (g : B → A → String) (cs : List A) (rs : List B)
    → All (All (λ v. is_formula v ≡ false)) (map (λ r. map (λ c. shown_value (g r c)) cs) rs)
rows_safe g cs [] = tt
rows_safe g cs (r ∷ rs) = (map_safe (g r) cs, rows_safe g cs rs)

-- A reader of CSV gets back from an export with one column or more the header and each value of each
-- row, whatever quotes, commas and line breaks they hold, and no cell that it gets starts a formula.
pub read_csv-to_csv :
    {A : Type 0} (rows : List A) (c : CsvColumn A) (cs : List (CsvColumn A))
    → (read_csv (to_csv rows (c ∷ cs)) ≡ shown_table rows (c ∷ cs))
      × All (All (λ v. is_formula v ≡ false)) (read_csv (to_csv rows (c ∷ cs)))
unfolding read_csv to_csv
read_csv-to_csv rows c cs =
    let same : read_from start "" [] (to_csv rows (c ∷ cs)) ≡ shown_table rows (c ∷ cs) =
      read_lines (λ k. k.header) (λ r k. cell_to_string (k.value r)) c cs rows in
    (
      same,
      subst (λ table. All (All (λ v. is_formula v ≡ false)) table) (sym same)
          (
            map_safe (λ k. k.header) (c ∷ cs),
            rows_safe (λ r k. cell_to_string (k.value r)) (c ∷ cs) rows,
          ),
    )
