-- ===== src/Csv/Fields.antt =====
-- The reader gets back each exported field.
use Prim.Native.Char.{Char}
use Prim.Native.String.{◌++◌}
use text.Mathlib.TextLemmas.{cons-append, nil-append, append-nil, append_assoc}
use safeer_api.Common.{
  String, ◌≡◌, ◌∙◌, refl, ap, inl, inr, ◌⊎◌, List, Bool, true, false, ◌||◌, arith, Bool-cases,
}
use safeer_api.Csv.{
  CsvChar, quote, comma, carriage, line, other, kind, is_special, is_formula, has_special,
  double_quotes, double_if, shown_value, escape_csv_field,
}
use safeer_api.Csv.Reader.{start, plain, quoted, closing, and_char, read_from}

abbrev is_quote : CsvChar → Bool
is_quote quote = true
is_quote _ = false

abbrev pub is_stop : CsvChar → Bool
is_stop comma = true
is_stop carriage = true
is_stop _ = false

-- the text is at its end, or at the end of a field
abbrev pub is_end : String → Bool
is_end String.[] = true
is_end (String.◌∷◌ c s) = is_stop (kind c)

of_is_quote : (k : CsvChar) → is_quote k ≡ true → k ≡ quote
of_is_quote quote h = refl
of_is_quote comma h = cc
of_is_quote carriage h = cc
of_is_quote line h = cc
of_is_quote other h = cc

of_is_stop : (k : CsvChar) → is_stop k ≡ true → (k ≡ comma) ⊎ (k ≡ carriage)
of_is_stop quote h = cc
of_is_stop comma h = inl refl
of_is_stop carriage h = inr refl
of_is_stop line h = cc
of_is_stop other h = cc

of_not_special : (k : CsvChar) → is_special k ≡ false → k ≡ other
of_not_special quote h = cc
of_not_special comma h = cc
of_not_special carriage h = cc
of_not_special line h = cc
of_not_special other h = refl

snoc-append : (f : String) (c : Char) (s : String) → and_char f c ++ s ≡ f ++ String.◌∷◌ c s
snoc-append f c s =
    append_assoc f (String.◌∷◌ c "") s
    ∙ ap (λ t. f ++ t) (cons-append c "" s ∙ ap (λ t. String.◌∷◌ c t) (nil-append s))

stop_closes :
    (f : String) (row : List String) (t : String)
    → is_end t ≡ true
    → (read_from start f row t ≡ read_from closing f row t)
      × (read_from plain f row t ≡ read_from closing f row t)
unfolding read_from
stop_closes f row String.[] h = (refl, refl)
stop_closes f row (String.◌∷◌ c s) h = elim (of_is_stop (kind c) h) [
  | inl e ↦ (rw (e, read_from) refl, rw (e, read_from) refl)
  | inr e ↦ (rw (e, read_from) refl, rw (e, read_from) refl)
]

plain_run :
    (s t f : String) (row : List String)
    → has_special s ≡ false
    → read_from plain f row (s ++ t) ≡ read_from plain (f ++ s) row t
unfolding read_from has_special
plain_run String.[] t f row h = rw (nil-append t, append-nil f) refl
plain_run (String.◌∷◌ c s) t f row h =
    let k : kind c ≡ other = of_not_special (kind c) (ground (arith, h)) in
    rw (cons-append c s t, k, read_from)
      (plain_run s t (and_char f c) row (ground (arith, h))
        ∙ ap (λ g. read_from plain g row t) (snoc-append f c s))

quoted_char :
    {A : Type 0} (k : CsvChar) (x y : A) → is_quote k ≡ false → (elim k [ quote ↦ x | _ ↦ y ]) ≡ y
quoted_char quote x y h = cc
quoted_char comma x y h = refl
quoted_char carriage x y h = refl
quoted_char line x y h = refl
quoted_char other x y h = refl

double_plain :
    (c : Char) (s : String)
    → is_quote (kind c) ≡ false
    → double_quotes (String.◌∷◌ c s) ≡ String.◌∷◌ c (double_quotes s)
unfolding double_quotes
double_plain c s h = doubled (kind c) h
  where
    doubled :
        (k : CsvChar)
        → is_quote k ≡ false
        → double_if k c (double_quotes s) ≡ String.◌∷◌ c (double_quotes s)
    doubled quote e = cc
    doubled comma e = refl
    doubled carriage e = refl
    doubled line e = refl
    doubled other e = refl

module _ (f : String) (row : List String) (c : Char) (s : String) (k : kind c ≡ quote) where
  quoted_quote : read_from quoted f row (String.◌∷◌ c s) ≡ read_from closing f row s
  unfolding read_from
  quoted_quote = rw (k, read_from) refl

  closing_quote : read_from closing f row (String.◌∷◌ c s) ≡ read_from quoted (and_char f c) row s
  unfolding read_from
  closing_quote = rw (k, read_from) refl

-- a quote within quotes, written in the export
quote_first :
    (t f : String) (row : List String)
    → read_from quoted f row ("\"" ++ t) ≡ read_from closing f row t
unfolding read_from
quote_first t f row =
    ap (λ u. read_from quoted f row u)
      (cons-append "\"" "" t ∙ ap (λ u. String.◌∷◌ "\"" u) (nil-append t))

quoted_run :
    (s t f : String) (row : List String)
    → read_from quoted f row (double_quotes s ++ ("\"" ++ t)) ≡ read_from closing (f ++ s) row t
unfolding read_from double_quotes
quoted_run String.[] t f row = rw (nil-append ("\"" ++ t), append-nil f) (quote_first t f row)
quoted_run (String.◌∷◌ c s) t f row = elim (Bool-cases (is_quote (kind c))) [
  | inl h ↦
      let k : kind c ≡ quote = of_is_quote (kind c) h in
      let left : String = double_quotes s ++ ("\"" ++ t) in
      let text : double_if (kind c) c (double_quotes s) ++ ("\"" ++ t)
          ≡ String.◌∷◌ c (String.◌∷◌ c left) =
        rw k (
          cons-append c (String.◌∷◌ c (double_quotes s)) ("\"" ++ t)
          ∙ ap (λ u. String.◌∷◌ c u) (cons-append c (double_quotes s) ("\"" ++ t))) in
      ap (λ u. read_from quoted f row u) text
      ∙ quoted_quote f row c (String.◌∷◌ c left) k
      ∙ closing_quote f row c left k
      ∙ quoted_run s t (and_char f c) row
      ∙ ap (λ g. read_from closing g row t) (snoc-append f c s)
  | inr h ↦
      rw (double_plain c s h, cons-append c (double_quotes s) ("\"" ++ t))
        (quoted_char (kind c) _ _ h
          ∙ quoted_run s t (and_char f c) row
          ∙ ap (λ g. read_from closing g row t) (snoc-append f c s))
]

-- a field in quotes
read_quoted :
    (v t : String) (row : List String)
    → read_from start "" row (("\"" ++ (double_quotes v ++ "\"")) ++ t) ≡ read_from closing v row t
unfolding read_from
read_quoted v t row =
    ap (λ u. read_from start "" row u) text
    ∙ quoted_run v t "" row
    ∙ ap (λ g. read_from closing g row t) (nil-append v)
  where
    text :
        ("\"" ++ (double_quotes v ++ "\"")) ++ t ≡ String.◌∷◌ "\"" (double_quotes v ++ ("\"" ++ t))
    text =
        ap (λ u. u ++ t)
          (cons-append "\"" "" (double_quotes v ++ "\"")
            ∙ ap (λ u. String.◌∷◌ "\"" u) (nil-append (double_quotes v ++ "\"")))
        ∙ cons-append "\"" (double_quotes v ++ "\"") t
        ∙ ap (λ u. String.◌∷◌ "\"" u) (append_assoc (double_quotes v) "\"" t)

start_other :
    (row : List String) (c : Char) (s : String)
    → kind c ≡ other
    → read_from start "" row (String.◌∷◌ c s) ≡ read_from plain (and_char "" c) row s
unfolding read_from
start_other row c s k = rw (k, read_from) refl

-- a field as it is
read_bare :
    (v t : String) (row : List String)
    → is_end t ≡ true
    → has_special v ≡ false
    → read_from start "" row (v ++ t) ≡ read_from closing v row t
unfolding has_special
read_bare String.[] t row h e =
    ap (λ u. read_from start "" row u) (nil-append t) ∙ (stop_closes "" row t h).0
read_bare (String.◌∷◌ c s) t row h e =
    let k : kind c ≡ other = of_not_special (kind c) (ground (arith, e)) in
    ap (λ u. read_from start "" row u) (cons-append c s t)
    ∙ start_other row c (s ++ t) k
    ∙ plain_run s t (and_char "" c) row (ground (arith, e))
    ∙ ap (λ g. read_from plain g row t) (snoc-append "" c s ∙ nil-append (String.◌∷◌ c s))
    ∙ (stop_closes (String.◌∷◌ c s) row t h).1

-- an exported field, before the end of a field
pub read-escape_csv_field :
    (raw t : String) (row : List String)
    → is_end t ≡ true
    → read_from start "" row (escape_csv_field raw ++ t) ≡ read_from closing (shown_value raw) row t
unfolding escape_csv_field
read-escape_csv_field raw t row h =
    elim (Bool-cases (is_formula raw || has_special (shown_value raw))) [
      | inl quotes ↦ rw quotes (read_quoted (shown_value raw) t row)
      | inr bare ↦ rw bare (read_bare (shown_value raw) t row h (ground (arith, bare)))
    ]
