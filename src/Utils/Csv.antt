-- ===== src/Utils/Csv.antt =====
-- `escapeCsv` of internal/web/static/modules/utils.js on texts, and a reader of such fields.
use serial_tcp_proxy.Prelude.{
  ℕ, ◌≡◌, refl, ap, sym, ◌∙◌, false, ◌||◌, List, [], ◌∷◌, ◌++◌, append_assoc, Text, includes,
  if◌then◌else◌, ◌==◌, ==_iff, inl, inr, Bool-cases, Lacks, arith,
}

-- `str.replace(/"/g, '""')`
unfoldable pub double_quotes : Text → Text
double_quotes [] = []
double_quotes (c ∷ s) =
    let rest = double_quotes s in if c == b'"' then b'"' ∷ b'"' ∷ rest else c ∷ rest

unfoldable pub escape_csv : Text → Text
unfolding includes double_quotes
escape_csv s =
    if includes s (b',' ∷ []) || (includes s (10 ∷ []) || includes s (b'"' ∷ []))
    then b'"' ∷ (double_quotes s ++ b'"' ∷ [])
    else s

-- Where a reader of comma separated rows stands: in front of a field, in one without quotes, in
-- one with quotes, and behind a quote in it.
pub data Place : Type 0 where
  front bare quoted behind_quote : Place

abbrev pub add_unit : ℕ → List (List Text) → List (List Text)
add_unit c ((f ∷ row) ∷ rows) = ((c ∷ f) ∷ row) ∷ rows
add_unit c rows = rows

abbrev pub new_field : List (List Text) → List (List Text)
new_field (row ∷ rows) = ([] ∷ row) ∷ rows
new_field rows = rows

abbrev pub new_row : List (List Text) → List (List Text)
new_row rows = ([] ∷ []) ∷ rows

-- The rows of a text, each a list of fields.
unfoldable pub read : Place → Text → List (List Text)
read place [] = ([] ∷ []) ∷ []
read quoted (c ∷ s) = if c == b'"' then read behind_quote s else add_unit c (read quoted s)
read front (c ∷ s) =
    if c == b'"'
    then read quoted s
    else if c == b','
    then new_field (read front s)
    else if c == 10
    then new_row (read front s)
    else add_unit c (read bare s)
read bare (c ∷ s) =
    if c == b','
    then new_field (read front s)
    else if c == 10
    then new_row (read front s)
    else add_unit c (read bare s)
read behind_quote (c ∷ s) =
    if c == b'"'
    then add_unit c (read quoted s)
    else if c == b','
    then new_field (read front s)
    else if c == 10
    then new_row (read front s)
    else add_unit c (read bare s)

-- A field in front of what is read behind it.
abbrev pub add_field : Text → List (List Text) → List (List Text)
add_field f ((g ∷ row) ∷ rows) = ((f ++ g) ∷ row) ∷ rows
add_field f rows = rows

add_unit-field :
    (c : ℕ) (f : Text) (rows : List (List Text))
    → add_unit c (add_field f rows) ≡ add_field (c ∷ f) rows
add_unit-field c f [] = refl
add_unit-field c f ([] ∷ rows) = refl
add_unit-field c f ((g ∷ row) ∷ rows) = refl

-- Behind a field stands the end, a comma or a new line.
pub data IsFieldEnd : Text → Type 0 where
  at_end : IsFieldEnd []
  at_comma : (s : Text) → IsFieldEnd (b',' ∷ s)
  at_line : (s : Text) → IsFieldEnd (10 ∷ s)

read-behind_quote : (rest : Text) → IsFieldEnd rest → read behind_quote rest ≡ read bare rest
unfolding read
read-behind_quote _ at_end = refl
read-behind_quote _ (at_comma s) = refl
read-behind_quote _ (at_line s) = refl

new_field-field : (rows : List (List Text)) → add_field [] (new_field rows) ≡ new_field rows
new_field-field [] = refl
new_field-field (row ∷ rows) = refl

add_field-nil : (rest : Text) → IsFieldEnd rest → add_field [] (read bare rest) ≡ read bare rest
unfolding read
add_field-nil _ at_end = refl
add_field-nil _ (at_comma s) = new_field-field (read front s)
add_field-nil _ (at_line s) = refl

read-quoted :
    (f rest : Text)
    → IsFieldEnd rest
    → read quoted (double_quotes f ++ b'"' ∷ rest) ≡ add_field f (read bare rest)
unfolding read double_quotes
read-quoted [] rest e = read-behind_quote rest e ∙ sym (add_field-nil rest e)
read-quoted (c ∷ f) rest e = elim (Bool-cases (c == b'"')) [
  | inl t ↦ rw t (
      ap (add_unit b'"') (read-quoted f rest e)
      ∙ add_unit-field b'"' f (read bare rest)
      ∙ ap (λ u. add_field (u ∷ f) (read bare rest)) (sym ((==_iff c b'"').0 t)))
  | inr n ↦
      rw n (rw n (ap (add_unit c) (read-quoted f rest e) ∙ add_unit-field c f (read bare rest)))
]

read-bare :
    (f rest : Text)
    → Lacks b',' f
    → Lacks 10 f
    → IsFieldEnd rest
    → read bare (f ++ rest) ≡ add_field f (read bare rest)
unfolding read
read-bare [] rest k l e = sym (add_field-nil rest e)
read-bare (c ∷ f) rest (k, ks) (l, ls) e =
    let no_comma : (c == b',') ≡ false = ground arith in
    let no_line : (c == 10) ≡ false = ground arith in
    rw no_comma (
      rw no_line (ap (add_unit c) (read-bare f rest ks ls e) ∙ add_unit-field c f (read bare rest)))

read-front :
    (f rest : Text)
    → Lacks b'"' f
    → IsFieldEnd rest
    → read front (f ++ rest) ≡ read bare (f ++ rest)
unfolding read
read-front [] _ q at_end = refl
read-front [] _ q (at_comma s) = refl
read-front [] _ q (at_line s) = refl
read-front (c ∷ f) rest (q, qs) e =
    let no_quote : (c == b'"') ≡ false = ground arith in rw no_quote refl

read-open : (s : Text) → read front (b'"' ∷ s) ≡ read quoted s
unfolding read
read-open s = refl

Lacks-unit : (s : Text) (c : ℕ) → includes s (c ∷ []) ≡ false → Lacks c s
unfolding includes
Lacks-unit [] c h = tt
Lacks-unit (x ∷ s) c h = (ground arith, Lacks-unit s c (ground arith))

-- What is written for a field is read as the field.
pub read-escape_csv :
    (f rest : Text)
    → IsFieldEnd rest
    → read front (escape_csv f ++ rest) ≡ add_field f (read bare rest)
unfolding escape_csv
read-escape_csv f rest e =
    elim (Bool-cases (includes f (b',' ∷ []) || (includes f (10 ∷ []) || includes f (b'"' ∷ [])))) [
      | inl t ↦
          rw (t, escape_csv)
            (read-open _
              ∙ ap (read quoted) (append_assoc (double_quotes f) (b'"' ∷ []) rest)
              ∙ read-quoted f rest e)
      | inr n ↦
          let comma = Lacks-unit f b',' (ground arith) in
          let line = Lacks-unit f 10 (ground arith) in
          let quote = Lacks-unit f b'"' (ground arith) in
          rw (n, escape_csv) (read-front f rest quote e ∙ read-bare f rest comma line e)
    ]
