-- ===== src/Export/RoundTrip.antt =====
-- The text of internal/web/static/modules/export.js before a reader of rows.
use mathlib.Core.List.{map-map}
use serial_tcp_proxy.Prelude.{
  ◌≡◌, ◌≢◌, refl, ap, sym, ◌∙◌, Bool, some, List, [], ◌∷◌, ◌++◌, append_assoc, append-nil, Text,
  join, map,
}
use serial_tcp_proxy.Filter.{Packet}
use serial_tcp_proxy.Utils.Csv.{
  escape_csv, front, bare, add_field, new_field, read, IsFieldEnd, at_end, at_comma, at_line,
  read-escape_csv,
}
use serial_tcp_proxy.Export.{
  Column, field, visible_columns, export_row, export_head, export_body, export_packets,
}

-- The end of a row: what the reader makes of it behind a field.
data IsRowEnd : Text → List (List Text) → Type 0 where
  last : IsRowEnd [] []
  next : (s : Text) → IsRowEnd (10 ∷ s) (read front s)

field_end : (rest : Text) (rows : List (List Text)) → IsRowEnd rest rows → IsFieldEnd rest
field_end _ _ last = at_end
field_end _ _ (next s) = at_line s

row_end :
    (rest : Text) (rows : List (List Text)) → IsRowEnd rest rows → read bare rest ≡ ([] ∷ []) ∷ rows
unfolding read
row_end _ _ last = refl
row_end _ _ (next s) = refl

read-comma : (s : Text) → read bare (b',' ∷ s) ≡ new_field (read front s)
unfolding read
read-comma s = refl

-- The fields of a row, escaped and joined, are read as the row.
read-row :
    (f : Text) (fs : List Text) (rest : Text) (rows : List (List Text))
    → IsRowEnd rest rows
    → read front (join b',' (map escape_csv (f ∷ fs)) ++ rest) ≡ (f ∷ fs) ∷ rows
unfolding join
read-row f [] rest rows e =
    read-escape_csv f rest (field_end rest rows e)
    ∙ ap (add_field f) (row_end rest rows e)
    ∙ ap (λ g. (g ∷ []) ∷ rows) (append-nil f)
read-row f (g ∷ fs) rest rows e =
    ap (read front) (append_assoc (escape_csv f) (b',' ∷ join b',' (map escape_csv (g ∷ fs))) rest)
    ∙ read-escape_csv f _ (at_comma _)
    ∙ ap (add_field f) (read-comma _ ∙ ap new_field (read-row g fs rest rows e))
    ∙ ap (λ h. (h ∷ g ∷ fs) ∷ rows) (append-nil f)

-- The table: a row for each packet, with its field in each column.
abbrev pub table : List Column → List Packet → List (List Text)
table columns = map (λ p. map (field p) columns)

escaped_row :
    (columns : List Column) (p : Packet)
    → export_row columns p ≡ join b',' (map escape_csv (map (field p) columns))
unfolding export_row
escaped_row columns p = ap (join b',') (sym (map-map escape_csv (field p) columns))

read-export_row :
    (c : Column) (cs : List Column) (p : Packet) (rest : Text) (rows : List (List Text))
    → IsRowEnd rest rows
    → read front (export_row (c ∷ cs) p ++ rest) ≡ map (field p) (c ∷ cs) ∷ rows
read-export_row c cs p rest rows e =
    ap (λ s. read front (s ++ rest)) (escaped_row (c ∷ cs) p)
    ∙ read-row (field p c) (map (field p) cs) rest rows e

read-export_body :
    (c : Column) (cs : List Column) (p : Packet) (ps : List Packet)
    → read front (export_body (c ∷ cs) (p ∷ ps)) ≡ table (c ∷ cs) (p ∷ ps)
unfolding export_body join
read-export_body c cs p [] =
    ap (read front) (sym (append-nil (export_row (c ∷ cs) p))) ∙ read-export_row c cs p [] [] last
read-export_body c cs p (q ∷ ps) =
    read-export_row c cs p _ _ (next _)
    ∙ ap (◌∷◌ (map (field p) (c ∷ cs))) (read-export_body c cs q ps)

export_filled :
    (hidden : Column → Bool) (p : Packet) (ps : List Packet) (columns : List Column)
    → visible_columns hidden ≡ columns
    → columns ≢ []
    → (export_packets hidden (p ∷ ps)
        ≡ some (export_head columns (p ∷ ps) ++ export_body columns (p ∷ ps)))
      × (read front (export_body columns (p ∷ ps)) ≡ table columns (p ∷ ps))
unfolding export_packets
export_filled hidden p ps [] q n = absurd (n refl)
export_filled hidden p ps (c ∷ cs) q n = (rw (q, export_packets) refl, read-export_body c cs p ps)

-- With a packet and a column that is not hidden, the file is the head, that is, the number of
-- packets and the names of the fields, and behind it rows that a reader of quoted, comma
-- separated fields takes back to the packets' fields, whatever commas, quotes and line ends are
-- in them.
pub read-export_packets :
    (hidden : Column → Bool) (p : Packet) (ps : List Packet)
    → visible_columns hidden ≢ []
    → let columns = visible_columns hidden in
      (export_packets hidden (p ∷ ps)
        ≡ some (export_head columns (p ∷ ps) ++ export_body columns (p ∷ ps)))
      × (read front (export_body columns (p ∷ ps)) ≡ table columns (p ∷ ps))
read-export_packets hidden p ps n = export_filled hidden p ps (visible_columns hidden) refl n
