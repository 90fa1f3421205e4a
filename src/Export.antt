-- ===== src/Export.antt =====
-- `exportPackets` of internal/web/static/modules/export.js: the text of the file.
pub mod RoundTrip
use serial_tcp_proxy.Prelude.{
  ℕ, Bool, not, Option, none, some, List, [], ◌∷◌, ◌++◌, Text, codes, join, map, filterb, length,
}
use serial_tcp_proxy.Filter.{Packet}
use serial_tcp_proxy.Wire.{format_decimal}
use serial_tcp_proxy.Utils.Csv.{escape_csv}

-- The names of `uiCols`.
pub data Column : Type 0 where
  time dir len hex ascii : Column

abbrev pub ui_columns : List Column
ui_columns = time ∷ dir ∷ len ∷ hex ∷ ascii ∷ []

-- `colToField`
abbrev pub field_name : Column → Text
field_name time = codes "time"
field_name dir = codes "direction"
field_name len = codes "length"
field_name hex = codes "hexRaw"
field_name ascii = codes "ascii"

-- `p[f]`
abbrev pub field : Packet → Column → Text
field p time = p.time
field p dir = p.direction
field p len = p.length
field p hex = p.hex_raw
field p ascii = p.ascii

-- The columns that the set of hidden ones leaves.
unfoldable pub visible_columns : (Column → Bool) → List Column
visible_columns hidden = filterb (λ c. not (hidden c)) ui_columns

unfoldable pub export_row : List Column → Packet → Text
unfolding escape_csv join
export_row columns p = join b',' (map (λ c. escape_csv (field p c)) columns)

unfoldable pub export_head : List Column → List Packet → Text
unfolding join format_decimal
export_head columns ps =
    codes "packets["
    ++ (format_decimal (length ps)
        ++ (codes "]{" ++ (join b',' (map field_name columns) ++ (codes "}:" ++ 10 ∷ []))))

unfoldable pub export_body : List Column → List Packet → Text
unfolding export_row join
export_body columns ps = join 10 (map (export_row columns) ps)

-- The text, or `none` with an alert: for no packets, and for no columns.
unfoldable pub export_packets : (Column → Bool) → List Packet → Option Text
unfolding visible_columns export_head export_body
export_packets hidden [] = none
export_packets hidden (p ∷ ps) = elim (visible_columns hidden) [
  | [] ↦ none
  | c ∷ cs ↦ some (export_head (c ∷ cs) (p ∷ ps) ++ export_body (c ∷ cs) (p ∷ ps))
]
