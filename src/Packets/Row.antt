-- ===== src/Packets/Row.antt =====
-- `renderTableRow` and `applyColumnVisibility` of internal/web/static/modules/packets.js: the content of a
-- row of the table.
use serial_tcp_proxy.Prelude.{
  Bool, not, ◌&&◌, Option, none, some, List, [], ◌∷◌, Text, codes, includes, map, if◌then◌else◌,
}
use serial_tcp_proxy.Filter.{Direction, up, down}
use serial_tcp_proxy.Export.{Column, ui_columns}
use serial_tcp_proxy.Packets.Html.{generate_highlighted_hex}
use serial_tcp_proxy.Packets.State.{Item, State, has_active_filter}
use serial_tcp_proxy.Packets.Handlers.{holds_id}

-- `is_match` is the class `highlight-match` or `highlight-no-match`, if there is one, and
-- `displayed` says for each cell that it is not hidden.
pub record RowView : Type 0 where
  pub is_selected : Bool
  pub is_match : Option Bool
  pub direction_class : Direction
  pub cells : List Text
  pub displayed : List Bool

-- The hex column, with the bytes highlighted if some were found.
unfoldable pub row_hex : Item → Text
row_hex item = elim item.match_positions [
  | none ↦ item.stored.packet.hex_formatted
  | some [] ↦ item.stored.packet.hex_formatted
  | some (i ∷ positions) ↦ generate_highlighted_hex item.stored.packet.hex_raw (i ∷ positions)
]

unfoldable pub row_cells : Item → List Text
unfolding row_hex
row_cells item =
    let p = item.stored.packet in p.time ∷ p.direction ∷ p.length ∷ row_hex item ∷ p.ascii ∷ []

abbrev pub Hidden : Type 0
Hidden = Column → Bool

unfoldable pub render_table_row : State → Hidden → Item → RowView
unfolding row_cells includes
render_table_row s hidden item = record {
  is_selected = holds_id item.stored.id s.selected;
  is_match =
      if s.filter.highlight_mode && has_active_filter s.filter then some item.matches else none;
  direction_class = if includes item.stored.packet.direction (codes "UP ->") then up else down;
  cells = row_cells item;
  displayed = map (λ c. not (hidden c)) ui_columns;
}
