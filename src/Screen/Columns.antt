-- ===== src/Screen/Columns.antt =====
-- The columns' checkboxes of internal/web/static/modules/packets.js, and the rows that are drawn already.
use serial_tcp_proxy.Prelude.{
  ℕ, ◌≤◌, ◌<◌, ◌≡◌, ◌≢◌, ap, sym, ◌∙◌, Bool, true, false, not, get_elem?, some, List, map,
  if◌then◌else◌,
}
use serial_tcp_proxy.Export.{Column, time, dir, len, hex, ascii, ui_columns}
use serial_tcp_proxy.Table.{Row, row_at, set_data, range_start, range_end}
use serial_tcp_proxy.Table.Stale.{set_data_keeps_row}
use serial_tcp_proxy.Packets.State.{Item}
use serial_tcp_proxy.Packets.Row.{RowView, Hidden, render_table_row}
use serial_tcp_proxy.Screen.{Screen, shows, same_column, toggle_column}

-- For each cell of a row that it is not hidden.
abbrev pub displayed_columns : Hidden → List Bool
displayed_columns hidden = map (λ c. not (hidden c)) ui_columns

-- The columns that are hidden once the checkbox has changed.
abbrev pub hidden_after : Column → Bool → Hidden → Hidden
hidden_after c checked hidden c' =
    if same_column c' c then (if checked then false else true) else hidden c'

flipped : (b : Bool) → some (not b) ≢ some (not (if b then false else true))
flipped true q = absurd (cc)
flipped false q = absurd (cc)

column_changed :
    (c : Column) (hidden : Hidden)
    → displayed_columns hidden ≢ displayed_columns (hidden_after c (hidden c) hidden)
column_changed time hidden q = flipped (hidden time) (ap (λ l. get_elem? l 0) q)
column_changed dir hidden q = flipped (hidden dir) (ap (λ l. get_elem? l 1) q)
column_changed len hidden q = flipped (hidden len) (ap (λ l. get_elem? l 2) q)
column_changed hex hidden q = flipped (hidden hex) (ap (λ l. get_elem? l 3) q)
column_changed ascii hidden q = flipped (hidden ascii) (ap (λ l. get_elem? l 4) q)

-- The checkbox of a column that changes does not reach a row that is drawn already and stays in
-- the visible range: the row is as it was, and if its cells were displayed by the checkboxes of
-- before, they differ from those that drawing the row would give.
pub toggle_column_stale :
    (c : Column) (sc : Screen) (j : ℕ) (r : Row RowView) (a : Item)
    → row_at j sc.table.active ≡ some r
    → range_start sc.table ≤ j
    → j < range_end sc.table
    → r.content.displayed ≡ displayed_columns sc.hidden
    → let sc' = toggle_column c (sc.hidden c) sc in
      (row_at j sc'.table.active ≡ some r) × (r.content.displayed ≢ (shows sc' a).displayed)
unfolding toggle_column render_table_row set_data
toggle_column_stale c sc j r a q lo hi before = (
  (set_data_keeps_row (shows (toggle_column c (sc.hidden c) sc)) sc.table.items sc.table j r q lo
      hi).0,
  λ same. column_changed c sc.hidden (sym before ∙ same),
)
