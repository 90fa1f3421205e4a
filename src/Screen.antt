-- ===== src/Screen.antt =====
-- internal/web/static/modules/packets.js with its table of internal/web/static/modules/virtual-table.js:
-- the calls that the handlers make reach the table, and the table's events reach the handlers.
pub mod Selected
pub mod Marks
pub mod Toggled
pub mod Same
pub mod Append
pub mod Columns
pub mod Moves
pub mod Run
use serial_tcp_proxy.Prelude.{
  ℕ, ◌+◌, ◌-◌, Bool, true, false, Option, none, some, List, [], ◌∷◌, length, drop, ltb,
  if◌then◌else◌, ◌==◌,
}
use serial_tcp_proxy.RegExp.{Engine}
use serial_tcp_proxy.Export.{Column, time, dir, len, hex, ascii}
use serial_tcp_proxy.Table
use serial_tcp_proxy.Table.{
  Row, VirtualTable, handle_scroll, handle_resize, render, new_table, clicked_item,
}
use serial_tcp_proxy.Table.Scroll.{is_at_bottom}
use serial_tcp_proxy.Packets.State.{
  Stored, Item, TableCall, set_data, scroll_to_end, update_row, State, on_scroll,
}
use serial_tcp_proxy.Packets.Handlers.{holds_id, drop_oldest, toggle_selection}
use serial_tcp_proxy.Packets.Events.{Event, step, initial}
use serial_tcp_proxy.Packets.Row.{RowView, Hidden, render_table_row}

pub record Screen : Type 0 where
  pub state : State
  pub table : VirtualTable Item RowView
  pub hidden : Hidden

-- What `renderRow` writes now.
abbrev pub shows : Screen → Item → RowView
shows sc = render_table_row sc.state sc.hidden

-- `scrollToEnd` moves the container; the browser answers with a scroll event.
unfoldable pub perform :
    (Item → RowView) → TableCall → VirtualTable Item RowView → VirtualTable Item RowView
unfolding Table.set_data Table.update_row
perform show (set_data items) t = Table.set_data show items t
perform show scroll_to_end t = t
perform show (update_row i) t = Table.update_row show i t

unfoldable pub perform_all :
    (Item → RowView) → List TableCall → VirtualTable Item RowView → VirtualTable Item RowView
unfolding perform
perform_all show [] t = t
perform_all show (c ∷ calls) t = perform_all show calls (perform show c t)

-- The calls that the second state has beyond the first.
abbrev pub new_calls : State → State → List TableCall
new_calls s s' = drop (length s.calls) s'.calls

-- A handler has changed the state, and its calls reach the table. Of what a row shows, no handler
-- changes the selection or the filter between its calls.
unfoldable pub follow_state : State → Screen → Screen
unfolding perform_all
follow_state s' sc = record sc {
  state = s';
  table = perform_all (render_table_row s' sc.hidden) (new_calls sc.state s') sc.table;
}

-- `row.classList.add('selected')`, or `remove`.
abbrev pub mark_row : ℕ → Bool → List (Row RowView) → List (Row RowView)
mark_row i on [] = []
mark_row i on (r ∷ rows) =
    let rest = mark_row i on rows in
    if r.index == i
    then record r { content = record r.content { is_selected = on } } ∷ rest
    else r ∷ rest

abbrev pub mark : ℕ → Bool → VirtualTable Item RowView → VirtualTable Item RowView
mark i on t = record t { active = mark_row i on t.active }

-- `togglePacketSelection(row, packet)`, if the packet is selected, and if it is not: the row of the
-- packet that leaves the selection is written before the new packet is in it.
abbrev pub unselect_row : ℕ → Stored → Screen → Screen
unselect_row i p sc = record sc {
  state = toggle_selection p sc.state;
  table = mark i false sc.table;
}

abbrev pub select_row : ℕ → Stored → Screen → Screen
select_row i p sc = record sc {
  state = toggle_selection p sc.state;
  table = mark i true (follow_state (drop_oldest sc.state.selected sc.state) sc).table;
}

unfoldable pub toggle_row : ℕ → Stored → Screen → Screen
toggle_row i p sc =
    if holds_id p.id sc.state.selected then unselect_row i p sc else select_row i p sc

-- `handleClick` on the row element at an index.
unfoldable pub click_row : Row RowView → Screen → Screen
unfolding toggle_row clicked_item
click_row r sc = elim (clicked_item r sc.table) [
  | none ↦ sc
  | some item ↦ toggle_row r.index item.stored sc
]

-- The table listens to the container before packets.js does. `isAtBottom` reads the heights of the
-- container at that time.
unfoldable pub scroll : ℕ → ℕ → ℕ → Screen → Screen
unfolding handle_scroll on_scroll
scroll scroll_height client_height top sc = record sc {
  table = handle_scroll (shows sc) top sc.table;
  state = on_scroll (is_at_bottom scroll_height top client_height) sc.state;
}

unfoldable pub resize : ℕ → Screen → Screen
unfolding handle_resize
resize height sc = record sc { table = handle_resize (shows sc) height sc.table }

abbrev pub same_column : Column → Column → Bool
same_column time time = true
same_column dir dir = true
same_column len len = true
same_column hex hex = true
same_column ascii ascii = true
same_column _ _ = false

-- The checkbox of a column, and `updateColumnVisibility`.
unfoldable pub toggle_column : Column → Bool → Screen → Screen
unfolding render
toggle_column c checked sc =
    let hidden : Hidden =
      λ c'. if same_column c' c then (if checked then false else true) else sc.hidden c' in
    let sc' = record sc { hidden = hidden } in record sc' { table = render (shows sc') sc.table }

-- What happens to the packet table: events that the handlers of packets.js answer, and those that
-- reach the table too.
pub data Move : Type 0 where
  handled : Event → Move
  row_clicked : Row RowView → Move
  scrolled : ℕ → ℕ → ℕ → Move
  resized : ℕ → Move
  column_toggled : Column → Bool → Move

unfoldable pub screen_step : Engine → Move → Screen → Screen
unfolding follow_state step click_row scroll resize toggle_column
screen_step e (handled event) sc = follow_state (step e event sc.state) sc
screen_step e (row_clicked r) sc = click_row r sc
screen_step e (scrolled scroll_height client_height top) sc =
    scroll scroll_height client_height top sc
screen_step e (resized height) sc = resize height sc
screen_step e (column_toggled c checked) sc = toggle_column c checked sc

unfoldable pub run_moves : Engine → List Move → Screen → Screen
unfolding screen_step
run_moves e [] sc = sc
run_moves e (m ∷ moves) sc = run_moves e moves (screen_step e m sc)

-- The page is loaded, with a container of this height.
abbrev pub loaded : ℕ → Hidden → Screen
loaded height hidden = record { state = initial; table = new_table height; hidden = hidden }
