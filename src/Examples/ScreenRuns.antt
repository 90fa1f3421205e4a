-- ===== src/Examples/ScreenRuns.antt =====
-- The packet table with packets that arrive and rows that are clicked.
use serial_tcp_proxy.Prelude.{
  ℕ, ◌≤◌, ◌<◌, ◌≡◌, ◌≢◌, refl, true, false, some, none, List, [], ◌∷◌, map, replicate, arith,
}
use serial_tcp_proxy.Filter.{up}
use serial_tcp_proxy.Export.{hex}
use serial_tcp_proxy.Table.{
  Row, VirtualTable, row_at, clicked_item, range_start, range_end, new_table,
}
use serial_tcp_proxy.Table.Scroll.{end_position, content_height, is_at_bottom, end-InView}
use serial_tcp_proxy.Packets.Events.{log_line, initial}
use serial_tcp_proxy.Packets.FastPath.{plain_item}
use serial_tcp_proxy.Packets.Row.{RowView, Hidden, row_cells}
use serial_tcp_proxy.Screen.{
  Screen, shows, Move, handled, row_clicked, column_toggled, run_moves, loaded, click_row,
  toggle_column,
}
use serial_tcp_proxy.Screen.Selected.{Marked}
use serial_tcp_proxy.Screen.Marks.{Right}
use serial_tcp_proxy.Screen.Toggled.{Clicked, click_row-Toggled}
use serial_tcp_proxy.Screen.Columns.{toggle_column_stale}
use serial_tcp_proxy.Screen.Run.{run-loaded, run-loaded-Plain}
use serial_tcp_proxy.Examples.LiteralEngine.{literal_engine}
use serial_tcp_proxy.Examples.PacketRuns.{line, first_packet}

abbrev all_shown : Hidden
all_shown c = false

-- The row of the first packet, not selected.
abbrev first_row : Row RowView
unfolding row_cells
first_row = record {
  id = 0;
  index = 0;
  content = record {
    is_selected = false;
    is_match = none;
    direction_class = up;
    cells = row_cells (plain_item first_packet);
    displayed = true ∷ true ∷ true ∷ true ∷ true ∷ [];
  };
}

-- Two packets arrive, the first is clicked, and the hex column is hidden.
abbrev moves : List Move
moves =
    handled (log_line line)
    ∷ handled (log_line line)
    ∷ row_clicked first_row
    ∷ column_toggled hex false
    ∷ []

run-loaded_example :
    let sc = run_moves literal_engine moves (loaded 64 all_shown) in
    (sc.table.items ≡ map plain_item sc.state.packets)
    × Marked sc.state.selected sc.table.items sc.table.active
run-loaded_example =
    run-loaded literal_engine moves 64 all_shown (tt, (tt, (tt, (tt, tt)))) (omega arith)

abbrev two_lines : List Move
two_lines = handled (log_line line) ∷ handled (log_line line) ∷ []

-- The packets have arrived, and the first row is drawn.
abbrev arrived : Screen
arrived = run_moves literal_engine two_lines (loaded 64 all_shown)

click_row-Toggled_example :
    Clicked
      (clicked_item first_row arrived.table)
      arrived.state.selected
      (click_row first_row arrived).state.selected
    × Right (click_row first_row arrived)
click_row-Toggled_example =
    click_row-Toggled first_row arrived
      (run-loaded-Plain literal_engine two_lines 64 all_shown (tt, (tt, tt)) (omega arith)).right

-- One row is drawn.
abbrev one_shown : Screen
unfolding new_table
one_shown = record {
  state = record initial { next_id = 1; processed = plain_item first_packet ∷ [] };
  table = record (new_table 64) {
    items = plain_item first_packet ∷ [];
    active = first_row ∷ [];
    body = 0 ∷ [];
    next_id = 1;
  };
  hidden = all_shown;
}

toggle_column_stale_example :
    let sc' = toggle_column hex false one_shown in
    (row_at 0 sc'.table.active ≡ some first_row)
    × (first_row.content.displayed ≢ (shows sc' (plain_item first_packet)).displayed)
unfolding range_start range_end new_table first_row one_shown
toggle_column_stale_example =
    toggle_column_stale hex one_shown 0 first_row (plain_item first_packet) refl (omega arith)
      (omega arith) refl

-- 80 rows in a container of 100 pixels, with a head of 30.
abbrev eighty : VirtualTable ℕ ℕ
unfolding new_table
eighty = record (new_table 100) { items = replicate 80 7 }

end-InView_example :
    let s' = record eighty { scroll_top = end_position 30 eighty } in
    (range_start s' ≤ 79)
    × (79 < range_end s')
    × (is_at_bottom (content_height 30 eighty) (end_position 30 eighty) 100 ≡ true)
unfolding eighty
end-InView_example = end-InView 30 eighty 79 refl (omega arith) refl
