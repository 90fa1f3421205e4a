-- ===== src/Screen/Run.antt =====
-- Histories of the packet table of internal/web/static/modules/packets.js while nothing is filtered or
-- sorted.
use serial_tcp_proxy.Prelude.{ℕ, ◌+◌, ◌≤◌, ◌≡◌, refl, ◌∙◌, List, [], ◌∷◌, length, map, All, arith}
use serial_tcp_proxy.RegExp.{Engine}
use serial_tcp_proxy.Table.{new_table}
use serial_tcp_proxy.Packets.State.{max_packets, toggle_auto_scroll, scroll_to_latest}
use serial_tcp_proxy.Packets.Events.{
  log_line, clear_clicked, auto_scroll_clicked, latest_clicked, step,
}
use serial_tcp_proxy.Packets.FastPath.{plain_item}
use serial_tcp_proxy.Packets.Invariant.History.{
  initial-Inv, scroll_to_latest-Inv, toggle_auto_scroll-Inv,
}
use serial_tcp_proxy.Packets.Row.{Hidden}
use serial_tcp_proxy.Screen.{
  Screen, Move, handled, row_clicked, scrolled, resized, column_toggled, screen_step, run_moves,
  loaded, click_row,
}
use serial_tcp_proxy.Screen.Selected.{Marked}
use serial_tcp_proxy.Screen.Same.{scroll_to_latest-OnlyScrolls, toggle_auto_scroll-OnlyScrolls}
use serial_tcp_proxy.Screen.Append.{Plain}
use serial_tcp_proxy.Screen.Moves.{
  cleared-Plain, logged-Plain, clicked_same, clicked-Plain, scrolled-Plain, resized-Plain,
  column_toggled-Plain, same_count, scrolls_both, cleared_count, resized_count, column_count,
  scrolled_count,
}

-- Neither the filter nor the sorting changes.
abbrev pub IsQuiet : Move → Type 0
IsQuiet (handled (log_line line)) = Unit
IsQuiet (handled clear_clicked) = Unit
IsQuiet (handled auto_scroll_clicked) = Unit
IsQuiet (handled latest_clicked) = Unit
IsQuiet (handled _) = ⊥
IsQuiet _ = Unit

-- The packets that can arrive.
abbrev pub arrivals : Move → ℕ
arrivals (handled (log_line line)) = 1
arrivals _ = 0

abbrev pub sum_arrivals : List Move → ℕ
sum_arrivals [] = 0
sum_arrivals (m ∷ moves) = arrivals m + sum_arrivals moves

-- A move that changes neither filter nor sorting keeps the screen right, and stores a packet at most
-- if a line arrives.
step-Plain :
    (e : Engine) (m : Move) (sc : Screen)
    → Plain sc
    → IsQuiet m
    → arrivals m + length sc.state.packets ≤ max_packets
    → Plain (screen_step e m sc)
      × (length (screen_step e m sc).state.packets ≤ arrivals m + length sc.state.packets)
unfolding screen_step step
step-Plain e (handled (log_line line)) sc v quiet room =
    let (kept, count) = logged-Plain e line sc v (omega (arith, room)) in
    (kept, omega (arith, count))
step-Plain e (handled clear_clicked) sc v quiet room = (cleared-Plain sc v, cleared_count sc.state)
step-Plain e (handled auto_scroll_clicked) sc v quiet room =
    scrolls_both sc (toggle_auto_scroll sc.state) v (toggle_auto_scroll-Inv sc.state v.right.inv)
      (toggle_auto_scroll-OnlyScrolls sc.state)
step-Plain e (handled latest_clicked) sc v quiet room =
    scrolls_both sc (scroll_to_latest sc.state) v (scroll_to_latest-Inv sc.state v.right.inv)
      (scroll_to_latest-OnlyScrolls sc.state)
step-Plain e (handled _) sc v quiet room = absurd quiet
step-Plain e (row_clicked r) sc v quiet room =
    (clicked-Plain r sc v, same_count sc.state (click_row r sc).state (clicked_same r sc))
step-Plain e (scrolled scroll_height client_height top) sc v quiet room = (
  scrolled-Plain scroll_height client_height top sc v,
  scrolled_count scroll_height client_height top sc,
)
step-Plain e (resized height) sc v quiet room = (resized-Plain height sc v, resized_count height sc)
step-Plain e (column_toggled c checked) sc v quiet room =
    (column_toggled-Plain c checked sc v, column_count c checked sc)

run-Plain :
    (e : Engine) (moves : List Move) (sc : Screen)
    → Plain sc
    → All IsQuiet moves
    → sum_arrivals moves + length sc.state.packets ≤ max_packets
    → Plain (run_moves e moves sc)
unfolding run_moves
run-Plain e [] sc v quiet room = v
run-Plain e (m ∷ moves) sc v (quiet, rest) room =
    let (kept, count) = step-Plain e m sc v quiet (omega (arith, room)) in
    run-Plain e moves (screen_step e m sc) kept rest (omega (arith, room, count))

loaded-Plain : (height : ℕ) (hidden : Hidden) → Plain (loaded height hidden)
unfolding new_table
loaded-Plain height hidden = record {
  right = record {
    items = refl;
    distinct = λ i j a b p q. absurd (cc p);
    inv = initial-Inv;
    marked = tt;
  };
  plain = record {
    no_input = refl;
    no_sorting = refl;
    both_directions = refl;
    no_filter = refl;
    rows = refl;
  };
  fresh = λ i a p. absurd (cc p);
}

pub run-loaded-Plain :
    (e : Engine) (moves : List Move) (height : ℕ) (hidden : Hidden)
    → All IsQuiet moves
    → sum_arrivals moves ≤ max_packets
    → Plain (run_moves e moves (loaded height hidden))
run-loaded-Plain e moves height hidden quiet few =
    run-Plain e moves (loaded height hidden) (loaded-Plain height hidden) quiet (omega (arith, few))

-- After every history, from the loading of the page, of log lines, clicks on rows and on the
-- buttons that clear the packets and that scroll, scrolling, resizing and the checkboxes of the
-- columns, with at most 10000 log lines: the table has the rows of the stored packets in their
-- order, each active row shows the fields of the item at its index, and it is marked exactly if
-- the packet of that item is selected.
pub run-loaded :
    (e : Engine) (moves : List Move) (height : ℕ) (hidden : Hidden)
    → All IsQuiet moves
    → sum_arrivals moves ≤ max_packets
    → let sc = run_moves e moves (loaded height hidden) in
      (sc.table.items ≡ map plain_item sc.state.packets)
      × Marked sc.state.selected sc.table.items sc.table.active
run-loaded e moves height hidden quiet few =
    let v = run-loaded-Plain e moves height hidden quiet few in
    (v.right.items ∙ v.plain.rows, v.right.marked)
