-- ===== src/Packets/Events.antt =====
-- The events that internal/web/static/modules/packets.js handles, one after the other.
use serial_tcp_proxy.Prelude.{Bool, List, [], ◌∷◌, Text, none, true, false}
use serial_tcp_proxy.RegExp.{Engine}
use serial_tcp_proxy.Filter.{DirectionFilter, all}
use serial_tcp_proxy.Packets.Sort.{asc}
use serial_tcp_proxy.Packets.State.{Stored, State, scroll_to_latest, toggle_auto_scroll, on_scroll}
use serial_tcp_proxy.Packets.Handlers.{
  toggle_selection, clear_packets, render_packets, add_packet_entry, sort_by, set_direction,
  toggle_highlight, select_preset,
}

-- Typing changes the input at once; the rows follow when the debounced call fires.
pub data Event : Type 0 where
  log_line : Text → Event
  typed : Text → Event
  debounce_fires : Event
  header_clicked : Text → Event
  direction_clicked : DirectionFilter → Event
  highlight_clicked : Event
  preset_chosen : Text → Event
  row_clicked : Stored → Event
  clear_clicked : Event
  auto_scroll_clicked : Event
  latest_clicked : Event
  scrolled : Bool → Event

unfoldable pub step : Engine → Event → State → State
step e (log_line line) s = add_packet_entry e line s
step e (typed text) s = record s { filter_input = text }
step e debounce_fires s = render_packets e s
step e (header_clicked field) s = sort_by e field s
step e (direction_clicked d) s = set_direction e d s
step e highlight_clicked s = toggle_highlight e s
step e (preset_chosen value) s = select_preset e value s
step e (row_clicked p) s = toggle_selection p s
step e clear_clicked s = clear_packets s
step e auto_scroll_clicked s = toggle_auto_scroll s
step e latest_clicked s = scroll_to_latest s
step e (scrolled at_bottom) s = on_scroll at_bottom s

unfoldable pub run : Engine → List Event → State → State
unfolding step
run e [] s = s
run e (event ∷ events) s = run e events (step e event s)

-- The module's variables when the page is loaded.
abbrev pub initial : State
initial = record {
  next_id = 0;
  packets = [];
  selected = [];
  processed = [];
  filter_input = [];
  filter = record { direction = all; text = []; parsed = none; highlight_mode = false };
  sort_field = none;
  sort_order = asc;
  auto_scroll = true;
  missed = 0;
  latest_button = none;
  diff_count = 0;
  diff_enabled = false;
  calls = [];
}
