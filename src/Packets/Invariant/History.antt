-- ===== src/Packets/Invariant/History.antt =====
-- The handlers of internal/web/static/modules/packets.js, and histories of events, under the invariant.
use serial_tcp_proxy.Prelude.{
  refl, inl, inr, Bool, not, Option, some, List, [], ◌∷◌, Text, Option-cases, arith,
}
use serial_tcp_proxy.RegExp.{Engine}
use serial_tcp_proxy.Packets.Entry.{parse_entry}
use serial_tcp_proxy.Packets.Sort.{Order, asc, flip}
use serial_tcp_proxy.Packets.State.{
  FilterState, scroll_to_end, State, scroll_to_latest, toggle_auto_scroll, on_scroll,
}
use serial_tcp_proxy.Packets.Handlers.{
  render_packets, add_packet_entry, sort_by, set_direction, toggle_highlight, select_preset,
}
use serial_tcp_proxy.Packets.Events.{
  Event, log_line, typed, debounce_fires, header_clicked, direction_clicked, highlight_clicked,
  preset_chosen, row_clicked, clear_clicked, auto_scroll_clicked, latest_clicked, scrolled, step,
  run, initial,
}
use serial_tcp_proxy.Packets.Invariant.Selection.{toggle_selection-Inv}
use serial_tcp_proxy.Packets.Invariant.Rows.{
  clear_packets-Inv, render_packets-Inv, store_packet-Inv,
}
use serial_tcp_proxy.Packets.Invariant.{shown-append, Inv}

pub initial-Inv : Inv initial
initial-Inv = record {
  core = record {
    packets_bound = omega arith;
    rows_bound = omega arith;
    table = refl;
    button = refl;
    none_missed = λ h. refl;
  };
  two_selected = omega arith;
  once = tt;
  diff_count = refl;
  diff_enabled = refl;
}

pub scroll_to_latest-Inv : (s : State) → Inv s → Inv (scroll_to_latest s)
unfolding scroll_to_latest
scroll_to_latest-Inv s v = ground (arith, shown-append [] s.calls (scroll_to_end ∷ []))

pub toggle_auto_scroll-Inv : (s : State) → Inv s → Inv (toggle_auto_scroll s)
unfolding toggle_auto_scroll
toggle_auto_scroll-Inv s v = ground (arith, shown-append [] s.calls (scroll_to_end ∷ []))

pub on_scroll-Inv : (b : Bool) (s : State) → Inv s → Inv (on_scroll b s)
unfolding on_scroll
on_scroll-Inv b s v = ground arith

add_packet_entry-Inv :
    (e : Engine) (line : Text) (s : State) → Inv s → Inv (add_packet_entry e line s)
unfolding add_packet_entry
add_packet_entry-Inv e line s v = elim (Option-cases (parse_entry line)) [
  | inl n ↦ rw (n, add_packet_entry) v
  | inr (q, h) ↦ rw (h, add_packet_entry) (store_packet-Inv e q s v)
]

-- The invariant reads none of what a handler writes before it renders.
render_after-Inv :
    (e : Engine) (s : State) (input : Text) (f : FilterState) (field : Option Text) (o : Order)
    → Inv s
    → Inv (
        render_packets e
          (record s { filter_input = input; filter = f; sort_field = field; sort_order = o }))
render_after-Inv e s input f field o v = render_packets-Inv e _ (record {
  core = record {
    packets_bound = v.core.packets_bound;
    rows_bound = v.core.rows_bound;
    table = v.core.table;
    button = v.core.button;
    none_missed = v.core.none_missed;
  };
  two_selected = v.two_selected;
  once = v.once;
  diff_count = v.diff_count;
  diff_enabled = v.diff_enabled;
})

sort_by-Inv : (e : Engine) (field : Text) (s : State) → Inv s → Inv (sort_by e field s)
unfolding sort_by
sort_by-Inv e field s v = ground (
  arith,
  render_after-Inv e s s.filter_input s.filter s.sort_field (flip s.sort_order) v,
  render_after-Inv e s s.filter_input s.filter (some field) asc v,
)

-- Every event keeps the invariant.
pub step-Inv : (e : Engine) (event : Event) (s : State) → Inv s → Inv (step e event s)
unfolding step set_direction toggle_highlight select_preset
step-Inv e (log_line line) s v = add_packet_entry-Inv e line s v
step-Inv e (typed text) s v = record {
  core = record {
    packets_bound = v.core.packets_bound;
    rows_bound = v.core.rows_bound;
    table = v.core.table;
    button = v.core.button;
    none_missed = v.core.none_missed;
  };
  two_selected = v.two_selected;
  once = v.once;
  diff_count = v.diff_count;
  diff_enabled = v.diff_enabled;
}
step-Inv e debounce_fires s v = render_packets-Inv e s v
step-Inv e (header_clicked field) s v = sort_by-Inv e field s v
step-Inv e (direction_clicked d) s v =
    render_after-Inv e s s.filter_input (record s.filter { direction = d }) s.sort_field
      s.sort_order v
step-Inv e highlight_clicked s v =
    render_after-Inv e s s.filter_input
      (record s.filter { highlight_mode = not s.filter.highlight_mode }) s.sort_field s.sort_order v
step-Inv e (preset_chosen []) s v = v
step-Inv e (preset_chosen (c ∷ value)) s v =
    render_after-Inv e s (c ∷ value) s.filter s.sort_field s.sort_order v
step-Inv e (row_clicked p) s v = toggle_selection-Inv p s v
step-Inv e clear_clicked s v = clear_packets-Inv s v
step-Inv e auto_scroll_clicked s v = toggle_auto_scroll-Inv s v
step-Inv e latest_clicked s v = scroll_to_latest-Inv s v
step-Inv e (scrolled at_bottom) s v = on_scroll-Inv at_bottom s v

run-Inv : (e : Engine) (events : List Event) (s : State) → Inv s → Inv (run e events s)
unfolding run
run-Inv e [] s v = v
run-Inv e (event ∷ events) s v = run-Inv e events (step e event s) (step-Inv e event s v)

-- After every history of events from the loading of the page, there are at most 10000 packets and
-- rows, the table was last given exactly the processed rows, at most two packets are selected and
-- none twice, the diff button shows their number and is enabled for exactly two, and the button
-- for the latest packet shows the number of missed packets, if there are any and auto-scroll is
-- off, and while it is on none are missed.
pub run-initial-Inv : (e : Engine) (events : List Event) → Inv (run e events initial)
run-initial-Inv e events = run-Inv e events initial initial-Inv
