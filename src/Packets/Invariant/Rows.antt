-- ===== src/Packets/Invariant/Rows.antt =====
-- The rows of internal/web/static/modules/packets.js under the invariant.
use serial_tcp_proxy.Prelude.{
  ℕ, suc, ◌+◌, ◌≤◌, ◌≡◌, refl, ap, inl, inr, Bool, true, false, Option, none, some, List, [], ◌∷◌,
  Text, length, length-filterb-le, filterb, if◌then◌else◌, Bool-cases, arith,
}
use serial_tcp_proxy.RegExp.{Engine}
use serial_tcp_proxy.Filter.{Packet, DirectionFilter, Parsed}
use serial_tcp_proxy.Filter.Parse.{parse_filter}
use serial_tcp_proxy.Packets.Sort.{Order, length-sort_stable}
use serial_tcp_proxy.Packets.State.{
  max_packets, Stored, Item, FilterState, set_data, scroll_to_end, State, call, push_bounded,
  process, process_all,
}
use serial_tcp_proxy.Packets.Handlers.{
  is_plain_view, clear_packets, sort_items, follow, append_packet, render_rows, render_packets,
  store_packet,
}
use serial_tcp_proxy.Packets.Invariant.{shown-append, Inv, push_bounded_le}

pub clear_packets-Inv : (s : State) → Inv s → Inv (clear_packets s)
unfolding clear_packets
clear_packets-Inv s v = ground (arith, shown-append [] s.calls (set_data [] ∷ []))

follow-Inv : (s : State) → Inv s → Inv (follow s)
unfolding follow
follow-Inv s v = ground (arith, shown-append [] s.calls (scroll_to_end ∷ []))

scroll_if-Inv : (b : Bool) (s : State) → Inv s → Inv (if b then call scroll_to_end s else s)
scroll_if-Inv true s v = ground (arith, shown-append [] s.calls (scroll_to_end ∷ []))
scroll_if-Inv false s v = v

length-process_all :
    (e : Engine) (h : Bool) (d : DirectionFilter) (ps : List Stored) (f : Option Parsed)
    → length (process_all e h d ps f).0 ≡ length ps
unfolding process_all
length-process_all e h d [] f = refl
length-process_all e h d (p ∷ ps) f = ap suc (length-process_all e h d ps (process e h d p f).1)

length-sort_items :
    (field : Option Text) (o : Order) (items : List Item)
    → length (sort_items field o items) ≡ length items
unfolding sort_items
length-sort_items none o items = refl
length-sort_items (some []) o items = refl
length-sort_items (some (c ∷ field)) o items = length-sort_stable _ items

render_rows-le :
    (e : Engine) (f : FilterState) (s : State) → length (render_rows e f s).0 ≤ length s.packets
unfolding render_rows
render_rows-le e f s =
    let (items, _) = process_all e f.highlight_mode f.direction s.packets f.parsed in
    ground (
      arith,
      length-process_all e f.highlight_mode f.direction s.packets f.parsed,
      length-sort_items s.sort_field s.sort_order items,
      length-sort_items s.sort_field s.sort_order (filterb (λ (i : Item). i.matches) items),
      length-filterb-le (λ (i : Item). i.matches) items,
    )

-- New rows of the right number are handed to the table.
rows-Inv :
    (s : State) (rows : List Item) (f : FilterState) (ps : List Stored) (n : ℕ)
    → Inv s
    → length rows ≤ max_packets
    → length ps ≤ max_packets
    → Inv (
        call (set_data rows) (record s { processed = rows; filter = f; packets = ps; next_id = n }))
rows-Inv s rows f ps n v le lp = record {
  core = record {
    packets_bound = lp;
    rows_bound = le;
    table = shown-append [] s.calls (set_data rows ∷ []);
    button = v.core.button;
    none_missed = v.core.none_missed;
  };
  two_selected = v.two_selected;
  once = v.once;
  diff_count = v.diff_count;
  diff_enabled = v.diff_enabled;
}

pub append_packet-Inv : (e : Engine) (p : Stored) (s : State) → Inv s → Inv (append_packet e p s)
unfolding append_packet
append_packet-Inv e p s v =
    let (item, parsed') = process e s.filter.highlight_mode s.filter.direction p s.filter.parsed in
    follow-Inv _ (
      rows-Inv s (push_bounded item s.processed) (record s.filter { parsed = parsed' }) s.packets
        s.next_id v (push_bounded_le item s.processed v.core.rows_bound) v.core.packets_bound)

pub render_packets-Inv : (e : Engine) (s : State) → Inv s → Inv (render_packets e s)
unfolding render_packets
render_packets-Inv e s v =
    let f = record s.filter { text = s.filter_input; parsed = parse_filter e s.filter_input } in
    let (rows, parsed') = render_rows e f s in
    scroll_if-Inv _ _ (
      rows-Inv s rows (record f { parsed = parsed' }) s.packets s.next_id v
        (omega (arith, render_rows-le e f s, v.core.packets_bound)) v.core.packets_bound)

store-Core :
    (s : State) (ps : List Stored) (n : ℕ)
    → Inv s
    → length ps ≤ max_packets
    → Inv (record s { next_id = n; packets = ps })
store-Core s ps n v le = record {
  core = record {
    packets_bound = le;
    rows_bound = v.core.rows_bound;
    table = v.core.table;
    button = v.core.button;
    none_missed = v.core.none_missed;
  };
  two_selected = v.two_selected;
  once = v.once;
  diff_count = v.diff_count;
  diff_enabled = v.diff_enabled;
}

pub store_packet-Inv : (e : Engine) (q : Packet) (s : State) → Inv s → Inv (store_packet e q s)
unfolding store_packet
store_packet-Inv e q s v =
    let p : Stored = record { id = s.next_id; packet = q } in
    let s' = record s { next_id = s.next_id + 1; packets = push_bounded p s.packets } in
    let v' =
      store-Core s (push_bounded p s.packets) (s.next_id + 1) v
        (push_bounded_le p s.packets v.core.packets_bound) in
    elim (Bool-cases (is_plain_view s')) [
      | inl plain ↦ rw plain (append_packet-Inv e p s' v')
      | inr other ↦ rw other (render_packets-Inv e s' v')
    ]
