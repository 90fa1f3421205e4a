-- ===== src/Packets/Handlers.antt =====
-- The functions of internal/web/static/modules/packets.js that change the packets, the rows, the
-- filter, the sorting and the selection.
use serial_tcp_proxy.Prelude.{
  ℕ, suc, ◌+◌, Bool, true, false, not, ◌&&◌, ◌||◌, Option, none, some, List, [], ◌∷◌, ◌++◌, Text,
  text_eq, is_nil, length, filterb, if◌then◌else◌, leb, ◌==◌,
}
use mathlib.Core.Option
use serial_tcp_proxy.RegExp.{Engine}
use serial_tcp_proxy.Filter.{Packet, DirectionFilter, all, only, Parsed}
use serial_tcp_proxy.Filter.Parse.{parse_filter}
use serial_tcp_proxy.Packets.Entry.{parse_entry}
use serial_tcp_proxy.Packets.Sort.{Order, asc, flip, goes_after, sort_stable}
use serial_tcp_proxy.Packets.State.{
  Stored, Item, FilterState, set_data, scroll_to_end, update_row, State, call, push_bounded,
  update_latest_button, has_active_filter, process, process_all,
}

abbrev pub is_all : DirectionFilter → Bool
is_all all = true
is_all (only d) = false

-- `item => item.packet === removed`, as the index of the first such row.
unfoldable pub find_row : ℕ → List Item → Option ℕ
find_row id [] = none
find_row id (item ∷ items) =
    if item.stored.id == id then some 0 else Option.map suc (find_row id items)

abbrev pub holds_id : ℕ → List Stored → Bool
holds_id id [] = false
holds_id id (p ∷ l) = p.id == id || holds_id id l

-- `selectedPackets.splice(idx, 1)` at the first place of the packet.
abbrev pub remove_id : ℕ → List Stored → List Stored
remove_id id [] = []
remove_id id (p ∷ l) = let rest = remove_id id l in if p.id == id then l else p ∷ rest

abbrev pub update_removed : Option ℕ → State → State
update_removed none s = s
update_removed (some row) s = call (update_row row) s

-- With two packets selected, the older one leaves, and its row is written anew if it has one.
unfoldable pub drop_oldest : List Stored → State → State
unfolding find_row
drop_oldest [] s = s
drop_oldest (oldest ∷ rest) s =
    if leb 2 (length (oldest ∷ rest))
    then update_removed (find_row oldest.id s.processed) (record s { selected = rest })
    else s

unfoldable pub update_diff_button : State → State
update_diff_button s = record s {
  diff_count = length s.selected;
  diff_enabled = length s.selected == 2;
}

-- `togglePacketSelection`
unfoldable pub toggle_selection : Stored → State → State
unfolding drop_oldest update_diff_button
toggle_selection p s =
    if holds_id p.id s.selected
    then update_diff_button (record s { selected = remove_id p.id s.selected })
    else let s' = drop_oldest s.selected s in
      update_diff_button (record s' { selected = s'.selected ++ p ∷ [] })

-- `clearPackets`
unfoldable pub clear_packets : State → State
unfolding update_latest_button
clear_packets s =
    let s' = call (set_data []) (record s { packets = []; selected = []; processed = [] }) in
    update_latest_button (record s' { diff_count = 0; diff_enabled = false; missed = 0 })

-- `processedPackets.sort(…)`, if a header is chosen.
unfoldable pub sort_items : Option Text → Order → List Item → List Item
unfolding sort_stable goes_after
sort_items none order items = items
sort_items (some []) order items = items
sort_items (some (c ∷ field)) order items =
    sort_stable (λ (a b : Item). goes_after (c ∷ field) order a.stored.packet b.stored.packet) items

-- `currentSort.field` as a condition.
abbrev pub is_sorting : Option Text → Bool
is_sorting none = false
is_sorting (some []) = false
is_sorting (some (c ∷ field)) = true

-- The end of `appendPacket`.
unfoldable pub follow : State → State
unfolding update_latest_button
follow s =
    if s.auto_scroll
    then call scroll_to_end s
    else update_latest_button (record s { missed = s.missed + 1 })

-- No text, no sorting and both directions: a new packet is the new last row.
abbrev pub is_plain_view : State → Bool
is_plain_view s =
    is_nil s.filter_input && (not (is_sorting s.sort_field) && is_all s.filter.direction)

module _ (e : Engine) where
  -- `appendPacket`
  unfoldable pub append_packet : Stored → State → State
  append_packet p s =
      let (item, parsed') =
        process e s.filter.highlight_mode s.filter.direction p s.filter.parsed in
      let rows = push_bounded item s.processed in
      follow (
        call (set_data rows)
          (record s { processed = rows; filter = record s.filter { parsed = parsed' } }))

  -- The rows of `renderPackets`, for a filter that is parsed.
  unfoldable pub render_rows : FilterState → State → List Item × Option Parsed
  render_rows f s =
      let (items, parsed') = process_all e f.highlight_mode f.direction s.packets f.parsed in
      let kept =
        if not f.highlight_mode && has_active_filter f
        then filterb (λ (i : Item). i.matches) items
        else items in
      (sort_items s.sort_field s.sort_order kept, parsed')

  -- `renderPackets`
  unfoldable pub render_packets : State → State
  render_packets s =
      let f = record s.filter { text = s.filter_input; parsed = parse_filter e s.filter_input } in
      let (rows, parsed') = render_rows f s in
      let s' =
        call (set_data rows)
          (record s { processed = rows; filter = record f { parsed = parsed' } }) in
      if s.auto_scroll && (not (has_active_filter f) && not (is_sorting s.sort_field))
      then call scroll_to_end s'
      else s'

  -- The second half of `addPacketEntry`: the packet is stored, and the view follows.
  unfoldable pub store_packet : Packet → State → State
  store_packet packet s =
      let p : Stored = record { id = s.next_id; packet = packet } in
      let s' = record s { next_id = s.next_id + 1; packets = push_bounded p s.packets } in
      if is_plain_view s' then append_packet p s' else render_packets s'

  -- `addPacketEntry`
  unfoldable pub add_packet_entry : Text → State → State
  add_packet_entry line s = elim (parse_entry line) [
    | none ↦ s
    | some packet ↦ store_packet packet s
  ]

  -- The click on a header with the field `field`.
  unfoldable pub sort_by : Text → State → State
  sort_by field s =
      if (elim s.sort_field [ none ↦ false | some f ↦ text_eq f field ])
      then render_packets (record s { sort_order = flip s.sort_order })
      else render_packets (record s { sort_field = some field; sort_order = asc })

  unfoldable pub set_direction : DirectionFilter → State → State
  set_direction d s = render_packets (record s { filter = record s.filter { direction = d } })

  unfoldable pub toggle_highlight : State → State
  toggle_highlight s =
      render_packets
        (record s { filter = record s.filter { highlight_mode = not s.filter.highlight_mode } })

  -- The choice of a preset; the placeholder's value is empty.
  unfoldable pub select_preset : Text → State → State
  select_preset [] s = s
  select_preset (c ∷ value) s = render_packets (record s { filter_input = c ∷ value })
