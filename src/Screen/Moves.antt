-- ===== src/Screen/Moves.antt =====
-- Single events of the packet table of internal/web/static/modules/packets.js while nothing is filtered
-- or sorted.
use serial_tcp_proxy.Prelude.{
  ℕ, ◌+◌, ◌≤◌, ◌<◌, ◌≡◌, refl, ap, sym, ◌∙◌, subst, Bool, true, false, some, [], ◌∷◌, Text, length,
  get_elem?, inl, inr, Option-cases, arith,
}
use serial_tcp_proxy.RegExp.{Engine}
use serial_tcp_proxy.Export.{Column}
use serial_tcp_proxy.Table
use serial_tcp_proxy.Table.{Row, VirtualTable, new_table, clicked_item}
use serial_tcp_proxy.Table.Range.{render_items}
use serial_tcp_proxy.Table.Rows.{render-IsFresh}
use serial_tcp_proxy.Packets.Entry.{parse_entry}
use serial_tcp_proxy.Table.Scroll.{is_at_bottom}
use serial_tcp_proxy.Packets.State.{
  update_latest_button, max_packets, set_data, Stored, Item, State, on_scroll,
}
use serial_tcp_proxy.Packets.Handlers.{holds_id, clear_packets, add_packet_entry}
use serial_tcp_proxy.Packets.Invariant.{Inv}
use serial_tcp_proxy.Packets.Invariant.Rows.{clear_packets-Inv}
use serial_tcp_proxy.Packets.Invariant.History.{on_scroll-Inv}
use serial_tcp_proxy.Packets.Row.{RowView, render_table_row, Hidden}
use serial_tcp_proxy.Screen.{
  Screen, perform_all, follow_state, click_row, toggle_row, scroll, resize, toggle_column, shows,
}
use serial_tcp_proxy.Screen.Selected.{Suits, Marked, DistinctItems}
use serial_tcp_proxy.Screen.Marks.{Right, drop-length-append, toggle_row_cases, click_row-Right}
use serial_tcp_proxy.Screen.Same.{
  SameRows, SameView, refl-SameRows, refl-OnlyScrolls, OnlyScrolls, same-IsPlain,
  toggle_selection-SameRows, on_scroll-SameView,
}
use serial_tcp_proxy.Screen.Append.{Plain, store_packet-Plain, packets_now}

-- The same rows in the table, and perhaps other marks.
same-Plain :
    (sc sc' : Screen)
    → Plain sc
    → Right sc'
    → SameRows sc.state sc'.state
    → sc'.table.items ≡ sc.table.items
    → Plain sc'
same-Plain sc sc' v r same items = record {
  right = r;
  plain = same-IsPlain sc.state sc'.state same v.plain;
  fresh =
      subst (λ l. (i : ℕ) (a : Item) → get_elem? l i ≡ some a → a.stored.id < sc'.state.next_id)
        (sym items)
        (subst (λ n. (i : ℕ) (a : Item) → get_elem? sc.table.items i ≡ some a → a.stored.id < n)
          (sym same.next_id) v.fresh);
}

-- Another table with the same items, whose rows are right for the same selection.
table-Plain :
    (sc : Screen) (s' : State) (t : VirtualTable Item RowView) (hidden : Hidden)
    → Plain sc
    → Inv s'
    → SameView sc.state s'
    → t.items ≡ sc.table.items
    → Marked sc.state.selected t.items t.active
    → Plain (record { state = s'; table = t; hidden = hidden })
table-Plain sc s' t hidden v inv same items marked =
    same-Plain sc _ v
      (record {
        items = items ∙ v.right.items ∙ sym same.same_rows.processed;
        distinct = subst DistinctItems (sym items) v.right.distinct;
        inv = inv;
        marked = subst (λ l. Marked l t.items t.active) (sym same.selected) marked;
      })
      same.same_rows items

OnlyScrolls-Plain :
    (sc : Screen) (s' : State)
    → Plain sc
    → Inv s'
    → OnlyScrolls sc.state s'
    → Plain (follow_state s' sc)
unfolding follow_state
OnlyScrolls-Plain sc s' v inv o =
    subst (λ t. Plain (record sc { state = s'; table = t }))
      (sym (o.same_table (render_table_row s' sc.hidden) sc.table))
      (table-Plain sc s' sc.table sc.hidden v inv o.same_view refl v.right.marked)

render-Plain :
    (sc : Screen) (s' : State) (show : Item → RowView) (t : VirtualTable Item RowView)
    (hidden : Hidden)
    → Plain sc
    → Inv s'
    → SameView sc.state s'
    → ((a : Item) → Suits sc.state.selected a (show a))
    → t.items ≡ sc.table.items
    → Marked sc.state.selected t.items t.active
    → Plain (record { state = s'; table = Table.render show t; hidden = hidden })
render-Plain sc s' show t hidden v inv same suits items marked =
    table-Plain sc s' (Table.render show t) hidden v inv same (render_items show t ∙ items)
      (render-IsFresh (Suits sc.state.selected) show suits t marked)

pub cleared-Plain : (sc : Screen) → Plain sc → Plain (follow_state (clear_packets sc.state) sc)
unfolding follow_state clear_packets update_latest_button perform_all
cleared-Plain sc v =
    let s' = clear_packets sc.state in
    let show = render_table_row s' sc.hidden in
    subst (λ calls. Plain (record sc { state = s'; table = perform_all show calls sc.table }))
      (sym (drop-length-append sc.state.calls (set_data [] ∷ [])))
      (record {
        right = record {
          items = refl;
          distinct = λ i j a b p q. absurd (cc p);
          inv = clear_packets-Inv sc.state v.right.inv;
          marked = tt;
        };
        plain = record {
          no_input = v.plain.no_input;
          no_sorting = v.plain.no_sorting;
          both_directions = v.plain.both_directions;
          no_filter = v.plain.no_filter;
          rows = refl;
        };
        fresh = λ i a p. absurd (cc p);
      })

pub logged-Plain :
    (e : Engine) (line : Text) (sc : Screen)
    → Plain sc
    → length sc.state.packets < max_packets
    → let sc' = follow_state (add_packet_entry e line sc.state) sc in
      Plain sc' × (length sc'.state.packets ≤ length sc.state.packets + 1)
unfolding add_packet_entry follow_state
logged-Plain e line sc v room = elim (Option-cases (parse_entry line)) [
  | inl n ↦
      rw (n, add_packet_entry)
        (OnlyScrolls-Plain sc sc.state v v.right.inv (refl-OnlyScrolls sc.state), omega arith)
  | inr (packet, q) ↦
      rw (q, add_packet_entry)
        (store_packet-Plain e packet sc v room, omega (arith, packets_now e packet sc v room))
]

toggled_same :
    (i : ℕ) (p : Stored) (sc : Screen) (b : Bool)
    → holds_id p.id sc.state.selected ≡ b
    → SameRows sc.state (toggle_row i p sc).state
toggled_same i p sc true q =
    subst (λ (t : Screen). SameRows sc.state t.state) (sym (toggle_row_cases i p sc true q))
      (toggle_selection-SameRows p sc.state)
toggled_same i p sc false q =
    subst (λ (t : Screen). SameRows sc.state t.state) (sym (toggle_row_cases i p sc false q))
      (toggle_selection-SameRows p sc.state)

pub clicked_same : (r : Row RowView) (sc : Screen) → SameRows sc.state (click_row r sc).state
unfolding click_row
clicked_same r sc = elim (Option-cases (clicked_item r sc.table)) [
  | inl n ↦ rw (n, click_row) (refl-SameRows sc.state)
  | inr (a, q) ↦
      rw (q, click_row)
        (toggled_same r.index a.stored sc (holds_id a.stored.id sc.state.selected) refl)
]

pub clicked-Plain : (r : Row RowView) (sc : Screen) → Plain sc → Plain (click_row r sc)
clicked-Plain r sc v =
    let right = click_row-Right r sc v.right in
    let same = clicked_same r sc in
    same-Plain sc (click_row r sc) v right same (right.items ∙ same.processed ∙ sym v.right.items)

pub scrolled-Plain :
    (scroll_height client_height top : ℕ) (sc : Screen)
    → Plain sc
    → Plain (scroll scroll_height client_height top sc)
unfolding scroll Table.handle_scroll render_table_row
scrolled-Plain scroll_height client_height top sc v =
    let at_bottom = is_at_bottom scroll_height top client_height in
    render-Plain sc (on_scroll at_bottom sc.state) (shows sc) (record sc.table { scroll_top = top })
      sc.hidden v (on_scroll-Inv at_bottom sc.state v.right.inv)
      (on_scroll-SameView at_bottom sc.state) (λ a. (refl, refl)) refl v.right.marked

pub resized-Plain : (height : ℕ) (sc : Screen) → Plain sc → Plain (resize height sc)
unfolding resize Table.handle_resize Table.measure render_table_row
resized-Plain height sc v =
    render-Plain sc sc.state (shows sc) (Table.measure height sc.table) sc.hidden v v.right.inv
      (refl-OnlyScrolls sc.state).same_view (λ a. (refl, refl)) refl v.right.marked

pub column_toggled-Plain :
    (c : Column) (checked : Bool) (sc : Screen) → Plain sc → Plain (toggle_column c checked sc)
unfolding toggle_column render_table_row
column_toggled-Plain c checked sc v =
    render-Plain sc sc.state _ sc.table _ v v.right.inv (refl-OnlyScrolls sc.state).same_view
      (λ a. (refl, refl)) refl v.right.marked

pub same_count : (s s' : State) → SameRows s s' → length s'.packets ≤ 0 + length s.packets
same_count s s' same = omega (arith, ap length same.packets)

on_scroll_count : (b : Bool) (s : State) → length (on_scroll b s).packets ≤ 0 + length s.packets
on_scroll_count b s = same_count s (on_scroll b s) (on_scroll-SameView b s).same_rows

pub scrolls_both :
    (sc : Screen) (s' : State)
    → Plain sc
    → Inv s'
    → OnlyScrolls sc.state s'
    → Plain (follow_state s' sc) × (length s'.packets ≤ 0 + length sc.state.packets)
scrolls_both sc s' v inv o =
    (OnlyScrolls-Plain sc s' v inv o, same_count sc.state s' o.same_view.same_rows)

pub cleared_count : (s : State) → length (clear_packets s).packets ≤ 0 + length s.packets
unfolding clear_packets update_latest_button
cleared_count s = omega arith

pub resized_count :
    (height : ℕ) (sc : Screen)
    → length (resize height sc).state.packets ≤ 0 + length sc.state.packets
unfolding resize
resized_count height sc = omega arith

pub column_count :
    (c : Column) (checked : Bool) (sc : Screen)
    → length (toggle_column c checked sc).state.packets ≤ 0 + length sc.state.packets
unfolding toggle_column
column_count c checked sc = omega arith

pub scrolled_count :
    (scroll_height client_height top : ℕ) (sc : Screen)
    → length (scroll scroll_height client_height top sc).state.packets ≤ 0 + length sc.state.packets
unfolding scroll
scrolled_count scroll_height client_height top sc = on_scroll_count _ sc.state
