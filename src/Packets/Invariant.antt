-- ===== src/Packets/Invariant.antt =====
-- An invariant of the state of internal/web/static/modules/packets.js.
pub mod Selection
pub mod Rows
pub mod History
use serial_tcp_proxy.Prelude.{
  ℕ, zero, suc, ◌+◌, ◌≤◌, ◌≡◌, refl, ap, sym, subst, ◌∙◌, inl, inr, Bool, true, false, not, ◌&&◌,
  ◌||◌, Option, none, some, List, [], ◌∷◌, ◌++◌, Text, length, length-append, length-tail,
  length-filterb-le, filterb, tail, ltb, leb, ◌==◌, if◌then◌else◌, Bool-cases, Option-cases, arith,
}
use serial_tcp_proxy.RegExp.{Engine}
use serial_tcp_proxy.Filter.{Packet, DirectionFilter, Parsed}
use serial_tcp_proxy.Packets.Entry.{parse_entry}
use serial_tcp_proxy.Packets.Sort.{Order, sort_stable, length-sort_stable}
use serial_tcp_proxy.Packets.State.{
  max_packets, Stored, Item, FilterState, TableCall, set_data, scroll_to_end, update_row, State,
  call, push_bounded, latest_label, update_latest_button, scroll_to_latest, toggle_auto_scroll,
  on_scroll, process, process_all,
}
use serial_tcp_proxy.Packets.Handlers.{
  holds_id, remove_id, find_row, update_removed, drop_oldest, update_diff_button, toggle_selection,
  clear_packets, sort_items, follow, append_packet, render_rows, render_packets, store_packet,
  add_packet_entry, sort_by, set_direction, toggle_highlight, select_preset,
}
use serial_tcp_proxy.Packets.Events.{
  Event, log_line, typed, debounce_fires, header_clicked, direction_clicked, highlight_clicked,
  preset_chosen, row_clicked, clear_clicked, auto_scroll_clicked, latest_clicked, scrolled, step,
  run, initial,
}

-- The rows that the table was last given, after some calls.
abbrev pub shown : List Item → List TableCall → List Item
shown rows [] = rows
shown rows (set_data rows' ∷ calls) = shown rows' calls
shown rows (scroll_to_end ∷ calls) = shown rows calls
shown rows (update_row i ∷ calls) = shown rows calls

pub shown-append :
    (rows : List Item) (a b : List TableCall) → shown rows (a ++ b) ≡ shown (shown rows a) b
shown-append rows [] b = refl
shown-append rows (set_data rows' ∷ a) b = shown-append rows' a b
shown-append rows (scroll_to_end ∷ a) b = shown-append rows a b
shown-append rows (update_row i ∷ a) b = shown-append rows a b

-- No packet is selected twice.
abbrev pub SelectedOnce : List Stored → Type 0
SelectedOnce [] = Unit
SelectedOnce (p ∷ l) = (holds_id p.id l ≡ false) × SelectedOnce l

-- The part that the selection has nothing to do with.
pub record Core (s : State) : Type 0 where
  pub packets_bound : length s.packets ≤ max_packets
  pub rows_bound : length s.processed ≤ max_packets
  pub table : shown [] s.calls ≡ s.processed
  pub button : s.latest_button ≡ latest_label s.auto_scroll s.missed
  pub none_missed : s.auto_scroll ≡ true → s.missed ≡ 0

pub record Inv (s : State) : Type 0 where
  pub core : Core s
  pub two_selected : length s.selected ≤ 2
  pub once : SelectedOnce s.selected
  pub diff_count : s.diff_count ≡ length s.selected
  pub diff_enabled : s.diff_enabled ≡ (length s.selected == 2)

pub push_bounded_le {ℓ} :
    {A : Type ℓ} (a : A) (l : List A)
    → length l ≤ max_packets
    → length (push_bounded a l) ≤ max_packets
push_bounded_le a l h = ground (arith, length-tail (l ++ a ∷ []), length-append l (a ∷ []))
