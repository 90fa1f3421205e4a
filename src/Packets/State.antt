-- ===== src/Packets/State.antt =====
-- The state of internal/web/static/modules/packets.js: the stored packets, the selection, the
-- processed rows, the filter, the sorting and the scrolling, with the handlers that change it. Each
-- packet object has an identity, since the selection compares objects.
use serial_tcp_proxy.Prelude.{
  ℕ, Bool, true, false, not, ◌&&◌, ◌||◌, Option, none, some, List, [], ◌∷◌, ◌++◌, Text, is_nil,
  trim, tail, length, if◌then◌else◌, ltb,
}
use mathlib.Core.Option
use serial_tcp_proxy.RegExp.{Engine}
use serial_tcp_proxy.Filter.{Packet, DirectionFilter, all, only, Parsed}
use serial_tcp_proxy.Filter.Match.{matches_filter}
use serial_tcp_proxy.Filter.Positions.{find_match_positions}
use serial_tcp_proxy.Packets.Sort.{Order}

abbrev pub max_packets : ℕ
max_packets = 10000

pub record Stored : Type 0 where
  pub id : ℕ
  pub packet : Packet

-- A row for the virtual table.
pub record Item : Type 0 where
  pub stored : Stored
  pub matches : Bool
  pub match_positions : Option (List ℕ)

pub record FilterState : Type 0 where
  pub direction : DirectionFilter
  pub text : Text
  pub parsed : Option Parsed
  pub highlight_mode : Bool

-- What the module asks of the virtual table.
pub data TableCall : Type 0 where
  set_data : List Item → TableCall
  scroll_to_end : TableCall
  update_row : ℕ → TableCall

pub record State : Type 0 where
  pub next_id : ℕ
  pub packets : List Stored
  pub selected : List Stored
  pub processed : List Item
  pub filter_input : Text
  pub filter : FilterState
  pub sort_field : Option Text
  pub sort_order : Order
  pub auto_scroll : Bool
  pub missed : ℕ
  pub latest_button : Option ℕ
  pub diff_count : ℕ
  pub diff_enabled : Bool
  pub calls : List TableCall

abbrev pub call : TableCall → State → State
call c s = record s { calls = s.calls ++ c ∷ [] }

-- `push`, and `shift` if that is one too many.
abbrev pub push_bounded {ℓ} : {A : Type ℓ} → A → List A → List A
push_bounded a l =
    let longer = l ++ a ∷ [] in if ltb max_packets (length longer) then tail longer else longer

-- `updateGoToLatestButton`: the number on the button, if it is shown.
abbrev pub latest_label : Bool → ℕ → Option ℕ
latest_label auto_scroll missed = if ltb 0 missed && not auto_scroll then some missed else none

unfoldable pub update_latest_button : State → State
update_latest_button s = record s { latest_button = latest_label s.auto_scroll s.missed }

-- `scrollToLatest`
unfoldable pub scroll_to_latest : State → State
unfolding update_latest_button
scroll_to_latest s =
    update_latest_button (record (call scroll_to_end s) { missed = 0; auto_scroll = true })

-- `toggleAutoScroll`
unfoldable pub toggle_auto_scroll : State → State
unfolding scroll_to_latest
toggle_auto_scroll s =
    let s' = record s { auto_scroll = not s.auto_scroll } in
    if s'.auto_scroll then scroll_to_latest s' else s'

-- The scroll handler; `at_bottom` is what `isAtBottom` returns.
unfoldable pub on_scroll : Bool → State → State
unfolding update_latest_button
on_scroll at_bottom s =
    if s.auto_scroll && not at_bottom
    then record s { auto_scroll = false }
    else if not s.auto_scroll && at_bottom
    then update_latest_button (record s { auto_scroll = true; missed = 0 })
    else s

abbrev pub has_active_filter : FilterState → Bool
has_active_filter f =
    (elim f.direction [ all ↦ false | only d ↦ true ]) || not (is_nil (trim f.text))

module _ (e : Engine) where
  -- A row, and the filter with what its regular expression remembers. A loop that ran out of fuel
  -- would give no positions.
  unfoldable pub process : Bool → DirectionFilter → Stored → Option Parsed → Item × Option Parsed
  process highlight_mode direction p parsed =
      let (hit, parsed') = matches_filter e p.packet direction parsed in
      (
        record {
          stored = p;
          matches = hit;
          match_positions =
              if hit && highlight_mode
              then Option.get_or (find_match_positions e p.packet parsed') none
              else none;
        },
        parsed',
      )

  -- `packets.map(…)`
  unfoldable pub process_all :
      Bool → DirectionFilter → List Stored → Option Parsed → List Item × Option Parsed
  process_all highlight_mode direction [] parsed = ([], parsed)
  process_all highlight_mode direction (p ∷ ps) parsed =
      let (item, parsed') = process highlight_mode direction p parsed in
      let (items, parsed'') = process_all highlight_mode direction ps parsed' in
      (item ∷ items, parsed'')
