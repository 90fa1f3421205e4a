-- ===== src/Screen/Same.antt =====
-- What the handlers of internal/web/static/modules/packets.js that only select or scroll leave as it is.
use serial_tcp_proxy.Prelude.{
  ℕ, ◌+◌, ◌≡◌, refl, ap, sym, ◌∙◌, Bool, true, false, not, ◌&&◌, Option, none, some, List, [], ◌∷◌,
  ◌++◌, append-nil, length, map, leb, Bool-cases, inl, inr, if◌then◌else◌,
}
use serial_tcp_proxy.Packets.State.{
  call, TableCall, scroll_to_end, update_latest_button, Stored, Item, FilterState, State,
  scroll_to_latest, toggle_auto_scroll, on_scroll,
}
use serial_tcp_proxy.Packets.Handlers.{
  holds_id, find_row, update_removed, drop_oldest, update_diff_button, toggle_selection, is_sorting,
  follow,
}
use serial_tcp_proxy.Table.{VirtualTable}
use serial_tcp_proxy.Packets.Row.{RowView}
use serial_tcp_proxy.Screen.{perform_all, new_calls}
use serial_tcp_proxy.Screen.Marks.{drop-length, drop-length-append}
use serial_tcp_proxy.Packets.FastPath.{plain_item, IsPlain}

-- The packets, the rows, the filter and the sorting are the same.
pub record SameRows (s s' : State) : Type 0 where
  pub next_id : s'.next_id ≡ s.next_id
  pub packets : s'.packets ≡ s.packets
  pub processed : s'.processed ≡ s.processed
  pub filter_input : s'.filter_input ≡ s.filter_input
  pub filter : s'.filter ≡ s.filter
  pub sort_field : s'.sort_field ≡ s.sort_field

pub refl-SameRows : (s : State) → SameRows s s
refl-SameRows s = record {
  next_id = refl;
  packets = refl;
  processed = refl;
  filter_input = refl;
  filter = refl;
  sort_field = refl;
}

pub same-IsPlain : (s s' : State) → SameRows s s' → IsPlain s → IsPlain s'
same-IsPlain s s' r v = record {
  no_input = r.filter_input ∙ v.no_input;
  no_sorting = ap is_sorting r.sort_field ∙ v.no_sorting;
  both_directions = ap (λ (f : FilterState). f.direction) r.filter ∙ v.both_directions;
  no_filter = ap (λ (f : FilterState). f.parsed) r.filter ∙ v.no_filter;
  rows = r.processed ∙ v.rows ∙ ap (map plain_item) (sym r.packets);
}

removed-SameRows :
    (o : Option ℕ) (rest : List Stored) (s : State)
    → SameRows s (update_removed o (record s { selected = rest }))
removed-SameRows none rest s = record {
  next_id = refl;
  packets = refl;
  processed = refl;
  filter_input = refl;
  filter = refl;
  sort_field = refl;
}
removed-SameRows (some k) rest s = record {
  next_id = refl;
  packets = refl;
  processed = refl;
  filter_input = refl;
  filter = refl;
  sort_field = refl;
}

pub drop_oldest-SameRows : (l : List Stored) (s : State) → SameRows s (drop_oldest l s)
unfolding drop_oldest
drop_oldest-SameRows [] s = refl-SameRows s
drop_oldest-SameRows (oldest ∷ rest) s = elim (Bool-cases (leb 2 (length (oldest ∷ rest)))) [
  | inl full ↦ rw full (removed-SameRows (find_row oldest.id s.processed) rest s)
  | inr space ↦ rw space (refl-SameRows s)
]

-- A new selection, with the button brought up to date.
selected-SameRows :
    (s s1 : State) (l : List Stored)
    → SameRows s s1
    → SameRows s (update_diff_button (record s1 { selected = l }))
unfolding update_diff_button
selected-SameRows s s1 l r = record {
  next_id = r.next_id;
  packets = r.packets;
  processed = r.processed;
  filter_input = r.filter_input;
  filter = r.filter;
  sort_field = r.sort_field;
}

pub toggle_selection-SameRows : (p : Stored) (s : State) → SameRows s (toggle_selection p s)
unfolding toggle_selection
toggle_selection-SameRows p s = elim (Bool-cases (holds_id p.id s.selected)) [
  | inl held ↦ rw held (selected-SameRows s s _ (refl-SameRows s))
  | inr free ↦
      rw free (selected-SameRows s (drop_oldest s.selected s) _ (drop_oldest-SameRows s.selected s))
]

-- The selection is the same too.
pub record SameView (s s' : State) : Type 0 where
  pub same_rows : SameRows s s'
  pub selected : s'.selected ≡ s.selected

scrolled-SameView :
    (s : State) (auto : Bool) (missed : ℕ) (button : Option ℕ) (calls : List TableCall)
    → SameView s
        (record s { auto_scroll = auto; missed = missed; latest_button = button; calls = calls })
scrolled-SameView s auto missed button calls = record {
  same_rows = record {
    next_id = refl;
    packets = refl;
    processed = refl;
    filter_input = refl;
    filter = refl;
    sort_field = refl;
  };
  selected = refl;
}

pub on_scroll-SameView : (b : Bool) (s : State) → SameView s (on_scroll b s)
unfolding on_scroll update_latest_button
on_scroll-SameView b s = elim (Bool-cases (s.auto_scroll && not b)) [
  | inl left ↦ rw left (scrolled-SameView s false s.missed s.latest_button s.calls)
  | inr stays ↦ rw stays (elim (Bool-cases (not s.auto_scroll && b)) [
    | inl arrived ↦ rw arrived (scrolled-SameView s true 0 _ s.calls)
    | inr other ↦ rw other (scrolled-SameView s s.auto_scroll s.missed s.latest_button s.calls)
  ])
]

-- Handlers that at most scroll the table to its end.
pub record OnlyScrolls (s s' : State) : Type 0 where
  pub same_view : SameView s s'
  pub same_table :
      (show : Item → RowView) (t : VirtualTable Item RowView)
      → perform_all show (new_calls s s') t ≡ t

pub refl-OnlyScrolls : (s : State) → OnlyScrolls s s
unfolding perform_all
refl-OnlyScrolls s = record {
  same_view = record { same_rows = refl-SameRows s; selected = refl };
  same_table = λ show t. rw (drop-length s.calls) refl;
}

pub scroll_to_latest-OnlyScrolls : (s : State) → OnlyScrolls s (scroll_to_latest s)
unfolding scroll_to_latest update_latest_button perform_all
scroll_to_latest-OnlyScrolls s = record {
  same_view = scrolled-SameView s true 0 _ _;
  same_table = λ show t. rw (drop-length-append s.calls (scroll_to_end ∷ [])) refl;
}

scroll_if-OnlyScrolls :
    (b : Bool) (s : State)
    → let s' = record s { auto_scroll = not s.auto_scroll } in
      OnlyScrolls s (if b then scroll_to_latest s' else s')
unfolding scroll_to_latest update_latest_button perform_all
scroll_if-OnlyScrolls true s = record {
  same_view = scrolled-SameView s true 0 _ _;
  same_table = λ show t. rw (drop-length-append s.calls (scroll_to_end ∷ [])) refl;
}
scroll_if-OnlyScrolls false s = record {
  same_view = scrolled-SameView s (not s.auto_scroll) s.missed s.latest_button s.calls;
  same_table = λ show t. rw (drop-length s.calls) refl;
}

pub toggle_auto_scroll-OnlyScrolls : (s : State) → OnlyScrolls s (toggle_auto_scroll s)
unfolding toggle_auto_scroll
toggle_auto_scroll-OnlyScrolls s = scroll_if-OnlyScrolls (not s.auto_scroll) s

-- `follow` adds at most a scroll to the calls.
abbrev pub scroll_calls : Bool → List TableCall
scroll_calls true = scroll_to_end ∷ []
scroll_calls false = []

follow_if :
    (b : Bool) (s : State)
    → let s' =
        if b
        then call scroll_to_end s
        else update_latest_button (record s { missed = s.missed + 1 }) in
      SameView s s' × (s'.calls ≡ s.calls ++ scroll_calls b)
unfolding update_latest_button
follow_if true s = (scrolled-SameView s s.auto_scroll s.missed s.latest_button _, refl)
follow_if false s =
    (scrolled-SameView s s.auto_scroll (s.missed + 1) _ s.calls, sym (append-nil s.calls))

pub follow-SameView :
    (s : State) → SameView s (follow s) × ((follow s).calls ≡ s.calls ++ scroll_calls s.auto_scroll)
unfolding follow
follow-SameView s = follow_if s.auto_scroll s

pub scroll_calls_idle :
    (show : Item → RowView) (b : Bool) (t : VirtualTable Item RowView)
    → perform_all show (scroll_calls b) t ≡ t
unfolding perform_all
scroll_calls_idle show true t = refl
scroll_calls_idle show false t = refl
