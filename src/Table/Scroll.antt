-- ===== src/Table/Scroll.antt =====
-- `scrollToIndex`, `scrollToEnd` and `isAtBottom` of internal/web/static/modules/virtual-table.js.
use serial_tcp_proxy.Prelude.{
  leb, false, Option, none, some, if◌then◌else◌, Bool-cases, inl, inr, ℕ, ◌+◌, ◌-◌, ◌*◌, ◌≤◌, ◌<◌,
  ◌≡◌, min, max, Bool, true, length, ltb, arith,
}
use serial_tcp_proxy.Table.{row_height, VirtualTable, measured_count, range_start, range_end}
use serial_tcp_proxy.Table.Range.{range-InView}

-- `getTotalHeight`
abbrev pub total_height : {A C : Type 0} → VirtualTable A C → ℕ
total_height s = length s.items * row_height

-- `isAtBottom`, with the heights that the browser gives.
abbrev pub is_at_bottom : ℕ → ℕ → ℕ → Bool
is_at_bottom scroll_height top client_height = ltb (scroll_height - top - client_height) 50

-- The height of the container's content: the head of the table, and the body with its spacers; it
-- is at least the container's.
abbrev pub content_height : {A C : Type 0} → ℕ → VirtualTable A C → ℕ
content_height head s = max (head + total_height s) s.container_height

-- What the browser makes of a position that is set.
abbrev pub clamped : ℕ → ℕ → ℕ → ℕ
clamped scroll_height client_height top = min top (scroll_height - client_height)

-- `scrollToEnd`, as the position that the container then has.
abbrev pub end_position : {A C : Type 0} → ℕ → VirtualTable A C → ℕ
end_position head s = clamped (content_height head s) s.container_height (total_height s)

-- In a measured table with rows, whose head is lower than the container, the position that
-- `scrollToEnd` gives puts the last row into the visible range and leaves the container at its
-- bottom.
pub end-InView :
    {A C : Type 0} (head : ℕ) (s : VirtualTable A C) (j : ℕ)
    → s.visible_count ≡ measured_count s.container_height
    → head < s.container_height
    → length s.items ≡ j + 1
    → let s' = record s { scroll_top = end_position head s } in
      (range_start s' ≤ j)
      × (j < range_end s')
      × (is_at_bottom (content_height head s) (end_position head s) s.container_height ≡ true)
end-InView head s j m h n =
    let s' = record s { scroll_top = end_position head s } in
    let (low, high) =
      range-InView s' j m (omega (arith, n)) (omega (arith, n, h), omega (arith, n, h)) in
    (low, high, ground (arith, h))

-- The words for the alignment: `'end'`, `'bottom'`, and so on.
pub data Align : Type 0 where
  at_end : Align
  at_bottom : Align
  at_start : Align
  at_top : Align
  at_center : Align
  at_nearest : Align

abbrev pub item_top : ℕ → ℕ
item_top i = i * row_height

abbrev pub item_bottom : ℕ → ℕ
item_bottom i = item_top i + row_height

module _ {A C : Type 0} where
  -- The position that `scrollToIndex` sets, in half pixels since a centre can lie between two. The
  -- browser takes 0 for what is below 0.
  unfoldable pub aligned : Align → ℕ → VirtualTable A C → Option ℕ
  aligned at_end i s = some ((item_bottom i - s.container_height) * 2)
  aligned at_bottom i s = some ((item_bottom i - s.container_height) * 2)
  aligned at_start i s = some (item_top i * 2)
  aligned at_top i s = some (item_top i * 2)
  aligned at_center i s = some (item_top i * 2 + row_height - s.container_height)
  aligned at_nearest i s =
      if ltb (item_top i) s.scroll_top
      then some (item_top i * 2)
      else if ltb (s.scroll_top + s.container_height) (item_bottom i)
      then some ((item_bottom i - s.container_height) * 2)
      else none

  unfoldable pub scroll_to_index : Align → ℕ → VirtualTable A C → Option ℕ
  unfolding aligned
  scroll_to_index align i s = if leb (length s.items) i then none else aligned align i s

  -- The position of the container afterwards, in half pixels.
  unfoldable pub position_after : ℕ → Option ℕ → VirtualTable A C → ℕ
  position_after head none s = s.scroll_top * 2
  position_after head (some top) s = min top ((content_height head s - s.container_height) * 2)

  -- The container shows the whole row of the index.
  abbrev pub ShowsWhole : ℕ → ℕ → VirtualTable A C → Type 0
  ShowsWhole i position s =
      (position ≤ item_top i * 2) × (item_bottom i * 2 ≤ position + s.container_height * 2)

  set-ShowsWhole :
      (head top i : ℕ) (s : VirtualTable A C)
      → i < length s.items
      → ShowsWhole i top s
      → ShowsWhole i (position_after head (some top) s) s
  unfolding position_after
  set-ShowsWhole head top i s h w = (omega (arith, w.0), omega (arith, w.1, h))

  nearest-ShowsWhole :
      (head i : ℕ) (s : VirtualTable A C)
      → i < length s.items
      → row_height ≤ s.container_height
      → ShowsWhole i (position_after head (aligned at_nearest i s) s) s
  unfolding aligned position_after
  nearest-ShowsWhole head i s h high = elim (Bool-cases (ltb (item_top i) s.scroll_top)) [
    | inl above ↦
        rw (above, aligned) (set-ShowsWhole head _ i s h (omega arith, omega (arith, high)))
    | inr not_above ↦ elim (Bool-cases (ltb (s.scroll_top + s.container_height) (item_bottom i))) [
      | inl below ↦
          rw (not_above, aligned)
            (rw below (set-ShowsWhole head _ i s h (omega (arith, high), omega arith)))
      | inr seen ↦ rw (not_above, aligned) (rw seen (ground arith))
    ]
  ]

  aligned-ShowsWhole :
      (align : Align) (head i : ℕ) (s : VirtualTable A C)
      → i < length s.items
      → row_height ≤ s.container_height
      → ShowsWhole i (position_after head (aligned align i s) s) s
  unfolding aligned
  aligned-ShowsWhole at_end head i s h high =
      set-ShowsWhole head _ i s h (omega (arith, high), omega arith)
  aligned-ShowsWhole at_bottom head i s h high =
      set-ShowsWhole head _ i s h (omega (arith, high), omega arith)
  aligned-ShowsWhole at_start head i s h high =
      set-ShowsWhole head _ i s h (omega arith, omega (arith, high))
  aligned-ShowsWhole at_top head i s h high =
      set-ShowsWhole head _ i s h (omega arith, omega (arith, high))
  aligned-ShowsWhole at_center head i s h high =
      set-ShowsWhole head _ i s h (omega (arith, high), omega (arith, high))
  aligned-ShowsWhole at_nearest head i s h high = nearest-ShowsWhole head i s h high

  -- Scrolling to the index of an item shows its whole row, with every alignment, if the
  -- container is at least as high as a row.
  pub scroll_to_index-ShowsWhole :
      (align : Align) (head i : ℕ) (s : VirtualTable A C)
      → i < length s.items
      → row_height ≤ s.container_height
      → ShowsWhole i (position_after head (scroll_to_index align i s) s) s
  unfolding scroll_to_index
  scroll_to_index-ShowsWhole align head i s h high =
      let found : leb (length s.items) i ≡ false = ground (arith, h) in
      rw (found, scroll_to_index) (aligned-ShowsWhole align head i s h high)
