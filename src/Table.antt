-- ===== src/Table.antt =====
-- internal/web/static/modules/virtual-table.js: the table that renders only the rows near the
-- viewport, with the options that packets.js gives it. Heights are whole pixels.
pub mod Range
pub mod Rows
pub mod Stale
pub mod Scroll
pub mod Layout
use serial_tcp_proxy.Prelude.{
  ℕ, zero, suc, ◌+◌, ◌-◌, ◌*◌, ◌/◌, min, Bool, true, false, not, ◌&&◌, Option, none, some, List, [],
  ◌∷◌, ◌++◌, length, get_elem?, filterb, is_some, leb, ltb, ◌==◌, if◌then◌else◌,
}
use serial_tcp_proxy.Dom.{place_rows, remove_children}

abbrev pub row_height : ℕ
row_height = 32

abbrev pub overscan : ℕ
overscan = 10

abbrev pub pool_limit : ℕ
pool_limit = 100

-- A row element, its `dataset.index`, and what `renderRow` last wrote into it.
pub record Row (C : Type 0) : Type 0 where
  pub id : ℕ
  pub index : ℕ
  pub content : C

-- `active` is the map from indices to row elements, in the order of insertion; `pool` holds the
-- elements that can be used again, the last pushed first, and `next_id` counts those created.
-- `items` is `data` of the source, and `body` the elements between the two spacers.
pub record VirtualTable (A C : Type 0) : Type 0 where
  pub items : List A
  pub scroll_top : ℕ
  pub container_height : ℕ
  pub visible_count : ℕ
  pub visible_start : ℕ
  pub visible_end : ℕ
  pub top_height : ℕ
  pub bottom_height : ℕ
  pub active : List (Row C)
  pub body : List ℕ
  pub pool : List ℕ
  pub next_id : ℕ

-- `Math.ceil(containerHeight / rowHeight) + overscan * 2`
abbrev pub measured_count : ℕ → ℕ
measured_count height = (height + row_height - 1) / row_height + overscan * 2

-- `rowPool.pop() || document.createElement('tr')`, with the pool and the counter that are left.
abbrev pub take_row : List ℕ → ℕ → ℕ × (List ℕ × ℕ)
take_row [] fresh = (fresh, ([], fresh + 1))
take_row (id ∷ pool) fresh = (id, (pool, fresh))

-- The rows that are taken out go to the pool, while it has fewer than 100.
abbrev pub return_row : ℕ → List ℕ → List ℕ
return_row id pool = if ltb (length pool) pool_limit then id ∷ pool else pool

module _ {C : Type 0} where
  -- `activeRows.get(i)`
  abbrev pub row_at : ℕ → List (Row C) → Option (Row C)
  row_at i [] = none
  row_at i (r ∷ rows) = if r.index == i then some r else row_at i rows

  abbrev pub return_rows : List (Row C) → List ℕ → List ℕ
  return_rows [] pool = pool
  return_rows (r ∷ rows) pool = return_rows rows (return_row r.id pool)

  -- New content for the row of the index; no other row has it.
  abbrev pub rewrite_row : ℕ → C → List (Row C) → List (Row C)
  rewrite_row i content [] = []
  rewrite_row i content (r ∷ rows) =
      let rest = rewrite_row i content rows in
      if r.index == i then record r { content = content } ∷ rest else r ∷ rest

-- The loop has drawn the index.
abbrev pub is_drawn : {A : Type 0} → List A → ℕ → ℕ → ℕ → Bool
is_drawn items start end i = leb start i && (ltb i end && is_some (get_elem? items i))

abbrev pub row_ids : {C : Type 0} → List (Row C) → List ℕ
row_ids [] = []
row_ids (r ∷ rows) = r.id ∷ row_ids rows

module _ {A C : Type 0} where
  -- The constructor, with `init` and its `measure`; the page gives the container's height.
  unfoldable pub new_table : ℕ → VirtualTable A C
  new_table height = record {
    items = [];
    scroll_top = 0;
    container_height = height;
    visible_count = measured_count height;
    visible_start = 0;
    visible_end = 0;
    top_height = 0;
    bottom_height = 0;
    active = [];
    body = [];
    pool = [];
    next_id = 0;
  }

  -- `getVisibleRange`
  unfoldable pub range_start : VirtualTable A C → ℕ
  range_start s = s.scroll_top / row_height - overscan

  unfoldable pub range_end : VirtualTable A C → ℕ
  unfolding range_start
  range_end s = min (length s.items) (range_start s + s.visible_count + overscan)

  -- `show` is what `renderRow` writes for an item.
  -- The loop over the visible indices: `count` of them from `i`. An active row is taken as it is.
  unfoldable pub draw :
      (A → C) → List A → List (Row C) → ℕ → ℕ → List ℕ → ℕ → List (Row C) × (List ℕ × ℕ)
  draw show items active zero i pool fresh = ([], (pool, fresh))
  draw show items active (suc count) i pool fresh = elim (get_elem? items i) [
    | none ↦ draw show items active count (i + 1) pool fresh
    | some item ↦ elim (row_at i active) [
      | some row ↦
          let (rows, left) = draw show items active count (i + 1) pool fresh in (row ∷ rows, left)
      | none ↦
          let (id, (pool', fresh')) = take_row pool fresh in
          let (rows, left) = draw show items active count (i + 1) pool' fresh' in
          (record { id = id; index = i; content = show item } ∷ rows, left)
    ]
  ]

  unfoldable pub clear : VirtualTable A C → VirtualTable A C
  clear s = record s {
    active = [];
    body = remove_children (row_ids s.active) s.body;
    pool = return_rows s.active s.pool;
    top_height = 0;
    bottom_height = 0;
  }

  unfoldable pub render : (A → C) → VirtualTable A C → VirtualTable A C
  unfolding clear draw place_rows range_start range_end
  render show s =
      let start = range_start s in
      let end = range_end s in
      let (rows, (pool, fresh)) = draw show s.items s.active (end - start) start s.pool s.next_id in
      let removed = filterb (λ (r : Row C). not (is_drawn s.items start end r.index)) s.active in
      if length s.items == 0 then clear s else record s {
        top_height = start * row_height;
        bottom_height = length s.items * row_height - end * row_height;
        active = rows;
        body = place_rows (row_ids rows) (remove_children (row_ids removed) s.body);
        pool = return_rows removed pool;
        next_id = fresh;
        visible_start = start;
        visible_end = end;
      }

  unfoldable pub set_data : (A → C) → List A → VirtualTable A C → VirtualTable A C
  unfolding render
  set_data show items s = render show (record s { items = items })

  -- The container's `scrollTop` is read.
  unfoldable pub handle_scroll : (A → C) → ℕ → VirtualTable A C → VirtualTable A C
  unfolding render
  handle_scroll show top s = render show (record s { scroll_top = top })

  -- The container's `clientHeight` is read.
  unfoldable pub measure : ℕ → VirtualTable A C → VirtualTable A C
  measure height s = record s { container_height = height; visible_count = measured_count height }

  unfoldable pub handle_resize : (A → C) → ℕ → VirtualTable A C → VirtualTable A C
  unfolding measure render
  handle_resize show height s = render show (measure height s)

  unfoldable pub update_row : (A → C) → ℕ → VirtualTable A C → VirtualTable A C
  update_row show i s = elim (get_elem? s.items i) [
    | none ↦ s
    | some item ↦ record s { active = rewrite_row i (show item) s.active }
  ]

  -- The item that `handleClick` hands on, for the row that was clicked.
  unfoldable pub clicked_item : Row C → VirtualTable A C → Option A
  clicked_item r s = get_elem? s.items r.index
