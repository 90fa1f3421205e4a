-- ===== src/Examples/TableRuns.antt =====
-- A table of numbers.
use serial_tcp_proxy.Prelude.{
  Ascends, List, ℕ, ◌+◌, ◌-◌, ◌*◌, ◌≤◌, ◌<◌, ◌≡◌, refl, some, [], ◌∷◌, length, replicate, map,
  arith,
}
use serial_tcp_proxy.Table.{
  new_table, row_ids, pool_limit, overscan, row_height, Row, VirtualTable, row_at, range_start,
  range_end, render, set_data, clicked_item,
}
use serial_tcp_proxy.Table.Range.{indices, range-InView, render-heights}
use serial_tcp_proxy.Table.Rows.{IsFresh, appended, apply, apply-IsFresh}
use serial_tcp_proxy.Dom.Order.{count}
use serial_tcp_proxy.Table.Layout.{indices_of}
use serial_tcp_proxy.Table.Layout.History.{
  Operation, new_data, scrolled, operate_all, operate_all-laid, operate_all-bounds,
}
use serial_tcp_proxy.Table.Stale.{set_data_keeps_row}

-- A row shows the number behind its own.
abbrev shown_number : ℕ → ℕ
shown_number a = a + 1

abbrev no_rows : VirtualTable ℕ ℕ
no_rows = record {
  items = [];
  scroll_top = 0;
  container_height = 64;
  visible_count = 22;
  visible_start = 0;
  visible_end = 0;
  top_height = 0;
  bottom_height = 0;
  active = [];
  body = [];
  pool = [];
  next_id = 0;
}

-- 80 rows, the first of which stands 1000 pixels above the viewport.
abbrev scrolled_down : VirtualTable ℕ ℕ
scrolled_down = record no_rows { items = replicate 80 7; scroll_top = 1000 }

range-InView_example : (range_start scrolled_down ≤ 32) × (32 < range_end scrolled_down)
range-InView_example = range-InView scrolled_down 32 refl (omega arith) (omega arith, omega arith)

render-heights_example :
    (map (λ (r : Row ℕ). r.index) (render shown_number scrolled_down).active
      ≡ indices (range_end scrolled_down - range_start scrolled_down) (range_start scrolled_down))
    × ((render shown_number scrolled_down).top_height
          + length (render shown_number scrolled_down).active * row_height
          + (render shown_number scrolled_down).bottom_height
        ≡ 80 * row_height)
unfolding range_start
render-heights_example = render-heights shown_number scrolled_down (omega arith)

apply-IsFresh_example :
    IsFresh (λ a c. c ≡ a + 1) (apply shown_number (appended (1 ∷ 2 ∷ [])) no_rows)
apply-IsFresh_example =
    apply-IsFresh (λ a c. c ≡ a + 1) shown_number (λ a. refl) (appended (1 ∷ 2 ∷ [])) no_rows tt

-- Two rows are drawn, and the data is replaced by two others.
abbrev two_drawn : VirtualTable ℕ ℕ
two_drawn = record no_rows {
  items = 1 ∷ 2 ∷ [];
  active =
      record { id = 0; index = 0; content = 2 } ∷ record { id = 1; index = 1; content = 3 } ∷ [];
  body = 0 ∷ 1 ∷ [];
  next_id = 2;
}

two_rendered : (set_data shown_number (1 ∷ 2 ∷ []) no_rows).active ≡ two_drawn.active
unfolding set_data
two_rendered = refl

set_data_keeps_row_example :
    (row_at 1 (set_data shown_number (8 ∷ 9 ∷ []) two_drawn).active
      ≡ some (record { id = 1; index = 1; content = 3 }))
    × (clicked_item
          (record { id = 1; index = 1; content = 3 })
          (set_data shown_number (8 ∷ 9 ∷ []) two_drawn)
        ≡ some 9)
unfolding range_start range_end
set_data_keeps_row_example =
    set_data_keeps_row shown_number (8 ∷ 9 ∷ []) two_drawn 1
      (record { id = 1; index = 1; content = 3 }) refl (omega arith) (omega arith)

-- 80 rows are given, and the container is scrolled down and up again.
abbrev scrolling : List ((ℕ → ℕ) × Operation ℕ)
scrolling =
    (shown_number, new_data (replicate 80 7))
    ∷ (shown_number, scrolled 1000)
    ∷ (shown_number, scrolled 0)
    ∷ []

operate_all-laid_example :
    let s = operate_all scrolling (new_table 64) in
    (s.body ≡ row_ids s.active)
    × ((x : ℕ) → count x (row_ids s.active) + count x s.pool ≤ 1)
    × Ascends (indices_of s.active)
operate_all-laid_example = operate_all-laid scrolling 64

operate_all-bounds_example :
    let s = operate_all scrolling (new_table 64) in
    (length s.pool ≤ pool_limit) × (length s.active ≤ s.visible_count + overscan)
operate_all-bounds_example = operate_all-bounds scrolling 64
