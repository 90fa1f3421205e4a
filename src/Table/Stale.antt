-- ===== src/Table/Stale.antt =====
-- New data in the table of internal/web/static/modules/virtual-table.js.
use serial_tcp_proxy.Prelude.{
  ℕ, zero, suc, ◌+◌, ◌-◌, ◌≤◌, ◌<◌, ◌≡◌, ap, ◌∙◌, false, some, List, length, get_elem?, inl, inr,
  ◌==◌, arith, Option-cases,
}
use serial_tcp_proxy.Table.{
  Row, VirtualTable, take_row, row_at, range_start, range_end, draw, set_data, clicked_item,
}
use serial_tcp_proxy.Table.Range.{
  draw_kept, draw_new, row_at-index, get_elem?-some, render_active, render_items, range_end-le,
}

module _ {A C : Type 0} where
  pub draw-row_at :
      (show : A → C) (items : List A) (active : List (Row C)) (count i : ℕ) (pool : List ℕ)
      (fresh j : ℕ) (r : Row C)
      → i + count ≤ length items
      → i ≤ j
      → j < i + count
      → row_at j active ≡ some r
      → row_at j (draw show items active count i pool fresh).0 ≡ some r
  draw-row_at show items active zero i pool fresh j r h lo hi q = absurd (omega arith)
  draw-row_at show items active (suc count) i pool fresh j r h lo hi q =
      let (a, found) = get_elem?-some items i (omega arith) in
      elim (Option-cases (row_at i active)) [
        | inl n ↦
            ap (row_at j) (draw_new show items active count i pool fresh a found n)
            ∙ ground (
              arith,
              draw-row_at show items active count (i + 1) (take_row pool fresh).1.0
                  (take_row pool fresh).1.1 j r,
            )
        | inr (x, p) ↦
            ap (row_at j) (draw_kept show items active count i pool fresh a x found p)
            ∙ ground (
              arith,
              row_at-index i active x p,
              draw-row_at show items active count (i + 1) pool fresh j r,
            )
      ]

  -- A row that is active and whose index is in the visible range of the new data keeps the
  -- content of the old data, whatever the new data is, while a click on it takes the item of
  -- the new data.
  pub set_data_keeps_row :
      (show : A → C) (items : List A) (s : VirtualTable A C) (j : ℕ) (r : Row C)
      → row_at j s.active ≡ some r
      → range_start (record s { items = items }) ≤ j
      → j < range_end (record s { items = items })
      → (row_at j (set_data show items s).active ≡ some r)
        × (clicked_item r (set_data show items s) ≡ get_elem? items j)
  unfolding set_data clicked_item
  set_data_keeps_row show items s j r q lo hi =
      let s' = record s { items = items } in
      let filled : (length items == 0) ≡ false = ground (arith, range_end-le s') in
      (
        ap (row_at j) (render_active show s' filled)
            ∙ draw-row_at show items s.active (range_end s' - range_start s') (range_start s')
                s.pool s.next_id j r (omega (arith, range_end-le s')) lo (omega arith) q,
        ap (λ l. get_elem? l r.index) (render_items show s')
            ∙ ap (get_elem? items) (row_at-index j s.active r q),
      )
