-- ===== src/Table/Layout/History.antt =====
-- Histories of the table of internal/web/static/modules/virtual-table.js.
use serial_tcp_proxy.Prelude.{
  Ascends, ℕ, ◌+◌, ◌≤◌, ◌≡◌, refl, sym, ◌∙◌, subst, List, [], ◌∷◌, length, get_elem?, inl, inr,
  ◌==◌, Bool-cases, Option-cases, arith,
}
use serial_tcp_proxy.Table.{
  pool_limit, overscan, measured_count, Row, VirtualTable, row_ids, rewrite_row, new_table, render,
  clear, measure, set_data, handle_scroll, handle_resize, update_row,
}
use serial_tcp_proxy.Dom.Order.{count}
use serial_tcp_proxy.Table.Layout.{indices_of, Laid, new_table-Laid}
use serial_tcp_proxy.Table.Layout.Rendered.{render-Laid, render-few}

-- The calls of the table's methods, and the container's events.
pub data Operation (A : Type 0) : Type 0 where
  new_data : List A → Operation A
  scrolled : ℕ → Operation A
  resized : ℕ → Operation A
  row_updated : ℕ → Operation A

module _ {C : Type 0} where
  rewritten :
      (i : ℕ) (c : C) (rows : List (Row C))
      → (row_ids (rewrite_row i c rows) ≡ row_ids rows)
        × (indices_of (rewrite_row i c rows) ≡ indices_of rows)
        × (length (rewrite_row i c rows) ≡ length rows)
  rewritten i c [] = (refl, refl, refl)
  rewritten i c (r ∷ rows) =
      let (ids, indices, same) = rewritten i c rows in
      elim (Bool-cases (r.index == i)) [
        | inl t ↦ rw t (rw (ids, indices, same) (refl, refl, refl))
        | inr f ↦ rw f (rw (ids, indices, same) (refl, refl, refl))
      ]

module _ {A C : Type 0} where
  unfoldable pub operate : (A → C) → Operation A → VirtualTable A C → VirtualTable A C
  unfolding set_data handle_scroll handle_resize update_row
  operate show (new_data items) s = set_data show items s
  operate show (scrolled top) s = handle_scroll show top s
  operate show (resized height) s = handle_resize show height s
  operate show (row_updated i) s = update_row show i s

  -- Each operation comes with what `renderRow` writes then.
  unfoldable pub operate_all : List ((A → C) × Operation A) → VirtualTable A C → VirtualTable A C
  unfolding operate
  operate_all [] s = s
  operate_all ((show, o) ∷ ops) s = operate_all ops (operate show o s)

  -- The rows are laid out, and not more than those of the viewport and of both margins.
  abbrev pub Tidy : VirtualTable A C → Type 0
  Tidy s = Laid s × (length s.active ≤ s.visible_count + overscan)

  visible_kept :
      (show : A → C) (s : VirtualTable A C) → s.visible_count ≡ (render show s).visible_count
  unfolding render clear
  visible_kept show s = elim (Bool-cases (length s.items == 0)) [
    | inl e ↦ rw (e, render) refl
    | inr f ↦ rw (f, render) refl
  ]

  render-Tidy : (show : A → C) (s : VirtualTable A C) → Laid s → Tidy (render show s)
  render-Tidy show s v = (
    render-Laid show s v,
    subst (λ n. length (render show s).active ≤ n + overscan) (visible_kept show s)
        (render-few show s v),
  )

  -- What is read anew before rendering.
  moved-Laid :
      (items : List A) (top height count : ℕ) (s : VirtualTable A C)
      → Laid s
      → Laid (record s {
        items = items;
        scroll_top = top;
        container_height = height;
        visible_count = count;
      })
  moved-Laid items top height count s v = record {
    used_once = v.used_once;
    created = v.created;
    indices = v.indices;
    body = v.body;
    pool = v.pool;
  }

  row_updated-Tidy :
      (i : ℕ) (c : C) (s : VirtualTable A C)
      → Tidy s
      → Tidy (record s { active = rewrite_row i c s.active })
  row_updated-Tidy i c s (v, few) =
      let (ids, indices, same) = rewritten i c s.active in
      (
        record {
          used_once = λ x. subst (λ l. count x l + count x s.pool ≤ 1) (sym ids) (v.used_once x);
          created = λ x h. subst (λ l. count x l + count x s.pool ≡ 0) (sym ids) (v.created x h);
          indices = subst Ascends (sym indices) v.indices;
          body = v.body ∙ sym ids;
          pool = v.pool;
        },
        omega (arith, same, few),
      )

  new-Tidy : (height : ℕ) → Tidy (new_table height)
  unfolding new_table
  new-Tidy height = (new_table-Laid height, omega arith)

  operate-Tidy :
      (show : A → C) (o : Operation A) (s : VirtualTable A C) → Tidy s → Tidy (operate show o s)
  unfolding operate set_data handle_scroll handle_resize measure update_row
  operate-Tidy show (new_data items) s (v, _) =
      render-Tidy show _ (moved-Laid items s.scroll_top s.container_height s.visible_count s v)
  operate-Tidy show (scrolled top) s (v, _) =
      render-Tidy show _ (moved-Laid s.items top s.container_height s.visible_count s v)
  operate-Tidy show (resized height) s (v, _) =
      render-Tidy show _ (moved-Laid s.items s.scroll_top height (measured_count height) s v)
  operate-Tidy show (row_updated i) s v = elim (Option-cases (get_elem? s.items i)) [
    | inl n ↦ rw (n, update_row) v
    | inr (a, q) ↦ rw (q, update_row) (row_updated-Tidy i (show a) s v)
  ]

  operate_all-Tidy :
      (ops : List ((A → C) × Operation A)) (s : VirtualTable A C)
      → Tidy s
      → Tidy (operate_all ops s)
  unfolding operate_all
  operate_all-Tidy [] s v = v
  operate_all-Tidy ((show, o) ∷ ops) s v =
      operate_all-Tidy ops (operate show o s) (operate-Tidy show o s v)

  -- After every history of new data, scrolling, resizing and updates of rows, with whatever
  -- contents: the indices of the active rows ascend, the body has their elements in this order,
  -- and every element is used at most once, in an active row or in the pool.
  pub operate_all-laid :
      (ops : List ((A → C) × Operation A)) (height : ℕ)
      → let s = operate_all ops (new_table height) in
        (s.body ≡ row_ids s.active)
        × ((x : ℕ) → count x (row_ids s.active) + count x s.pool ≤ 1)
        × Ascends (indices_of s.active)
  operate_all-laid ops height =
      let (v, _) = operate_all-Tidy ops (new_table height) (new-Tidy height) in
      (v.body, v.used_once, v.indices)

  -- After every history of new data, scrolling, resizing and updates of rows, the pool has at
  -- most 100 elements, and the active rows are at most ten more than the rows that the table
  -- counts as visible with its margins.
  pub operate_all-bounds :
      (ops : List ((A → C) × Operation A)) (height : ℕ)
      → let s = operate_all ops (new_table height) in
        (length s.pool ≤ pool_limit) × (length s.active ≤ s.visible_count + overscan)
  operate_all-bounds ops height =
      let (v, few) = operate_all-Tidy ops (new_table height) (new-Tidy height) in (v.pool, few)
