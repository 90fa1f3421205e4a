-- ===== src/Table/Range.antt =====
-- The visible range and the spacers of internal/web/static/modules/virtual-table.js.
use mathlib.Core.Path.{ap₂}
use serial_tcp_proxy.Prelude.{
  ℕ, zero, suc, ◌+◌, ◌-◌, ◌*◌, ◌≤◌, ◌<◌, ◌≡◌, refl, length-map, ap, sym, ◌∙◌, false, none, some,
  List, [], ◌∷◌, length, get_elem?, map, inl, inr, ◌==◌, arith, Option-cases, Bool-cases,
}
use serial_tcp_proxy.Table.{
  row_height, Row, VirtualTable, measured_count, take_row, row_at, range_start, range_end, draw,
  clear, render,
}

-- The indices that count up from `i`.
abbrev pub indices : ℕ → ℕ → List ℕ
indices zero i = []
indices (suc count) i = i ∷ indices count (i + 1)

pub length-indices : (count i : ℕ) → length (indices count i) ≡ count
length-indices zero i = refl
length-indices (suc count) i = ap suc (length-indices count (i + 1))

module _ {A : Type 0} where
  pub get_elem?-some : (l : List A) (i : ℕ) → i < length l → (a : A) × (get_elem? l i ≡ some a)
  get_elem?-some [] i h = absurd (omega arith)
  get_elem?-some (a ∷ l) zero h = (a, refl)
  get_elem?-some (a ∷ l) (suc i) h = get_elem?-some l i (omega arith)

  pub row_at-index :
      (i : ℕ) (rows : List (Row A)) (r : Row A) → row_at i rows ≡ some r → r.index ≡ i
  row_at-index i [] r q = absurd (cc)
  row_at-index i (x ∷ rows) r q = ground (arith, row_at-index i rows r)

module _ {A C : Type 0} where
  -- The row of the index `j`, at its height in the whole list, shows in the viewport.
  abbrev pub InView : VirtualTable A C → ℕ → Type 0
  InView s j =
      (j * row_height < s.scroll_top + s.container_height)
      × (s.scroll_top < j * row_height + row_height)

  -- In a measured table, every row of the data that shows in the viewport is in the visible
  -- range.
  pub range-InView :
      (s : VirtualTable A C) (j : ℕ)
      → s.visible_count ≡ measured_count s.container_height
      → j < length s.items
      → InView s j
      → (range_start s ≤ j) × (j < range_end s)
  unfolding range_start range_end
  range-InView s j m l v = (omega (arith), omega (arith))

  -- A round of the loop at an index of the items: with a row that is active, and with none.
  pub draw_kept :
      (show : A → C) (items : List A) (active : List (Row C)) (count i : ℕ) (pool : List ℕ)
      (fresh : ℕ) (a : A) (r : Row C)
      → get_elem? items i ≡ some a
      → row_at i active ≡ some r
      → (draw show items active (suc count) i pool fresh).0
        ≡ r ∷ (draw show items active count (i + 1) pool fresh).0
  unfolding draw
  draw_kept show items active count i pool fresh a r q p = rw (q, draw) (rw p refl)

  pub draw_new :
      (show : A → C) (items : List A) (active : List (Row C)) (count i : ℕ) (pool : List ℕ)
      (fresh : ℕ) (a : A)
      → get_elem? items i ≡ some a
      → row_at i active ≡ none
      → let (id, (pool', fresh')) = take_row pool fresh in
        (draw show items active (suc count) i pool fresh).0
        ≡ record { id = id; index = i; content = show a }
          ∷ (draw show items active count (i + 1) pool' fresh').0
  unfolding draw
  draw_new show items active count i pool fresh a q n = rw (q, draw) (rw n refl)

  pub draw-indices :
      (show : A → C) (items : List A) (active : List (Row C)) (count i : ℕ) (pool : List ℕ)
      (fresh : ℕ)
      → i + count ≤ length items
      → map (λ (r : Row C). r.index) (draw show items active count i pool fresh).0 ≡ indices count i
  unfolding draw
  draw-indices show items active zero i pool fresh h = refl
  draw-indices show items active (suc count) i pool fresh h =
      let (a, q) = get_elem?-some items i (omega arith) in
      elim (Option-cases (row_at i active)) [
        | inl n ↦
            ap (map (λ (r : Row C). r.index)) (draw_new show items active count i pool fresh a q n)
            ∙ ap (◌∷◌ i) (draw-indices show items active count (i + 1) _ _ (omega arith))
        | inr (r, p) ↦
            ap (map (λ (r : Row C). r.index))
              (draw_kept show items active count i pool fresh a r q p)
            ∙ ap₂ ◌∷◌ (row_at-index i active r p)
                (draw-indices show items active count (i + 1) pool fresh (omega arith))
      ]

  -- What `render` leaves, for a table that has data.
  pub render_active :
      (show : A → C) (s : VirtualTable A C)
      → (length s.items == 0) ≡ false
      → (render show s).active
        ≡ (draw show s.items s.active
            (range_end s - range_start s)
            (range_start s)
            s.pool
            s.next_id).0
  unfolding render
  render_active show s f = rw (f, render) refl

  pub render_items : (show : A → C) (s : VirtualTable A C) → (render show s).items ≡ s.items
  unfolding render clear
  render_items show s = elim (Bool-cases (length s.items == 0)) [
    | inl e ↦ rw (e, render) refl
    | inr f ↦ rw (f, render) refl
  ]

  pub range_end-le : (s : VirtualTable A C) → range_end s ≤ length s.items
  unfolding range_end
  range_end-le s = omega arith

  range_start-le :
      (s : VirtualTable A C) → range_start s ≤ length s.items → range_start s ≤ range_end s
  unfolding range_end
  range_start-le s h = omega arith

  -- After rendering a table whose data has not shrunk above the scroll position: the rows that
  -- are drawn are those of the visible range, in order, and together with the two spacers they
  -- are as high as all rows of the data.
  pub render-heights :
      (show : A → C) (s : VirtualTable A C)
      → range_start s ≤ length s.items
      → (map (λ (r : Row C). r.index) (render show s).active
          ≡ indices (range_end s - range_start s) (range_start s))
        × ((render show s).top_height
              + length (render show s).active * row_height
              + (render show s).bottom_height
            ≡ length s.items * row_height)
  unfolding render
  render-heights show s h = elim (Bool-cases (length s.items == 0)) [
    | inl e ↦
        let empty : range_end s - range_start s ≡ 0 = ground (arith, range_end-le s) in
        rw (e, render) (sym (ap (λ k. indices k (range_start s)) empty), ground arith)
    | inr f ↦
        let drawn =
          draw-indices show s.items s.active (range_end s - range_start s) (range_start s) s.pool
            s.next_id (omega (arith, range_end-le s, range_start-le s h)) in
        let count =
          sym (length-map (λ (r : Row C). r.index) _) ∙ ap length drawn ∙ length-indices _ _ in
        rw (f, render) (drawn, omega (arith, range_end-le s, range_start-le s h, count))
  ]
