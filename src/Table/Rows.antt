-- ===== src/Table/Rows.antt =====
-- The rows of internal/web/static/modules/virtual-table.js and the items of their indices.
use serial_tcp_proxy.Prelude.{
  ℕ, zero, suc, ◌+◌, ◌≡◌, ap, sym, ◌∙◌, some, List, [], ◌∷◌, ◌++◌, length, get_elem?, All, inl, inr,
  ◌==◌, ==_iff, arith, Option-cases, Bool-cases, subst,
}
use serial_tcp_proxy.Table.{
  Row, VirtualTable, row_at, draw, clear, render, measure, set_data, handle_scroll, handle_resize,
  rewrite_row, update_row,
}
use serial_tcp_proxy.Table.Range.{draw_kept, draw_new}

-- What the table goes through while packets are only appended, or all are cleared.
pub data Change (A : Type 0) : Type 0 where
  appended : List A → Change A
  cleared : Change A
  scrolled : ℕ → Change A
  resized : ℕ → Change A
  row_updated : ℕ → Change A

-- A property of the one row at an index holds if it holds of all.
pub row_at-All :
    {C : Type 0} (P : Row C → Type 0) (i : ℕ) (rows : List (Row C)) (r : Row C)
    → All P rows
    → row_at i rows ≡ some r
    → P r
row_at-All P i [] r h q = absurd (cc)
row_at-All P i (x ∷ rows) r h q = elim (Bool-cases (x.index == i)) [
  | inl t ↦ let same : x ≡ r = ground arith in subst P same h.0
  | inr f ↦ row_at-All P i rows r h.1 (ground arith)
]

pub All-map :
    {C : Type 0} {P Q : Row C → Type 0}
    → ((r : Row C) → P r → Q r)
    → (rows : List (Row C)) → All P rows
    → All Q rows
All-map f [] h = tt
All-map f (r ∷ rows) h = (f r h.0, All-map f rows h.1)

pub get_elem?-append :
    {A : Type 0} (xs ys : List A) (i : ℕ) (a : A)
    → get_elem? xs i ≡ some a
    → get_elem? (xs ++ ys) i ≡ some a
get_elem?-append [] ys i a q = absurd (cc)
get_elem?-append (x ∷ xs) ys zero a q = q
get_elem?-append (x ∷ xs) ys (suc i) a q = get_elem?-append xs ys i a q

module _ {A C : Type 0} where
  -- The row has content that suits the item of its index.
  abbrev pub Shows : (A → C → Type 0) → List A → Row C → Type 0
  Shows P items r = (a : A) × (get_elem? items r.index ≡ some a) × P a r.content

  -- All active rows do.
  abbrev pub IsFresh : (A → C → Type 0) → VirtualTable A C → Type 0
  IsFresh P s = All (Shows P s.items) s.active

  unfoldable pub apply : (A → C) → Change A → VirtualTable A C → VirtualTable A C
  unfolding set_data handle_scroll handle_resize update_row
  apply show (appended more) s = set_data show (s.items ++ more) s
  apply show cleared s = set_data show [] s
  apply show (scrolled top) s = handle_scroll show top s
  apply show (resized height) s = handle_resize show height s
  apply show (row_updated i) s = update_row show i s

  module _ (P : A → C → Type 0) (show : A → C) (suits : (a : A) → P a (show a)) where
    draw-Shows :
        (items : List A) (active : List (Row C)) (count i : ℕ) (pool : List ℕ) (fresh : ℕ)
        → All (Shows P items) active
        → All (Shows P items) (draw show items active count i pool fresh).0
    unfolding draw
    draw-Shows items active zero i pool fresh h = tt
    draw-Shows items active (suc count) i pool fresh h = elim (Option-cases (get_elem? items i)) [
      | inl n ↦ rw (n, draw) (draw-Shows items active count (i + 1) pool fresh h)
      | inr (a, q) ↦ elim (Option-cases (row_at i active)) [
        | inl n ↦
            subst (All (Shows P items)) (sym (draw_new show items active count i pool fresh a q n))
              ((a, q, suits a), draw-Shows items active count (i + 1) _ _ h)
        | inr (r, p) ↦
            subst (All (Shows P items))
              (sym (draw_kept show items active count i pool fresh a r q p))
              (
                row_at-All (Shows P items) i active r h p,
                draw-Shows items active count (i + 1) pool fresh h,
              )
      ]
    ]

    pub render-IsFresh : (s : VirtualTable A C) → IsFresh P s → IsFresh P (render show s)
    unfolding render clear
    render-IsFresh s h = elim (Bool-cases (length s.items == 0)) [
      | inl e ↦ rw (e, render) tt
      | inr f ↦ rw (f, render) (draw-Shows s.items s.active _ _ _ _ h)
    ]

    rewrite_row-Shows :
        (items : List A) (i : ℕ) (a : A) (rows : List (Row C))
        → get_elem? items i ≡ some a
        → All (Shows P items) rows
        → All (Shows P items) (rewrite_row i (show a) rows)
    rewrite_row-Shows items i a [] q h = tt
    rewrite_row-Shows items i a (r ∷ rows) q h = elim (Bool-cases (r.index == i)) [
      | inl t ↦ rw t (
        (a, ap (get_elem? items) ((==_iff r.index i).0 t) ∙ q, suits a),
        rewrite_row-Shows items i a rows q h.1,
      )
      | inr f ↦ rw f (h.0, rewrite_row-Shows items i a rows q h.1)
    ]

    pub cleared_rows : (s : VirtualTable A C) → IsFresh P (set_data show [] s)
    unfolding set_data render clear
    cleared_rows s = tt

    pub appended-IsFresh :
        (more : List A) (s : VirtualTable A C)
        → IsFresh P s
        → IsFresh P (set_data show (s.items ++ more) s)
    unfolding set_data
    appended-IsFresh more s h =
        render-IsFresh (record s { items = s.items ++ more })
          (All-map (λ r (a, q, p). (a, get_elem?-append s.items more r.index a q, p)) s.active h)

    -- While the data only grows at its end or is cleared: scrolling, resizing, new data and
    -- the update of a row keep every active row with a content that suits the item of its
    -- index, if what `renderRow` writes does.
    pub apply-IsFresh :
        (c : Change A) (s : VirtualTable A C) → IsFresh P s → IsFresh P (apply show c s)
    unfolding apply handle_scroll handle_resize measure update_row
    apply-IsFresh (appended more) s h = appended-IsFresh more s h
    apply-IsFresh cleared s h = cleared_rows s
    apply-IsFresh (scrolled top) s h = render-IsFresh (record s { scroll_top = top }) h
    apply-IsFresh (resized height) s h = render-IsFresh (measure height s) h
    apply-IsFresh (row_updated i) s h = elim (Option-cases (get_elem? s.items i)) [
      | inl n ↦ rw (n, update_row) h
      | inr (a, q) ↦ rw (q, update_row) (rewrite_row-Shows s.items i a s.active q h)
    ]
