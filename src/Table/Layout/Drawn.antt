-- ===== src/Table/Layout/Drawn.antt =====
-- The row elements that the loop of `render` in internal/web/static/modules/virtual-table.js uses.
use serial_tcp_proxy.Prelude.{
  ℕ, zero, suc, ◌+◌, ◌≤◌, ◌<◌, ◌≡◌, ◌≢◌, refl, sym, subst, none, some, List, [], ◌∷◌, length,
  get_elem?, inl, inr, Option-cases, arith,
}
use serial_tcp_proxy.Table.{Row, take_row, row_at, row_ids, draw}
use serial_tcp_proxy.Table.Range.{get_elem?-some}
use serial_tcp_proxy.Dom.Order.{count}
use serial_tcp_proxy.Table.Layout.Counts.{used_in, used_in_less, used_in_kept, given_out}

module _ {C : Type 0} where
  -- The elements of the rows that are drawn were those of active rows of the range, or in the pool,
  -- or are new; none is used more often than before.
  abbrev pub Balanced : List (Row C) → ℕ → ℕ → List ℕ → ℕ → List (Row C) × (List ℕ × ℕ) → Type 0
  Balanced active i hi pool fresh (rows, (pool', fresh')) =
      ((x : ℕ)
        → count x (row_ids rows) + count x pool'
          ≤ used_in x i hi active + count x pool + given_out fresh fresh' x)
      × ((fresh ≤ fresh') × (length pool' ≤ length pool))

  kept-Balanced :
      (active : List (Row C)) (i hi : ℕ) (pool : List ℕ) (fresh : ℕ) (r : Row C)
      (rows : List (Row C)) (pool' : List ℕ) (fresh' : ℕ)
      → row_at i active ≡ some r
      → i < hi
      → Balanced active (i + 1) hi pool fresh (rows, (pool', fresh'))
      → Balanced active i hi pool fresh (r ∷ rows, (pool', fresh'))
  kept-Balanced active i hi pool fresh r rows pool' fresh' q h (b, more) =
      (λ x. omega (arith, used_in_kept x i hi active r q h, b x), more)

  new-Balanced :
      (active : List (Row C)) (i hi : ℕ) (pool : List ℕ) (fresh : ℕ) (c : C) (rows : List (Row C))
      (pool' : List ℕ) (fresh' : ℕ)
      → let (id, (pool1, fresh1)) = take_row pool fresh in
        Balanced active (i + 1) hi pool1 fresh1 (rows, (pool', fresh'))
        → Balanced active i hi pool fresh
            (record { id = id; index = i; content = c } ∷ rows, (pool', fresh'))
  new-Balanced active i hi [] fresh c rows pool' fresh' (b, more) =
      (λ x. ground (arith, used_in_less x i hi active, b x, more), (omega (arith, more), more.1))
  new-Balanced active i hi (id ∷ pool) fresh c rows pool' fresh' (b, more) =
      (λ x. ground (arith, used_in_less x i hi active, b x), (more.0, omega (arith, more)))

module _ {A C : Type 0} where
  draw_kept_all :
      (show : A → C) (items : List A) (active : List (Row C)) (n i : ℕ) (pool : List ℕ) (fresh : ℕ)
      (a : A) (r : Row C)
      → get_elem? items i ≡ some a
      → row_at i active ≡ some r
      → let (rows, left) = draw show items active n (i + 1) pool fresh in
        draw show items active (suc n) i pool fresh ≡ (r ∷ rows, left)
  unfolding draw
  draw_kept_all show items active n i pool fresh a r q p = rw (q, draw) (rw p refl)

  draw_new_all :
      (show : A → C) (items : List A) (active : List (Row C)) (n i : ℕ) (pool : List ℕ) (fresh : ℕ)
      (a : A)
      → get_elem? items i ≡ some a
      → row_at i active ≡ none
      → let (id, (pool', fresh')) = take_row pool fresh in
        let (rows, left) = draw show items active n (i + 1) pool' fresh' in
        draw show items active (suc n) i pool fresh
        ≡ (record { id = id; index = i; content = show a } ∷ rows, left)
  unfolding draw
  draw_new_all show items active n i pool fresh a q p = rw (q, draw) (rw p refl)

  pub draw-Balanced :
      (show : A → C) (items : List A) (active : List (Row C)) (n i : ℕ) (pool : List ℕ) (fresh : ℕ)
      → (n ≢ 0 → i + n ≤ length items)
      → Balanced active i (i + n) pool fresh (draw show items active n i pool fresh)
  unfolding draw
  draw-Balanced show items active zero i pool fresh h =
      (λ x. omega arith, (omega arith, omega arith))
  draw-Balanced show items active (suc n) i pool fresh h =
      let inside = h (λ e. omega (arith, e)) in
      let (a, found) = get_elem?-some items i (omega (arith, inside)) in
      let shift : i + 1 + n ≡ i + suc n = omega arith in
      elim (Option-cases (row_at i active)) [
        | inl none_there ↦
            let (id, (pool1, fresh1)) = take_row pool fresh in
            subst (Balanced active i (i + suc n) pool fresh)
              (sym (draw_new_all show items active n i pool fresh a found none_there))
              (new-Balanced active i (i + suc n) pool fresh (show a) _ _ _ (
                subst
                  (λ hi.
                    Balanced active (i + 1) hi pool1 fresh1
                      (draw show items active n (i + 1) pool1 fresh1))
                  shift
                  (draw-Balanced show items active n (i + 1) pool1 fresh1
                    (λ _. omega (arith, inside)))))
        | inr (r, there) ↦
            subst (Balanced active i (i + suc n) pool fresh)
              (sym (draw_kept_all show items active n i pool fresh a r found there))
              (kept-Balanced active i (i + suc n) pool fresh r _ _ _ there (omega arith) (
                subst
                  (λ hi.
                    Balanced active (i + 1) hi pool fresh
                      (draw show items active n (i + 1) pool fresh))
                  shift
                  (draw-Balanced show items active n (i + 1) pool fresh
                    (λ _. omega (arith, inside)))))
      ]
