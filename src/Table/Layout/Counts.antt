-- ===== src/Table/Layout/Counts.antt =====
-- How often a row element is used, before and after the loop of `render` in
-- internal/web/static/modules/virtual-table.js.
use serial_tcp_proxy.Prelude.{
  ℕ, ◌+◌, ◌-◌, ◌≤◌, ◌<◌, ◌≡◌, subst, true, false, not, ◌&&◌, some, List, [], ◌∷◌, length, filterb,
  leb, ltb, inl, inr, ◌==◌, if◌then◌else◌, Bool-cases, arith,
}
use serial_tcp_proxy.Table.{Row, row_at, row_ids, return_row, return_rows, pool_limit, is_drawn}
use serial_tcp_proxy.Table.Range.{get_elem?-some}
use serial_tcp_proxy.Dom.Order.{count}

-- An identity that is given out from `a` on and below `b`.
abbrev pub given_out : ℕ → ℕ → ℕ → ℕ
given_out a b x = if leb a x && ltb x b then 1 else 0

drawn_in_range :
    {A : Type 0} (items : List A) (start end j : ℕ)
    → end ≤ length items
    → start ≤ j
    → j < end
    → is_drawn items start end j ≡ true
drawn_in_range items start end j h lo hi =
    let (a, q) = get_elem?-some items j (omega (arith, h, hi)) in rw q (ground (arith, lo, hi))

-- An index that was not drawn is not in the range.
out_of_range :
    {A : Type 0} (items : List A) (start end j : ℕ)
    → end ≤ length items
    → is_drawn items start end j ≡ false
    → (leb start j && ltb j (start + (end - start))) ≡ false
out_of_range items start end j h f =
    elim (Bool-cases (leb start j && ltb j (start + (end - start)))) [
      | inl t ↦ absurd (cc (f, drawn_in_range items start end j h (ground arith) (ground arith)))
      | inr g ↦ g
    ]

module _ {C : Type 0} where
  -- The rows with the element `x` whose index is from `lo` on and below `hi`.
  abbrev pub used_in : ℕ → ℕ → ℕ → List (Row C) → ℕ
  used_in x lo hi [] = 0
  used_in x lo hi (r ∷ rows) =
      (if r.id == x && (leb lo r.index && ltb r.index hi) then 1 else 0) + used_in x lo hi rows

  pub used_in_less :
      (x lo hi : ℕ) (rows : List (Row C)) → used_in x (lo + 1) hi rows ≤ used_in x lo hi rows
  used_in_less x lo hi [] = omega arith
  used_in_less x lo hi (r ∷ rows) = ground (arith, used_in_less x lo hi rows)

  -- The row at an index is used besides those behind it.
  pub used_in_kept :
      (x i hi : ℕ) (rows : List (Row C)) (r : Row C)
      → row_at i rows ≡ some r
      → i < hi
      → (if r.id == x then 1 else 0) + used_in x (i + 1) hi rows ≤ used_in x i hi rows
  used_in_kept x i hi [] r q h = absurd (cc)
  used_in_kept x i hi (y ∷ rows) r q h = elim (Bool-cases (y.index == i)) [
    | inl t ↦
        let same : y ≡ r = ground arith in
        subst
          (λ (z : Row C).
            (if z.id == x then 1 else 0) + used_in x (i + 1) hi (y ∷ rows)
            ≤ used_in x i hi (y ∷ rows))
          same (ground (arith, h, used_in_less x i hi rows))
    | inr f ↦ ground (arith, used_in_kept x i hi rows r (ground arith) h)
  ]

  pub count-return_rows :
      (x : ℕ) (rows : List (Row C)) (pool : List ℕ)
      → count x (return_rows rows pool) ≤ count x (row_ids rows) + count x pool
  count-return_rows x [] pool = omega arith
  count-return_rows x (r ∷ rows) pool =
      ground (arith, count-return_rows x rows (return_row r.id pool))

  pub length-return_rows :
      (rows : List (Row C)) (pool : List ℕ)
      → length pool ≤ pool_limit
      → length (return_rows rows pool) ≤ pool_limit
  length-return_rows [] pool h = h
  length-return_rows (r ∷ rows) pool h =
      length-return_rows rows (return_row r.id pool) (ground (arith, h))

  -- The rows that are removed and those whose index is in the range.
  pub count-removed_rows :
      {A : Type 0} (x : ℕ) (items : List A) (start end : ℕ) (rows : List (Row C))
      → end ≤ length items
      → count x (row_ids (filterb (λ (r : Row C). not (is_drawn items start end r.index)) rows))
          + used_in x start (start + (end - start)) rows
        ≤ count x (row_ids rows)
  count-removed_rows x items start end [] h = omega arith
  count-removed_rows x items start end (r ∷ rows) h =
      let rest = count-removed_rows x items start end rows h in
      elim (Bool-cases (is_drawn items start end r.index)) [
        | inl t ↦ rw t (ground (arith, rest))
        | inr f ↦ rw f (ground (arith, rest, out_of_range items start end r.index h f))
      ]
