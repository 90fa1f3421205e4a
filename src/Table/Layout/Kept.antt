-- ===== src/Table/Layout/Kept.antt =====
-- The active rows that the loop of `render` in internal/web/static/modules/virtual-table.js keeps.
use serial_tcp_proxy.Prelude.{
  Ascends, Above, ℕ, zero, suc, ◌+◌, ◌≤◌, ◌<◌, ◌≡◌, ◌≢◌, refl, ap, subst, Bool, true, false, not,
  some, List, [], ◌∷◌, filterb, All, inl, inr, ◌==◌, if◌then◌else◌, Bool-cases, map, arith,
}
use serial_tcp_proxy.Table.{Row, row_at, row_ids}
use serial_tcp_proxy.Table.Range.{indices}
use serial_tcp_proxy.Table.Rows.{All-map}
use serial_tcp_proxy.Dom.Order.{count, Once}
use serial_tcp_proxy.Table.Layout.{indices_of}

Above-count : (i x : ℕ) (l : List ℕ) → Above i l → x ≤ i → count x l ≡ 0
Above-count i x [] a h = refl
Above-count i x (y ∷ l) (lt, a) h = ground (arith, Above-count y x l a (omega (arith, lt, h)))

Above-Once : (i : ℕ) (l : List ℕ) → Above i l → Once l
Above-Once i [] a = tt
Above-Once i (x ∷ l) (lt, a) = (Above-count x x l a (omega arith), Above-Once x l a)

pub Ascends-Once : (l : List ℕ) → Ascends l → Once l
Ascends-Once [] a = tt
Ascends-Once (x ∷ l) a = (Above-count x x l a (omega arith), Above-Once x l a)

indices-Above : (n i j : ℕ) → i < j → Above i (indices n j)
indices-Above zero i j h = tt
indices-Above (suc n) i j h = (h, indices-Above n j (j + 1) (omega arith))

pub indices-Ascends : (n i : ℕ) → Ascends (indices n i)
indices-Ascends zero i = tt
indices-Ascends (suc n) i = indices-Above n i (i + 1) (omega arith)

module _ {C : Type 0} where
  pub indices_of-map : (rows : List (Row C)) → indices_of rows ≡ map (λ (r : Row C). r.index) rows
  indices_of-map [] = refl
  indices_of-map (r ∷ rows) = ap (λ l. r.index ∷ l) (indices_of-map rows)

  -- The row has its element in a list.
  abbrev Stands : List (Row C) → Row C → Type 0
  Stands rows r = row_at r.index rows ≡ some r

  other_index :
      (i : ℕ) (rows : List (Row C))
      → count i (indices_of rows) ≡ 0
      → All (λ (r : Row C). r.index ≢ i) rows
  other_index i [] h = tt
  other_index i (r ∷ rows) h = (ground (arith, h), other_index i rows (omega (arith, h)))

  both :
      (P Q : Row C → Type 0) (rows : List (Row C))
      → All P rows
      → All Q rows
      → All (λ r. P r × Q r) rows
  both P Q [] p q = tt
  both P Q (r ∷ rows) p q = ((p.0, q.0), both P Q rows p.1 q.1)

  pub each-Stands : (rows : List (Row C)) → Once (indices_of rows) → All (Stands rows) rows
  each-Stands [] o = tt
  each-Stands (r ∷ rows) (new, o) = (
    ground arith,
    All-map (λ x (other, q). ground (arith, other, q)) rows
        (both (λ x. x.index ≢ r.index) (Stands rows) rows (other_index r.index rows new)
          (each-Stands rows o)),
  )

  pub row_at-count :
      (i : ℕ) (rows : List (Row C)) (r : Row C)
      → row_at i rows ≡ some r
      → count r.id (row_ids rows) ≢ 0
  row_at-count i [] r q n = absurd (cc)
  row_at-count i (x ∷ rows) r q n = elim (Bool-cases (x.index == i)) [
    | inl t ↦ let same : x ≡ r = ground arith in ground (arith, n, ap (λ (y : Row C). y.id) same)
    | inr f ↦ row_at-count i rows r (ground arith) (ground (arith, n))
  ]

  -- An element of the rows that is in no row of the others belongs to a row that is taken out.
  pub taken_out :
      (x : ℕ) (drawn : ℕ → Bool) (kept rows : List (Row C))
      → All (λ (r : Row C). drawn r.index ≡ true → count r.id (row_ids kept) ≢ 0) rows
      → count x (row_ids kept) ≡ 0
      → count x (row_ids (filterb (λ (r : Row C). not (drawn r.index)) rows)) ≡ 0
      → count x (row_ids rows) ≡ 0
  taken_out x drawn kept [] h k c = refl
  taken_out x drawn kept (r ∷ rows) h k c = elim (Bool-cases (drawn r.index)) [
    | inl t ↦
        let other : (r.id == x) ≡ false = elim (Bool-cases (r.id == x)) [
          | inl same ↦ absurd (h.0 t (subst (λ i. count i (row_ids kept) ≡ 0) (ground arith) k))
          | inr f ↦ f
        ] in
        let rest = taken_out x drawn kept rows h.1 k (ground (arith, c)) in
        ground (arith, rest, other)
    | inr f ↦
        let split : (if r.id == x then 1 else 0)
              + count x (row_ids (filterb (λ (r : Row C). not (drawn r.index)) rows))
            ≡ 0 =
          ground (arith, c) in
        let rest = taken_out x drawn kept rows h.1 k (omega (arith, split)) in
        omega (arith, rest, split)
  ]
