-- ===== src/Table/Layout/Rendered.antt =====
-- The row elements after `render` of internal/web/static/modules/virtual-table.js.
use serial_tcp_proxy.Prelude.{
  Ascends, ℕ, zero, suc, ◌+◌, ◌-◌, ◌≤◌, ◌<◌, ◌≡◌, ◌≢◌, ap, sym, ◌∙◌, subst, true, false, not, List,
  length, length-map, filterb, leb, All, inl, inr, ◌==◌, Bool-cases, arith,
}
use serial_tcp_proxy.Table.{
  pool_limit, overscan, Row, VirtualTable, row_ids, return_rows, draw, is_drawn, range_start,
  range_end, clear, render,
}
use serial_tcp_proxy.Table.Range.{length-indices, draw-indices, range_end-le}
use serial_tcp_proxy.Table.Rows.{All-map}
use serial_tcp_proxy.Table.Stale.{draw-row_at}
use serial_tcp_proxy.Dom.{place_rows, remove_children}
use serial_tcp_proxy.Dom.Order.{count, place_rows_lem}
use serial_tcp_proxy.Dom.Removed.{removed_or_absent, remove_children_all, Once-of_counts}
use serial_tcp_proxy.Table.Layout.{indices_of, Laid}
use serial_tcp_proxy.Table.Layout.Counts.{
  given_out, count-return_rows, length-return_rows, count-removed_rows,
}
use serial_tcp_proxy.Table.Layout.Drawn.{draw-Balanced}
use serial_tcp_proxy.Table.Layout.Kept.{
  Ascends-Once, indices-Ascends, indices_of-map, each-Stands, row_at-count, taken_out,
}

drawn-Ascends :
    {A C : Type 0} (show : A → C) (items : List A) (active : List (Row C)) (n i : ℕ) (pool : List ℕ)
    (fresh : ℕ)
    → (n ≢ 0 → i + n ≤ length items)
    → Ascends (indices_of (draw show items active n i pool fresh).0)
unfolding draw
drawn-Ascends show items active zero i pool fresh h = tt
drawn-Ascends show items active (suc n) i pool fresh h =
    let inside = h (λ e. omega (arith, e)) in
    subst Ascends
      (sym (indices_of-map _ ∙ draw-indices show items active (suc n) i pool fresh inside))
      (indices-Ascends (suc n) i)

drawn_range :
    {A : Type 0} (items : List A) (start end j : ℕ)
    → is_drawn items start end j ≡ true
    → (start ≤ j) × (j < end)
drawn_range items start end j h = ground (arith, h)

length-draw :
    {A C : Type 0} (show : A → C) (items : List A) (active : List (Row C)) (n i : ℕ) (pool : List ℕ)
    (fresh : ℕ)
    → (n ≢ 0 → i + n ≤ length items)
    → length (draw show items active n i pool fresh).0 ≤ n
unfolding draw
length-draw {C = C} show items active zero i pool fresh h = omega arith
length-draw {C = C} show items active (suc n) i pool fresh h =
    let indices_then =
      draw-indices show items active (suc n) i pool fresh (h (λ e. omega (arith, e))) in
    omega (
      arith,
      ap length indices_then,
      length-map (λ (r : Row C). r.index) _,
      length-indices (suc n) i,
    )

module _ {A C : Type 0} (show : A → C) (s : VirtualTable A C) (v : Laid s) where
  abbrev start : ℕ
  start = range_start s

  abbrev end : ℕ
  end = range_end s

  abbrev out : List (Row C) × (List ℕ × ℕ)
  out = draw show s.items s.active (end - start) start s.pool s.next_id

  abbrev removed : List (Row C)
  removed = filterb (λ (r : Row C). not (is_drawn s.items start end r.index)) s.active

  abbrev pool_then : List ℕ
  pool_then = return_rows removed out.1.0

  inside : end - start ≢ 0 → start + (end - start) ≤ length s.items
  inside n = omega (arith, n, range_end-le s)

  balanced :
      (x : ℕ)
      → count x (row_ids out.0) + count x pool_then
        ≤ count x (row_ids s.active) + count x s.pool + given_out s.next_id out.1.1 x
  balanced x = omega (
    arith,
    (draw-Balanced show s.items s.active (end - start) start s.pool s.next_id inside).0 x,
    count-return_rows x removed out.1.0,
    count-removed_rows x s.items start end s.active (range_end-le s),
  )

  more_created : s.next_id ≤ out.1.1
  more_created =
      (draw-Balanced show s.items s.active (end - start) start s.pool s.next_id inside).1.0

  smaller_pool : length out.1.0 ≤ pool_limit
  smaller_pool = omega (
    arith,
    (draw-Balanced show s.items s.active (end - start) start s.pool s.next_id inside).1.1,
    v.pool,
  )

  used_then : (x : ℕ) → count x (row_ids out.0) + count x pool_then ≤ 1
  used_then x = elim (Bool-cases (leb s.next_id x)) [
    | inl new ↦ ground (arith, balanced x, v.created x (ground arith))
    | inr old ↦ ground (arith, balanced x, v.used_once x)
  ]

  created_then : (x : ℕ) → out.1.1 ≤ x → count x (row_ids out.0) + count x pool_then ≡ 0
  created_then x h =
      ground (arith, balanced x, more_created, h, v.created x (omega (arith, h, more_created)))

  kept_then :
      All
        (λ (r : Row C). is_drawn s.items start end r.index ≡ true → count r.id (row_ids out.0) ≢ 0)
        s.active
  kept_then =
      All-map
        (λ r q drawn. row_at-count r.index out.0 r (
          draw-row_at show s.items s.active (end - start) start s.pool s.next_id r.index r
            (omega (arith, drawn_range s.items start end r.index drawn, range_end-le s))
            (omega (arith, drawn_range s.items start end r.index drawn))
            (omega (arith, drawn_range s.items start end r.index drawn)) q))
        s.active (each-Stands s.active (Ascends-Once (indices_of s.active) v.indices))

  body_then : place_rows (row_ids out.0) (remove_children (row_ids removed) s.body) ≡ row_ids out.0
  body_then =
      place_rows_lem (row_ids out.0) (remove_children (row_ids removed) s.body)
        (Once-of_counts (row_ids out.0) (λ x. omega (arith, used_then x)))
        (λ x absent. removed_or_absent x (row_ids removed) s.body (λ stays.
          ap (count x) v.body
          ∙ taken_out x (is_drawn s.items start end) out.0 s.active kept_then absent stays))

  filled-Laid : (length s.items == 0) ≡ false → Laid (render show s)
  unfolding render
  filled-Laid filled =
      rw (filled, render)
        (record {
          used_once = used_then;
          created = created_then;
          indices = drawn-Ascends show s.items s.active (end - start) start s.pool s.next_id inside;
          body = body_then;
          pool = length-return_rows removed out.1.0 smaller_pool;
        })

  cleared-Laid : Laid (clear s)
  unfolding clear
  cleared-Laid = record {
    used_once = λ x. omega (arith, count-return_rows x s.active s.pool, v.used_once x);
    created = λ x h. omega (arith, count-return_rows x s.active s.pool, v.created x h);
    indices = tt;
    body = ap (remove_children (row_ids s.active)) v.body ∙ remove_children_all (row_ids s.active);
    pool = length-return_rows s.active s.pool v.pool;
  }

  pub render-Laid : Laid (render show s)
  unfolding render
  render-Laid = elim (Bool-cases (length s.items == 0)) [
    | inl e ↦ rw (e, render) cleared-Laid
    | inr f ↦ filled-Laid f
  ]

  -- The rows that are drawn are not more than those of the viewport and of both margins.
  pub render-few : length (render show s).active ≤ s.visible_count + overscan
  unfolding render range_end clear
  render-few = elim (Bool-cases (length s.items == 0)) [
    | inl e ↦ rw (e, render) (omega arith)
    | inr f ↦
        rw (f, render)
          (omega
            (arith, length-draw show s.items s.active (end - start) start s.pool s.next_id inside))
  ]
