-- ===== src/Table/Layout.antt =====
-- The row elements of internal/web/static/modules/virtual-table.js: in the body, and in the pool.
pub mod Counts
pub mod Drawn
pub mod Kept
pub mod Rendered
pub mod History
use serial_tcp_proxy.Prelude.{Ascends, ℕ, ◌+◌, ◌≤◌, ◌≡◌, refl, arith, List, [], ◌∷◌, length}
use serial_tcp_proxy.Table.{pool_limit, Row, VirtualTable, row_ids, new_table}
use serial_tcp_proxy.Dom.Order.{count}

abbrev pub indices_of : {C : Type 0} → List (Row C) → List ℕ
indices_of [] = []
indices_of (r ∷ rows) = r.index ∷ indices_of rows

-- Every row element is used at most once, in an active row or in the pool, and was created; the
-- indices of the active rows ascend; the body has their elements, in this order; and the pool
-- is not too large.
pub record Laid {A C : Type 0} (s : VirtualTable A C) : Type 0 where
  pub used_once : (x : ℕ) → count x (row_ids s.active) + count x s.pool ≤ 1
  pub created : (x : ℕ) → s.next_id ≤ x → count x (row_ids s.active) + count x s.pool ≡ 0
  pub indices : Ascends (indices_of s.active)
  pub body : s.body ≡ row_ids s.active
  pub pool : length s.pool ≤ pool_limit

pub new_table-Laid : {A C : Type 0} (height : ℕ) → Laid (new_table {A = A} {C = C} height)
unfolding new_table
new_table-Laid height = record {
  used_once = λ x. omega arith;
  created = λ x h. omega arith;
  indices = tt;
  body = refl;
  pool = omega arith;
}
