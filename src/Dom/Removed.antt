-- ===== src/Dom/Removed.antt =====
-- Several children that leave the table's body.
use serial_tcp_proxy.Prelude.{
  ℕ, ◌≤◌, ◌≡◌, ◌≢◌, refl, inl, inr, List, [], ◌∷◌, ◌==◌, Bool-cases, arith,
}
use serial_tcp_proxy.Dom.{remove_child, remove_children}
use serial_tcp_proxy.Dom.Order.{count, Once, count-removed, count-remove_le, no_count-nil}

count-remove_children_le :
    (x : ℕ) (ids body : List ℕ) → count x (remove_children ids body) ≤ count x body
count-remove_children_le x [] body = omega arith
count-remove_children_le x (id ∷ ids) body =
    omega (arith, count-remove_children_le x ids (remove_child id body), count-remove_le x id body)

count-remove_children :
    (x : ℕ) (ids body : List ℕ) → count x ids ≢ 0 → count x (remove_children ids body) ≡ 0
count-remove_children x [] body n = absurd (n refl)
count-remove_children x (id ∷ ids) body n = elim (Bool-cases (id == x)) [
  | inl t ↦
      ground (arith, count-remove_children_le x ids (remove_child id body), count-removed id body)
  | inr f ↦ count-remove_children x ids (remove_child id body) (ground (arith, n))
]

-- A child that is one of those or was not there is not there any more.
pub removed_or_absent :
    (x : ℕ) (ids body : List ℕ)
    → (count x ids ≡ 0 → count x body ≡ 0)
    → count x (remove_children ids body) ≡ 0
removed_or_absent x ids body h = elim (Bool-cases (count x ids == 0)) [
  | inl t ↦ omega (arith, count-remove_children_le x ids body, h (ground arith))
  | inr f ↦ count-remove_children x ids body (ground arith)
]

pub remove_children_all : (ids : List ℕ) → remove_children ids ids ≡ []
remove_children_all ids =
    no_count-nil (remove_children ids ids) (λ x. removed_or_absent x ids ids (λ h. h))

pub Once-of_counts : (l : List ℕ) → ((x : ℕ) → count x l ≤ 1) → Once l
Once-of_counts [] h = tt
Once-of_counts (x ∷ l) h = (ground (arith, h x), Once-of_counts l (λ y. omega (arith, h y)))
