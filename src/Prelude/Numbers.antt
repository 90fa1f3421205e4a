-- ===== src/Prelude/Numbers.antt =====
-- Lists of numbers: membership, and `sort((a, b) => a - b)`.
use Prim.Native.Nat.{ℕ, ◌<◌}
use mathlib.Core.Path.{◌≡◌, refl}
use mathlib.Core.Bool.{Bool, true, false, ◌||◌}
use mathlib.Core.List.{List, [], ◌∷◌, ◌++◌}
use native.Mathlib.Omega.{arith}
use serial_tcp_proxy.Prelude.Tests.{◌==◌, leb, if◌then◌else◌}

-- `l.includes(i)`
abbrev pub member : ℕ → List ℕ → Bool
member i [] = false
member i (x ∷ l) = i == x || member i l

abbrev pub Member : ℕ → List ℕ → Type 0
Member i l = member i l ≡ true

pub Member-append : (i : ℕ) (l m : List ℕ) → member i (l ++ m) ≡ (member i l || member i m)
Member-append i [] m = refl
Member-append i (x ∷ l) m = ground (arith, Member-append i l m)

-- Each number is below those behind it.
abbrev pub Above : ℕ → List ℕ → Type 0
Above a [] = Unit
Above a (x ∷ l) = (a < x) × Above x l

abbrev pub Ascends : List ℕ → Type 0
Ascends [] = Unit
Ascends (x ∷ l) = Above x l

-- No number stands twice.
abbrev pub Distinct : List ℕ → Type 0
Distinct [] = Unit
Distinct (x ∷ l) = (member x l ≡ false) × Distinct l

pub Distinct-snoc : (i : ℕ) (l : List ℕ) → Distinct l → member i l ≡ false → Distinct (l ++ i ∷ [])
Distinct-snoc i [] d h = (refl, tt)
Distinct-snoc i (x ∷ l) d h =
    (ground (arith, Member-append x l (i ∷ [])), Distinct-snoc i l d.1 (ground arith))

insert_sorted : ℕ → List ℕ → List ℕ
insert_sorted i [] = i ∷ []
insert_sorted i (x ∷ l) = let rest = insert_sorted i l in if leb i x then i ∷ x ∷ l else x ∷ rest

unfoldable pub sort_numbers : List ℕ → List ℕ
unfolding insert_sorted
sort_numbers [] = []
sort_numbers (x ∷ l) = insert_sorted x (sort_numbers l)

member-insert_sorted :
    (j i : ℕ) (l : List ℕ) → member j (insert_sorted i l) ≡ (j == i || member j l)
unfolding insert_sorted
member-insert_sorted j i [] = refl
member-insert_sorted j i (x ∷ l) = ground (arith, member-insert_sorted j i l)

pub member-sort_numbers : (j : ℕ) (l : List ℕ) → member j (sort_numbers l) ≡ member j l
unfolding sort_numbers
member-sort_numbers j [] = refl
member-sort_numbers j (x ∷ l) =
    ground (arith, member-sort_numbers j l, member-insert_sorted j x (sort_numbers l))

insert_sorted-Above :
    (a i : ℕ) (l : List ℕ) → a < i → Above a l → member i l ≡ false → Above a (insert_sorted i l)
unfolding insert_sorted
insert_sorted-Above a i [] lt h m = (lt, tt)
insert_sorted-Above a i (x ∷ l) lt h m = ground (arith, insert_sorted-Above x i l)

insert_sorted-Ascends :
    (i : ℕ) (l : List ℕ) → Ascends l → member i l ≡ false → Ascends (insert_sorted i l)
unfolding insert_sorted
insert_sorted-Ascends i [] h m = tt
insert_sorted-Ascends i (x ∷ l) h m = ground (arith, insert_sorted-Above x i l)

-- Distinct numbers ascend once they are sorted.
pub sort_numbers-Ascends : (l : List ℕ) → Distinct l → Ascends (sort_numbers l)
unfolding sort_numbers
sort_numbers-Ascends [] d = tt
sort_numbers-Ascends (x ∷ l) d =
    insert_sorted-Ascends x (sort_numbers l) (sort_numbers-Ascends l d.1)
      (ground (arith, member-sort_numbers x l))
