-- ===== src/Dom/Order.antt =====
-- The order of the children that internal/web/static/modules/virtual-table.js places in the table's body.
use serial_tcp_proxy.Prelude.{
  ℕ, ◌+◌, ◌≤◌, ◌≡◌, ◌≢◌, refl, ap, sym, ◌∙◌, true, none, some, List, [], ◌∷◌, ◌++◌, append-nil, All,
  inl, inr, ◌==◌, if◌then◌else◌, Bool-cases, arith,
}
use serial_tcp_proxy.Dom.{
  next_sibling, remove_child, insert_child, same_node, stands_before, place_row, first_node,
  place_rows,
}

abbrev pub count : ℕ → List ℕ → ℕ
count x [] = 0
count x (y ∷ l) = (if y == x then 1 else 0) + count x l

-- No element stands twice.
abbrev pub Once : List ℕ → Type 0
Once [] = Unit
Once (x ∷ l) = (count x l ≡ 0) × Once l

-- No element of the second list stands in the first.
abbrev Apart : List ℕ → List ℕ → Type 0
Apart xs ys = All (λ y. count y xs ≡ 0) ys

-- The body without the rows.
abbrev without : List ℕ → List ℕ → List ℕ
without [] body = body
without (id ∷ ids) body = remove_child id (without ids body)

pub count-append : (x : ℕ) (l m : List ℕ) → count x (l ++ m) ≡ count x l + count x m
count-append x [] m = omega arith
count-append x (y ∷ l) m = omega (arith, count-append x l m)

remove_absent : (id : ℕ) (l : List ℕ) → count id l ≡ 0 → remove_child id l ≡ l
remove_absent id [] h = refl
remove_absent id (x ∷ l) h = ground (arith, remove_absent id l)

pub count-removed : (id : ℕ) (l : List ℕ) → count id (remove_child id l) ≡ 0
count-removed id [] = refl
count-removed id (x ∷ l) = ground (arith, count-removed id l)

pub count-remove_le : (x id : ℕ) (l : List ℕ) → count x (remove_child id l) ≤ count x l
count-remove_le x id [] = omega arith
count-remove_le x id (y ∷ l) = ground (arith, count-remove_le x id l)

remove-append :
    (id : ℕ) (l m : List ℕ) → remove_child id (l ++ m) ≡ remove_child id l ++ remove_child id m
remove-append id [] m = refl
remove-append id (x ∷ l) m = ground (arith, remove-append id l m)

insert_before :
    (id y : ℕ) (l m : List ℕ)
    → count y l ≡ 0
    → insert_child id (some y) (l ++ y ∷ m) ≡ l ++ id ∷ y ∷ m
insert_before id y [] m h = ground arith
insert_before id y (x ∷ l) m h = ground (arith, insert_before id y l m)

insert_first :
    (id : ℕ) (l m : List ℕ) → Apart l m → insert_child id (first_node m) (l ++ m) ≡ l ++ id ∷ m
insert_first id l [] h = ap (λ k. k ++ id ∷ []) (append-nil l)
insert_first id l (y ∷ m) h = insert_before id y l m h.0

next-absent : (id : ℕ) (l : List ℕ) → count id l ≡ 0 → next_sibling id l ≡ none
next-absent id [] h = refl
next-absent id (x ∷ []) h = ground arith
next-absent id (x ∷ y ∷ l) h = ground (arith, next-absent id (y ∷ l))

Apart-tail : (x : ℕ) (l m : List ℕ) → Apart (x ∷ l) m → Apart l m
Apart-tail x l [] a = tt
Apart-tail x l (y ∷ m) a = (omega (arith, a.0), Apart-tail x l m a.1)

not_before :
    (id x y : ℕ) (l m : List ℕ) → Apart (x ∷ y ∷ l) m → same_node (some y) (first_node m) ≢ true
not_before id x y l [] a q = absurd (cc)
not_before id x y l (z ∷ m) a q = ground (arith, a.0, q)

-- A row that stands in its place already.
placed :
    (id : ℕ) (l m : List ℕ)
    → count id m ≡ 0
    → Apart l m
    → stands_before (next_sibling id (l ++ m)) (first_node m) ≡ true
    → l ++ m ≡ remove_child id l ++ id ∷ m
placed id [] m h a q = absurd (ground (arith, next-absent id m h, q))
placed id (x ∷ []) [] h a q = ground arith
placed id (x ∷ []) (y ∷ m) h a q = ground (arith, next-absent id (y ∷ m) h)
placed id (x ∷ y ∷ l) m h a q = elim (Bool-cases (x == id)) [
  | inl t ↦ absurd (not_before id x y l m a (ground (arith, q)))
  | inr f ↦
      let rest = placed id (y ∷ l) m h (Apart-tail x (y ∷ l) m a) (ground (arith, q)) in
      ground (arith, rest)
]

Apart-removed : (id : ℕ) (l m : List ℕ) → Apart l m → Apart (remove_child id l) m
Apart-removed id l [] a = tt
Apart-removed id l (y ∷ m) a =
    (omega (arith, count-remove_le y id l, a.0), Apart-removed id l m a.1)

place_row-Apart :
    (id : ℕ) (l m : List ℕ)
    → count id m ≡ 0
    → Apart l m
    → place_row id (first_node m) (l ++ m) ≡ remove_child id l ++ id ∷ m
unfolding place_row
place_row-Apart id l m h a =
    elim (Bool-cases (stands_before (next_sibling id (l ++ m)) (first_node m))) [
      | inl t ↦ rw t (placed id l m h a t)
      | inr f ↦ rw f (
          ap (insert_child id (first_node m))
            (remove-append id l m ∙ ap (λ k. remove_child id l ++ k) (remove_absent id m h))
          ∙ insert_first id (remove_child id l) m (Apart-removed id l m a))
    ]

-- The rows are placed in their order, behind what was in the body before and is none of them.
place_rows-without :
    (ids body : List ℕ)
    → Once ids
    → (place_rows ids body ≡ without ids body ++ ids) × Apart (without ids body) ids
unfolding place_rows
place_rows-without [] body o = (sym (append-nil body), tt)
place_rows-without (id ∷ ids) body (new, o) =
    let (same, apart) = place_rows-without ids body o in
    (
      ap (place_row id (first_node ids)) same ∙ place_row-Apart id (without ids body) ids new apart,
      (count-removed id (without ids body), Apart-removed id (without ids body) ids apart),
    )

without-le : (x : ℕ) (ids body : List ℕ) → count x (without ids body) ≤ count x body
without-le x [] body = omega arith
without-le x (id ∷ ids) body =
    omega (arith, count-remove_le x id (without ids body), without-le x ids body)

Apart-count : (x : ℕ) (l m : List ℕ) → Apart l m → count x m ≢ 0 → count x l ≡ 0
Apart-count x l [] a n = absurd (n refl)
Apart-count x l (y ∷ m) a n = elim (Bool-cases (y == x)) [
  | inl t ↦ ground (arith, a.0)
  | inr f ↦ Apart-count x l m a.1 (ground (arith, n))
]

pub no_count-nil : (l : List ℕ) → ((x : ℕ) → count x l ≡ 0) → l ≡ []
no_count-nil [] h = refl
no_count-nil (x ∷ l) h = absurd (ground (arith, h x))

-- Rows that are placed into a body with no other rows are the body then, in their order.
pub place_rows_lem :
    (ids body : List ℕ)
    → Once ids
    → ((x : ℕ) → count x ids ≡ 0 → count x body ≡ 0)
    → place_rows ids body ≡ ids
place_rows_lem ids body o within =
    let (same, apart) = place_rows-without ids body o in
    let none_left : without ids body ≡ [] = no_count-nil (without ids body) (λ x.
      elim (Bool-cases (count x ids == 0)) [
        | inl t ↦ omega (arith, without-le x ids body, within x (ground arith))
        | inr f ↦ Apart-count x (without ids body) ids apart (ground arith)
      ]) in
    same ∙ ap (λ l. l ++ ids) none_left
