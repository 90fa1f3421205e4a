-- ===== src/Dom.antt =====
-- The children of the table's body, as internal/web/static/modules/virtual-table.js moves them.
pub mod Order
pub mod Removed
use serial_tcp_proxy.Prelude.{
  ℕ, Bool, true, false, Option, none, some, List, [], ◌∷◌, ◌++◌, ◌==◌, if◌then◌else◌,
}

-- `row.nextSibling` for a row of the body, where `none` is the spacer at the bottom.
abbrev pub next_sibling : ℕ → List ℕ → Option (Option ℕ)
next_sibling id [] = none
next_sibling id (x ∷ []) = if x == id then some none else none
next_sibling id (x ∷ y ∷ body) = if x == id then some (some y) else next_sibling id (y ∷ body)

-- `row.parentNode.removeChild(row)`
abbrev pub remove_child : ℕ → List ℕ → List ℕ
remove_child id [] = []
remove_child id (x ∷ body) = let rest = remove_child id body in if x == id then rest else x ∷ rest

-- Where to insert: in front of a row, or of the spacer at the bottom.
abbrev pub insert_child : ℕ → Option ℕ → List ℕ → List ℕ
insert_child id none body = body ++ id ∷ []
insert_child id (some y) [] = id ∷ []
insert_child id (some y) (x ∷ body) =
    let rest = insert_child id (some y) body in if x == y then id ∷ x ∷ body else x ∷ rest

abbrev pub same_node : Option ℕ → Option ℕ → Bool
same_node none none = true
same_node (some x) (some y) = x == y
same_node _ _ = false

abbrev pub stands_before : Option (Option ℕ) → Option ℕ → Bool
stands_before none before = false
stands_before (some next) before = same_node next before

-- `if (row.parentNode !== this.tbody || row.nextSibling !== insertBefore) …`; a row that is inserted
-- leaves its old place.
unfoldable pub place_row : ℕ → Option ℕ → List ℕ → List ℕ
place_row id before body =
    if stands_before (next_sibling id body) before
    then body
    else insert_child id before (remove_child id body)

-- The row in front of which the next one is placed.
abbrev pub first_node : List ℕ → Option ℕ
first_node [] = none
first_node (id ∷ ids) = some id

-- The loop from the last index to the first; the rows are drawn in the order of their indices.
unfoldable pub place_rows : List ℕ → List ℕ → List ℕ
unfolding place_row
place_rows [] body = body
place_rows (id ∷ ids) body = place_row id (first_node ids) (place_rows ids body)

abbrev pub remove_children : List ℕ → List ℕ → List ℕ
remove_children [] body = body
remove_children (id ∷ ids) body = remove_children ids (remove_child id body)
