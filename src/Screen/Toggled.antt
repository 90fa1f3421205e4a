-- ===== src/Screen/Toggled.antt =====
-- What a click on a row of internal/web/static/modules/packets.js does to the selection.
use serial_tcp_proxy.Prelude.{
  ℕ, ◌<◌, ◌≤◌, ◌≡◌, ◌≢◌, refl, sym, ap, subst, true, false, Option, none, some, List, [], ◌∷◌, ◌++◌,
  length, All, ◌==◌, inl, inr, Bool-cases, Option-cases, arith,
}
use serial_tcp_proxy.Table.{Row, clicked_item}
use serial_tcp_proxy.Packets.State.{Stored, Item, State}
use serial_tcp_proxy.Packets.Handlers.{holds_id, remove_id, find_row, drop_oldest, toggle_selection}
use serial_tcp_proxy.Packets.Invariant.{SelectedOnce, Inv}
use serial_tcp_proxy.Packets.Invariant.Selection.{update_removed-selected}
use serial_tcp_proxy.Packets.Row.{RowView}
use serial_tcp_proxy.Screen.{Screen, toggle_row, click_row}
use serial_tcp_proxy.Screen.Selected.{holds_id-removed}
use serial_tcp_proxy.Screen.Marks.{
  Right, toggled_off, toggled_on, toggle_row_cases, click_row-Right,
}

abbrev pub Absent : ℕ → List Stored → Type 0
Absent id l = All (λ q. q.id ≢ id) l

-- The selection before and after a click on the row of a packet: a selected packet leaves, and
-- another one comes in at the end, in the place of the older one if there are two.
pub data Toggled (p : Stored) : List Stored → List Stored → Type 0 where
  left :
      (q : Stored) (older newer : List Stored)
      → q.id ≡ p.id
      → Absent p.id (older ++ newer)
      → Toggled p (older ++ q ∷ newer) (older ++ newer)
  entered : (l : List Stored) → length l < 2 → Absent p.id l → Toggled p l (l ++ p ∷ [])
  replaced :
      (older newer : Stored)
      → Absent p.id (older ∷ newer ∷ [])
      → Toggled p (older ∷ newer ∷ []) (newer ∷ p ∷ [])

-- A row without an item changes nothing.
abbrev pub Clicked : Option Item → List Stored → List Stored → Type 0
Clicked none before after = after ≡ before
Clicked (some a) before after = Toggled a.stored before after

holds_id-Absent : (id : ℕ) (l : List Stored) → holds_id id l ≡ false → Absent id l
holds_id-Absent id [] h = tt
holds_id-Absent id (q ∷ l) h = (ground arith, holds_id-Absent id l (ground arith))

-- Where the packet stands.
remove_id-split :
    (id : ℕ) (l : List Stored)
    → holds_id id l ≡ true
    → (older : List Stored) × (q : Stored) × (newer : List Stored) × (q.id ≡ id)
      × (l ≡ older ++ q ∷ newer)
      × (remove_id id l ≡ older ++ newer)
remove_id-split id [] h = absurd (cc)
remove_id-split id (q ∷ l) h = elim (Bool-cases (q.id == id)) [
  | inl t ↦ ([], q, l, ground arith, refl, rw t refl)
  | inr f ↦
      let (older, x, newer, same, whole, rest) = remove_id-split id l (ground arith) in
      (q ∷ older, x, newer, same, ap (◌∷◌ q) whole, rw f (ap (◌∷◌ q) rest))
]

remove_id-Toggled :
    (p : Stored) (l : List Stored)
    → SelectedOnce l
    → holds_id p.id l ≡ true
    → Toggled p l (remove_id p.id l)
remove_id-Toggled p l once h =
    let (older, q, newer, same, whole, rest) = remove_id-split p.id l h in
    let absent = holds_id-Absent p.id (remove_id p.id l) (holds_id-removed p.id l once) in
    rw rest (
      subst (λ x. Toggled p x (older ++ newer)) (sym whole)
        (left q older newer same (subst (Absent p.id) rest absent)))

drop_oldest-Toggled :
    (p : Stored) (l : List Stored) (s : State)
    → s.selected ≡ l
    → length l ≤ 2
    → Absent p.id l
    → Toggled p l ((drop_oldest l s).selected ++ p ∷ [])
unfolding drop_oldest
drop_oldest-Toggled p [] s q le h = rw q (entered [] (omega arith) h)
drop_oldest-Toggled p (x ∷ []) s q le h = rw q (entered (x ∷ []) (omega arith) h)
drop_oldest-Toggled p (x ∷ y ∷ []) s q le h =
    rw (update_removed-selected (find_row x.id s.processed) (record s { selected = y ∷ [] }))
      (replaced x y h)
drop_oldest-Toggled p (x ∷ y ∷ z ∷ l) s q le h = absurd (omega arith)

toggle_selection-Toggled :
    (p : Stored) (s : State) → Inv s → Toggled p s.selected (toggle_selection p s).selected
toggle_selection-Toggled p s v = elim (Bool-cases (holds_id p.id s.selected)) [
  | inl held ↦
      subst (Toggled p s.selected) (sym (toggled_off p s held).0)
        (remove_id-Toggled p s.selected v.once held)
  | inr free ↦ subst (Toggled p s.selected) (sym (toggled_on p s free).0) (
      drop_oldest-Toggled p s.selected s refl v.two_selected (holds_id-Absent p.id s.selected free))
]

toggle_row-state :
    (i : ℕ) (p : Stored) (sc : Screen) → (toggle_row i p sc).state ≡ toggle_selection p sc.state
toggle_row-state i p sc = elim (Bool-cases (holds_id p.id sc.state.selected)) [
  | inl held ↦ ap (λ (x : Screen). x.state) (toggle_row_cases i p sc true held)
  | inr free ↦ ap (λ (x : Screen). x.state) (toggle_row_cases i p sc false free)
]

click_row-Clicked :
    (r : Row RowView) (sc : Screen)
    → Right sc
    → Clicked (clicked_item r sc.table) sc.state.selected (click_row r sc).state.selected
unfolding click_row
click_row-Clicked r sc v = elim (Option-cases (clicked_item r sc.table)) [
  | inl n ↦ rw (n, click_row) refl
  | inr (a, q) ↦
      rw (q, click_row)
        (subst (λ s'. Toggled a.stored sc.state.selected s'.selected)
          (sym (toggle_row-state r.index a.stored sc))
          (toggle_selection-Toggled a.stored sc.state v.inv))
]

-- The table has the rows of the page, no packet has two of them, the invariant of the packet
-- table holds, and every active row shows the fields of its item and is marked exactly if the
-- packet of the item is selected. Then a click on a row whose index has an item changes the
-- selection in one of three ways: if the packet is selected, it leaves, and no selected packet
-- has its identity any more; if it is not and fewer than two are selected, it comes in behind
-- them; and if two are selected, it comes in behind the newer one, and the older one leaves.
-- Without an item the selection stays. All of the conditions hold again after the click.
pub click_row-Toggled :
    (r : Row RowView) (sc : Screen)
    → Right sc
    → Clicked (clicked_item r sc.table) sc.state.selected (click_row r sc).state.selected
      × Right (click_row r sc)
click_row-Toggled r sc v = (click_row-Clicked r sc v, click_row-Right r sc v)
