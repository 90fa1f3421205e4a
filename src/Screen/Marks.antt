-- ===== src/Screen/Marks.antt =====
-- Clicks on rows in internal/web/static/modules/packets.js, and the marks of the active rows.
use serial_tcp_proxy.Prelude.{
  ℕ, ◌≡◌, ◌≢◌, refl, ap, sym, ◌∙◌, subst, Bool, true, false, Option, none, some, List, [], ◌∷◌,
  ◌++◌, length, get_elem?, drop, inl, inr, leb, if◌then◌else◌, Bool-cases, Option-cases,
}
use serial_tcp_proxy.Table
use serial_tcp_proxy.Table.{Row, VirtualTable, rewrite_row, clicked_item}
use serial_tcp_proxy.Packets.State.{Stored, Item, update_row, State}
use serial_tcp_proxy.Packets.Handlers.{
  holds_id, remove_id, find_row, update_removed, drop_oldest, update_diff_button, toggle_selection,
}
use serial_tcp_proxy.Packets.Invariant.{Inv}
use serial_tcp_proxy.Packets.Invariant.Selection.{toggle_selection-Inv}
use serial_tcp_proxy.Packets.Row.{RowView, render_table_row}
use serial_tcp_proxy.Screen.{
  Screen, perform_all, follow_state, mark_row, mark, unselect_row, select_row, toggle_row,
  click_row,
}
use serial_tcp_proxy.Screen.Selected.{
  Marked, DistinctItems, AgreeBut, remove_id-AgreeBut, holds_id-removed, tail-AgreeBut,
  snoc-AgreeBut, holds_id-snoc, mark_row-Marked, rewrite_row-Marked, absent-Marked, find_row-some,
  find_row-none,
}

-- The table has the rows of the page, no packet has two of them, and every active row shows the
-- fields of its item and is marked exactly if the item's packet is selected.
pub record Right (sc : Screen) : Type 0 where
  pub items : sc.table.items ≡ sc.state.processed
  pub distinct : DistinctItems sc.table.items
  pub inv : Inv sc.state
  pub marked : Marked sc.state.selected sc.table.items sc.table.active

pub drop-length : {A : Type 0} (l : List A) → drop (length l) l ≡ []
drop-length [] = refl
drop-length (x ∷ l) = drop-length l

pub drop-length-append : {A : Type 0} (l m : List A) → drop (length l) (l ++ m) ≡ m
drop-length-append [] m = refl
drop-length-append (x ∷ l) m = drop-length-append l m

one_update :
    (sc : Screen) (rest : List Stored) (k : ℕ) (a : Item)
    → get_elem? sc.table.items k ≡ some a
    → let s1 = update_removed (some k) (record sc.state { selected = rest }) in
      (follow_state s1 sc).table
      ≡ record sc.table { active = rewrite_row k (render_table_row s1 sc.hidden a) sc.table.active }
unfolding follow_state perform_all Table.update_row
one_update sc rest k a at =
    let s1 = update_removed (some k) (record sc.state { selected = rest }) in
    let show = render_table_row s1 sc.hidden in
    ap (λ calls. perform_all show calls sc.table)
      (drop-length-append sc.state.calls (update_row k ∷ []))
    ∙ ap
        (λ o. elim o [
          | none ↦ sc.table
          | some item ↦ record sc.table { active = rewrite_row k (show item) sc.table.active }
        ])
        at

-- The older of two selected packets has left, and its row, if it has one, is written anew.
dropped-Marked :
    (sc : Screen) (oldest : Stored) (rest : List Stored) (o : Option ℕ)
    → Right sc
    → sc.state.selected ≡ oldest ∷ rest
    → find_row oldest.id sc.state.processed ≡ o
    → let s1 = update_removed o (record sc.state { selected = rest }) in
      let t = (follow_state s1 sc).table in
      (t.items ≡ sc.table.items) × Marked s1.selected sc.table.items t.active
unfolding follow_state perform_all render_table_row
dropped-Marked sc oldest rest none r q f = rw (drop-length sc.state.calls) (
  refl,
  absent-Marked sc.table.items sc.state.selected rest oldest.id
      (subst (λ l. AgreeBut oldest.id l rest) (sym q) (tail-AgreeBut oldest rest))
      (subst (λ l. (i : ℕ) (a : Item) → get_elem? l i ≡ some a → a.stored.id ≢ oldest.id)
        (sym r.items) (find_row-none oldest.id sc.state.processed f))
      sc.table.active r.marked,
)
dropped-Marked sc oldest rest (some k) r q f =
    let (a, here, same) = find_row-some oldest.id sc.state.processed k f in
    let at : get_elem? sc.table.items k ≡ some a = ap (λ l. get_elem? l k) r.items ∙ here in
    let agree : AgreeBut a.stored.id sc.state.selected rest =
      subst (λ l. AgreeBut a.stored.id l rest) (sym q)
        (subst (λ i. AgreeBut i (oldest ∷ rest) rest) (sym same) (tail-AgreeBut oldest rest)) in
    subst
      (λ (t : VirtualTable Item RowView).
        (t.items ≡ sc.table.items) × Marked s1.selected sc.table.items t.active)
      (sym (one_update sc rest k a at))
      (
        refl,
        rewrite_row-Marked sc.table.items r.distinct sc.state.selected rest k a at agree
            (render_table_row s1 sc.hidden a) sc.table.active (refl, refl) r.marked,
      )
  where
    s1 : State
    s1 = update_removed (some k) (record sc.state { selected = rest })

kept-Marked :
    (sc : Screen)
    → Right sc
    → let t = (follow_state sc.state sc).table in
      (t.items ≡ sc.table.items) × Marked sc.state.selected sc.table.items t.active
unfolding follow_state perform_all
kept-Marked sc r = rw (drop-length sc.state.calls) (refl, r.marked)

drop_oldest-Marked :
    (sc : Screen) (l : List Stored)
    → Right sc
    → sc.state.selected ≡ l
    → let s1 = drop_oldest l sc.state in
      let t = (follow_state s1 sc).table in
      (t.items ≡ sc.table.items) × Marked s1.selected sc.table.items t.active
unfolding drop_oldest
drop_oldest-Marked sc [] r q = kept-Marked sc r
drop_oldest-Marked sc (oldest ∷ rest) r q = elim (Bool-cases (leb 2 (length (oldest ∷ rest)))) [
  | inl full ↦
      rw full (dropped-Marked sc oldest rest (find_row oldest.id sc.state.processed) r q refl)
  | inr space ↦ rw space (kept-Marked sc r)
]

update_removed_processed : (o : Option ℕ) (s : State) → (update_removed o s).processed ≡ s.processed
update_removed_processed none s = refl
update_removed_processed (some k) s = refl

drop_oldest_processed : (l : List Stored) (s : State) → (drop_oldest l s).processed ≡ s.processed
unfolding drop_oldest
drop_oldest_processed [] s = refl
drop_oldest_processed (oldest ∷ rest) s = elim (Bool-cases (leb 2 (length (oldest ∷ rest)))) [
  | inl full ↦
      rw full
        (update_removed_processed (find_row oldest.id s.processed) (record s { selected = rest }))
  | inr space ↦ rw space refl
]

-- The packet at the index enters the selection, or leaves it, and its row is marked.
mark-Right :
    (sc : Screen) (s' : State) (t : VirtualTable Item RowView) (i : ℕ) (a : Item)
    → t.items ≡ s'.processed
    → DistinctItems t.items
    → Inv s'
    → (before : List Stored) → Marked before t.items t.active
    → get_elem? t.items i ≡ some a
    → AgreeBut a.stored.id before s'.selected
    → (on : Bool) → holds_id a.stored.id s'.selected ≡ on
    → Right (record sc { state = s'; table = mark i on t })
mark-Right sc s' t i a items distinct inv before marked here agree on held = record {
  items = items;
  distinct = distinct;
  inv = inv;
  marked =
      subst (λ b. Marked s'.selected t.items (mark_row i b t.active)) held
        (mark_row-Marked t.items distinct before s'.selected i a here agree t.active marked);
}

pub toggled_off :
    (p : Stored) (s : State)
    → holds_id p.id s.selected ≡ true
    → ((toggle_selection p s).selected ≡ remove_id p.id s.selected)
      × ((toggle_selection p s).processed ≡ s.processed)
unfolding toggle_selection update_diff_button
toggled_off p s held = rw held (refl, refl)

pub toggled_on :
    (p : Stored) (s : State)
    → holds_id p.id s.selected ≡ false
    → ((toggle_selection p s).selected ≡ (drop_oldest s.selected s).selected ++ p ∷ [])
      × ((toggle_selection p s).processed ≡ s.processed)
unfolding toggle_selection update_diff_button
toggled_on p s free = rw free (refl, drop_oldest_processed s.selected s)

pub toggle_row_cases :
    (i : ℕ) (p : Stored) (sc : Screen) (b : Bool)
    → holds_id p.id sc.state.selected ≡ b
    → toggle_row i p sc ≡ (if b then unselect_row i p sc else select_row i p sc)
unfolding toggle_row
toggle_row_cases i p sc b q = ap (λ c. if c then unselect_row i p sc else select_row i p sc) q

toggle_row-Right :
    (i : ℕ) (a : Item) (sc : Screen)
    → Right sc
    → get_elem? sc.table.items i ≡ some a
    → Right (toggle_row i a.stored sc)
toggle_row-Right i a sc r here = elim (Bool-cases (holds_id a.stored.id sc.state.selected)) [
  | inl held ↦
      let (left, rows) = toggled_off a.stored sc.state held in
      subst Right (sym (toggle_row_cases i a.stored sc true held)) (
        mark-Right sc (toggle_selection a.stored sc.state) sc.table i a (r.items ∙ sym rows)
          r.distinct (toggle_selection-Inv a.stored sc.state r.inv) sc.state.selected r.marked here
          (subst (AgreeBut a.stored.id sc.state.selected) (sym left)
            (remove_id-AgreeBut a.stored.id sc.state.selected))
          false
          (ap (holds_id a.stored.id) left
            ∙ holds_id-removed a.stored.id sc.state.selected r.inv.once))
  | inr free ↦
      let s1 = drop_oldest sc.state.selected sc.state in
      let t = (follow_state s1 sc).table in
      let (same, marked) = drop_oldest-Marked sc sc.state.selected r refl in
      let (entered, rows) = toggled_on a.stored sc.state free in
      subst Right (sym (toggle_row_cases i a.stored sc false free)) (
        mark-Right sc (toggle_selection a.stored sc.state) t i a (same ∙ r.items ∙ sym rows)
          (subst DistinctItems (sym same) r.distinct) (toggle_selection-Inv a.stored sc.state r.inv)
          s1.selected (subst (λ l. Marked s1.selected l t.active) (sym same) marked)
          (ap (λ l. get_elem? l i) same ∙ here)
          (subst (AgreeBut a.stored.id s1.selected) (sym entered)
            (snoc-AgreeBut a.stored s1.selected))
          true (ap (holds_id a.stored.id) entered ∙ holds_id-snoc a.stored s1.selected))
]

-- A click on a row keeps what `Right` says.
pub click_row-Right : (r : Row RowView) (sc : Screen) → Right sc → Right (click_row r sc)
unfolding click_row
click_row-Right r sc v = elim (Option-cases (clicked_item r sc.table)) [
  | inl n ↦ rw (n, click_row) v
  | inr (a, q) ↦ rw (q, click_row) (toggle_row-Right r.index a sc v (row_item r a q))
]
  where
    row_item :
        (r : Row RowView) (a : Item)
        → clicked_item r sc.table ≡ some a
        → get_elem? sc.table.items r.index ≡ some a
    row_item r a q = q
