-- ===== src/Packets/Invariant/Selection.antt =====
-- The selection of internal/web/static/modules/packets.js under the invariant.
use serial_tcp_proxy.Prelude.{
  ℕ, ◌≤◌, ◌≡◌, refl, sym, subst, inl, inr, false, ◌||◌, Option, none, some, List, [], ◌∷◌, ◌++◌,
  length, length-append, leb, Bool-cases, arith,
}
use serial_tcp_proxy.Packets.State.{Stored, update_row, State}
use serial_tcp_proxy.Packets.Handlers.{
  holds_id, remove_id, find_row, update_removed, drop_oldest, update_diff_button, toggle_selection,
}
use serial_tcp_proxy.Packets.Invariant.{shown-append, SelectedOnce, Core, Inv}

pub holds_id-remove :
    (i j : ℕ) (l : List Stored) → holds_id i l ≡ false → holds_id i (remove_id j l) ≡ false
holds_id-remove i j [] h = refl
holds_id-remove i j (p ∷ l) h = ground (arith, holds_id-remove i j l)

remove_id-once : (j : ℕ) (l : List Stored) → SelectedOnce l → SelectedOnce (remove_id j l)
remove_id-once j [] o = tt
remove_id-once j (p ∷ l) o = ground (arith, remove_id-once j l, holds_id-remove p.id j l)

length-remove_id : (j : ℕ) (l : List Stored) → length (remove_id j l) ≤ length l
length-remove_id j [] = omega arith
length-remove_id j (p ∷ l) = ground (arith, length-remove_id j l)

pub holds_id-append :
    (i : ℕ) (l m : List Stored) → holds_id i (l ++ m) ≡ (holds_id i l || holds_id i m)
holds_id-append i [] m = refl
holds_id-append i (p ∷ l) m = ground (arith, holds_id-append i l m)

snoc-once :
    (p : Stored) (l : List Stored)
    → SelectedOnce l
    → holds_id p.id l ≡ false
    → SelectedOnce (l ++ p ∷ [])
snoc-once p [] o h = (refl, tt)
snoc-once p (q ∷ l) o h =
    (ground (arith, holds_id-append q.id l (p ∷ [])), snoc-once p l o.1 (ground arith))

update_removed-Core : (o : Option ℕ) (s : State) → Core s → Core (update_removed o s)
update_removed-Core none s c = c
update_removed-Core (some row) s c = ground (arith, shown-append [] s.calls (update_row row ∷ []))

pub update_removed-selected :
    (o : Option ℕ) (s : State) → (update_removed o s).selected ≡ s.selected
update_removed-selected none s = refl
update_removed-selected (some row) s = refl

-- A new selection, with the button brought up to date.
select-Inv :
    (s : State) (l : List Stored)
    → Core s
    → length l ≤ 2
    → SelectedOnce l
    → Inv (update_diff_button (record s { selected = l }))
unfolding update_diff_button
select-Inv s l c le o = record {
  core = record {
    packets_bound = c.packets_bound;
    rows_bound = c.rows_bound;
    table = c.table;
    button = c.button;
    none_missed = c.none_missed;
  };
  two_selected = le;
  once = o;
  diff_count = refl;
  diff_enabled = refl;
}

keep-Core : (s : State) (l : List Stored) → Core s → Core (record s { selected = l })
keep-Core s l c = record {
  packets_bound = c.packets_bound;
  rows_bound = c.rows_bound;
  table = c.table;
  button = c.button;
  none_missed = c.none_missed;
}

add_selected-Inv :
    (p : Stored) (l : List Stored) (s : State)
    → Inv s
    → s.selected ≡ l
    → holds_id p.id l ≡ false
    → let s' = drop_oldest l s in
      Inv (update_diff_button (record s' { selected = s'.selected ++ p ∷ [] }))
unfolding drop_oldest
add_selected-Inv p [] s v q free =
    select-Inv s (s.selected ++ p ∷ []) v.core (rw q (omega arith)) (rw q (refl, tt))
add_selected-Inv p (oldest ∷ rest) s v q free = elim (Bool-cases (leb 2 (length (oldest ∷ rest)))) [
  | inl full ↦ rw full (
      let o = find_row oldest.id s.processed in
      let s1 = record s { selected = rest } in
      let same = update_removed-selected o s1 in
      select-Inv (update_removed o s1) ((update_removed o s1).selected ++ p ∷ [])
        (update_removed-Core o s1 (keep-Core s rest v.core))
        (subst (λ l. length (l ++ p ∷ []) ≤ 2) (sym same)
          (omega (arith, length-append rest (p ∷ []), few)))
        (subst (λ l. SelectedOnce (l ++ p ∷ [])) (sym same)
          (snoc-once p rest once.1 (ground arith))))
  | inr space ↦ rw space (
      select-Inv s (s.selected ++ p ∷ []) v.core
        (subst (λ l. length (l ++ p ∷ []) ≤ 2) (sym q)
          (ground (arith, length-append (oldest ∷ rest) (p ∷ []))))
        (snoc-once p s.selected v.once (subst (λ l. holds_id p.id l ≡ false) (sym q) free)))
]
  where
    few : length (oldest ∷ rest) ≤ 2
    few = subst (λ l. length l ≤ 2) q v.two_selected

    once : SelectedOnce (oldest ∷ rest)
    once = subst SelectedOnce q v.once

pub toggle_selection-Inv : (p : Stored) (s : State) → Inv s → Inv (toggle_selection p s)
unfolding toggle_selection
toggle_selection-Inv p s v = elim (Bool-cases (holds_id p.id s.selected)) [
  | inl held ↦ rw held (
      select-Inv s (remove_id p.id s.selected) v.core
        (omega (arith, length-remove_id p.id s.selected)) (remove_id-once p.id s.selected v.once))
  | inr free ↦ rw free (add_selected-Inv p s.selected s v refl free)
]
