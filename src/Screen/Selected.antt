-- ===== src/Screen/Selected.antt =====
-- The marks of selected rows when internal/web/static/modules/packets.js changes the selection.
use serial_tcp_proxy.Prelude.{
  ℕ, zero, suc, ◌≡◌, ◌≢◌, refl, ap, sym, ◌∙◌, subst, true, false, Option, none, some, List, [], ◌∷◌,
  ◌++◌, get_elem?, All, inl, inr, ◌==◌, if◌then◌else◌, Bool-cases, arith,
}
use mathlib.Core.Option
use serial_tcp_proxy.Table.{Row, rewrite_row}
use serial_tcp_proxy.Table.Rows.{Shows}
use serial_tcp_proxy.Packets.State.{Stored, Item}
use serial_tcp_proxy.Packets.Handlers.{holds_id, remove_id, find_row}
use serial_tcp_proxy.Packets.Invariant.{SelectedOnce}
use serial_tcp_proxy.Packets.Invariant.Selection.{holds_id-append}
use serial_tcp_proxy.Packets.Row.{RowView, row_cells}
use serial_tcp_proxy.Screen.{mark_row}

-- The row shows the fields of the item, and is marked exactly if the item's packet is selected.
abbrev pub Suits : List Stored → Item → RowView → Type 0
Suits selected a c = (c.cells ≡ row_cells a) × (c.is_selected ≡ holds_id a.stored.id selected)

abbrev pub Marked : List Stored → List Item → List (Row RowView) → Type 0
Marked selected items rows = All (Shows (Suits selected) items) rows

-- No packet has two rows.
abbrev pub DistinctItems : List Item → Type 0
DistinctItems items =
    (i j : ℕ) (a b : Item)
    → get_elem? items i ≡ some a
    → get_elem? items j ≡ some b
    → a.stored.id ≡ b.stored.id
    → i ≡ j

-- Two selections agree, but for the packet of an identity.
abbrev pub AgreeBut : ℕ → List Stored → List Stored → Type 0
AgreeBut id before after = (x : ℕ) → x ≢ id → holds_id x after ≡ holds_id x before

pub remove_id-AgreeBut : (id : ℕ) (l : List Stored) → AgreeBut id l (remove_id id l)
remove_id-AgreeBut id [] x n = refl
remove_id-AgreeBut id (p ∷ l) x n = ground (arith, remove_id-AgreeBut id l x n)

pub holds_id-removed :
    (id : ℕ) (l : List Stored) → SelectedOnce l → holds_id id (remove_id id l) ≡ false
holds_id-removed id [] o = refl
holds_id-removed id (p ∷ l) o = elim (Bool-cases (p.id == id)) [
  | inl t ↦ let same : p.id ≡ id = ground arith in rw t (subst (λ x. holds_id x l ≡ false) same o.0)
  | inr f ↦ rw f (rw f (holds_id-removed id l o.1))
]

pub tail-AgreeBut : (p : Stored) (l : List Stored) → AgreeBut p.id (p ∷ l) l
tail-AgreeBut p l x n = ground arith

pub snoc-AgreeBut : (p : Stored) (l : List Stored) → AgreeBut p.id l (l ++ p ∷ [])
snoc-AgreeBut p l x n = ground (arith, holds_id-append x l (p ∷ []))

pub holds_id-snoc : (p : Stored) (l : List Stored) → holds_id p.id (l ++ p ∷ []) ≡ true
holds_id-snoc p l = ground (arith, holds_id-append p.id l (p ∷ []))

module _ (items : List Item) (distinct : DistinctItems items) (before after : List Stored) (i : ℕ)
    (a : Item) (here : get_elem? items i ≡ some a) (agree : AgreeBut a.stored.id before after) where
  -- A row of another index keeps its mark.
  other_row :
      (r : Row RowView) → r.index ≢ i → Shows (Suits before) items r → Shows (Suits after) items r
  other_row r n (b, q, (cells, marked)) =
      (b, q, (cells, marked ∙ sym (agree b.stored.id (λ e. n (distinct r.index i b a q here e)))))

  pub mark_row-Marked :
      (rows : List (Row RowView))
      → Marked before items rows
      → Marked after items (mark_row i (holds_id a.stored.id after) rows)
  mark_row-Marked [] h = tt
  mark_row-Marked (r ∷ rows) ((b, q, (cells, marked)), hs) = elim (Bool-cases (r.index == i)) [
    | inl t ↦
        let at : r.index ≡ i = ground arith in
        let found = ap (get_elem? items) at ∙ here in
        let same : b ≡ a = cc (q, found) in
        rw t ((a, found, (cells ∙ ap row_cells same, refl)), mark_row-Marked rows hs)
    | inr f ↦ rw f (other_row r (ground arith) (b, q, (cells, marked)), mark_row-Marked rows hs)
  ]

  pub rewrite_row-Marked :
      (c : RowView) (rows : List (Row RowView))
      → Suits after a c
      → Marked before items rows
      → Marked after items (rewrite_row i c rows)
  rewrite_row-Marked c [] s h = tt
  rewrite_row-Marked c (r ∷ rows) s (h, hs) = elim (Bool-cases (r.index == i)) [
    | inl t ↦
        let at : r.index ≡ i = ground arith in
        rw t ((a, ap (get_elem? items) at ∙ here, s), rewrite_row-Marked c rows s hs)
    | inr f ↦ rw f (other_row r (ground arith) h, rewrite_row-Marked c rows s hs)
  ]

-- Where no item has the identity, every mark stays right.
pub absent-Marked :
    (items : List Item) (before after : List Stored) (id : ℕ)
    → AgreeBut id before after
    → ((i : ℕ) (a : Item) → get_elem? items i ≡ some a → a.stored.id ≢ id)
    → (rows : List (Row RowView)) → Marked before items rows
    → Marked after items rows
absent-Marked items before after id agree absent [] h = tt
absent-Marked items before after id agree absent (r ∷ rows) ((b, q, (cells, marked)), hs) = (
  (b, q, (cells, marked ∙ sym (agree b.stored.id (absent r.index b q)))),
  absent-Marked items before after id agree absent rows hs,
)

suc-of-some : (o : Option ℕ) (k : ℕ) → Option.map suc o ≡ some (suc k) → o ≡ some k
suc-of-some none k q = absurd (cc)
suc-of-some (some j) k q = cc

suc-not-zero : (o : Option ℕ) → Option.map suc o ≢ some 0
suc-not-zero none q = absurd (cc)
suc-not-zero (some j) q = ground arith

suc-of-none : (o : Option ℕ) → Option.map suc o ≡ none → o ≡ none
suc-of-none none q = refl
suc-of-none (some j) q = absurd (cc)

found_later :
    (id : ℕ) (x : Item) (items : List Item) (k : ℕ)
    → ((j : ℕ)
        → find_row id items ≡ some j
        → (a : Item) × (get_elem? items j ≡ some a) × (a.stored.id ≡ id))
    → Option.map suc (find_row id items) ≡ some k
    → (a : Item) × (get_elem? (x ∷ items) k ≡ some a) × (a.stored.id ≡ id)
found_later id x items zero h p = absurd (suc-not-zero (find_row id items) p)
found_later id x items (suc j) h p = h j (suc-of-some (find_row id items) j p)

pub find_row-some :
    (id : ℕ) (items : List Item) (k : ℕ)
    → find_row id items ≡ some k
    → (a : Item) × (get_elem? items k ≡ some a) × (a.stored.id ≡ id)
unfolding find_row
find_row-some id [] k q = absurd (cc)
find_row-some id (x ∷ items) k q = elim (Bool-cases (x.stored.id == id)) [
  | inl t ↦
      let first : some k ≡ some 0 =
        sym q ∙ ap (λ b. if b then some 0 else Option.map suc (find_row id items)) t in
      let at : k ≡ 0 = cc first in (x, ap (get_elem? (x ∷ items)) at, ground arith)
  | inr f ↦
      found_later id x items k (find_row-some id items)
        (sym (ap (λ b. if b then some 0 else Option.map suc (find_row id items)) f) ∙ q)
]

absent_here :
    (id : ℕ) (x : Item) (items : List Item)
    → (x.stored.id == id) ≡ false
    → ((i : ℕ) (a : Item) → get_elem? items i ≡ some a → a.stored.id ≢ id)
    → (i : ℕ) (a : Item) → get_elem? (x ∷ items) i ≡ some a
    → a.stored.id ≢ id
absent_here id x items f h zero a g =
    let same : x ≡ a = cc g in subst (λ (y : Item). y.stored.id ≢ id) same (ground arith)
absent_here id x items f h (suc i) a g = h i a g

pub find_row-none :
    (id : ℕ) (items : List Item)
    → find_row id items ≡ none
    → (i : ℕ) (a : Item) → get_elem? items i ≡ some a
    → a.stored.id ≢ id
unfolding find_row
find_row-none id [] q i a g = absurd (cc)
find_row-none id (x ∷ items) q i a g = elim (Bool-cases (x.stored.id == id)) [
  | inl t ↦ absurd (ground arith)
  | inr f ↦
      let rest =
        suc-of-none (find_row id items)
          (sym (ap (λ b. if b then some 0 else Option.map suc (find_row id items)) f) ∙ q) in
      absent_here id x items f (find_row-none id items rest) i a g
]
