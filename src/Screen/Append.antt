-- ===== src/Screen/Append.antt =====
-- Packets that arrive in internal/web/static/modules/packets.js while nothing is filtered or sorted, and
-- the rows of the table.
use serial_tcp_proxy.Prelude.{
  ℕ, zero, suc, ◌+◌, ◌<◌, ◌≡◌, ◌≢◌, ◌⊎◌, refl, ap, sym, ◌∙◌, subst, some, List, [], ◌∷◌, ◌++◌,
  append_assoc, length, length-append, length-map, map, get_elem?, drop, inl, inr, arith,
}
use serial_tcp_proxy.RegExp.{Engine}
use serial_tcp_proxy.Filter.{Packet}
use serial_tcp_proxy.Table
use serial_tcp_proxy.Table.{VirtualTable}
use serial_tcp_proxy.Table.Range.{render_items}
use serial_tcp_proxy.Table.Rows.{appended-IsFresh}
use serial_tcp_proxy.Packets.State.{
  max_packets, set_data, Stored, Item, FilterState, State, TableCall, call, process, push_bounded,
}
use serial_tcp_proxy.Packets.Handlers.{is_sorting, follow, append_packet, store_packet}
use serial_tcp_proxy.Packets.FastPath.{plain_item, IsPlain, append_plain, append-render}
use serial_tcp_proxy.Packets.Invariant.{Inv}
use serial_tcp_proxy.Packets.Invariant.Rows.{store_packet-Inv}
use serial_tcp_proxy.Packets.Row.{RowView, render_table_row}
use serial_tcp_proxy.Screen.{Screen, perform, perform_all, new_calls, follow_state}
use serial_tcp_proxy.Screen.Selected.{Suits, Marked, DistinctItems}
use serial_tcp_proxy.Screen.Same.{SameView, follow-SameView, scroll_calls, scroll_calls_idle}
use serial_tcp_proxy.Screen.Marks.{Right, drop-length-append}

-- The screen is right, nothing is filtered or sorted, and the identity of the next packet is new.
pub record Plain (sc : Screen) : Type 0 where
  pub right : Right sc
  pub plain : IsPlain sc.state
  pub fresh :
      (i : ℕ) (a : Item) → get_elem? sc.table.items i ≡ some a → a.stored.id < sc.state.next_id

push_bounded_room {ℓ} :
    {A : Type ℓ} (a : A) (l : List A) → length l < max_packets → push_bounded a l ≡ l ++ a ∷ []
push_bounded_room a l h = ground (arith, length-append l (a ∷ []))

-- An item of a list with a new last one is one of before, or the new one at the end.
get_elem?-snoc :
    {A : Type 0} (l : List A) (x : A) (i : ℕ) (a : A)
    → get_elem? (l ++ x ∷ []) i ≡ some a
    → (get_elem? l i ≡ some a) ⊎ ((i ≡ length l) × (x ≡ a))
get_elem?-snoc [] x zero a q = inr (refl, cc q)
get_elem?-snoc [] x (suc i) a q = absurd (cc)
get_elem?-snoc (y ∷ l) x zero a q = inl q
get_elem?-snoc (y ∷ l) x (suc i) a q = elim (get_elem?-snoc l x i a q) [
  | inl before ↦ inl before
  | inr (at, same) ↦ inr (omega (arith, at), same)
]

snoc-DistinctItems :
    (l : List Item) (x : Item)
    → DistinctItems l
    → ((i : ℕ) (a : Item) → get_elem? l i ≡ some a → a.stored.id ≢ x.stored.id)
    → DistinctItems (l ++ x ∷ [])
snoc-DistinctItems l x d new i j a b p q e = elim (get_elem?-snoc l x i a p) [
  | inl p' ↦ elim (get_elem?-snoc l x j b q) [
    | inl q' ↦ d i j a b p' q' e
    | inr (at, same) ↦ absurd (new i a p' (e ∙ sym (ap (λ (y : Item). y.stored.id) same)))
  ]
  | inr (at, same) ↦ elim (get_elem?-snoc l x j b q) [
    | inl q' ↦ absurd (new j b q' (sym e ∙ sym (ap (λ (y : Item). y.stored.id) same)))
    | inr (at', _) ↦ at ∙ sym at'
  ]
]

-- The table after the calls of `append_packet`.
follow_table :
    (show : Item → RowView) (s s1 : State) (c : TableCall) (t : VirtualTable Item RowView)
    → s1.calls ≡ s.calls ++ c ∷ []
    → perform_all show (new_calls s (follow s1)) t ≡ perform show c t
unfolding perform_all
follow_table show s s1 c t q =
    let more = scroll_calls s1.auto_scroll in
    let calls : (follow s1).calls ≡ s.calls ++ (c ∷ more) =
      (follow-SameView s1).1 ∙ ap (λ l. l ++ more) q ∙ append_assoc s.calls (c ∷ []) more in
    ap (λ l. perform_all show l t)
      (ap (drop (length s.calls)) calls ∙ drop-length-append s.calls (c ∷ more))
    ∙ scroll_calls_idle show s1.auto_scroll (perform show c t)

-- What `append_packet` makes of the state before it scrolls.
abbrev appended : Engine → Stored → State → State
appended e p s =
    let (item, parsed') = process e s.filter.highlight_mode s.filter.direction p s.filter.parsed in
    let rows = push_bounded item s.processed in
    call (set_data rows)
      (record s { processed = rows; filter = record s.filter { parsed = parsed' } })

module _ (e : Engine) (packet : Packet) (sc : Screen) (v : Plain sc)
    (room : length sc.state.packets < max_packets) where
  abbrev arrived : Stored
  arrived = record { id = sc.state.next_id; packet = packet }

  abbrev stored : State
  stored = record sc.state {
    next_id = sc.state.next_id + 1;
    packets = push_bounded arrived sc.state.packets;
  }

  abbrev after : State
  after = append_packet e arrived stored

  abbrev before_scroll : State
  before_scroll = appended e arrived stored

  stored_as : store_packet e packet sc.state ≡ after
  stored_as = (append-render e sc.state packet v.plain).0

  after-SameView : SameView before_scroll after
  unfolding append_packet
  after-SameView = (follow-SameView before_scroll).0

  rows_now : after.processed ≡ sc.table.items ++ plain_item arrived ∷ []
  rows_now =
      (append_plain e arrived stored v.plain.both_directions v.plain.no_filter).0
      ∙ push_bounded_room (plain_item arrived) sc.state.processed
          (omega (arith, ap length v.plain.rows, length-map plain_item sc.state.packets, room))
      ∙ ap (λ l. l ++ plain_item arrived ∷ []) (sym v.right.items)

  after-IsPlain : IsPlain after
  after-IsPlain =
      let same = after-SameView.same_rows in
      record {
        no_input = same.filter_input ∙ v.plain.no_input;
        no_sorting = ap is_sorting same.sort_field ∙ v.plain.no_sorting;
        both_directions =
            ap (λ (f : FilterState). f.direction) same.filter ∙ v.plain.both_directions;
        no_filter = (append_plain e arrived stored v.plain.both_directions v.plain.no_filter).1;
        rows = (append-render e sc.state packet v.plain).2 ∙ ap (map plain_item) (sym same.packets);
      }

  shown_then :
      (show : Item → RowView)
      → perform_all show (new_calls sc.state after) sc.table
        ≡ Table.set_data show (sc.table.items ++ plain_item arrived ∷ []) sc.table
  unfolding append_packet perform
  shown_then show =
      follow_table show sc.state before_scroll (set_data before_scroll.processed) sc.table refl
      ∙ ap (λ rows. Table.set_data show rows sc.table)
          (sym after-SameView.same_rows.processed ∙ rows_now)

  set_items :
      (show : Item → RowView) (rows : List Item) → (Table.set_data show rows sc.table).items ≡ rows
  unfolding Table.set_data
  set_items show rows = render_items show (record sc.table { items = rows })

  -- A row of before belongs to a packet that came before.
  pub new_packet :
      (i : ℕ) (a : Item) → get_elem? sc.table.items i ≡ some a → a.stored.id ≢ sc.state.next_id
  new_packet i a q same = omega (arith, v.fresh i a q, same)

  next_fresh :
      (i : ℕ) (a : Item)
      → get_elem? (sc.table.items ++ plain_item arrived ∷ []) i ≡ some a
      → a.stored.id < sc.state.next_id + 1
  next_fresh i a q = elim (get_elem?-snoc sc.table.items (plain_item arrived) i a q) [
    | inl before ↦ omega (arith, v.fresh i a before)
    | inr (_, same) ↦ omega (arith, ap (λ (y : Item). y.stored.id) same)
  ]

  -- The screen after the calls, with the table written out.
  arrived-Plain :
      let t =
        Table.set_data
          (render_table_row after sc.hidden)
          (sc.table.items ++ plain_item arrived ∷ [])
          sc.table in
      Plain (record sc { state = after; table = t })
  unfolding render_table_row
  arrived-Plain =
      let show = render_table_row after sc.hidden in
      let rows = sc.table.items ++ plain_item arrived ∷ [] in
      let items = set_items show rows in
      record {
        right = record {
          items = items ∙ sym rows_now;
          distinct =
              subst DistinctItems (sym items) (
                snoc-DistinctItems sc.table.items (plain_item arrived) v.right.distinct new_packet);
          inv = subst Inv stored_as (store_packet-Inv e packet sc.state v.right.inv);
          marked =
              appended-IsFresh (Suits after.selected) show (λ a. (refl, refl))
                (plain_item arrived ∷ []) sc.table
                (subst (λ l. Marked l sc.table.items sc.table.active) (sym after-SameView.selected)
                  v.right.marked);
        };
        plain = after-IsPlain;
        fresh =
            subst (λ l. (i : ℕ) (a : Item) → get_elem? l i ≡ some a → a.stored.id < after.next_id)
              (sym items)
              (subst (λ n. (i : ℕ) (a : Item) → get_elem? rows i ≡ some a → a.stored.id < n)
                (sym after-SameView.same_rows.next_id) next_fresh);
      }

  pub store_packet-Plain : Plain (follow_state (store_packet e packet sc.state) sc)
  unfolding follow_state
  store_packet-Plain =
      subst (λ s'. Plain (follow_state s' sc)) (sym stored_as)
        (subst (λ t. Plain (record sc { state = after; table = t }))
          (sym (shown_then (render_table_row after sc.hidden))) arrived-Plain)

  -- One packet more is stored.
  pub packets_now : length (store_packet e packet sc.state).packets ≡ length sc.state.packets + 1
  packets_now =
      ap (λ (s' : State). length s'.packets) stored_as
      ∙ ap length
          (after-SameView.same_rows.packets ∙ push_bounded_room arrived sc.state.packets room)
      ∙ length-append sc.state.packets (arrived ∷ [])
