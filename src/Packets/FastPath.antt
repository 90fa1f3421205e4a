-- ===== src/Packets/FastPath.antt =====
-- `appendPacket` and `renderPackets` of internal/web/static/modules/packets.js, compared.
use mathlib.Core.List.{map-append}
use serial_tcp_proxy.Prelude.{
  ◌+◌, ◌≡◌, refl, ap, sym, ◌∙◌, inl, inr, Bool, true, false, not, ◌&&◌, filterb, Option, none, some,
  List, [], ◌∷◌, ◌++◌, Text, trim, map, tail, length, length-map, map-tail, ltb, if◌then◌else◌,
  Bool-cases, drop_while, arith,
}
use serial_tcp_proxy.RegExp.{Engine}
use serial_tcp_proxy.Filter.{Packet, all, Parsed}
use serial_tcp_proxy.Filter.Parse.{parse_filter}
use serial_tcp_proxy.Filter.Match.{matches_filter}
use serial_tcp_proxy.Filter.Positions.{find_match_positions}
use serial_tcp_proxy.Packets.Sort.{Order}
use serial_tcp_proxy.Packets.State.{
  max_packets, Stored, Item, FilterState, State, call, push_bounded, scroll_to_end, process,
  process_all,
}
use serial_tcp_proxy.Packets.Handlers.{
  sort_items, is_sorting, is_plain_view, follow, append_packet, render_rows, render_packets,
  store_packet,
}

-- The row of a packet without a filter.
abbrev pub plain_item : Stored → Item
plain_item p = record { stored = p; matches = true; match_positions = none }

-- Nothing is filtered or sorted, and the rows are those of the stored packets.
pub record IsPlain (s : State) : Type 0 where
  pub no_input : s.filter_input ≡ []
  pub no_sorting : is_sorting s.sort_field ≡ false
  pub both_directions : s.filter.direction ≡ all
  pub no_filter : s.filter.parsed ≡ none
  pub rows : s.processed ≡ map plain_item s.packets

pub process-none :
    (e : Engine) (h : Bool) (p : Stored) → process e h all p none ≡ (plain_item p, none)
unfolding process matches_filter find_match_positions
process-none e true p = refl
process-none e false p = refl

process_all-none :
    (e : Engine) (h : Bool) (ps : List Stored)
    → process_all e h all ps none ≡ (map plain_item ps, none)
unfolding process_all
process_all-none e h [] = refl
process_all-none e h (p ∷ ps) = rw (process-none e h p) (rw (process_all-none e h ps) refl)

parse_filter-nil : (e : Engine) → parse_filter e [] ≡ none
unfolding parse_filter trim drop_while
parse_filter-nil e = refl

sort_items_idle :
    (field : Option Text) (o : Order) (items : List Item)
    → is_sorting field ≡ false
    → sort_items field o items ≡ items
unfolding sort_items
sort_items_idle none o items h = refl
sort_items_idle (some []) o items h = refl
sort_items_idle (some (c ∷ field)) o items h = absurd (cc)

abbrev bounded {ℓ} : {A : Type ℓ} → List A → List A
bounded l = if ltb max_packets (length l) then tail l else l

map-bounded : (ps : List Stored) → map plain_item (bounded ps) ≡ bounded (map plain_item ps)
map-bounded ps = elim (Bool-cases (ltb max_packets (length ps))) [
  | inl long ↦ rw (long, length-map plain_item ps) (rw long (map-tail plain_item ps))
  | inr fits ↦ rw (fits, length-map plain_item ps) (rw fits refl)
]

map-push_bounded :
    (p : Stored) (ps : List Stored)
    → map plain_item (push_bounded p ps) ≡ push_bounded (plain_item p) (map plain_item ps)
map-push_bounded p ps = map-bounded (ps ++ p ∷ []) ∙ ap bounded (map-append plain_item ps (p ∷ []))

and_false : (b : Bool) → (b && false) ≡ false
and_false true = refl
and_false false = refl

render_rows_plain :
    (e : Engine) (f : FilterState) (s : State)
    → f.direction ≡ all
    → f.parsed ≡ none
    → f.text ≡ []
    → is_sorting s.sort_field ≡ false
    → render_rows e f s ≡ (map plain_item s.packets, none)
unfolding render_rows trim drop_while
render_rows_plain e f s d q t n =
    rw (d, q, t)
      (rw (process_all-none e f.highlight_mode s.packets) (
        ap (λ l. (l, none))
          (ap
              (λ b. sort_items s.sort_field s.sort_order (
                if b
                then filterb (λ (i : Item). i.matches) (map plain_item s.packets)
                else map plain_item s.packets))
              (and_false (not f.highlight_mode))
            ∙ sort_items_idle s.sort_field s.sort_order (map plain_item s.packets) n)))

scroll_if_rows :
    (b : Bool) (s : State)
    → ((if b then call scroll_to_end s else s).processed ≡ s.processed)
      × ((if b then call scroll_to_end s else s).filter ≡ s.filter)
scroll_if_rows true s = (refl, refl)
scroll_if_rows false s = (refl, refl)

follow_rows : (s : State) → ((follow s).processed ≡ s.processed) × ((follow s).filter ≡ s.filter)
unfolding follow
follow_rows s = ground arith

-- What `render_packets` makes of a state without a filter.
render_plain :
    (e : Engine) (s : State)
    → s.filter_input ≡ []
    → is_sorting s.sort_field ≡ false
    → s.filter.direction ≡ all
    → ((render_packets e s).processed ≡ map plain_item s.packets)
      × ((render_packets e s).filter.parsed ≡ none)
unfolding render_packets
render_plain e s i n d =
    let f = record s.filter { text = s.filter_input; parsed = parse_filter e s.filter_input } in
    let q = render_rows_plain e f s d (ap (parse_filter e) i ∙ parse_filter-nil e) i n in
    let (rows, same) = scroll_if_rows _ _ in
    (
      rows ∙ ap (λ (r : List Item × Option Parsed). r.0) q,
      ap (λ (g : FilterState). g.parsed) same ∙ ap (λ (r : List Item × Option Parsed). r.1) q,
    )

pub append_plain :
    (e : Engine) (p : Stored) (s : State)
    → s.filter.direction ≡ all
    → s.filter.parsed ≡ none
    → ((append_packet e p s).processed ≡ push_bounded (plain_item p) s.processed)
      × ((append_packet e p s).filter.parsed ≡ none)
unfolding append_packet
append_plain e p s d q =
    let plain : process e s.filter.highlight_mode s.filter.direction p s.filter.parsed
        ≡ (plain_item p, none) =
      rw (d, q) (process-none e s.filter.highlight_mode p) in
    let (rows, same) = follow_rows _ in
    (
      rows ∙ ap (λ (r : Item × Option Parsed). push_bounded r.0 s.processed) plain,
      ap (λ (g : FilterState). g.parsed) same ∙ ap (λ (r : Item × Option Parsed). r.1) plain,
    )

-- Storing a packet where nothing is filtered or sorted and the rows are those of the stored
-- packets takes the shortcut; this gives the rows that rendering everything would give, also when
-- the oldest packet is pushed out, and they are again those of the stored packets.
pub append-render :
    (e : Engine) (s : State) (packet : Packet)
    → IsPlain s
    → let p : Stored = record { id = s.next_id; packet = packet } in
      let s' = record s { next_id = s.next_id + 1; packets = push_bounded p s.packets } in
      (store_packet e packet s ≡ append_packet e p s')
      × ((append_packet e p s').processed ≡ (render_packets e s').processed)
      × ((append_packet e p s').processed ≡ map plain_item s'.packets)
unfolding store_packet
append-render e s packet v =
    let p : Stored = record { id = s.next_id; packet = packet } in
    let s' = record s { next_id = s.next_id + 1; packets = push_bounded p s.packets } in
    let rows =
      (append_plain e p s' v.both_directions v.no_filter).0
      ∙ ap (push_bounded (plain_item p)) v.rows
      ∙ sym (map-push_bounded p s.packets) in
    let plain : is_plain_view s' ≡ true =
      ground (arith, v.no_input, v.no_sorting, v.both_directions) in
    let rendered = (render_plain e s' v.no_input v.no_sorting v.both_directions).0 in
    (
      ap (λ b. if b then append_packet e p s' else render_packets e s') plain,
      rows ∙ sym rendered,
      rows,
    )
