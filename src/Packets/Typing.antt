-- ===== src/Packets/Typing.antt =====
-- Typing into the filter of internal/web/static/modules/packets.js: `debounce` puts the rendering off.
use serial_tcp_proxy.Prelude.{
  ℕ, ◌≤◌, ◌≡◌, refl, ap, sym, ◌∙◌, Bool, true, false, not, ◌&&◌, Option, List, [], ◌∷◌, ◌++◌, Text,
  leb, filterb, if◌then◌else◌, arith,
}
use serial_tcp_proxy.RegExp.{Engine}
use serial_tcp_proxy.Filter.{DirectionFilter}
use serial_tcp_proxy.Filter.Parse.{parse_filter}
use serial_tcp_proxy.Utils.Debounce.{Debounced, executed, elapse, called}
use serial_tcp_proxy.Packets.Sort.{Order}
use serial_tcp_proxy.Packets.State.{
  Stored, Item, FilterState, State, call, scroll_to_end, has_active_filter, process_all,
}
use serial_tcp_proxy.Packets.Handlers.{render_packets, render_rows, sort_items}

abbrev pub render_delay : ℕ
render_delay = 150

-- The page with the timer of `debouncedRender`, whose calls have no arguments.
pub record Typing : Type 0 where
  pub state : State
  pub debounced : Debounced Unit

abbrev pub render_for : Engine → List {0} Unit → State → State
render_for e [] s = s
render_for e (_ ∷ calls) s = render_for e calls (render_packets e s)

-- The input changes, its event reaches `debouncedRender`, and then time passes.
unfoldable pub type_one : Engine → Text → ℕ → Typing → Typing
unfolding executed elapse
type_one e text gap t =
    let typed = record t.state { filter_input = text } in
    let d = elapse gap (executed render_delay tt (record t.debounced { calls = [] })) in
    record { state = render_for e d.calls typed; debounced = d }

unfoldable pub type_all : Engine → List (Text × ℕ) → Typing → Typing
unfolding type_one
type_all e [] t = t
type_all e ((text, gap) ∷ texts) t = type_all e texts (type_one e text gap t)

-- What the rows depend on, but for the text of the filter.
pub record SameData (s s' : State) : Type 0 where
  pub packets : s'.packets ≡ s.packets
  pub direction : s'.filter.direction ≡ s.filter.direction
  pub highlight_mode : s'.filter.highlight_mode ≡ s.filter.highlight_mode
  pub sort_field : s'.sort_field ≡ s.sort_field
  pub sort_order : s'.sort_order ≡ s.sort_order

-- The rows of `render_packets`.
abbrev rows_of :
    Engine → List Stored → DirectionFilter → Bool → Option Text → Order → Text → List Item
rows_of e packets direction highlight_mode field order input =
    let f : FilterState = record {
      direction = direction;
      text = input;
      parsed = parse_filter e input;
      highlight_mode = highlight_mode;
    } in
    let items = (process_all e highlight_mode direction packets f.parsed).0 in
    sort_items field order (
      if not highlight_mode && has_active_filter f
      then filterb (λ (i : Item). i.matches) items
      else items)

scroll_if :
    (b : Bool) (s : State)
    → ((if b then call scroll_to_end s else s).processed ≡ s.processed)
      × SameData s (if b then call scroll_to_end s else s)
scroll_if true s = (
  refl,
  record {
    packets = refl;
    direction = refl;
    highlight_mode = refl;
    sort_field = refl;
    sort_order = refl;
  },
)
scroll_if false s = (
  refl,
  record {
    packets = refl;
    direction = refl;
    highlight_mode = refl;
    sort_field = refl;
    sort_order = refl;
  },
)

rendered :
    (e : Engine) (s : State)
    → ((render_packets e s).processed
        ≡ rows_of e s.packets s.filter.direction s.filter.highlight_mode s.sort_field s.sort_order
            s.filter_input)
      × SameData s (render_packets e s)
unfolding render_packets render_rows
rendered e s =
    let (rows, same) = scroll_if _ _ in
    (
      rows,
      record {
        packets = same.packets;
        direction = same.direction;
        highlight_mode = same.highlight_mode;
        sort_field = same.sort_field;
        sort_order = same.sort_order;
      },
    )

same_trans : (s s' s'' : State) → SameData s s' → SameData s' s'' → SameData s s''
same_trans s s' s'' a b = record {
  packets = b.packets ∙ a.packets;
  direction = b.direction ∙ a.direction;
  highlight_mode = b.highlight_mode ∙ a.highlight_mode;
  sort_field = b.sort_field ∙ a.sort_field;
  sort_order = b.sort_order ∙ a.sort_order;
}

typed-SameData : (s : State) (input : Text) → SameData s (record s { filter_input = input })
typed-SameData s input = record {
  packets = refl;
  direction = refl;
  highlight_mode = refl;
  sort_field = refl;
  sort_order = refl;
}

render_for-SameData :
    (e : Engine) (calls : List Unit) (s : State) → SameData s (render_for e calls s)
render_for-SameData e [] s = typed-SameData s s.filter_input
render_for-SameData e (_ ∷ calls) s =
    same_trans s (render_packets e s) _ (rendered e s).1
      (render_for-SameData e calls (render_packets e s))

-- What the timer calls while the time passes.
abbrev due_calls : ℕ → Typing → List {0} Unit
due_calls gap t = (elapse gap (executed render_delay tt (record t.debounced { calls = [] }))).calls

type_one-SameData :
    (e : Engine) (text : Text) (gap : ℕ) (t : Typing)
    → SameData t.state (type_one e text gap t).state
unfolding type_one
type_one-SameData e text gap t =
    same_trans t.state (record t.state { filter_input = text }) _ (typed-SameData t.state text)
      (render_for-SameData e (due_calls gap t) (record t.state { filter_input = text }))

type_all-SameData :
    (e : Engine) (texts : List (Text × ℕ)) (t : Typing)
    → SameData t.state (type_all e texts t).state
unfolding type_all
type_all-SameData e [] t = typed-SameData t.state t.state.filter_input
type_all-SameData e ((text, gap) ∷ texts) t =
    same_trans t.state (type_one e text gap t).state _ (type_one-SameData e text gap t)
      (type_all-SameData e texts (type_one e text gap t))

-- The rows of the same data and the same text.
same_rows :
    (e : Engine) (s s' : State)
    → SameData s s'
    → s'.filter_input ≡ s.filter_input
    → (render_packets e s').processed ≡ (render_packets e s).processed
same_rows e s s' r i =
    (rendered e s').0
    ∙ rw (r.packets, r.direction, r.highlight_mode, r.sort_field, r.sort_order, i) refl
    ∙ sym (rendered e s).0

-- A pause that is long enough renders once.
paused :
    (e : Engine) (text : Text) (gap : ℕ) (t : Typing)
    → render_delay ≤ gap
    → (type_one e text gap t).state ≡ render_packets e (record t.state { filter_input = text })
unfolding type_one
paused e text gap t h =
    let long : leb render_delay gap ≡ true = ground (arith, h) in
    let due : due_calls gap t ≡ tt ∷ [] =
      called render_delay tt gap (record t.debounced { calls = [] })
      ∙ ap (λ b. if b then tt ∷ [] else []) long in
    ap (λ l. render_for e l (record t.state { filter_input = text })) due

type_all-append :
    (e : Engine) (a b : List (Text × ℕ)) (t : Typing)
    → type_all e (a ++ b) t ≡ type_all e b (type_all e a t)
unfolding type_all
type_all-append e [] b t = refl
type_all-append e ((text, gap) ∷ a) b t = type_all-append e a b (type_one e text gap t)

-- Whatever is typed into the filter before and how fast: once typing has paused for 150
-- milliseconds, the rows are those of rendering at once what was typed last.
pub type_all-rows :
    (e : Engine) (texts : List (Text × ℕ)) (text : Text) (gap : ℕ) (t : Typing)
    → render_delay ≤ gap
    → (type_all e (texts ++ (text, gap) ∷ []) t).state.processed
      ≡ (render_packets e (record t.state { filter_input = text })).processed
unfolding type_all
type_all-rows e texts text gap t h =
    let before = type_all e texts t in
    let same = type_all-SameData e texts t in
    ap (λ (u : Typing). u.state.processed) (type_all-append e texts ((text, gap) ∷ []) t)
    ∙ ap (λ (s : State). s.processed) (paused e text gap before h)
    ∙ same_rows e (record t.state { filter_input = text })
        (record before.state { filter_input = text })
        (record {
          packets = same.packets;
          direction = same.direction;
          highlight_mode = same.highlight_mode;
          sort_field = same.sort_field;
          sort_order = same.sort_order;
        })
        refl
