-- ===== src/Filter/Match.antt =====
-- `matchesFilter` of internal/web/static/modules/filter.js.
pub mod Spec
pub mod Stateful
use serial_tcp_proxy.Prelude.{
  ℕ, ◌+◌, ◌-◌, ◌≤◌, ◌<◌, ◌≡◌, refl, Bool, true, false, not, ◌&&◌, ◌||◌, Option, none, some, [], ◌∷◌,
  Text, codes, to_lower, includes, remove_spaces, is_space, is_digit, take_while, drop_while,
  decimal_from, is_nil, if◌then◌else◌, ltb, leb, ◌==◌,
}
use serial_tcp_proxy.RegExp.{RegExp, Engine, test}
use serial_tcp_proxy.Filter.{
  Packet, Direction, up, down, DirectionFilter, all, only, Comparison, eq, gt, lt, ge, le,
  LengthTest, compare_to, range, Parsed, truthy,
}

-- What `parseInt(s, 10)` returns. `negative n` is -(n + 1).
pub data Number : Type 0 where
  nan : Number
  natural : ℕ → Number
  negative : ℕ → Number

unfoldable pub signed : Bool → Text → Number
unfolding take_while decimal_from
signed minus s =
    let digits = take_while is_digit s in
    let value = decimal_from 0 digits in
    if is_nil digits
    then nan
    else if minus && ltb 0 value
    then negative (value - 1)
    else natural value

unfoldable pub unsigned_part : Text → Number
unfolding signed
unsigned_part [] = nan
unsigned_part (c ∷ s) =
    if c == b'-' then signed true s else if c == b'+' then signed false s else signed false (c ∷ s)

unfoldable pub parse_int : Text → Number
unfolding drop_while is_space unsigned_part
parse_int s = unsigned_part (drop_while is_space s)

-- `n < value` and the rest, where `NaN` makes every comparison false.
abbrev pub is_below : Number → ℕ → Bool
is_below nan value = false
is_below (natural n) value = ltb n value
is_below (negative n) value = true

abbrev pub is_above : Number → ℕ → Bool
is_above nan value = false
is_above (natural n) value = ltb value n
is_above (negative n) value = false

abbrev pub is_equal : Number → ℕ → Bool
is_equal (natural n) value = n == value
is_equal _ value = false

-- The `switch` over `op`: the cases that return `false`.
unfoldable pub length_fails : LengthTest → Number → Bool
length_fails (compare_to eq value) len = not (is_equal len value)
length_fails (compare_to gt value) len = is_below len value || is_equal len value
length_fails (compare_to lt value) len = is_above len value || is_equal len value
length_fails (compare_to ge value) len = is_below len value
length_fails (compare_to le value) len = is_above len value
length_fails (range min max) len = is_below len min || is_above len max

unfoldable pub direction_fails : Direction → Packet → Bool
unfolding includes
direction_fails up p = not (includes p.direction (codes "UP ->"))
direction_fails down p = not (includes p.direction (codes "-> UP"))

abbrev pub button_fails : DirectionFilter → Packet → Bool
button_fails all p = false
button_fails (only d) p = direction_fails d p

-- A condition that is not set rejects no packet.
abbrev pub set_and {ℓ} : {A : Type ℓ} → Option A → (A → Bool) → Bool
set_and none fails = false
set_and (some a) fails = fails a

abbrev pub filled_and : Option Text → (Text → Bool) → Bool
filled_and none fails = false
filled_and (some []) fails = false
filled_and (some (c ∷ s)) fails = fails (c ∷ s)

unfoldable pub normalized_hex : Packet → Text
unfolding remove_spaces
normalized_hex p = remove_spaces (to_lower p.hex_raw)

unfoldable pub hex_fails : Packet → Text → Bool
unfolding normalized_hex includes
hex_fails p pattern' = not (includes (normalized_hex p) (remove_spaces (to_lower pattern')))

unfoldable pub ascii_fails : Packet → Text → Bool
unfolding includes
ascii_fails p pattern' = not (includes (to_lower p.ascii) (to_lower pattern'))

unfoldable pub plain_text_fails : Packet → Text → Bool
unfolding includes
plain_text_fails p words =
    not (includes (to_lower p.hex_raw) words) && not (includes (to_lower p.ascii) words)

-- The tests above the regular expression's.
unfoldable pub fails_early : Packet → Parsed → Bool
unfolding direction_fails length_fails parse_int hex_fails ascii_fails
fails_early p f =
    set_and f.direction (λ d. direction_fails d p)
    || (set_and f.length (λ l. length_fails l (parse_int p.length))
        || (filled_and f.hex (hex_fails p) || filled_and f.ascii (ascii_fails p)))

module _ (e : Engine) where
  -- `parsed.regex.test(…)` writes the object's `lastIndex`, so the filter is returned too.
  unfoldable pub test_regex : Packet → Parsed → Bool × Parsed
  unfolding test normalized_hex
  test_regex p f = elim f.regex [
    | none ↦ (true, f)
    | some r ↦ let (hit, r') = test e r (normalized_hex p) in (hit, record f { regex = some r' })
  ]

  unfoldable pub matches_parsed : Packet → Parsed → Bool × Parsed
  unfolding fails_early test_regex plain_text_fails
  matches_parsed p f =
      if fails_early p f
      then (false, f)
      else let (hit, f') = test_regex p f in
        if hit then (not (filled_and f.plain_text (plain_text_fails p)), f') else (false, f')

  unfoldable pub matches_filter : Packet → DirectionFilter → Option Parsed → Bool × Option Parsed
  unfolding direction_fails matches_parsed
  matches_filter p button parsed = if button_fails button p then (false, parsed) else elim parsed [
    | none ↦ (true, none)
    | some f ↦ let (hit, f') = matches_parsed p f in (hit, some f')
  ]
