-- ===== src/Filter/Parse.antt =====
-- `parseFilter` of internal/web/static/modules/filter.js. Each regular expression of the source is
-- a function on the token that it is matched with.
pub mod WellFormed
use serial_tcp_proxy.Prelude.{
  ℕ, ◌≡◌, refl, Bool, true, false, not, ◌&&◌, ◌||◌, Option, none, some, List, [], ◌∷◌, ◌++◌, Text,
  codes, text_eq, to_lower, is_digit, is_line_end, is_nil, trim, split_spaces, strip_prefix,
  split_last, take_while, drop_while, drop, decimal_from, all_units, join, if◌then◌else◌, ◌==◌,
  includes, length,
}
use serial_tcp_proxy.RegExp.{RegExp, Engine}
use serial_tcp_proxy.Filter.{
  Direction, up, down, Comparison, eq, gt, lt, ge, le, LengthTest, compare_to, range, Parsed,
  no_conditions,
}

-- `/^dir:(up|down)$/i`
unfoldable pub match_direction : Text → Option Direction
match_direction token =
    if text_eq (to_lower token) (codes "dir:up")
    then some up
    else if text_eq (to_lower token) (codes "dir:down")
    then some down
    else none

-- `(>=?|<=?)?`: the longest sign, and what is behind it.
unfoldable pub match_comparison : Text → Comparison × Text
match_comparison [] = (eq, [])
match_comparison (c ∷ []) =
    if c == b'>' then (gt, []) else if c == b'<' then (lt, []) else (eq, c ∷ [])
match_comparison (c ∷ d ∷ s) =
    if c == b'>'
    then if d == b'=' then (ge, s) else (gt, d ∷ s)
    else if c == b'<'
    then if d == b'=' then (le, s) else (lt, d ∷ s)
    else (eq, c ∷ d ∷ s)

-- Behind the first number: the end, or `-` and a second number. The sign is dropped before a range.
unfoldable pub match_maximum : Comparison → ℕ → Text → Option LengthTest
unfolding all_units decimal_from
match_maximum op value [] = some (compare_to op value)
match_maximum op value (c ∷ s) =
    if c == b'-' && (not (is_nil s) && all_units is_digit s)
    then some (range value (decimal_from 0 s))
    else none

unfoldable pub match_numbers : Comparison → Text → Option LengthTest
unfolding match_maximum take_while drop_while
match_numbers op s =
    let digits = take_while is_digit s in
    if is_nil digits then none else match_maximum op (decimal_from 0 digits) (drop_while is_digit s)

-- `/^len:(>=?|<=?)?(\d+)(?:-(\d+))?$/`
unfoldable pub match_length : Text → Option LengthTest
unfolding strip_prefix match_numbers match_comparison
match_length token = elim (strip_prefix (codes "len:") token) [
  | none ↦ none
  | some s ↦ let (op, rest) = match_comparison s in match_numbers op rest
]

-- `.+$`: at least one unit, and no line end.
unfoldable pub is_line : Text → Bool
unfolding all_units is_line_end
is_line s = not (is_nil s) && all_units (λ c. not (is_line_end c)) s

-- `/^key:(.+)$/i`, where the case of the key does not matter.
unfoldable pub match_key : Text → Text → Option Text
unfolding strip_prefix is_line
match_key key token = elim (strip_prefix key (to_lower token)) [
  | none ↦ none
  | some _ ↦ let value = drop (length key) token in if is_line value then some value else none
]

-- What the loop body of `parseFilter` makes of a token: the first expression that fits.
pub data Token : Type 0 where
  dir : Direction → Token
  len : LengthTest → Token
  hex : Text → Token
  ascii : Text → Token
  word : Text → Token

unfoldable pub classify : Text → Token
classify token = elim (match_direction token) [
  | some d ↦ dir d
  | none ↦ elim (match_length token) [
    | some l ↦ len l
    | none ↦ elim (match_key (codes "hex:") token) [
      | some h ↦ hex h
      | none ↦ elim (match_key (codes "ascii:") token) [ some a ↦ ascii a | none ↦ word token ]
    ]
  ]
]

-- `if (parsed.hex) parsed.hex += ' ' + w; else parsed.hex = w;`
abbrev pub accumulate : Option Text → Text → Option Text
accumulate none w = some w
accumulate (some []) w = some w
accumulate (some (c ∷ s)) w = some ((c ∷ s) ++ b' ' ∷ w)

-- One round of the loop, over `parsed` and `plainTextParts`.
unfoldable pub apply_token : Token → Parsed → List Text → Parsed × List Text
apply_token (dir d) f parts = (record f { direction = some d }, parts)
apply_token (len l) f parts = (record f { length = some l }, parts)
apply_token (hex h) f parts = (record f { hex = accumulate f.hex h }, parts)
apply_token (ascii a) f parts = (record f { ascii = accumulate f.ascii a }, parts)
apply_token (word w) f parts = (f, parts ++ w ∷ [])

unfoldable pub parse_tokens : List Text → Parsed → List Text → Parsed × List Text
parse_tokens [] f parts = (f, parts)
parse_tokens ([] ∷ tokens) f parts = parse_tokens tokens f parts
parse_tokens ((c ∷ s) ∷ tokens) f parts =
    let (f', parts') = apply_token (classify (c ∷ s)) f parts in parse_tokens tokens f' parts'

-- `parsed.plainText`, if there were plain words.
unfoldable pub set_plain_text : Parsed → List Text → Parsed
unfolding join
set_plain_text f [] = f
set_plain_text f (w ∷ ws) = record f { plain_text = some (to_lower (join b' ' (w ∷ ws))) }

-- `/^\/(.+)\/([gimsuy]*)$/`: the pattern ends at the last `/`, since no flag is one.
unfoldable pub match_regex : Text → Option (Text × Text)
unfolding split_last is_line all_units
match_regex [] = none
match_regex (c ∷ s) = elim (split_last b'/' s) [
  | none ↦ none
  | some (body, flags) ↦
      if c == b'/' && (is_line body && all_units (λ x. includes (codes "gimsuy") (x ∷ [])) flags)
      then some (body, flags)
      else none
]

module _ (e : Engine) where
  -- The text as a regular expression, unless `new RegExp` throws.
  unfoldable pub parse_regex : Text → Option RegExp
  parse_regex text = elim (match_regex text) [
    | none ↦ none
    | some (body, flags) ↦
        if e.accepts body flags
        then some (record { source = body; flags = flags; last_index = 0 })
        else none
  ]

  unfoldable pub parse_filter : Text → Option Parsed
  unfolding parse_regex set_plain_text
  parse_filter text = if is_nil (trim text) then none else elim (parse_regex text) [
    | some r ↦ some (record no_conditions { regex = some r })
    | none ↦
        let (f, parts) = parse_tokens (split_spaces text) no_conditions [] in
        some (set_plain_text f parts)
  ]
