-- ===== src/Filter.antt =====
-- internal/web/static/modules/filter.js: the packets and the parsed filters. The functions are in
-- the modules below.
pub mod Parse
pub mod Match
pub mod Positions
pub mod Presets
use serial_tcp_proxy.Prelude.{
  ℕ, ◌≤◌, ◌<◌, ◌≡◌, Bool, true, false, Option, none, some, Text, [], ◌∷◌,
}
use serial_tcp_proxy.RegExp.{RegExp}

-- A packet of the table, as packets.js makes it.
pub record Packet : Type 0 where
  pub time : Text
  pub direction : Text
  pub length : Text
  pub hex_raw : Text
  pub hex_formatted : Text
  pub ascii : Text

-- The direction of a `dir:` token.
pub data Direction : Type 0 where
  up down : Direction

-- The buttons' filter.
pub data DirectionFilter : Type 0 where
  all : DirectionFilter
  only : Direction → DirectionFilter

pub data Comparison : Type 0 where
  eq gt lt ge le : Comparison

-- `{ op, value }`, or `{ op: 'range', min, max }`.
pub data LengthTest : Type 0 where
  compare_to : Comparison → ℕ → LengthTest
  range : ℕ → ℕ → LengthTest

pub record Parsed : Type 0 where
  pub direction : Option Direction
  pub length : Option LengthTest
  pub hex : Option Text
  pub ascii : Option Text
  pub regex : Option RegExp
  pub plain_text : Option Text

abbrev pub no_conditions : Parsed
no_conditions = record {
  direction = none;
  length = none;
  hex = none;
  ascii = none;
  regex = none;
  plain_text = none;
}

-- A text counts as true if it is there and not empty.
abbrev pub truthy : Option Text → Bool
truthy none = false
truthy (some []) = false
truthy (some (c ∷ s)) = true

-- The condition holds of the value, if there is one.
abbrev pub When {ℓ} : {A : Type ℓ} → Option A → (A → Type 0) → Type 0
When none P = Unit
When (some a) P = P a

-- As `When`, for a text that counts only if it is not empty.
abbrev pub Filled : Option Text → (Text → Type 0) → Type 0
Filled none P = Unit
Filled (some []) P = Unit
Filled (some (c ∷ s)) P = P (c ∷ s)
