-- ===== src/Utils/Time.antt =====
-- `formatTime` of internal/web/static/modules/utils.js.
use serial_tcp_proxy.Prelude.{
  ℕ, Bool, not, ◌||◌, Option, none, some, List, [], ◌∷◌, Text, split, take_while, take, ◌==◌,
}

-- The units that `/[Z+-]/` cuts at.
abbrev pub is_zone : ℕ → Bool
is_zone c = c == b'Z' || c == b'+' || c == b'-'

-- The part at index 1; the access to a missing part throws.
abbrev pub second : List Text → Option Text
second [] = none
second (p ∷ []) = none
second (p ∷ q ∷ ps) = some q

unfoldable pub format_time : Text → Text
unfolding split take_while
format_time [] = []
format_time (c ∷ s) = elim (second (split b'T' (c ∷ s))) [
  | none ↦ c ∷ s
  | some t ↦ take 12 (take_while (λ u. not (is_zone u)) t)
]
