-- ===== src/Filter/Positions.antt =====
-- `findMatchPositions` of internal/web/static/modules/filter.js. A `while` loop takes fuel, and its
-- result is `none` if the fuel runs out.
pub mod Loop
pub mod Spec
pub mod Highlight
use serial_tcp_proxy.Prelude.{
  ℕ, zero, suc, ◌+◌, ◌-◌, ◌/◌, min, Bool, true, false, Option, none, some, List, [], ◌∷◌, ◌++◌,
  Text, to_lower, includes, index_of, remove_spaces, length, drop, member, sort_numbers,
  if◌then◌else◌, ◌==◌, ◌>>=◌,
}
use mathlib.Core.Option
use serial_tcp_proxy.RegExp.{RegExp, Engine, exec}
use serial_tcp_proxy.Filter.{Packet, Parsed, truthy}

-- `s.indexOf(p, position)`: the search starts at the end of `s` at the latest.
unfoldable pub index_from : Text → Text → ℕ → Option ℕ
unfolding index_of
index_from s p position =
    let start = min position (length s) in Option.map (λ k. start + k) (index_of (drop start s) p)

-- `if (!positions.includes(i)) positions.push(i);`
abbrev pub push_new : ℕ → List ℕ → List ℕ
push_new i positions = if member i positions then positions else positions ++ i ∷ []

-- `for (let i = start; i < start + count; i++) …`
unfoldable pub push_bytes : ℕ → ℕ → List ℕ → List ℕ
push_bytes zero i positions = positions
push_bytes (suc count) i positions = push_bytes count (i + 1) (push_new i positions)

abbrev pub byte_start : ℕ → ℕ
byte_start k = k / 2

-- `Math.ceil((k + n) / 2)`
abbrev pub byte_end : ℕ → ℕ → ℕ
byte_end k n = (k + n + 1) / 2

-- The bytes that a match of `n` digits at the digit `k` touches.
unfoldable pub mark : ℕ → ℕ → List ℕ → List ℕ
unfolding push_bytes
mark k n positions = push_bytes (byte_end k n - byte_start k) (byte_start k) positions

-- `while ((pos = hex.indexOf(needle, pos)) !== -1) { …; pos++; }`
unfoldable pub scan : ℕ → Text → Text → ℕ → List ℕ → Option (List ℕ)
unfolding index_from mark
scan zero hex needle pos positions = none
scan (suc fuel) hex needle pos positions = elim (index_from hex needle pos) [
  | none ↦ some positions
  | some k ↦ scan fuel hex needle (k + 1) (mark k (length needle) positions)
]

-- The rounds that the loop can make if the needle is not empty.
abbrev pub rounds : Text → ℕ
rounds hex = length hex + 1

unfoldable pub scan_text : Text → Option Text → (Text → Text) → List ℕ → Option (List ℕ)
unfolding scan
scan_text hex none prepare positions = some positions
scan_text hex (some []) prepare positions = some positions
scan_text hex (some (c ∷ s)) prepare positions = scan (rounds hex) hex (prepare (c ∷ s)) 0 positions

unfoldable pub needle_of : Text → Text
unfolding remove_spaces
needle_of hex = remove_spaces (to_lower hex)

-- The copy of the expression that searches on, with `g` among its flags. The constructor throws
-- if the engine refuses it, and the search is left out.
abbrev pub global_copy : RegExp → RegExp
global_copy r = record {
  source = r.source;
  flags = if includes r.flags (b'g' ∷ []) then r.flags else r.flags ++ b'g' ∷ [];
  last_index = 0;
}

-- `positions.length > 0 ? positions.sort((a, b) => a - b) : null`
abbrev pub sorted_or_null : List ℕ → Option (List ℕ)
sorted_or_null [] = none
sorted_or_null (i ∷ l) = some (sort_numbers (i ∷ l))

module _ (e : Engine) where
  -- `while ((match = regex.exec(hex)) !== null) { …; if (match[0].length === 0) break; }`
  unfoldable pub scan_regex : ℕ → RegExp → Text → List ℕ → Option (List ℕ)
  unfolding exec mark
  scan_regex zero r hex positions = none
  scan_regex (suc fuel) r hex positions =
      let (m, r') = exec e r hex in
      elim m [
        | none ↦ some positions
        | some (k, n) ↦
            let rest = scan_regex fuel r' hex (mark k n positions) in
            if n == 0 then some (mark k n positions) else rest
      ]

  unfoldable pub regex_positions : Option RegExp → Text → List ℕ → Option (List ℕ)
  unfolding scan_regex
  regex_positions none hex positions = some positions
  regex_positions (some r) hex positions =
      let g = global_copy r in
      if e.accepts g.source g.flags then scan_regex (rounds hex) g hex positions else some positions

  -- The outer `Option` is `none` if a loop does not end, the inner one for `null`.
  unfoldable pub find_match_positions : Packet → Option Parsed → Option (Option (List ℕ))
  unfolding scan_text needle_of regex_positions remove_spaces sort_numbers includes
  find_match_positions p none = some none
  find_match_positions p (some f) = do
    let hex = needle_of p.hex_raw
    by_hex ← scan_text hex f.hex needle_of []
    by_regex ← regex_positions f.regex hex by_hex
    positions ← scan_text hex f.plain_text (λ w. w) by_regex
    some (sorted_or_null positions)
