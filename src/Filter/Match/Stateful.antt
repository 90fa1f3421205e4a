-- ===== src/Filter/Match/Stateful.antt =====
-- A regular expression with flag `g` or `y` in `matchesFilter` of
-- internal/web/static/modules/filter.js.
use serial_tcp_proxy.Prelude.{ℕ, ◌+◌, ◌≡◌, refl, true, false, none, some, arith}
use serial_tcp_proxy.RegExp.{RegExp, Engine, is_stateful, test, exec-some, exec-none}
use serial_tcp_proxy.Filter.{Packet, all, Parsed, no_conditions}
use serial_tcp_proxy.Filter.Match.{
  normalized_hex, test_regex, matches_parsed, fails_early, matches_filter,
}

-- A filter that is one regular expression, as `parseFilter` makes it.
abbrev pub regex_only : RegExp → Parsed
regex_only r = record no_conditions { regex = some r }

-- A filter that is one unused regular expression with flag `g` or `y`: a packet in which the
-- engine finds one match, and none behind it, is accepted and, when the same filter is asked
-- about it again, rejected, since the second search starts behind the first match.
pub stateful_forgets :
    (e : Engine) (p : Packet) (r : RegExp) (k n : ℕ)
    → is_stateful r ≡ true
    → r.last_index ≡ 0
    → e.find r.source r.flags (normalized_hex p) 0 ≡ some (k, n)
    → e.find r.source r.flags (normalized_hex p) (k + n) ≡ none
    → let (first, parsed) = matches_filter e p all (some (regex_only r)) in
      (first ≡ true) × ((matches_filter e p all parsed).0 ≡ false)
unfolding matches_filter matches_parsed fails_early test_regex test is_stateful
stateful_forgets e p r k n s z one two =
    let t = normalized_hex p in
    let (_, fits) = e.find_bounds r.source r.flags t 0 k n one in
    let first = exec-some e r t k n s (omega arith) (rw z one) in
    let second = exec-none e (record r { last_index = k + n }) t s two in
    rw first (rw second (refl, refl))
