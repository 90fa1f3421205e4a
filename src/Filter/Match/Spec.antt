-- ===== src/Filter/Match/Spec.antt =====
-- What a filter asks of a packet, as a proposition for each condition, next to `matchesFilter` of
-- internal/web/static/modules/filter.js.
use serial_tcp_proxy.Prelude.{
  ℕ, ◌≤◌, ◌<◌, ◌≡◌, refl, ap, ◌↔◌, ◌⊎◌, inl, inr, Bool, true, false, not, ◌||◌, Option, none, some,
  [], ◌∷◌, Text, codes, to_lower, remove_spaces, arith, Occurs, includes, includes_iff, is_some,
  Bool-cases,
}
use serial_tcp_proxy.RegExp.{RegExp, Engine, is_stateful, test}
use serial_tcp_proxy.RegExp
use serial_tcp_proxy.Filter.{
  Packet, Direction, up, down, DirectionFilter, all, only, Comparison, eq, gt, lt, ge, le,
  LengthTest, compare_to, range, Parsed, When, Filled,
}
use serial_tcp_proxy.Filter.Match.{
  Number, nan, natural, negative, parse_int, length_fails, direction_fails, button_fails,
  normalized_hex, hex_fails, ascii_fails, plain_text_fails, set_and, filled_and, fails_early,
  test_regex, matches_parsed, matches_filter,
}

abbrev pub Heads : Direction → Packet → Type 0
Heads up p = Occurs (codes "UP ->") p.direction
Heads down p = Occurs (codes "-> UP") p.direction

abbrev pub Compares : Comparison → ℕ → ℕ → Type 0
Compares eq n value = n ≡ value
Compares gt n value = value < n
Compares lt n value = n < value
Compares ge n value = value ≤ n
Compares le n value = n ≤ value

-- A length that is no number fails `len:N` alone; one below 0 is below every bound.
abbrev pub LengthHolds : LengthTest → Number → Type 0
LengthHolds (compare_to op value) (natural n) = Compares op n value
LengthHolds (range lo hi) (natural n) = (lo ≤ n) × (n ≤ hi)
LengthHolds (compare_to eq value) nan = ⊥
LengthHolds (compare_to eq value) (negative n) = ⊥
LengthHolds (compare_to gt value) (negative n) = ⊥
LengthHolds (compare_to ge value) (negative n) = ⊥
LengthHolds (range lo hi) (negative n) = ⊥
LengthHolds _ _ = Unit

abbrev pub ButtonHolds : DirectionFilter → Packet → Type 0
ButtonHolds all p = Unit
ButtonHolds (only d) p = Heads d p

abbrev pub HexHolds : Packet → Text → Type 0
HexHolds p h = Occurs (remove_spaces (to_lower h)) (normalized_hex p)

abbrev pub AsciiHolds : Packet → Text → Type 0
AsciiHolds p a = Occurs (to_lower a) (to_lower p.ascii)

abbrev pub PlainHolds : Packet → Text → Type 0
PlainHolds p words = Occurs words (to_lower p.hex_raw) ⊎ Occurs words (to_lower p.ascii)

abbrev pub RegexHolds : Engine → Packet → RegExp → Type 0
RegexHolds e p r = is_some (e.find r.source r.flags (normalized_hex p) 0) ≡ true

-- All conditions of a filter, in the order in which the code tests them.
abbrev pub Satisfies : Engine → Packet → Parsed → Type 0
Satisfies e p f =
    When f.direction (λ d. Heads d p)
    × When f.length (λ l. LengthHolds l (parse_int p.length))
    × Filled f.hex (HexHolds p)
    × Filled f.ascii (AsciiHolds p)
    × When f.regex (RegexHolds e p)
    × Filled f.plain_text (PlainHolds p)

-- The regular expression, if there is one, keeps no `lastIndex`.
abbrev pub IsStateless : Parsed → Type 0
IsStateless f = When f.regex (λ r. is_stateful r ≡ false)

direction_iff : (d : Direction) (p : Packet) → (direction_fails d p ≡ false) ↔ Heads d p
unfolding direction_fails
direction_iff up p =
    let i = includes_iff p.direction (codes "UP ->") in
    (λ h. i.0 (ground arith), λ h. ground (arith, i.1 h))
direction_iff down p =
    let i = includes_iff p.direction (codes "-> UP") in
    (λ h. i.0 (ground arith), λ h. ground (arith, i.1 h))

button_iff : (b : DirectionFilter) (p : Packet) → (button_fails b p ≡ false) ↔ ButtonHolds b p
button_iff all p = (λ h. tt, λ h. refl)
button_iff (only d) p = direction_iff d p

length_iff : (l : LengthTest) (n : Number) → (length_fails l n ≡ false) ↔ LengthHolds l n
unfolding length_fails
length_iff (compare_to eq value) (natural n) = ground arith
length_iff (compare_to gt value) (natural n) = ground arith
length_iff (compare_to lt value) (natural n) = ground arith
length_iff (compare_to ge value) (natural n) = ground arith
length_iff (compare_to le value) (natural n) = ground arith
length_iff (range lo hi) (natural n) = ground arith
length_iff (compare_to eq value) nan = ground arith
length_iff (compare_to eq value) (negative n) = ground arith
length_iff (compare_to gt value) (negative n) = ground arith
length_iff (compare_to ge value) (negative n) = ground arith
length_iff (range lo hi) (negative n) = ground arith
length_iff (compare_to gt value) nan = ground arith
length_iff (compare_to lt value) nan = ground arith
length_iff (compare_to ge value) nan = ground arith
length_iff (compare_to le value) nan = ground arith
length_iff (range lo hi) nan = ground arith
length_iff (compare_to lt value) (negative n) = ground arith
length_iff (compare_to le value) (negative n) = ground arith

hex_iff : (p : Packet) (h : Text) → (hex_fails p h ≡ false) ↔ HexHolds p h
unfolding hex_fails
hex_iff p h =
    let i = includes_iff (normalized_hex p) (remove_spaces (to_lower h)) in
    (λ q. i.0 (ground arith), λ q. ground (arith, i.1 q))

ascii_iff : (p : Packet) (a : Text) → (ascii_fails p a ≡ false) ↔ AsciiHolds p a
unfolding ascii_fails
ascii_iff p a =
    let i = includes_iff (to_lower p.ascii) (to_lower a) in
    (λ q. i.0 (ground arith), λ q. ground (arith, i.1 q))

plain_iff : (p : Packet) (w : Text) → (plain_text_fails p w ≡ false) ↔ PlainHolds p w
unfolding plain_text_fails
plain_iff p w = (forth, back)
  where
    i : (includes (to_lower p.hex_raw) w ≡ true) ↔ Occurs w (to_lower p.hex_raw)
    i = includes_iff (to_lower p.hex_raw) w

    j : (includes (to_lower p.ascii) w ≡ true) ↔ Occurs w (to_lower p.ascii)
    j = includes_iff (to_lower p.ascii) w

    forth : plain_text_fails p w ≡ false → PlainHolds p w
    forth h = elim (Bool-cases (includes (to_lower p.hex_raw) w)) [
      | inl t ↦ inl (i.0 t)
      | inr f ↦ inr (j.0 (ground arith))
    ]

    back : PlainHolds p w → plain_text_fails p w ≡ false
    back (inl o) = ground (arith, i.1 o)
    back (inr o) = ground (arith, j.1 o)

set_iff {ℓ} :
    {A : Type ℓ} (o : Option A) (fails : A → Bool) (P : A → Type 0)
    → ((a : A) → (fails a ≡ false) ↔ P a)
    → (set_and o fails ≡ false) ↔ When o P
set_iff none fails P i = (λ h. tt, λ h. refl)
set_iff (some a) fails P i = i a

filled_iff :
    (o : Option Text) (fails : Text → Bool) (P : Text → Type 0)
    → ((a : Text) → (fails a ≡ false) ↔ P a)
    → (filled_and o fails ≡ false) ↔ Filled o P
filled_iff none fails P i = (λ h. tt, λ h. refl)
filled_iff (some []) fails P i = (λ h. tt, λ h. refl)
filled_iff (some (c ∷ s)) fails P i = i (c ∷ s)

or_false : (a b : Bool) → (a || b) ≡ false → (a ≡ false) × (b ≡ false)
or_false a b h = ground arith

module _ (e : Engine) (p : Packet) where
  -- Without memory, the test is one search from the start, and nothing is written.
  test_regex_stateless :
      (f : Parsed) (o : Option RegExp)
      → f.regex ≡ o
      → When o (λ r. is_stateful r ≡ false)
      → (((test_regex e p f).0 ≡ true) ↔ When o (RegexHolds e p)) × ((test_regex e p f).1 ≡ f)
  unfolding test_regex test RegExp.exec
  test_regex_stateless f none q s = rw q ((λ h. tt, λ h. refl), refl)
  test_regex_stateless f (some r) q s = rw (q, s) ((λ h. h, λ h. h), refl)

  early_iff :
      (f : Parsed)
      → (fails_early p f ≡ false) ↔ (
          When f.direction (λ d. Heads d p)
          × When f.length (λ l. LengthHolds l (parse_int p.length))
          × Filled f.hex (HexHolds p)
          × Filled f.ascii (AsciiHolds p))
  unfolding fails_early
  early_iff f =
      let d = set_iff f.direction _ (λ d. Heads d p) (λ d. direction_iff d p) in
      let l =
        set_iff f.length _ (λ l. LengthHolds l (parse_int p.length))
          (λ l. length_iff l (parse_int p.length)) in
      let h = filled_iff f.hex _ (HexHolds p) (hex_iff p) in
      let a = filled_iff f.ascii _ (AsciiHolds p) (ascii_iff p) in
      (
        λ q.
            let (x, q1) = or_false _ _ q in
            let (y, q2) = or_false _ _ q1 in
            let (z, w) = or_false _ _ q2 in (d.0 x, l.0 y, h.0 z, a.0 w),
        λ (x, y, z, w). rw (d.1 x, l.1 y, h.1 z, a.1 w),
      )

  parsed_iff : (f : Parsed) → IsStateless f → ((matches_parsed e p f).0 ≡ true) ↔ Satisfies e p f
  unfolding matches_parsed
  parsed_iff f s =
      let (r, keep) = test_regex_stateless f f.regex refl s in
      let early = early_iff f in
      let plain = filled_iff f.plain_text _ (PlainHolds p) (plain_iff p) in
      (
        λ q.
            let passes : fails_early p f ≡ false = ground arith in
            let hit : (test_regex e p f).0 ≡ true = ground arith in
            let (x, y, z, w) = early.0 passes in
            let rest : filled_and f.plain_text (plain_text_fails p) ≡ false = ground arith in
            (x, y, z, w, r.0 hit, plain.0 rest),
        λ (x, y, z, w, m, t). rw (early.1 (x, y, z, w), r.1 m) (ap not (plain.1 t)),
      )

  parsed_keeps : (f : Parsed) → IsStateless f → (matches_parsed e p f).1 ≡ f
  unfolding matches_parsed
  parsed_keeps f s = ground (arith, (test_regex_stateless f f.regex refl s).1)

-- `matchesFilter` accepts a packet exactly if the direction button and, where a filter is set,
-- all of its conditions hold, for a filter whose regular expression has neither flag `g` nor `y`;
-- and it then leaves the filter as it was.
pub matches_filter_iff :
    (e : Engine) (p : Packet) (b : DirectionFilter) (parsed : Option Parsed)
    → When parsed IsStateless
    → (((matches_filter e p b parsed).0 ≡ true) ↔ (ButtonHolds b p × When parsed (Satisfies e p)))
      × ((matches_filter e p b parsed).1 ≡ parsed)
unfolding matches_filter
matches_filter_iff e p b none s =
    let i = button_iff b p in ((λ h. (i.0 (ground arith), tt), λ h. rw (i.1 h.0)), ground arith)
matches_filter_iff e p b (some f) s =
    let i = button_iff b p in
    let j = parsed_iff e p f s in
    (
      (λ h. (i.0 (ground arith), j.0 (ground arith)), λ h. rw (i.1 h.0) (j.1 h.1)),
      ground (arith, parsed_keeps e p f s),
    )
