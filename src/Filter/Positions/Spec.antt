-- ===== src/Filter/Positions/Spec.antt =====
-- `findMatchPositions` of internal/web/static/modules/filter.js as a whole.
use serial_tcp_proxy.Prelude.{
  ℕ, zero, suc, ◌+◌, ◌≤◌, ◌<◌, ◌≡◌, ap, sym, ◌∙◌, ◌≢◌, ◌↔◌, ◌⊎◌, refl, inl, inr, true, Option, none,
  some, List, [], ◌∷◌, ◌++◌, Text, includes, includes_iff, length, Member, member-sort_numbers,
  Ascends, sort_numbers-Ascends, Distinct, Option-cases, Bool-cases, if◌then◌else◌, ◌==◌, arith,
}
use serial_tcp_proxy.RegExp.{RegExp, Engine, is_stateful, exec, exec-some, exec-none}
use serial_tcp_proxy.Filter.{Packet, Parsed, Filled}
use serial_tcp_proxy.Filter.Positions.{
  scan_text, rounds, needle_of, mark, scan_regex, regex_positions, global_copy, sorted_or_null,
  find_match_positions,
}
use serial_tcp_proxy.Filter.Positions.Loop.{TouchedFrom, scan_total, mark-Distinct}

-- There is a search text, it is not empty, and the property holds of it.
abbrev pub Sought : Option Text → (Text → Type 0) → Type 0
Sought none P = ⊥
Sought (some []) P = ⊥
Sought (some (c ∷ s)) P = P (c ∷ s)

-- The hex pattern has something besides white space.
abbrev pub IsSearchable : Parsed → Type 0
IsSearchable f = Filled f.hex (λ h. needle_of h ≢ [])

abbrev pub Listed : ℕ → Option (List ℕ) → Type 0
Listed j none = ⊥
Listed j (some l) = Member j l

abbrev pub AscendsIfAny : Option (List ℕ) → Type 0
AscendsIfAny none = Unit
AscendsIfAny (some l) = Ascends l

scan_text_total :
    (hex : Text) (o : Option Text) (prepare : Text → Text) (l : List ℕ)
    → Filled o (λ s. prepare s ≢ [])
    → (r : List ℕ) × (scan_text hex o prepare l ≡ some r)
      × ((j : ℕ) → Member j r ↔ (Member j l ⊎ Sought o (λ s. TouchedFrom hex (prepare s) 0 j)))
      × (Distinct l → Distinct r)
unfolding scan_text
scan_text_total hex none prepare l g =
    (l, refl, λ j. (inl, λ h. elim h [ inl m ↦ m | inr n ↦ absurd n ]), λ d. d)
scan_text_total hex (some []) prepare l g =
    (l, refl, λ j. (inl, λ h. elim h [ inl m ↦ m | inr n ↦ absurd n ]), λ d. d)
scan_text_total hex (some (c ∷ s)) prepare l g =
    let (r, runs, c) =
      scan_total (rounds hex) hex (prepare (c ∷ s)) 0 l g (omega arith) (omega arith) in
    (r, runs, c.0, c.1)

module _ (e : Engine) where
  -- A round of the loop, by what `exec` returned.
  scan_regex_round :
      (fuel : ℕ) (r r' : RegExp) (hex : Text) (l : List ℕ) (m : Option (ℕ × ℕ))
      → exec e r hex ≡ (m, r')
      → scan_regex e (suc fuel) r hex l ≡ (elim m [
        | none ↦ some l
        | some (k, n) ↦
            let rest = scan_regex e fuel r' hex (mark k n l) in
            if n == 0 then some (mark k n l) else rest
      ])
  unfolding scan_regex
  scan_regex_round fuel r r' hex l m q =
      ap
        (λ (x : Option (ℕ × ℕ) × RegExp).
          let out : Option (List ℕ) = elim x.0 [
            | none ↦ some l
            | some (k, n) ↦
                let rest = scan_regex e fuel x.1 hex (mark k n l) in
                if n == 0 then some (mark k n l) else rest
          ] in
          out)
        q

  scan_regex_total :
      (fuel : ℕ) (r : RegExp) (hex : Text) (l : List ℕ)
      → is_stateful r ≡ true
      → r.last_index ≤ length hex
      → length hex < fuel + r.last_index
      → (m : List ℕ) × (scan_regex e fuel r hex l ≡ some m) × (Distinct l → Distinct m)
  unfolding is_stateful
  scan_regex_total zero r hex l s le f = absurd (omega arith)
  scan_regex_total (suc fuel) r hex l s le f =
      elim (Option-cases (e.find r.source r.flags hex r.last_index)) [
        | inl q ↦ (l, scan_regex_round fuel r _ hex l none (exec-none e r hex s q), λ d. d)
        | inr ((k, n), q) ↦
            let (from, fits) = e.find_bounds r.source r.flags hex r.last_index k n q in
            elim (Bool-cases (n == 0)) [
              | inl done ↦ (
                mark k n l,
                rw (scan_regex_round fuel r _ hex l _ (exec-some e r hex k n s le q), done),
                mark-Distinct k n l,
              )
              | inr more ↦
                  let (m, runs, d) =
                    scan_regex_total fuel (record r { last_index = k + n }) hex (mark k n l) s fits
                      (ground arith) in
                  (
                    m,
                    rw (scan_regex_round fuel r _ hex l _ (exec-some e r hex k n s le q), more)
                        runs,
                    λ x. d (mark-Distinct k n l x),
                  )
            ]
      ]

  global_copy-is_stateful : (r : RegExp) → is_stateful (global_copy r) ≡ true
  unfolding is_stateful
  global_copy-is_stateful r = elim (Bool-cases (includes r.flags (b'g' ∷ []))) [
    | inl has ↦ rw (has, has)
    | inr lacks ↦
        rw (lacks, (includes_iff (r.flags ++ b'g' ∷ []) (b'g' ∷ [])).1 (r.flags, [], refl))
  ]

  regex_positions_total :
      (o : Option RegExp) (hex : Text) (l : List ℕ)
      → (m : List ℕ) × (regex_positions e o hex l ≡ some m) × (Distinct l → Distinct m)
  unfolding regex_positions
  regex_positions_total none hex l = (l, refl, λ d. d)
  regex_positions_total (some r) hex l =
      let g = global_copy r in
      let (m, runs, d) =
        scan_regex_total (rounds hex) g hex l (global_copy-is_stateful r) (omega arith)
          (omega arith) in
      elim (Bool-cases (e.accepts g.source g.flags)) [
        | inl ok ↦ (m, rw ok runs, d)
        | inr throws ↦ (l, rw throws, λ d'. d')
      ]

no_regex :
    (e : Engine) (o : Option RegExp) (hex : Text) (a b : List ℕ)
    → o ≡ none
    → regex_positions e o hex a ≡ some b
    → a ≡ b
unfolding regex_positions
no_regex e none hex a b q runs = ground arith
no_regex e (some r) hex a b q runs = absurd (ground arith)

-- Two searches, the second over the list that the first leaves of the empty one.
union_iff :
    {H S : Type 0} (j : ℕ) (a b c : List ℕ)
    → a ≡ b
    → (Member j a ↔ (Member j [] ⊎ H))
    → (Member j c ↔ (Member j b ⊎ S))
    → Member j c ↔ (H ⊎ S)
union_iff {H} {S} j a b c q first second = (forth, back)
  where
    old : Member j b → H ⊎ S
    old m = elim (first.0 (rw q m)) [ inl n ↦ absurd (cc) | inr h ↦ inl h ]

    forth : Member j c → H ⊎ S
    forth m = elim (second.0 m) [ inl n ↦ old n | inr s ↦ inr s ]

    back : H ⊎ S → Member j c
    back (inl h) = second.1 (inl (rw q at (first.1 (inr h))))
    back (inr s) = second.1 (inr s)

-- The lists that the three searches leave, one behind the other.
abbrev pub Searched : Engine → Packet → Parsed → List ℕ → Type 0
Searched e p f l =
    (find_match_positions e p (some f) ≡ some (sorted_or_null l))
    × Distinct l
    × (f.regex ≡ none
        → (j : ℕ)
        → Member j l ↔ (
            Sought f.hex (λ h. TouchedFrom (needle_of p.hex_raw) (needle_of h) 0 j)
            ⊎ Sought f.plain_text (λ w. TouchedFrom (needle_of p.hex_raw) w 0 j)))

pub searched :
    (e : Engine) (p : Packet) (f : Parsed) → IsSearchable f → (l : List ℕ) × Searched e p f l
unfolding find_match_positions
searched e p f s =
    let hex = needle_of p.hex_raw in
    let (a, runs_a, in_a, distinct_a) = scan_text_total hex f.hex needle_of [] s in
    let (b, runs_b, distinct_b) = regex_positions_total e f.regex hex a in
    let (c, runs_c, in_c, distinct_c) =
      scan_text_total hex f.plain_text (λ w. w) b (plain_given f.plain_text) in
    (
      c,
      (
        rw (runs_a, runs_b, runs_c),
        distinct_c (distinct_b (distinct_a tt)),
        λ q j. union_iff j a b c (no_regex e f.regex hex a b q runs_b) (in_a j) (in_c j),
      ),
    )
  where
    plain_given : (o : Option Text) → Filled o (λ w. w ≢ [])
    plain_given none = tt
    plain_given (some []) = tt
    plain_given (some (c ∷ w)) = λ q. cc

AscendsIfAny-sorted : (l : List ℕ) → Distinct l → AscendsIfAny (sorted_or_null l)
AscendsIfAny-sorted [] d = tt
AscendsIfAny-sorted (i ∷ l) d = sort_numbers-Ascends (i ∷ l) d

Listed-iff : (j : ℕ) (l : List ℕ) → Listed j (sorted_or_null l) ↔ Member j l
Listed-iff j [] = (λ n. absurd n, λ n. absurd (cc))
Listed-iff j (i ∷ l) = let q = member-sort_numbers j (i ∷ l) in (λ m. sym q ∙ m, λ m. q ∙ m)

-- `findMatchPositions` returns for every packet and every filter whose hex pattern is not blank,
-- with any regular expression; the positions ascend, so none is listed twice.
pub find_match_positions_total :
    (e : Engine) (p : Packet) (f : Parsed)
    → IsSearchable f
    → (r : Option (List ℕ)) × (find_match_positions e p (some f) ≡ some r) × AscendsIfAny r
find_match_positions_total e p f s =
    let (l, (runs, distinct, _)) = searched e p f s in
    (sorted_or_null l, runs, AscendsIfAny-sorted l distinct)

-- Without a regular expression, and with a hex pattern that is not blank, `findMatchPositions`
-- lists a byte exactly if an occurrence of the hex pattern or of the plain text in the packet's
-- hex digits, white space removed, touches it.
pub find_match_positions_iff :
    (e : Engine) (p : Packet) (f : Parsed)
    → IsSearchable f
    → f.regex ≡ none
    → (r : Option (List ℕ)) × (find_match_positions e p (some f) ≡ some r)
      × ((j : ℕ)
          → Listed j r ↔ (
              Sought f.hex (λ h. TouchedFrom (needle_of p.hex_raw) (needle_of h) 0 j)
              ⊎ Sought f.plain_text (λ w. TouchedFrom (needle_of p.hex_raw) w 0 j)))
find_match_positions_iff e p f s q =
    let (l, (runs, _, members)) = searched e p f s in
    (
      sorted_or_null l,
      runs,
      λ j. (
        λ h. (members q j).0 ((Listed-iff j l).0 h),
        λ h. (Listed-iff j l).1 ((members q j).1 h),
      ),
    )
