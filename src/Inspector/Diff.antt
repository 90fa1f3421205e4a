-- ===== src/Inspector/Diff.antt =====
-- `renderDiff` of internal/web/static/modules/inspector.js, and a comparison of two lists of bytes.
use mathlib.Core.Path.{ap₂}
use serial_tcp_proxy.Prelude.{
  ℕ, zero, suc, ◌+◌, max, ◌≡◌, ◌≢◌, inl, inr, refl, ap, ◌∙◌, Bool, Bool-cases, subst, false,
  text_eq_self, text_eq_sound, true, not, none, some, List, [], ◌∷◌, ◌++◌, Text, codes, text_eq,
  split, tail, length, get_elem?, if◌then◌else◌, arith,
}
use serial_tcp_proxy.Filter.{Packet}

-- `hex[i] || ''`
abbrev pub byte_at : List Text → ℕ → Text
byte_at bytes i = elim (get_elem? bytes i) [ none ↦ [] | some b ↦ b ]

-- `if (b) html += …`, as what is added.
unfoldable pub diff_span : Bool → Text → Text
diff_span is_diff [] = []
diff_span is_diff (c ∷ b) =
    codes "<span class=\"diff-byte "
    ++ ((if is_diff then codes "diff" else []) ++ (codes "\">" ++ ((c ∷ b) ++ codes "</span> ")))

-- `count` rounds of the loop from `i`: the two texts.
unfoldable pub diff_loop : ℕ → ℕ → List Text → List Text → Text × Text
unfolding diff_span
diff_loop zero i hex1 hex2 = ([], [])
diff_loop (suc count) i hex1 hex2 =
    let is_diff = not (text_eq (byte_at hex1 i) (byte_at hex2 i)) in
    let (html1, html2) = diff_loop count (i + 1) hex1 hex2 in
    (diff_span is_diff (byte_at hex1 i) ++ html1, diff_span is_diff (byte_at hex2 i) ++ html2)

unfoldable pub render_diff : Packet → Packet → Text × Text
unfolding diff_loop split
render_diff p1 p2 =
    let hex1 = split b' ' p1.hex_raw in
    let hex2 = split b' ' p2.hex_raw in diff_loop (max (length hex1) (length hex2)) 0 hex1 hex2

-- Every byte of the first list, marked if the second has another or none in its place.
abbrev pub compared : List Text → List Text → Text
compared [] others = []
compared (b ∷ bytes) [] = diff_span true b ++ compared bytes []
compared (b ∷ bytes) (c ∷ others) = diff_span (not (text_eq b c)) b ++ compared bytes others

byte_at-tail : (bytes : List Text) (i : ℕ) → byte_at bytes (i + 1) ≡ byte_at (tail bytes) i
byte_at-tail [] i = refl
byte_at-tail (b ∷ bytes) i = let next : i + 1 ≡ suc i = omega arith in ap (byte_at (b ∷ bytes)) next

diff_loop-tail :
    (count i : ℕ) (hex1 hex2 : List Text)
    → diff_loop count (i + 1) hex1 hex2 ≡ diff_loop count i (tail hex1) (tail hex2)
unfolding diff_loop
diff_loop-tail zero i hex1 hex2 = refl
diff_loop-tail (suc count) i hex1 hex2 =
    rw (byte_at-tail hex1 i, byte_at-tail hex2 i) (rw (diff_loop-tail count (i + 1) hex1 hex2) refl)

-- The first round, and the others on what is left of the lists.
diff_loop-first :
    (count : ℕ) (hex1 hex2 : List Text)
    → diff_loop (suc count) 0 hex1 hex2 ≡ (
      diff_span (not (text_eq (byte_at hex1 0) (byte_at hex2 0))) (byte_at hex1 0)
          ++ (diff_loop count 0 (tail hex1) (tail hex2)).0,
      diff_span (not (text_eq (byte_at hex1 0) (byte_at hex2 0))) (byte_at hex2 0)
          ++ (diff_loop count 0 (tail hex1) (tail hex2)).1,
    )
unfolding diff_loop
diff_loop-first count hex1 hex2 = rw (diff_loop-tail count 0 hex1 hex2, diff_loop) refl

missing_span : (b : Text) → diff_span (not (text_eq b [])) b ≡ diff_span true b
unfolding diff_span
missing_span [] = refl
missing_span (c ∷ b) = refl

span_missing : (b : Text) → diff_span (not (text_eq [] b)) b ≡ diff_span true b
unfolding diff_span
span_missing [] = refl
span_missing (c ∷ b) = refl

no_span : (is_diff : Bool) (s : Text) → diff_span is_diff [] ++ s ≡ s
unfolding diff_span
no_span is_diff s = refl

text_eq_sym : (s t : Text) → text_eq s t ≡ text_eq t s
text_eq_sym [] [] = refl
text_eq_sym [] (d ∷ t) = refl
text_eq_sym (c ∷ s) [] = refl
text_eq_sym (c ∷ s) (d ∷ t) = ground (arith, text_eq_sym s t)

diff_loop-compared :
    (count : ℕ) (hex1 hex2 : List Text)
    → count ≡ max (length hex1) (length hex2)
    → diff_loop count 0 hex1 hex2 ≡ (compared hex1 hex2, compared hex2 hex1)
unfolding diff_loop
diff_loop-compared zero [] [] q = refl
diff_loop-compared zero (b ∷ hex1) hex2 q = absurd (omega arith)
diff_loop-compared zero [] (c ∷ hex2) q = absurd (omega arith)
diff_loop-compared (suc count) [] [] q = absurd (omega arith)
diff_loop-compared (suc count) (b ∷ hex1) [] q =
    let rest = diff_loop-compared count hex1 [] (omega arith) in
    diff_loop-first count (b ∷ hex1) []
    ∙ ap₂ (λ s t. (s, t)) (ap₂ ◌++◌ (missing_span b) (ap (λ (r : Text × Text). r.0) rest))
        (no_span true _ ∙ ap (λ (r : Text × Text). r.1) rest)
diff_loop-compared (suc count) [] (c ∷ hex2) q =
    let rest = diff_loop-compared count [] hex2 (omega arith) in
    diff_loop-first count [] (c ∷ hex2)
    ∙ ap₂ (λ s t. (s, t)) (no_span true _ ∙ ap (λ (r : Text × Text). r.0) rest)
        (ap₂ ◌++◌ (span_missing c) (ap (λ (r : Text × Text). r.1) rest))
diff_loop-compared (suc count) (b ∷ hex1) (c ∷ hex2) q =
    let rest = diff_loop-compared count hex1 hex2 (omega arith) in
    diff_loop-first count (b ∷ hex1) (c ∷ hex2)
    ∙ ap₂ (λ s t. (s, t))
        (ap (◌++◌ (diff_span (not (text_eq b c)) b)) (ap (λ (r : Text × Text). r.0) rest))
        (ap₂ (λ d t. diff_span (not d) c ++ t) (text_eq_sym b c)
          (ap (λ (r : Text × Text). r.1) rest))

-- The markup of a byte that differs, and of one that does not.
abbrev pub marked_byte : Text → Text
marked_byte b = codes "<span class=\"diff-byte diff\">" ++ (b ++ codes "</span> ")

abbrev pub plain_byte : Text → Text
plain_byte b = codes "<span class=\"diff-byte \">" ++ (b ++ codes "</span> ")

-- A text for the bytes of the first list, in order, beside those of the second: a byte is plain if
-- the second list has the same in its place, and marked if it has another or none. A byte without
-- digits has no markup.
pub data Compared : List Text → List Text → Text → Type 0 where
  ended : (others : List Text) → Compared [] others []
  blank :
      (bytes others : List Text) (html : Text)
      → Compared bytes (tail others) html
      → Compared ([] ∷ bytes) others html
  same :
      (b : Text) (bytes others : List Text) (html : Text)
      → b ≢ []
      → Compared bytes others html
      → Compared (b ∷ bytes) (b ∷ others) (plain_byte b ++ html)
  other :
      (b c : Text) (bytes others : List Text) (html : Text)
      → b ≢ []
      → b ≢ c
      → Compared bytes others html
      → Compared (b ∷ bytes) (c ∷ others) (marked_byte b ++ html)
  missing :
      (b : Text) (bytes : List Text) (html : Text)
      → b ≢ []
      → Compared bytes [] html
      → Compared (b ∷ bytes) [] (marked_byte b ++ html)

text_eq-ne : (s t : Text) → text_eq s t ≡ false → s ≢ t
text_eq-ne s t f q = let yes = subst (λ x. text_eq s x ≡ true) q (text_eq_self s) in cc (yes, f)

compared-Compared : (bytes others : List Text) → Compared bytes others (compared bytes others)
unfolding diff_span
compared-Compared [] others = ended others
compared-Compared ([] ∷ bytes) [] = blank bytes [] _ (compared-Compared bytes [])
compared-Compared ([] ∷ bytes) (c ∷ others) =
    blank bytes (c ∷ others) _ (compared-Compared bytes others)
compared-Compared ((d ∷ b) ∷ bytes) [] = missing (d ∷ b) bytes _ (cc) (compared-Compared bytes [])
compared-Compared ((d ∷ b) ∷ bytes) (c ∷ others) = elim (Bool-cases (text_eq (d ∷ b) c)) [
  | inl t ↦
      let equal = text_eq_sound (d ∷ b) c t in
      rw t (
        subst
          (λ x.
            Compared ((d ∷ b) ∷ bytes) (x ∷ others) (plain_byte (d ∷ b) ++ compared bytes others))
          equal (same (d ∷ b) bytes others _ (cc) (compared-Compared bytes others)))
  | inr f ↦ rw f (
      other (d ∷ b) c bytes others _ (cc) (text_eq-ne (d ∷ b) c f) (compared-Compared bytes others))
]

-- Each side of the comparison of two packets has the bytes of its packet in order, those without
-- digits left out: with the class `diff` where the other packet has another byte or none in the
-- same place, and without it where the other packet has the same.
pub render_diff-Compared :
    (p1 p2 : Packet)
    → let hex1 = split b' ' p1.hex_raw in
      let hex2 = split b' ' p2.hex_raw in
      let (html1, html2) = render_diff p1 p2 in Compared hex1 hex2 html1 × Compared hex2 hex1 html2
unfolding render_diff
render_diff-Compared p1 p2 =
    let hex1 = split b' ' p1.hex_raw in
    let hex2 = split b' ' p2.hex_raw in
    rw (diff_loop-compared _ hex1 hex2 refl)
      (compared-Compared hex1 hex2, compared-Compared hex2 hex1)
