-- ===== src/Filter/Parse/WellFormed.antt =====
-- Well-formed filters, for `parseFilter` of internal/web/static/modules/filter.js.
use serial_tcp_proxy.Prelude.{
  ℕ, ◌≡◌, ◌≢◌, refl, subst, trim, inl, inr, true, Option, none, some, List, [], ◌∷◌, Text, All,
  All-append, IsUnspaced, IsVisible, IsUnspaced-IsVisible, IsUnspaced-drop, IsVisible-append,
  split_spaces-IsUnspaced, split_spaces, codes, to_lower, strip_prefix, drop, length, is_nil, join,
  Option-cases, Bool-cases, arith,
}
use serial_tcp_proxy.RegExp.{RegExp, Engine}
use serial_tcp_proxy.Filter.{Direction, LengthTest, Parsed, no_conditions, When}
use serial_tcp_proxy.Filter.Parse.{
  Token, dir, len, hex, ascii, word, is_line, match_direction, match_length, match_key, classify,
  accumulate, apply_token, parse_tokens, set_plain_text, match_regex, parse_regex, parse_filter,
}

-- The hex pattern is not blank, no text is empty, and a regular expression stands alone, unused and
-- accepted by the engine.
pub record IsWellFormed (e : Engine) (f : Parsed) : Type 0 where
  pub hex : When f.hex IsVisible
  pub ascii : When f.ascii (λ a. a ≢ [])
  pub plain_text : When f.plain_text (λ w. w ≢ [])
  pub regex : When f.regex (λ r.
      (r.last_index ≡ 0)
      × (e.accepts r.source r.flags ≡ true)
      × (f ≡ record no_conditions { regex = some r }))

abbrev TokenIsFilled : Token → Type 0
TokenIsFilled (hex h) = IsVisible h
TokenIsFilled (ascii a) = a ≢ []
TokenIsFilled (word w) = w ≢ []
TokenIsFilled _ = Unit

match_key_value :
    (key token value : Text)
    → match_key key token ≡ some value
    → (value ≢ []) × (value ≡ drop (length key) token)
unfolding match_key is_line
match_key_value key token value h = elim (Option-cases (strip_prefix key (to_lower token))) [
  | inl n ↦ absurd (ground arith)
  | inr (r, q) ↦ ground arith
]

-- A property of the token that is found, from the first expression that fits.
pub classify_cases :
    (P : Token → Type 0) (token : Text)
    → ((d : Direction) → match_direction token ≡ some d → P (dir d))
    → ((l : LengthTest) → match_length token ≡ some l → P (len l))
    → ((h : Text) → match_key (codes "hex:") token ≡ some h → P (hex h))
    → ((a : Text) → match_key (codes "ascii:") token ≡ some a → P (ascii a))
    → (match_direction token ≡ none
        → match_length token ≡ none
        → match_key (codes "hex:") token ≡ none
        → match_key (codes "ascii:") token ≡ none
        → P (word token))
    → P (classify token)
unfolding classify
classify_cases P token pd pl ph pa pw =
    go (match_direction token) (match_length token) (match_key (codes "hex:") token)
      (match_key (codes "ascii:") token) refl refl refl refl
  where
    go :
        (d : Option Direction) (l : Option LengthTest) (h a : Option Text)
        → match_direction token ≡ d
        → match_length token ≡ l
        → match_key (codes "hex:") token ≡ h
        → match_key (codes "ascii:") token ≡ a
        → P (classify token)
    go (some d) l h a qd ql qh qa = rw (qd, classify) (pd d qd)
    go none (some l) h a qd ql qh qa = rw (qd, classify) (rw ql (pl l ql))
    go none none (some h) a qd ql qh qa = rw (qd, classify) (rw ql (rw qh (ph h qh)))
    go none none none (some a) qd ql qh qa = rw (qd, classify) (rw ql (rw qh (rw qa (pa a qa))))
    go none none none none qd ql qh qa = rw (qd, classify) (rw ql (rw qh (rw qa (pw qd ql qh qa))))

IsVisible-drop : (n : ℕ) (v t : Text) → IsUnspaced t → v ≢ [] → v ≡ drop n t → IsVisible v
IsVisible-drop n [] t u v q = absurd (v refl)
IsVisible-drop n (c ∷ s) t u v q = IsUnspaced-IsVisible c s (rw q (IsUnspaced-drop n t u))

classify-IsFilled : (c : ℕ) (s : Text) → IsUnspaced (c ∷ s) → TokenIsFilled (classify (c ∷ s))
classify-IsFilled c s u =
    classify_cases TokenIsFilled (c ∷ s) (λ d q. tt) (λ l q. tt)
      (λ h q.
        let (v, e) = match_key_value (codes "hex:") (c ∷ s) h q in IsVisible-drop 4 h (c ∷ s) u v e)
      (λ a q. (match_key_value (codes "ascii:") (c ∷ s) a q).0) (λ _ _ _ _ e. cc)

-- The state of the loop.
record Progress (f : Parsed) (parts : List Text) : Type 0 where
  hex : When f.hex IsVisible
  ascii : When f.ascii (λ a. a ≢ [])
  regex : f.regex ≡ none
  plain_text : f.plain_text ≡ none
  words : All (λ w. w ≢ []) parts

accumulate-IsVisible :
    (o : Option Text) (w : Text) → When o IsVisible → IsVisible w → When (accumulate o w) IsVisible
accumulate-IsVisible none w v x = x
accumulate-IsVisible (some []) w v x = x
accumulate-IsVisible (some (c ∷ s)) w v x = IsVisible-append (c ∷ s) (b' ' ∷ w) v

accumulate-ne :
    (o : Option Text) (w : Text)
    → When o (λ a. a ≢ [])
    → w ≢ []
    → When (accumulate o w) (λ a. a ≢ [])
accumulate-ne none w v x = x
accumulate-ne (some []) w v x = x
accumulate-ne (some (c ∷ s)) w v x = λ q. cc

apply_token-Progress :
    (t : Token) (f : Parsed) (parts : List Text)
    → TokenIsFilled t
    → Progress f parts
    → let (f', parts') = apply_token t f parts in Progress f' parts'
unfolding apply_token
apply_token-Progress (dir d) f parts t p = record {
  hex = p.hex;
  ascii = p.ascii;
  regex = p.regex;
  plain_text = p.plain_text;
  words = p.words;
}
apply_token-Progress (len l) f parts t p = record {
  hex = p.hex;
  ascii = p.ascii;
  regex = p.regex;
  plain_text = p.plain_text;
  words = p.words;
}
apply_token-Progress (hex h) f parts t p = record {
  hex = accumulate-IsVisible f.hex h p.hex t;
  ascii = p.ascii;
  regex = p.regex;
  plain_text = p.plain_text;
  words = p.words;
}
apply_token-Progress (ascii a) f parts t p = record {
  hex = p.hex;
  ascii = accumulate-ne f.ascii a p.ascii t;
  regex = p.regex;
  plain_text = p.plain_text;
  words = p.words;
}
apply_token-Progress (word w) f parts t p = record {
  hex = p.hex;
  ascii = p.ascii;
  regex = p.regex;
  plain_text = p.plain_text;
  words = All-append (λ w. w ≢ []) parts (w ∷ []) p.words (t, tt);
}

parse_tokens-Progress :
    (ts : List Text) (f : Parsed) (parts : List Text)
    → All IsUnspaced ts
    → Progress f parts
    → let (f', parts') = parse_tokens ts f parts in Progress f' parts'
unfolding parse_tokens
parse_tokens-Progress [] f parts u p = p
parse_tokens-Progress ([] ∷ ts) f parts u p = parse_tokens-Progress ts f parts u.1 p
parse_tokens-Progress ((c ∷ s) ∷ ts) f parts u p =
    let t = classify (c ∷ s) in
    parse_tokens-Progress ts (apply_token t f parts).0 (apply_token t f parts).1 u.1
      (apply_token-Progress t f parts (classify-IsFilled c s u.0) p)

join-ne-nil : (w : Text) (ws : List Text) → w ≢ [] → to_lower (join b' ' (w ∷ ws)) ≢ []
unfolding join
join-ne-nil [] ws h = absurd (h refl)
join-ne-nil (c ∷ w) [] h = λ q. cc
join-ne-nil (c ∷ w) (v ∷ ws) h = λ q. cc

When-none {ℓ} : {A : Type ℓ} (o : Option A) (P : A → Type 0) → o ≡ none → When o P
When-none none P q = tt
When-none (some a) P q = absurd (cc)

set_plain_text-IsWellFormed :
    (e : Engine) (f : Parsed) (parts : List Text)
    → Progress f parts
    → IsWellFormed e (set_plain_text f parts)
unfolding set_plain_text
set_plain_text-IsWellFormed e f [] p = record {
  hex = p.hex;
  ascii = p.ascii;
  plain_text = When-none f.plain_text _ p.plain_text;
  regex = When-none f.regex _ p.regex;
}
set_plain_text-IsWellFormed e f (w ∷ ws) p = record {
  hex = p.hex;
  ascii = p.ascii;
  plain_text = join-ne-nil w ws p.words.0;
  regex = When-none f.regex _ p.regex;
}

parse_regex_sound :
    (e : Engine) (text : Text) (r : RegExp)
    → parse_regex e text ≡ some r
    → (r.last_index ≡ 0) × (e.accepts r.source r.flags ≡ true)
unfolding parse_regex
parse_regex_sound e text r h = elim (Option-cases (match_regex text)) [
  | inl n ↦ absurd (ground arith)
  | inr ((body, flags), q) ↦ ground arith
]

-- Every filter that `parseFilter` returns is well formed: its hex pattern has more than white
-- space, none of its texts is empty, and a regular expression stands alone, has its `lastIndex`
-- at 0 and is one that the engine accepts.
pub parse_filter-IsWellFormed :
    (e : Engine) (text : Text) (f : Parsed) → parse_filter e text ≡ some f → IsWellFormed e f
unfolding parse_filter
parse_filter-IsWellFormed e text f h = elim (Bool-cases (is_nil (trim text))) [
  | inl blank ↦ absurd (ground arith)
  | inr filled ↦ elim (Option-cases (parse_regex e text)) [
    | inl q ↦ subst (IsWellFormed e) (ground arith) by_tokens
    | inr (r, q) ↦ subst (IsWellFormed e) (ground arith) (by_regex r q)
  ]
]
  where
    by_tokens :
        let (g, parts) = parse_tokens (split_spaces text) no_conditions [] in
        IsWellFormed e (set_plain_text g parts)
    by_tokens =
        let (g, parts) = parse_tokens (split_spaces text) no_conditions [] in
        set_plain_text-IsWellFormed e g parts (
          parse_tokens-Progress (split_spaces text) no_conditions [] (split_spaces-IsUnspaced text)
            (record { hex = tt; ascii = tt; regex = refl; plain_text = refl; words = tt }))

    by_regex :
        (r : RegExp)
        → parse_regex e text ≡ some r
        → IsWellFormed e (record no_conditions { regex = some r })
    by_regex r q =
        let (z, ok) = parse_regex_sound e text r q in
        record { hex = tt; ascii = tt; plain_text = tt; regex = (z, ok, refl) }
