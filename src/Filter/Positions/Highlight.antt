-- ===== src/Filter/Positions/Highlight.antt =====
-- `findMatchPositions` on the filters that `parseFilter` makes
-- (internal/web/static/modules/filter.js).
use serial_tcp_proxy.Prelude.{
  ℕ, ◌≡◌, ◌≢◌, refl, ap, ◌∙◌, inl, inr, true, false, Option, none, some, List, [], ◌∷◌, ◌++◌, Text,
  starts_with, drop, is_space, remove_spaces, to_lower, all_units, IsVisible, IsUnspaced,
  IsUnspaced-drop, Member, Option-cases, arith,
}
use serial_tcp_proxy.RegExp.{Engine}
use serial_tcp_proxy.Filter.{Packet, Parsed, no_conditions, When, Filled}
use serial_tcp_proxy.Filter.Parse.{parse_filter}
use serial_tcp_proxy.Filter.Parse.WellFormed.{IsWellFormed, parse_filter-IsWellFormed}
use serial_tcp_proxy.Filter.Positions.{find_match_positions, needle_of, sorted_or_null}
use serial_tcp_proxy.Filter.Positions.Loop.{TouchedFrom}
use serial_tcp_proxy.Filter.Positions.Spec.{
  IsSearchable, Sought, searched, find_match_positions_total,
}

When-Filled : (o : Option Text) → When o IsVisible → Filled o (λ h. needle_of h ≢ [])
unfolding needle_of
When-Filled none v = tt
When-Filled (some []) v = tt
When-Filled (some (c ∷ s)) v = v

IsWellFormed-IsSearchable : (e : Engine) (f : Parsed) → IsWellFormed e f → IsSearchable f
IsWellFormed-IsSearchable e f w = When-Filled f.hex w.hex

-- The highlighting of every text that a user can type ends, for every packet.
pub parse-find_total :
    (e : Engine) (p : Packet) (text : Text)
    → (r : Option (List ℕ)) × (find_match_positions e p (parse_filter e text) ≡ some r)
unfolding find_match_positions
parse-find_total e p text = elim (Option-cases (parse_filter e text)) [
  | inl n ↦ (none, rw n)
  | inr (f, q) ↦
      let (r, runs, _) =
        find_match_positions_total e p f
          (IsWellFormed-IsSearchable e f (parse_filter-IsWellFormed e text f q)) in
      (r, rw q runs)
]

remove_spaces-IsUnspaced : (s : Text) → IsUnspaced (remove_spaces s)
unfolding remove_spaces all_units
remove_spaces-IsUnspaced [] = refl
remove_spaces-IsUnspaced (c ∷ s) = ground (arith, remove_spaces-IsUnspaced s)

-- Text without white space has no beginning with white space in it.
not-starts_with_space :
    (a b w t : Text) (c : ℕ)
    → w ≡ a ++ c ∷ b
    → is_space c ≡ true
    → IsUnspaced t
    → starts_with w t ≡ false
unfolding all_units
not-starts_with_space [] b w [] c q s u = rw q refl
not-starts_with_space [] b w (d ∷ t) c q s u = rw q (ground arith)
not-starts_with_space (x ∷ a) b w [] c q s u = rw q refl
not-starts_with_space (x ∷ a) b w (d ∷ t) c q s u =
    rw q (ground (arith, not-starts_with_space a b (a ++ c ∷ b) t c refl s))

no-Member : (l : List ℕ) → ((j : ℕ) → Member j l → ⊥) → l ≡ []
no-Member [] h = refl
no-Member (x ∷ l) h = absurd (h x (ground arith))

Sought-some : (w : Text) (P : Text → Type 0) → Sought (some w) P → P w
Sought-some [] P h = absurd h
Sought-some (c ∷ w) P h = h

needle_of-IsUnspaced : (k : ℕ) (s : Text) → IsUnspaced (drop k (needle_of s))
unfolding needle_of
needle_of-IsUnspaced k s =
    IsUnspaced-drop k (remove_spaces (to_lower s)) (remove_spaces-IsUnspaced (to_lower s))

-- Plain words: a filter of two words or more marks no byte, in any packet, since the digits that
-- are searched have no white space.
pub plain_words_unmarked :
    (e : Engine) (p : Packet) (a b : Text) (c : ℕ)
    → is_space c ≡ true
    → find_match_positions e p (some (record no_conditions { plain_text = some (a ++ c ∷ b) }))
      ≡ some none
plain_words_unmarked e p a b c s =
    let f : Parsed = record no_conditions { plain_text = some (a ++ c ∷ b) } in
    let (l, (runs, _, members)) = searched e p f tt in
    let unmarked : l ≡ [] = no-Member l (λ j m. elim ((members refl j).0 m) [
      | inl n ↦ n
      | inr t ↦ untouched j (Sought-some (a ++ c ∷ b) _ t)
    ]) in
    runs ∙ ap (λ m. some (sorted_or_null m)) unmarked
  where
    untouched : (j : ℕ) → TouchedFrom (needle_of p.hex_raw) (a ++ c ∷ b) 0 j → ⊥
    untouched j (k, _, at, _, _) = ground (
      arith,
      not-starts_with_space a b (a ++ c ∷ b) (drop k (needle_of p.hex_raw)) c refl s
          (needle_of-IsUnspaced k p.hex_raw),
    )
