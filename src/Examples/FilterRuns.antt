-- ===== src/Examples/FilterRuns.antt =====
-- Filters on concrete packets.
use serial_tcp_proxy.Prelude.{
  ℕ, ◌≡◌, ◌↔◌, ◌⊎◌, refl, true, false, Option, none, some, List, [], ◌∷◌, codes, remove_spaces,
  includes, index_of, trim, split_spaces, is_space, drop_while, filterb, not, text_eq,
}
use serial_tcp_proxy.RegExp.{RegExp, is_stateful}
use serial_tcp_proxy.Filter.{Packet, Parsed, all, only, up, ge, compare_to, no_conditions}
use serial_tcp_proxy.Filter.Parse.{
  parse_filter, match_regex, parse_tokens, classify, match_direction, match_length, match_key,
  match_numbers, match_comparison, apply_token, set_plain_text,
}
use serial_tcp_proxy.Filter.Parse.WellFormed.{IsWellFormed, parse_filter-IsWellFormed}
use serial_tcp_proxy.Filter.Match.{matches_filter, normalized_hex}
use serial_tcp_proxy.Filter.Match.Spec.{ButtonHolds, Satisfies, matches_filter_iff}
use serial_tcp_proxy.Filter.Match.Stateful.{regex_only, stateful_forgets}
use serial_tcp_proxy.Filter.Positions.{find_match_positions, needle_of}
use serial_tcp_proxy.Filter.Positions.Loop.{TouchedFrom}
use serial_tcp_proxy.Filter.Positions.Spec.{
  AscendsIfAny, Listed, find_match_positions_total, find_match_positions_iff,
}
use serial_tcp_proxy.Filter.Positions.Highlight.{parse-find_total, plain_words_unmarked}
use serial_tcp_proxy.Filter.Presets.{Preset, load_presets, add_preset, remove_preset, remove-add}
use serial_tcp_proxy.Examples.CountedJson.{counted_json, empty_storage}
use serial_tcp_proxy.Examples.LiteralEngine.{literal_engine}

abbrev greeting : Packet
greeting = record {
  time = codes "23:48:33.876";
  direction = codes "UP -> Client";
  length = codes "3";
  hex_raw = codes "f7 48 0e";
  hex_formatted = [];
  ascii = codes ".H.";
}

-- `dir:up len:>=3 hex:F748`
abbrev upward : Parsed
upward = record no_conditions {
  direction = some up;
  length = some (compare_to ge 3);
  hex = some (codes "F748");
}

parsed_upward : parse_filter literal_engine (codes "DIR:up  len:>=3 hex:F748 ") ≡ some upward
unfolding parse_filter parse_tokens classify match_direction match_length match_key match_numbers
    match_comparison apply_token set_plain_text trim split_spaces match_regex
parsed_upward = refl

parsed_regex :
    parse_filter literal_engine (codes "/f748/g")
    ≡ some (regex_only (record { source = codes "f748"; flags = codes "g"; last_index = 0 }))
unfolding parse_filter match_regex trim includes is_space drop_while
parsed_regex = refl

-- The second byte of `hex:f7 0e` is a plain word.
parsed_hex_pair :
    parse_filter literal_engine (codes "hex:f7 0e")
    ≡ some (record no_conditions { hex = some (codes "f7"); plain_text = some (codes "0e") })
unfolding parse_filter parse_tokens classify match_direction match_length match_key match_numbers
    match_comparison apply_token set_plain_text trim split_spaces match_regex
parsed_hex_pair = refl

matches_filter_iff_example :
    (((matches_filter literal_engine greeting (only up) (some upward)).0 ≡ true)
      ↔ (ButtonHolds (only up) greeting × Satisfies literal_engine greeting upward))
    × ((matches_filter literal_engine greeting (only up) (some upward)).1 ≡ some upward)
matches_filter_iff_example = matches_filter_iff literal_engine greeting (only up) (some upward) tt

abbrev every_f7 : RegExp
every_f7 = record { source = codes "f7"; flags = codes "g"; last_index = 0 }

stateful_forgets_example :
    let (first, parsed) = matches_filter literal_engine greeting all (some (regex_only every_f7)) in
    (first ≡ true) × ((matches_filter literal_engine greeting all parsed).0 ≡ false)
unfolding is_stateful includes normalized_hex remove_spaces index_of
stateful_forgets_example = stateful_forgets literal_engine greeting every_f7 0 2 refl refl refl refl

find_match_positions_total_example :
    (r : Option (List ℕ)) × (find_match_positions literal_engine greeting (some upward) ≡ some r)
    × AscendsIfAny r
unfolding needle_of remove_spaces
find_match_positions_total_example =
    find_match_positions_total literal_engine greeting upward (λ q. cc)

find_match_positions_iff_example :
    (r : Option (List ℕ)) × (find_match_positions literal_engine greeting (some upward) ≡ some r)
    × ((j : ℕ)
        → Listed j r
          ↔ (TouchedFrom (needle_of greeting.hex_raw) (needle_of (codes "F748")) 0 j ⊎ ⊥))
unfolding needle_of remove_spaces
find_match_positions_iff_example =
    find_match_positions_iff literal_engine greeting upward (λ q. cc) refl

positions_found :
    find_match_positions literal_engine greeting (some upward) ≡ some (some (0 ∷ 1 ∷ []))
unfolding find_match_positions
positions_found = refl

parse-find_total_example :
    (r : Option (List ℕ)) × (find_match_positions literal_engine greeting
        (parse_filter literal_engine (codes "hex:f7"))
      ≡ some r)
parse-find_total_example = parse-find_total literal_engine greeting (codes "hex:f7")

parse_filter-IsWellFormed_example : IsWellFormed literal_engine upward
parse_filter-IsWellFormed_example =
    parse_filter-IsWellFormed literal_engine (codes "DIR:up  len:>=3 hex:F748 ") upward
      parsed_upward

plain_words_unmarked_example :
    find_match_positions literal_engine greeting
      (some (record no_conditions { plain_text = some (codes "f7 48") }))
    ≡ some none
unfolding is_space
plain_words_unmarked_example =
    plain_words_unmarked literal_engine greeting (codes "f7") (codes "48") b' ' refl

remove-add_example :
    let (added, s1) = add_preset counted_json (codes "big") (codes "len:>9") empty_storage in
    let (left, s2) = remove_preset counted_json (codes "big") s1 in
    (load_presets counted_json s1 ≡ added)
    × (load_presets counted_json s2 ≡ left)
    × (left
        ≡ filterb
            (λ (p : Preset). not (text_eq p.name (codes "big")))
            (load_presets counted_json empty_storage))
remove-add_example = remove-add counted_json (codes "big") (codes "len:>9") empty_storage refl
