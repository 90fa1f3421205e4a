-- ===== src/Packets/Html/Highlight.antt =====
-- The two writers of hex bytes in internal/web/static/modules/packets.js, compared.
use mathlib.Core.Path.{ap₂}
use serial_tcp_proxy.Prelude.{
  ℕ, zero, suc, ◌+◌, ◌≤◌, ◌<◌, ◌≡◌, refl, ap, false, List, [], ◌∷◌, ◌++◌, Text, split, take, drop,
  map, length, length-drop, length-take, member, arith,
}
use serial_tcp_proxy.Packets.Html.{
  byte_span, hex_group, format_groups, format_hex, highlighted_spans, highlighted_groups,
  generate_highlighted_hex,
}

-- Fuel beyond the bytes changes nothing, so the loop has all its rounds.
format_groups_fuel :
    (f g : ℕ) (bytes : List Text)
    → length bytes ≤ f
    → length bytes ≤ g
    → format_groups f bytes ≡ format_groups g bytes
unfolding format_groups
format_groups_fuel zero zero bytes hf hg = refl
format_groups_fuel zero (suc g) [] hf hg = refl
format_groups_fuel zero (suc g) (b ∷ bytes) hf hg = absurd (omega arith)
format_groups_fuel (suc f) zero [] hf hg = refl
format_groups_fuel (suc f) zero (b ∷ bytes) hf hg = absurd (omega arith)
format_groups_fuel (suc f) (suc g) [] hf hg = refl
format_groups_fuel (suc f) (suc g) (b ∷ bytes) hf hg =
    ap (λ t. hex_group (map (byte_span []) (take 8 (b ∷ bytes))) ++ t)
      (format_groups_fuel f g (drop 7 bytes) (omega (arith, length-drop 7 bytes))
        (omega (arith, length-drop 7 bytes)))

-- The loop by groups: the first eight bytes, and the loop over the rest.
pub format_hex_step :
    (b : Text) (bytes : List Text)
    → format_hex (b ∷ bytes)
      ≡ hex_group (map (byte_span []) (take 8 (b ∷ bytes))) ++ format_hex (drop 8 (b ∷ bytes))
unfolding format_hex
format_hex_step b bytes =
    ap (λ t. hex_group (map (byte_span []) (take 8 (b ∷ bytes))) ++ t)
      (format_groups_fuel (length bytes) (length (drop 7 bytes)) (drop 7 bytes)
        (omega (arith, length-drop 7 bytes)) (omega arith))

-- No byte of the window has a position of the list.
abbrev Unmarked : List ℕ → ℕ → ℕ → Type 0
Unmarked positions i n = (j : ℕ) → i ≤ j → j < i + n → member j positions ≡ false

spans-Unmarked :
    (positions : List ℕ) (i : ℕ) (bytes : List Text)
    → Unmarked positions i (length bytes)
    → highlighted_spans positions i bytes ≡ map (byte_span []) bytes
unfolding highlighted_spans
spans-Unmarked positions i [] u = refl
spans-Unmarked positions i (b ∷ bytes) u = ground (
  arith,
  u i,
  spans-Unmarked positions (i + 1) bytes (λ j lo hi. u j (omega arith) (omega arith)),
)

groups-Unmarked :
    (f : ℕ) (positions : List ℕ) (i : ℕ) (bytes : List Text)
    → Unmarked positions i (length bytes)
    → highlighted_groups f positions i bytes ≡ format_groups f bytes
unfolding highlighted_groups format_groups
groups-Unmarked zero positions i bytes u = refl
groups-Unmarked (suc f) positions i [] u = refl
groups-Unmarked (suc f) positions i (b ∷ bytes) u =
    ap₂ (λ s t. hex_group s ++ t)
      (spans-Unmarked positions i (take 8 (b ∷ bytes))
        (λ j lo hi. u j lo (omega (arith, length-take 8 (b ∷ bytes)))))
      (groups-Unmarked f positions (i + 8) (drop 7 bytes)
        (λ j lo hi. u j (omega arith) (omega (arith, length-drop 7 bytes))))

-- Where no byte of the packet is marked, `generateHighlightedHex` writes what `addPacketEntry`
-- has stored with the packet.
pub generate-format :
    (hex_raw : Text) (positions : List ℕ)
    → ((j : ℕ) → j < length (split b' ' hex_raw) → member j positions ≡ false)
    → generate_highlighted_hex hex_raw positions ≡ format_hex (split b' ' hex_raw)
unfolding generate_highlighted_hex format_hex
generate-format hex_raw positions u =
    groups-Unmarked _ positions 0 (split b' ' hex_raw) (λ j lo hi. u j (omega arith))
