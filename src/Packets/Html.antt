-- ===== src/Packets/Html.antt =====
-- The HTML of hex bytes in internal/web/static/modules/packets.js: `addPacketEntry` writes it for
-- every packet, `generateHighlightedHex` once more with the bytes that a filter matched.
pub mod Highlight
use serial_tcp_proxy.Prelude.{
  ℕ, zero, suc, ◌+◌, ◌-◌, ◌*◌, Bool, true, false, not, ◌&&◌, ◌||◌, Option, none, some, List, [],
  ◌∷◌, ◌++◌, Text, codes, text_eq, split, join, take, drop, take_while, drop_while, is_space,
  is_digit, is_nil, length, member, leb, ◌==◌, if◌then◌else◌, map,
}

abbrev pub hex_digit? : ℕ → Option ℕ
hex_digit? c =
    if is_digit c
    then some (c - b'0')
    else if leb b'a' c && leb c b'f'
    then some (c - b'a' + 10)
    else if leb b'A' c && leb c b'F'
    then some (c - b'A' + 10)
    else none

-- The value of the digits at the front, behind those that were read.
unfoldable pub hex_value : Option ℕ → Text → Option ℕ
hex_value n [] = n
hex_value n (c ∷ s) = elim (hex_digit? c) [
  | none ↦ n
  | some d ↦ hex_value (some (elim n [ none ↦ d | some v ↦ v * 16 + d ])) s
]

-- `0x` in front is passed over.
unfoldable pub hex_prefixed : Text → Option ℕ
unfolding hex_value
hex_prefixed [] = none
hex_prefixed (c ∷ []) = hex_value none (c ∷ [])
hex_prefixed (c ∷ d ∷ s) =
    if c == b'0' && (d == b'x' || d == b'X') then hex_value none s else hex_value none (c ∷ d ∷ s)

unfoldable pub hex_unsigned : Text → Option ℕ
unfolding hex_prefixed
hex_unsigned [] = none
hex_unsigned (c ∷ s) =
    if c == b'-' then none else if c == b'+' then hex_prefixed s else hex_prefixed (c ∷ s)

-- `parseInt(byte, 16)` if it lies between 32 and 126; neither `NaN` nor a negative number does.
unfoldable pub printable_code : Text → Option ℕ
unfolding hex_unsigned drop_while is_space
printable_code byte = elim (hex_unsigned (drop_while is_space byte)) [
  | none ↦ none
  | some code ↦ if leb 32 code && leb code 126 then some code else none
]

-- `<span class="` … `">` … `</span>`, with what is added to the class.
unfoldable pub byte_span : Text → Text → Text
unfolding printable_code
byte_span added byte =
    if text_eq byte (codes "00")
    then codes "<span class=\"hex-null" ++ (added ++ codes "\">00</span>")
    else elim (printable_code byte) [
      | some code ↦
          codes "<span class=\"hex-printable"
          ++ (added ++ (codes "\">" ++ (byte ++ codes "</span>")))
      | none ↦
          codes "<span class=\"hex-control" ++ (added ++ (codes "\">" ++ (byte ++ codes "</span>")))
    ]

abbrev pub hex_group : List Text → Text
hex_group spans = codes "<span class=\"hex-group\">" ++ (join b' ' spans ++ codes "</span> ")

-- `for (let i = 0; i < hexBytes.length; i += 8)`: a round for each group of eight.
unfoldable pub format_groups : ℕ → List Text → Text
unfolding byte_span join
format_groups zero bytes = []
format_groups (suc fuel) [] = []
format_groups (suc fuel) (b ∷ bytes) =
    hex_group (map (byte_span []) (take 8 (b ∷ bytes))) ++ format_groups fuel (drop 8 (b ∷ bytes))

-- There are no more groups than bytes.
unfoldable pub format_hex : List Text → Text
unfolding format_groups
format_hex bytes = format_groups (length bytes) bytes

-- `group.map((byte, j) => …)` at the first byte's index `i`.
unfoldable pub highlighted_spans : List ℕ → ℕ → List Text → List Text
unfolding byte_span
highlighted_spans positions i [] = []
highlighted_spans positions i (b ∷ bytes) =
    byte_span (if member i positions then codes " highlight-byte" else []) b
    ∷ highlighted_spans positions (i + 1) bytes

unfoldable pub highlighted_groups : ℕ → List ℕ → ℕ → List Text → Text
unfolding highlighted_spans join
highlighted_groups zero positions i bytes = []
highlighted_groups (suc fuel) positions i [] = []
highlighted_groups (suc fuel) positions i (b ∷ bytes) =
    hex_group (highlighted_spans positions i (take 8 (b ∷ bytes)))
    ++ highlighted_groups fuel positions (i + 8) (drop 8 (b ∷ bytes))

unfoldable pub generate_highlighted_hex : Text → List ℕ → Text
unfolding highlighted_groups split
generate_highlighted_hex hex_raw positions =
    let bytes = split b' ' hex_raw in highlighted_groups (length bytes) positions 0 bytes
