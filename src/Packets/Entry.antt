-- ===== src/Packets/Entry.antt =====
-- The first half of `addPacketEntry` of internal/web/static/modules/packets.js: from a line of the
-- log to a packet.
pub mod Line
pub mod Shown
pub mod RoundTrip
pub mod Length
pub mod Filtered
use serial_tcp_proxy.Prelude.{
  ℕ, suc, ◌+◌, Bool, true, false, Option, none, some, List, [], ◌∷◌, Text, codes, includes,
  index_of, last_index_of, substring, split, trim, length, map, if◌then◌else◌,
}
use serial_tcp_proxy.Utils.Time.{format_time}
use serial_tcp_proxy.Filter.{Packet}
use serial_tcp_proxy.Packets.Html.{printable_code, format_hex}

abbrev pub up_tag : Text
up_tag = codes "[UP->]"

abbrev pub down_tag : Text
down_tag = codes "[->UP]"

abbrev pub up_to_client : Text
up_to_client = codes "UP -> Client"

abbrev pub client_to_up : Text
client_to_up = codes "Client -> UP"

-- `parts[0]` of a split, which has always a first part.
abbrev pub first_part : List Text → Text
first_part [] = []
first_part (p ∷ ps) = p

-- An index as a number for `substring`, which reads -1 as 0.
abbrev pub clamped : Option ℕ → ℕ
clamped none = 0
clamped (some k) = k

-- The hex text and the length, cut out behind the tag.
unfoldable pub cut_data : Text → Text → Text × Text
unfolding index_of last_index_of trim
cut_data tag line = elim (index_of line tag) [
  | none ↦ ([], [])
  | some tag_at ↦ elim (last_index_of line b'(') [
    | none ↦ ([], [])
    | some bytes_at ↦ (
      trim (substring line (tag_at + 6) bytes_at),
      substring line (bytes_at + 1) (clamped (index_of line (codes " bytes"))),
    )
  ]
]

unfoldable pub ascii_unit : Text → ℕ
unfolding printable_code
ascii_unit byte = elim (printable_code byte) [ some code ↦ code | none ↦ b'.' ]

unfoldable pub make_packet : Text → Text → Text × Text → Packet
unfolding format_time format_hex ascii_unit split
make_packet line direction (hex_data, size) = record {
  time = format_time (first_part (split b' ' line));
  direction = direction;
  length = size;
  hex_raw = hex_data;
  hex_formatted = format_hex (split b' ' hex_data);
  ascii = map ascii_unit (split b' ' hex_data);
}

-- The packet of a line, if the line is one of a packet and has a direction.
unfoldable pub parse_entry : Text → Option Packet
unfolding includes
parse_entry line =
    if includes line (codes "[PKT]")
    then if includes line up_tag
      then some (make_packet line up_to_client (cut_data up_tag line))
      else if includes line down_tag
      then some (make_packet line client_to_up (cut_data down_tag line))
      else none
    else none
