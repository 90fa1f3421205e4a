-- ===== src/Packets/Entry/Shown.antt =====
-- What internal/web/static/modules/packets.js makes of the bytes that internal/logger/logger.go
-- wrote.
use mathlib.Core.Path.{ap₂}
use serial_tcp_proxy.Prelude.{
  ℕ, zero, suc, ◌<◌, ◌≡◌, refl, ap, ◌∙◌, Bool, true, ◌&&◌, List, [], ◌∷◌, ◌++◌, Text, All, Lacks,
  split_first, length, map, leb, if◌then◌else◌, ◌==◌, ==_iff, arith,
}
use serial_tcp_proxy.Utils.Time.{format_time}
use serial_tcp_proxy.Filter.{Packet, Direction}
use serial_tcp_proxy.Wire.{hex_byte, format_bytes, format_decimal}
use serial_tcp_proxy.Wire.Bytes.{IsByte, split-format_bytes}
use serial_tcp_proxy.Packets.Html.{format_hex}
use serial_tcp_proxy.Packets.Entry.{first_part, ascii_unit, make_packet}
use serial_tcp_proxy.Packets.Entry.Line.{table_word}

-- The sign that the table shows for a byte.
abbrev pub shown_byte : ℕ → ℕ
shown_byte b = if leb 32 b && leb b 126 then b else b'.'

unfoldable pub all_below : ℕ → (ℕ → Bool) → Bool
all_below zero f = true
all_below (suc n) f = f n && all_below n f

pub all_below_sound : (n : ℕ) (f : ℕ → Bool) (b : ℕ) → all_below n f ≡ true → b < n → f b ≡ true
unfolding all_below
all_below_sound zero f b h lt = absurd (omega arith)
all_below_sound (suc n) f b h lt = ground (arith, all_below_sound n f b)

ascii_table : all_below 256 (λ b. ascii_unit (hex_byte b) == shown_byte b) ≡ true
unfolding all_below ascii_unit
ascii_table = refl

ascii_unit-hex_byte : (b : ℕ) → IsByte b → ascii_unit (hex_byte b) ≡ shown_byte b
ascii_unit-hex_byte b h =
    (==_iff (ascii_unit (hex_byte b)) (shown_byte b)).0
      (all_below_sound 256 (λ x. ascii_unit (hex_byte x) == shown_byte x) b ascii_table h)

shown_bytes :
    (bytes : List ℕ) → All IsByte bytes → map ascii_unit (map hex_byte bytes) ≡ map shown_byte bytes
shown_bytes [] h = refl
shown_bytes (b ∷ bytes) h = ap₂ ◌∷◌ (ascii_unit-hex_byte b h.0) (shown_bytes bytes h.1)

-- The packet of a message.
abbrev pub packet_of : Text → Direction → List ℕ → Packet
packet_of ts d bytes = record {
  time = format_time ts;
  direction = table_word d;
  length = format_decimal (length bytes);
  hex_raw = format_bytes bytes;
  hex_formatted = format_hex (map hex_byte bytes);
  ascii = map shown_byte bytes;
}

pub make_packet_lem :
    (ts rest : Text) (d : Direction) (b : ℕ) (bytes : List ℕ)
    → Lacks b' ' ts
    → All IsByte (b ∷ bytes)
    → make_packet
        (ts ++ b' ' ∷ rest)
        (table_word d)
        (format_bytes (b ∷ bytes), format_decimal (length (b ∷ bytes)))
      ≡ packet_of ts d (b ∷ bytes)
unfolding make_packet
make_packet_lem ts rest d b bytes l small =
    let parts = split-format_bytes b bytes in
    let time = ap (λ ps. format_time (first_part ps)) (split_first b' ' ts rest l) in
    let formatted = ap format_hex parts in
    let shown = ap (map ascii_unit) parts ∙ shown_bytes (b ∷ bytes) small in
    λ i. record {
      time = time i;
      direction = table_word d;
      length = format_decimal (length (b ∷ bytes));
      hex_raw = format_bytes (b ∷ bytes);
      hex_formatted = formatted i;
      ascii = shown i;
    }
