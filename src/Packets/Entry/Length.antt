-- ===== src/Packets/Entry/Length.antt =====
-- The length column of internal/web/static/modules/packets.js and the number that
-- internal/logger/logger.go writes.
use serial_tcp_proxy.Prelude.{
  ℕ, ◌≡◌, ◌≢◌, refl, ap, ◌∙◌, false, List, [], ◌∷◌, Text, All, is_space, take_while, drop_while,
  decimal_from, length, arith,
}
use serial_tcp_proxy.Filter.{Direction}
use serial_tcp_proxy.Filter.Match.{natural, signed, unsigned_part, parse_int}
use serial_tcp_proxy.Wire.{format_decimal}
use serial_tcp_proxy.Wire.Decimal.{
  IsDigit, format_decimal-IsDigit, format_decimal-ne-nil, decimal-format, take_digits,
}
use serial_tcp_proxy.Packets.Entry.Shown.{packet_of}

digit-no_space : (c : ℕ) → IsDigit c → is_space c ≡ false
unfolding is_space
digit-no_space c d = ground arith

digits_signed :
    (c : ℕ) (s : Text)
    → All IsDigit (c ∷ s)
    → signed false (c ∷ s) ≡ natural (decimal_from 0 (c ∷ s))
unfolding signed
digits_signed c s d = rw (take_digits (c ∷ s) d, take_while) refl

-- No sign is read before a digit.
unsigned_digits : (c : ℕ) (s : Text) → IsDigit c → unsigned_part (c ∷ s) ≡ signed false (c ∷ s)
unfolding unsigned_part
unsigned_digits c s d = ground arith

parse_int_digits : (s : Text) → s ≢ [] → All IsDigit s → parse_int s ≡ natural (decimal_from 0 s)
unfolding parse_int drop_while
parse_int_digits [] n d = absurd (n refl)
parse_int_digits (c ∷ s) n d =
    rw (digit-no_space c d.0, unsigned_part) (unsigned_digits c s d.0 ∙ digits_signed c s d)

-- `parseInt` of the length column of a logged packet is the number of its bytes.
pub parse_int-length :
    (ts : Text) (d : Direction) (bytes : List ℕ)
    → parse_int (packet_of ts d bytes).length ≡ natural (length bytes)
parse_int-length ts d bytes =
    parse_int_digits (format_decimal (length bytes)) (format_decimal-ne-nil (length bytes))
      (format_decimal-IsDigit (length bytes))
    ∙ ap natural (decimal-format (length bytes))
