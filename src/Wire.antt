-- ===== src/Wire.antt =====
-- `LogPacket` of internal/logger/logger.go: the line that it hands to the web server's callback,
-- which the browser reads.
pub mod Bytes
pub mod Decimal
use serial_tcp_proxy.Prelude.{
  ℕ, zero, suc, ◌+◌, ◌/◌, ◌%◌, Bool, true, false, List, [], ◌∷◌, ◌++◌, Text, codes, join, map,
  length, ltb, if◌then◌else◌, ◌==◌,
}

-- The digits of `hex.EncodeToString`.
abbrev pub hex_digit : ℕ → ℕ
hex_digit d = if ltb d 10 then d + b'0' else d + 87

abbrev pub hex_byte : ℕ → Text
hex_byte b = hex_digit (b / 16) ∷ hex_digit (b % 16) ∷ []

-- `%d`, by fuel: a digit for each round.
unfoldable pub decimal_digits : ℕ → ℕ → Text → Text
decimal_digits zero n out = out
decimal_digits (suc fuel) n out =
    let rest = decimal_digits fuel (n / 10) ((n % 10 + b'0') ∷ out) in
    if ltb n 10 then (n + b'0') ∷ out else rest

-- A number has no more digits than its value and one.
unfoldable pub format_decimal : ℕ → Text
unfolding decimal_digits
format_decimal n = decimal_digits (n + 1) n []

-- The bytes in hex with a space between two.
unfoldable pub format_bytes : List ℕ → Text
unfolding join
format_bytes bytes = join b' ' (map hex_byte bytes)

-- What stands behind the bytes: the source, if it is named, and the line's end.
abbrev pub line_end : Text → Text
line_end [] = 10 ∷ []
line_end (c ∷ source) = codes " from " ++ ((c ∷ source) ++ 10 ∷ [])

unfoldable pub packet_line : Text → Text → List ℕ → Text → Text
unfolding format_bytes format_decimal
packet_line timestamp direction bytes source =
    timestamp
    ++ (codes " [PKT] ["
        ++ (direction
            ++ (codes "] "
                ++ (format_bytes bytes
                    ++ (codes " ("
                        ++ (format_decimal (length bytes)
                            ++ (codes " bytes)" ++ line_end source)))))))
