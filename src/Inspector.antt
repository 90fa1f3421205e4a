-- ===== src/Inspector.antt =====
-- `updateInspector` of internal/web/static/modules/inspector.js: what the panel shows of the bytes that
-- are selected.
pub mod Integers
pub mod Diff
pub mod Float32
use serial_tcp_proxy.Prelude.{
  ℕ, zero, suc, ◌+◌, ◌-◌, ◌*◌, ◌/◌, ◌%◌, ◌^◌, Bool, Option, none, some, List, [], ◌∷◌, ◌++◌, Text,
  codes, map, join, take, length, leb, ltb, if◌then◌else◌, ◌&&◌,
}
use serial_tcp_proxy.Packets.Html.{hex_unsigned}
use serial_tcp_proxy.Inspector.Float32.{FloatText, get_float32, to_fixed}

-- `minus n` is -(n + 1).
pub data Integer : Type 0 where
  plus minus : ℕ → Integer

-- Two's complement, where `half` is the least number that stands for a negative one.
abbrev pub as_signed : ℕ → ℕ → Integer
as_signed half n = if ltb n half then plus n else minus (2 * half - n - 1)

-- `DataView` on the bytes at the front: the most significant first, and last.
unfoldable pub big_endian : ℕ → List ℕ → ℕ
big_endian n [] = n
big_endian n (b ∷ bytes) = big_endian (n * 256 + b) bytes

unfoldable pub little_endian : List ℕ → ℕ
little_endian [] = 0
little_endian (b ∷ bytes) = b + 256 * little_endian bytes

-- `hex.match(/.{1,2}/g)`
unfoldable pub pairs : Text → List Text
pairs [] = []
pairs (c ∷ []) = (c ∷ []) ∷ []
pairs (c ∷ d ∷ s) = (c ∷ d ∷ []) ∷ pairs s

-- `parseInt(byte, 16)` in a `Uint8Array`: `NaN` is stored as 0.
unfoldable pub byte_value : Text → ℕ
unfolding hex_unsigned
byte_value byte = elim (hex_unsigned byte) [ none ↦ 0 | some n ↦ n % 256 ]

unfoldable pub bytes_of : Text → List ℕ
unfolding pairs byte_value
bytes_of hex = map byte_value (pairs hex)

-- `b.toString(2).padStart(8, '0')`: the digits of a byte, `count` of them.
unfoldable pub binary_digits : ℕ → ℕ → Text → Text
binary_digits zero n out = out
binary_digits (suc count) n out = binary_digits count (n / 2) ((n % 2 + b'0') ∷ out)

unfoldable pub binary_text : List ℕ → Text
unfolding binary_digits join
binary_text bytes =
    let shown = join b' ' (map (λ b. binary_digits 8 b []) (take 4 bytes)) in
    if leb (length bytes) 4 then shown else shown ++ codes " ..."

-- The value with the least significant byte first and with the most significant first, if there are
-- enough bytes.
pub record Inspection : Type 0 where
  pub binary : Text
  pub uint8 : Option ℕ
  pub int8 : Option Integer
  pub uint16 : Option (ℕ × ℕ)
  pub int16 : Option (Integer × Integer)
  pub uint32 : Option (ℕ × ℕ)
  pub int32 : Option (Integer × Integer)
  pub float32 : Option (FloatText × FloatText)
  pub string : Text

-- `LE` and `BE` of the first `count` bytes.
unfoldable pub both_orders : ℕ → List ℕ → Option (ℕ × ℕ)
unfolding big_endian little_endian
both_orders count bytes =
    if leb count (length bytes)
    then some (little_endian (take count bytes), big_endian 0 (take count bytes))
    else none

abbrev pub signed_orders : ℕ → Option (ℕ × ℕ) → Option (Integer × Integer)
signed_orders half none = none
signed_orders half (some (le, be)) = some (as_signed half le, as_signed half be)

unfoldable pub float_orders : Option (ℕ × ℕ) → Option (FloatText × FloatText)
unfolding get_float32 to_fixed
float_orders none = none
float_orders (some (le, be)) = some (to_fixed (get_float32 le), to_fixed (get_float32 be))

abbrev pub first_byte : List ℕ → Option ℕ
first_byte [] = none
first_byte (b ∷ bytes) = some b

abbrev pub signed_byte : Option ℕ → Option Integer
signed_byte none = none
signed_byte (some n) = some (as_signed (2 ^ 7) n)

unfoldable pub update_inspector : Text → Inspection
unfolding bytes_of binary_text both_orders float_orders
update_inspector hex =
    let bytes = bytes_of hex in
    record {
      binary = binary_text bytes;
      uint8 = first_byte bytes;
      int8 = signed_byte (first_byte bytes);
      uint16 = both_orders 2 bytes;
      int16 = signed_orders (2 ^ 15) (both_orders 2 bytes);
      uint32 = both_orders 4 bytes;
      int32 = signed_orders (2 ^ 31) (both_orders 4 bytes);
      float32 = float_orders (both_orders 4 bytes);
      string = map (λ b. if leb 32 b && leb b 126 then b else b'.') bytes;
    }
