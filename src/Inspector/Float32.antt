-- ===== src/Inspector/Float32.antt =====
-- `updateInspector` of internal/web/static/modules/inspector.js: the 32-bit floats, by `getFloat32` of
-- the language's `DataView` and `toFixed(4)`.
pub mod Nearest
use serial_tcp_proxy.Prelude.{
  ℕ, ◌+◌, ◌-◌, ◌*◌, ◌/◌, ◌%◌, ◌^◌, Bool, true, false, List, [], ◌∷◌, ◌++◌, Text, codes, leb, ltb,
  ◌==◌, ◌&&◌, if◌then◌else◌,
}
use serial_tcp_proxy.Wire.{format_decimal}

-- `finite negative m x` is `m * 2 ^ x` of the smallest numbers, `2 ^ -149`.
pub data Float32 : Type 0 where
  not_a_number : Float32
  infinite : Bool → Float32
  finite : Bool → ℕ → ℕ → Float32

abbrev pub float_of : Bool → ℕ → ℕ → Float32
float_of negative exponent fraction =
    if exponent == 255
    then if fraction == 0 then infinite negative else not_a_number
    else if exponent == 0
    then finite negative fraction 0
    else finite negative (2 ^ 23 + fraction) (exponent - 1)

-- `getFloat32`, from the bits as an unsigned number: the sign, eight bits of the exponent and 23 of
-- the fraction.
unfoldable pub get_float32 : ℕ → Float32
get_float32 bits = float_of (leb (2 ^ 31) bits) (bits / 2 ^ 23 % 256) (bits % 2 ^ 23)

-- From `10 ^ 21` on, `toFixed` writes what `String` does, which `large` leaves open.
pub data FloatText : Type 0 where
  fixed : Text → FloatText
  large : Bool → ℕ → ℕ → FloatText

abbrev pub sign_text : Bool → Text
sign_text negative = if negative then codes "-" else []

-- The whole number of ten thousandths that is nearest to `a / d`, the larger one of two.
abbrev pub ten_thousandths : ℕ → ℕ → ℕ
ten_thousandths a d = (2 * (a * 10000) + d) / (2 * d)

abbrev pub four_digits : ℕ → Text
four_digits n =
    (n / 1000 % 10 + b'0') ∷ (n / 100 % 10 + b'0') ∷ (n / 10 % 10 + b'0') ∷ (n % 10 + b'0') ∷ []

-- `toFixed(4)`: a zero has no sign.
unfoldable pub to_fixed : Float32 → FloatText
unfolding format_decimal
to_fixed not_a_number = fixed (codes "NaN")
to_fixed (infinite negative) = fixed (sign_text negative ++ codes "Infinity")
to_fixed (finite negative m x) =
    if leb (10 ^ 21 * 2 ^ 149) (m * 2 ^ x)
    then large negative m x
    else let n = ten_thousandths (m * 2 ^ x) (2 ^ 149) in
      fixed (sign_text (negative && ltb 0 m) ++ format_decimal (n / 10000) ++ b'.' ∷ four_digits n)
