-- ===== src/Inspector/Integers.antt =====
-- The integers of internal/web/static/modules/inspector.js, against the bytes of a message.
use mathlib.Core.Path.{ap₂}
use serial_tcp_proxy.Prelude.{
  ℕ, ◌+◌, ◌*◌, ◌^◌, ◌≤◌, ◌<◌, ◌≡◌, refl, ap, ◌∙◌, inl, inr, true, Option, some, List, [], ◌∷◌, ◌++◌,
  Text, All, map, length, leb, ltb, ◌==◌, ==_iff, Bool-cases, arith,
}
use serial_tcp_proxy.Wire.{hex_byte}
use serial_tcp_proxy.Wire.Bytes.{IsByte}
use serial_tcp_proxy.Packets.Entry.Shown.{shown_byte, all_below, all_below_sound}
use serial_tcp_proxy.Inspector.Float32.{FloatText, get_float32, to_fixed}
use serial_tcp_proxy.Inspector.Float32.Nearest.{Writes, get_float32-Writes}
use serial_tcp_proxy.Inspector.{
  float_orders, Integer, plus, minus, as_signed, pairs, byte_value, bytes_of, both_orders,
  signed_orders, first_byte, signed_byte, update_inspector,
}

-- `hex.EncodeToString`
abbrev pub hex_text : List ℕ → Text
hex_text [] = []
hex_text (b ∷ bytes) = hex_byte b ++ hex_text bytes

byte_table : all_below 256 (λ b. byte_value (hex_byte b) == b) ≡ true
unfolding all_below byte_value
byte_table = refl

byte_value-hex_byte : (b : ℕ) → IsByte b → byte_value (hex_byte b) ≡ b
byte_value-hex_byte b h =
    (==_iff (byte_value (hex_byte b)) b).0
      (all_below_sound 256 (λ x. byte_value (hex_byte x) == x) b byte_table h)

bytes_of-hex_text : (bytes : List ℕ) → All IsByte bytes → bytes_of (hex_text bytes) ≡ bytes
unfolding bytes_of pairs
bytes_of-hex_text [] h = refl
bytes_of-hex_text (b ∷ bytes) h = ap₂ ◌∷◌ (byte_value-hex_byte b h.0) (bytes_of-hex_text bytes h.1)

-- The integer stands for the number in two's complement.
abbrev pub Stands : ℕ → ℕ → Integer → Type 0
Stands half n (plus k) = (k ≡ n) × (k < half)
Stands half n (minus k) = (n + (k + 1) ≡ 2 * half) × (k < half)

as_signed-Stands : (half n : ℕ) → n < 2 * half → Stands half n (as_signed half n)
as_signed-Stands half n h = elim (Bool-cases (ltb n half)) [
  | inl t ↦ rw t (refl, ground arith)
  | inr f ↦ let past : half ≤ n = ground arith in rw f (omega arith, omega arith)
]

two_bytes :
    (b0 b1 b2 b3 : ℕ) (rest : List ℕ)
    → both_orders 2 (b0 ∷ b1 ∷ b2 ∷ b3 ∷ rest) ≡ some (b0 + 256 * b1, 256 * b0 + b1)
unfolding both_orders
two_bytes b0 b1 b2 b3 rest =
    let enough : leb 2 (length (b0 ∷ b1 ∷ b2 ∷ b3 ∷ rest)) ≡ true = ground arith in
    rw enough (ap₂ (λ x y. some (x, y)) (omega arith) (omega arith))

four_bytes :
    (b0 b1 b2 b3 : ℕ) (rest : List ℕ)
    → both_orders 4 (b0 ∷ b1 ∷ b2 ∷ b3 ∷ rest)
      ≡ some
          (b0 + 256 * b1 + 65536 * b2 + 16777216 * b3, 16777216 * b0 + 65536 * b1 + 256 * b2 + b3)
unfolding both_orders
four_bytes b0 b1 b2 b3 rest =
    let enough : leb 4 (length (b0 ∷ b1 ∷ b2 ∷ b3 ∷ rest)) ≡ true = ground arith in
    rw enough (ap₂ (λ x y. some (x, y)) (omega arith) (omega arith))

-- What the panel has as a pair of numbers, and as a pair of integers that stand for them.
abbrev pub ShowsBoth : ℕ → ℕ × ℕ → Option (ℕ × ℕ) → Option (Integer × Integer) → Type 0
ShowsBoth half (le, be) unsigned signed =
    (unsigned ≡ some (le, be))
    × ((x : Integer) × (y : Integer) × (signed ≡ some (x, y)) × Stands half le x × Stands half be y)

ShowsBoth-orders :
    (half le be : ℕ) (r : Option (ℕ × ℕ))
    → r ≡ some (le, be)
    → le < 2 * half
    → be < 2 * half
    → ShowsBoth half (le, be) r (signed_orders half r)
ShowsBoth-orders half le be r q lo hi = (
  q,
  (
    as_signed half le,
    as_signed half be,
    ap (signed_orders half) q,
    as_signed-Stands half le lo,
    as_signed-Stands half be hi,
  ),
)

-- What the panel has as two floats, for the bits of two numbers.
abbrev pub ShowsFloats : ℕ × ℕ → Option (FloatText × FloatText) → Type 0
ShowsFloats (le, be) floats =
    (x : FloatText) × (y : FloatText) × (floats ≡ some (x, y)) × Writes le x × Writes be y

ShowsFloats-orders :
    (le be : ℕ) (r : Option (ℕ × ℕ))
    → r ≡ some (le, be)
    → le < 2 ^ 32
    → be < 2 ^ 32
    → ShowsFloats (le, be) (float_orders r)
unfolding float_orders
ShowsFloats-orders le be r q lo hi = (
  to_fixed (get_float32 le),
  to_fixed (get_float32 be),
  ap float_orders q,
  get_float32-Writes le lo,
  get_float32-Writes be hi,
)

module _ (b0 b1 b2 b3 : ℕ) (rest : List ℕ) where
  abbrev message : List ℕ
  message = b0 ∷ b1 ∷ b2 ∷ b3 ∷ rest

  -- The hex text of four bytes or more is read back: the panel shows the first byte, the first
  -- two and the first four as numbers, with the least significant byte first and with the most
  -- significant first, next to the integers that stand for them in two's complement of 8, 16
  -- and 32 bits, and to the floats of these 32 bits by their sign, exponent and fraction:
  -- "NaN", "Infinity" with its sign, or, below 10^21, a sign unless it is zero and the nearest
  -- number with four decimal places, the one farther from zero of two; and every byte as its
  -- printable sign or a dot.
  pub update_inspector-hex_text :
      All IsByte message
      → let i = update_inspector (hex_text message) in
        (i.uint8 ≡ some b0)
        × ((x : Integer) × (i.int8 ≡ some x) × Stands (2 ^ 7) b0 x)
        × ShowsBoth (2 ^ 15) (b0 + 256 * b1, 256 * b0 + b1) i.uint16 i.int16
        × ShowsBoth
            (2 ^ 31)
            (b0 + 256 * b1 + 65536 * b2 + 16777216 * b3, 16777216 * b0 + 65536 * b1 + 256 * b2 + b3)
            i.uint32
            i.int32
        × ShowsFloats
            (b0 + 256 * b1 + 65536 * b2 + 16777216 * b3, 16777216 * b0 + 65536 * b1 + 256 * b2 + b3)
            i.float32
        × (i.string ≡ map shown_byte message)
  unfolding update_inspector
  update_inspector-hex_text h =
      let q = bytes_of-hex_text message h in
      let one = ap first_byte q in
      (
        one,
        (as_signed (2 ^ 7) b0, ap signed_byte one, as_signed-Stands (2 ^ 7) b0 (omega arith)),
        ShowsBoth-orders (2 ^ 15) _ _ _ (ap (both_orders 2) q ∙ two_bytes b0 b1 b2 b3 rest)
            (omega arith) (omega arith),
        ShowsBoth-orders (2 ^ 31) _ _ _ (ap (both_orders 4) q ∙ four_bytes b0 b1 b2 b3 rest)
            (omega arith) (omega arith),
        ShowsFloats-orders _ _ _ (ap (both_orders 4) q ∙ four_bytes b0 b1 b2 b3 rest) (omega arith)
            (omega arith),
        ap (map shown_byte) q,
      )
