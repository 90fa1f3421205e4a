-- ===== src/Inspector/Float32/Nearest.antt =====
-- The 32-bit floats of internal/web/static/modules/inspector.js, against the layout of their bits.
use native.Mathlib.Omega.{div_any}
use native.Mathlib.Nat.{mod-lt}
use serial_tcp_proxy.Prelude.{
  ℕ, subst, ◌==◌, ◌+◌, ◌-◌, ◌*◌, ◌/◌, ◌%◌, ◌^◌, ◌≤◌, ◌<◌, ◌≡◌, refl, Bool, inl, inr, ◌∷◌, ◌++◌,
  Text, codes, All, length, decimal_from, leb, ltb, ◌&&◌, if◌then◌else◌, Bool-cases, arith,
}
use serial_tcp_proxy.Wire.{format_decimal}
use serial_tcp_proxy.Wire.Decimal.{IsDigit, format_decimal-IsDigit, decimal-format}
use serial_tcp_proxy.Inspector.Float32.{
  finite, float_of, get_float32, FloatText, fixed, large, sign_text, ten_thousandths, four_digits,
  to_fixed,
}

-- The bits: a sign, the exponent and the fraction.
abbrev pub layout : Bool → ℕ → ℕ → ℕ
layout negative exponent fraction = (if negative then 2 ^ 31 else 0) + exponent * 2 ^ 23 + fraction

-- `n` is the whole number nearest to `a / d`, or the larger one of two.
abbrev pub IsNearest : ℕ → ℕ → ℕ → Type 0
IsNearest n a d = (2 * (n * d) ≤ 2 * a + d) × (2 * a < 2 * (n * d) + d)

nearest_lem : (a d : ℕ) → 0 < d → IsNearest ((2 * a + d) / (2 * d)) a d
nearest_lem a d h =
    let q = div_any (2 * a + d) (2 * d) in
    let r = mod-lt (2 * a + d) {m = 2 * d} (omega (arith, h)) in
    (omega (arith, q, r), omega (arith, q, r))

four_digits-value : (n : ℕ) → decimal_from 0 (four_digits n) ≡ n % 10000
unfolding decimal_from
four_digits-value n = omega arith

four_digits-IsDigit : (n : ℕ) → All IsDigit (four_digits n)
four_digits-IsDigit n = ground arith

-- The text is the sign, unless the number is zero, and the whole number nearest to ten thousand times
-- `m * 2 ^ x` of the smallest numbers, with a point in front of its last four digits.
pub data Shows : Bool → ℕ → ℕ → FloatText → Type 0 where
  shows_large :
      (negative : Bool) (m x : ℕ)
      → 10 ^ 21 * 2 ^ 149 ≤ m * 2 ^ x
      → Shows negative m x (large negative m x)
  shows_fixed :
      (negative : Bool) (m x : ℕ) (whole four : Text)
      → m * 2 ^ x < 10 ^ 21 * 2 ^ 149
      → All IsDigit whole
      → All IsDigit four
      → length four ≡ 4
      → IsNearest (decimal_from 0 whole * 10000 + decimal_from 0 four) (m * 2 ^ x * 10000) (2 ^ 149)
      → Shows negative m x (fixed (sign_text (negative && ltb 0 m) ++ whole ++ b'.' ∷ four))

-- What a text says of 32 bits.
pub data Writes : ℕ → FloatText → Type 0 where
  writes_nan :
      (s : Bool) (f : ℕ) → 0 < f → f < 2 ^ 23 → Writes (layout s 255 f) (fixed (codes "NaN"))
  writes_infinite : (s : Bool) → Writes (layout s 255 0) (fixed (sign_text s ++ codes "Infinity"))
  writes_small :
      (s : Bool) (f : ℕ) (t : FloatText) → f < 2 ^ 23 → Shows s f 0 t → Writes (layout s 0 f) t
  writes_normal :
      (s : Bool) (e f : ℕ) (t : FloatText)
      → 0 < e
      → e < 255
      → f < 2 ^ 23
      → Shows s (2 ^ 23 + f) (e - 1) t
      → Writes (layout s e f) t

written_value :
    (n : ℕ)
    → decimal_from 0 (format_decimal (n / 10000)) * 10000 + decimal_from 0 (four_digits n) ≡ n
written_value n = omega (arith, decimal-format (n / 10000), four_digits-value n)

IsNearest-written :
    (n a d : ℕ)
    → IsNearest n a d
    → IsNearest
        (decimal_from 0 (format_decimal (n / 10000)) * 10000 + decimal_from 0 (four_digits n))
        a
        d
IsNearest-written n a d h = rw (written_value n) h

to_fixed-Shows : (s : Bool) (m x : ℕ) → Shows s m x (to_fixed (finite s m x))
unfolding to_fixed
to_fixed-Shows s m x = elim (Bool-cases (leb (10 ^ 21 * 2 ^ 149) (m * 2 ^ x))) [
  | inl t ↦ rw t (shows_large s m x (ground arith))
  | inr f ↦
      let n = ten_thousandths (m * 2 ^ x) (2 ^ 149) in
      rw f (
        shows_fixed s m x (format_decimal (n / 10000)) (four_digits n) (ground arith)
          (format_decimal-IsDigit (n / 10000)) (four_digits-IsDigit n) refl
          (IsNearest-written n (m * 2 ^ x * 10000) (2 ^ 149)
            (nearest_lem (m * 2 ^ x * 10000) (2 ^ 149) (omega arith))))
]

highest-Writes :
    (s : Bool) (f : ℕ) → f < 2 ^ 23 → Writes (layout s 255 f) (to_fixed (float_of s 255 f))
unfolding to_fixed
highest-Writes s f h = elim (Bool-cases (f == 0)) [
  | inl t ↦
      let z : 0 ≡ f = ground arith in
      subst (λ g. Writes (layout s 255 g) (to_fixed (float_of s 255 g))) z (writes_infinite s)
  | inr n ↦ rw n (writes_nan s f (ground arith) h)
]

lowest-Writes : (s : Bool) (f : ℕ) → f < 2 ^ 23 → Writes (layout s 0 f) (to_fixed (float_of s 0 f))
lowest-Writes s f h = writes_small s f _ h (to_fixed-Shows s f 0)

float_of-Writes :
    (s : Bool) (e f : ℕ) → e < 256 → f < 2 ^ 23 → Writes (layout s e f) (to_fixed (float_of s e f))
float_of-Writes s e f he hf =
    let P : ℕ → Type 0 = λ x. Writes (layout s x f) (to_fixed (float_of s x f)) in
    elim (Bool-cases (e == 255)) [
      | inl t ↦ let q : 255 ≡ e = ground arith in subst P q (highest-Writes s f hf)
      | inr n ↦ elim (Bool-cases (e == 0)) [
        | inl t ↦ let q : 0 ≡ e = ground arith in subst P q (lowest-Writes s f hf)
        | inr k ↦ rw n (
            rw k (
              writes_normal s e f _ (ground arith) (ground arith) hf
                (to_fixed-Shows s (2 ^ 23 + f) (e - 1))))
      ]
    ]

layout_lem :
    (bits : ℕ)
    → bits < 2 ^ 32
    → layout (leb (2 ^ 31) bits) (bits / 2 ^ 23 % 256) (bits % 2 ^ 23) ≡ bits
layout_lem bits h = ground (arith, h)

pub get_float32-Writes : (bits : ℕ) → bits < 2 ^ 32 → Writes bits (to_fixed (get_float32 bits))
unfolding get_float32
get_float32-Writes bits h =
    subst (λ b. Writes b (to_fixed (get_float32 bits))) (layout_lem bits h)
      (float_of-Writes (leb (2 ^ 31) bits) (bits / 2 ^ 23 % 256) (bits % 2 ^ 23) (omega arith)
        (omega arith))
