-- ===== src/Wire/Decimal.antt =====
-- The decimal numbers of the log lines, as `%d` writes them in internal/logger/logger.go.
use serial_tcp_proxy.Prelude.{
  ℕ, zero, suc, ◌+◌, ◌/◌, ◌%◌, ◌<◌, ◌≡◌, ◌≢◌, refl, ap, ◌∙◌, inl, inr, ◌⊎◌, true, [], ◌∷◌, Text,
  All, Lacks, decimal_from, is_digit, take_while, ltb, arith, Bool-cases,
}
use serial_tcp_proxy.Wire.{decimal_digits, format_decimal}

abbrev pub IsDigit : ℕ → Type 0
IsDigit c = is_digit c ≡ true

decimal_digits-IsDigit :
    (f n : ℕ) (out : Text) → All IsDigit out → All IsDigit (decimal_digits f n out)
unfolding decimal_digits
decimal_digits-IsDigit zero n out h = h
decimal_digits-IsDigit (suc f) n out h = elim (Bool-cases (ltb n 10)) [
  | inl lt ↦ rw lt (ground arith, h)
  | inr ge ↦ rw ge (decimal_digits-IsDigit f (n / 10) ((n % 10 + b'0') ∷ out) (ground arith, h))
]

-- What the digits of `n` in front of `out` add to a number read before them.
decimal_digits_read :
    (f n : ℕ) (out : Text) → n < f → decimal_from 0 (decimal_digits f n out) ≡ decimal_from n out
unfolding decimal_digits decimal_from
decimal_digits_read zero n out h = absurd (omega arith)
decimal_digits_read (suc f) n out h = elim (Bool-cases (ltb n 10)) [
  | inl lt ↦ rw lt (ap (λ k. decimal_from k out) (ground arith))
  | inr ge ↦ rw ge (
      decimal_digits_read f (n / 10) ((n % 10 + b'0') ∷ out) (ground arith)
      ∙ ap (λ k. decimal_from k out) (ground arith))
]

-- The digits are decimal, and reading them gives the number.
pub format_decimal-IsDigit : (n : ℕ) → All IsDigit (format_decimal n)
unfolding format_decimal
format_decimal-IsDigit n = decimal_digits-IsDigit (n + 1) n [] tt

pub decimal-format : (n : ℕ) → decimal_from 0 (format_decimal n) ≡ n
unfolding format_decimal
decimal-format n = decimal_digits_read (n + 1) n [] (omega arith) ∙ unfold decimal_from in refl

decimal_digits-ne-nil : (f n : ℕ) (out : Text) → 0 < f → decimal_digits f n out ≢ []
unfolding decimal_digits
decimal_digits-ne-nil zero n out h = absurd (omega arith)
decimal_digits-ne-nil (suc zero) n out h = ground arith
decimal_digits-ne-nil (suc (suc f)) n out h =
    ground (arith, decimal_digits-ne-nil (suc f) (n / 10) ((n % 10 + b'0') ∷ out))

pub format_decimal-ne-nil : (n : ℕ) → format_decimal n ≢ []
unfolding format_decimal
format_decimal-ne-nil n = decimal_digits-ne-nil (n + 1) n [] (omega arith)

pub IsDigit-Lacks : (c : ℕ) (s : Text) → ((c < b'0') ⊎ (b'9' < c)) → All IsDigit s → Lacks c s
IsDigit-Lacks c [] h d = tt
IsDigit-Lacks c (x ∷ s) h d = (ground arith, IsDigit-Lacks c s h d.1)

pub take_digits : (s : Text) → All IsDigit s → take_while is_digit s ≡ s
unfolding take_while
take_digits [] d = refl
take_digits (c ∷ s) d = rw d.0 (ap (◌∷◌ c) (take_digits s d.1))
