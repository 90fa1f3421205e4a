-- ===== src/Ui.antt =====
-- `updateUptime` of internal/web/static/modules/ui.js.
pub mod Status
pub mod Tabs
use serial_tcp_proxy.Prelude.{
  ℕ, zero, suc, ◌+◌, ◌-◌, ◌*◌, ◌/◌, ◌%◌, ◌≤◌, ◌<◌, ◌≡◌, refl, ap, ◌∙◌, false, [], ◌∷◌, ◌++◌, Text,
  length, replicate, decimal_from, arith, All, Lacks, split, split-join, All-append, join, inr, ltb,
  if◌then◌else◌,
}
use serial_tcp_proxy.Wire.{format_decimal}
use serial_tcp_proxy.Wire.Decimal.{IsDigit, format_decimal-IsDigit, decimal-format, IsDigit-Lacks}

-- `s.padStart(2, '0')`
abbrev pub pad_two : Text → Text
pad_two s = replicate (2 - length s) b'0' ++ s

-- The text for a start time `start` at `now`, both in milliseconds.
unfoldable pub uptime_text : ℕ → ℕ → Text
unfolding format_decimal
uptime_text start now =
    if ltb now start
    then pad_two (format_decimal 0)
      ++ b':' ∷ (pad_two (format_decimal 0) ++ b':' ∷ pad_two (format_decimal 0))
    else let diff = (now - start) / 1000 in
      pad_two (format_decimal (diff / 3600))
      ++ b':'
        ∷ (pad_two (format_decimal (diff % 3600 / 60))
            ++ b':' ∷ pad_two (format_decimal (diff % 60)))

decimal_zeros : (k : ℕ) (s : Text) → decimal_from 0 (replicate k b'0' ++ s) ≡ decimal_from 0 s
unfolding decimal_from
decimal_zeros zero s = refl
decimal_zeros (suc k) s = decimal_zeros k s

pad_two-value : (n : ℕ) → decimal_from 0 (pad_two (format_decimal n)) ≡ n
pad_two-value n =
    decimal_zeros (2 - length (format_decimal n)) (format_decimal n) ∙ decimal-format n

zeros-IsDigit : (k : ℕ) → All IsDigit (replicate k b'0')
zeros-IsDigit zero = tt
zeros-IsDigit (suc k) = (refl, zeros-IsDigit k)

pad_two-Lacks : (n : ℕ) → Lacks b':' (pad_two (format_decimal n))
pad_two-Lacks n = IsDigit-Lacks b':' (pad_two (format_decimal n)) (inr (omega arith)) (
    All-append IsDigit (replicate (2 - length (format_decimal n)) b'0') (format_decimal n)
      (zeros-IsDigit (2 - length (format_decimal n))) (format_decimal-IsDigit n))

split_uptime :
    (h m s : ℕ)
    → split b':' (
        pad_two (format_decimal h)
        ++ b':' ∷ (pad_two (format_decimal m) ++ b':' ∷ pad_two (format_decimal s)))
      ≡ pad_two (format_decimal h) ∷ pad_two (format_decimal m) ∷ pad_two (format_decimal s) ∷ []
split_uptime h m s =
    unfold join in
    split-join b':' (pad_two (format_decimal h))
      (pad_two (format_decimal m) ∷ pad_two (format_decimal s) ∷ [])
      (pad_two-Lacks h, (pad_two-Lacks m, (pad_two-Lacks s, tt)))

uptime_text-started :
    (start now : ℕ)
    → start ≤ now
    → let diff = (now - start) / 1000 in
      uptime_text start now
      ≡ pad_two (format_decimal (diff / 3600))
        ++ b':'
          ∷ (pad_two (format_decimal (diff % 3600 / 60))
              ++ b':' ∷ pad_two (format_decimal (diff % 60)))
unfolding uptime_text
uptime_text-started start now le =
    let begun : ltb now start ≡ false = ground arith in rw (begun, uptime_text) refl

-- From the start on, the text is three numbers with colons between them: hours, less than sixty
-- minutes and less than sixty seconds, which make up the whole seconds that have passed.
pub split-uptime_text :
    (start now : ℕ)
    → start ≤ now
    → (h : Text) × (m : Text) × (s : Text) × (split b':' (uptime_text start now) ≡ h ∷ m ∷ s ∷ [])
      × (decimal_from 0 m < 60)
      × (decimal_from 0 s < 60)
      × (decimal_from 0 h * 3600 + decimal_from 0 m * 60 + decimal_from 0 s ≡ (now - start) / 1000)
split-uptime_text start now le =
    let diff = (now - start) / 1000 in
    let hours = pad_two-value (diff / 3600) in
    let minutes = pad_two-value (diff % 3600 / 60) in
    let seconds = pad_two-value (diff % 60) in
    (
      pad_two (format_decimal (diff / 3600)),
      pad_two (format_decimal (diff % 3600 / 60)),
      pad_two (format_decimal (diff % 60)),
      ap (split b':') (uptime_text-started start now le)
          ∙ split_uptime (diff / 3600) (diff % 3600 / 60) (diff % 60),
      omega (arith, minutes),
      omega (arith, seconds),
      omega (arith, hours, minutes, seconds),
    )
