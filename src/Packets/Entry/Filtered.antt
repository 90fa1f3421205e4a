-- ===== src/Packets/Entry/Filtered.antt =====
-- A message that internal/logger/logger.go logs, and the direction buttons and length filters of
-- internal/web/static/modules/filter.js.
use serial_tcp_proxy.Prelude.{
  ℕ, ◌≡◌, refl, sym, subst, ◌↔◌, true, false, some, List, Text, length, codes, includes,
  includes_iff,
}
use serial_tcp_proxy.RegExp.{Engine}
use serial_tcp_proxy.Filter.{
  Direction, up, down, DirectionFilter, all, only, Comparison, compare_to, Parsed, no_conditions,
}
use serial_tcp_proxy.Filter.Match.{matches_filter}
use serial_tcp_proxy.Filter.Match.Spec.{
  Heads, Compares, LengthHolds, ButtonHolds, matches_filter_iff,
}
use serial_tcp_proxy.Packets.Entry.Shown.{packet_of}
use serial_tcp_proxy.Packets.Entry.Length.{parse_int-length}

-- The button lets the direction through.
abbrev pub LetsThrough : DirectionFilter → Direction → Type 0
LetsThrough all d = Unit
LetsThrough (only d') d = d' ≡ d

abbrev pub only_length : Comparison → ℕ → Parsed
only_length op n = record no_conditions { length = some (compare_to op n) }

module _ (ts : Text) (bytes : List ℕ) where
  Heads-own : (d : Direction) → Heads d (packet_of ts d bytes)
  unfolding includes
  Heads-own up = (includes_iff (codes "UP -> Client") (codes "UP ->")).0 refl
  Heads-own down = (includes_iff (codes "Client -> UP") (codes "-> UP")).0 refl

  Heads-iff : (d' d : Direction) → Heads d' (packet_of ts d bytes) ↔ (d' ≡ d)
  unfolding includes
  Heads-iff up up = (λ h. refl, λ q. Heads-own up)
  Heads-iff down down = (λ h. refl, λ q. Heads-own down)
  Heads-iff up down = (
    λ h.
        let clash : false ≡ true = (includes_iff (codes "Client -> UP") (codes "UP ->")).1 h in
        absurd (cc),
    λ q. absurd (cc),
  )
  Heads-iff down up = (
    λ h.
        let clash : false ≡ true = (includes_iff (codes "UP -> Client") (codes "-> UP")).1 h in
        absurd (cc),
    λ q. absurd (cc),
  )

  button_iff :
      (button : DirectionFilter) (d : Direction)
      → ButtonHolds button (packet_of ts d bytes) ↔ LetsThrough button d
  button_iff all d = (λ h. h, λ h. h)
  button_iff (only d') d = Heads-iff d' d

  -- A message that the server logged passes a direction button and a filter `len:` with a
  -- comparison exactly if the button lets its direction through and its number of bytes
  -- compares so.
  pub logged_iff :
      (e : Engine) (button : DirectionFilter) (d : Direction) (op : Comparison) (n : ℕ)
      → ((matches_filter e (packet_of ts d bytes) button (some (only_length op n))).0 ≡ true)
        ↔ (LetsThrough button d × Compares op (length bytes) n)
  logged_iff e button d op n =
      let all_of =
        (matches_filter_iff e (packet_of ts d bytes) button (some (only_length op n)) tt).0 in
      let b = button_iff button d in
      let q = parse_int-length ts d bytes in
      (
        λ h.
            let v = all_of.0 h in
            (
              b.0 v.0,
              let (_, long, _, _, _, _) = v.1 in subst (LengthHolds (compare_to op n)) q long,
            ),
        λ h.
            all_of.1
              (b.1 h.0, (tt, subst (LengthHolds (compare_to op n)) (sym q) h.1, tt, tt, tt, tt)),
      )
