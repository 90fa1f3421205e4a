-- ===== src/Prelude/Spaces.antt =====
-- White space in texts: removal, and the pieces between.
use Prim.Native.Nat.{ℕ, zero, suc}
use mathlib.Core.Path.{◌≡◌, refl}
use mathlib.Core.Logic.{◌≢◌}
use mathlib.Core.Bool.{Bool, true, false, not}
use mathlib.Core.List.{[], ◌∷◌, ◌++◌, map-append}
use native.Mathlib.Omega.{arith}
use serial_tcp_proxy.Prelude.Lists.{All, drop}
use serial_tcp_proxy.Prelude.Strings.{
  Text, is_space, lower_unit, to_lower, remove_spaces, split_spaces, all_units,
}

abbrev pub no_space : ℕ → Bool
no_space c = not (is_space c)

-- No unit of the text is white space.
abbrev pub IsUnspaced : Text → Type 0
IsUnspaced s = all_units no_space s ≡ true

-- Something is left when the text is in lower case and its white space is removed.
abbrev pub IsVisible : Text → Type 0
IsVisible s = remove_spaces (to_lower s) ≢ []

lower_unit-no_space : (c : ℕ) → is_space c ≡ false → is_space (lower_unit c) ≡ false
unfolding is_space
lower_unit-no_space c h = ground arith

pub remove_spaces-append :
    (s t : Text) → remove_spaces (s ++ t) ≡ remove_spaces s ++ remove_spaces t
unfolding remove_spaces
remove_spaces-append [] t = refl
remove_spaces-append (c ∷ s) t = ground (arith, remove_spaces-append s t)

pub IsVisible-append : (s t : Text) → IsVisible s → IsVisible (s ++ t)
IsVisible-append s t v e =
    ground (arith, map-append lower_unit s t, remove_spaces-append (to_lower s) (to_lower t))

pub IsUnspaced-IsVisible : (c : ℕ) (s : Text) → IsUnspaced (c ∷ s) → IsVisible (c ∷ s)
unfolding all_units remove_spaces
IsUnspaced-IsVisible c s u e = ground (arith, lower_unit-no_space c)

pub IsUnspaced-drop : (n : ℕ) (s : Text) → IsUnspaced s → IsUnspaced (drop n s)
unfolding all_units
IsUnspaced-drop zero s u = u
IsUnspaced-drop (suc n) [] u = u
IsUnspaced-drop (suc n) (c ∷ s) u = IsUnspaced-drop n s (ground arith)

-- A cut at white space leaves no white space in the pieces.
pub split_spaces-IsUnspaced : (s : Text) → All IsUnspaced (split_spaces s)
unfolding split_spaces all_units
split_spaces-IsUnspaced [] = (refl, tt)
split_spaces-IsUnspaced (c ∷ s) = ground (arith, split_spaces-IsUnspaced s)
