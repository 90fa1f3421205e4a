-- ===== src/Prelude/Search.antt =====
-- What the searches of `Strings` find: `p` occurs in `s` if `s` is `a ++ p ++ b`.
use Prim.Native.Nat.{ℕ, zero, suc, ◌<◌, ◌≤◌}
use mathlib.Core.Path.{◌≡◌, refl, ap}
use mathlib.Core.Logic.{◌↔◌, ◌≢◌, inl, inr}
use mathlib.Core.Bool.{true, false}
use mathlib.Core.List.{[], ◌∷◌, ◌++◌}
use mathlib.Core.Option.{none, some}
use native.Mathlib.Omega.{arith}
use serial_tcp_proxy.Prelude.Tests.{Bool-cases, Option-cases}
use serial_tcp_proxy.Prelude.Strings.{Text, starts_with, includes, index_of}
use serial_tcp_proxy.Prelude.Lists.{length, drop}

-- `s` begins with `p`.
abbrev pub Begins : Text → Text → Type 0
Begins p s = (b : Text) × (s ≡ p ++ b)

abbrev pub Occurs : Text → Text → Type 0
Occurs p s = (a : Text) × (b : Text) × (s ≡ a ++ (p ++ b))

pub starts_with_sound : (p s : Text) → starts_with p s ≡ true → Begins p s
starts_with_sound [] s h = (s, refl)
starts_with_sound (c ∷ p) [] h = absurd (cc)
starts_with_sound (c ∷ p) (d ∷ s) h =
    let (b, e) = starts_with_sound p s (ground arith) in (b, ground arith)

pub starts_with_complete : (p b : Text) → starts_with p (p ++ b) ≡ true
starts_with_complete [] b = refl
starts_with_complete (c ∷ p) b = ground (arith, starts_with_complete p b)

pub starts_with_iff : (p s : Text) → (starts_with p s ≡ true) ↔ Begins p s
starts_with_iff p s = (starts_with_sound p s, λ h. subst_text p s h.0 h.1)
  where
    subst_text : (p s b : Text) → s ≡ p ++ b → starts_with p s ≡ true
    subst_text p s b e = rw e (starts_with_complete p b)

includes_sound : (s p : Text) → includes s p ≡ true → Occurs p s
unfolding includes
includes_sound [] p h = let (b, e) = starts_with_sound p [] h in ([], b, e)
includes_sound (c ∷ s) p h = elim (Bool-cases (starts_with p (c ∷ s))) [
  | inl here ↦ let (b, e) = starts_with_sound p (c ∷ s) here in ([], b, e)
  | inr later ↦ let (a, b, e) = includes_sound s p (ground arith) in (c ∷ a, b, ap (◌∷◌ c) e)
]

includes_complete : (a p b : Text) → includes (a ++ (p ++ b)) p ≡ true
unfolding includes
includes_complete [] [] [] = refl
includes_complete [] [] (d ∷ b) = refl
includes_complete [] (c ∷ p) b = ground (arith, starts_with_complete (c ∷ p) b)
includes_complete (c ∷ a) p b = ground (arith, includes_complete a p b)

-- `includes` finds a text exactly if it occurs.
pub includes_iff : (s p : Text) → (includes s p ≡ true) ↔ Occurs p s
includes_iff s p = (includes_sound s p, λ h. found s p h.0 h.1 h.2)
  where
    found : (s p a b : Text) → s ≡ a ++ (p ++ b) → includes s p ≡ true
    found s p a b e = rw e (includes_complete a p b)

-- `index_of` finds the first place at which the text begins with `p`.
pub index_of-some :
    (s p : Text) (k : ℕ)
    → index_of s p ≡ some k
    → (starts_with p (drop k s) ≡ true) × ((j : ℕ) → j < k → starts_with p (drop j s) ≡ false)
unfolding index_of
index_of-some [] p k h = elim (Bool-cases (starts_with p [])) [
  | inl t ↦ let e : k ≡ 0 = ground arith in rw e (t, λ j lt. absurd (omega arith))
  | inr f ↦ absurd (ground arith)
]
index_of-some (c ∷ s) p zero h =
    (ground (arith, Option-cases (index_of s p)), λ j lt. absurd (omega arith))
index_of-some (c ∷ s) p (suc k) h =
    let (found, before) = index_of-some s p k (ground (arith, Option-cases (index_of s p))) in
    (found, earlier before)
  where
    earlier :
        ((j : ℕ) → j < k → starts_with p (drop j s) ≡ false)
        → (j : ℕ) → j < suc k
        → starts_with p (drop j (c ∷ s)) ≡ false
    earlier before zero lt = ground arith
    earlier before (suc j) lt = before j (omega arith)

pub index_of-none :
    (s p : Text) (j : ℕ) → index_of s p ≡ none → j ≤ length s → starts_with p (drop j s) ≡ false
unfolding index_of
index_of-none [] p zero h le = ground arith
index_of-none [] p (suc j) h le = absurd (omega arith)
index_of-none (c ∷ s) p zero h le = ground (arith, Option-cases (index_of s p))
index_of-none (c ∷ s) p (suc j) h le = ground (arith, index_of-none s p j)

-- A text that is not empty stands nowhere behind the end.
pub starts_with_past :
    (s p : Text) (j : ℕ) → p ≢ [] → length s ≤ j → starts_with p (drop j s) ≡ false
starts_with_past s [] j h le = absurd (h refl)
starts_with_past [] (c ∷ p) zero h le = refl
starts_with_past [] (c ∷ p) (suc j) h le = refl
starts_with_past (d ∷ s) (c ∷ p) zero h le = absurd (omega arith)
starts_with_past (d ∷ s) (c ∷ p) (suc j) h le = starts_with_past s (c ∷ p) j h (omega arith)
