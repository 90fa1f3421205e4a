-- ===== src/Examples/LiteralEngine.antt =====
-- An engine that takes every pattern literally: it shows that the laws asked of an engine can hold.
use serial_tcp_proxy.Prelude.{
  ℕ, zero, suc, ◌+◌, ◌≤◌, ◌≡◌, inl, inr, true, Option, none, some, [], ◌∷◌, Text, starts_with,
  index_of, index_of-some, length, length-drop, drop, leb, if◌then◌else◌, Option-cases, Bool-cases,
  arith,
}
use mathlib.Core.Option
use serial_tcp_proxy.RegExp.{Engine}

abbrev pub literal_find : Text → Text → Text → ℕ → Option (ℕ × ℕ)
literal_find source flags t i =
    if leb i (length t)
    then Option.map (λ j. (i + j, length source)) (index_of (drop i t) source)
    else none

starts_with-length : (p s : Text) → starts_with p s ≡ true → length p ≤ length s
starts_with-length [] s h = omega arith
starts_with-length (c ∷ p) [] h = absurd (cc)
starts_with-length (c ∷ p) (d ∷ s) h = ground (arith, starts_with-length p s)

index_of-le : (s p : Text) (k : ℕ) → index_of s p ≡ some k → k ≤ length s
unfolding index_of
index_of-le [] p k h = ground arith
index_of-le (c ∷ s) p zero h = omega arith
index_of-le (c ∷ s) p (suc k) h = ground (arith, index_of-le s p k, Option-cases (index_of s p))

pub literal_bounds :
    (source flags t : Text) (i k n : ℕ)
    → literal_find source flags t i ≡ some (k, n)
    → (i ≤ k) × (k + n ≤ length t)
literal_bounds source flags t i k n h = elim (Bool-cases (leb i (length t))) [
  | inr past ↦ absurd (ground arith)
  | inl inside ↦ elim (Option-cases (index_of (drop i t) source)) [
    | inl miss ↦ absurd (ground arith)
    | inr (j, hit) ↦
        let (found, _) = index_of-some (drop i t) source j hit in
        let fits = starts_with-length source (drop j (drop i t)) found in
        ground (
          arith,
          fits,
          index_of-le (drop i t) source j hit,
          length-drop j (drop i t),
          length-drop i t,
        )
  ]
]

abbrev pub literal_engine : Engine
literal_engine = record {
  accepts = λ source flags. true;
  find = literal_find;
  find_bounds = literal_bounds;
}
