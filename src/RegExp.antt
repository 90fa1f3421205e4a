-- ===== src/RegExp.antt =====
-- The `RegExp` objects that internal/web/static/modules/filter.js keeps. Matching itself is the
-- JavaScript engine's: it is a parameter. What the language adds to it, `lastIndex`, is written out.
use serial_tcp_proxy.Prelude.{
  ℕ, ◌+◌, ◌≤◌, ◌≡◌, Bool, true, ◌||◌, Option, none, some, [], ◌∷◌, Text, length, includes,
  if◌then◌else◌, ltb, is_some, arith, arith,
}

-- An engine says which patterns it accepts, and finds the next match: at or behind an index (at
-- the index itself, under the flag `y`), as where it stands and how long it is.
pub record Engine : Type 0 where
  pub accepts : Text → Text → Bool
  pub find : Text → Text → Text → ℕ → Option (ℕ × ℕ)
  pub find_bounds :
      (source flags t : Text) (i k n : ℕ)
      → find source flags t i ≡ some (k, n)
      → (i ≤ k) × (k + n ≤ length t)

pub record RegExp : Type 0 where
  pub source : Text
  pub flags : Text
  pub last_index : ℕ

abbrev flag : RegExp → ℕ → Bool
flag r c = includes r.flags (c ∷ [])

-- Only the flags `g` and `y` make a `RegExp` remember where it stopped.
unfoldable pub is_stateful : RegExp → Bool
is_stateful r = flag r b'g' || flag r b'y'

module _ (e : Engine) where
  -- `r.exec(t)`: the match and the object with its new `lastIndex`.
  unfoldable pub exec : RegExp → Text → Option (ℕ × ℕ) × RegExp
  exec r t =
      if is_stateful r
      then if ltb (length t) r.last_index
        then (none, record r { last_index = 0 })
        else elim (e.find r.source r.flags t r.last_index) [
          | none ↦ (none, record r { last_index = 0 })
          | some (k, n) ↦ (some (k, n), record r { last_index = k + n })
        ]
      else (e.find r.source r.flags t 0, r)

  -- `r.test(t)`
  unfoldable pub test : RegExp → Text → Bool × RegExp
  unfolding exec
  test r t = let (m, r') = exec r t in (is_some m, r')

  -- What `exec` does with memory, at a match and at none.
  pub exec-some :
      (r : RegExp) (t : Text) (k n : ℕ)
      → is_stateful r ≡ true
      → r.last_index ≤ length t
      → e.find r.source r.flags t r.last_index ≡ some (k, n)
      → exec r t ≡ (some (k, n), record r { last_index = k + n })
  unfolding exec
  exec-some r t k n s le f = ground arith

  pub exec-none :
      (r : RegExp) (t : Text)
      → is_stateful r ≡ true
      → e.find r.source r.flags t r.last_index ≡ none
      → exec r t ≡ (none, record r { last_index = 0 })
  unfolding exec
  exec-none r t s f = ground arith
