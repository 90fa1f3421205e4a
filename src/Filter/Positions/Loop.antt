-- ===== src/Filter/Positions/Loop.antt =====
-- The text loops of `findMatchPositions` in internal/web/static/modules/filter.js, and the bytes that
-- an occurrence touches.
use serial_tcp_proxy.Prelude.{
  ℕ, zero, suc, ◌+◌, ◌*◌, ◌-◌, ◌≤◌, ◌<◌, min, ◌≡◌, ◌≢◌, ◌↔◌, ◌⊎◌, inl, inr, true, false, ◌&&◌, ◌||◌,
  none, some, List, [], ◌∷◌, Text, index_of, starts_with, index_of-some, index_of-none, length,
  length-drop, drop, drop-drop, starts_with_past, ltb→lt, sym, member, Member, Member-append,
  Distinct, Distinct-snoc, Bool-cases, Option-cases, ==_iff, leb, ltb, ◌==◌, arith,
}
use serial_tcp_proxy.Filter.Positions.{
  index_from, push_new, push_bytes, mark, byte_start, byte_end, scan,
}

-- A digit of the byte `j`, that is, `2 * j` or the one behind it, is part of a match of `n` digits
-- at the digit `k`.
abbrev pub Touches : ℕ → ℕ → ℕ → Type 0
Touches k n j = (k < 2 * j + 2) × (2 * j < k + n)

-- A digit of the byte `j` is part of an occurrence of the needle at or behind the digit `pos`.
abbrev pub TouchedFrom : Text → Text → ℕ → ℕ → Type 0
TouchedFrom hex needle pos j =
    (k : ℕ) × (pos ≤ k)
    × (starts_with needle (drop k hex) ≡ true)
    × (k < 2 * j + 2)
    × (2 * j < k + length needle)

member-push_bytes :
    (count i j : ℕ) (l : List ℕ)
    → member j (push_bytes count i l) ≡ (member j l || (leb i j && ltb j (i + count)))
unfolding push_bytes
member-push_bytes zero i j l = ground arith
member-push_bytes (suc count) i j l =
    ground (arith, member-push_bytes count (i + 1) j (push_new i l), Member-append j l (i ∷ []))

push_bytes-Distinct : (count i : ℕ) (l : List ℕ) → Distinct l → Distinct (push_bytes count i l)
unfolding push_bytes
push_bytes-Distinct zero i l d = d
push_bytes-Distinct (suc count) i l d =
    push_bytes-Distinct count (i + 1) (push_new i l) (ground (arith, Distinct-snoc i l d))

pub mark-Distinct : (k n : ℕ) (l : List ℕ) → Distinct l → Distinct (mark k n l)
unfolding mark
mark-Distinct k n l d = push_bytes-Distinct (byte_end k n - byte_start k) (byte_start k) l d

pub mark-Member : (k n j : ℕ) (l : List ℕ) → Member j (mark k n l) ↔ (Member j l ⊎ Touches k n j)
unfolding mark
mark-Member k n j l =
    let e = member-push_bytes (byte_end k n - byte_start k) (byte_start k) j l in
    (λ h. ground (arith, e), λ h. ground (arith, e))

index_from-some :
    (hex needle : Text) (pos k : ℕ)
    → needle ≢ []
    → pos ≤ length hex
    → index_from hex needle pos ≡ some k
    → (pos ≤ k)
      × (k < length hex)
      × (starts_with needle (drop k hex) ≡ true)
      × ((j : ℕ) → pos ≤ j → j < k → starts_with needle (drop j hex) ≡ false)
unfolding index_from
index_from-some hex needle pos k h le e = elim (Option-cases (index_of (drop pos hex) needle)) [
  | inl n ↦ absurd (ground (arith, start))
  | inr (i, s) ↦
      let sum : k ≡ pos + i = ground (arith, start) in
      let (found, before) = index_of-some (drop pos hex) needle i s in
      let at : starts_with needle (drop k hex) ≡ true =
        rw (drop-drop i pos k hex (sym sum)) at found in
      (
        omega arith,
        inside at,
        at,
        λ j from lt.
            rw (drop-drop (j - pos) pos j hex (omega arith)) at (before (j - pos) (omega arith)),
      )
]
  where
    start : min pos (length hex) ≡ pos
    start = omega arith

    inside : starts_with needle (drop k hex) ≡ true → k < length hex
    inside at = elim (Bool-cases (ltb k (length hex))) [
      | inl lt ↦ ltb→lt _ _ lt
      | inr ge ↦ absurd (ground (arith, starts_with_past hex needle k h))
    ]

index_from-none :
    (hex needle : Text) (pos j : ℕ)
    → needle ≢ []
    → index_from hex needle pos ≡ none
    → pos ≤ j
    → starts_with needle (drop j hex) ≡ false
unfolding index_from
index_from-none hex needle pos j h e le = elim (Bool-cases (ltb j (length hex))) [
  | inr ge ↦ starts_with_past hex needle j h (ground arith)
  | inl lt ↦
      let start : min pos (length hex) ≡ pos = ground arith in
      let none_there : index_of (drop pos hex) needle ≡ none =
        ground (arith, start, Option-cases (index_of (drop pos hex) needle)) in
      rw (drop-drop (j - pos) pos j hex (ground arith)) at (
        index_of-none (drop pos hex) needle (j - pos) none_there
          (ground (arith, length-drop pos hex)))
]

-- What the loop leaves: the bytes that were there, and those that an occurrence touches.
abbrev pub Collects : Text → Text → ℕ → List ℕ → List ℕ → Type 0
Collects hex needle pos before after =
    ((j : ℕ) → Member j after ↔ (Member j before ⊎ TouchedFrom hex needle pos j))
    × (Distinct before → Distinct after)

Collects-none :
    (hex needle : Text) (pos : ℕ) (l : List ℕ)
    → needle ≢ []
    → index_from hex needle pos ≡ none
    → Collects hex needle pos l l
Collects-none hex needle pos l h e = (λ j. (inl, kept j), λ d. d)
  where
    kept : (j : ℕ) → (Member j l ⊎ TouchedFrom hex needle pos j) → Member j l
    kept j (inl m) = m
    kept j (inr t) = ground (arith, index_from-none hex needle pos t.0 h e t.1)

Collects-some :
    (hex needle : Text) (pos k : ℕ) (l r : List ℕ)
    → needle ≢ []
    → pos ≤ length hex
    → index_from hex needle pos ≡ some k
    → Collects hex needle (k + 1) (mark k (length needle) l) r
    → Collects hex needle pos l r
Collects-some hex needle pos k l r h le e (members, distinct) =
    (λ j. (forth j, back j), λ d. distinct (mark-Distinct k (length needle) l d))
  where
    here :
        (pos ≤ k)
        × (k < length hex)
        × (starts_with needle (drop k hex) ≡ true)
        × ((j : ℕ) → pos ≤ j → j < k → starts_with needle (drop j hex) ≡ false)
    here = index_from-some hex needle pos k h le e

    marked :
        (j : ℕ) → Member j (mark k (length needle) l) → (Member j l ⊎ TouchedFrom hex needle pos j)
    marked j m = elim ((mark-Member k (length needle) j l).0 m) [
      | inl old ↦ inl old
      | inr (lo, hi) ↦ inr (k, here.0, here.2, lo, hi)
    ]

    forth : (j : ℕ) → Member j r → (Member j l ⊎ TouchedFrom hex needle pos j)
    forth j m = elim ((members j).0 m) [
      | inl now ↦ marked j now
      | inr (i, from, at, lo, hi) ↦ inr (i, ground (arith, here), at, lo, hi)
    ]

    later :
        (j i : ℕ)
        → pos ≤ i
        → starts_with needle (drop i hex) ≡ true
        → Touches i (length needle) j
        → Member j (mark k (length needle) l) ⊎ TouchedFrom hex needle (k + 1) j
    later j i from at t = elim (Bool-cases (ltb i k)) [
      | inl lt ↦ absurd (ground (arith, here.3 i from (ltb→lt i k lt)))
      | inr ge ↦ elim (Bool-cases (i == k)) [
        | inl same ↦
            let q : i ≡ k = (==_iff i k).0 same in
            inl ((mark-Member k (length needle) j l).1 (inr (rw q at t)))
        | inr more ↦ inr (i, ground arith, at, t.0, t.1)
      ]
    ]

    back : (j : ℕ) → (Member j l ⊎ TouchedFrom hex needle pos j) → Member j r
    back j (inl m) = (members j).1 (inl ((mark-Member k (length needle) j l).1 (inl m)))
    back j (inr t) = (members j).1 (later j t.0 t.1 t.2 (t.3, t.4))

-- With a round left for each digit, the loop ends.
pub scan_total :
    (fuel : ℕ) (hex needle : Text) (pos : ℕ) (l : List ℕ)
    → needle ≢ []
    → pos ≤ length hex
    → length hex < fuel + pos
    → (r : List ℕ) × (scan fuel hex needle pos l ≡ some r) × Collects hex needle pos l r
unfolding scan
scan_total zero hex needle pos l h le f = absurd (omega arith)
scan_total (suc fuel) hex needle pos l h le f = elim (Option-cases (index_from hex needle pos)) [
  | inl e ↦ (l, rw (e, scan), Collects-none hex needle pos l h e)
  | inr (k, e) ↦
      let (from, inside, _, _) = index_from-some hex needle pos k h le e in
      let (r, runs, c) =
        scan_total fuel hex needle (k + 1) (mark k (length needle) l) h (omega arith)
          (omega arith) in
      (r, rw (e, scan) runs, Collects-some hex needle pos k l r h le e c)
]
