-- ===== src/Prelude/Cutting.antt =====
-- Where the string methods cut a text that is put together from known pieces.
use Prim.Native.Nat.{ℕ, ◌+◌}
use mathlib.Core.Path.{◌≡◌, refl, ap, sym, ◌∙◌}
use mathlib.Core.Logic.{◌≢◌}
use mathlib.Core.Bool.{true, false}
use mathlib.Core.List.{List, [], ◌∷◌, ◌++◌, append-nil, reverse, reverse-append, reverse-reverse}
use mathlib.Core.Option.{none, some}
use native.Mathlib.Omega.{arith}
use serial_tcp_proxy.Prelude.Lists.{All, length, take, drop}
use serial_tcp_proxy.Prelude.Strings.{
  Text, is_space, includes, index_of, last_index_of, substring, split, join, drop_while, trim,
}

-- The unit stands nowhere in the text.
abbrev pub Lacks : ℕ → Text → Type 0
Lacks c = All (λ x. x ≢ c)

-- A search for a text passes over what lacks its first unit.
pub includes_skip :
    (c : ℕ) (p a b : Text) → Lacks c a → includes (a ++ b) (c ∷ p) ≡ includes b (c ∷ p)
unfolding includes
includes_skip c p [] b l = refl
includes_skip c p (x ∷ a) b l = ground (arith, includes_skip c p a b l.1)

pub includes-Lacks : (c : ℕ) (p a : Text) → Lacks c a → includes a (c ∷ p) ≡ false
unfolding includes
includes-Lacks c p [] l = refl
includes-Lacks c p (x ∷ a) l = ground (arith, includes-Lacks c p a l.1)

pub index_of_skip :
    (c : ℕ) (p a b : Text) (k : ℕ)
    → Lacks c a
    → index_of b (c ∷ p) ≡ some k
    → index_of (a ++ b) (c ∷ p) ≡ some (length a + k)
unfolding index_of
index_of_skip c p [] b k l h = h ∙ ap some (omega arith)
index_of_skip c p (x ∷ a) b k l h = ground (arith, index_of_skip c p a b k l.1 h)

last_index_of-Lacks : (c : ℕ) (b : Text) → Lacks c b → last_index_of b c ≡ none
unfolding last_index_of
last_index_of-Lacks c [] l = refl
last_index_of-Lacks c (x ∷ b) l = ground (arith, last_index_of-Lacks c b l.1)

pub last_index_of_lem :
    (c : ℕ) (a b : Text) → Lacks c b → last_index_of (a ++ c ∷ b) c ≡ some (length a)
unfolding last_index_of
last_index_of_lem c [] b l = ground (arith, last_index_of-Lacks c b l)
last_index_of_lem c (x ∷ a) b l = ground (arith, last_index_of_lem c a b l)

pub take_all {ℓ} : {A : Type ℓ} (b c : List A) → take (length b) (b ++ c) ≡ b
take_all [] c = refl
take_all (x ∷ b) c = ap (◌∷◌ x) (take_all b c)

pub drop_all {ℓ} : {A : Type ℓ} (a b : List A) → drop (length a) (a ++ b) ≡ b
drop_all [] b = refl
drop_all (x ∷ a) b = drop_all a b

-- The ends are given by equations, so that any sum may stand for them.
pub substring_lem :
    (s a b c : Text) (i j : ℕ)
    → s ≡ a ++ (b ++ c)
    → i ≡ length a
    → j ≡ length a + length b
    → substring s i j ≡ b
substring_lem s a b c i j q hi hj =
    rw (q, hi, hj)
      (ap₃ (omega arith) (omega arith) ∙ ap (take (length b)) (drop_all a (b ++ c)) ∙ take_all b c)
  where
    ap₃ :
        {m n : ℕ}
        → m ≡ length b
        → n ≡ length a
        → take m (drop n (a ++ (b ++ c))) ≡ take (length b) (drop (length a) (a ++ (b ++ c)))
    ap₃ e f = rw (e, f)

-- The first part of a split.
pub split_first : (sep : ℕ) (a b : Text) → Lacks sep a → split sep (a ++ sep ∷ b) ≡ a ∷ split sep b
unfolding split
split_first sep [] b l = ground arith
split_first sep (x ∷ a) b l = ground (arith, split_first sep a b l.1)

split-Lacks : (sep : ℕ) (a : Text) → Lacks sep a → split sep a ≡ a ∷ []
unfolding split
split-Lacks sep [] l = refl
split-Lacks sep (x ∷ a) l = ground (arith, split-Lacks sep a l.1)

-- Splitting a join gives the parts back, if there is a part and none holds the separator.
pub split-join :
    (sep : ℕ) (p : Text) (ps : List Text)
    → All (Lacks sep) (p ∷ ps)
    → split sep (join sep (p ∷ ps)) ≡ p ∷ ps
unfolding join
split-join sep p [] l = split-Lacks sep p l.0
split-join sep p (q ∷ ps) l =
    split_first sep p (join sep (q ∷ ps)) l.0 ∙ ap (◌∷◌ p) (split-join sep q ps l.1)

drop_while_blank :
    (s t rest : Text) (x : ℕ)
    → s ≡ x ∷ t
    → is_space x ≡ false
    → drop_while is_space (b' ' ∷ (s ++ rest)) ≡ s ++ rest
unfolding drop_while
drop_while_blank s t rest x p hx = rw p (rw (blank, hx))
  where
    blank : is_space b' ' ≡ true
    blank = unfold is_space in refl

-- `trim` takes one blank off both ends of a text that begins and ends with something else.
pub trim_lem :
    (s a : Text) (x y : ℕ) (t : Text)
    → s ≡ x ∷ t
    → s ≡ a ++ y ∷ []
    → is_space x ≡ false
    → is_space y ≡ false
    → trim (b' ' ∷ (s ++ b' ' ∷ [])) ≡ s
unfolding trim
trim_lem s a x y t p q hx hy =
    let back : reverse s ≡ y ∷ reverse a = rw q (reverse-append a (y ∷ [])) in
    let turned : reverse (s ++ b' ' ∷ []) ≡ b' ' ∷ (reverse s ++ []) =
      reverse-append s (b' ' ∷ []) ∙ ap (◌∷◌ b' ') (sym (append-nil (reverse s))) in
    ap (λ u. reverse (drop_while is_space (reverse u))) (drop_while_blank s t (b' ' ∷ []) x p hx)
    ∙ ap (λ u. reverse (drop_while is_space u)) turned
    ∙ ap reverse (drop_while_blank (reverse s) (reverse a) [] y back hy)
    ∙ ap reverse (append-nil (reverse s))
    ∙ reverse-reverse s
