-- ===== src/Packets/Sort.antt =====
-- The sorting of `renderPackets` in internal/web/static/modules/packets.js.
use Prim.Native.Nat.{Ordering, compare}
use serial_tcp_proxy.Prelude.{
  suc, ◌≡◌, refl, ap, ◌∙◌, length, arith, Bool, true, false, List, [], ◌∷◌, Text, codes, text_eq,
  ltb, if◌then◌else◌,
}
use serial_tcp_proxy.Filter.{Packet}
use serial_tcp_proxy.Filter.Match.{Number, nan, natural, negative, parse_int}

-- `a < b` on strings: by code units.
unfoldable pub text_lt : Text → Text → Bool
text_lt s [] = false
text_lt [] (d ∷ t) = true
text_lt (c ∷ s) (d ∷ t) =
    let rest = text_lt s t in
    elim (compare c d) [ Ordering.lt ↦ true | Ordering.eq ↦ rest | Ordering.gt ↦ false ]

-- `a < b` on numbers.
unfoldable pub number_lt : Number → Number → Bool
number_lt (natural a) (natural b) = ltb a b
number_lt (negative a) (natural b) = true
number_lt (negative a) (negative b) = ltb b a
number_lt _ _ = false

-- What a property access finds: a text, a number, or `undefined`.
pub data Value : Type 0 where
  undefined : Value
  text : Text → Value
  number : Number → Value

-- `a < b`; with `undefined` on a side it is false, and the two kinds never meet here.
unfoldable pub value_lt : Value → Value → Bool
unfolding text_lt number_lt
value_lt (text s) (text t) = text_lt s t
value_lt (number a) (number b) = number_lt a b
value_lt _ _ = false

-- `packet[field]`
unfoldable pub property : Text → Packet → Value
property field p =
    if text_eq field (codes "time")
    then text p.time
    else if text_eq field (codes "direction")
    then text p.direction
    else if text_eq field (codes "length")
    then text p.length
    else if text_eq field (codes "hexRaw")
    then text p.hex_raw
    else if text_eq field (codes "hexFormatted")
    then text p.hex_formatted
    else if text_eq field (codes "ascii")
    then text p.ascii
    else undefined

abbrev pub as_number : Value → Value
as_number (text s) = number (parse_int s)
as_number v = number nan

-- `parseInt` of the value, for the field `length`.
unfoldable pub sort_value : Text → Packet → Value
unfolding property parse_int
sort_value field p =
    if text_eq field (codes "length") then as_number (property field p) else property field p

pub data Order : Type 0 where
  asc desc : Order

abbrev pub flip : Order → Order
flip asc = desc
flip desc = asc

-- Whether the comparator puts the packet `b` in front of `a`, that is, returns a positive number.
unfoldable pub goes_after : Text → Order → Packet → Packet → Bool
unfolding sort_value value_lt
goes_after field asc a b = value_lt (sort_value field b) (sort_value field a)
goes_after field desc a b = value_lt (sort_value field a) (sort_value field b)

module _ {ℓ} {A : Type ℓ} (after : A → A → Bool) where
  -- `Array.prototype.sort`, which is stable: an item moves behind those that it goes after.
  unfoldable pub insert_stable : A → List A → List A
  insert_stable a [] = a ∷ []
  insert_stable a (b ∷ l) =
      let rest = insert_stable a l in if after a b then b ∷ rest else a ∷ b ∷ l

  unfoldable pub sort_stable : List A → List A
  unfolding insert_stable
  sort_stable [] = []
  sort_stable (a ∷ l) = insert_stable a (sort_stable l)

  length-insert_stable : (a : A) (l : List A) → length (insert_stable a l) ≡ suc (length l)
  unfolding insert_stable
  length-insert_stable a [] = refl
  length-insert_stable a (b ∷ l) = ground (arith, length-insert_stable a l)

  pub length-sort_stable : (l : List A) → length (sort_stable l) ≡ length l
  unfolding sort_stable
  length-sort_stable [] = refl
  length-sort_stable (a ∷ l) =
      length-insert_stable a (sort_stable l) ∙ ap suc (length-sort_stable l)

  -- A comparator that never asks for a change leaves the list as it is.
  pub sort_stable_idle : ((a b : A) → after a b ≡ false) → (l : List A) → sort_stable l ≡ l
  unfolding sort_stable
  sort_stable_idle h [] = refl
  sort_stable_idle h (a ∷ []) = refl
  sort_stable_idle h (a ∷ b ∷ l) = ap (insert_stable a) (sort_stable_idle h (b ∷ l)) ∙ rw (h a b)
