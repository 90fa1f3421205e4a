-- ===== src/Packets/Sorted.antt =====
-- The order of the rows under the headers of internal/web/static/modules/packets.js that name a field.
use mathlib.Core.List.{Perm}
use mathlib.Core.List.Perm
use serial_tcp_proxy.Prelude.{
  ◌≡◌, refl, sym, subst, arith, Bool, true, false, List, [], ◌∷◌, Text, codes, All, inl, inr,
  Bool-cases, some,
}
use serial_tcp_proxy.Packets.Sort.{
  text_lt, Order, asc, desc, goes_after, insert_stable, sort_stable,
}
use serial_tcp_proxy.Packets.State.{Item}
use serial_tcp_proxy.Packets.Handlers.{sort_items}

pub text_lt_asym : (s t : Text) → text_lt s t ≡ true → text_lt t s ≡ false
unfolding text_lt
text_lt_asym s [] h = absurd (cc)
text_lt_asym [] (d ∷ t) h = refl
text_lt_asym (c ∷ s) (d ∷ t) h = ground (arith, text_lt_asym s t)

-- "Not below" passes on.
text_lt_trans : (s t u : Text) → text_lt t s ≡ false → text_lt u t ≡ false → text_lt u s ≡ false
unfolding text_lt
text_lt_trans [] t u p q = ground arith
text_lt_trans (c ∷ s) [] u p q = absurd (cc)
text_lt_trans (c ∷ s) (d ∷ t) [] p q = absurd (cc)
text_lt_trans (c ∷ s) (d ∷ t) (x ∷ u) p q = ground (arith, text_lt_trans s t u)

module _ {A : Type 0} (after : A → A → Bool) where
  -- No item of the list goes behind one that follows it.
  abbrev pub IsOrdered : List A → Type 0
  IsOrdered [] = Unit
  IsOrdered (a ∷ l) = All (λ b. after a b ≡ false) l × IsOrdered l

  All-insert_stable :
      (P : A → Type 0) (a : A) (l : List A) → P a → All P l → All P (insert_stable after a l)
  unfolding insert_stable
  All-insert_stable P a [] p h = (p, tt)
  All-insert_stable P a (b ∷ l) p h = elim (Bool-cases (after a b)) [
    | inl t ↦ rw t (h.0, All-insert_stable P a l p h.1)
    | inr f ↦ rw f (p, h)
  ]

  module _ (asym : (a b : A) → after a b ≡ true → after b a ≡ false)
      (trans : (a b c : A) → after a b ≡ false → after b c ≡ false → after a c ≡ false) where
    after-All :
        (a b : A) (l : List A)
        → after a b ≡ false
        → All (λ c. after b c ≡ false) l
        → All (λ c. after a c ≡ false) l
    after-All a b [] p h = tt
    after-All a b (c ∷ l) p h = (trans a b c p h.0, after-All a b l p h.1)

    insert_stable-IsOrdered :
        (a : A) (l : List A) → IsOrdered l → IsOrdered (insert_stable after a l)
    unfolding insert_stable
    insert_stable-IsOrdered a [] h = (tt, tt)
    insert_stable-IsOrdered a (b ∷ l) h = elim (Bool-cases (after a b)) [
      | inl t ↦ rw t (
        All-insert_stable (λ c. after b c ≡ false) a l (asym a b t) h.0,
        insert_stable-IsOrdered a l h.1,
      )
      | inr f ↦ rw f ((f, after-All a b l f h.0), h)
    ]

    pub sort_stable-IsOrdered : (l : List A) → IsOrdered (sort_stable after l)
    unfolding sort_stable
    sort_stable-IsOrdered [] = tt
    sort_stable-IsOrdered (a ∷ l) =
        insert_stable-IsOrdered a (sort_stable after l) (sort_stable-IsOrdered l)

  insert_stable-Perm : (a : A) (l : List A) → Perm (insert_stable after a l) (a ∷ l)
  unfolding insert_stable
  insert_stable-Perm a [] = Perm.refl (a ∷ [])
  insert_stable-Perm a (b ∷ l) = elim (Bool-cases (after a b)) [
    | inl t ↦ rw t (Perm.trans (Perm.cons b (insert_stable-Perm a l)) (Perm.swap a b l))
    | inr f ↦ rw f (Perm.refl (a ∷ b ∷ l))
  ]

  pub sort_stable-Perm : (l : List A) → Perm (sort_stable after l) l
  unfolding sort_stable
  sort_stable-Perm [] = Perm.nil
  sort_stable-Perm (a ∷ l) =
      Perm.trans (insert_stable-Perm a (sort_stable after l)) (Perm.cons a (sort_stable-Perm l))

-- The headers whose fields a packet has.
pub data TextField : Text → Type 0 where
  time : TextField (codes "time")
  ascii : TextField (codes "ascii")

abbrev pub field_text : {field : Text} → TextField field → Item → Text
field_text time i = i.stored.packet.time
field_text ascii i = i.stored.packet.ascii

-- The second text belongs in front of the first.
abbrev pub misplaced : Order → Text → Text → Bool
misplaced asc s t = text_lt t s
misplaced desc s t = text_lt s t

misplaced_asym : (o : Order) (s t : Text) → misplaced o s t ≡ true → misplaced o t s ≡ false
misplaced_asym asc s t h = text_lt_asym t s h
misplaced_asym desc s t h = text_lt_asym s t h

misplaced_trans :
    (o : Order) (s t u : Text)
    → misplaced o s t ≡ false
    → misplaced o t u ≡ false
    → misplaced o s u ≡ false
misplaced_trans asc s t u p q = text_lt_trans s t u p q
misplaced_trans desc s t u p q = text_lt_trans u t s q p

sort_items-sort_stable :
    {field : Text} (f : TextField field) (o : Order) (items : List Item)
    → sort_items (some field) o items
      ≡ sort_stable (λ a b. misplaced o (field_text f a) (field_text f b)) items
unfolding sort_items goes_after
sort_items-sort_stable time asc items = refl
sort_items-sort_stable time desc items = refl
sort_items-sort_stable ascii asc items = refl
sort_items-sort_stable ascii desc items = refl

-- With the header of the time or of the ascii text chosen, in either direction, the rows are
-- those given, in another order, and no row has a text that belongs behind that of a later row.
pub sort_items-IsOrdered :
    {field : Text} (f : TextField field) (o : Order) (items : List Item)
    → IsOrdered
        (λ a b. misplaced o (field_text f a) (field_text f b))
        (sort_items (some field) o items)
      × Perm (sort_items (some field) o items) items
sort_items-IsOrdered {field} f o items =
    let after : Item → Item → Bool = λ a b. misplaced o (field_text f a) (field_text f b) in
    let q = sym (sort_items-sort_stable f o items) in
    (
      subst (IsOrdered after) q (
          sort_stable-IsOrdered after (λ a b. misplaced_asym o (field_text f a) (field_text f b))
            (λ a b c. misplaced_trans o (field_text f a) (field_text f b) (field_text f c)) items),
      subst (λ l. Perm l items) q (sort_stable-Perm after items),
    )
