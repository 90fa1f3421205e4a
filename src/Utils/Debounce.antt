-- ===== src/Utils/Debounce.antt =====
-- `debounce` of internal/web/static/modules/utils.js: the function that is called is called later, unless
-- the next call comes before.
use serial_tcp_proxy.Prelude.{
  Bool, true, false, ℕ, ◌+◌, ◌≡◌, refl, ap, sym, ◌∙◌, Option, none, some, List, [], ◌∷◌, ◌++◌,
  append-nil, append_assoc, leb, if◌then◌else◌, arith,
}

-- The timer has the time when it is due and the arguments of the call that set it; `calls` are those
-- of `func`, in their order.
pub record Debounced (A : Type 0) : Type 0 where
  pub now : ℕ
  pub timeout : Option (ℕ × A)
  pub calls : List A

abbrev pub idle : {A : Type 0} → Debounced A
idle = record { now = 0; timeout = none; calls = [] }

module _ {A : Type 0} where
  -- `executedFunction`: the timer that runs is cleared, and another one set.
  unfoldable pub executed : ℕ → A → Debounced A → Debounced A
  executed wait a s = record s { timeout = some (s.now + wait, a) }

  -- Time passes, and the timer that is due calls `later`.
  unfoldable pub elapse : ℕ → Debounced A → Debounced A
  elapse t s = elim s.timeout [
    | none ↦ record s { now = s.now + t }
    | some (due, a) ↦
        if leb due (s.now + t)
        then record s { now = s.now + t; timeout = none; calls = s.calls ++ a ∷ [] }
        else record s { now = s.now + t }
  ]

  -- Calls, each with the time that passes until the next one, or after the last.
  unfoldable pub call_all : ℕ → List (A × ℕ) → Debounced A → Debounced A
  unfolding executed elapse
  call_all wait [] s = s
  call_all wait ((a, gap) ∷ calls) s = call_all wait calls (elapse gap (executed wait a s))

  -- The calls that the next one leaves enough time.
  abbrev pub settled : ℕ → List (A × ℕ) → List A
  settled wait [] = []
  settled wait ((a, gap) ∷ calls) =
      let rest = settled wait calls in if leb wait gap then a ∷ rest else rest

  if_calls :
      (b : Bool) (s : Debounced A) (a : A) (now : ℕ) (timer : Option (ℕ × A))
      → (if b
          then record s { now = now; timeout = none; calls = s.calls ++ a ∷ [] }
          else record s { now = now; timeout = timer }).calls
        ≡ (if b then s.calls ++ a ∷ [] else s.calls)
  if_calls true s a now timer = refl
  if_calls false s a now timer = refl

  pub called :
      (wait : ℕ) (a : A) (gap : ℕ) (s : Debounced A)
      → (elapse gap (executed wait a s)).calls
        ≡ (if leb wait gap then s.calls ++ a ∷ [] else s.calls)
  unfolding elapse executed
  called wait a gap s =
      ap
        (λ b.
          (if b
            then record s { now = s.now + gap; timeout = none; calls = s.calls ++ a ∷ [] }
            else record s { now = s.now + gap; timeout = some (s.now + wait, a) }).calls)
        same
      ∙ if_calls (leb wait gap) s a _ _
    where
      same : leb (s.now + wait) (s.now + gap) ≡ leb wait gap
      same = ground arith

  settled_next :
      (b : Bool) (a : A) (before rest : List A)
      → (if b then before ++ a ∷ [] else before) ++ rest ≡ before ++ (if b then a ∷ rest else rest)
  settled_next true a before rest = append_assoc before (a ∷ []) rest
  settled_next false a before rest = refl

  -- Of the calls, exactly those reach the function, in their order, after which there is no other for the
  -- waiting time.
  pub call_all-settled :
      (wait : ℕ) (calls : List (A × ℕ)) (s : Debounced A)
      → (call_all wait calls s).calls ≡ s.calls ++ settled wait calls
  unfolding call_all
  call_all-settled wait [] s = sym (append-nil s.calls)
  call_all-settled wait ((a, gap) ∷ calls) s =
      call_all-settled wait calls (elapse gap (executed wait a s))
      ∙ ap (λ l. l ++ settled wait calls) (called wait a gap s)
      ∙ settled_next (leb wait gap) a s.calls (settled wait calls)
