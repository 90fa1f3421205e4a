-- ===== src/Clients/Reachable.antt =====
-- The interval of internal/web/static/modules/clients.js after every sequence of events.
use serial_tcp_proxy.Prelude.{
  ℕ, ◌≡◌, refl, ap, sym, ◌∙◌, subst, Bool, true, false, Option, none, some, List, [], ◌∷◌, Text,
  is_some, if◌then◌else◌, Option-cases, inl, inr, arith,
}
use serial_tcp_proxy.Clients.{
  Dialog, fetched, open_modal, clear_interval, close_modal, escape_pressed, confirmed, disconnected,
  start, Step, card_clicked, closed, escaped, ticked, answered, asked, post_answered, Steps, done,
  more,
}

-- The one timer that is remembered, if there is one.
abbrev pub remembered : Option ℕ → List ℕ
remembered none = []
remembered (some id) = id ∷ []

pub record IsSound (d : Dialog) : Type 0 where
  pub timers : d.timers ≡ remembered d.refresh
  pub while_open : is_some d.refresh ≡ d.is_open
  pub shown : d.is_shown ≡ d.is_open

none-remembered : (o : Option ℕ) → is_some o ≡ false → remembered o ≡ []
none-remembered none h = refl
none-remembered (some id) h = absurd (cc)

opened-IsSound : (d : Dialog) → IsSound d → d.is_shown ≡ false → IsSound (open_modal d)
unfolding open_modal
opened-IsSound d v h = record {
  timers =
      ap (λ l. d.next_timer ∷ l)
        (v.timers ∙ none-remembered d.refresh (v.while_open ∙ sym v.shown ∙ h));
  while_open = refl;
  shown = refl;
}

cleared_alone : (id : ℕ) → clear_interval id (id ∷ []) ≡ []
cleared_alone id = ground arith

closed-IsSound : (d : Dialog) → IsSound d → IsSound (close_modal d)
unfolding close_modal
closed-IsSound d v = elim (Option-cases d.refresh) [
  | inl n ↦
      subst IsSound (sym (closes n))
        (record { timers = v.timers; while_open = ap is_some n; shown = refl })
  | inr (id, q) ↦ subst IsSound (sym (closes q)) (record {
    timers = ap (clear_interval id) (v.timers ∙ ap remembered q) ∙ cleared_alone id;
    while_open = refl;
    shown = refl;
  })
]
  where
    closes :
        {o : Option ℕ}
        → d.refresh ≡ o
        → close_modal d ≡ (elim o [
          | none ↦ record d { is_open = false; is_shown = false }
          | some id ↦ record d {
            is_open = false;
            is_shown = false;
            timers = clear_interval id d.timers;
            refresh = none;
          }
        ])
    closes q =
        ap
          (λ o. elim o [
            | none ↦ record d { is_open = false; is_shown = false }
            | some id ↦ record d {
              is_open = false;
              is_shown = false;
              timers = clear_interval id d.timers;
              refresh = none;
            }
          ])
          q

-- Events that leave the interval as it is.
other-IsSound :
    (d d' : Dialog)
    → IsSound d
    → d'.timers ≡ d.timers
    → d'.refresh ≡ d.refresh
    → d'.is_open ≡ d.is_open
    → d'.is_shown ≡ d.is_shown
    → IsSound d'
other-IsSound d d' v t r o s = record {
  timers = t ∙ v.timers ∙ ap remembered (sym r);
  while_open = ap is_some r ∙ v.while_open ∙ sym o;
  shown = s ∙ v.shown ∙ sym o;
}

escaped_if : {d d' : Dialog} (b : Bool) → IsSound d → IsSound d' → IsSound (if b then d else d')
escaped_if true v w = v
escaped_if false v w = w

step-IsSound : (local : ℕ → Text) (d d' : Dialog) → IsSound d → Step local d d' → IsSound d'
unfolding escape_pressed fetched confirmed disconnected
step-IsSound local d _ v (card_clicked _ h) = opened-IsSound d v h
step-IsSound local d _ v (closed _ h) = closed-IsSound d v
step-IsSound local d _ v (escaped _) = escaped_if d.is_open (closed-IsSound d v) v
step-IsSound local d _ v (ticked _ id h) = other-IsSound d _ v refl refl refl refl
step-IsSound local d _ v (answered _ now none h) = other-IsSound d _ v refl refl refl refl
step-IsSound local d _ v (answered _ now (some report) h) = other-IsSound d _ v refl refl refl refl
step-IsSound local d _ v (asked _ true h) = other-IsSound d _ v refl refl refl refl
step-IsSound local d _ v (asked _ false h) = v
step-IsSound local d _ v (post_answered _ none h) = other-IsSound d _ v refl refl refl refl
step-IsSound local d _ v (post_answered _ (some message) h) =
    other-IsSound d _ v refl refl refl refl

-- After every sequence of events since the page was loaded, exactly one timer runs while the
-- dialog of the clients is open, the one that is remembered, and none when it is closed; and the
-- dialog is shown exactly while it is open.
pub interval-IsSound : (local : ℕ → Text) (d : Dialog) → Steps local start d → IsSound d
interval-IsSound local d (done _) = record { timers = refl; while_open = refl; shown = refl }
interval-IsSound local d (more _ b _ steps last) =
    step-IsSound local b d (interval-IsSound local b steps) last
