-- ===== src/Injection.antt =====
-- The form that sends a packet, internal/web/static/modules/injection.js.
use serial_tcp_proxy.Prelude.{
  ℕ, ◌+◌, ◌-◌, ◌≡◌, refl, Bool, true, false, not, Option, none, some, List, [], ◌∷◌, ◌++◌, Text,
  codes, trim, All,
}

-- `pending` are the timers that run, each with the `originalText` that it will write; they all wait
-- for a second, so that they fire in the order in which they were set. `sending` are the requests
-- without an answer.
pub record Injection : Type 0 where
  pub is_panel_shown : Bool
  pub is_toggle_active : Bool
  pub button_text : Text
  pub is_success : Bool
  pub pending : List Text
  pub sending : ℕ
  pub alerts : List Text

abbrev pub sent : Text
sent = codes "Sent!"

-- The listener of `toggleInjectBtn`.
unfoldable pub toggle_panel : Injection → Injection
toggle_panel s = record s {
  is_panel_shown = not s.is_panel_shown;
  is_toggle_active = not s.is_panel_shown;
}

abbrev pub alert : Text → Injection → Injection
alert message s = record s { alerts = s.alerts ++ message ∷ [] }

-- The request, or the complaint that there is nothing to send.
abbrev pub post : Text → Injection → Injection
post [] s = alert (codes "Please enter data to send") s
post (c ∷ text) s = record s { sending = s.sending + 1 }

-- The listener of `sendPacketBtn`, until it waits for the answer.
unfoldable pub send_clicked : Text → Injection → Injection
send_clicked input s = post (trim input) s

-- The answer: a success, or a message of what went wrong.
unfoldable pub answered : Option Text → Injection → Injection
answered none s = record s {
  sending = s.sending - 1;
  button_text = sent;
  is_success = true;
  pending = s.pending ++ s.button_text ∷ [];
}
answered (some message) s =
    alert (codes "Failed to send packet: " ++ message) (record s { sending = s.sending - 1 })

abbrev pub restore : List Text → Injection → Injection
restore [] s = s
restore (text ∷ texts) s = record s { button_text = text; is_success = false; pending = texts }

-- The first of the timers fires.
unfoldable pub timer_fires : Injection → Injection
timer_fires s = restore s.pending s

pub data InjectionEvent : Type 0 where
  toggled : InjectionEvent
  send : Text → InjectionEvent
  answer : Option Text → InjectionEvent
  fire : InjectionEvent

unfoldable pub injection_step : InjectionEvent → Injection → Injection
unfolding toggle_panel send_clicked answered timer_fires
injection_step toggled s = toggle_panel s
injection_step (send input) s = send_clicked input s
injection_step (answer result) s = answered result s
injection_step fire s = timer_fires s

unfoldable pub injection_run : List InjectionEvent → Injection → Injection
unfolding injection_step
injection_run [] s = s
injection_run (e ∷ events) s = injection_run events (injection_step e s)

-- The button says that something was sent, and so will every timer make it say.
abbrev IsStuck : Injection → Type 0
IsStuck s = (s.button_text ≡ sent) × All (λ text. text ≡ sent) s.pending

stuck_snoc :
    (l : List Text) (t : Text)
    → t ≡ sent
    → All (λ text. text ≡ sent) l
    → All (λ text. text ≡ sent) (l ++ t ∷ [])
stuck_snoc [] t q h = (q, tt)
stuck_snoc (x ∷ l) t q h = (h.0, stuck_snoc l t q h.1)

restore-IsStuck :
    (texts : List Text) (s : Injection)
    → IsStuck s
    → All (λ text. text ≡ sent) texts
    → IsStuck (restore texts s)
restore-IsStuck [] s v h = v
restore-IsStuck (t ∷ texts) s v h = (h.0, h.1)

post-IsStuck : (text : Text) (s : Injection) → IsStuck s → IsStuck (post text s)
post-IsStuck [] s v = v
post-IsStuck (c ∷ text) s v = v

step-IsStuck : (e : InjectionEvent) (s : Injection) → IsStuck s → IsStuck (injection_step e s)
unfolding injection_step toggle_panel send_clicked answered timer_fires
step-IsStuck toggled s v = v
step-IsStuck (send input) s v = post-IsStuck (trim input) s v
step-IsStuck (answer none) s v = (refl, stuck_snoc s.pending s.button_text v.0 v.1)
step-IsStuck (answer (some message)) s v = v
step-IsStuck fire s v = restore-IsStuck s.pending s v v.1

run-IsStuck :
    (events : List InjectionEvent) (s : Injection) → IsStuck s → IsStuck (injection_run events s)
unfolding injection_run
run-IsStuck [] s v = v
run-IsStuck (e ∷ events) s v = run-IsStuck events (injection_step e s) (step-IsStuck e s v)

-- Two successes with no timer running before, and then both timers: the button says "Sent!" from
-- then on, after everything that happens later.
pub sent_for_good :
    (s : Injection) (events : List InjectionEvent)
    → s.pending ≡ []
    → let twice = answer none ∷ answer none ∷ fire ∷ fire ∷ [] in
      (injection_run events (injection_run twice s)).button_text ≡ sent
unfolding injection_run injection_step answered timer_fires
sent_for_good s events none_pending =
    let twice = answer none ∷ answer none ∷ fire ∷ fire ∷ [] in
    let stuck : IsStuck (injection_run twice s) = rw none_pending (refl, tt) in
    (run-IsStuck events (injection_run twice s) stuck).0
