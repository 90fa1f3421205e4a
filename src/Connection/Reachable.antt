-- ===== src/Connection/Reachable.antt =====
-- The connection of internal/web/static/app.js after every sequence of callbacks.
use serial_tcp_proxy.Prelude.{
  ℕ, zero, suc, ◌+◌, ◌-◌, ◌*◌, ◌^◌, ◌≤◌, ◌<◌, ◌≡◌, refl, Bool, true, false, ltb, Bool-cases, inl,
  inr, arith,
}
use serial_tcp_proxy.Ui.Status.{StatusView}
use serial_tcp_proxy.Connection.{
  Channel, socket, waiting, event_source, Badge, by_page, by_server, Connection, show_status,
  fetch_answered, fetch_failed, max_attempts, reconnect_delay, connect_socket, socket_closed,
  source_opened, source_failed, Step, opened, closed, timer, reported, streaming, stream_lost,
  stream_reported, fetched, not_fetched, Steps, done, more,
}

-- The page said that there is no connection, or since then the answer to the first request came.
pub data WaitingBadge : Badge → Bool → Type 0 where
  says_none : (is_fetching : Bool) → WaitingBadge (by_page false) is_fetching
  says_answer : (view : StatusView) → WaitingBadge (by_server view) false

-- What holds on each channel. A delay belongs to the attempt before.
abbrev pub ChannelHolds : Channel → ℕ → Badge → Bool → Type 0
ChannelHolds (socket false) n badge is_fetching = Unit
ChannelHolds (socket true) n badge is_fetching = n ≡ 0
ChannelHolds (waiting delay) n badge is_fetching =
    (1 ≤ n) × (delay ≡ 1000 * 2 ^ (n - 1)) × WaitingBadge badge is_fetching
ChannelHolds event_source n badge is_fetching = n ≡ max_attempts

pub record IsSound (c : Connection) : Type 0 where
  pub attempts_bound : c.attempts ≤ max_attempts
  pub on_channel : ChannelHolds c.channel c.attempts c.badge c.is_fetching

-- The answer to the first request may come on every channel.
answered :
    (ch : Channel) (n : ℕ) (badge : Badge) (view : StatusView)
    → ChannelHolds ch n badge true
    → ChannelHolds ch n (by_server view) false
answered (socket false) n badge view h = tt
answered (socket true) n badge view h = h
answered (waiting delay) n badge view h = (h.0, h.1, says_answer view)
answered event_source n badge view h = h

stays : (c d : Connection) → c.channel ≡ event_source → Step c d → d.channel ≡ event_source
unfolding source_opened source_failed show_status fetch_answered fetch_failed
stays c _ e (opened _ q) = absurd (cc)
stays c _ e (closed _ is_open q) = absurd (cc)
stays c _ e (timer _ delay q) = absurd (cc)
stays c _ e (reported _ report q) = absurd (cc)
stays c _ e (streaming _ q) = e
stays c _ e (stream_lost _ q) = e
stays c _ e (stream_reported _ report q) = e
stays c _ e (fetched _ report q) = e
stays c _ e (not_fetched _ q) = e

-- The page stays with the event stream once it has one: no callback opens a WebSocket again.
event_source-stays :
    (c d : Connection) → c.channel ≡ event_source → Steps c d → d.channel ≡ event_source
event_source-stays c _ e (done _) = e
event_source-stays c d e (more _ b _ steps last) = stays b d (event_source-stays c b e steps) last

-- The socket closes, and the timer that this sets fires, `n` times.
abbrev pub failures : ℕ → Connection → Connection
failures zero c = c
failures (suc n) c = failures n (connect_socket (socket_closed c))

closed_again :
    (c : Connection) (is_open : Bool)
    → c.attempts < max_attempts
    → c.channel ≡ socket is_open
    → ((connect_socket (socket_closed c)).attempts ≡ c.attempts + 1)
      × Steps c (connect_socket (socket_closed c))
unfolding socket_closed
closed_again c is_open h q = elim (Bool-cases (ltb c.attempts max_attempts)) [
  | inl t ↦ (
    rw (t, socket_closed) refl,
    more c (socket_closed c) _ (more c c _ (done c) (closed c is_open q))
        (timer (socket_closed c) (reconnect_delay c.attempts) (rw (t, socket_closed) refl)),
  )
  | inr f ↦ absurd (ground arith)
]

append_steps : (a b c : Connection) → Steps a b → Steps b c → Steps a c
append_steps a b _ x (done _) = x
append_steps a b c x (more _ d _ y last) = more a d c (append_steps a b d x y) last

last_failure :
    (c : Connection) → c.attempts ≡ max_attempts → (socket_closed c).channel ≡ event_source
unfolding socket_closed
last_failure c h = rw h refl

-- If every socket that the page opens from now on closes without having been open, then after the
-- attempts that are left the page has an event stream.
pub failures-fall_back :
    (n : ℕ) (c : Connection) (is_open : Bool)
    → c.attempts + n ≡ max_attempts
    → c.channel ≡ socket is_open
    → Steps c (socket_closed (failures n c))
      × ((socket_closed (failures n c)).channel ≡ event_source)
failures-fall_back zero c is_open h q =
    (more c c _ (done c) (closed c is_open q), last_failure c (omega arith))
failures-fall_back (suc n) c is_open h q =
    let (counted, steps) = closed_again c is_open (omega arith) q in
    let (rest, last) =
      failures-fall_back n (connect_socket (socket_closed c)) false (omega (arith, counted)) refl in
    (append_steps c _ _ steps rest, last)
