-- ===== src/Connection.antt =====
-- The connection of internal/web/static/app.js to the server: a WebSocket that is opened again after
-- a growing delay, and an event stream when that has failed too often.
pub mod Reachable
use serial_tcp_proxy.Prelude.{
  ℕ, zero, suc, ◌+◌, ◌*◌, ◌^◌, ◌≡◌, min, Bool, true, false, Text, codes, ltb, if◌then◌else◌,
}
use serial_tcp_proxy.Ui.Status.{Status, StatusView, update_status}

-- What the page has: a socket, which is open or not yet, a timer that will open one, or an event
-- stream.
pub data Channel : Type 0 where
  socket : Bool → Channel
  waiting : ℕ → Channel
  event_source : Channel

-- The badge `connection-status`, by who wrote it last: the markup of index.html,
-- `setConnectionStatus` or `updateStatus`.
pub data Badge : Type 0 where
  by_markup : Badge
  by_page : Bool → Badge
  by_server : StatusView → Badge

-- Whether the badge has the class `connected`, and its text.
abbrev pub says_connected : Badge → Bool
says_connected by_markup = false
says_connected (by_page connected) = connected
says_connected (by_server view) = view.is_connected

abbrev pub badge_text : Badge → Text
badge_text by_markup = codes "Connecting..."
badge_text (by_page connected) = if connected then codes "Connected" else codes "Disconnected"
badge_text (by_server view) = view.badge

-- `is_fetching` says that the first request for the status has no answer yet.
pub record Connection : Type 0 where
  pub channel : Channel
  pub attempts : ℕ
  pub badge : Badge
  pub is_fetching : Bool

abbrev pub set_connection_status : Bool → Connection → Connection
set_connection_status connected c = record c { badge = by_page connected }

-- `updateStatus`, as far as the badge goes.
unfoldable pub show_status : Status → Connection → Connection
unfolding update_status
show_status report c = record c { badge = by_server (update_status report).0 }

abbrev pub max_attempts : ℕ
max_attempts = 5

-- `Math.min(1000 * Math.pow(2, attempts), 30000)`
abbrev pub reconnect_delay : ℕ → ℕ
reconnect_delay attempts = min (1000 * 2 ^ attempts) 30000

-- `connectWebSocket`
abbrev pub connect_socket : Connection → Connection
connect_socket c = record c { channel = socket false }

abbrev pub connect_events : Connection → Connection
connect_events c = record c { channel = event_source }

-- `ws.onopen`
unfoldable pub socket_opened : Connection → Connection
socket_opened c = record (set_connection_status true c) { channel = socket true; attempts = 0 }

-- `ws.onclose`
unfoldable pub socket_closed : Connection → Connection
socket_closed c =
    let c' = set_connection_status false c in
    if ltb c'.attempts max_attempts
    then record c' { attempts = c'.attempts + 1; channel = waiting (reconnect_delay c'.attempts) }
    else connect_events c'

-- `evtSource.onopen` and `evtSource.onerror`
unfoldable pub source_opened : Connection → Connection
source_opened c = set_connection_status true c

unfoldable pub source_failed : Connection → Connection
source_failed c = set_connection_status false c

-- The answer of `fetch(apiUrl('/api/status'))`, and a failure.
unfoldable pub fetch_answered : Status → Connection → Connection
unfolding show_status
fetch_answered report c = record (show_status report c) { is_fetching = false }

unfoldable pub fetch_failed : Connection → Connection
fetch_failed c = record c { is_fetching = false }

-- The page is loaded, and the request is on its way.
abbrev pub start : Connection
start = record { channel = socket false; attempts = 0; badge = by_markup; is_fetching = true }

-- The callbacks: each comes from what the page has at that time. A status comes as a message or as
-- the answer to the first request.
pub data Step : Connection → Connection → Type 0 where
  opened : (c : Connection) → c.channel ≡ socket false → Step c (socket_opened c)
  closed : (c : Connection) (is_open : Bool) → c.channel ≡ socket is_open → Step c (socket_closed c)
  timer : (c : Connection) (delay : ℕ) → c.channel ≡ waiting delay → Step c (connect_socket c)
  reported :
      (c : Connection) (report : Status) → c.channel ≡ socket true → Step c (show_status report c)
  streaming : (c : Connection) → c.channel ≡ event_source → Step c (source_opened c)
  stream_lost : (c : Connection) → c.channel ≡ event_source → Step c (source_failed c)
  stream_reported :
      (c : Connection) (report : Status) → c.channel ≡ event_source → Step c (show_status report c)
  fetched :
      (c : Connection) (report : Status) → c.is_fetching ≡ true → Step c (fetch_answered report c)
  not_fetched : (c : Connection) → c.is_fetching ≡ true → Step c (fetch_failed c)

pub data Steps : Connection → Connection → Type 0 where
  done : (c : Connection) → Steps c c
  more : (a b c : Connection) → Steps a b → Step b c → Steps a c
