-- ===== src/Clients.antt =====
-- The dialog of the connected clients, internal/web/static/modules/clients.js.
pub mod Reachable
pub mod Shown
use serial_tcp_proxy.Prelude.{
  ℕ, ◌+◌, ◌-◌, ◌/◌, ◌≡◌, ◌≢◌, Bool, true, false, Option, none, some, List, [], ◌∷◌, ◌++◌, Text,
  codes, map, length, member, ltb, ◌==◌, if◌then◌else◌,
}
use serial_tcp_proxy.Wire.{format_decimal}
use serial_tcp_proxy.Packets.Sort.{sort_stable}

-- `connected_at` is the time as `Date` reads it, in milliseconds.
pub record Client : Type 0 where
  pub id : Text
  pub addr : Text
  pub kind : Text
  pub connected_at : ℕ

-- The server's answer.
pub record Report : Type 0 where
  pub tcp_count : ℕ
  pub web_count : ℕ
  pub total_count : ℕ
  pub max_clients : ℕ
  pub clients : List Client

-- The cells of a row; the button for the disconnection has the `id` too.
pub record ClientRow : Type 0 where
  pub id : Text
  pub addr : Text
  pub kind : Text
  pub time : Text

-- `counts` are the numbers of the summary.
pub record View : Type 0 where
  pub counts : List ℕ
  pub rows : List ClientRow
  pub is_message_shown : Bool

-- `formatConnectedTime`, where `local` writes a date. A time that is still to come gives a negative
-- number of seconds, rounded down.
unfoldable pub format_connected_time : (ℕ → Text) → ℕ → ℕ → Text
unfolding format_decimal
format_connected_time local now date =
    let diff = (now - date) / 1000 in
    if ltb now date
    then b'-' ∷ format_decimal ((date - now + 999) / 1000) ++ codes "s ago"
    else if ltb diff 60
    then format_decimal diff ++ codes "s ago"
    else if ltb diff 3600
    then format_decimal (diff / 60) ++ codes "m ago"
    else if ltb diff 86400
    then format_decimal (diff / 3600) ++ codes "h ago"
    else local date

-- The comparator returns a positive number.
abbrev pub connected_later : Client → Client → Bool
connected_later a b = ltb b.connected_at a.connected_at

unfoldable pub client_row : (ℕ → Text) → ℕ → Client → ClientRow
unfolding format_connected_time
client_row local now c = record {
  id = c.id;
  addr = c.addr;
  kind = c.kind;
  time = format_connected_time local now c.connected_at;
}

-- `renderClients`
unfoldable pub render_clients : (ℕ → Text) → ℕ → Report → View
unfolding sort_stable client_row
render_clients local now report = record {
  counts = report.tcp_count ∷ report.web_count ∷ report.total_count ∷ report.max_clients ∷ [];
  rows =
      if length report.clients == 0
      then []
      else map (client_row local now) (sort_stable connected_later report.clients);
  is_message_shown = length report.clients == 0;
}

-- `refresh` is the interval that the module remembers, `timers` those that run in the browser, and
-- `requests` and `posts` the requests for the list and for a disconnection that have no answer yet.
pub record Dialog : Type 0 where
  pub view : View
  pub is_open : Bool
  pub is_shown : Bool
  pub refresh : Option ℕ
  pub timers : List ℕ
  pub next_timer : ℕ
  pub requests : ℕ
  pub posts : ℕ
  pub alerts : List Text

-- `fetchClients`, until it waits for the answer.
abbrev pub fetch_clients : Dialog → Dialog
fetch_clients d = record d { requests = d.requests + 1 }

-- The answer of the server, or none that can be read.
unfoldable pub fetched : (ℕ → Text) → ℕ → Option Report → Dialog → Dialog
unfolding render_clients
fetched local now none d = record d { requests = d.requests - 1 }
fetched local now (some report) d = record d {
  requests = d.requests - 1;
  view = render_clients local now report;
}

-- `openModal`
unfoldable pub open_modal : Dialog → Dialog
open_modal d =
    let d' = fetch_clients (record d { is_open = true; is_shown = true }) in
    record d' {
      refresh = some d.next_timer;
      timers = d.next_timer ∷ d.timers;
      next_timer = d.next_timer + 1;
    }

-- `clearInterval`
abbrev pub clear_interval : ℕ → List ℕ → List ℕ
clear_interval id [] = []
clear_interval id (x ∷ timers) =
    let rest = clear_interval id timers in if x == id then rest else x ∷ rest

-- `closeModal`
unfoldable pub close_modal : Dialog → Dialog
close_modal d =
    let d' = record d { is_open = false; is_shown = false } in
    elim d.refresh [
      | none ↦ d'
      | some id ↦ record d' { timers = clear_interval id d.timers; refresh = none }
    ]

unfoldable pub escape_pressed : Dialog → Dialog
unfolding close_modal
escape_pressed d = if d.is_open then close_modal d else d

-- `disconnectClient`: the user has answered `confirm`, and later the server the request; what is
-- no success is shown.
unfoldable pub confirmed : Bool → Dialog → Dialog
confirmed true d = record d { posts = d.posts + 1 }
confirmed false d = d

unfoldable pub disconnected : Option Text → Dialog → Dialog
disconnected none d = fetch_clients (record d { posts = d.posts - 1 })
disconnected (some message) d = record d {
  posts = d.posts - 1;
  alerts = d.alerts ++ (codes "Failed to disconnect: " ++ message) ∷ [];
}

-- The page when it is loaded; timers are counted from 1.
abbrev pub start : Dialog
start = record {
  view = record { counts = []; rows = []; is_message_shown = false };
  is_open = false;
  is_shown = false;
  refresh = none;
  timers = [];
  next_timer = 1;
  requests = 0;
  posts = 0;
  alerts = [];
}

-- What can happen. The dialog covers the card that opens it.
pub data Step (local : ℕ → Text) : Dialog → Dialog → Type 0 where
  card_clicked : (d : Dialog) → d.is_shown ≡ false → Step local d (open_modal d)
  closed : (d : Dialog) → d.is_shown ≡ true → Step local d (close_modal d)
  escaped : (d : Dialog) → Step local d (escape_pressed d)
  ticked : (d : Dialog) (id : ℕ) → member id d.timers ≡ true → Step local d (fetch_clients d)
  answered :
      (d : Dialog) (now : ℕ) (report : Option Report)
      → d.requests ≢ 0
      → Step local d (fetched local now report d)
  asked : (d : Dialog) (yes : Bool) → d.is_shown ≡ true → Step local d (confirmed yes d)
  post_answered :
      (d : Dialog) (error : Option Text) → d.posts ≢ 0 → Step local d (disconnected error d)

pub data Steps (local : ℕ → Text) : Dialog → Dialog → Type 0 where
  done : (d : Dialog) → Steps local d d
  more : (a b c : Dialog) → Steps local a b → Step local b c → Steps local a c
