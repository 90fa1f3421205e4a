-- ===== src/App.antt =====
-- The messages and the controls of internal/web/static/app.js, over the packet table and the log.
pub mod Sound
pub mod Untouched
pub mod History
use serial_tcp_proxy.Prelude.{
  ℕ, suc, ◌+◌, ◌≡◌, Bool, true, false, not, ◌&&◌, Option, none, some, List, [], ◌∷◌, Text, codes,
  includes, is_some, is_nil, trim, filterb, length, ◌++◌, ◌||◌, ◌%◌, ◌==◌, if◌then◌else◌,
}
use serial_tcp_proxy.RegExp.{Engine}
use serial_tcp_proxy.Filter.{Packet}
use serial_tcp_proxy.Packets.Html.{hex_digit?}
use serial_tcp_proxy.Packets.Row.{Hidden}
use serial_tcp_proxy.Inspector.{Inspection, update_inspector}
use serial_tcp_proxy.Inspector.Diff.{render_diff}
use serial_tcp_proxy.Export.{export_packets}
use serial_tcp_proxy.Packets.State.{Stored, State}
use serial_tcp_proxy.Packets.Handlers.{add_packet_entry}
use serial_tcp_proxy.Packets.Events.{Event, step, initial}
use serial_tcp_proxy.Ui.Status.{Status, StatusView, update_status}
use serial_tcp_proxy.Logs.{LogEntry, add_log_entry, clear_logs}

-- A message of the socket or of the event stream; what is no JSON text or has another type changes
-- nothing.
pub data Message : Type 0 where
  status : Status → Message
  log : Text → Message
  other : Message

-- `status_view` is what `updateStatus` wrote last; `Connection` says who wrote its badge last.
-- `timers` counts the calls of `setInterval` for the uptime. The panel of the inspector and the two
-- sides of the difference keep what they showed while they are hidden; `downloads` are the texts of
-- the files that were exported.
pub record App : Type 0 where
  pub packets : State
  pub logs : List LogEntry
  pub is_paused : Bool
  pub is_packets_paused : Bool
  pub status_view : Option StatusView
  pub start_time : Option ℕ
  pub timers : ℕ
  pub inspection : Option Inspection
  pub is_inspector_shown : Bool
  pub difference : Option (Text × Text)
  pub is_difference_shown : Bool
  pub downloads : List Text

-- A selection of text comes with whether it begins in the packet table; the export, with the hidden
-- columns of that time. `table_used` is an event of the packet table that the user causes.
pub data AppEvent : Type 0 where
  fetched : Status → AppEvent
  received : Message → AppEvent
  logs_cleared : AppEvent
  logs_paused : AppEvent
  packets_paused : AppEvent
  table_used : Event → AppEvent
  selection_changed : Text → Bool → AppEvent
  inspector_closed : AppEvent
  difference_clicked : AppEvent
  difference_closed : AppEvent
  export_clicked : Hidden → AppEvent

-- `if (start && !startTime) …`
abbrev pub started : Option ℕ → App → App
started start a =
    if is_some start && not (is_some a.start_time)
    then record a { start_time = start; timers = a.timers + 1 }
    else a

-- `updateStatus`, and what is done with the time that it returns.
unfoldable pub handle_status : Status → App → App
unfolding update_status
handle_status report a =
    let (view, start) = update_status report in started start (record a { status_view = some view })

-- `/[0-9a-fA-F]/`
abbrev pub is_hex_digit : ℕ → Bool
is_hex_digit c = is_some (hex_digit? c)

-- The listener of `selectionchange`.
unfoldable pub inspect_selection : Text → Bool → App → App
unfolding trim update_inspector
inspect_selection text in_table a =
    let clean = filterb is_hex_digit (trim text) in
    if is_nil (trim text) || not in_table
    then a
    else if length clean == 0 || not (length clean % 2 == 0)
    then a
    else record a { inspection = some (update_inspector clean); is_inspector_shown = true }

-- The two packets in the order of the sort; `later` says that `localeCompare` is positive.
abbrev pub in_order : (Text → Text → Bool) → Stored → Stored → Stored × Stored
in_order later p q = if later p.packet.time q.packet.time then (q, p) else (p, q)

-- The listener of `diff-packets`.
unfoldable pub show_difference : (Text → Text → Bool) → List Stored → App → App
unfolding render_diff
show_difference later (p ∷ q ∷ []) a =
    let (first, second) = in_order later p q in
    record a {
      difference = some (render_diff first.packet second.packet);
      is_difference_shown = true;
    }
show_difference later _ a = a

abbrev pub packets_of : List Stored → List Packet
packets_of [] = []
packets_of (p ∷ ps) = p.packet ∷ packets_of ps

-- `exportPackets`, where nothing is downloaded without packets or columns.
unfoldable pub export_table : Hidden → App → App
unfolding export_packets
export_table hidden a = elim (export_packets hidden (packets_of a.packets.packets)) [
  | none ↦ a
  | some text ↦ record a { downloads = a.downloads ++ text ∷ [] }
]

module _ (e : Engine) where
  unfoldable pub handle_log : Text → App → App
  unfolding includes
  handle_log line a =
      if includes line (codes "[PKT]")
      then if a.is_packets_paused
        then a
        else record a { packets = add_packet_entry e line a.packets }
      else if a.is_paused
      then a
      else record a { logs = add_log_entry line a.logs }

  unfoldable pub handle_message : Message → App → App
  unfolding handle_status handle_log
  handle_message (status report) a = handle_status report a
  handle_message (log line) a = handle_log line a
  handle_message other a = a

module _ (e : Engine) (later : Text → Text → Bool) where
  unfoldable pub app_step : AppEvent → App → App
  unfolding handle_message handle_status inspect_selection show_difference export_table
  app_step (fetched report) a = handle_status report a
  app_step (received m) a = handle_message e m a
  app_step logs_cleared a = record a { logs = clear_logs a.logs }
  app_step logs_paused a = record a { is_paused = not a.is_paused }
  app_step packets_paused a = record a { is_packets_paused = not a.is_packets_paused }
  app_step (table_used event) a = record a { packets = step e event a.packets }
  app_step (selection_changed text in_table) a = inspect_selection text in_table a
  app_step inspector_closed a = record a { is_inspector_shown = false }
  app_step difference_clicked a = show_difference later a.packets.selected a
  app_step difference_closed a = record a { is_difference_shown = false }
  app_step (export_clicked hidden) a = export_table hidden a

  unfoldable pub app_run : List AppEvent → App → App
  unfolding app_step
  app_run [] a = a
  app_run (event ∷ events) a = app_run events (app_step event a)

abbrev pub loaded : App
loaded = record {
  packets = initial;
  logs = [];
  is_paused = false;
  is_packets_paused = false;
  status_view = none;
  start_time = none;
  timers = 0;
  inspection = none;
  is_inspector_shown = false;
  difference = none;
  is_difference_shown = false;
  downloads = [];
}
