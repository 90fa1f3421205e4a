-- ===== src/App/History.antt =====
-- The page of internal/web/static/app.js after every history of messages and controls.
use mathlib.Core.Path.{ap₂}
use serial_tcp_proxy.Prelude.{
  ◌≡◌, refl, sym, ◌∙◌, Bool, not, ◌&&◌, List, [], ◌∷◌, Text, codes, includes, if◌then◌else◌,
  Bool-cases, inl, inr,
}
use serial_tcp_proxy.RegExp.{Engine}
use serial_tcp_proxy.Packets.State.{State}
use serial_tcp_proxy.Packets.Events.{Event, log_line, step, run}
use serial_tcp_proxy.App.{
  status, log, other, App, AppEvent, fetched, received, logs_cleared, logs_paused, packets_paused,
  table_used, selection_changed, inspector_closed, difference_clicked, difference_closed,
  export_clicked, inspect_selection, show_difference, export_table, handle_status, handle_log,
  handle_message, app_step, app_run,
}
use serial_tcp_proxy.App.Untouched.{
  handle_status-packets, handle_log-packets, inspect_selection-packets, show_difference-packets,
  export_table-packets,
}

-- The events of the packet table in a history: what the user does, and the packet lines that come
-- while the packets are not paused.
unfoldable pub table_events : Bool → List AppEvent → List Event
unfolding includes
table_events paused [] = []
table_events paused (packets_paused ∷ events) = table_events (not paused) events
table_events paused (table_used event ∷ events) = event ∷ table_events paused events
table_events paused (received (log line) ∷ events) =
    let rest = table_events paused events in
    if includes line (codes "[PKT]") && not paused then log_line line ∷ rest else rest
table_events paused (_ ∷ events) = table_events paused events

table_events-log :
    (e : Engine) (line : Text) (paused : Bool) (events : List AppEvent) (s : State)
    → run e (table_events paused (received (log line) ∷ events)) s
      ≡ run e
          (table_events paused events)
          (if includes line (codes "[PKT]") && not paused then step e (log_line line) s else s)
unfolding table_events run
table_events-log e line paused events s =
    elim (Bool-cases (includes line (codes "[PKT]") && not paused)) [
      | inl t ↦ rw (t, table_events) refl
      | inr f ↦ rw (f, table_events) refl
    ]

-- The packet table of the page goes through exactly the events that the user causes and the
-- packet lines that come while the packets are not paused, whatever comes between them,
-- selections of text, comparisons and exports included.
pub app_run-packets :
    (e : Engine) (later : Text → Text → Bool) (events : List AppEvent) (a : App)
    → (app_run e later events a).packets ≡ run e (table_events a.is_packets_paused events) a.packets
unfolding app_run app_step handle_message table_events run
app_run-packets e later [] a = refl
app_run-packets e later (fetched report ∷ events) a =
    let (same, paused) = handle_status-packets report a in
    app_run-packets e later events (handle_status report a)
    ∙ ap₂ (λ p s. run e (table_events p events) s) paused same
app_run-packets e later (received (status report) ∷ events) a =
    let (same, paused) = handle_status-packets report a in
    app_run-packets e later events (handle_status report a)
    ∙ ap₂ (λ p s. run e (table_events p events) s) paused same
app_run-packets e later (received (log line) ∷ events) a =
    let (same, paused) = handle_log-packets e line a in
    app_run-packets e later events (handle_log e line a)
    ∙ ap₂ (λ p s. run e (table_events p events) s) paused same
    ∙ sym (table_events-log e line a.is_packets_paused events a.packets)
app_run-packets e later (received other ∷ events) a = app_run-packets e later events a
app_run-packets e later (logs_cleared ∷ events) a =
    app_run-packets e later events (app_step e later logs_cleared a)
app_run-packets e later (logs_paused ∷ events) a =
    app_run-packets e later events (app_step e later logs_paused a)
app_run-packets e later (packets_paused ∷ events) a =
    app_run-packets e later events (app_step e later packets_paused a)
app_run-packets e later (table_used event ∷ events) a =
    app_run-packets e later events (app_step e later (table_used event) a)
app_run-packets e later (selection_changed text in_table ∷ events) a =
    let (same, paused) = inspect_selection-packets text in_table a in
    app_run-packets e later events (inspect_selection text in_table a)
    ∙ ap₂ (λ p s. run e (table_events p events) s) paused same
app_run-packets e later (inspector_closed ∷ events) a =
    app_run-packets e later events (app_step e later inspector_closed a)
app_run-packets e later (difference_clicked ∷ events) a =
    let (same, paused) = show_difference-packets later a.packets.selected a in
    app_run-packets e later events (show_difference later a.packets.selected a)
    ∙ ap₂ (λ p s. run e (table_events p events) s) paused same
app_run-packets e later (difference_closed ∷ events) a =
    app_run-packets e later events (app_step e later difference_closed a)
app_run-packets e later (export_clicked hidden ∷ events) a =
    let (same, paused) = export_table-packets hidden a in
    app_run-packets e later events (export_table hidden a)
    ∙ ap₂ (λ p s. run e (table_events p events) s) paused same
