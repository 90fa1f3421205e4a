-- ===== src/App/Untouched.antt =====
-- What the messages and controls of internal/web/static/app.js do to the packet table.
use serial_tcp_proxy.Prelude.{
  some, ℕ, ◌≡◌, refl, Bool, not, ◌&&◌, Option, List, [], ◌∷◌, Text, codes, includes, if◌then◌else◌,
  Option-cases, inl, inr, arith,
}
use serial_tcp_proxy.RegExp.{Engine}
use serial_tcp_proxy.Packets.Row.{Hidden}
use serial_tcp_proxy.Export.{export_packets}
use serial_tcp_proxy.Packets.State.{Stored}
use serial_tcp_proxy.Packets.Events.{log_line, step}
use serial_tcp_proxy.Ui.Status.{Status, update_status}
use serial_tcp_proxy.App.{
  App, inspect_selection, show_difference, packets_of, export_table, started, handle_status,
  handle_log,
}

started-packets :
    (start : Option ℕ) (a : App)
    → ((started start a).packets ≡ a.packets)
      × ((started start a).is_packets_paused ≡ a.is_packets_paused)
started-packets start a = ground arith

pub handle_status-packets :
    (report : Status) (a : App)
    → ((handle_status report a).packets ≡ a.packets)
      × ((handle_status report a).is_packets_paused ≡ a.is_packets_paused)
unfolding handle_status
handle_status-packets report a =
    let (view, start) = update_status report in
    started-packets start (record a { status_view = some view })

-- What a line does to the packet table: its event, if it is a packet line that is let through.
pub handle_log-packets :
    (e : Engine) (line : Text) (a : App)
    → ((handle_log e line a).packets ≡ (
        if includes line (codes "[PKT]") && not a.is_packets_paused
        then step e (log_line line) a.packets
        else a.packets))
      × ((handle_log e line a).is_packets_paused ≡ a.is_packets_paused)
unfolding handle_log step
handle_log-packets e line a = ground arith

pub inspect_selection-packets :
    (text : Text) (in_table : Bool) (a : App)
    → ((inspect_selection text in_table a).packets ≡ a.packets)
      × ((inspect_selection text in_table a).is_packets_paused ≡ a.is_packets_paused)
unfolding inspect_selection
inspect_selection-packets text in_table a = ground arith

pub show_difference-packets :
    (later : Text → Text → Bool) (selected : List Stored) (a : App)
    → ((show_difference later selected a).packets ≡ a.packets)
      × ((show_difference later selected a).is_packets_paused ≡ a.is_packets_paused)
unfolding show_difference
show_difference-packets later [] a = (refl, refl)
show_difference-packets later (p ∷ []) a = (refl, refl)
show_difference-packets later (p ∷ q ∷ []) a = (refl, refl)
show_difference-packets later (p ∷ q ∷ r ∷ selected) a = (refl, refl)

pub export_table-packets :
    (hidden : Hidden) (a : App)
    → ((export_table hidden a).packets ≡ a.packets)
      × ((export_table hidden a).is_packets_paused ≡ a.is_packets_paused)
unfolding export_table
export_table-packets hidden a =
    elim (Option-cases (export_packets hidden (packets_of a.packets.packets))) [
      | inl n ↦ rw (n, export_table) (refl, refl)
      | inr (text, q) ↦ rw (q, export_table) (refl, refl)
    ]
