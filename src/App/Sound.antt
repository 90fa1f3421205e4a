-- ===== src/App/Sound.antt =====
-- An invariant of the page of internal/web/static/app.js.
use serial_tcp_proxy.Prelude.{
  ap, sym, ◌∙◌, subst, ℕ, ◌≤◌, ◌≡◌, refl, Bool, true, false, not, ◌&&◌, Option, none, some, List,
  [], ◌∷◌, Text, codes, length, includes, is_some, if◌then◌else◌, Bool-cases, Option-cases, All,
  is_nil, trim, filterb, ◌%◌, ◌≢◌, ◌||◌, ◌==◌, inl, inr, arith,
}
use serial_tcp_proxy.RegExp.{Engine}
use serial_tcp_proxy.Filter.{Packet}
use serial_tcp_proxy.Packets.Row.{Hidden}
use serial_tcp_proxy.Inspector.{Inspection, update_inspector}
use serial_tcp_proxy.Inspector.Diff.{render_diff}
use serial_tcp_proxy.Export.{export_packets}
use serial_tcp_proxy.Packets.State.{Stored}
use serial_tcp_proxy.Packets.Handlers.{add_packet_entry}
use serial_tcp_proxy.Packets.Events.{log_line, step}
use serial_tcp_proxy.Packets.Invariant.{Inv}
use serial_tcp_proxy.Packets.Invariant.History.{step-Inv}
use serial_tcp_proxy.Logs.{max_logs, add_log_entry, add_log_entry-le}
use serial_tcp_proxy.Ui.Status.{Status, update_status}
use serial_tcp_proxy.App.{
  status, log, other, App, AppEvent, fetched, received, logs_cleared, logs_paused, packets_paused,
  table_used, selection_changed, inspector_closed, difference_clicked, difference_closed,
  export_clicked, is_hex_digit, inspect_selection, in_order, show_difference, packets_of,
  export_table, started, handle_status, handle_log, handle_message, app_step, app_run,
}

-- What the inspector has was whole bytes in hexadecimal digits.
abbrev pub Inspected : Option Inspection → Type 0
Inspected none = Unit
Inspected (some i) =
    (hex : Text) × (i ≡ update_inspector hex)
    × (length hex ≢ 0)
    × (length hex % 2 ≡ 0)
    × All (λ c. is_hex_digit c ≡ true) hex

-- What is compared are two packets, of which the first is not the later one.
abbrev pub Compared : (Text → Text → Bool) → Option (Text × Text) → Type 0
Compared later none = Unit
Compared later (some d) =
    (p : Packet) × (q : Packet) × (d ≡ render_diff p q) × (later p.time q.time ≡ false)

pub record IsSound (later : Text → Text → Bool) (a : App) : Type 0 where
  pub packets : Inv a.packets
  pub logs : length a.logs ≤ max_logs
  pub one_timer : a.timers ≡ (if is_some a.start_time then 1 else 0)
  pub inspected : Inspected a.inspection
  pub compared : Compared later a.difference

filterb-All : (f : ℕ → Bool) (l : Text) → All (λ c. f c ≡ true) (filterb f l)
filterb-All f [] = tt
filterb-All f (c ∷ l) = elim (Bool-cases (f c)) [
  | inl t ↦ rw t (t, filterb-All f l)
  | inr n ↦ rw n (filterb-All f l)
]

-- `localeCompare` never finds each of two texts later than the other.
module _ (later : Text → Text → Bool)
    (asym : (s t : Text) → later s t ≡ true → later t s ≡ false) where
  in_order-later :
      (p q : Stored)
      → later (in_order later p q).0.packet.time (in_order later p q).1.packet.time ≡ false
  in_order-later p q = elim (Bool-cases (later p.packet.time q.packet.time)) [
    | inl t ↦ rw t (asym p.packet.time q.packet.time t)
    | inr f ↦ rw f f
  ]

  -- What the invariant reads is the same.
  kept-IsSound :
      (a b : App)
      → b.packets ≡ a.packets
      → b.logs ≡ a.logs
      → b.timers ≡ a.timers
      → b.start_time ≡ a.start_time
      → b.inspection ≡ a.inspection
      → b.difference ≡ a.difference
      → IsSound later a
      → IsSound later b
  kept-IsSound a b p l t s i d v = record {
    packets = subst Inv (sym p) v.packets;
    logs = omega (arith, ap length l, v.logs);
    one_timer = t ∙ v.one_timer ∙ ap (λ o. if is_some o then 1 else 0) (sym s);
    inspected = subst Inspected (sym i) v.inspected;
    compared = subst (Compared later) (sym d) v.compared;
  }

  started-IsSound : (start : Option ℕ) (a : App) → IsSound later a → IsSound later (started start a)
  started-IsSound start a v = elim (Bool-cases (is_some start && not (is_some a.start_time))) [
    | inl t ↦ rw t (record {
      packets = v.packets;
      logs = v.logs;
      one_timer = ground (arith, v.one_timer);
      inspected = v.inspected;
      compared = v.compared;
    })
    | inr f ↦ rw f v
  ]

  handle_status-IsSound :
      (report : Status) (a : App) → IsSound later a → IsSound later (handle_status report a)
  unfolding handle_status
  handle_status-IsSound report a v =
      let (view, start) = update_status report in
      started-IsSound start (record a { status_view = some view })
        (kept-IsSound a _ refl refl refl refl refl refl v)

  -- Each outcome of `handle_log`, for any answers of its tests.
  outcomes-IsSound :
      (e : Engine) (line : Text) (a : App) (is_packet packets_off logs_off : Bool)
      → IsSound later a
      → IsSound later (
          if is_packet
          then if packets_off then a else record a { packets = add_packet_entry e line a.packets }
          else if logs_off
          then a
          else record a { logs = add_log_entry line a.logs })
  unfolding step
  outcomes-IsSound e line a true true c v = v
  outcomes-IsSound e line a true false c v = record {
    packets = step-Inv e (log_line line) a.packets v.packets;
    logs = v.logs;
    one_timer = v.one_timer;
    inspected = v.inspected;
    compared = v.compared;
  }
  outcomes-IsSound e line a false b true v = v
  outcomes-IsSound e line a false b false v = record {
    packets = v.packets;
    logs = add_log_entry-le line a.logs v.logs;
    one_timer = v.one_timer;
    inspected = v.inspected;
    compared = v.compared;
  }

  handle_log-IsSound :
      (e : Engine) (line : Text) (a : App) → IsSound later a → IsSound later (handle_log e line a)
  unfolding handle_log
  handle_log-IsSound e line a v =
      outcomes-IsSound e line a (includes line (codes "[PKT]")) a.is_packets_paused a.is_paused v

  inspected-IsSound :
      (hex : Text) (a : App)
      → IsSound later a
      → length hex ≢ 0
      → length hex % 2 ≡ 0
      → All (λ c. is_hex_digit c ≡ true) hex
      → IsSound later
          (record a { inspection = some (update_inspector hex); is_inspector_shown = true })
  inspected-IsSound hex a v some_there even digits = record {
    packets = v.packets;
    logs = v.logs;
    one_timer = v.one_timer;
    inspected = (hex, refl, some_there, even, digits);
    compared = v.compared;
  }

  inspect_selection-IsSound :
      (text : Text) (in_table : Bool) (a : App)
      → IsSound later a
      → IsSound later (inspect_selection text in_table a)
  unfolding inspect_selection
  inspect_selection-IsSound text in_table a v =
      let clean = filterb is_hex_digit (trim text) in
      elim (Bool-cases (is_nil (trim text) || not in_table)) [
        | inl elsewhere ↦ rw elsewhere v
        | inr there ↦
            rw there (elim (Bool-cases (length clean == 0 || not (length clean % 2 == 0))) [
              | inl unfit ↦ rw unfit v
              | inr fit ↦ rw fit (
                  inspected-IsSound clean a v (ground (arith, fit)) (ground (arith, fit))
                    (filterb-All is_hex_digit (trim text)))
            ])
      ]

  show_difference-IsSound :
      (selected : List Stored) (a : App)
      → IsSound later a
      → IsSound later (show_difference later selected a)
  unfolding show_difference
  show_difference-IsSound [] a v = v
  show_difference-IsSound (p ∷ []) a v = v
  show_difference-IsSound (p ∷ q ∷ []) a v = record {
    packets = v.packets;
    logs = v.logs;
    one_timer = v.one_timer;
    inspected = v.inspected;
    compared =
        ((in_order later p q).0.packet, (in_order later p q).1.packet, refl, in_order-later p q);
  }
  show_difference-IsSound (p ∷ q ∷ r ∷ selected) a v = v

  export_table-IsSound :
      (hidden : Hidden) (a : App) → IsSound later a → IsSound later (export_table hidden a)
  unfolding export_table
  export_table-IsSound hidden a v =
      elim (Option-cases (export_packets hidden (packets_of a.packets.packets))) [
        | inl n ↦ rw (n, export_table) v
        | inr (text, q) ↦ rw (q, export_table) (kept-IsSound a _ refl refl refl refl refl refl v)
      ]

  app_step-IsSound :
      (e : Engine) (event : AppEvent) (a : App)
      → IsSound later a
      → IsSound later (app_step e later event a)
  unfolding app_step handle_message
  app_step-IsSound e (fetched report) a v = handle_status-IsSound report a v
  app_step-IsSound e (received (status report)) a v = handle_status-IsSound report a v
  app_step-IsSound e (received (log line)) a v = handle_log-IsSound e line a v
  app_step-IsSound e (received other) a v = v
  app_step-IsSound e logs_cleared a v = record {
    packets = v.packets;
    logs = omega arith;
    one_timer = v.one_timer;
    inspected = v.inspected;
    compared = v.compared;
  }
  app_step-IsSound e logs_paused a v = kept-IsSound a _ refl refl refl refl refl refl v
  app_step-IsSound e packets_paused a v = kept-IsSound a _ refl refl refl refl refl refl v
  app_step-IsSound e (table_used event) a v = record {
    packets = step-Inv e event a.packets v.packets;
    logs = v.logs;
    one_timer = v.one_timer;
    inspected = v.inspected;
    compared = v.compared;
  }
  app_step-IsSound e (selection_changed text in_table) a v =
      inspect_selection-IsSound text in_table a v
  app_step-IsSound e inspector_closed a v = kept-IsSound a _ refl refl refl refl refl refl v
  app_step-IsSound e difference_clicked a v = show_difference-IsSound a.packets.selected a v
  app_step-IsSound e difference_closed a v = kept-IsSound a _ refl refl refl refl refl refl v
  app_step-IsSound e (export_clicked hidden) a v = export_table-IsSound hidden a v

  pub app_run-IsSound :
      (e : Engine) (events : List AppEvent) (a : App)
      → IsSound later a
      → IsSound later (app_run e later events a)
  unfolding app_run
  app_run-IsSound e [] a v = v
  app_run-IsSound e (event ∷ events) a v =
      app_run-IsSound e events (app_step e later event a) (app_step-IsSound e event a v)
