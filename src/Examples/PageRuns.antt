-- ===== src/Examples/PageRuns.antt =====
-- Typing, the dialog of the clients, and the form that sends packets.
use mathlib.Core.List.{Perm}
use serial_tcp_proxy.Prelude.{
  ℕ, ◌≡◌, refl, false, List, [], ◌∷◌, Text, codes, map, length, ◌==◌, none, arith,
}
use serial_tcp_proxy.Utils.Debounce.{idle}
use serial_tcp_proxy.Packets.Handlers.{render_packets, store_packet}
use serial_tcp_proxy.Packets.Events.{initial}
use serial_tcp_proxy.Packets.Typing.{Typing, type_all, type_all-rows}
use serial_tcp_proxy.Prelude.{trim, ◌++◌, some, drop_while, is_space}
use serial_tcp_proxy.RegExp.{RegExp}
use serial_tcp_proxy.Filter.{Parsed, no_conditions}
use serial_tcp_proxy.Filter.Parse.{match_regex, parse_regex, parse_filter}
use serial_tcp_proxy.Filter.Presets.{load_presets}
use serial_tcp_proxy.Packets.PresetDialog.{
  PresetDialog, save_clicked, name_typed, confirm_clicked, saved_regex,
}
use serial_tcp_proxy.Clients.{
  Client, Report, render_clients, open_modal, close_modal, start, Steps, done, more, card_clicked,
  closed,
}
use serial_tcp_proxy.Clients.Reachable.{IsSound, interval-IsSound}
use serial_tcp_proxy.Clients.Shown.{shown_client, OldestFirst, render_clients-OldestFirst}
use serial_tcp_proxy.Injection.{Injection, sent, answer, fire, send, injection_run, sent_for_good}
use serial_tcp_proxy.Examples.CountedJson.{counted_json, empty_storage}
use serial_tcp_proxy.Examples.LiteralEngine.{literal_engine}
use serial_tcp_proxy.Examples.PacketRuns.{hello}

-- One packet is there, and nothing has been typed.
abbrev at_first : Typing
at_first = record { state = store_packet literal_engine hello initial; debounced = idle }

-- Two letters in quick succession.
type_all-rows_example :
    (type_all literal_engine ((codes "a", 40) ∷ (codes "ab", 200) ∷ []) at_first).state.processed
    ≡ (render_packets literal_engine
        (record at_first.state { filter_input = codes "ab" })).processed
type_all-rows_example =
    type_all-rows literal_engine ((codes "a", 40) ∷ []) (codes "ab") 200 at_first (omega arith)

abbrev no_date : ℕ → Text
no_date t = []

-- The dialog is opened and closed again.
abbrev opened_once : Steps no_date start (close_modal (open_modal start))
unfolding open_modal
opened_once =
    more start (open_modal start) (close_modal (open_modal start))
      (more start start (open_modal start) (done start) (card_clicked start refl))
      (closed (open_modal start) refl)

interval-IsSound_example : IsSound (close_modal (open_modal start))
interval-IsSound_example = interval-IsSound no_date (close_modal (open_modal start)) opened_once

abbrev two_clients : Report
two_clients = record {
  tcp_count = 1;
  web_count = 1;
  total_count = 2;
  max_clients = 10;
  clients =
      record { id = codes "b"; addr = codes "::1"; kind = codes "web"; connected_at = 9000 }
      ∷ record { id = codes "a"; addr = codes "::1"; kind = codes "tcp"; connected_at = 4000 }
      ∷ [];
}

render_clients-OldestFirst_example :
    let v = render_clients no_date 10000 two_clients in
    (clients : List Client) × (v.rows ≡ map (shown_client no_date 10000) clients)
    × Perm clients two_clients.clients
    × OldestFirst clients
    × (v.is_message_shown ≡ (length v.rows == 0))
render_clients-OldestFirst_example = render_clients-OldestFirst no_date 10000 two_clients

-- The form when the page is loaded.
abbrev fresh_form : Injection
fresh_form = record {
  is_panel_shown = false;
  is_toggle_active = false;
  button_text = codes "Send";
  is_success = false;
  pending = [];
  sending = 0;
  alerts = [];
}

-- Much later another packet is sent.
sent_for_good_example :
    let twice = answer none ∷ answer none ∷ fire ∷ fire ∷ [] in
    (injection_run
      (send (codes "f7") ∷ answer none ∷ fire ∷ [])
      (injection_run twice fresh_form)).button_text
    ≡ sent
sent_for_good_example = sent_for_good fresh_form (send (codes "f7") ∷ answer none ∷ fire ∷ []) refl

abbrev empty_dialog : PresetDialog
empty_dialog = record {
  storage = empty_storage;
  options = [];
  preview = [];
  name_input = [];
  is_save_shown = false;
  is_help_shown = false;
  alerts = [];
}

abbrev two_digits : RegExp
two_digits = record { source = codes "f7"; flags = []; last_index = 0 }

saved_regex_example :
    let t = codes "/f7/" in
    ((confirm_clicked counted_json
        (name_typed (codes "mine") (save_clicked (b' ' ∷ t) empty_dialog))).options
      ≡ load_presets counted_json empty_storage ++ record { name = codes "mine"; filter = t } ∷ [])
    × (parse_filter literal_engine t ≡ some (record no_conditions { regex = some two_digits }))
    × ((f : Parsed) × (parse_filter literal_engine (b' ' ∷ t) ≡ some f) × (f.regex ≡ none))
unfolding trim parse_regex drop_while is_space match_regex
saved_regex_example =
    saved_regex counted_json literal_engine (codes "/f7/") (codes "mine") two_digits empty_dialog
      refl refl (λ e. cc) refl
