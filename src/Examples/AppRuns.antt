-- ===== src/Examples/AppRuns.antt =====
-- The connection, the page, the export and the status on small inputs.
use serial_tcp_proxy.Prelude.{
  not, ◌^◌, none, map, ◌+◌, ◌-◌, ◌*◌, ◌/◌, ◌<◌, ◌≡◌, refl, Bool, true, false, some, List, [], ◌∷◌,
  ◌++◌, Text, codes, length, split, decimal_from, arith,
}
use serial_tcp_proxy.Filter.{Packet}
use serial_tcp_proxy.Connection.{
  waiting, event_source, Connection, says_connected, show_status, fetch_answered, fetched,
  socket_opened, socket_closed, start, Steps, done, more, opened, closed,
}
use serial_tcp_proxy.Connection.Reachable.{failures, failures-fall_back}
use serial_tcp_proxy.Packets.Sort.{text_lt}
use serial_tcp_proxy.Packets.Events.{run}
use serial_tcp_proxy.App.{
  log, received, packets_paused, fetched, selection_changed, difference_clicked, AppEvent, app_run,
  loaded,
}
use serial_tcp_proxy.App.Sound
use serial_tcp_proxy.App.History.{table_events, app_run-packets}
use serial_tcp_proxy.Logs.{make_entry, add_log_entry}
use serial_tcp_proxy.Logs.Scroll.{LogPane, Layout, append_log, append_log-scroll_top}
use serial_tcp_proxy.Utils.Csv.{read, front}
use serial_tcp_proxy.Export.{Column, hex, visible_columns, export_head, export_body, export_packets}
use serial_tcp_proxy.Export.RoundTrip.{table, read-export_packets}
use serial_tcp_proxy.Inspector.{Integer, update_inspector}
use serial_tcp_proxy.Inspector.Float32.{fixed, get_float32, to_fixed}
use serial_tcp_proxy.Inspector.Integers.{
  hex_text, Stands, ShowsBoth, ShowsFloats, update_inspector-hex_text,
}
use serial_tcp_proxy.Inspector.Diff.{Compared, render_diff, render_diff-Compared}
use serial_tcp_proxy.Packets.Entry.Shown.{shown_byte}
use serial_tcp_proxy.Theme.{init_theme, toggle_theme, is_dark, toggle_theme-init}
use serial_tcp_proxy.Ui.Status.{Status, update_status}
use serial_tcp_proxy.Ui.{uptime_text, split-uptime_text}
use serial_tcp_proxy.Examples.LiteralEngine.{literal_engine}

-- The first socket is open for a while and closes.
abbrev one_loss : Steps start (socket_closed (socket_opened start))
unfolding socket_opened
one_loss =
    more start (socket_opened start) _ (more start start _ (done start) (opened start refl))
      (closed (socket_opened start) true refl)

failures-fall_back_example :
    Steps start (socket_closed (failures 5 start))
    × ((socket_closed (failures 5 start)).channel ≡ event_source)
failures-fall_back_example = failures-fall_back 5 start false refl refl

-- The list at its bottom, with less to see than it has.
abbrev seen_logs : LogPane
seen_logs = record {
  entries =
      make_entry (codes "2025-11-27T23:48:33Z [INFO] up")
      ∷ make_entry (codes "2025-11-27T23:48:34Z [WARN] slow")
      ∷ [];
  scroll_top = 40;
}

-- An entry is as high as its text has signs.
abbrev small_list : Layout
small_list = record { client_height = 40; height = λ e. 30 + length e.content; padding = 5 }

abbrev lost : Text
lost = codes "2025-11-27T23:48:35Z [ERROR] lost"

append_log-scroll_top_example :
    ((append_log small_list lost seen_logs).entries ≡ add_log_entry lost seen_logs.entries)
    × ((append_log small_list lost seen_logs).scroll_top ≡ 87)
unfolding make_entry append_log
append_log-scroll_top_example =
    append_log-scroll_top small_list lost seen_logs (omega arith) (omega arith)

abbrev first_status : Status
first_status = record {
  upstream_state = codes "Connected";
  upstream_addr = codes "10.0.0.2:8899";
  listen_addr = codes ":18899";
  connected_clients = 1;
  max_clients = 10;
  start_time = some 7;
}

-- The first socket is closed, and the answer to the first request comes while its timer runs: the
-- page says that it is connected.
abbrev late_answer : Connection
late_answer = fetch_answered first_status (socket_closed start)

late_answer_steps : Steps start late_answer
unfolding socket_closed
late_answer_steps =
    more start (socket_closed start) _ (more start start _ (done start) (closed start false refl))
      (fetched (socket_closed start) first_status refl)

late_answer_shown : (late_answer.channel ≡ waiting 1000) × (says_connected late_answer.badge ≡ true)
unfolding fetch_answered show_status socket_closed update_status
late_answer_shown = (refl, refl)

-- A status, a log line, a packet line, and another one while the packets are paused.
abbrev received_lines : List AppEvent
received_lines =
    fetched first_status
    ∷ received (log (codes "2025-11-27T23:48:33Z [INFO] up"))
    ∷ received (log (codes "2025-11-27T23:48:33Z [PKT] [UP->] f7 (1 bytes)"))
    ∷ packets_paused
    ∷ received (log (codes "2025-11-27T23:48:34Z [PKT] [UP->] f8 (1 bytes)"))
    ∷ selection_changed (codes " f7 48") true
    ∷ difference_clicked
    ∷ []

-- Texts by their code units.
abbrev later : Text → Text → Bool
later s t = text_lt t s

app_run-packets_example :
    (app_run literal_engine later received_lines loaded).packets
    ≡ run literal_engine (table_events false received_lines) loaded.packets
app_run-packets_example = app_run-packets literal_engine later received_lines loaded

abbrev quoted_packet : Packet
quoted_packet = record {
  time = codes "23:48:33.876";
  direction = codes "UP -> Client";
  length = codes "3";
  hex_raw = codes "22 2c 0a";
  hex_formatted = [];
  ascii = codes "\",.";
}

abbrev without_hex : Column → Bool
without_hex hex = true
without_hex _ = false

read-export_packets_example :
    let columns = visible_columns without_hex in
    (export_packets without_hex (quoted_packet ∷ [])
      ≡ some (export_head columns (quoted_packet ∷ []) ++ export_body columns (quoted_packet ∷ [])))
    × (read front (export_body columns (quoted_packet ∷ [])) ≡ table columns (quoted_packet ∷ []))
unfolding visible_columns
read-export_packets_example = read-export_packets without_hex quoted_packet [] (λ q. cc)

uptime_shown : uptime_text 0 3661000 ≡ codes "01:01:01"
unfolding uptime_text
uptime_shown = refl

split-uptime_text_example :
    (h : Text) × (m : Text) × (s : Text) × (split b':' (uptime_text 500 3661500) ≡ h ∷ m ∷ s ∷ [])
    × (decimal_from 0 m < 60)
    × (decimal_from 0 s < 60)
    × (decimal_from 0 h * 3600 + decimal_from 0 m * 60 + decimal_from 0 s ≡ (3661500 - 500) / 1000)
split-uptime_text_example = split-uptime_text 500 3661500 (omega arith)

update_inspector-hex_text_example :
    let i = update_inspector (hex_text (0xff ∷ 0x02 ∷ 0x03 ∷ 0x04 ∷ [])) in
    (i.uint8 ≡ some 0xff)
    × ((x : Integer) × (i.int8 ≡ some x) × Stands (2 ^ 7) 0xff x)
    × ShowsBoth (2 ^ 15) (0xff + 256 * 0x02, 256 * 0xff + 0x02) i.uint16 i.int16
    × ShowsBoth
        (2 ^ 31)
        (
          0xff + 256 * 0x02 + 65536 * 0x03 + 16777216 * 0x04,
          16777216 * 0xff + 65536 * 0x02 + 256 * 0x03 + 0x04,
        )
        i.uint32
        i.int32
    × ShowsFloats
        (
          0xff + 256 * 0x02 + 65536 * 0x03 + 16777216 * 0x04,
          16777216 * 0xff + 65536 * 0x02 + 256 * 0x03 + 0x04,
        )
        i.float32
    × (i.string ≡ map shown_byte (0xff ∷ 0x02 ∷ 0x03 ∷ 0x04 ∷ []))
update_inspector-hex_text_example =
    update_inspector-hex_text 0xff 0x02 0x03 0x04 []
      (omega arith, (omega arith, (omega arith, (omega arith, tt))))

-- Pi as a float, a negative number that rounds to zero, and the negative zero.
pi_shown : to_fixed (get_float32 0x40490fdb) ≡ fixed (codes "3.1416")
unfolding to_fixed get_float32
pi_shown = refl

small_shown : to_fixed (get_float32 0x80000001) ≡ fixed (codes "-0.0000")
unfolding to_fixed get_float32
small_shown = refl

zero_shown : to_fixed (get_float32 0x80000000) ≡ fixed (codes "0.0000")
unfolding to_fixed get_float32
zero_shown = refl

render_diff-Compared_example :
    let (html1, html2) =
      render_diff quoted_packet (record quoted_packet { hex_raw = codes "22 2d" }) in
    Compared (split b' ' (codes "22 2c 0a")) (split b' ' (codes "22 2d")) html1
    × Compared (split b' ' (codes "22 2d")) (split b' ' (codes "22 2c 0a")) html2
render_diff-Compared_example =
    render_diff-Compared quoted_packet (record quoted_packet { hex_raw = codes "22 2d" })

toggle_theme-init_example :
    let s = init_theme none true in
    (is_dark (toggle_theme s).applied s.system_dark ≡ not (is_dark s.applied s.system_dark))
    × ((toggle_theme s).shows_sun ≡ is_dark (toggle_theme s).applied s.system_dark)
    × ((init_theme (toggle_theme s).saved false).applied ≡ (toggle_theme s).applied)
    × ((init_theme (toggle_theme s).saved false).shows_sun ≡ (toggle_theme s).shows_sun)
toggle_theme-init_example = toggle_theme-init (init_theme none true) false
