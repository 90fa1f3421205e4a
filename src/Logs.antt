-- ===== src/Logs.antt =====
-- internal/web/static/modules/logs.js: the list of log entries.
pub mod Scroll
use serial_tcp_proxy.Prelude.{
  ℕ, ◌+◌, ◌≤◌, List, [], ◌∷◌, ◌++◌, Text, codes, includes, split, drop, tail, length, length-append,
  length-tail, ltb, if◌then◌else◌, arith,
}
use serial_tcp_proxy.Utils.Time.{format_time}
use serial_tcp_proxy.Packets.Entry.{first_part, up_tag, down_tag}

-- The class of an entry.
pub data LogType : Type 0 where
  info pkt_up pkt_down warn error : LogType

pub record LogEntry : Type 0 where
  pub kind : LogType
  pub time : Text
  pub content : Text

unfoldable pub log_type : Text → LogType
unfolding includes
log_type line =
    if includes line (codes "[PKT]")
    then if includes line up_tag then pkt_up else if includes line down_tag then pkt_down else info
    else if includes line (codes "[WARN]")
    then warn
    else if includes line (codes "[ERROR]")
    then error
    else info

unfoldable pub make_entry : Text → LogEntry
unfolding log_type split format_time
make_entry line =
    let stamp = first_part (split b' ' line) in
    record {
      kind = log_type line;
      time = format_time stamp;
      content = drop (length stamp + 1) line;
    }

abbrev pub max_logs : ℕ
max_logs = 1000

-- `addLogEntry`: `appendChild`, and `removeChild` of the first if that is one too many.
unfoldable pub add_log_entry : Text → List LogEntry → List LogEntry
unfolding make_entry
add_log_entry line logs =
    let longer = logs ++ make_entry line ∷ [] in
    if ltb max_logs (length longer) then tail longer else longer

abbrev pub clear_logs : List LogEntry → List LogEntry
clear_logs logs = []

pub add_log_entry-le :
    (line : Text) (logs : List LogEntry)
    → length logs ≤ max_logs
    → length (add_log_entry line logs) ≤ max_logs
unfolding add_log_entry
add_log_entry-le line logs h =
    ground
      (arith, length-tail (logs ++ make_entry line ∷ []), length-append logs (make_entry line ∷ []))
