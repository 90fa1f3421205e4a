-- ===== src/Examples/PacketRuns.antt =====
-- Log lines and histories of events.
use serial_tcp_proxy.Prelude.{
  ◌↔◌, true, ◌≡◌, refl, some, List, [], ◌∷◌, Text, codes, split, map, arith,
}
use serial_tcp_proxy.Filter.{Packet, up}
use serial_tcp_proxy.Wire.{packet_line}
use serial_tcp_proxy.Packets.Entry.{parse_entry, up_to_client, make_packet, cut_data}
use serial_tcp_proxy.Packets.Entry.Line.{log_word}
use serial_tcp_proxy.Packets.Entry.Shown.{packet_of}
use serial_tcp_proxy.Packets.Entry.RoundTrip.{parse_entry-packet_line}
use serial_tcp_proxy.Filter.{only, ge}
use serial_tcp_proxy.Filter.Match.{matches_filter}
use serial_tcp_proxy.Filter.Match.Spec.{Compares}
use serial_tcp_proxy.Packets.Entry.Filtered.{LetsThrough, only_length, logged_iff}
use serial_tcp_proxy.Packets.Html.{format_hex, generate_highlighted_hex}
use serial_tcp_proxy.Packets.Html.Highlight.{generate-format}
use mathlib.Core.List.{Perm}
use serial_tcp_proxy.Packets.Sort.{asc, desc}
use serial_tcp_proxy.Packets.Sorted.{IsOrdered, time, field_text, misplaced, sort_items-IsOrdered}
use serial_tcp_proxy.Packets.Headers.{len, unknown_header_idle}
use serial_tcp_proxy.Packets.State.{Stored, Item, push_bounded}
use serial_tcp_proxy.Packets.Handlers.{sort_items, append_packet, render_packets, store_packet}
use serial_tcp_proxy.Packets.Events.{
  Event, log_line, row_clicked, auto_scroll_clicked, run, initial,
}
use serial_tcp_proxy.Packets.Invariant.{Inv}
use serial_tcp_proxy.Packets.Invariant.History.{run-initial-Inv}
use serial_tcp_proxy.Packets.FastPath.{plain_item, append-render}
use serial_tcp_proxy.Examples.LiteralEngine.{literal_engine}

abbrev pub stamp : Text
stamp = codes "2025-11-27T23:48:33.876583+09:00"

abbrev pub line : Text
line = codes "2025-11-27T23:48:33.876583+09:00 [PKT] [UP->] f7 48 00 (3 bytes)"

abbrev pub hello : Packet
unfolding format_hex
hello = record {
  time = codes "23:48:33.876";
  direction = up_to_client;
  length = codes "3";
  hex_raw = codes "f7 48 00";
  hex_formatted = format_hex (codes "f7" ∷ codes "48" ∷ codes "00" ∷ []);
  ascii = codes ".H.";
}

line_parsed : parse_entry line ≡ some hello
unfolding parse_entry hello make_packet cut_data
line_parsed = refl

parse_entry-packet_line_example :
    parse_entry (packet_line stamp (log_word up) (0xf7 ∷ 0x48 ∷ 0 ∷ []) [])
    ≡ some (packet_of stamp up (0xf7 ∷ 0x48 ∷ 0 ∷ []))
parse_entry-packet_line_example =
    parse_entry-packet_line stamp [] up 0xf7 (0x48 ∷ 0 ∷ [])
      (record { blank = omega arith; square = omega arith; round = omega arith })
      (record { blank = tt; square = tt; round = tt }) (omega arith)

logged_iff_example :
    ((matches_filter literal_engine
        (packet_of stamp up (1 ∷ 2 ∷ 3 ∷ []))
        (only up)
        (some (only_length ge 3))).0
      ≡ true)
    ↔ (LetsThrough (only up) up × Compares ge 3 3)
logged_iff_example = logged_iff stamp (1 ∷ 2 ∷ 3 ∷ []) literal_engine (only up) up ge 3

generate-format_example :
    generate_highlighted_hex (codes "f7 48") (7 ∷ []) ≡ format_hex (split b' ' (codes "f7 48"))
unfolding split
generate-format_example = generate-format (codes "f7 48") (7 ∷ []) (λ j h. ground arith)

abbrev pub second_packet : Stored
second_packet = record { id = 1; packet = hello }

abbrev pub first_packet : Stored
first_packet = record { id = 0; packet = hello }

-- Packets of three bytes and of one.
abbrev two_rows : List Item
two_rows =
    plain_item first_packet
    ∷ plain_item (record second_packet { packet = record hello { length = codes "1" } })
    ∷ []

unknown_header_idle_example : sort_items (some (codes "len")) asc two_rows ≡ two_rows
unknown_header_idle_example = unknown_header_idle len asc two_rows

sort_items-IsOrdered_example :
    IsOrdered
      (λ a b. misplaced desc (field_text time a) (field_text time b))
      (sort_items (some (codes "time")) desc two_rows)
    × Perm (sort_items (some (codes "time")) desc two_rows) two_rows
sort_items-IsOrdered_example = sort_items-IsOrdered time desc two_rows

-- Two lines, a third while scrolling is off, and a selection.
abbrev history : List Event
history =
    log_line line
    ∷ log_line line
    ∷ auto_scroll_clicked
    ∷ log_line line
    ∷ row_clicked first_packet
    ∷ row_clicked second_packet
    ∷ []

run-initial-Inv_example : Inv (run literal_engine history initial)
run-initial-Inv_example = run-initial-Inv literal_engine history

-- The state before the first packet.
append-render_example :
    let s' = record initial { next_id = 1; packets = push_bounded first_packet [] } in
    (store_packet literal_engine hello initial ≡ append_packet literal_engine first_packet s')
    × ((append_packet literal_engine first_packet s').processed
        ≡ (render_packets literal_engine s').processed)
    × ((append_packet literal_engine first_packet s').processed ≡ map plain_item s'.packets)
append-render_example = append-render literal_engine initial hello (record {
  no_input = refl;
  no_sorting = refl;
  both_directions = refl;
  no_filter = refl;
  rows = refl;
})
