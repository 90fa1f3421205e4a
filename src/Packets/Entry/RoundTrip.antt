-- ===== src/Packets/Entry/RoundTrip.antt =====
-- The reader of internal/web/static/modules/packets.js against the writer of
-- internal/logger/logger.go.
use serial_tcp_proxy.Prelude.{
  ℕ, ◌<◌, ◌≡◌, ◌≢◌, refl, ap, sym, ◌∙◌, ◌⊎◌, inl, inr, true, false, some, List, [], ◌∷◌, ◌++◌, Text,
  codes, All, All-append, Lacks, includes, includes_skip, includes-Lacks, length, arith,
}
use serial_tcp_proxy.Filter.{Direction, up, down}
use serial_tcp_proxy.Wire.{format_bytes, format_decimal, line_end, packet_line}
use serial_tcp_proxy.Wire.Bytes.{IsByte, format_bytes-Lacks}
use serial_tcp_proxy.Wire.Decimal.{format_decimal-IsDigit, IsDigit-Lacks}
use serial_tcp_proxy.Packets.Entry.{
  up_tag, down_tag, up_to_client, client_to_up, cut_data, make_packet, parse_entry,
}
use serial_tcp_proxy.Packets.Entry.Line.{
  IsPlain, log_word, tag, table_word, stamp_end, bracketed, includes-tag, includes_pkt, not_up,
  cut_data_lem,
}
use serial_tcp_proxy.Packets.Entry.Shown.{packet_of, make_packet_lem}

-- What `parseEntry` chooses, for a line with a tag.
parse_entry_up :
    (line : Text)
    → includes line (codes "[PKT]") ≡ true
    → includes line up_tag ≡ true
    → parse_entry line ≡ some (make_packet line up_to_client (cut_data up_tag line))
unfolding parse_entry
parse_entry_up line p u = rw (p, u)

parse_entry_down :
    (line : Text)
    → includes line (codes "[PKT]") ≡ true
    → includes line up_tag ≡ false
    → includes line down_tag ≡ true
    → parse_entry line ≡ some (make_packet line client_to_up (cut_data down_tag line))
unfolding parse_entry
parse_entry_down line p u d = rw (p, u) (rw d refl)

line_end-Lacks :
    (c : ℕ) (source : Text)
    → Lacks c (codes " from ")
    → c ≢ 10
    → Lacks c source
    → Lacks c (line_end source)
line_end-Lacks c [] l n h = ((λ e. n (sym e)), tt)
line_end-Lacks c (x ∷ source) (q0, (q1, (q2, (q3, (q4, (q5, _)))))) n h = (
  q0,
  (
    q1,
    (q2, (q3, (q4, (q5, All-append (λ u. u ≢ c) (x ∷ source) (10 ∷ []) h ((λ e. n (sym e)), tt))))),
  ),
)

module _ (ts source : Text) (d : Direction) (b : ℕ) (bytes : List ℕ) (stamp : IsPlain ts)
    (from : IsPlain source) (small : All IsByte (b ∷ bytes)) where
  abbrev number : Text
  number = format_decimal (length (b ∷ bytes))

  abbrev behind_number : Text
  behind_number = codes " bytes)" ++ line_end source

  -- Behind the hex text, with the pieces that a search has to pass over.
  abbrev remainder : Text
  remainder = b' ' ∷ (format_bytes (b ∷ bytes) ++ (codes " (" ++ (number ++ behind_number)))

  abbrev pieces : Text
  pieces = ts ++ (stamp_end ++ (tag d ++ remainder))

  packet_line_lem : packet_line ts (log_word d) (b ∷ bytes) source ≡ pieces
  unfolding packet_line
  packet_line_lem = ap (◌++◌ ts) (bracketed d _)

  number-Lacks : (c : ℕ) → ((c < b'0') ⊎ (b'9' < c)) → Lacks c number
  number-Lacks c h = IsDigit-Lacks c number h (format_decimal-IsDigit (length (b ∷ bytes)))

  after_number-round : Lacks b'(' (number ++ behind_number)
  after_number-round =
      All-append (λ u. u ≢ b'(') number behind_number (number-Lacks b'(' (inl (omega arith)))
        (All-append (λ u. u ≢ b'(') (codes " bytes)") (line_end source) (omega arith)
          (line_end-Lacks b'(' source (omega arith) (omega arith) from.round))

  remainder-square : Lacks b'[' remainder
  remainder-square = (
    omega arith,
    All-append (λ u. u ≢ b'[') (format_bytes (b ∷ bytes)) _
        (format_bytes-Lacks b'[' (b ∷ bytes) (inr (omega arith, omega arith)) (omega arith))
        (
          omega arith,
          (
            omega arith,
            All-append (λ u. u ≢ b'[') number behind_number (number-Lacks b'[' (inr (omega arith)))
                (All-append (λ u. u ≢ b'[') (codes " bytes)") (line_end source) (omega arith)
                  (line_end-Lacks b'[' source (omega arith) (omega arith) from.square)),
          ),
        ),
  )

  cut_pieces : cut_data (tag d) pieces ≡ (format_bytes (b ∷ bytes), number)
  cut_pieces =
      cut_data_lem ts d b bytes number (line_end source) stamp.blank stamp.square small.0
        (number-Lacks b' ' (inl (omega arith))) after_number-round

  made : make_packet pieces (table_word d) (cut_data (tag d) pieces) ≡ packet_of ts d (b ∷ bytes)
  made =
      ap (make_packet pieces (table_word d)) cut_pieces
      ∙ make_packet_lem ts (codes "[PKT] " ++ (tag d ++ remainder)) d b bytes stamp.blank small

  pkt_found : includes pieces (codes "[PKT]") ≡ true
  pkt_found =
      includes_skip b'[' (codes "PKT]") ts (stamp_end ++ (tag d ++ remainder)) stamp.square
      ∙ includes_pkt (tag d ++ remainder)

-- The browser reads from the logger's line of a message with at least one byte, in both
-- directions, with a source or without, the message's packet: its bytes in hex, their number, the
-- signs that are printable and dots for the others. The time stamp and the source have no blank
-- and no opening bracket.
pub parse_entry-packet_line :
    (ts source : Text) (d : Direction) (b : ℕ) (bytes : List ℕ)
    → IsPlain ts
    → IsPlain source
    → All IsByte (b ∷ bytes)
    → parse_entry (packet_line ts (log_word d) (b ∷ bytes) source)
      ≡ some (packet_of ts d (b ∷ bytes))
parse_entry-packet_line ts source up b bytes stamp from small =
    ap parse_entry (packet_line_lem ts source up b bytes stamp from small)
    ∙ parse_entry_up line (pkt_found ts source up b bytes stamp from small) tagged
    ∙ ap some (made ts source up b bytes stamp from small)
  where
    line : Text
    line = pieces ts source up b bytes stamp from small

    tagged : includes line up_tag ≡ true
    tagged =
        includes_skip b'[' (codes "UP->]") ts
          (stamp_end ++ (up_tag ++ remainder ts source up b bytes stamp from small)) stamp.square
        ∙ includes-tag up (remainder ts source up b bytes stamp from small)
parse_entry-packet_line ts source down b bytes stamp from small =
    ap parse_entry (packet_line_lem ts source down b bytes stamp from small)
    ∙ parse_entry_down line (pkt_found ts source down b bytes stamp from small) untagged tagged
    ∙ ap some (made ts source down b bytes stamp from small)
  where
    rest : Text
    rest = remainder ts source down b bytes stamp from small

    line : Text
    line = pieces ts source down b bytes stamp from small

    untagged : includes line up_tag ≡ false
    untagged =
        includes_skip b'[' (codes "UP->]") ts (stamp_end ++ (down_tag ++ rest)) stamp.square
        ∙ not_up rest
        ∙ includes-Lacks b'[' (codes "UP->]") rest
            (remainder-square ts source down b bytes stamp from small)

    tagged : includes line down_tag ≡ true
    tagged =
        includes_skip b'[' (codes "->UP]") ts (stamp_end ++ (down_tag ++ rest)) stamp.square
        ∙ includes-tag down rest
