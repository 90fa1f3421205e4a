-- ===== src/Packets/Entry/Line.antt =====
-- Where `parseEntry` of internal/web/static/modules/packets.js cuts the line that `LogPacket` of
-- internal/logger/logger.go writes.
use serial_tcp_proxy.Prelude.{
  ℕ, ◌+◌, ◌/◌, ◌≡◌, refl, ap, ◌∙◌, true, some, List, [], ◌∷◌, ◌++◌, append_assoc, Text, codes,
  Lacks, includes, index_of, index_of_skip, last_index_of, last_index_of_lem, substring,
  substring_lem, trim, trim_lem, length, length-append, arith,
}
use serial_tcp_proxy.Filter.{Direction, up, down}
use serial_tcp_proxy.Wire.{hex_digit, format_bytes}
use serial_tcp_proxy.Wire.Bytes.{
  IsByte, format_bytes_first, format_bytes_last, index_of_bytes, hex_digit-no_space,
}
use serial_tcp_proxy.Packets.Entry.{up_tag, down_tag, up_to_client, client_to_up, cut_data}

-- A time stamp or a source: no blank and no bracket.
pub record IsPlain (s : Text) : Type 0 where
  pub blank : Lacks b' ' s
  pub square : Lacks b'[' s
  pub round : Lacks b'(' s

-- The words that the logger and the table have for a direction.
abbrev pub log_word : Direction → Text
log_word up = codes "UP->"
log_word down = codes "->UP"

abbrev pub tag : Direction → Text
tag up = up_tag
tag down = down_tag

abbrev pub table_word : Direction → Text
table_word up = up_to_client
table_word down = client_to_up

abbrev pub stamp_end : Text
stamp_end = codes " [PKT] "

pub bracketed :
    (d : Direction) (rest : Text)
    → codes " [PKT] [" ++ (log_word d ++ (codes "] " ++ rest)) ≡ stamp_end ++ (tag d ++ b' ' ∷ rest)
bracketed up rest = refl
bracketed down rest = refl

pub includes-tag :
    (d : Direction) (rest : Text) → includes (stamp_end ++ (tag d ++ rest)) (tag d) ≡ true
unfolding includes
includes-tag up rest = refl
includes-tag down rest = refl

pub includes_pkt : (rest : Text) → includes (stamp_end ++ rest) (codes "[PKT]") ≡ true
unfolding includes
includes_pkt rest = refl

pub not_up :
    (rest : Text) → includes (stamp_end ++ (down_tag ++ rest)) up_tag ≡ includes rest up_tag
unfolding includes
not_up rest = refl

tag_index : (d : Direction) (rest : Text) → index_of (stamp_end ++ (tag d ++ rest)) (tag d) ≡ some 7
unfolding index_of
tag_index up rest = refl
tag_index down rest = refl

bytes_index :
    (d : Direction) (rest : Text) (k : ℕ)
    → index_of rest (codes " bytes") ≡ some k
    → index_of (stamp_end ++ (tag d ++ rest)) (codes " bytes") ≡ some (13 + k)
unfolding index_of
bytes_index up rest k h = rw h (ap some (omega arith))
bytes_index down rest k h = rw h (ap some (omega arith))

length-tag : (d : Direction) → length (tag d) ≡ 6
length-tag up = refl
length-tag down = refl

number_index :
    (size rest : Text)
    → Lacks b' ' size
    → index_of (codes " (" ++ (size ++ (codes " bytes)" ++ rest))) (codes " bytes")
      ≡ some (2 + length size)
unfolding index_of
number_index size rest l =
    rw (index_of_skip b' ' (codes "bytes") size (codes " bytes)" ++ rest) 0 l refl)
      (ap some (omega arith))

-- A line, taken apart at the bracket before the number.
module _ (ts tag' hex size rest : Text) where
  abbrev head : Text
  head = ts ++ (stamp_end ++ (tag' ++ b' ' ∷ (hex ++ b' ' ∷ [])))

  abbrev whole : Text
  whole = ts ++ (stamp_end ++ (tag' ++ b' ' ∷ (hex ++ (codes " (" ++ (size ++ rest)))))

  at_bracket : whole ≡ head ++ b'(' ∷ (size ++ rest)
  at_bracket = simp append_assoc

  behind_tag :
      whole ≡ (ts ++ (stamp_end ++ tag')) ++ ((b' ' ∷ (hex ++ b' ' ∷ [])) ++ b'(' ∷ (size ++ rest))
  behind_tag = simp append_assoc

  behind_bracket : whole ≡ (head ++ b'(' ∷ []) ++ (size ++ rest)
  behind_bracket = simp append_assoc

  length-head : length head ≡ length ts + length tag' + length hex + 9
  length-head = omega (
    arith,
    length-append ts (stamp_end ++ (tag' ++ b' ' ∷ (hex ++ b' ' ∷ []))),
    length-append tag' (b' ' ∷ (hex ++ b' ' ∷ [])),
    length-append hex (b' ' ∷ []),
  )

  length-front : length (ts ++ (stamp_end ++ tag')) ≡ length ts + length tag' + 7
  length-front = omega (arith, length-append ts (stamp_end ++ tag'))

tag-cons : (d : Direction) → (t : Text) × (tag d ≡ b'[' ∷ t)
tag-cons up = (codes "UP->]", refl)
tag-cons down = (codes "->UP]", refl)

-- `indexOf` finds the tag behind the stamp and the level.
line_tag :
    (ts : Text) (d : Direction) (rest : Text)
    → Lacks b'[' ts
    → index_of (ts ++ (stamp_end ++ (tag d ++ rest))) (tag d) ≡ some (length ts + 7)
line_tag ts up rest l =
    index_of_skip b'[' (codes "UP->]") ts (stamp_end ++ (tag up ++ rest)) 7 l (tag_index up rest)
line_tag ts down rest l =
    index_of_skip b'[' (codes "->UP]") ts (stamp_end ++ (tag down ++ rest)) 7 l
      (tag_index down rest)

-- `indexOf(' bytes')` finds the word behind the number.
line_bytes :
    (ts : Text) (d : Direction) (b : ℕ) (bytes : List ℕ) (size rest : Text)
    → Lacks b' ' ts
    → Lacks b' ' size
    → index_of
        (whole ts (tag d) (format_bytes (b ∷ bytes)) size (codes " bytes)" ++ rest))
        (codes " bytes")
      ≡ some (length ts + (13 + (1 + length (format_bytes (b ∷ bytes)) + (2 + length size))))
line_bytes ts d b bytes size rest lt ls =
    index_of_skip b' ' (codes "bytes") ts _ _ lt
      (bytes_index d _ _ (index_of_bytes b bytes _ _ (number_index size rest ls)))

trim_bytes :
    (b : ℕ) (bytes : List ℕ)
    → IsByte b
    → trim (b' ' ∷ (format_bytes (b ∷ bytes) ++ b' ' ∷ [])) ≡ format_bytes (b ∷ bytes)
trim_bytes b bytes h =
    let (t, p) = format_bytes_first b bytes in
    let (a, x, lt, q) = format_bytes_last b bytes in
    trim_lem (format_bytes (b ∷ bytes)) a (hex_digit (b / 16)) (hex_digit x) t p q
      (hex_digit-no_space (b / 16) (omega arith)) (hex_digit-no_space x lt)

cut_data_step :
    (line tag' : Text) (i j k : ℕ)
    → index_of line tag' ≡ some i
    → last_index_of line b'(' ≡ some j
    → index_of line (codes " bytes") ≡ some k
    → cut_data tag' line ≡ (trim (substring line (i + 6) j), substring line (j + 1) k)
unfolding cut_data
cut_data_step line tag' i j k p q r = rw (p, cut_data) (rw q (rw r refl))

module _ (ts : Text) (d : Direction) (b : ℕ) (bytes : List ℕ) (size rest : Text)
    (stamp_blank : Lacks b' ' ts) (stamp_square : Lacks b'[' ts) (small : IsByte b)
    (size_blank : Lacks b' ' size) (no_round : Lacks b'(' (size ++ (codes " bytes)" ++ rest))) where
  abbrev the_hex : Text
  the_hex = format_bytes (b ∷ bytes)

  abbrev the_rest : Text
  the_rest = codes " bytes)" ++ rest

  abbrev the_line : Text
  the_line = whole ts (tag d) the_hex size the_rest

  -- The reader cuts out the hex text and the number.
  pub cut_data_lem : cut_data (tag d) the_line ≡ (the_hex, size)
  cut_data_lem =
      cut_data_step the_line (tag d) (length ts + 7)
        (length (head ts (tag d) the_hex size the_rest))
        (length ts + (13 + (1 + length the_hex + (2 + length size))))
        (line_tag ts d (b' ' ∷ (the_hex ++ (codes " (" ++ (size ++ the_rest)))) stamp_square)
        bracket (line_bytes ts d b bytes size rest stamp_blank size_blank)
      ∙ (λ i. (hex_part i, size_part i))
    where
      bracket : last_index_of the_line b'(' ≡ some (length (head ts (tag d) the_hex size the_rest))
      bracket =
          ap (λ s. last_index_of s b'(') (at_bracket ts (tag d) the_hex size the_rest)
          ∙ last_index_of_lem b'(' (head ts (tag d) the_hex size the_rest) (size ++ the_rest)
              no_round

      hex_part :
          trim (
            substring the_line (length ts + 7 + 6) (length (head ts (tag d) the_hex size the_rest)))
          ≡ the_hex
      hex_part =
          ap trim (
            substring_lem the_line (ts ++ (stamp_end ++ tag d)) (b' ' ∷ (the_hex ++ b' ' ∷ []))
              (b'(' ∷ (size ++ the_rest)) (length ts + 7 + 6)
              (length (head ts (tag d) the_hex size the_rest))
              (behind_tag ts (tag d) the_hex size the_rest)
              (omega (arith, length-front ts (tag d) the_hex size the_rest, length-tag d))
              (omega (
                arith,
                length-front ts (tag d) the_hex size the_rest,
                length-head ts (tag d) the_hex size the_rest,
                length-append the_hex (b' ' ∷ []),
              )))
          ∙ trim_bytes b bytes small

      size_part :
          substring the_line
            (length (head ts (tag d) the_hex size the_rest) + 1)
            (length ts + (13 + (1 + length the_hex + (2 + length size))))
          ≡ size
      size_part =
          substring_lem the_line (head ts (tag d) the_hex size the_rest ++ b'(' ∷ []) size the_rest
            (length (head ts (tag d) the_hex size the_rest) + 1)
            (length ts + (13 + (1 + length the_hex + (2 + length size))))
            (behind_bracket ts (tag d) the_hex size the_rest)
            (omega (arith, length-append (head ts (tag d) the_hex size the_rest) (b'(' ∷ [])))
            (omega (
              arith,
              length-append (head ts (tag d) the_hex size the_rest) (b'(' ∷ []),
              length-head ts (tag d) the_hex size the_rest,
              length-tag d,
            ))
