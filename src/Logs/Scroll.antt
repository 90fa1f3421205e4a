-- ===== src/Logs/Scroll.antt =====
-- internal/web/static/modules/logs.js: `addLogEntry` with the position of the list.
use serial_tcp_proxy.Prelude.{
  ℕ, ◌+◌, ◌-◌, ◌≤◌, ◌≡◌, List, [], ◌∷◌, ◌++◌, Text, length, tail, max, min, ltb, if◌then◌else◌,
  arith,
}
use serial_tcp_proxy.Logs.{LogEntry, make_entry, max_logs, add_log_entry}

-- The container: its entries, and `scrollTop`.
pub record LogPane : Type 0 where
  pub entries : List LogEntry
  pub scroll_top : ℕ

-- What the browser lays out: the container's `clientHeight`, the height of each entry with the gap
-- behind it, and what the padding adds.
pub record Layout : Type 0 where
  pub client_height : ℕ
  pub height : LogEntry → ℕ
  pub padding : ℕ

abbrev pub heights : (LogEntry → ℕ) → List LogEntry → ℕ
heights h [] = 0
heights h (e ∷ entries) = h e + heights h entries

-- `scrollHeight`
abbrev pub scroll_height : Layout → List LogEntry → ℕ
scroll_height l entries = max (l.padding + heights l.height entries) l.client_height

-- The position of the bottom; a position behind it becomes this one, which is all that the browser
-- does to it of itself.
abbrev pub bottom : Layout → List LogEntry → ℕ
bottom l entries = scroll_height l entries - l.client_height

-- Auto scroll, with the new entry in the list.
abbrev pub follow : Layout → List LogEntry → ℕ → ℕ
follow l entries top =
    if ltb (scroll_height l entries - top - l.client_height) 100
    then min (scroll_height l entries) (bottom l entries)
    else top

unfoldable pub append_log : Layout → Text → LogPane → LogPane
unfolding make_entry
append_log l line pane =
    let longer = pane.entries ++ make_entry line ∷ [] in
    let top = follow l longer pane.scroll_top in
    if ltb max_logs (length longer)
    then record { entries = tail longer; scroll_top = min top (bottom l (tail longer)) }
    else record { entries = longer; scroll_top = top }

heights-append :
    (h : LogEntry → ℕ) (entries : List LogEntry) (e : LogEntry)
    → heights h (entries ++ e ∷ []) ≡ heights h entries + h e
heights-append h [] e = omega arith
heights-append h (x ∷ entries) e = omega (arith, heights-append h entries e)

heights-tail :
    (h : LogEntry → ℕ) (entries : List LogEntry) → heights h (tail entries) ≤ heights h entries
heights-tail h [] = omega arith
heights-tail h (x ∷ entries) = omega arith

-- In a list of logs with at least as much in it as it shows, at a position that it can have: a
-- new line puts it at its bottom if the distance from the bottom before and the height of the new
-- entry are together less than 100 pixels; otherwise the position stays, or becomes the bottom if
-- that is above it, as it can be when the oldest entry is taken out. The entries do not depend on
-- the position. The browser moves the position of itself only where there is no such one any
-- more.
pub append_log-scroll_top :
    (l : Layout) (line : Text) (pane : LogPane)
    → l.client_height ≤ l.padding + heights l.height pane.entries
    → pane.scroll_top ≤ bottom l pane.entries
    → let pane' = append_log l line pane in
      let low = bottom l pane'.entries in
      let distance = bottom l pane.entries - pane.scroll_top in
      (pane'.entries ≡ add_log_entry line pane.entries)
      × (pane'.scroll_top ≡ (
          if ltb (distance + l.height (make_entry line)) 100 then low else min pane.scroll_top low))
unfolding append_log add_log_entry
append_log-scroll_top l line pane full in_range =
    let longer = pane.entries ++ make_entry line ∷ [] in
    (
      ground arith,
      ground (
        arith,
        full,
        in_range,
        heights-append l.height pane.entries (make_entry line),
        heights-tail l.height longer,
      ),
    )
