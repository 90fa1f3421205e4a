-- ===== src/Clients/Shown.antt =====
-- The rows that internal/web/static/modules/clients.js shows.
use mathlib.Core.List.{Perm}
use serial_tcp_proxy.Prelude.{
  ℕ, ◌≡◌, ◌≤◌, All, refl, true, false, List, [], ◌∷◌, Text, map, length, length-map, if◌then◌else◌,
  ◌==◌, arith,
}
use serial_tcp_proxy.Packets.Sort.{sort_stable, length-sort_stable}
use serial_tcp_proxy.Packets.Sorted.{IsOrdered, sort_stable-IsOrdered, sort_stable-Perm}
use serial_tcp_proxy.Clients.{
  Client, ClientRow, format_connected_time, Report, connected_later, client_row, render_clients,
}

later_asym : (a b : Client) → connected_later a b ≡ true → connected_later b a ≡ false
later_asym a b h = ground arith

later_trans :
    (a b c : Client)
    → connected_later a b ≡ false
    → connected_later b c ≡ false
    → connected_later a c ≡ false
later_trans a b c p q = ground arith

rows_lem :
    (local : ℕ → Text) (now : ℕ) (clients : List Client)
    → let all = map (client_row local now) (sort_stable connected_later clients) in
      let rows = if length clients == 0 then [] else all in
      (rows ≡ all) × ((length clients == 0) ≡ (length rows == 0))
unfolding sort_stable
rows_lem local now [] = (refl, refl)
rows_lem local now (c ∷ clients) =
    let some_there : (length (c ∷ clients) == 0) ≡ false = ground arith in
    let all = map (client_row local now) (sort_stable connected_later (c ∷ clients)) in
    rw some_there (
      refl,
      ground (
        arith,
        length-map (client_row local now) (sort_stable connected_later (c ∷ clients)),
        length-sort_stable connected_later (c ∷ clients),
      ),
    )

-- No client has connected before one that stands above it.
abbrev pub OldestFirst : List Client → Type 0
OldestFirst [] = Unit
OldestFirst (c ∷ clients) = All (λ d. c.connected_at ≤ d.connected_at) clients × OldestFirst clients

later-All :
    (c : Client) (clients : List Client)
    → All (λ d. connected_later c d ≡ false) clients
    → All (λ d. c.connected_at ≤ d.connected_at) clients
later-All c [] h = tt
later-All c (d ∷ clients) h = (ground (arith, h.0), later-All c clients h.1)

IsOrdered-OldestFirst :
    (clients : List Client) → IsOrdered connected_later clients → OldestFirst clients
IsOrdered-OldestFirst [] h = tt
IsOrdered-OldestFirst (c ∷ clients) h = (later-All c clients h.0, IsOrdered-OldestFirst clients h.1)

-- The fields of a client, and the time since it has connected.
abbrev pub shown_client : (ℕ → Text) → ℕ → Client → ClientRow
shown_client local now c = record {
  id = c.id;
  addr = c.addr;
  kind = c.kind;
  time = format_connected_time local now c.connected_at;
}

-- The rows are those of the clients of the answer, each once with its fields and the text for its
-- time, and none has connected before one that stands above it; and the message that there are
-- none is shown exactly without rows.
pub render_clients-OldestFirst :
    (local : ℕ → Text) (now : ℕ) (report : Report)
    → let v = render_clients local now report in
      (clients : List Client) × (v.rows ≡ map (shown_client local now) clients)
      × Perm clients report.clients
      × OldestFirst clients
      × (v.is_message_shown ≡ (length v.rows == 0))
unfolding render_clients client_row
render_clients-OldestFirst local now report =
    let sorted = sort_stable connected_later report.clients in
    let (rows, message) = rows_lem local now report.clients in
    (
      sorted,
      rows,
      sort_stable-Perm connected_later report.clients,
      IsOrdered-OldestFirst sorted
          (sort_stable-IsOrdered connected_later later_asym later_trans report.clients),
      message,
    )
