-- ===== src/Ui/Status.antt =====
-- `updateStatus` of internal/web/static/modules/ui.js.
use serial_tcp_proxy.Prelude.{
  ℕ, Bool, not, Option, [], ◌∷◌, ◌++◌, Text, codes, text_eq, length, ltb, ◌==◌, if◌then◌else◌,
}
use serial_tcp_proxy.Wire.{format_decimal}

-- The status of the server; `start_time` is the date that the language reads, if there is one.
pub record Status : Type 0 where
  pub upstream_state : Text
  pub upstream_addr : Text
  pub listen_addr : Text
  pub connected_clients : ℕ
  pub max_clients : ℕ
  pub start_time : Option ℕ

-- The badge with its two classes, the address with its size, the port, and the number of clients.
pub record StatusView : Type 0 where
  pub is_connected : Bool
  pub is_disconnected : Bool
  pub badge : Text
  pub address : Text
  pub font_size : Text
  pub port : Text
  pub clients : Text

-- `adjustFontSize`
unfoldable pub font_size_for : ℕ → Text
font_size_for len =
    if ltb 25 len
    then codes "0.875rem"
    else if ltb 20 len
    then codes "1rem"
    else if ltb 15 len
    then codes "1.125rem"
    else []

-- `s.replace(':', '')`, which takes out the first one.
abbrev pub without_colon : Text → Text
without_colon [] = []
without_colon (c ∷ s) = let rest = without_colon s in if c == b':' then s else c ∷ rest

-- What is shown, and the start time that is returned.
unfoldable pub update_status : Status → StatusView × Option ℕ
unfolding font_size_for format_decimal
update_status status =
    let is_connected = text_eq status.upstream_state (codes "Connected") in
    (
      record {
        is_connected = is_connected;
        is_disconnected = not is_connected;
        badge = status.upstream_state;
        address = status.upstream_addr;
        font_size = font_size_for (length status.upstream_addr);
        port = without_colon status.listen_addr;
        clients =
            format_decimal status.connected_clients
            ++ codes " / "
            ++ format_decimal status.max_clients;
      },
      status.start_time,
    )
