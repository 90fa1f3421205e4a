-- ===== src/Packets/Headers.antt =====
-- The headers of the table and the sorting of internal/web/static/modules/packets.js.
use serial_tcp_proxy.Prelude.{◌≡◌, refl, false, some, List, Text, codes}
use serial_tcp_proxy.Filter.{Packet}
use serial_tcp_proxy.Packets.Sort.{Order, asc, desc, goes_after, sort_stable_idle}
use serial_tcp_proxy.Packets.State.{Item}
use serial_tcp_proxy.Packets.Handlers.{sort_items}

-- The fields that three of the five headers name; a packet has `direction`, `length` and `hexRaw`.
pub data UnknownField : Text → Type 0 where
  dir : UnknownField (codes "dir")
  len : UnknownField (codes "len")
  hex : UnknownField (codes "hex")

goes_after_unknown :
    {field : Text} (u : UnknownField field) (o : Order) (a b : Packet)
    → goes_after field o a b ≡ false
unfolding goes_after
goes_after_unknown dir asc a b = refl
goes_after_unknown dir desc a b = refl
goes_after_unknown len asc a b = refl
goes_after_unknown len desc a b = refl
goes_after_unknown hex asc a b = refl
goes_after_unknown hex desc a b = refl

-- A click on the header of the direction, of the length or of the hex data sorts nothing: the
-- rows stay in the order in which they came.
pub unknown_header_idle :
    {field : Text} (u : UnknownField field) (o : Order) (items : List Item)
    → sort_items (some field) o items ≡ items
unfolding sort_items
unknown_header_idle dir o items =
    sort_stable_idle _ (λ a b. goes_after_unknown dir o a.stored.packet b.stored.packet) items
unknown_header_idle len o items =
    sort_stable_idle _ (λ a b. goes_after_unknown len o a.stored.packet b.stored.packet) items
unknown_header_idle hex o items =
    sort_stable_idle _ (λ a b. goes_after_unknown hex o a.stored.packet b.stored.packet) items
