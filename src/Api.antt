-- ===== src/Api.antt =====
-- The addresses of internal/web/static/modules/api.js.
use serial_tcp_proxy.Prelude.{
  Lacks, arith, ◌≡◌, refl, none, some, [], ◌∷◌, ◌++◌, Text, codes, text_eq, split_last,
  if◌then◌else◌,
}

-- `path.replace(/\/[^/]*$/, '')`: the last `/` and what stands behind it go.
unfoldable pub base_path : Text → Text
unfolding split_last
base_path path = elim (split_last b'/' path) [ none ↦ path | some (before, _) ↦ before ]

unfoldable pub api_url : Text → Text → Text
unfolding base_path
api_url path endpoint = base_path path ++ endpoint

-- The protocol and the host of the page, and its path.
unfoldable pub ws_url : Text → Text → Text → Text → Text
unfolding base_path
ws_url protocol host path endpoint =
    let scheme = if text_eq protocol (codes "https:") then codes "wss:" else codes "ws:" in
    scheme ++ codes "//" ++ host ++ base_path path ++ endpoint

last_none : (file : Text) → Lacks b'/' file → split_last b'/' file ≡ none
unfolding split_last
last_none [] h = refl
last_none (c ∷ file) h = ground (arith, last_none file h.1, h.0)

last_behind :
    (base file : Text) → Lacks b'/' file → split_last b'/' (base ++ b'/' ∷ file) ≡ some (base, file)
unfolding split_last
last_behind [] file h = rw (last_none file h) refl
last_behind (c ∷ base) file h = rw (last_behind base file h) refl

-- The page of a directory reaches the addresses below the directory, whatever file of it is shown.
pub api_url-file :
    (base file endpoint : Text)
    → Lacks b'/' file
    → api_url (base ++ b'/' ∷ file) endpoint ≡ base ++ endpoint
unfolding api_url base_path
api_url-file base file endpoint h = rw (last_behind base file h, base_path) refl
