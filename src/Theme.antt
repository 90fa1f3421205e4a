-- ===== src/Theme.antt =====
-- internal/web/static/modules/theme.js: the page's colours, the button, and the stored choice.
use serial_tcp_proxy.Prelude.{
  ◌≡◌, refl, Bool, true, false, not, Option, none, some, [], ◌∷◌, Text, codes, text_eq,
  if◌then◌else◌,
}

-- The attribute `data-theme`; `auto` is its absence.
pub data Theme : Type 0 where
  auto light dark : Theme

-- `shows_sun` is the button's icon, and `saved` what localStorage has for the theme.
pub record ThemeState : Type 0 where
  pub applied : Theme
  pub shows_sun : Bool
  pub saved : Option Text
  pub system_dark : Bool

abbrev pub theme_of : Text → Theme
theme_of s =
    if text_eq s (codes "dark") then dark else if text_eq s (codes "light") then light else auto

abbrev pub theme_name : Theme → Text
theme_name auto = codes "auto"
theme_name light = codes "light"
theme_name dark = codes "dark"

unfoldable pub apply_theme : Theme → ThemeState → ThemeState
apply_theme dark s = record s { applied = dark; shows_sun = true }
apply_theme light s = record s { applied = light; shows_sun = false }
apply_theme auto s = record s { applied = auto; shows_sun = s.system_dark }

-- The theme that is applied when the page is loaded.
abbrev pub saved_theme : Option Text → Theme
saved_theme none = auto
saved_theme (some []) = auto
saved_theme (some (c ∷ s)) = theme_of (c ∷ s)

unfoldable pub init_theme : Option Text → Bool → ThemeState
unfolding apply_theme
init_theme saved system_dark =
    apply_theme (saved_theme saved)
      (record { applied = auto; shows_sun = false; saved = saved; system_dark = system_dark })

abbrev pub next_theme : Theme → Bool → Theme
next_theme light system_dark = dark
next_theme dark system_dark = light
next_theme auto system_dark = if system_dark then light else dark

-- The click on the button.
unfoldable pub toggle_theme : ThemeState → ThemeState
unfolding apply_theme
toggle_theme s =
    let next = next_theme s.applied s.system_dark in
    apply_theme next (record s { saved = some (theme_name next) })

-- The system's preference changes: a stored choice keeps the page as it is.
unfoldable pub system_changed : Bool → ThemeState → ThemeState
unfolding apply_theme
system_changed system_dark s =
    let s' = record s { system_dark = system_dark } in
    elim s.saved [
      | none ↦ apply_theme auto s'
      | some t ↦ if text_eq t [] then apply_theme auto s' else s'
    ]

-- What the user sees: the attribute, or the system's preference where it is absent.
abbrev pub is_dark : Theme → Bool → Bool
is_dark auto system_dark = system_dark
is_dark light system_dark = false
is_dark dark system_dark = true

-- The button for an attribute and a preference that are known.
toggled :
    (applied : Theme) (sun : Bool) (saved : Option Text) (system later : Bool)
    → let s : ThemeState = record {
      applied = applied;
      shows_sun = sun;
      saved = saved;
      system_dark = system;
    } in
      (is_dark (toggle_theme s).applied system ≡ not (is_dark applied system))
      × ((toggle_theme s).shows_sun ≡ is_dark (toggle_theme s).applied system)
      × ((init_theme (toggle_theme s).saved later).applied ≡ (toggle_theme s).applied)
      × ((init_theme (toggle_theme s).saved later).shows_sun ≡ (toggle_theme s).shows_sun)
unfolding toggle_theme init_theme
toggled auto sun saved true later = (refl, refl, refl, refl)
toggled auto sun saved false later = (refl, refl, refl, refl)
toggled light sun saved system later = (refl, refl, refl, refl)
toggled dark sun saved system later = (refl, refl, refl, refl)

-- A click on the theme button turns a dark page light and a light one dark, shows the sun exactly
-- on a dark page, and stores what a later load of the page applies again, with the same icon,
-- whatever the system then prefers.
pub toggle_theme-init :
    (s : ThemeState) (later : Bool)
    → (is_dark (toggle_theme s).applied s.system_dark ≡ not (is_dark s.applied s.system_dark))
      × ((toggle_theme s).shows_sun ≡ is_dark (toggle_theme s).applied s.system_dark)
      × ((init_theme (toggle_theme s).saved later).applied ≡ (toggle_theme s).applied)
      × ((init_theme (toggle_theme s).saved later).shows_sun ≡ (toggle_theme s).shows_sun)
toggle_theme-init s later = toggled s.applied s.shows_sun s.saved s.system_dark later
