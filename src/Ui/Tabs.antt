-- ===== src/Ui/Tabs.antt =====
-- `initTabs` of internal/web/static/modules/ui.js.
use serial_tcp_proxy.Prelude.{
  ◌≡◌, refl, ap, inl, inr, Bool, true, false, ◌&&◌, List, [], ◌∷◌, Text, text_eq, text_eq_sound,
  sym, ◌∙◌, if◌then◌else◌, Bool-cases, arith,
}

-- A button with its `data-tab`, or a content with the name behind `tab-`.
pub record Tab : Type 0 where
  pub name : Text
  pub is_active : Bool

pub record Tabs : Type 0 where
  pub buttons : List Tab
  pub contents : List Tab

-- The class `active` is taken from all and given to the one of the name; names are distinct.
abbrev pub activate : Text → List Tab → List Tab
activate name [] = []
activate name (t ∷ tabs) = record t { is_active = text_eq t.name name } ∷ activate name tabs

-- The listener of the button of the name.
unfoldable pub tab_clicked : Text → Tabs → Tabs
tab_clicked name t = record {
  buttons = activate name t.buttons;
  contents = activate name t.contents;
}

-- `classList.contains('active')` for the content of a name.
abbrev pub is_shown : Text → List Tab → Bool
is_shown name [] = false
is_shown name (t ∷ tabs) =
    let rest = is_shown name tabs in if text_eq t.name name then t.is_active else rest

abbrev pub has_tab : Text → List Tab → Bool
has_tab name [] = false
has_tab name (t ∷ tabs) = let rest = has_tab name tabs in if text_eq t.name name then true else rest

and_true : (b : Bool) → (b && true) ≡ b
and_true true = refl
and_true false = refl

activated :
    (name other : Text) (tabs : List Tab)
    → is_shown other (activate name tabs) ≡ (text_eq other name && has_tab other tabs)
activated name other [] = ground arith
activated name other (t ∷ tabs) = elim (Bool-cases (text_eq t.name other)) [
  | inl same ↦ rw same (
      ap (λ n. text_eq n name) (text_eq_sound t.name other same)
      ∙ sym (and_true (text_eq other name)))
  | inr f ↦ rw f (activated name other tabs)
]

-- A click on a tab shows its content, if the page has it, and hides every other.
pub tab_clicked-shown :
    (name other : Text) (t : Tabs)
    → is_shown other (tab_clicked name t).contents
      ≡ (text_eq other name && has_tab other t.contents)
unfolding tab_clicked
tab_clicked-shown name other t = activated name other t.contents
