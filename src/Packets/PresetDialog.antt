-- ===== src/Packets/PresetDialog.antt =====
-- The dialogs for the presets and the help in internal/web/static/modules/packets.js.
use serial_tcp_proxy.Prelude.{
  ◌≡◌, ◌≢◌, refl, ap, sym, ◌∙◌, subst, Bool, true, false, none, some, List, [], ◌∷◌, ◌++◌, Text,
  codes, trim, drop_while, split_last, is_space, is_nil, split_spaces, Option-cases, inl, inr,
}
use serial_tcp_proxy.RegExp.{RegExp, Engine}
use serial_tcp_proxy.Filter.{Parsed, no_conditions}
use serial_tcp_proxy.Filter.Parse.{
  Token, dir, len, hex, ascii, word, classify, apply_token, parse_tokens, set_plain_text,
  match_regex, parse_regex, parse_filter,
}
use serial_tcp_proxy.Filter.Presets.{Preset, Json, Storage, load_presets, add_preset, load-save}

-- `options` are those of the group of custom presets, `preview` and `name_input` the two inputs.
pub record PresetDialog : Type 0 where
  pub storage : Storage
  pub options : List Preset
  pub preview : Text
  pub name_input : Text
  pub is_save_shown : Bool
  pub is_help_shown : Bool
  pub alerts : List Text

abbrev pub complain : Text → PresetDialog → PresetDialog
complain message d = record d { alerts = d.alerts ++ message ∷ [] }

-- The dialog for a filter that is not blank.
abbrev pub open_with : Text → PresetDialog → PresetDialog
open_with [] d = complain (codes "Enter a filter first") d
open_with (c ∷ filter) d = record d { preview = c ∷ filter; name_input = []; is_save_shown = true }

-- The listener of `savePresetBtn`, with the text of the filter.
unfoldable pub save_clicked : Text → PresetDialog → PresetDialog
save_clicked input d = open_with (trim input) d

abbrev pub name_typed : Text → PresetDialog → PresetDialog
name_typed name d = record d { name_input = name }

-- The close button, and a click beside the dialog.
abbrev pub save_closed : PresetDialog → PresetDialog
save_closed d = record d { is_save_shown = false }

abbrev pub help_clicked : PresetDialog → PresetDialog
help_clicked d = record d { is_help_shown = true }

abbrev pub help_closed : PresetDialog → PresetDialog
help_closed d = record d { is_help_shown = false }

module _ (json : Json) where
  -- `loadCustomPresets`
  unfoldable pub load_custom_presets : PresetDialog → PresetDialog
  unfolding load_presets
  load_custom_presets d = record d { options = load_presets json d.storage }

  abbrev pub save_named : Text → PresetDialog → PresetDialog
  save_named [] d = complain (codes "Enter a preset name") d
  save_named (c ∷ name) d =
      let (_, storage) = add_preset json (c ∷ name) d.preview d.storage in
      record (load_custom_presets (record d { storage = storage })) { is_save_shown = false }

  -- The listener of `confirmSavePresetBtn`.
  unfoldable pub confirm_clicked : PresetDialog → PresetDialog
  confirm_clicked d = save_named (trim d.name_input) d

  saved_named :
      (trimmed filter name : Text) (d : PresetDialog)
      → filter ≢ []
      → trimmed ≢ []
      → d.storage.is_writable ≡ true
      → (save_named trimmed (name_typed name (open_with filter d))).options
        ≡ load_presets json d.storage ++ record { name = trimmed; filter = filter } ∷ []
  unfolding load_custom_presets add_preset
  saved_named trimmed [] name d f n w = absurd (f refl)
  saved_named [] (c ∷ filter) name d f n w = absurd (n refl)
  saved_named (x ∷ trimmed) (c ∷ filter) name d f n w = load-save json _ d.storage w

  -- Saving a filter that is not blank, under a name that is not.
  saved_options :
      (name filter input : Text) (d : PresetDialog)
      → trim input ≡ filter
      → filter ≢ []
      → trim name ≢ []
      → d.storage.is_writable ≡ true
      → (confirm_clicked (name_typed name (save_clicked input d))).options
        ≡ load_presets json d.storage ++ record { name = trim name; filter = filter } ∷ []
  unfolding confirm_clicked save_clicked
  saved_options name filter input d t f n w =
      subst
        (λ u.
          (save_named (trim name) (name_typed name (open_with u d))).options
          ≡ load_presets json d.storage ++ record { name = trim name; filter = filter } ∷ [])
        (sym t) (saved_named (trim name) filter name d f n w)

apply_token_regex :
    (token : Token) (f : Parsed) (parts : List Text) → (apply_token token f parts).0.regex ≡ f.regex
unfolding apply_token
apply_token_regex (dir d) f parts = refl
apply_token_regex (len l) f parts = refl
apply_token_regex (hex h) f parts = refl
apply_token_regex (ascii a) f parts = refl
apply_token_regex (word w) f parts = refl

parse_tokens_regex :
    (tokens : List Text) (f : Parsed) (parts : List Text)
    → (parse_tokens tokens f parts).0.regex ≡ f.regex
unfolding parse_tokens
parse_tokens_regex [] f parts = refl
parse_tokens_regex ([] ∷ tokens) f parts = parse_tokens_regex tokens f parts
parse_tokens_regex ((c ∷ s) ∷ tokens) f parts =
    let (f', parts') = apply_token (classify (c ∷ s)) f parts in
    parse_tokens_regex tokens f' parts' ∙ apply_token_regex (classify (c ∷ s)) f parts

set_plain_text_regex : (f : Parsed) (parts : List Text) → (set_plain_text f parts).regex ≡ f.regex
unfolding set_plain_text
set_plain_text_regex f [] = refl
set_plain_text_regex f (w ∷ ws) = refl

match_regex-blank : (t : Text) → match_regex (b' ' ∷ t) ≡ none
unfolding match_regex
match_regex-blank t = elim (Option-cases (split_last b'/' t)) [
  | inl n ↦ rw (n, match_regex) refl
  | inr ((body, flags), q) ↦ rw (q, match_regex) refl
]

trim-blank : (t : Text) → trim (b' ' ∷ t) ≡ trim t
unfolding trim drop_while is_space
trim-blank t = refl

no_regex_blank : (e : Engine) (t : Text) → parse_regex e (b' ' ∷ t) ≡ none
unfolding parse_regex
no_regex_blank e t = rw (match_regex-blank t, parse_regex) refl

parse_filter-blank :
    (e : Engine) (t : Text)
    → is_nil (trim t) ≡ false
    → (f : Parsed) × (parse_filter e (b' ' ∷ t) ≡ some f) × (f.regex ≡ none)
unfolding parse_filter
parse_filter-blank e t filled =
    let (f, parts) = parse_tokens (split_spaces (b' ' ∷ t)) no_conditions [] in
    (
      set_plain_text f parts,
      rw (trim-blank t, parse_filter) (rw filled (rw (no_regex_blank e t) refl)),
      set_plain_text_regex f parts ∙ parse_tokens_regex (split_spaces (b' ' ∷ t)) no_conditions [],
    )

parse_filter-regex :
    (e : Engine) (t : Text) (r : RegExp)
    → is_nil (trim t) ≡ false
    → parse_regex e t ≡ some r
    → parse_filter e t ≡ some (record no_conditions { regex = some r })
unfolding parse_filter
parse_filter-regex e t r filled q = rw (filled, parse_filter) (rw q refl)

filled_regex : (e : Engine) (t : Text) (r : RegExp) → parse_regex e t ≡ some r → t ≢ []
unfolding parse_regex match_regex
filled_regex e [] r q n = absurd (cc)
filled_regex e (c ∷ t) r q n = absurd (cc)

is_nil_filled : (t : Text) → t ≢ [] → is_nil t ≡ false
is_nil_filled [] n = absurd (n refl)
is_nil_filled (c ∷ t) n = refl

-- A regular expression that is typed behind a blank, and saved under a name that is not blank in
-- a store that can be written: the preset that is added is the expression without the blank, and
-- filters by it, but the text that was typed is no regular expression to `parseFilter`. The
-- expression has no white space at its ends.
pub saved_regex :
    (json : Json) (e : Engine) (t name : Text) (r : RegExp) (d : PresetDialog)
    → trim t ≡ t
    → parse_regex e t ≡ some r
    → trim name ≢ []
    → d.storage.is_writable ≡ true
    → ((confirm_clicked json (name_typed name (save_clicked (b' ' ∷ t) d))).options
        ≡ load_presets json d.storage ++ record { name = trim name; filter = t } ∷ [])
      × (parse_filter e t ≡ some (record no_conditions { regex = some r }))
      × ((f : Parsed) × (parse_filter e (b' ' ∷ t) ≡ some f) × (f.regex ≡ none))
saved_regex json e t name r d ends q named w =
    let there = filled_regex e t r q in
    let filled : is_nil (trim t) ≡ false = ap is_nil ends ∙ is_nil_filled t there in
    (
      saved_options json name t (b' ' ∷ t) d (trim-blank t ∙ ends) there named w,
      parse_filter-regex e t r filled q,
      parse_filter-blank e t filled,
    )
