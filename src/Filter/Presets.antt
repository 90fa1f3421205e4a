-- ===== src/Filter/Presets.antt =====
-- The presets of internal/web/static/modules/filter.js. The browser's `localStorage` and `JSON` are
-- parameters: a codec that reads back what it wrote, and a store with one slot for the key.
use serial_tcp_proxy.Prelude.{
  ◌≡◌, refl, ap, Bool, true, not, Option, none, some, List, [], ◌∷◌, ◌++◌, Text, text_eq,
  text_eq_self, sym, ◌∙◌, append-nil, filterb, filterb-append, if◌then◌else◌, arith,
}

pub record Preset : Type 0 where
  pub name : Text
  pub filter : Text

-- `JSON.stringify` and `JSON.parse` on lists of presets; `parse` is `none` where it throws.
pub record Json : Type 0 where
  pub stringify : List Preset → Text
  pub parse : Text → Option (List Preset)
  pub parse_stringify : (ps : List Preset) → parse (stringify ps) ≡ some ps
  pub stringify_filled : (ps : List Preset) → stringify ps ≡ [] → ⊥

-- The slot, and whether `setItem` throws (a full or a forbidden store).
pub record Storage : Type 0 where
  pub item : Option Text
  pub is_writable : Bool

module _ (json : Json) where
  -- `saved ? JSON.parse(saved) : []`, and `[]` where it throws.
  unfoldable pub read_presets : Text → List Preset
  read_presets [] = []
  read_presets (c ∷ t) = elim (json.parse (c ∷ t)) [ none ↦ [] | some ps ↦ ps ]

  unfoldable pub load_presets : Storage → List Preset
  load_presets s = elim s.item [ none ↦ [] | some t ↦ read_presets t ]

  unfoldable pub save_presets : List Preset → Storage → Storage
  save_presets ps s = if s.is_writable then record s { item = some (json.stringify ps) } else s

  -- The presets that the call returns, and the store.
  unfoldable pub add_preset : Text → Text → Storage → List Preset × Storage
  add_preset name filter s =
      let presets = load_presets s ++ record { name = name; filter = filter } ∷ [] in
      (presets, save_presets presets s)

  unfoldable pub remove_preset : Text → Storage → List Preset × Storage
  remove_preset name s =
      let filtered = filterb (λ (p : Preset). not (text_eq p.name name)) (load_presets s) in
      (filtered, save_presets filtered s)

  read_presets-stringify :
      (ps : List Preset) (t : Text) → t ≡ json.stringify ps → read_presets t ≡ ps
  unfolding read_presets
  read_presets-stringify ps [] q = absurd (json.stringify_filled ps (sym q))
  read_presets-stringify ps (c ∷ t) q =
      let e : json.parse (c ∷ t) ≡ some ps = ap json.parse q ∙ json.parse_stringify ps in
      rw (e, read_presets)

  save-is_writable :
      (ps : List Preset) (s : Storage)
      → s.is_writable ≡ true
      → (save_presets ps s).is_writable ≡ true
  unfolding save_presets
  save-is_writable ps s w = ground arith

  -- What is saved in a store that can be written is loaded again.
  pub load-save :
      (ps : List Preset) (s : Storage)
      → s.is_writable ≡ true
      → load_presets (save_presets ps s) ≡ ps
  unfolding load_presets save_presets
  load-save ps s w = rw w (read_presets-stringify ps (json.stringify ps) refl)

  -- In a store that can be written, adding a preset and then removing its name takes every
  -- preset of that name out of the store and leaves the others in their order; both calls
  -- return what a later load returns.
  pub remove-add :
      (name filter : Text) (s : Storage)
      → s.is_writable ≡ true
      → let (added, s1) = add_preset name filter s in
        let (left, s2) = remove_preset name s1 in
        (load_presets s1 ≡ added)
        × (load_presets s2 ≡ left)
        × (left ≡ filterb (λ (p : Preset). not (text_eq p.name name)) (load_presets s))
  unfolding add_preset remove_preset
  remove-add name filter s w =
      let new : Preset = record { name = name; filter = filter } in
      let keep = λ (p : Preset). not (text_eq p.name name) in
      let w1 = save-is_writable (load_presets s ++ new ∷ []) s w in
      let loaded = load-save (load_presets s ++ new ∷ []) s w in
      (
        loaded,
        load-save _ _ w1,
        ap (filterb keep) loaded
            ∙ filterb-append keep (load_presets s) (new ∷ [])
            ∙ rw (text_eq_self name) (append-nil (filterb keep (load_presets s))),
      )
