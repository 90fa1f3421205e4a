-- ===== src/Examples/CountedJson.antt =====
-- A codec for presets that writes lengths in front: it shows that the laws asked of `JSON` can hold.
use serial_tcp_proxy.Prelude.{
  ℕ, zero, suc, ◌≡◌, refl, Option, none, some, List, [], ◌∷◌, ◌++◌, Text, length, take, drop,
  take_all, drop_all, ◌>>=◌, true,
}
use serial_tcp_proxy.Filter.Presets.{Preset, Json, Storage}

abbrev pub read_text : Text → Option (Text × Text)
read_text [] = none
read_text (n ∷ t) = some (take n t, drop n t)

abbrev pub read_presets : ℕ → Text → Option (List Preset)
read_presets zero t = some []
read_presets (suc n) t = read_text t >>= λ (name, t1). read_text t1 >>= λ (filter, t2).
    read_presets n t2 >>= λ ps. some (record { name = name; filter = filter } ∷ ps)

abbrev pub write_presets : List Preset → Text
write_presets [] = []
write_presets (p ∷ ps) =
    length p.name ∷ (p.name ++ (length p.filter ∷ (p.filter ++ write_presets ps)))

abbrev pub parse_counted : Text → Option (List Preset)
parse_counted [] = none
parse_counted (n ∷ t) = read_presets n t

pub read-write : (ps : List Preset) → read_presets (length ps) (write_presets ps) ≡ some ps
read-write [] = refl
read-write (p ∷ ps) =
    rw
      (
        take_all p.name (length p.filter ∷ (p.filter ++ write_presets ps)),
        drop_all p.name (length p.filter ∷ (p.filter ++ write_presets ps)),
      )
      (rw (take_all p.filter (write_presets ps), drop_all p.filter (write_presets ps))
        (rw (read-write ps) refl))

pub written_filled : (ps : List Preset) → (length ps ∷ write_presets ps) ≡ [] → ⊥
written_filled ps e = cc

abbrev pub counted_json : Json
counted_json = record {
  stringify = λ ps. length ps ∷ write_presets ps;
  parse = parse_counted;
  parse_stringify = read-write;
  stringify_filled = written_filled;
}

abbrev pub empty_storage : Storage
empty_storage = record { item = none; is_writable = true }
