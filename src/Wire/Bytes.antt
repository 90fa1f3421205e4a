-- ===== src/Wire/Bytes.antt =====
-- The hex bytes that `LogPacket` of internal/logger/logger.go writes.
use serial_tcp_proxy.Prelude.{
  ℕ, ◌+◌, ◌/◌, ◌%◌, ◌<◌, ◌≡◌, ◌≢◌, refl, ap, sym, ◌∙◌, ◌⊎◌, inl, false, some, List, [], ◌∷◌, ◌++◌,
  Text, codes, All, Lacks, is_space, index_of, split, split-join, map, length, arith,
}
use serial_tcp_proxy.Wire.{hex_digit, hex_byte, format_bytes}

abbrev pub IsByte : ℕ → Type 0
IsByte b = b < 256

pub hex_digit-no_space : (d : ℕ) → d < 16 → is_space (hex_digit d) ≡ false
unfolding is_space
hex_digit-no_space d h = ground arith

-- No digit is a blank, a bracket or a letter behind `f`.
hex_byte-Lacks : (b c : ℕ) → (c < 48) ⊎ ((57 < c) × (c < 97)) → Lacks c (hex_byte b)
hex_byte-Lacks b c h = (ground arith, (ground arith, tt))

pub format_bytes-Lacks :
    (c : ℕ) (bytes : List ℕ)
    → ((c < 48) ⊎ ((57 < c) × (c < 97)))
    → c ≢ b' '
    → Lacks c (format_bytes bytes)
unfolding format_bytes
format_bytes-Lacks c [] h n = tt
format_bytes-Lacks c (b ∷ []) h n = hex_byte-Lacks b c h
format_bytes-Lacks c (b ∷ b' ∷ bytes) h n =
    let (x, (y, _)) = hex_byte-Lacks b c h in
    (x, (y, (λ e. n (sym e), format_bytes-Lacks c (b' ∷ bytes) h n)))

pub format_bytes_first :
    (b : ℕ) (bytes : List ℕ) → (t : Text) × (format_bytes (b ∷ bytes) ≡ hex_digit (b / 16) ∷ t)
unfolding format_bytes
format_bytes_first b [] = (hex_digit (b % 16) ∷ [], refl)
format_bytes_first b (b' ∷ bytes) = (hex_digit (b % 16) ∷ b' ' ∷ format_bytes (b' ∷ bytes), refl)

pub format_bytes_last :
    (b : ℕ) (bytes : List ℕ)
    → (a : Text) × (d : ℕ) × (d < 16) × (format_bytes (b ∷ bytes) ≡ a ++ hex_digit d ∷ [])
unfolding format_bytes
format_bytes_last b [] = (hex_digit (b / 16) ∷ [], b % 16, omega arith, refl)
format_bytes_last b (b' ∷ bytes) =
    let (a, d, h, e) = format_bytes_last b' bytes in
    (
      hex_digit (b / 16) ∷ hex_digit (b % 16) ∷ b' ' ∷ a,
      d,
      h,
      ap (λ t. hex_digit (b / 16) ∷ hex_digit (b % 16) ∷ b' ' ∷ t) e,
    )

-- Cutting at the blanks gives the bytes back.
pub split-format_bytes :
    (b : ℕ) (bytes : List ℕ) → split b' ' (format_bytes (b ∷ bytes)) ≡ map hex_byte (b ∷ bytes)
unfolding format_bytes
split-format_bytes b bytes = split-join b' ' (hex_byte b) (map hex_byte bytes) (lacks (b ∷ bytes))
  where
    lacks : (bs : List ℕ) → All (Lacks b' ') (map hex_byte bs)
    lacks [] = tt
    lacks (x ∷ xs) = (hex_byte-Lacks x b' ' (inl (omega arith)), lacks xs)

index_of_step :
    (x y : ℕ) (t : Text) (k : ℕ)
    → x ≢ b' '
    → y ≢ b' '
    → y ≢ b'y'
    → index_of t (codes " bytes") ≡ some k
    → index_of (b' ' ∷ x ∷ y ∷ t) (codes " bytes") ≡ some (3 + k)
unfolding index_of
index_of_step x y t k hx hy hz h = ground (arith, h)

index_of_byte :
    (b : ℕ) (t : Text) (k : ℕ)
    → index_of t (codes " bytes") ≡ some k
    → index_of (b' ' ∷ hex_digit (b / 16) ∷ hex_digit (b % 16) ∷ t) (codes " bytes") ≡ some (3 + k)
index_of_byte b t k h =
    index_of_step (hex_digit (b / 16)) (hex_digit (b % 16)) t k (ground arith) (ground arith)
      (ground arith) h

-- No blank before a byte begins ` bytes`: the byte's second digit would be `y`.
pub index_of_bytes :
    (b : ℕ) (bytes : List ℕ) (rest : Text) (k : ℕ)
    → index_of rest (codes " bytes") ≡ some k
    → index_of (b' ' ∷ (format_bytes (b ∷ bytes) ++ rest)) (codes " bytes")
      ≡ some (1 + length (format_bytes (b ∷ bytes)) + k)
unfolding format_bytes
index_of_bytes b [] rest k h = index_of_byte b rest k h ∙ ap some (omega arith)
index_of_bytes b (b' ∷ bytes) rest k h =
    index_of_byte b _ _ (index_of_bytes b' bytes rest k h) ∙ ap some (omega arith)
