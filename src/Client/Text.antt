-- ===== src/Client/Text.antt =====
-- Reading the texts of `hex_dump` in src/client.rs.
use nanwei_api_rust.Prelude.{
  All, ℕ, ◌+◌, ◌-◌, ◌*◌, ◌/◌, ◌%◌, ◌<◌, ◌≡◌, refl, List, [], ◌∷◌, arith, length, ltb, if◌then◌else◌,
}
use nanwei_api_rust.Client.{hex_digit, hex_dump}

-- The value of a hexadecimal digit.
abbrev pub digit_value : ℕ → ℕ
digit_value c = if ltb c b'a' then c - b'0' else c - b'a' + 10

-- The bytes that a text of hexadecimal digits stands for.
abbrev pub read_hex : List ℕ → List ℕ
read_hex [] = []
read_hex (c ∷ []) = []
read_hex (c ∷ d ∷ text) = (digit_value c * 16 + digit_value d) ∷ read_hex text

digit_value-hex_digit : (d : ℕ) → d < 16 → digit_value (hex_digit d) ≡ d
unfolding hex_digit
digit_value-hex_digit d h = ground arith

-- Two digits for each byte, from which the bytes can be read back.
pub read_hex-hex_dump :
    (buf : List ℕ)
    → All (λ b. b < 256) buf
    → (length (hex_dump buf) ≡ 2 * length buf) × (read_hex (hex_dump buf) ≡ buf)
unfolding hex_dump
read_hex-hex_dump [] h = (omega arith, refl)
read_hex-hex_dump (b ∷ buf) h =
    let (l, r) = read_hex-hex_dump buf h.1 in
    (
      omega (arith, l),
      ground (arith, r, digit_value-hex_digit (b / 16), digit_value-hex_digit (b % 16)),
    )
