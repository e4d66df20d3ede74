-- ===== src/External/Hex.antt =====
-- The `hex` crate: lower case digits, two for a byte.
use fusotao_rust_client.Prelude.{ℕ, ◌≡◌, ◌⊎◌, ◌≤◌, [], ◌∷◌}
use fusotao_rust_client.Prelude.Result.{Result, ok}
use fusotao_rust_client.Prelude.Text.{Bytes, Text}

-- `hex::FromHexError`
pub data FromHexError : Type 0 where
  invalid_hex_character : ℕ → ℕ → FromHexError
  odd_length invalid_string_length : FromHexError

pub record Hex : Type 0 where
  pub encode : Bytes → Text
  pub decode : Text → Result FromHexError Bytes

abbrev pub IsDigit : ℕ → Type 0
IsDigit c = ((b'0' ≤ c) × (c ≤ b'9')) ⊎ ((b'a' ≤ c) × (c ≤ b'f'))

abbrev pub AreDigits : Text → Type 0
AreDigits [] = Unit
AreDigits (c ∷ s) = IsDigit c × AreDigits s

-- The bytes are written as digits, and read back.
pub record IsLawfulHex (h : Hex) (b : Bytes) : Type 0 where
  pub decode-encode : h.decode (h.encode b) ≡ ok b
  pub encode_digits : AreDigits (h.encode b)
