-- ===== src/Utils.antt =====
-- src/utils.rs: hex texts, and the keys of plain storage values.
pub mod RoundTrip
use fusotao_rust_client.Prelude.{
  ℕ, String, Bool, true, false, ◌&&◌, List, [], ◌∷◌, ◌++◌, ◌==◌, nat_eq, length, if◌then◌else◌,
}
use fusotao_rust_client.Prelude.Result.{Result, ok, err, ◌>>=◌}
use fusotao_rust_client.Prelude.Text.{Bytes, Text, as_bytes}
use fusotao_rust_client.External.Hashing.{Hashing}
use fusotao_rust_client.External.Hex.{Hex, FromHexError, invalid_string_length}
use fusotao_rust_client.Storage.{StorageKey}

unfoldable pub storage_key : Hashing → String → String → StorageKey
storage_key h module_name storage_key_name =
    h.twox_128 (as_bytes module_name) ++ h.twox_128 (as_bytes storage_key_name)

-- `s.trim_start_matches(c)`
unfoldable pub trim_start : ℕ → Text → Text
trim_start c [] = []
trim_start c (d ∷ s) = let rest = trim_start c s in if d == c then rest else d ∷ s

abbrev is_empty : Text → Bool
is_empty [] = true
is_empty (_ ∷ _) = false

-- `s.trim_end_matches(c)`
unfoldable pub trim_end : ℕ → Text → Text
trim_end c [] = []
trim_end c (d ∷ s) = let rest = trim_end c s in if (d == c) && is_empty rest then [] else d ∷ rest

-- `s.trim_matches(c)`
unfoldable pub trim_matches : ℕ → Text → Text
unfolding trim_start trim_end
trim_matches c s = trim_end c (trim_start c s)

-- `s.trim_start_matches("0x")`: every repetition of the prefix goes.
unfoldable pub trim_start_0x : Text → Text
trim_start_0x [] = []
trim_start_0x (c ∷ []) = c ∷ []
trim_start_0x (c ∷ d ∷ s) =
    let rest = trim_start_0x s in if (c == b'0') && (d == b'x') then rest else c ∷ d ∷ s

module _ (h : Hex) where
  -- `Vec::<u8>::from_hex`
  unfoldable pub vec_from_hex : Text → Result FromHexError Bytes
  unfolding trim_matches trim_start_0x
  vec_from_hex hex = h.decode (trim_start_0x (trim_matches b'"' hex))

  -- `Hash::from_hex`; a hash is its 32 bytes.
  unfoldable pub hash_from_hex : Text → Result FromHexError Bytes
  unfolding vec_from_hex
  hash_from_hex hex = do
    vec ← vec_from_hex hex
    if length vec == 32 then ok vec else err invalid_string_length
