-- ===== src/Tests/Keys.antt =====
-- Storage keys and hex texts.
use fusotao_rust_client.Prelude.{ℕ, ◌≡◌, refl, ◌∷◌, ◌++◌, [], arith, inl, inr}
use fusotao_rust_client.Prelude.Result.{ok}
use fusotao_rust_client.Prelude.Text.{Bytes, as_bytes}
use fusotao_rust_client.External.FrameMetadata.{
  blake2_128_concat, twox64_concat, StorageEntryMetadata, StorageEntryModifier, map_of,
}
use fusotao_rust_client.Storage.{
  StorageMap, StorageDoubleMap, map_key, double_map_key, get_double_map,
}
use fusotao_rust_client.Storage.Keys.{map_key-injective, double_map_key-injective}
use fusotao_rust_client.Decoder.Identifiers.{extract_map_identifier, extract_double_map_identifier}
use fusotao_rust_client.Decoder.Identifiers.RoundTrip.{
  extract_map_identifier-map_key, extract_double_map_identifier-double_map_key,
}
use fusotao_rust_client.Utils.{vec_from_hex}
use fusotao_rust_client.Utils.RoundTrip.{vec_from_hex-encode, prefixed, quoted}
use fusotao_rust_client.Tests.Samples.{
  byte, byte-RoundTrips, slice, slice-IsLawfulInput, hashes, hashes-HasDigestSizes, hex,
}

abbrev account : ℕ
account = 7

abbrev call_hash : ℕ
call_hash = 9

abbrev accounts : StorageMap
accounts = record {
  module_prefix = as_bytes "System";
  storage_prefix = as_bytes "Account";
  hasher = blake2_128_concat;
}

abbrev multisigs : StorageDoubleMap
multisigs = record {
  module_prefix = as_bytes "Multisig";
  storage_prefix = as_bytes "Multisigs";
  hasher = twox64_concat;
  key2_hasher = blake2_128_concat;
}

map_key-injective_example : account ≡ account
map_key-injective_example =
    map_key-injective hashes hashes-HasDigestSizes byte accounts account account tt
      (byte-RoundTrips 7) (byte-RoundTrips 7) refl

double_map_key-injective_example : (account ≡ account) × (call_hash ≡ call_hash)
double_map_key-injective_example =
    double_map_key-injective hashes hashes-HasDigestSizes byte byte multisigs account account
      call_hash call_hash tt tt (byte-RoundTrips 7) (byte-RoundTrips 7) (byte-RoundTrips 9)
      (byte-RoundTrips 9) refl

extract_map_identifier-map_key_example :
    extract_map_identifier slice byte blake2_128_concat (map_key hashes byte accounts 7 ++ (1 ∷ []))
    ≡ ok (7, 1 ∷ [])
extract_map_identifier-map_key_example =
    extract_map_identifier-map_key slice slice-IsLawfulInput hashes hashes-HasDigestSizes byte
      accounts 7 (1 ∷ []) tt (byte-RoundTrips 7)

extract_double_map_identifier-double_map_key_example :
    extract_double_map_identifier slice byte byte twox64_concat blake2_128_concat 7
      (double_map_key hashes byte byte multisigs 7 9 ++ (1 ∷ []))
    ≡ ok (9, 1 ∷ [])
extract_double_map_identifier-double_map_key_example =
    extract_double_map_identifier-double_map_key slice slice-IsLawfulInput hashes
      hashes-HasDigestSizes byte byte multisigs 7 9 (1 ∷ []) tt tt (byte-RoundTrips 9)

abbrev multisigs_entry : StorageEntryMetadata
multisigs_entry = record {
  name = "Multisigs";
  modifier = StorageEntryModifier.default;
  ty = map_of (twox64_concat ∷ blake2_128_concat ∷ []) 0 1;
  default = 0 ∷ [];
}

entry-multisigs : get_double_map multisigs_entry "Multisig" ≡ ok multisigs
unfolding get_double_map
entry-multisigs = refl

abbrev two_bytes : Bytes
two_bytes = 0x1f ∷ 0xa0 ∷ []

vec_from_hex-encode_example :
    (vec_from_hex hex (prefixed (hex.encode two_bytes)) ≡ ok two_bytes)
    × (vec_from_hex hex (quoted (prefixed (hex.encode two_bytes))) ≡ ok two_bytes)
    × (vec_from_hex hex (hex.encode two_bytes) ≡ ok two_bytes)
    × (vec_from_hex hex (quoted (hex.encode two_bytes)) ≡ ok two_bytes)
vec_from_hex-encode_example = vec_from_hex-encode hex two_bytes (record {
  decode-encode = refl;
  encode_digits = (
    inl (omega arith, omega arith),
    (
      inr (omega arith, omega arith),
      (inr (omega arith, omega arith), (inl (omega arith, omega arith), tt)),
    ),
  );
})
