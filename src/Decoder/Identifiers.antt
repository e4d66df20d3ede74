-- ===== src/Decoder/Identifiers.antt =====
-- The keys of storage maps read back: `extract_map_identifier` and its helpers of
-- node-api/src/decoder.rs.
pub mod RoundTrip
use fusotao_rust_client.Prelude.{length}
use fusotao_rust_client.Prelude.Result.{Result, ok, err, ◌>>=◌, map_err}
use fusotao_rust_client.Prelude.Text.{Bytes}
use fusotao_rust_client.External.Codec.{Codec, CodecError, Input}
use fusotao_rust_client.External.FrameMetadata.{StorageHasher, blake2_128_concat, twox64_concat}
use fusotao_rust_client.Error.{Error}

module _ (i : Input) where
  unfoldable pub extract_identifier_from_concated_key :
      StorageHasher → Bytes → Result CodecError Bytes
  extract_identifier_from_concated_key blake2_128_concat input = do
    (x, rest) ← i.read 16 input
    ok rest
  extract_identifier_from_concated_key twox64_concat input = do (x, rest) ← i.read 8 input; ok rest
  extract_identifier_from_concated_key _ input =
      err "Couldn't extract identifier from a non-concated storage key"

  unfoldable pub extract_map_identifier {ℓ} :
      {T : Type ℓ} → Codec T → StorageHasher → Bytes → Result Error (T × Bytes)
  unfolding extract_identifier_from_concated_key
  extract_map_identifier c hasher input = do
    (x, input1) ← map_err Error.codec (i.read 32 input)
    input2 ← map_err Error.codec (extract_identifier_from_concated_key hasher input1)
    map_err Error.codec (c.decode input2)

  unfoldable pub extract_double_map_identifier {ℓ κ} :
      {T : Type ℓ} {K : Type κ}
      → Codec T
      → Codec K
      → StorageHasher
      → StorageHasher
      → K
      → Bytes
      → Result Error (T × Bytes)
  unfolding extract_identifier_from_concated_key
  extract_double_map_identifier c k first_hasher second_hasher first_key input = do
    (x, input1) ← map_err Error.codec (i.read 32 input)
    input2 ← map_err Error.codec (extract_identifier_from_concated_key first_hasher input1)
    (y, input3) ← map_err Error.codec (i.read (length (k.encode first_key)) input2)
    input4 ← map_err Error.codec (extract_identifier_from_concated_key second_hasher input3)
    map_err Error.codec (c.decode input4)
