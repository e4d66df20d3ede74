-- ===== src/Error.antt =====
-- The error types of node-api/src: `MetadataError` and `InvalidMetadataError` of metadata.rs,
-- `DecodingError` of decoder.rs, `PalletError`, `RuntimeError` and `Error` of error.rs.
use fusotao_rust_client.Prelude.{ℕ, String, List}
use fusotao_rust_client.External.Codec.{CodecError}
use fusotao_rust_client.External.FrameMetadata.{TypeDefPrimitive}

pub data MetadataError : Type 0 where
  pallet_not_found : String → MetadataError
  pallet_index_not_found : ℕ → MetadataError
  call_not_found : String → MetadataError
  callable_not_found : ℕ → ℕ → MetadataError
  event_not_found : ℕ → ℕ → MetadataError
  error_not_found : ℕ → ℕ → MetadataError
  storage_not_found : String → MetadataError
  storage_type_error : MetadataError
  map_value_type_error : MetadataError
  default_error : CodecError → MetadataError
  constant_value_error : CodecError → MetadataError
  constant_not_found : String → MetadataError
  type_not_found : ℕ → MetadataError

pub data InvalidMetadataError : Type 0 where
  invalid_prefix : InvalidMetadataError
  invalid_version : InvalidMetadataError
  missing_type : ℕ → InvalidMetadataError
  type_def_not_variant : ℕ → InvalidMetadataError

pub data DecodingError : Type 0 where
  unsupported_primitive : TypeDefPrimitive → DecodingError
  invalid_compact_primitive : TypeDefPrimitive → DecodingError
  invalid_compact_type : String → DecodingError

pub record PalletError : Type 0 where
  pub pallet : String
  pub error : String
  pub description : List String

pub data RuntimeError : Type 0 where
  module_error : PalletError → RuntimeError
  consumer_remaining too_many_consumers no_providers : RuntimeError
  bad_origin cannot_lookup : RuntimeError
  other : String → RuntimeError

-- Of an error of another crate its text is kept.
pub data Error : Type 0 where
  io : String → Error
  codec : CodecError → Error
  serialization : String → Error
  secret_string : String → Error
  invalid : String → Error
  invalid_metadata : InvalidMetadataError → Error
  metadata : MetadataError → Error
  runtime : RuntimeError → Error
  decoding : DecodingError → Error
  other : String → Error
