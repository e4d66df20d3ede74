-- ===== src/External/FrameMetadata.antt =====
-- The data types of `frame_metadata` and `scale_info`, with the fields that the program reads.
-- A type is named by its id in the registry, and the registry is its `resolve` function.
use fusotao_rust_client.Prelude.{ℕ, String, Option, List}
use fusotao_rust_client.Prelude.Text.{Bytes}

pub data StorageHasher : Type 0 where
  blake2_128 blake2_256 blake2_128_concat twox128 twox256 twox64_concat identity : StorageHasher

pub data StorageEntryType : Type 0 where
  plain : ℕ → StorageEntryType
  -- hashers, key type, value type
  map_of : List StorageHasher → ℕ → ℕ → StorageEntryType

pub data StorageEntryModifier : Type 0 where
  optional default : StorageEntryModifier

pub record StorageEntryMetadata : Type 0 where
  pub name : String
  pub modifier : StorageEntryModifier
  pub ty : StorageEntryType
  pub default : Bytes

pub record PalletConstantMetadata : Type 0 where
  pub name : String
  pub ty : ℕ
  pub value : Bytes

-- A variant of an enum type; `fields` holds the type of each field.
pub record Variant : Type 0 where
  pub name : String
  pub index : ℕ
  pub fields : List ℕ
  pub docs : List String

pub data TypeDefPrimitive : Type 0 where
  bool char str u8 u16 u32 u64 u128 u256 i8 i16 i32 i64 i128 i256 : TypeDefPrimitive

pub data TypeDef : Type 0 where
  composite : List ℕ → TypeDef
  variant : List Variant → TypeDef
  sequence : ℕ → TypeDef
  -- length, element type
  array : ℕ → ℕ → TypeDef
  tuple : List ℕ → TypeDef
  primitive : TypeDefPrimitive → TypeDef
  compact : ℕ → TypeDef
  bit_sequence : TypeDef

-- `scale_info::Type`; `ident` is `path().ident()`.
pub record RegistryType : Type 0 where
  pub ident : Option String
  pub type_def : TypeDef

abbrev pub Registry : Type 0
Registry = ℕ → Option RegistryType

-- `frame_metadata::PalletMetadata`: the types of the calls, events and errors are ids.
pub record PalletDeclaration : Type 0 where
  pub name : String
  pub storage : Option (List StorageEntryMetadata)
  pub calls : Option ℕ
  pub event : Option ℕ
  pub constants : List PalletConstantMetadata
  pub error : Option ℕ
  pub index : ℕ

pub record RuntimeMetadataV14 : Type 0 where
  pub types : Registry
  pub pallets : List PalletDeclaration

pub data RuntimeMetadata : Type 0 where
  v14 : RuntimeMetadataV14 → RuntimeMetadata
  other_version : ℕ → RuntimeMetadata

pub record RuntimeMetadataPrefixed : Type 0 where
  pub magic : ℕ
  pub metadata : RuntimeMetadata
