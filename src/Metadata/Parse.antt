-- ===== src/Metadata/Parse.antt =====
-- `TryFrom<RuntimeMetadataPrefixed> for Metadata` of node-api/src/metadata.rs.
use fusotao_rust_client.Prelude.Result.{collect_results}
use fusotao_rust_client.Prelude.{ℕ, String, Option, none, some, List, [], ◌∷◌, ◌++◌, map}
use fusotao_rust_client.Prelude.{◌==◌, nat_eq, string_eq, pair_eq, if◌then◌else◌}
use fusotao_rust_client.Prelude.Result.{Result, ok, err, ◌>>=◌}
use fusotao_rust_client.Prelude.HashMap.{HashMap, collect}
use fusotao_rust_client.External.FrameMetadata.{
  Variant, variant, Registry, StorageEntryMetadata, PalletConstantMetadata, PalletDeclaration,
  RuntimeMetadataV14, v14, other_version, RuntimeMetadataPrefixed,
}
use fusotao_rust_client.Error.{
  InvalidMetadataError, invalid_prefix, invalid_version, missing_type, type_def_not_variant,
}
use fusotao_rust_client.Metadata.{
  PalletMetadata, CallMetadata, EventMetadata, ErrorMetadata, Metadata,
}

-- `flat_map`
unfoldable pub flat_map {ℓ κ} : {A : Type ℓ} {B : Type κ} → (A → List B) → List A → List B
flat_map f [] = []
flat_map f (x ∷ xs) = f x ++ flat_map f xs

module _ (types : Registry) where
  unfoldable pub get_type_def_variant : ℕ → Result InvalidMetadataError (List Variant)
  get_type_def_variant type_id = elim (types type_id) [
    | none ↦ err (missing_type type_id)
    | some ty ↦ elim ty.type_def [
      | variant variants ↦ ok variants
      | _ ↦ err (type_def_not_variant type_id)
    ]
  ]

  unfoldable pub pallet_calls_by_name :
      PalletDeclaration → Result InvalidMetadataError (HashMap String ℕ)
  pallet_calls_by_name p = elim p.calls [
    | none ↦ ok []
    | some call ↦ do
      variants ← get_type_def_variant call
      ok (collect (map (λ (v : Variant). (v.name, v.index)) variants))
  ]

  abbrev pub storage_by_name :
      Option (List StorageEntryMetadata) → HashMap String StorageEntryMetadata
  storage_by_name none = []
  storage_by_name (some entries) =
      collect (map (λ (entry : StorageEntryMetadata). (entry.name, entry)) entries)

  unfoldable pub pallet_entry :
      PalletDeclaration → Result InvalidMetadataError (String × PalletMetadata)
  unfolding pallet_calls_by_name
  pallet_entry p = do
    calls ← pallet_calls_by_name p
    ok (
      p.name,
      record {
        index = p.index;
        name = p.name;
        calls = calls;
        storage = storage_by_name p.storage;
        constants = collect (map (λ (c : PalletConstantMetadata). (c.name, c)) p.constants);
      },
    )

  -- The pallets that declare the selected enum, each with its variants.
  unfoldable pub pallet_variants :
      (PalletDeclaration → Option ℕ)
      → List PalletDeclaration
      → Result InvalidMetadataError (List (PalletDeclaration × List Variant))
  pallet_variants select [] = ok []
  pallet_variants select (p ∷ ps) = elim (select p) [
    | none ↦ pallet_variants select ps
    | some type_id ↦ do
      variants ← get_type_def_variant type_id
      rest ← pallet_variants select ps
      ok ((p, variants) ∷ rest)
  ]

-- One table entry for each variant of each pallet, under the two indices.
unfoldable pub variant_entries {ℓ} :
    {V : Type ℓ}
    → (PalletDeclaration → Variant → V)
    → List (PalletDeclaration × List Variant)
    → List ((ℕ × ℕ) × V)
unfolding flat_map
variant_entries value =
    flat_map (λ (p, variants). map (λ (v : Variant). ((p.index, v.index), value p v)) variants)

abbrev pub call_value : PalletDeclaration → Variant → CallMetadata
call_value p v = record { pallet = p.name; call = v.name; variant = v }

abbrev pub event_value : PalletDeclaration → Variant → EventMetadata
event_value p v = record { pallet = p.name; event = v.name; variant = v }

abbrev pub error_value : PalletDeclaration → Variant → ErrorMetadata
error_value p v = record { pallet = p.name; error = v.name; variant = v }

unfoldable pub from_v14 : RuntimeMetadataV14 → Result InvalidMetadataError Metadata
from_v14 meta = do
  pallets ← collect_results (pallet_entry meta.types) meta.pallets
  pallet_calls ← pallet_variants meta.types (λ p. p.calls) meta.pallets
  pallet_events ← pallet_variants meta.types (λ p. p.event) meta.pallets
  pallet_errors ← pallet_variants meta.types (λ p. p.error) meta.pallets
  ok (record {
    metadata = meta;
    pallets = collect pallets;
    calls = collect (variant_entries call_value pallet_calls);
    events = collect (variant_entries event_value pallet_events);
    errors = collect (variant_entries error_value pallet_errors);
  })

-- `META_RESERVED` is a constant of `frame_metadata`.
unfoldable pub try_from : ℕ → RuntimeMetadataPrefixed → Result InvalidMetadataError Metadata
unfolding from_v14
try_from meta_reserved prefixed =
    if prefixed.magic == meta_reserved
    then elim prefixed.metadata [ v14 meta ↦ from_v14 meta | other_version _ ↦ err invalid_version ]
    else err invalid_prefix
