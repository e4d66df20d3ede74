-- ===== src/Metadata/Entries.antt =====
-- The storage keys that node-api/src/metadata.rs finds by names, and how they relate to each other
-- and to the plain keys of src/utils.rs.
use fusotao_rust_client.Prelude.{
  ◌≡◌, sym, ap, ◌∙◌, Option, none, some, List, ◌++◌, String, string_eq, Has-map_source, map, arith,
}
use fusotao_rust_client.Prelude.Result.{Result, ok, err, >>=-eq-ok}
use fusotao_rust_client.Prelude.HashMap.{get, get-collect_sound}
use fusotao_rust_client.Prelude.Text.{Bytes, as_bytes}
use fusotao_rust_client.External.Codec.{Codec}
use fusotao_rust_client.External.Hashing.{Hashing}
use fusotao_rust_client.External.FrameMetadata.{
  Registry, PalletDeclaration, RuntimeMetadataV14, StorageEntryMetadata,
}
use fusotao_rust_client.Error.{MetadataError, InvalidMetadataError}
use fusotao_rust_client.Storage.{
  StorageKey, StorageMap, get_value, get_map, get_map_prefix, get_double_map, value_key, map_key,
  double_map_key, key_hash, partial_key,
}
use fusotao_rust_client.Storage.Keys.{get_double_map_prefix-partial_key}
use fusotao_rust_client.Metadata.{Metadata, PalletMetadata, pallet, storage}
use fusotao_rust_client.Metadata.Parse.{
  pallet_calls_by_name, pallet_entry, storage_by_name, from_v14,
}
use fusotao_rust_client.Metadata.Lookup.{parts, ok_or-eq-ok}
use fusotao_rust_client.Metadata.Calls.{collect_results-source}
use fusotao_rust_client.Metadata.StorageKeys.{
  storage_value_key, storage_map_key, storage_map_key_prefix, storage_double_map_key,
  storage_double_map_partial_key,
}
use fusotao_rust_client.Utils.{storage_key}

pallet_entry-storage :
    (types : Registry) (p : PalletDeclaration) (name : String) (m : PalletMetadata)
    → pallet_entry types p ≡ ok (name, m)
    → m.storage ≡ storage_by_name types p.storage
unfolding pallet_entry
pallet_entry-storage types p name m h =
    let (calls, found, e) = >>=-eq-ok (pallet_calls_by_name types p) _ h in
    let pick : Result InvalidMetadataError (String × PalletMetadata) → PalletMetadata =
      λ r. elim r [ ok x ↦ x.1 | err _ ↦ m ] in
    sym (ap (λ (r : PalletMetadata). r.storage) (ap pick e))

storage_by_name-name :
    (types : Registry) (entries : Option (List StorageEntryMetadata)) (name : String)
    (entry : StorageEntryMetadata)
    → get name (storage_by_name types entries) ≡ some entry
    → entry.name ≡ name
unfolding get
storage_by_name-name types none name entry h = cc
storage_by_name-name types (some entries) name entry h =
    let (x, has, same) =
      Has-map_source (λ (x : StorageEntryMetadata). (x.name, x)) (name, entry) entries
        (get-collect_sound name entry (map (λ (x : StorageEntryMetadata). (x.name, x)) entries)
          h) in
    ap (λ (r : String × StorageEntryMetadata). r.1.name) same
    ∙ sym (ap (λ (r : String × StorageEntryMetadata). r.0) same)

-- In metadata that `from_v14` has built, an entry has the name under which it is found.
pub storage-name :
    (meta : RuntimeMetadataV14) (m : Metadata) (pallet_name name : String) (p : PalletMetadata)
    (entry : StorageEntryMetadata)
    → from_v14 meta ≡ ok m
    → pallet m pallet_name ≡ ok p
    → storage p name ≡ ok entry
    → entry.name ≡ name
unfolding pallet storage
storage-name meta m pallet_name name p entry built found stored =
    let b = parts meta m built in
    let listed = get-collect_sound pallet_name p b.pallets (
      ap (get pallet_name) (sym b.from_pallets)
      ∙ (ok_or-eq-ok (MetadataError.pallet_not_found pallet_name) (get pallet_name m.pallets) p).0
          found) in
    let (q, declared, entry_of) =
      collect_results-source (pallet_entry meta.types) meta.pallets b.pallets (pallet_name, p)
        b.entries listed in
    storage_by_name-name meta.types q.storage name entry (
      ap (get name) (sym (pallet_entry-storage meta.types q pallet_name p entry_of))
      ∙ (ok_or-eq-ok (MetadataError.storage_not_found name) (get name p.storage) entry).0 stored)

module _ (h : Hashing) (m : Metadata) (prefix name : String) where
  entry_of_value :
      (key : StorageKey)
      → storage_value_key h m prefix name ≡ ok key
      → (p : PalletMetadata) × (entry : StorageEntryMetadata) × (pallet m prefix ≡ ok p)
        × (storage p name ≡ ok entry)
        × (key ≡ h.twox_128 (as_bytes prefix) ++ h.twox_128 (as_bytes entry.name))
  unfolding storage_value_key get_value value_key
  entry_of_value key e =
      let (p, found, e1) = >>=-eq-ok (pallet m prefix) _ e in
      let (entry, stored, e2) = >>=-eq-ok (storage p name) _ e1 in
      let (value, got, e3) = >>=-eq-ok (get_value entry prefix) _ e2 in
      (p, entry, found, stored, ground arith)

  -- In metadata that `from_v14` has built, the key of a plain storage value that is found by its
  -- names is the key that `utils::storage_key` makes of these names.
  pub storage_value_key-storage_key :
      (meta : RuntimeMetadataV14) (key : StorageKey)
      → from_v14 meta ≡ ok m
      → storage_value_key h m prefix name ≡ ok key
      → key ≡ storage_key h prefix name
  unfolding storage_key
  storage_value_key-storage_key meta key built e =
      let (p, entry, found, stored, same) = entry_of_value key e in
      same
      ∙ ap (λ n. h.twox_128 (as_bytes prefix) ++ h.twox_128 (as_bytes n))
          (storage-name meta m prefix name p entry built found stored)

  get_map_prefix-get_map :
      (entry : StorageEntryMetadata) (s : StorageMap)
      → get_map entry prefix ≡ ok s
      → get_map_prefix h entry prefix
        ≡ ok (h.twox_128 s.module_prefix ++ h.twox_128 s.storage_prefix)
  unfolding get_map get_map_prefix
  get_map_prefix-get_map entry s e = ground arith

  -- Every key that `storage_map_key` gives for a map begins with the bytes that
  -- `storage_map_key_prefix` gives for it.
  pub storage_map_key_extends {ℓ} :
      {K : Type ℓ} (c : Codec K) (key : K) (full : StorageKey)
      → storage_map_key h m prefix name c key ≡ ok full
      → (start : StorageKey) × (more : Bytes) × (storage_map_key_prefix h m prefix name ≡ ok start)
        × (full ≡ start ++ more)
  unfolding storage_map_key storage_map_key_prefix map_key
  storage_map_key_extends c key full e =
      let (p, found, e1) = >>=-eq-ok (pallet m prefix) _ e in
      let (entry, stored, e2) = >>=-eq-ok (storage p name) _ e1 in
      let (s, got, e3) = >>=-eq-ok (get_map entry prefix) _ e2 in
      (
        h.twox_128 s.module_prefix ++ h.twox_128 s.storage_prefix,
        key_hash h c key s.hasher,
        rw (found, stored) (get_map_prefix-get_map entry s got),
        cc,
      )

  -- Every key that `storage_double_map_key` gives for a first key begins with the bytes that
  -- `storage_double_map_partial_key` gives for it.
  pub storage_double_map_key_extends {ℓ κ} :
      {K : Type ℓ} {Q : Type κ} (c : Codec K) (d : Codec Q) (first : K) (second : Q)
      (full : StorageKey)
      → storage_double_map_key h m prefix name c d first second ≡ ok full
      → (start : StorageKey) × (more : Bytes) × (storage_double_map_partial_key h m prefix name c
            first
          ≡ ok start)
        × (full ≡ start ++ more)
  unfolding storage_double_map_key storage_double_map_partial_key double_map_key partial_key
  storage_double_map_key_extends c d first second full e =
      let (p, found, e1) = >>=-eq-ok (pallet m prefix) _ e in
      let (entry, stored, e2) = >>=-eq-ok (storage p name) _ e1 in
      let (s, got, e3) = >>=-eq-ok (get_double_map entry prefix) _ e2 in
      (
        partial_key h c s first,
        key_hash h d second s.key2_hasher,
        rw (found, stored) (get_double_map_prefix-partial_key h c entry prefix s first got),
        cc,
      )
