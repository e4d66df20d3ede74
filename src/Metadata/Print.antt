-- ===== src/Metadata/Print.antt =====
-- The functions of node-api/src/metadata.rs that print, as the texts they print, each
-- with a newline after it. Rust iterates over a HashMap in any order; here the order is that of the
-- map's list.
use Prim.Native.String.{◌++◌ as ◌<>◌}
use fusotao_rust_client.Prelude.{ℕ, String, List, [], ◌∷◌, ◌++◌, map}
use fusotao_rust_client.Prelude.Decimal.{to_string}
use fusotao_rust_client.Prelude.HashMap.{HashMap}
use fusotao_rust_client.Prelude.Text.{Bytes}
use fusotao_rust_client.External.FrameMetadata.{
  Variant, StorageEntryMetadata, StorageEntryModifier, StorageEntryType, PalletConstantMetadata,
}
use fusotao_rust_client.Metadata.{
  PalletMetadata, CallMetadata, EventMetadata, ErrorMetadata, Metadata, description, events, errors,
}
use fusotao_rust_client.Metadata.Parse.{flat_map}

abbrev pub keys : {V : Type 0} → HashMap String V → List String
keys m = map (λ entry. entry.0) m

-- The paragraph of `print_overview` for a pallet.
unfoldable pub pallet_overview : Metadata → String × PalletMetadata → List String
unfolding events errors
pallet_overview m (name, p) =
    name
    ∷ (map (λ storage. " s  " <> storage) (keys p.storage)
        ++ (map (λ call. " c  " <> call) (keys p.calls)
            ++ (map (λ constant. " cst  " <> constant) (keys p.constants)
                ++ (map (λ (e : EventMetadata). " e  " <> e.event) (events m p.index)
                    ++ map (λ (e : ErrorMetadata). " err  " <> e.error) (errors m p.index)))))

-- `Metadata::print_overview`
unfoldable pub print_overview : Metadata → List String
unfolding flat_map pallet_overview
print_overview m = flat_map (pallet_overview m) m.pallets ++ ("" ∷ [])

-- `PalletMetadata::print`
unfoldable pub print_pallet : PalletMetadata → List String
unfolding to_string
print_pallet p =
    (("----------------- Pallet: '" <> p.name) <> "' -----------------")
    ∷ ""
    ∷ ("Pallet id: " <> to_string p.index)
    ∷ []

-- The line above what is printed for a pallet, and the empty line that follows it.
abbrev headed : String → String → List String → List String
headed what name lines =
    (((("----------------- " <> what) <> " for Pallet: ") <> name) <> " -----------------")
    ∷ ""
    ∷ (lines ++ ("" ∷ []))

-- `PalletMetadata::print_calls`
unfoldable pub print_calls : PalletMetadata → List String
unfolding to_string
print_calls p =
    headed "Calls" p.name
      (map (λ (name, index). (("Name: " <> name) <> ", index ") <> to_string index) p.calls)

-- The values that `{:?}` prints, by their `Debug` instances.
pub record Debug : Type 0 where
  pub type_id : ℕ → String
  pub bytes : Bytes → String
  pub modifier : StorageEntryModifier → String
  pub storage_type : StorageEntryType → String
  pub variant : Variant → String
  pub strings : List String → String

module _ (d : Debug) where
  -- `PalletMetadata::print_constants`
  unfoldable pub print_constants : PalletMetadata → List String
  print_constants p = headed "Constants" p.name (
      map
        (λ (name, c).
          (((("Name: " <> name) <> ", Type ") <> d.type_id (PalletConstantMetadata.ty c))
            <> ", Value ")
          <> d.bytes (PalletConstantMetadata.value c))
        p.constants)

  -- `PalletMetadata::print_storages`
  unfoldable pub print_storages : PalletMetadata → List String
  print_storages p = headed "Storages" p.name (
      map
        (λ (name, s).
          (((((("Name: " <> name) <> ", Modifier: ")
                  <> d.modifier (StorageEntryMetadata.modifier s))
                <> ", Type ")
              <> d.storage_type (StorageEntryMetadata.ty s))
            <> ", Default ")
          <> d.bytes (StorageEntryMetadata.default s))
        p.storage)

  -- `CallMetadata::print`
  unfoldable pub print_call : CallMetadata → List String
  print_call c = ("Name: " <> c.call) ∷ ("Variant: " <> d.variant c.variant) ∷ "" ∷ []

  -- `EventMetadata::print`
  unfoldable pub print_event : EventMetadata → List String
  print_event e = ("Name: " <> e.event) ∷ ("Variant: " <> d.variant e.variant) ∷ "" ∷ []

  -- `ErrorMetadata::print`
  unfoldable pub print_error : ErrorMetadata → List String
  print_error e = ("Name: " <> e.error) ∷ ("Description: " <> d.strings (description e)) ∷ "" ∷ []

-- `for m in self.pallets.values() { … }`
abbrev for_pallets : (PalletMetadata → List String) → Metadata → List String
for_pallets print m = flat_map (λ (name, p). print p) m.pallets

abbrev unless_empty : {V : Type 0} → HashMap String V → List String → List String
unless_empty [] lines = []
unless_empty (_ ∷ _) lines = lines

unfoldable pub print_pallets : Metadata → List String
unfolding flat_map print_pallet
print_pallets m = for_pallets print_pallet m

unfoldable pub print_pallets_with_calls : Metadata → List String
unfolding flat_map print_calls
print_pallets_with_calls m = for_pallets (λ p. unless_empty p.calls (print_calls p)) m

module _ (d : Debug) where
  unfoldable pub print_pallets_with_constants : Metadata → List String
  unfolding flat_map print_constants
  print_pallets_with_constants m =
      for_pallets (λ p. unless_empty p.constants (print_constants d p)) m

  unfoldable pub print_pallet_with_storages : Metadata → List String
  unfolding flat_map print_storages
  print_pallet_with_storages m = for_pallets (λ p. unless_empty p.storage (print_storages d p)) m

  unfoldable pub print_pallets_with_events : Metadata → List String
  unfolding flat_map print_event events
  print_pallets_with_events m =
      for_pallets (λ p. headed "Events" p.name (flat_map (print_event d) (events m p.index))) m

  unfoldable pub print_pallets_with_errors : Metadata → List String
  unfolding flat_map print_error errors
  print_pallets_with_errors m =
      for_pallets (λ p. headed "Errors" p.name (flat_map (print_error d) (errors m p.index))) m
