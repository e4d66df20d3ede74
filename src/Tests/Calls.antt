-- ===== src/Tests/Calls.antt =====
-- The metadata of a runtime with one pallet.
use mathlib.Core.Path.{subst}
use fusotao_rust_client.Prelude.Result.{collect_results}
use fusotao_rust_client.Prelude.{
  ℕ, zero, suc, ◌≡◌, refl, sym, ap, ◌∙◌, ◌↔◌, Option, none, some, List, [], ◌∷◌, Has, here, there,
  string_eq, pair_eq, nat_eq,
}
use fusotao_rust_client.Prelude.Result.{ok}
use fusotao_rust_client.Prelude.HashMap.{get, collect}
use fusotao_rust_client.Prelude.Text.{Bytes}
use fusotao_rust_client.External.FrameMetadata.{
  Variant, Registry, PalletDeclaration, RuntimeMetadataV14, variant, primitive, TypeDefPrimitive,
  StorageEntryMetadata, StorageEntryModifier, plain, map_of, blake2_128_concat, twox64_concat,
  identity,
}
use fusotao_rust_client.Metadata.{
  events, errors, Metadata, CallMetadata, PalletMetadata, call, event, error, pallet, encode_call,
}
use fusotao_rust_client.Metadata.Parse.{
  get_type_def_variant, call_value, event_value, error_value, from_v14, pallet_entry,
  pallet_variants, variant_entries,
}
use fusotao_rust_client.Metadata.Tables.{Declared, IsUnambiguous}
use fusotao_rust_client.Metadata.Lookup.{Describes, call_lookup}
use fusotao_rust_client.Metadata.Listing.{IsDeclaredBy, events_declared, errors_declared}
use fusotao_rust_client.Metadata.Calls.{encode_call_found}
use fusotao_rust_client.Tests.Samples.{byte}

abbrev pub transfer : Variant
transfer = record { name = "transfer"; index = 3; fields = 1 ∷ []; docs = [] }

abbrev pub registry : Registry
registry zero = some (record { ident = some "Call"; type_def = variant (transfer ∷ []) })
registry (suc zero) = some (record { ident = none; type_def = primitive TypeDefPrimitive.u8 })
registry _ = none

abbrev total_issuance : StorageEntryMetadata
total_issuance = record {
  name = "TotalIssuance";
  modifier = StorageEntryModifier.default;
  ty = plain 1;
  default = 0 ∷ [];
}

abbrev locks : StorageEntryMetadata
locks = record {
  name = "Locks";
  modifier = StorageEntryModifier.default;
  ty = map_of (blake2_128_concat ∷ []) 1 1;
  default = 0 ∷ [];
}

abbrev reserves : StorageEntryMetadata
reserves = record {
  name = "Reserves";
  modifier = StorageEntryModifier.default;
  ty = map_of (twox64_concat ∷ identity ∷ []) 1 1;
  default = 0 ∷ [];
}

abbrev pub balances : PalletDeclaration
balances = record {
  name = "Balances";
  storage = some (total_issuance ∷ locks ∷ reserves ∷ []);
  calls = some 0;
  event = some 0;
  constants = [];
  error = some 0;
  index = 5;
}

abbrev pub runtime : RuntimeMetadataV14
runtime = record { types = registry; pallets = balances ∷ [] }

abbrev pub balances_pallet : PalletMetadata
balances_pallet = record {
  index = 5;
  name = "Balances";
  calls = ("transfer", 3) ∷ [];
  storage = ("TotalIssuance", total_issuance) ∷ ("Locks", locks) ∷ ("Reserves", reserves) ∷ [];
  constants = [];
}

abbrev pub node_metadata : Metadata
node_metadata = record {
  metadata = runtime;
  pallets = ("Balances", balances_pallet) ∷ [];
  calls = ((5, 3), call_value balances transfer) ∷ [];
  events = ((5, 3), event_value balances transfer) ∷ [];
  errors = ((5, 3), error_value balances transfer) ∷ [];
}

pub built : from_v14 runtime ≡ ok node_metadata
unfolding from_v14 collect_results pallet_entry get_type_def_variant pallet_variants collect
    variant_entries
built = refl

only {ℓ} : {A : Type ℓ} (x y : A) → Has x (y ∷ []) → x ≡ y
only x _ here = refl
only x y (there h) = elim h [ ]

declares_one :
    (id : ℕ) (variants : List Variant)
    → some 0 ≡ some id
    → get_type_def_variant registry id ≡ ok variants
    → variants ≡ transfer ∷ []
unfolding get_type_def_variant
declares_one id variants chosen resolved =
    let zero_id : id ≡ 0 = cc in
    let whole : ok (transfer ∷ []) ≡ ok variants = rw (zero_id, get_type_def_variant) at resolved in
    cc

pub unambiguous :
    (select : PalletDeclaration → Option ℕ)
    → select balances ≡ some 0
    → IsUnambiguous registry select (balances ∷ [])
unambiguous select chosen p q v w d e _ _ =
    (only p balances d.listed ∙ sym (only q balances e.listed), one p v d ∙ sym (one q w e))
  where
    one :
        (p : PalletDeclaration) (v : Variant)
        → Declared registry select (balances ∷ []) p v
        → v ≡ transfer
    one p v d = only v transfer (
        subst (Has v)
          (declares_one d.type_id d.variants
            (sym chosen ∙ ap select (sym (only p balances d.listed)) ∙ d.selected) d.resolved)
          d.member)

call_lookup_example :
    (call node_metadata 5 3 ≡ ok (call_value balances transfer))
    ↔ Describes runtime (λ p. p.calls) call_value 5 3 (call_value balances transfer)
call_lookup_example =
    call_lookup runtime node_metadata built 5 3 (unambiguous (λ p. p.calls) refl)
      (call_value balances transfer)

events_declared_example :
    ((event node_metadata 5 3 ≡ ok (event_value balances transfer))
      ↔ Describes runtime (λ p. p.event) event_value 5 3 (event_value balances transfer))
    × (Has (event_value balances transfer) (events node_metadata 5)
        ↔ IsDeclaredBy runtime (λ p. p.event) event_value 5 (event_value balances transfer))
events_declared_example =
    events_declared runtime node_metadata built 5 (unambiguous (λ p. p.event) refl) 3
      (event_value balances transfer)

errors_declared_example :
    ((error node_metadata 5 3 ≡ ok (error_value balances transfer))
      ↔ Describes runtime (λ p. p.error) error_value 5 3 (error_value balances transfer))
    × (Has (error_value balances transfer) (errors node_metadata 5)
        ↔ IsDeclaredBy runtime (λ p. p.error) error_value 5 (error_value balances transfer))
errors_declared_example =
    errors_declared runtime node_metadata built 5 (unambiguous (λ p. p.error) refl) 3
      (error_value balances transfer)

pub found_pallet : pallet node_metadata "Balances" ≡ ok balances_pallet
unfolding pallet get
found_pallet = refl

abbrev pub transfer_call : Bytes
transfer_call = 5 ∷ 3 ∷ 9 ∷ []

pub encoded_call : encode_call byte balances_pallet "transfer" 9 ≡ ok transfer_call
unfolding encode_call get
encoded_call = refl

encode_call_found_example :
    (i : ℕ) × (j : ℕ) × (x : CallMetadata) × (transfer_call ≡ i ∷ j ∷ 9 ∷ [])
    × (call node_metadata i j ≡ ok x)
    × (x.pallet ≡ "Balances")
    × (x.call ≡ "transfer")
encode_call_found_example =
    encode_call_found byte runtime node_metadata balances_pallet "Balances" "transfer" 9
      transfer_call built (unambiguous (λ p. p.calls) refl) found_pallet encoded_call
