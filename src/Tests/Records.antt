-- ===== src/Tests/Records.antt =====
-- A list of one event record, decoded by the metadata of the runtime with one pallet.
use fusotao_rust_client.Prelude.{
  ℕ, zero, suc, ◌<◌, ◌≡◌, refl, subst, none, some, [], ◌∷◌, ◌==◌, nat_eq, string_eq, pair_eq, inl,
  inr, Bool-cases, arith,
}
use fusotao_rust_client.Prelude.HashMap.{get}
use fusotao_rust_client.Prelude.Outcome.{ok}
use fusotao_rust_client.Prelude.Result.{Result}
use fusotao_rust_client.External.FrameMetadata.{RegistryType, TypeDefPrimitive, primitive}
use fusotao_rust_client.Metadata.{CallMetadata, event, call, resolve_type}
use fusotao_rust_client.Metadata.Parse.{call_value, event_value}
use fusotao_rust_client.Decoder.Scale.{Phase}
use fusotao_rust_client.Decoder.Types.Encoded.{Encoded, EncodedFields, field}
use fusotao_rust_client.Decoder.Types.Fuel.{IsRanked, RefersBelow}
use fusotao_rust_client.Decoder.Events.{decode_events, decode_call}
use fusotao_rust_client.Decoder.Events.Encoded.{
  EncodedEvent, no_fields, plain, Frame, EncodedRecords, no_records,
}
use fusotao_rust_client.Decoder.Events.Complete.{decode_events-EncodedRecords}
use fusotao_rust_client.Decoder.Calls.{decode_call-encode_call}
use fusotao_rust_client.Tests.Samples.{byte, byte-RoundTrips, slice-IsLawfulInput}
use fusotao_rust_client.Tests.Calls.{
  registry, node_metadata, balances, transfer, runtime, balances_pallet, transfer_call, built,
  unambiguous, found_pallet, encoded_call,
}
use fusotao_rust_client.Tests.Types.{scale}
use fusotao_rust_client.Tests.Events.{events}

abbrev rank : ℕ → ℕ
rank zero = 1
rank _ = 0

refers_below :
    (ty entry : RegistryType) (n : ℕ)
    → some entry ≡ some ty
    → RefersBelow rank n entry.type_def
    → RefersBelow rank n ty.type_def
refers_below ty entry n h below =
    let same : entry ≡ ty = cc in
    subst (λ (t : RegistryType). RefersBelow rank n t.type_def) same below

registry-IsRanked : IsRanked registry rank
registry-IsRanked zero ty h = refers_below ty _ 1 h ((omega arith, tt), tt)
registry-IsRanked (suc zero) ty h = refers_below ty _ 0 h tt
registry-IsRanked (suc (suc id)) ty h = cc

rank-below : (id : ℕ) → rank id < 2
rank-below zero = omega arith
rank-below (suc id) = omega arith

event_found : event node_metadata 5 3 ≡ Result.ok (event_value balances transfer)
unfolding event get
event_found = refl

abbrev frame : Frame scale node_metadata
frame = record {
  phase = Phase.initialization;
  phase_bytes = 0 ∷ [];
  pallet_index = 5;
  variant_index = 3;
  metadata = event_value balances transfer;
  data_bytes = 42 ∷ [];
  topics = 0;
  topics_bytes = 0 ∷ [];
  phase_read = λ rest. refl;
  found = event_found;
  topics_read = λ rest. refl;
}

amount : Encoded scale (resolve_type node_metadata) 1 (42 ∷ [])
amount =
    Encoded.primitive (record { ident = none; type_def = primitive TypeDefPrimitive.u8 })
      TypeDefPrimitive.u8 refl refl (42, byte-RoundTrips 42, refl)

fields : EncodedEvent scale node_metadata (event_value balances transfer) (1 ∷ []) (42 ∷ []) []
fields = plain {bytes = 42 ∷ []} {others = []} (inl (λ (p, v). cc)) amount no_fields

records : EncodedRecords scale node_metadata 1 (0 ∷ 5 ∷ 3 ∷ 42 ∷ 0 ∷ []) events
records = EncodedRecords.event {bytes = []} {entries = []} frame fields no_records

decode_events-EncodedRecords_example :
    decode_events scale node_metadata 2 (1 ∷ 0 ∷ 5 ∷ 3 ∷ 42 ∷ 0 ∷ 99 ∷ []) ≡ ok (events, 99 ∷ [])
decode_events-EncodedRecords_example =
    decode_events-EncodedRecords scale node_metadata rank registry-IsRanked 2 rank-below
      slice-IsLawfulInput 1 (0 ∷ 5 ∷ 3 ∷ 42 ∷ 0 ∷ []) (99 ∷ []) events (byte-RoundTrips 1) records

argument : EncodedFields scale (resolve_type node_metadata) (1 ∷ []) (9 ∷ [])
argument =
    field {bytes = 9 ∷ []} {others = []}
      (Encoded.primitive (record { ident = none; type_def = primitive TypeDefPrimitive.u8 })
        TypeDefPrimitive.u8 refl refl (9, byte-RoundTrips 9, refl))
      EncodedFields.no_fields

only_transfer :
    (i j : ℕ) (x : CallMetadata)
    → call node_metadata i j ≡ Result.ok x
    → call_value balances transfer ≡ x
unfolding call get
only_transfer i j x found = elim (Bool-cases (◌==◌ {T = ℕ × ℕ} (5, 3) (i, j))) [
  | inl same ↦ cc (rw (same, call, get) at found)
  | inr other ↦ cc (rw (other, call, get) at found)
]

decode_call-encode_call_example :
    decode_call scale node_metadata 2 (5 ∷ 3 ∷ 9 ∷ 99 ∷ []) ≡ ok (99 ∷ [])
decode_call-encode_call_example =
    decode_call-encode_call scale node_metadata rank registry-IsRanked 2 rank-below
      slice-IsLawfulInput byte runtime balances_pallet "Balances" "transfer" 9 transfer_call
      (99 ∷ []) built (unambiguous (λ p. p.calls) refl) found_pallet encoded_call
      (λ i j x found in_pallet named.
        subst
          (λ (x : CallMetadata).
            EncodedFields scale (resolve_type node_metadata) x.variant.fields (9 ∷ []))
          (only_transfer i j x found) argument)
