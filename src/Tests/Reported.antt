-- ===== src/Tests/Reported.antt =====
-- The record of one event, read from a node's bytes.
use fusotao_rust_client.Prelude.{
  ℕ, zero, suc, none, ◌≡◌, refl, subst, Bool-cases, inl, inr, [], ◌∷◌, ◌++◌, ◌==◌, nat_eq, pair_eq,
}
use fusotao_rust_client.Prelude.HashMap.{get}
use fusotao_rust_client.Prelude.Text.{Bytes}
use fusotao_rust_client.External.Codec.{IsExact}
use fusotao_rust_client.External.FrameMetadata.{RegistryType, TypeDefPrimitive, primitive}
use fusotao_rust_client.Metadata.{EventMetadata, event}
use fusotao_rust_client.Metadata.Parse.{event_value}
use fusotao_rust_client.Decoder.Scale.{IsExactScale}
use fusotao_rust_client.Decoder.Types.Sound.{AreGood, IsPlaced, IsIndexed}
use fusotao_rust_client.Decoder.Events.Encoded.{EncodedRecords}
use fusotao_rust_client.Decoder.Events.Sound.{HasGoodEvents, EncodedRecords-decode_events}
use fusotao_rust_client.Tests.Samples.{decode_byte, byte-IsCanonical, refused-IsCanonical}
use fusotao_rust_client.Tests.Calls.{registry, node_metadata, balances, transfer}
use fusotao_rust_client.Tests.Types.{scale, scale-IsCanonicalScale, decode_phase}
use fusotao_rust_client.Tests.Decoded.{refused-IsReadBack, scale-IsReadBackScale}
use fusotao_rust_client.Tests.Events.{event_records, events, events_decoded}

phase-IsExact : IsExact decode_phase
phase-IsExact [] phase rest h = cc
phase-IsExact (b ∷ input) phase rest h = (b ∷ [], cc, λ others. cc)

topics-IsExact : IsExact decode_byte
topics-IsExact input n rest h = (n ∷ [], byte-IsCanonical input n rest h, λ others. refl)

scale-IsExactScale : IsExactScale scale
scale-IsExactScale = record {
  dispatch_error_canonical = refused-IsCanonical;
  dispatch_error_read_back = refused-IsReadBack;
  phase = phase-IsExact;
  topics = topics-IsExact;
  read_byte = byte-IsCanonical;
}

-- The type of bytes.
abbrev IsByte : ℕ → Type 0
IsByte id = id ≡ 1

registry-IsIndexed : IsIndexed IsByte registry
registry-IsIndexed zero ty is found = cc
registry-IsIndexed (suc zero) ty is found =
    let byte : RegistryType = record { ident = none; type_def = primitive TypeDefPrimitive.u8 } in
    let same : byte ≡ ty = cc in subst (λ (t : RegistryType). IsPlaced IsByte t.type_def) same tt
registry-IsIndexed (suc (suc id)) ty is found = cc

events_are_good : HasGoodEvents node_metadata IsByte
unfolding event get
events_are_good p v e h = elim (Bool-cases (◌==◌ {T = ℕ × ℕ} (5, 3) (p, v))) [
  | inl listed ↦
      let same : event_value balances transfer ≡ e = cc (rw (listed) at h) in
      subst (λ (x : EventMetadata). AreGood IsByte x.variant.fields) same (refl, tt)
  | inr absent ↦ cc (rw (absent) at h)
]

EncodedRecords-decode_events_example :
    (n : ℕ) × (bytes : Bytes) × EncodedRecords scale node_metadata n bytes events
    × (event_records ≡ scale.compact_u32.encode n ++ (bytes ++ []))
EncodedRecords-decode_events_example =
    EncodedRecords-decode_events scale node_metadata IsByte 1 event_records [] events
      scale-IsCanonicalScale scale-IsReadBackScale scale-IsExactScale registry-IsIndexed
      events_are_good events_decoded
