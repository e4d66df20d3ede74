-- ===== src/Decoder/Events/Complete.antt =====
-- `decode_events` reads back every list of event records.
use fusotao_rust_client.Prelude.{
  ℕ, String, ◌<◌, ◌≡◌, refl, ap, true, false, Bool-cases, inl, inr, none, some, List, [], ◌∷◌, ◌++◌,
  map, ◌==◌, string_eq, append_assoc, append-nil, arith, Option,
}
use fusotao_rust_client.Prelude.Outcome.{ok}
use fusotao_rust_client.Prelude.Text.{Bytes}
use fusotao_rust_client.External.Codec.{RoundTrips, IsLawfulInput}
use fusotao_rust_client.Error.{RuntimeError}
use fusotao_rust_client.Metadata.{Metadata, EventMetadata, resolve_type}
use fusotao_rust_client.Decoder.Scale.{Phase, Scale}
use fusotao_rust_client.Decoder.Types.Fuel.{IsRanked}
use fusotao_rust_client.Decoder.Types.Complete.{decode_type-Encoded}
use fusotao_rust_client.Decoder.Events.{
  Raw, EventState, is_dispatch_error, is_extrinsic_failed, decode_plain_field,
  decode_dispatch_field, decode_event_field, decode_raw_event, pushed, decode_event_record,
  decode_event_records, decode_events,
}
use fusotao_rust_client.Decoder.Events.Encoded.{
  IsExtrinsicFailed, IsReason, IsPlain, EncodedEvent, no_fields, plain, reason, Frame, record_bytes,
  raw_of, error_entry, EncodedRecords, no_records, event, failure,
}

pub is_extrinsic_failed-true :
    (e : EventMetadata) → IsExtrinsicFailed e → is_extrinsic_failed e ≡ true
unfolding is_extrinsic_failed
is_extrinsic_failed-true e (p, v) =
    ground (arith, string_eq.beq_iff e.pallet "System", string_eq.beq_iff e.event "ExtrinsicFailed")

is_extrinsic_failed-false :
    (e : EventMetadata) → ¬ IsExtrinsicFailed e → is_extrinsic_failed e ≡ false
unfolding is_extrinsic_failed
is_extrinsic_failed-false e other = elim (Bool-cases (is_extrinsic_failed e)) [
  | inr h ↦ h
  | inl h ↦ absurd (
      other (
        ground (arith, h, string_eq.beq_iff e.pallet "System"),
        ground (arith, h, string_eq.beq_iff e.event "ExtrinsicFailed"),
      ))
]

is_dispatch_error-false :
    (ident : Option String) → ¬ (ident ≡ some "DispatchError") → is_dispatch_error ident ≡ false
is_dispatch_error-false none other = refl
is_dispatch_error-false (some ident) other = elim (Bool-cases (ident == "DispatchError")) [
  | inr h ↦ h
  | inl h ↦ absurd (other (ap some ((string_eq.beq_iff ident "DispatchError").0 h)))
]

module _ (S : Scale) (m : Metadata) (fuel : ℕ) where
  decode_event_field-IsPlain :
      (e : EventMetadata) (id : ℕ) (s : EventState)
      → IsPlain m e id
      → decode_event_field S m fuel e id s ≡ decode_plain_field S m fuel id s
  unfolding decode_event_field
  decode_event_field-IsPlain e id s (inl other) =
      rw (is_extrinsic_failed-false e other, decode_event_field) refl
  decode_event_field-IsPlain e id s (inr (ty, resolved, other)) =
      elim (Bool-cases (is_extrinsic_failed e)) [
        | inr h ↦ rw (h, decode_event_field) refl
        | inl h ↦ rw (h, decode_event_field, resolved, is_dispatch_error-false ty.ident other) refl
      ]

  decode_event_field-IsReason :
      (e : EventMetadata) (id : ℕ) (s : EventState)
      → IsReason m e id
      → decode_event_field S m fuel e id s ≡ decode_dispatch_field S m fuel s
  unfolding decode_event_field
  decode_event_field-IsReason e id s (ty, failed, resolved, ident) =
      rw (is_extrinsic_failed-true e failed, decode_event_field, resolved, ident) refl

module _ (S : Scale) (m : Metadata) (rank : ℕ → ℕ) (ranked : IsRanked (resolve_type m) rank)
    (fuel : ℕ) (enough : (id : ℕ) → rank id < fuel) where
  decode_raw_event-EncodedEvent :
      (e : EventMetadata) (fields : List ℕ) (bytes : Bytes) (errors : List RuntimeError)
      (rest output : Bytes) (before : List RuntimeError)
      → EncodedEvent S m e fields bytes errors
      → decode_raw_event S m fuel e fields
          (record { cursor = record { input = bytes ++ rest; output = output }; errors = before })
        ≡ ok (record {
          cursor = record { input = rest; output = output ++ bytes };
          errors = before ++ errors;
        })
  unfolding decode_raw_event decode_plain_field decode_dispatch_field
  decode_raw_event-EncodedEvent e fields bytes errors rest output before no_fields =
      rw (append-nil output, append-nil before) refl
  decode_raw_event-EncodedEvent e fields bytes errors rest output before
        (plain {id} {fields = later} {bytes = xs} {others = ys} is encoded others) =
      rw
        (
          append_assoc xs ys rest,
          decode_event_field-IsPlain S m fuel e id _ is,
          decode_type-Encoded S (resolve_type m) rank ranked fuel id xs (ys ++ rest) output
              (enough id) encoded,
          decode_raw_event-EncodedEvent e later ys errors rest (output ++ xs) before others,
          append_assoc output xs ys,
        )
        refl
  decode_raw_event-EncodedEvent e fields bytes errors rest output before
        (reason {id} {fields = later} {others = ys} {errors = more} x error is back named others) =
      let xs = S.dispatch_error.encode x in
      rw
        (
          append_assoc xs ys rest,
          decode_event_field-IsReason S m fuel e id _ is,
          back (ys ++ rest),
          named,
          decode_raw_event-EncodedEvent e later ys more rest (output ++ xs) (before ++ (error ∷ []))
              others,
          append_assoc output xs ys,
          append_assoc before (error ∷ []) more,
        )
        refl

  module _ (lawful : IsLawfulInput S.input) where
    decode_event_record-Frame :
        (f : Frame S m) (errors : List RuntimeError) (rest : Bytes)
        → EncodedEvent S m f.metadata f.metadata.variant.fields f.data_bytes errors
        → decode_event_record S m fuel (record_bytes f ++ rest)
          ≡ ok (pushed S m fuel f.phase (raw_of f) errors, rest)
    unfolding decode_event_record
    decode_event_record-Frame f errors rest encoded =
        let after = f.data_bytes ++ f.topics_bytes in
        rw
          (
            append_assoc f.phase_bytes (f.pallet_index ∷ f.variant_index ∷ after) rest,
            f.phase_read (f.pallet_index ∷ f.variant_index ∷ (after ++ rest)),
            lawful.read_byte-cons f.pallet_index (f.variant_index ∷ (after ++ rest)),
            lawful.read_byte-cons f.variant_index (after ++ rest),
            f.found,
            append_assoc f.data_bytes f.topics_bytes rest,
            decode_raw_event-EncodedEvent f.metadata f.metadata.variant.fields f.data_bytes errors
                (f.topics_bytes ++ rest) [] [] encoded,
            f.topics_read rest,
          )
          refl

    decode_event_records-EncodedRecords :
        (n : ℕ) (bytes rest : Bytes) (entries before : List (Phase × Raw))
        → EncodedRecords S m n bytes entries
        → decode_event_records S m fuel n before (bytes ++ rest) ≡ ok (before ++ entries, rest)
    unfolding decode_event_records pushed
    decode_event_records-EncodedRecords n bytes rest entries before no_records =
        rw (append-nil before) refl
    decode_event_records-EncodedRecords n bytes rest entries before
          (event {n = k} {bytes = others} {entries = later} f encoded records) =
        let new : List (Phase × Raw) = (f.phase, Raw.event (raw_of f)) ∷ [] in
        rw
          (
            append_assoc (record_bytes f) others rest,
            decode_event_record-Frame f [] (others ++ rest) encoded,
            decode_event_records-EncodedRecords k others rest later (before ++ new) records,
            append_assoc before new later,
          )
          refl
    decode_event_records-EncodedRecords n bytes rest entries before
          (failure {n = k} {bytes = others} {entries = later} f error errors encoded records) =
        let new : List (Phase × Raw) = map (error_entry f) (error ∷ errors) in
        rw
          (
            append_assoc (record_bytes f) others rest,
            decode_event_record-Frame f (error ∷ errors) (others ++ rest) encoded,
            decode_event_records-EncodedRecords k others rest later (before ++ new) records,
            append_assoc before new later,
          )
          refl

    -- In a registry without cycles, with fuel above every type's rank, `decode_events` reads the
    -- encoding of every list of event records, whatever bytes follow, and returns in their order
    -- the events with their names and the bytes of their fields; the event of a failed extrinsic is
    -- reported by the errors that its fields give, where they give any. The fields are of the types
    -- that `decode_type` supports, compact types not among them; the codecs read back what they
    -- write, `read_byte` gives the byte in front, and the metadata has the events and names the
    -- errors.
    pub decode_events-EncodedRecords :
        (n : ℕ) (bytes rest : Bytes) (entries : List (Phase × Raw))
        → RoundTrips S.compact_u32 n
        → EncodedRecords S m n bytes entries
        → decode_events S m fuel (S.compact_u32.encode n ++ (bytes ++ rest)) ≡ ok (entries, rest)
    unfolding decode_events
    decode_events-EncodedRecords n bytes rest entries back records =
        rw (back (bytes ++ rest))
          (decode_event_records-EncodedRecords n bytes rest entries [] records)
