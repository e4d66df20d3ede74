-- ===== src/Decoder/Events/Encoded.antt =====
-- The SCALE encoding of event records, as a node stores them: what `decode_events` of
-- node-api/src/decoder.rs is meant to read.
use fusotao_rust_client.Prelude.{ℕ, zero, suc, ◌≡◌, ◌≢◌, ◌⊎◌, some, List, [], ◌∷◌, ◌++◌, map}
use fusotao_rust_client.Prelude.Result.{Result}
use fusotao_rust_client.Prelude.Text.{Bytes}
use fusotao_rust_client.External.Codec.{RoundTrips}
use fusotao_rust_client.External.FrameMetadata.{RegistryType}
use fusotao_rust_client.External.Runtime.{DispatchError}
use fusotao_rust_client.Error.{RuntimeError}
use fusotao_rust_client.Dispatch.{from_dispatch}
use fusotao_rust_client.Metadata.{Metadata, EventMetadata, event as find_event, resolve_type}
use fusotao_rust_client.Decoder.Scale.{Phase, Scale}
use fusotao_rust_client.Decoder.Types.Encoded.{Encoded}
use fusotao_rust_client.Decoder.Events.{RawEvent, Raw}

abbrev pub IsExtrinsicFailed : EventMetadata → Type 0
IsExtrinsicFailed e = (e.pallet ≡ "System") × (e.event ≡ "ExtrinsicFailed")

-- The field says why an extrinsic has failed.
abbrev pub IsReason : Metadata → EventMetadata → ℕ → Type 0
IsReason m e id =
    (ty : RegistryType) × IsExtrinsicFailed e
    × (resolve_type m id ≡ some ty)
    × (ty.ident ≡ some "DispatchError")

abbrev pub IsPlain : Metadata → EventMetadata → ℕ → Type 0
IsPlain m e id =
    (¬ IsExtrinsicFailed e)
    ⊎ ((ty : RegistryType) × (resolve_type m id ≡ some ty) × (ty.ident ≢ some "DispatchError"))

-- `EncodedEvent S m e fields bytes errors`: the bytes are the encoding of the fields of an event,
-- and the errors are those that its fields give for the extrinsic's failure.
pub data EncodedEvent (S : Scale) (m : Metadata) (e : EventMetadata)
    : List ℕ → Bytes → List RuntimeError → Type 0 where
  no_fields : EncodedEvent S m e [] [] []
  plain :
      {id : ℕ} {fields : List ℕ} {bytes others : Bytes} {errors : List RuntimeError}
      → IsPlain m e id
      → Encoded S (resolve_type m) id bytes
      → EncodedEvent S m e fields others errors
      → EncodedEvent S m e (id ∷ fields) (bytes ++ others) errors
  reason :
      {id : ℕ} {fields : List ℕ} {others : Bytes} {errors : List RuntimeError} (x : DispatchError)
      (error : RuntimeError)
      → IsReason m e id
      → RoundTrips S.dispatch_error x
      → from_dispatch m x ≡ Result.ok error
      → EncodedEvent S m e fields others errors
      → EncodedEvent S m e (id ∷ fields) (S.dispatch_error.encode x ++ others) (error ∷ errors)

-- The parts of an event record around the fields of the event.
pub record Frame (S : Scale) (m : Metadata) : Type 0 where
  pub phase : Phase
  pub phase_bytes : Bytes
  pub pallet_index : ℕ
  pub variant_index : ℕ
  pub metadata : EventMetadata
  pub data_bytes : Bytes
  pub topics : Scale.Hashes S
  pub topics_bytes : Bytes
  pub phase_read : (rest : Bytes) → S.decode_phase (phase_bytes ++ rest) ≡ Result.ok (phase, rest)
  pub found : find_event m pallet_index variant_index ≡ Result.ok metadata
  pub topics_read :
      (rest : Bytes) → S.decode_topics (topics_bytes ++ rest) ≡ Result.ok (topics, rest)

module _ {S : Scale} {m : Metadata} where
  -- The phase, the two indices, the fields of the event, and the topics.
  abbrev pub record_bytes : Frame S m → Bytes
  record_bytes f =
      f.phase_bytes ++ (f.pallet_index ∷ f.variant_index ∷ (f.data_bytes ++ f.topics_bytes))

  abbrev pub raw_of : Frame S m → RawEvent
  raw_of f = record {
    pallet = f.metadata.pallet;
    pallet_index = f.pallet_index;
    variant = f.metadata.event;
    variant_index = f.variant_index;
    data_bytes = f.data_bytes;
  }

  abbrev pub error_entry : Frame S m → RuntimeError → Phase × Raw
  error_entry f error = (f.phase, Raw.error error)

-- `EncodedRecords S m n bytes entries`: the bytes are the encoding of `n` event records. A record
-- is reported as its event, or as the errors that the fields of its event give.
pub data EncodedRecords (S : Scale) (m : Metadata) : ℕ → Bytes → List (Phase × Raw) → Type 0 where
  no_records : EncodedRecords S m zero [] []
  event :
      {n : ℕ} {bytes : Bytes} {entries : List (Phase × Raw)} (f : Frame S m)
      → EncodedEvent S m f.metadata f.metadata.variant.fields f.data_bytes []
      → EncodedRecords S m n bytes entries
      → EncodedRecords S m
          (suc n)
          (record_bytes f ++ bytes)
          ((f.phase, Raw.event (raw_of f)) ∷ entries)
  failure :
      {n : ℕ} {bytes : Bytes} {entries : List (Phase × Raw)} (f : Frame S m) (error : RuntimeError)
      (errors : List RuntimeError)
      → EncodedEvent S m f.metadata f.metadata.variant.fields f.data_bytes (error ∷ errors)
      → EncodedRecords S m n bytes entries
      → EncodedRecords S m
          (suc n)
          (record_bytes f ++ bytes)
          (map (error_entry f) (error ∷ errors) ++ entries)
