-- ===== src/Decoder/Events.antt =====
-- `decode_events`, `decode_raw_event` and `decode_call` of node-api/src/decoder.rs.
pub mod Laws
pub mod Encoded
pub mod Complete
pub mod Fields
pub mod Sound
use fusotao_rust_client.Prelude.{
  ℕ, zero, suc, String, Bool, true, false, ◌&&◌, Option, none, some, List, [], ◌∷◌, ◌++◌, map, ◌==◌,
  string_eq,
}
use fusotao_rust_client.Prelude.Outcome.{Outcome, ok, err, ◌>>=◌, lift}
use fusotao_rust_client.Prelude.Text.{Bytes}
use fusotao_rust_client.Error.{Error, RuntimeError, type_not_found}
use fusotao_rust_client.Metadata.{
  Metadata, EventMetadata, event as find_event, call as find_call, resolve_type,
}
use fusotao_rust_client.Dispatch.{from_dispatch}
use fusotao_rust_client.Decoder.Scale.{Phase, Scale}
use fusotao_rust_client.Decoder.Types.{Cursor, each, decode_type}

pub record RawEvent : Type 0 where
  pub pallet : String
  pub pallet_index : ℕ
  pub variant : String
  pub variant_index : ℕ
  pub data_bytes : Bytes

pub data Raw : Type 0 where
  event : RawEvent → Raw
  error : RuntimeError → Raw

-- The cursor and the `errors` of `decode_raw_event`.
pub record EventState : Type 0 where
  pub cursor : Cursor
  pub errors : List RuntimeError

abbrev pub is_dispatch_error : Option String → Bool
is_dispatch_error none = false
is_dispatch_error (some ident) = ident == "DispatchError"

unfoldable pub is_extrinsic_failed : EventMetadata → Bool
is_extrinsic_failed e = (e.pallet == "System") && (e.event == "ExtrinsicFailed")

module _ (S : Scale) (m : Metadata) (fuel : ℕ) where
  unfoldable pub decode_plain_field : ℕ → EventState → Outcome Error EventState
  decode_plain_field type_id s = do
    cursor ← decode_type S (resolve_type m) fuel type_id s.cursor
    ok (record s { cursor = cursor })

  -- The field of `System::ExtrinsicFailed` that says why.
  unfoldable pub decode_dispatch_field : EventState → Outcome Error EventState
  decode_dispatch_field s = do
    (dispatch_error, rest) ← lift Error.codec (S.dispatch_error.decode s.cursor.input)
    runtime_error ← lift (λ e. e) (from_dispatch m dispatch_error)
    ok (record {
      cursor = record {
        input = rest;
        output = s.cursor.output ++ S.dispatch_error.encode dispatch_error;
      };
      errors = s.errors ++ (runtime_error ∷ []);
    })

  unfoldable pub decode_event_field : EventMetadata → ℕ → EventState → Outcome Error EventState
  unfolding decode_plain_field decode_dispatch_field is_extrinsic_failed
  decode_event_field e type_id s = elim (is_extrinsic_failed e) [
    | false ↦ decode_plain_field type_id s
    | true ↦ elim (resolve_type m type_id) [
      | none ↦ err (Error.metadata (type_not_found type_id))
      | some ty ↦ elim (is_dispatch_error ty.ident) [
        | true ↦ decode_dispatch_field s
        | false ↦ decode_plain_field type_id s
      ]
    ]
  ]

  unfoldable pub decode_raw_event : EventMetadata → List ℕ → EventState → Outcome Error EventState
  unfolding decode_event_field
  decode_raw_event e [] s = ok s
  decode_raw_event e (type_id ∷ fields) s = do
    s' ← decode_event_field e type_id s
    decode_raw_event e fields s'

  -- What one event record adds to the result: the event, or the errors that it reports.
  unfoldable pub pushed : Phase → RawEvent → List RuntimeError → List (Phase × Raw)
  pushed phase e [] = (phase, Raw.event e) ∷ []
  pushed phase e errors = map (λ (x : RuntimeError). (phase, Raw.error x)) errors

  -- One round of the loop of `decode_events`.
  unfoldable pub decode_event_record : Bytes → Outcome Error (List (Phase × Raw) × Bytes)
  unfolding pushed
  decode_event_record input = do
    (phase, input1) ← lift Error.codec (S.decode_phase input)
    (pallet_index, input2) ← lift Error.codec (S.input.read_byte input1)
    (variant_index, input3) ← lift Error.codec (S.input.read_byte input2)
    e ← lift Error.metadata (find_event m pallet_index variant_index)
    s ←
        decode_raw_event e e.variant.fields
          (record { cursor = record { input = input3; output = [] }; errors = [] })
    (topics, rest) ← lift Error.codec (S.decode_topics s.cursor.input)
    let raw : RawEvent = record {
      pallet = e.pallet;
      pallet_index = pallet_index;
      variant = e.event;
      variant_index = variant_index;
      data_bytes = s.cursor.output;
    }
    ok (pushed phase raw s.errors, rest)

  unfoldable pub decode_event_records :
      ℕ → List (Phase × Raw) → Bytes → Outcome Error (List (Phase × Raw) × Bytes)
  decode_event_records zero r input = ok (r, input)
  decode_event_records (suc n) r input = do
    (new, rest) ← decode_event_record input
    decode_event_records n (r ++ new) rest

  unfoldable pub decode_events : Bytes → Outcome Error (List (Phase × Raw) × Bytes)
  unfolding decode_event_records decode_event_record decode_raw_event
  decode_events input = do
    (len, rest) ← lift Error.codec (S.compact_u32.decode input)
    decode_event_records len [] rest

  -- `decode_call`: the call's arguments are read and dropped; the input that is left is returned.
  unfoldable pub decode_call : Bytes → Outcome Error Bytes
  unfolding each
  decode_call input = do
    (pallet_index, input1) ← lift Error.codec (S.input.read_byte input)
    (variant_index, input2) ← lift Error.codec (S.input.read_byte input1)
    call_metadata ← lift Error.metadata (find_call m pallet_index variant_index)
    s ←
        each (decode_type S (resolve_type m) fuel) call_metadata.variant.fields
          (record { input = input2; output = [] })
    ok s.input
