-- ===== src/Tests/Events.antt =====
-- One event of a pallet, with a byte as its data.
use fusotao_rust_client.Prelude.{
  String, here, inr, none, false, string_eq, ◌≡◌, refl, List, [], ◌∷◌, nat_eq, pair_eq,
}
use fusotao_rust_client.Prelude.HashMap.{get}
use fusotao_rust_client.Prelude.Outcome.{ok}
use fusotao_rust_client.Prelude.Result.{Result}
use fusotao_rust_client.Prelude.Text.{Bytes, Text}
use fusotao_rust_client.Metadata.{event}
use fusotao_rust_client.Metadata.Parse.{event_value}
use fusotao_rust_client.Decoder.Scale.{Phase}
use fusotao_rust_client.Decoder.Types.{decode_type}
use fusotao_rust_client.Decoder.Events.{RawEvent, Raw, EventState, decode_raw_event, decode_events}
use fusotao_rust_client.Utils.{vec_from_hex}
use fusotao_rust_client.Rpc.Events.{over, find_raw, wait_for_raw_event}
use fusotao_rust_client.Rpc.Events.Laws.{Reports, ArePassed}
use fusotao_rust_client.Tests.Samples.{hex}
use fusotao_rust_client.Tests.Calls.{node_metadata, balances, transfer}
use fusotao_rust_client.Tests.Types.{scale}

abbrev before : EventState
before = record { cursor = record { input = 42 ∷ 0 ∷ []; output = [] }; errors = [] }

abbrev after : EventState
after = record { cursor = record { input = 0 ∷ []; output = 42 ∷ [] }; errors = [] }

event_decoded :
    decode_raw_event scale node_metadata 1 (event_value balances transfer) (1 ∷ []) before
    ≡ ok after
unfolding decode_raw_event decode_type
event_decoded = refl

abbrev pub event_records : Bytes
event_records = 1 ∷ 0 ∷ 5 ∷ 3 ∷ 42 ∷ 0 ∷ []

abbrev pub events : List (Phase × Raw)
events =
    (
      Phase.initialization,
      Raw.event (record {
        pallet = "Balances";
        pallet_index = 5;
        variant = "transfer";
        variant_index = 3;
        data_bytes = 42 ∷ [];
      }),
    )
    ∷ []

pub events_decoded : decode_events scale node_metadata 1 event_records ≡ ok (events, [])
unfolding decode_events decode_type event get
events_decoded = refl

abbrev pub report : Text
report = hex.encode event_records

abbrev pub empty_report : Text
empty_report = hex.encode (0 ∷ [])

report_read : vec_from_hex hex report ≡ Result.ok event_records
unfolding vec_from_hex
report_read = refl

empty_report_read : vec_from_hex hex empty_report ≡ Result.ok (0 ∷ [])
unfolding vec_from_hex
empty_report_read = refl

no_events : decode_events scale node_metadata 1 (0 ∷ []) ≡ ok ([], [])
unfolding decode_events
no_events = refl

none_found : find_raw "Balances" "transfer" [] ≡ none
unfolding find_raw
none_found = refl

abbrev pub transferred : RawEvent
transferred = record {
  pallet = "Balances";
  pallet_index = 5;
  variant = "transfer";
  variant_index = 3;
  data_bytes = 42 ∷ [];
}

pub reported : Reports String scale node_metadata 1 hex "Balances" "transfer" report transferred
reported = (
  event_records,
  events,
  [],
  report_read,
  events_decoded,
  (Phase.initialization, here, refl, refl),
)

pub returned :
    wait_for_raw_event String scale node_metadata 1 hex "Balances" "transfer"
      (empty_report ∷ report ∷ [])
      false
    ≡ over (ok transferred)
unfolding wait_for_raw_event decode_events decode_type event get
returned = refl

pub passed : ArePassed String scale node_metadata 1 hex "Balances" "transfer" (empty_report ∷ [])
passed = ((0 ∷ [], empty_report_read, inr ([], [], no_events, none_found)), tt)
