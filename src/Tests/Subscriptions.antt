-- ===== src/Tests/Subscriptions.antt =====
-- A subscription that brings the answer to its request, a change set without events, a text that is
-- not JSON, and a change set with an event.
use fusotao_rust_client.Prelude.{String, ◌≡◌, refl, some, List, [], ◌∷◌, if◌then◌else◌, string_eq}
use fusotao_rust_client.Prelude.Outcome.{ok}
use fusotao_rust_client.Prelude.Result.{Result}
use fusotao_rust_client.Prelude.Text.{Text, codes, text_eq}
use fusotao_rust_client.External.Json.{Json}
use fusotao_rust_client.Decoder.Events.{RawEvent}
use fusotao_rust_client.Rpc.Requests.{Serialize}
use fusotao_rust_client.Rpc.Handlers.{Message}
use fusotao_rust_client.Rpc.Client.{Node}
use fusotao_rust_client.Rpc.Events.{over, wait_for_raw_event}
use fusotao_rust_client.Rpc.Events.Laws.{Reports}
use fusotao_rust_client.Rpc.Subscriber.{events_of}
use fusotao_rust_client.Rpc.Subscriber.Laws.{
  Carries, nothing, reply, garbled, notification, wait_for_raw_event_subscribed,
}
use fusotao_rust_client.Tests.Samples.{hex, hashes}
use fusotao_rust_client.Tests.Calls.{node_metadata}
use fusotao_rust_client.Tests.Types.{scale}
use fusotao_rust_client.Tests.Messages.{Value, missing, str, entry, json}
use fusotao_rust_client.Tests.Events.{report, empty_report, transferred, reported, passed}

abbrev change : Text → Value
change text =
    entry "method" (str (codes "state_storage"))
      (entry "params" (entry "result" (entry "changes" (str text) missing) missing) missing)

abbrev accepted : Value
accepted = entry "id" (str (codes "1")) missing

-- The three messages that are JSON, each under a digit.
abbrev parse : Text → Result String Value
parse t =
    if text_eq t (codes "1")
    then Result.ok accepted
    else if text_eq t (codes "2")
    then Result.ok (change empty_report)
    else if text_eq t (codes "3")
    then Result.ok (change report)
    else Result.err "expected value"

-- An array is its last element.
abbrev pub notes : Json
notes = record json { place = λ v _. v; from_text = parse }

abbrev serialize : Serialize notes Text
serialize = record { hash = str; storage_key = λ _. missing; number = λ _. missing }

abbrev pub messages : List Message
messages = some (codes "1") ∷ some (codes "2") ∷ some (codes "?") ∷ some (codes "3") ∷ []

abbrev pub node : Node
node _ = some messages

pub carried : Carries notes messages (empty_report ∷ report ∷ [])
carried =
    reply (accepted, codes "1", refl, refl)
      (notification (change empty_report, refl, refl, refl, refl)
        (garbled ("expected value", refl)
          (notification (change report, refl, refl, refl, refl) nothing)))

wait_for_raw_event_subscribed_example :
    let events = events_of notes serialize hashes node in
    (first : RawEvent) × (wait_for_raw_event String scale node_metadata 1 hex "Balances" "transfer"
        events.texts events.ended
      ≡ over (ok first))
    × Reports String scale node_metadata 1 hex "Balances" "transfer" report first
wait_for_raw_event_subscribed_example =
    wait_for_raw_event_subscribed notes serialize hashes node scale node_metadata 1 hex "Balances"
      "transfer" messages (empty_report ∷ []) [] report transferred refl carried passed reported
