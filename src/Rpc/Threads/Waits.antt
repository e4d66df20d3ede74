-- ===== src/Rpc/Threads/Waits.antt =====
-- `wait_for_raw_event` of src/std/rpc/ws_client/mod.rs, on the texts that the caller takes while the
-- thread of its subscription is at work.
use fusotao_rust_client.Prelude.{
  ℕ, String, Bool, false, Option, none, some, List, [], ◌∷◌, ◌++◌, ◌≡◌, sym, ap, ◌∙◌, Has,
}
use fusotao_rust_client.Prelude.Outcome.{Outcome, ok, err, panicked, out_of_fuel}
use fusotao_rust_client.Prelude.Result.{Result}
use fusotao_rust_client.Prelude.Text.{Text, Bytes}
use fusotao_rust_client.External.Hex.{Hex, FromHexError}
use fusotao_rust_client.External.Json.{Json}
use fusotao_rust_client.Error.{Error}
use fusotao_rust_client.Metadata.{Metadata}
use fusotao_rust_client.Decoder.Scale.{Phase, Scale}
use fusotao_rust_client.Decoder.Events.{RawEvent, Raw, decode_events}
use fusotao_rust_client.Utils.{vec_from_hex}
use fusotao_rust_client.Rpc.ApiError.{ApiError}
use fusotao_rust_client.Rpc.Handlers.{Message, on_subscription_msg}
use fusotao_rust_client.Rpc.Client.{Node, connected}
use fusotao_rust_client.Rpc.Subscriber.{run, start_subscriber}
use fusotao_rust_client.Rpc.Events.{
  Wait, over, find_raw, found_or, on_events, on_bytes, wait_for_raw_event,
}
use fusotao_rust_client.Rpc.Events.Laws.{Reports, wait_for_raw_event_sound}
use fusotao_rust_client.Rpc.Threads.{System, Reach, subscriber_fn}
use fusotao_rust_client.Rpc.Threads.Laws.{Reach-taken}

module _ (E : Type 0) (S : Scale) (m : Metadata) (fuel : ℕ) (h : Hex)
    (pallet variant : String) where
  abbrev Waited : Type 0
  Waited = Wait (ApiError E) RawEvent

  -- What is over with the first result is over just so with the second.
  abbrev Extends : Waited → Waited → Type 0
  Extends x y = (r : Outcome (ApiError E) RawEvent) → x ≡ over r → y ≡ over r

  found_or-Extends :
      (found : Option RawEvent) (x y : Waited)
      → Extends x y
      → Extends
          (found_or E S m fuel h pallet variant found x)
          (found_or E S m fuel h pallet variant found y)
  found_or-Extends none x y more = more
  found_or-Extends (some raw) x y more = λ r e. e

  on_events-Extends :
      (events : Outcome Error (List (Phase × Raw) × Bytes)) (x y : Waited)
      → Extends x y
      → Extends
          (on_events E S m fuel h pallet variant events x)
          (on_events E S m fuel h pallet variant events y)
  on_events-Extends (ok (events, rest)) x y more =
      found_or-Extends (find_raw pallet variant events) x y more
  on_events-Extends (err e) x y more = more
  on_events-Extends panicked x y more = λ r e. e
  on_events-Extends out_of_fuel x y more = λ r e. e

  on_bytes-Extends :
      (bytes : Result FromHexError Bytes) (x y : Waited)
      → Extends x y
      → Extends
          (on_bytes E S m fuel h pallet variant bytes x)
          (on_bytes E S m fuel h pallet variant bytes y)
  on_bytes-Extends (Result.ok bytes) x y more =
      on_events-Extends (decode_events S m fuel bytes) x y more
  on_bytes-Extends (Result.err e) x y more = λ r e. e

  -- Texts that come later do not change a result.
  wait_for_raw_event-append :
      (texts later : List Text) (ended : Bool)
      → Extends
          (wait_for_raw_event E S m fuel h pallet variant texts false)
          (wait_for_raw_event E S m fuel h pallet variant (texts ++ later) ended)
  unfolding wait_for_raw_event
  wait_for_raw_event-append [] later ended = λ r e. cc
  wait_for_raw_event-append (text ∷ texts) later ended =
      on_bytes-Extends (vec_from_hex h text) _ _ (wait_for_raw_event-append texts later ended)

module _ (J : Json) (S : Scale) (m : Metadata) (fuel : ℕ) (h : Hex) (pallet variant : String) where
  open J use {SerdeError}

  -- If the node can be reached, and `wait_for_raw_event` returns an event on the texts that the
  -- caller has taken from a subscription so far, in any order of its steps and the thread's, then
  -- the event is of the pallet and the variant and is among the events that one of these texts
  -- reports, and it is the event that `wait_for_raw_event` returns on the whole subscription.
  pub wait_for_raw_event-taken :
      (node : Node) (json_req : Text) {msgs : List Message} {s : System} (raw : RawEvent)
      → node json_req ≡ some msgs
      → Reach J (on_subscription_msg J) msgs s
      → wait_for_raw_event SerdeError S m fuel h pallet variant s.taken false ≡ over (ok raw)
      → let whole = start_subscriber J node json_req in
        ((text : Text) × Has text s.taken × Reports SerdeError S m fuel h pallet variant text raw)
        × (wait_for_raw_event SerdeError S m fuel h pallet variant whole.texts whole.ended
            ≡ over (ok raw))
  unfolding start_subscriber
  wait_for_raw_event-taken node json_req {msgs} {s} raw answers reached returned =
      let (later, same) = Reach-taken J subscriber_fn reached in
      let ended = (run J (on_subscription_msg J) msgs connected).1 in
      (
        wait_for_raw_event_sound SerdeError S m fuel h pallet variant s.taken false raw returned,
        rw (answers, start_subscriber)
            (ap (λ texts. wait_for_raw_event SerdeError S m fuel h pallet variant texts ended)
                (sym same)
              ∙ wait_for_raw_event-append SerdeError S m fuel h pallet variant s.taken later ended
                  (ok raw) returned),
      )
