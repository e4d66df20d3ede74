-- ===== src/Rpc/Subscriber/Laws.antt =====
-- What a subscriber receives, and the wait for an event over a subscription.
use fusotao_rust_client.Prelude.{
  ℕ, String, ◌≡◌, refl, sym, ap, ◌∙◌, true, false, none, some, List, [], ◌∷◌, ◌++◌, append_assoc,
  append-nil,
}
use fusotao_rust_client.Prelude.Result.{Result}
use fusotao_rust_client.Prelude.Outcome.{ok}
use fusotao_rust_client.Prelude.Text.{Text, codes}
use fusotao_rust_client.External.Hashing.{Hashing}
use fusotao_rust_client.External.Hex.{Hex}
use fusotao_rust_client.External.Json.{Json}
use fusotao_rust_client.Metadata.{Metadata}
use fusotao_rust_client.Decoder.Scale.{Scale}
use fusotao_rust_client.Decoder.Events.{RawEvent}
use fusotao_rust_client.Rpc.Types.{serde}
use fusotao_rust_client.Rpc.Requests.{Serialize}
use fusotao_rust_client.Rpc.Handlers.{
  Message, Connection, done, failed, rpc_client, on_subscription_msg, on_subscription_value,
  on_notification, send_or_close,
}
use fusotao_rust_client.Rpc.Client.{Node, connected}
use fusotao_rust_client.Rpc.Events.{over, wait_for_raw_event, subscribe_events}
use fusotao_rust_client.Rpc.Events.Laws.{ArePassed, Reports, wait_for_raw_event_returns}
use fusotao_rust_client.Rpc.Subscriber.{run, go_on, start_subscriber, events_of}

module _ (J : Json) where
  open J use {Value, SerdeError, field, place, as_str, from_text}

  -- The answer to a request, which has an id.
  abbrev pub IsReply : Message → Type 0
  IsReply none = ⊥
  IsReply (some text) =
      (value : Value) × (id : Text) × (from_text text ≡ Result.ok value)
      × (as_str (field value "id") ≡ some id)

  -- A notification of the storage with the change set as its text.
  abbrev pub Notifies : Message → Text → Type 0
  Notifies none change_set = ⊥
  Notifies (some text) change_set =
      (value : Value) × (from_text text ≡ Result.ok value)
      × (as_str (field value "id") ≡ none)
      × (as_str (field value "method") ≡ some (codes "state_storage"))
      × (as_str (place (place (field (field (field value "params") "result") "changes") 0) 1)
          ≡ some change_set)

  -- A text that is not JSON.
  abbrev pub IsGarbled : Message → Type 0
  IsGarbled none = ⊥
  IsGarbled (some text) = (e : SerdeError) × (from_text text ≡ Result.err e)

  -- The messages are notifications of the change sets, in order, among answers to requests and texts
  -- that are not JSON.
  pub data Carries : List Message → List Text → Type 0 where
    nothing : Carries [] []
    reply :
        {msg : Message} {msgs : List Message} {texts : List Text}
        → IsReply msg
        → Carries msgs texts
        → Carries (msg ∷ msgs) texts
    garbled :
        {msg : Message} {msgs : List Message} {texts : List Text}
        → IsGarbled msg
        → Carries msgs texts
        → Carries (msg ∷ msgs) texts
    notification :
        {msg : Message} {msgs : List Message} {texts : List Text} {text : Text}
        → Notifies msg text
        → Carries msgs texts
        → Carries (msg ∷ msgs) (text ∷ texts)

  on_reply :
      (msg : Message) (c : Connection) → IsReply msg → on_subscription_msg J msg c ≡ (c, done)
  unfolding on_subscription_msg on_subscription_value
  on_reply none c is = absurd is
  on_reply (some text) c (value, id, parsed, has) =
      rw (parsed, on_subscription_msg, has, on_subscription_value) refl

  on_garbled :
      (msg : Message) (c : Connection)
      → IsGarbled msg
      → (e : SerdeError) × (on_subscription_msg J msg c ≡ (c, failed (rpc_client (serde e))))
  unfolding on_subscription_msg
  on_garbled none c is = absurd is
  on_garbled (some text) c (e, unparsed) = (e, rw (unparsed, on_subscription_msg) refl)

  abbrev pub with_texts : Connection → List Text → Connection
  with_texts c texts = record c { sent = c.sent ++ texts }

  on_change :
      (msg : Message) (text : Text) (c : Connection)
      → c.receiving ≡ true
      → Notifies msg text
      → on_subscription_msg J msg c ≡ (with_texts c (text ∷ []), done)
  unfolding on_subscription_msg on_subscription_value on_notification send_or_close
  on_change none text c receiving is = absurd is
  on_change (some t) text c receiving (value, parsed, no_id, method, change) =
      rw
        (
          parsed, on_subscription_msg, no_id, on_subscription_value, method, on_notification,
          change, receiving,
        )
        refl

  -- The thread sends just the change sets, and goes on.
  pub run-Carries :
      (msgs : List Message) (texts : List Text) (c : Connection)
      → c.receiving ≡ true
      → c.closed ≡ false
      → Carries msgs texts
      → run J (on_subscription_msg J) msgs c ≡ (with_texts c texts, false)
  unfolding run
  run-Carries msgs texts c receiving open_yet nothing =
      ap (λ sent. (record c { sent = sent }, false)) (sym (append-nil c.sent))
  run-Carries msgs texts c receiving open_yet (reply {msg} {msgs = others} is carries) =
      rw (on_reply msg c is) (run-Carries others texts c receiving open_yet carries)
  run-Carries msgs texts c receiving open_yet (garbled {msg} {msgs = others} is carries) =
      rw ((on_garbled msg c is).1) (
        ap (λ over. go_on J c over (run J (on_subscription_msg J) others c)) open_yet
        ∙ run-Carries others texts c receiving open_yet carries)
  run-Carries msgs texts c receiving open_yet
        (notification {msg} {msgs = others} {texts = later} {text} is carries) =
      rw (on_change msg text c receiving is) (
        run-Carries others later (with_texts c (text ∷ [])) receiving open_yet carries
        ∙ ap (λ sent. (record c { sent = sent }, false)) (append_assoc c.sent (text ∷ []) later))

  -- A subscriber receives exactly the change sets of the node's notifications, in order, and its
  -- channel stays open, where the node answers the request for the subscription with these
  -- notifications, with answers to requests and with texts that are not JSON.
  pub start_subscriber-Carries :
      (node : Node) (json_req : Text) (msgs : List Message) (texts : List Text)
      → node json_req ≡ some msgs
      → Carries msgs texts
      → start_subscriber J node json_req ≡ record { texts = texts; ended = false }
  unfolding start_subscriber
  start_subscriber-Carries node json_req msgs texts answers carries =
      rw (answers, start_subscriber, run-Carries msgs texts connected refl refl carries) refl

  -- If the node answers the request of `subscribe_events` with notifications of the storage, among
  -- answers to requests and texts that are not JSON, and some change sets that report no event of the pallet and the variant
  -- are followed by one that does, then a caller that waits for such an event over the subscription
  -- gets one that this change set reports, whatever follows.
  pub wait_for_raw_event_subscribed :
      {Hash : Type 0} (R : Serialize J Hash) (h : Hashing) (node : Node) (S : Scale) (m : Metadata)
      (fuel : ℕ) (hex : Hex) (pallet variant : String) (msgs : List Message)
      (texts later : List Text) (text : Text) (raw : RawEvent)
      → node (subscribe_events J R h) ≡ some msgs
      → Carries msgs (texts ++ (text ∷ later))
      → ArePassed (Json.SerdeError J) S m fuel hex pallet variant texts
      → Reports (Json.SerdeError J) S m fuel hex pallet variant text raw
      → let events = events_of J R h node in
        (first : RawEvent) × (wait_for_raw_event
            (Json.SerdeError J)
            S
            m
            fuel
            hex
            pallet
            variant
            events.texts
            events.ended
          ≡ over (ok first))
        × Reports (Json.SerdeError J) S m fuel hex pallet variant text first
  unfolding events_of
  wait_for_raw_event_subscribed R h node S m fuel hex pallet variant msgs texts later text raw
        answers carries passed reports =
      let (first, returned, reported) =
        wait_for_raw_event_returns (Json.SerdeError J) S m fuel hex pallet variant texts later text
          false raw passed reports in
      (
        first,
        rw
            (start_subscriber-Carries node (subscribe_events J R h) msgs (texts ++ (text ∷ later))
              answers carries)
            returned,
        reported,
      )
