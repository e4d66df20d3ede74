-- ===== src/Rpc/Events.antt =====
-- The events of `impl Api` in src/std/rpc/ws_client/mod.rs: subscriptions, and the wait for an
-- event. The texts come in order over the channel that `on_subscription_msg` fills.
pub mod Laws
use fusotao_rust_client.Prelude.{
  ℕ, String, Bool, true, false, ◌&&◌, Option, none, some, List, [], ◌∷◌, ◌==◌, string_eq,
  if◌then◌else◌,
}
use fusotao_rust_client.Prelude.Result.{Result}
use fusotao_rust_client.Prelude.Outcome.{Outcome, ok, err, panicked, out_of_fuel, ◌>>=◌, lift}
use fusotao_rust_client.Prelude.Text.{Text, Bytes}
use fusotao_rust_client.External.Codec.{Codec}
use fusotao_rust_client.External.Hashing.{Hashing}
use fusotao_rust_client.External.Hex.{Hex, FromHexError}
use fusotao_rust_client.External.Json.{Json}
use fusotao_rust_client.Error.{Error}
use fusotao_rust_client.Metadata.{Metadata}
use fusotao_rust_client.Decoder.Scale.{Phase, Scale}
use fusotao_rust_client.Decoder.Events.{RawEvent, Raw, decode_events}
use fusotao_rust_client.Utils.{storage_key, vec_from_hex}
use fusotao_rust_client.Rpc.ApiError.{
  ApiError, disconnected, invalid_hex_string, storage_value_decode,
}
use fusotao_rust_client.Rpc.Requests.{
  Serialize, state_subscribe_storage, chain_subscribe_finalized_heads,
}

-- What a wait comes to: it is over, or the caller waits for the next text.
pub data Wait (E : Type 0) (A : Type 0) : Type 0 where
  over : Outcome E A → Wait E A
  waiting : Wait E A

module _ (J : Json) {Hash : Type 0} (S : Serialize J Hash) where
  open J use {to_text}

  -- The request that `subscribe_events` sends.
  unfoldable pub subscribe_events : Hashing → Text
  unfolding state_subscribe_storage storage_key
  subscribe_events h = to_text (state_subscribe_storage J S (storage_key h "System" "Events" ∷ []))

  -- The request that `subscribe_finalized_heads` sends.
  unfoldable pub subscribe_finalized_heads : Text
  unfolding chain_subscribe_finalized_heads
  subscribe_finalized_heads = to_text (chain_subscribe_finalized_heads J S)

abbrev pub matches : String → String → RawEvent → Bool
matches pallet variant raw = (raw.pallet == pallet) && (raw.variant == variant)

-- The loop over the events of one text: the first event of the pallet and the variant.
unfoldable pub find_raw : String → String → List (Phase × Raw) → Option RawEvent
find_raw pallet variant [] = none
find_raw pallet variant ((_, Raw.error _) ∷ events) = find_raw pallet variant events
find_raw pallet variant ((_, Raw.event raw) ∷ events) =
    let rest = find_raw pallet variant events in
    if matches pallet variant raw then some raw else rest

module _ (SerdeError : Type 0) (S : Scale) (m : Metadata) (fuel : ℕ) (h : Hex)
    (pallet variant : String) where
  abbrev pub found_or :
      Option RawEvent → Wait (ApiError SerdeError) RawEvent → Wait (ApiError SerdeError) RawEvent
  found_or (some raw) later = over (ok raw)
  found_or none later = later

  -- The `match` on the decoded events; an error is logged, and the loop goes on.
  abbrev pub on_events :
      Outcome Error (List (Phase × Raw) × Bytes)
      → Wait (ApiError SerdeError) RawEvent
      → Wait (ApiError SerdeError) RawEvent
  on_events (ok (events, _)) later = found_or (find_raw pallet variant events) later
  on_events (err _) later = later
  on_events panicked later = over panicked
  on_events out_of_fuel later = over out_of_fuel

  abbrev pub on_bytes :
      Result FromHexError Bytes
      → Wait (ApiError SerdeError) RawEvent
      → Wait (ApiError SerdeError) RawEvent
  on_bytes (Result.ok bytes) later = on_events (decode_events S m fuel bytes) later
  on_bytes (Result.err e) later = over (err (invalid_hex_string e))

  -- `ended` is whether the channel's sender is gone after the last text.
  unfoldable pub wait_for_raw_event : List Text → Bool → Wait (ApiError SerdeError) RawEvent
  unfolding vec_from_hex find_raw
  wait_for_raw_event [] ended = if ended then over (err disconnected) else waiting
  wait_for_raw_event (event_str ∷ texts) ended =
      on_bytes (vec_from_hex h event_str) (wait_for_raw_event texts ended)

  -- `E::decode(&mut &raw.data[..])` after the wait
  abbrev pub decode_raw_data :
      {E : Type 0} → Codec E → Wait (ApiError SerdeError) RawEvent → Wait (ApiError SerdeError) E
  decode_raw_data c waiting = waiting
  decode_raw_data c (over r) =
      over
        (do raw ← r; (event, rest) ← lift storage_value_decode (c.decode raw.data_bytes); ok event)

  unfoldable pub wait_for_event :
      {E : Type 0} → Codec E → List Text → Bool → Wait (ApiError SerdeError) E
  unfolding wait_for_raw_event
  wait_for_event c texts ended = decode_raw_data c (wait_for_raw_event texts ended)
