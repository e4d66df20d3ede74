-- ===== src/Rpc/Client.antt =====
-- src/std/rpc/ws_client/client.rs: a request over a connection of its own, and the answer that the
-- connection's thread sends to the caller.
pub mod Waiting
pub mod Answers
use fusotao_rust_client.Prelude.{String, Option, none, some, List, [], ◌∷◌, Bool, true, false}
use fusotao_rust_client.Prelude.Result.{Result, ok, err, ◌>>=◌, map_err}
use fusotao_rust_client.Prelude.Text.{Text, Bytes}
use fusotao_rust_client.External.Json.{Json}
use fusotao_rust_client.External.Hex.{Hex}
use fusotao_rust_client.Utils.{hash_from_hex}
use fusotao_rust_client.Rpc.Types.{
  XtStatus, finalized, in_block, broadcast, ready, future, submit_only, error, unknown,
}
use fusotao_rust_client.Rpc.ApiError.{
  ApiError, disconnected, invalid_hex_string, unsupported_xt_status,
}
use fusotao_rust_client.Rpc.Requests.{
  Serialize, author_submit_extrinsic, author_submit_and_watch_extrinsic,
}
use fusotao_rust_client.Rpc.Handlers.{
  Message, Connection, WsResult, is_over, OnMessageFn, on_get_request_msg,
  on_extrinsic_msg_until_finalized, on_extrinsic_msg_until_in_block,
  on_extrinsic_msg_until_broadcast, on_extrinsic_msg_until_ready, on_extrinsic_msg_submit_only,
}

-- What `recv` on the caller's end of the channel comes to: the first text that was sent; an error,
-- as the thread is over and its sender gone; or the caller is still waiting.
pub data Reception : Type 0 where
  received : Text → Reception
  gone : Reception
  waiting : Reception

-- What a request comes to: an `ApiResult`, or the caller waits.
pub data Answer (E : Type 0) (A : Type 0) : Type 0 where
  answer : Result E A → Answer E A
  waits : Answer E A

-- A node: the messages with which it answers a request, or nothing if it cannot be reached.
abbrev pub Node : Type 0
Node = Text → Option (List Message)

abbrev pub connected : Connection
connected = record { can_close = true; receiving = true; closed = false; sent = [] }

module _ (J : Json) where
  open J use {Value, SerdeError, to_text}

  -- What the caller has received when a message was handled, given whether the thread is over and
  -- what the later messages bring.
  abbrev pub received_or : List Text → Bool → Reception → Reception
  received_or (text ∷ _) over later = received text
  received_or [] false later = later
  received_or [] true later = gone

  -- The thread handles the messages in order, until it is over.
  unfoldable pub recv : OnMessageFn J → List Message → Connection → Reception
  recv on_message [] c = waiting
  recv on_message (msg ∷ msgs) c =
      let (after, r) = on_message msg c in
      received_or after.sent (is_over after.closed r) (recv on_message msgs after)

  -- `start_rpc_client_thread`, then `recv`
  unfoldable pub start_rpc_client_thread : Node → Text → OnMessageFn J → Reception
  unfolding recv
  start_rpc_client_thread node jsonreq on_message_fn = elim (node jsonreq) [
    | some msgs ↦ recv on_message_fn msgs connected
    | none ↦ gone
  ]

  -- `let res = result_out.recv()?;` and the code after it
  abbrev pub after_recv :
      {A : Type 0}
      → (Text → Result (ApiError SerdeError) A)
      → Reception
      → Answer (ApiError SerdeError) A
  after_recv use_text (received res) = answer (use_text res)
  after_recv use_text gone = answer (err disconnected)
  after_recv use_text waiting = waits

  -- The methods of the struct, each with its handler, and what their caller receives;
  -- `send_extrinsic_submit_only` is the struct's own `send_extrinsic`.
  unfoldable pub get : Node → Text → Reception
  unfolding start_rpc_client_thread on_get_request_msg
  get node json_req = start_rpc_client_thread node json_req (on_get_request_msg J)

  unfoldable pub send_extrinsic_submit_only : Node → Text → Reception
  unfolding start_rpc_client_thread on_extrinsic_msg_submit_only
  send_extrinsic_submit_only node json_req =
      start_rpc_client_thread node json_req (on_extrinsic_msg_submit_only J)

  unfoldable pub send_extrinsic_until_ready : Node → Text → Reception
  unfolding start_rpc_client_thread on_extrinsic_msg_until_ready
  send_extrinsic_until_ready node json_req =
      start_rpc_client_thread node json_req (on_extrinsic_msg_until_ready J)

  unfoldable pub send_extrinsic_and_wait_until_broadcast : Node → Text → Reception
  unfolding start_rpc_client_thread on_extrinsic_msg_until_broadcast
  send_extrinsic_and_wait_until_broadcast node json_req =
      start_rpc_client_thread node json_req (on_extrinsic_msg_until_broadcast J)

  unfoldable pub send_extrinsic_and_wait_until_in_block : Node → Text → Reception
  unfolding start_rpc_client_thread on_extrinsic_msg_until_in_block
  send_extrinsic_and_wait_until_in_block node json_req =
      start_rpc_client_thread node json_req (on_extrinsic_msg_until_in_block J)

  unfoldable pub send_extrinsic_and_wait_until_finalized : Node → Text → Reception
  unfolding start_rpc_client_thread on_extrinsic_msg_until_finalized
  send_extrinsic_and_wait_until_finalized node json_req =
      start_rpc_client_thread node json_req (on_extrinsic_msg_until_finalized J)

  unfoldable pub get_request : Node → Value → Answer (ApiError SerdeError) Text
  unfolding get
  get_request node jsonreq = after_recv ok (get node (to_text jsonreq))

module _ (J : Json) {Hash : Type 0} (S : Serialize J Hash) (h : Hex) where
  open J use {SerdeError, to_text}

  unfoldable pub jsonreq_of : XtStatus → Text → Text
  unfolding author_submit_extrinsic author_submit_and_watch_extrinsic
  jsonreq_of submit_only xthex_prefixed = to_text (author_submit_extrinsic J S xthex_prefixed)
  jsonreq_of _ xthex_prefixed = to_text (author_submit_and_watch_extrinsic J S xthex_prefixed)

  -- `Ok(Some(Hash::from_hex(res)?))`
  abbrev pub some_hash : Text → Result (ApiError SerdeError) (Option Bytes)
  some_hash res = do hash ← map_err invalid_hex_string (hash_from_hex h res); ok (some hash)

  abbrev pub no_hash : Text → Result (ApiError SerdeError) (Option Bytes)
  no_hash res = ok none

  unfoldable pub send_extrinsic :
      Node → Text → XtStatus → Answer (ApiError SerdeError) (Option Bytes)
  unfolding jsonreq_of send_extrinsic_submit_only send_extrinsic_until_ready
      send_extrinsic_and_wait_until_broadcast send_extrinsic_and_wait_until_in_block
      send_extrinsic_and_wait_until_finalized
  send_extrinsic node xthex_prefixed exit_on =
      let jsonreq = jsonreq_of exit_on xthex_prefixed in
      elim exit_on [
        | finalized ↦
            after_recv J some_hash (send_extrinsic_and_wait_until_finalized J node jsonreq)
        | in_block ↦ after_recv J some_hash (send_extrinsic_and_wait_until_in_block J node jsonreq)
        | broadcast ↦ after_recv J no_hash (send_extrinsic_and_wait_until_broadcast J node jsonreq)
        | ready ↦ after_recv J no_hash (send_extrinsic_until_ready J node jsonreq)
        | submit_only ↦ after_recv J no_hash (send_extrinsic_submit_only J node jsonreq)
        | future ↦ answer (err (unsupported_xt_status future))
        | error ↦ answer (err (unsupported_xt_status error))
        | unknown ↦ answer (err (unsupported_xt_status unknown))
      ]
