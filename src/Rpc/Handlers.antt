-- ===== src/Rpc/Handlers.antt =====
-- The functions of src/std/rpc/ws_client/mod.rs that handle a message of the node, in the thread
-- of the WebSocket connection.
pub mod Laws
use fusotao_rust_client.Prelude.{
  ℕ, String, Bool, true, false, Option, none, some, List, [], ◌∷◌, ◌++◌, if◌then◌else◌,
}
use fusotao_rust_client.Prelude.Result.{Result}
use fusotao_rust_client.Prelude.Outcome.{Outcome, ok, err, panicked, out_of_fuel}
use fusotao_rust_client.Prelude.Text.{Text, codes, text_eq}
use fusotao_rust_client.External.Json.{Json}
use fusotao_rust_client.Rpc.Types.{
  XtStatus, finalized, in_block, broadcast, ready, future, submit_only, error, unknown,
  RpcClientError, serde, send,
}
use fusotao_rust_client.Rpc.Status.{parse_status, result_from_json_response}

-- A message of `ws`: its text, or nothing if `as_text` fails.
abbrev pub Message : Type 0
Message = Option Text

-- The connection and the channel to the caller. `can_close` is whether closing works, `receiving`
-- whether the caller still holds the receiver.
pub record Connection : Type 0 where
  pub can_close : Bool
  pub receiving : Bool
  -- `out.close` was called
  pub closed : Bool
  -- the texts the caller can receive, in order
  pub sent : List Text

pub data WsError (SerdeError : Type 0) : Type 0 where
  -- errors of `ws` itself: from `as_text` and from `close`
  not_text not_closed : WsError SerdeError
  rpc_client : RpcClientError SerdeError → WsError SerdeError

-- `WsResult<()>`, or a panic.
pub data WsResult (SerdeError : Type 0) : Type 0 where
  done : WsResult SerdeError
  failed : WsError SerdeError → WsResult SerdeError
  panics : WsResult SerdeError

-- Whether the thread is over once a handler has returned, `closed` being whether the connection was
-- closed: the crate `ws` ends a connection for errors of its own; any other error, which it has as
-- one of kind `Custom`, it only hands to `on_error`, and the connection stays open unless the
-- handler has closed it.
abbrev pub is_over : {SerdeError : Type 0} → Bool → WsResult SerdeError → Bool
is_over closed done = false
is_over closed (failed not_text) = true
is_over closed (failed not_closed) = true
is_over closed (failed (rpc_client e)) = closed
is_over closed panics = true

-- `out.close(CloseCode::Normal)`
abbrev pub close : Connection → Connection
close c = record c { closed = true }

-- `result.send(value)` when the receiver is there
abbrev pub push : Text → Connection → Connection
push value c = record c { sent = c.sent ++ (value ∷ []) }

-- `value.unwrap_or_else(|| "".to_string())`
abbrev pub or_empty : Option Text → Text
or_empty none = []
or_empty (some value) = value

module _ (J : Json) where
  open J use {Value, SerdeError, field, place, as_str, to_text, from_text}

  abbrev pub Reaction : Type 0
  Reaction = Connection × WsResult SerdeError

  abbrev pub OnMessageFn : Type 0
  OnMessageFn = Message → Connection → Reaction

  -- `result.send(value).map_err(|e| Box::new(RpcClientError::Send(e)).into())`
  unfoldable pub send_value : Text → Connection → Reaction
  send_value value c =
      if c.receiving then (push value c, done) else (c, failed (rpc_client (send value)))

  unfoldable pub end_process : Option Text → Connection → Reaction
  unfolding send_value
  end_process value c = send_value (or_empty value) (close c)

  -- `reaction?; Err(Box::new(e).into())`
  abbrev pub then_fail : RpcClientError SerdeError → Reaction → Reaction
  then_fail e (after, done) = (after, failed (rpc_client e))
  then_fail e (after, failed x) = (after, failed x)
  then_fail e (after, panics) = (after, panics)

  unfoldable pub end_with_error : RpcClientError SerdeError → Connection → Reaction
  unfolding end_process
  end_with_error e c = then_fail e (end_process none c)

  -- The `match` of a handler on the status, given what it does with a status.
  abbrev pub on_status :
      (XtStatus → Option Text → Connection → Reaction)
      → Outcome (RpcClientError SerdeError) (XtStatus × Option Text)
      → Connection
      → Reaction
  on_status handle (ok (status, val)) c = handle status val c
  on_status handle (err e) c = end_with_error e c
  on_status handle panicked c = (c, panics)
  on_status handle out_of_fuel c = (c, panics)

  unfoldable pub until_finalized : XtStatus → Option Text → Connection → Reaction
  unfolding end_process
  until_finalized finalized val c = end_process val c
  until_finalized future val c = end_process none c
  until_finalized _ val c = (c, done)

  unfoldable pub until_in_block : XtStatus → Option Text → Connection → Reaction
  unfolding end_process
  until_in_block finalized val c = end_process val c
  until_in_block in_block val c = end_process val c
  until_in_block future val c = end_process none c
  until_in_block _ val c = (c, done)

  unfoldable pub until_broadcast : XtStatus → Option Text → Connection → Reaction
  unfolding end_process
  until_broadcast finalized val c = end_process val c
  until_broadcast broadcast val c = end_process none c
  until_broadcast future val c = end_process none c
  until_broadcast _ val c = (c, done)

  unfoldable pub until_ready : XtStatus → Option Text → Connection → Reaction
  unfolding end_process
  until_ready finalized val c = end_process val c
  until_ready ready val c = end_process none c
  until_ready future val c = end_process none c
  until_ready _ val c = (c, done)

  unfoldable pub on_extrinsic_msg_until_finalized : OnMessageFn
  unfolding until_finalized end_with_error
  on_extrinsic_msg_until_finalized none c = (c, panics)
  on_extrinsic_msg_until_finalized (some retstr) c =
      on_status until_finalized (parse_status J retstr) c

  unfoldable pub on_extrinsic_msg_until_in_block : OnMessageFn
  unfolding until_in_block end_with_error
  on_extrinsic_msg_until_in_block none c = (c, panics)
  on_extrinsic_msg_until_in_block (some retstr) c =
      on_status until_in_block (parse_status J retstr) c

  unfoldable pub on_extrinsic_msg_until_broadcast : OnMessageFn
  unfolding until_broadcast end_with_error
  on_extrinsic_msg_until_broadcast none c = (c, panics)
  on_extrinsic_msg_until_broadcast (some retstr) c =
      on_status until_broadcast (parse_status J retstr) c

  unfoldable pub on_extrinsic_msg_until_ready : OnMessageFn
  unfolding until_ready end_with_error
  on_extrinsic_msg_until_ready none c = (c, panics)
  on_extrinsic_msg_until_ready (some retstr) c = on_status until_ready (parse_status J retstr) c

  abbrev pub on_result : Outcome (RpcClientError SerdeError) Text → Connection → Reaction
  on_result (ok val) c = end_process (some val) c
  on_result (err e) c = end_with_error e c
  on_result panicked c = (c, panics)
  on_result out_of_fuel c = (c, panics)

  unfoldable pub on_extrinsic_msg_submit_only : OnMessageFn
  unfolding end_process end_with_error
  on_extrinsic_msg_submit_only none c = (c, panics)
  on_extrinsic_msg_submit_only (some retstr) c = on_result (result_from_json_response J retstr) c

  unfoldable pub on_get_request_msg : OnMessageFn
  unfolding send_value
  on_get_request_msg none c = (close c, failed not_text)
  on_get_request_msg (some text) c = elim (from_text text) [
    | Result.ok v ↦ send_value (to_text (field v "result")) (close c)
    | Result.err e ↦ (close c, failed (rpc_client (serde e)))
  ]

  -- `if let Err(e) = result.send(value) { out.close(CloseCode::Normal)?; }`
  unfoldable pub send_or_close : Text → Connection → Reaction
  send_or_close value c =
      if c.receiving
      then (push value c, done)
      else if c.can_close
      then (close c, done)
      else (close c, failed not_closed)

  -- The `match` on the method of a notification.
  unfoldable pub on_notification : Value → Option Text → Connection → Reaction
  unfolding send_or_close
  on_notification value none c = (c, done)
  on_notification value (some method) c =
      let result = field (field value "params") "result" in
      if text_eq method (codes "state_storage")
      then elim (as_str (place (place (field result "changes") 0) 1)) [
        | some change_set ↦ send_or_close change_set c
        | none ↦ (c, done)
      ]
      else if text_eq method (codes "chain_finalizedHead")
      then send_or_close (to_text result) c
      else (c, done)

  -- A message with an `id` answers a request, and is skipped.
  unfoldable pub on_subscription_value : Value → Connection → Reaction
  unfolding on_notification
  on_subscription_value value c = elim (as_str (field value "id")) [
    | some _ ↦ (c, done)
    | none ↦ on_notification value (as_str (field value "method")) c
  ]

  unfoldable pub on_subscription_msg : OnMessageFn
  unfolding on_subscription_value
  on_subscription_msg none c = (c, failed not_text)
  on_subscription_msg (some text) c = elim (from_text text) [
    | Result.ok value ↦ on_subscription_value value c
    | Result.err e ↦ (c, failed (rpc_client (serde e)))
  ]
