-- ===== src/Rpc/Threads/Uniform.antt =====
-- A handler sees of its connection whether it can be closed and whether the caller still receives,
-- and changes it by `push` and `close` only: it takes related connections to related ones, for any
-- relation that these respect.
use fusotao_rust_client.Prelude.{
  Bool, true, false, if◌then◌else◌, Option-cases, Option, none, some, inl, inr, ◌≡◌, refl,
}
use fusotao_rust_client.Prelude.Result.{Result-cases}
use fusotao_rust_client.Prelude.Outcome.{Outcome, ok, err, panicked, out_of_fuel}
use fusotao_rust_client.Prelude.Text.{Text, codes, text_eq}
use fusotao_rust_client.External.Json.{Json}
use fusotao_rust_client.Rpc.Types.{
  XtStatus, finalized, in_block, broadcast, ready, future, RpcClientError,
}
use fusotao_rust_client.Rpc.Status.{parse_status, result_from_json_response}
use fusotao_rust_client.Rpc.Handlers.{
  Message, Connection, done, failed, panics, Reaction, OnMessageFn, close, push, or_empty,
  send_value, end_process, then_fail, end_with_error, on_status, until_finalized, until_in_block,
  until_broadcast, until_ready, on_extrinsic_msg_until_finalized, on_extrinsic_msg_until_in_block,
  on_extrinsic_msg_until_broadcast, on_extrinsic_msg_until_ready, on_result,
  on_extrinsic_msg_submit_only, on_get_request_msg, send_or_close, on_notification,
  on_subscription_value, on_subscription_msg,
}
use fusotao_rust_client.Rpc.Threads.{
  IsClientFn, get_fn, subscriber_fn, submit_fn, finalized_fn, in_block_fn, broadcast_fn, ready_fn,
}

-- A relation between connections that the handlers cannot tell apart.
pub record IsRespected (Rel : Connection → Connection → Type 0) : Type 0 where
  pub same_receiving : (c d : Connection) → Rel c d → c.receiving ≡ d.receiving
  pub same_can_close : (c d : Connection) → Rel c d → c.can_close ≡ d.can_close
  pub pushed : (value : Text) (c d : Connection) → Rel c d → Rel (push value c) (push value d)
  pub closed : (c d : Connection) → Rel c d → Rel (close c) (close d)

module _ (J : Json) (Rel : Connection → Connection → Type 0) where
  open J use {SerdeError, Value, field, place, as_str, to_text, from_text}

  abbrev pub Agree : Reaction J → Reaction J → Type 0
  Agree (a, r) (b, q) = Rel a b × (r ≡ q)

  abbrev pub Respects : (Connection → Reaction J) → Type 0
  Respects f = (c d : Connection) → Rel c d → Agree (f c) (f d)

module _ (J : Json) (Rel : Connection → Connection → Type 0) (law : IsRespected Rel) where
  open J use {SerdeError, Value, field, place, as_str, to_text, from_text}

  if-Agree :
      (b b' : Bool) {x y x' y' : Reaction J}
      → b ≡ b'
      → Agree J Rel x x'
      → Agree J Rel y y'
      → Agree J Rel (if b then x else y) (if b' then x' else y')
  if-Agree true true e x y = x
  if-Agree true false e x y = cc
  if-Agree false true e x y = cc
  if-Agree false false e x y = y

  send_value-Respects : (value : Text) → Respects J Rel (send_value J value)
  unfolding send_value
  send_value-Respects value c d h =
      if-Agree c.receiving d.receiving (law.same_receiving c d h) (law.pushed value c d h, refl)
        (h, refl)

  end_process-Respects : (value : Option Text) → Respects J Rel (end_process J value)
  unfolding end_process
  end_process-Respects value c d h =
      send_value-Respects (or_empty value) (close c) (close d) (law.closed c d h)

  then_fail-Agree :
      (e : RpcClientError SerdeError) (x y : Reaction J)
      → Agree J Rel x y
      → Agree J Rel (then_fail J e x) (then_fail J e y)
  then_fail-Agree e (a, done) (b, done) (h, same) = (h, refl)
  then_fail-Agree e (a, done) (b, failed y) (h, same) = cc
  then_fail-Agree e (a, done) (b, panics) (h, same) = cc
  then_fail-Agree e (a, failed x) (b, done) (h, same) = cc
  then_fail-Agree e (a, failed x) (b, failed y) (h, same) = (h, same)
  then_fail-Agree e (a, failed x) (b, panics) (h, same) = cc
  then_fail-Agree e (a, panics) (b, done) (h, same) = cc
  then_fail-Agree e (a, panics) (b, failed y) (h, same) = cc
  then_fail-Agree e (a, panics) (b, panics) (h, same) = (h, refl)

  end_with_error-Respects : (e : RpcClientError SerdeError) → Respects J Rel (end_with_error J e)
  unfolding end_with_error
  end_with_error-Respects e c d h = then_fail-Agree e _ _ (end_process-Respects none c d h)

  on_status-Respects :
      (handle : XtStatus → Option Text → Connection → Reaction J)
      → ((s : XtStatus) (val : Option Text) → Respects J Rel (handle s val))
      → (r : Outcome (RpcClientError SerdeError) (XtStatus × Option Text))
      → Respects J Rel (on_status J handle r)
  on_status-Respects handle respects (ok (s, val)) = respects s val
  on_status-Respects handle respects (err e) = end_with_error-Respects e
  on_status-Respects handle respects panicked = λ c d h. (h, refl)
  on_status-Respects handle respects out_of_fuel = λ c d h. (h, refl)

  until_finalized-Respects :
      (s : XtStatus) (val : Option Text) → Respects J Rel (until_finalized J s val)
  unfolding until_finalized
  until_finalized-Respects finalized val = end_process-Respects val
  until_finalized-Respects future val = end_process-Respects none
  until_finalized-Respects _ val = λ c d h. (h, refl)

  until_in_block-Respects :
      (s : XtStatus) (val : Option Text) → Respects J Rel (until_in_block J s val)
  unfolding until_in_block
  until_in_block-Respects finalized val = end_process-Respects val
  until_in_block-Respects in_block val = end_process-Respects val
  until_in_block-Respects future val = end_process-Respects none
  until_in_block-Respects _ val = λ c d h. (h, refl)

  until_broadcast-Respects :
      (s : XtStatus) (val : Option Text) → Respects J Rel (until_broadcast J s val)
  unfolding until_broadcast
  until_broadcast-Respects finalized val = end_process-Respects val
  until_broadcast-Respects broadcast val = end_process-Respects none
  until_broadcast-Respects future val = end_process-Respects none
  until_broadcast-Respects _ val = λ c d h. (h, refl)

  until_ready-Respects : (s : XtStatus) (val : Option Text) → Respects J Rel (until_ready J s val)
  unfolding until_ready
  until_ready-Respects finalized val = end_process-Respects val
  until_ready-Respects ready val = end_process-Respects none
  until_ready-Respects future val = end_process-Respects none
  until_ready-Respects _ val = λ c d h. (h, refl)

  on_result-Respects :
      (r : Outcome (RpcClientError SerdeError) Text) → Respects J Rel (on_result J r)
  on_result-Respects (ok val) = end_process-Respects (some val)
  on_result-Respects (err e) = end_with_error-Respects e
  on_result-Respects panicked = λ c d h. (h, refl)
  on_result-Respects out_of_fuel = λ c d h. (h, refl)

  send_or_close-Respects : (value : Text) → Respects J Rel (send_or_close J value)
  unfolding send_or_close
  send_or_close-Respects value c d h =
      if-Agree c.receiving d.receiving (law.same_receiving c d h) (law.pushed value c d h, refl)
        (if-Agree c.can_close d.can_close (law.same_can_close c d h) (law.closed c d h, refl)
          (law.closed c d h, refl))

  change_set-Respects :
      (change : Option Text)
      → Respects J Rel
          (λ c. elim change [ some change_set ↦ send_or_close J change_set c | none ↦ (c, done) ])
  change_set-Respects none c d h = (h, refl)
  change_set-Respects (some change_set) c d h = send_or_close-Respects change_set c d h

  on_notification-Respects :
      (value : Value) (method : Option Text) → Respects J Rel (on_notification J value method)
  unfolding on_notification
  on_notification-Respects value none c d h = (h, refl)
  on_notification-Respects value (some method) c d h =
      let result = field (field value "params") "result" in
      let storage = text_eq method (codes "state_storage") in
      let head = text_eq method (codes "chain_finalizedHead") in
      if-Agree storage storage refl
        (change_set-Respects (as_str (place (place (field result "changes") 0) 1)) c d h)
        (if-Agree head head refl (send_or_close-Respects (to_text result) c d h) (h, refl))

  on_subscription_value-Respects : (value : Value) → Respects J Rel (on_subscription_value J value)
  unfolding on_subscription_value
  on_subscription_value-Respects value c d h = elim (Option-cases (as_str (field value "id"))) [
    | inl no_id ↦
        rw (no_id, on_subscription_value)
          (on_notification-Respects value (as_str (field value "method")) c d h)
    | inr (id, has) ↦ rw (has, on_subscription_value) (h, refl)
  ]

  -- The functions that the client passes to a thread.
  pub on_message_fn-Respects :
      {f : OnMessageFn J} → IsClientFn J f → (msg : Message) → Respects J Rel (f msg)
  unfolding on_get_request_msg on_subscription_msg on_extrinsic_msg_submit_only
      on_extrinsic_msg_until_finalized on_extrinsic_msg_until_in_block
      on_extrinsic_msg_until_broadcast on_extrinsic_msg_until_ready
  on_message_fn-Respects get_fn none c d h = (law.closed c d h, refl)
  on_message_fn-Respects get_fn (some text) c d h = elim (Result-cases (from_text text)) [
    | inl (v, parsed) ↦
        rw (parsed, on_get_request_msg)
          (send_value-Respects (to_text (field v "result")) (close c) (close d) (law.closed c d h))
    | inr (e, parsed) ↦ rw (parsed, on_get_request_msg) (law.closed c d h, refl)
  ]
  on_message_fn-Respects subscriber_fn none c d h = (h, refl)
  on_message_fn-Respects subscriber_fn (some text) c d h = elim (Result-cases (from_text text)) [
    | inl (v, parsed) ↦ rw (parsed, on_subscription_msg) (on_subscription_value-Respects v c d h)
    | inr (e, parsed) ↦ rw (parsed, on_subscription_msg) (h, refl)
  ]
  on_message_fn-Respects submit_fn none c d h = (h, refl)
  on_message_fn-Respects submit_fn (some retstr) c d h =
      on_result-Respects (result_from_json_response J retstr) c d h
  on_message_fn-Respects finalized_fn none c d h = (h, refl)
  on_message_fn-Respects finalized_fn (some retstr) c d h =
      on_status-Respects (until_finalized J) until_finalized-Respects (parse_status J retstr) c d h
  on_message_fn-Respects in_block_fn none c d h = (h, refl)
  on_message_fn-Respects in_block_fn (some retstr) c d h =
      on_status-Respects (until_in_block J) until_in_block-Respects (parse_status J retstr) c d h
  on_message_fn-Respects broadcast_fn none c d h = (h, refl)
  on_message_fn-Respects broadcast_fn (some retstr) c d h =
      on_status-Respects (until_broadcast J) until_broadcast-Respects (parse_status J retstr) c d h
  on_message_fn-Respects ready_fn none c d h = (h, refl)
  on_message_fn-Respects ready_fn (some retstr) c d h =
      on_status-Respects (until_ready J) until_ready-Respects (parse_status J retstr) c d h
