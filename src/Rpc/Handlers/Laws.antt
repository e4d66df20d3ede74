-- ===== src/Rpc/Handlers/Laws.antt =====
-- What the handlers of an extrinsic's messages do to the connection.
use fusotao_rust_client.Prelude.{
  true, Option, none, some, [], ◌∷◌, ◌++◌, ◌≡◌, refl, sym, subst, ◌⊎◌, inl, inr, Bool-cases,
}
use fusotao_rust_client.Prelude.Outcome.{Outcome, ok, err, panicked, out_of_fuel}
use fusotao_rust_client.Prelude.Text.{Text}
use fusotao_rust_client.External.Json.{Json}
use fusotao_rust_client.Rpc.Types.{
  XtStatus, finalized, in_block, broadcast, ready, future, submit_only, error, unknown,
  RpcClientError,
}
use fusotao_rust_client.Rpc.Status.{parse_status, result_from_json_response}
use fusotao_rust_client.Rpc.Handlers.{
  Connection, done, failed, panics, Reaction, end_process, end_with_error, on_status,
  until_finalized, until_in_block, until_broadcast, until_ready, on_extrinsic_msg_until_finalized,
  on_extrinsic_msg_until_in_block, on_extrinsic_msg_until_broadcast, on_extrinsic_msg_until_ready,
  on_extrinsic_msg_submit_only, or_empty, then_fail, on_result,
}

-- The connection is as it was, or it is closed and a caller that is still there was sent one text.
abbrev pub IsLeftOrEnded : Connection → Connection → Type 0
IsLeftOrEnded c after =
    (after ≡ c)
    ⊎ ((after.closed ≡ true)
        × ((value : Text) × ((c.receiving ≡ true) → after.sent ≡ c.sent ++ (value ∷ []))))

module _ (J : Json) where
  open J use {SerdeError}

  end_process_ends :
      (value : Option Text) (c : Connection) → IsLeftOrEnded c ((end_process J value c).0)
  unfolding end_process
  end_process_ends value c = elim (Bool-cases c.receiving) [
    | inl there ↦ rw (there) (inr (refl, (or_empty value, λ _. refl)))
    | inr absent ↦ rw (absent) (inr (refl, (or_empty value, λ there. cc)))
  ]

  then_fail_keeps : (e : RpcClientError SerdeError) (r : Reaction J) → (then_fail J e r).0 ≡ r.0
  then_fail_keeps e (after, done) = refl
  then_fail_keeps e (after, failed x) = refl
  then_fail_keeps e (after, panics) = refl

  end_with_error_ends :
      (e : RpcClientError SerdeError) (c : Connection) → IsLeftOrEnded c ((end_with_error J e c).0)
  unfolding end_with_error
  end_with_error_ends e c =
      subst (IsLeftOrEnded c) (sym (then_fail_keeps e (end_process J none c)))
        (end_process_ends none c)

  abbrev EndsOrLeaves : (XtStatus → Option Text → Connection → Reaction J) → Type 0
  EndsOrLeaves handle =
      (s : XtStatus) (val : Option Text) (c : Connection) → IsLeftOrEnded c ((handle s val c).0)

  on_status_ends :
      (handle : XtStatus → Option Text → Connection → Reaction J)
      → EndsOrLeaves handle
      → (r : Outcome (RpcClientError SerdeError) (XtStatus × Option Text)) (c : Connection)
      → IsLeftOrEnded c ((on_status J handle r c).0)
  on_status_ends handle h (ok (s, val)) c = h s val c
  on_status_ends handle h (err e) c = end_with_error_ends e c
  on_status_ends handle h panicked c = inl refl
  on_status_ends handle h out_of_fuel c = inl refl

  until_finalized_ends : EndsOrLeaves (until_finalized J)
  unfolding until_finalized
  until_finalized_ends finalized val c = end_process_ends val c
  until_finalized_ends in_block val c = inl refl
  until_finalized_ends broadcast val c = inl refl
  until_finalized_ends ready val c = inl refl
  until_finalized_ends future val c = end_process_ends none c
  until_finalized_ends submit_only val c = inl refl
  until_finalized_ends error val c = inl refl
  until_finalized_ends unknown val c = inl refl

  until_in_block_ends : EndsOrLeaves (until_in_block J)
  unfolding until_in_block
  until_in_block_ends finalized val c = end_process_ends val c
  until_in_block_ends in_block val c = end_process_ends val c
  until_in_block_ends broadcast val c = inl refl
  until_in_block_ends ready val c = inl refl
  until_in_block_ends future val c = end_process_ends none c
  until_in_block_ends submit_only val c = inl refl
  until_in_block_ends error val c = inl refl
  until_in_block_ends unknown val c = inl refl

  until_broadcast_ends : EndsOrLeaves (until_broadcast J)
  unfolding until_broadcast
  until_broadcast_ends finalized val c = end_process_ends val c
  until_broadcast_ends in_block val c = inl refl
  until_broadcast_ends broadcast val c = end_process_ends none c
  until_broadcast_ends ready val c = inl refl
  until_broadcast_ends future val c = end_process_ends none c
  until_broadcast_ends submit_only val c = inl refl
  until_broadcast_ends error val c = inl refl
  until_broadcast_ends unknown val c = inl refl

  until_ready_ends : EndsOrLeaves (until_ready J)
  unfolding until_ready
  until_ready_ends finalized val c = end_process_ends val c
  until_ready_ends in_block val c = inl refl
  until_ready_ends broadcast val c = inl refl
  until_ready_ends ready val c = end_process_ends none c
  until_ready_ends future val c = end_process_ends none c
  until_ready_ends submit_only val c = inl refl
  until_ready_ends error val c = inl refl
  until_ready_ends unknown val c = inl refl

  on_result_ends :
      (r : Outcome (RpcClientError SerdeError) Text) (c : Connection)
      → IsLeftOrEnded c ((on_result J r c).0)
  on_result_ends (ok val) c = end_process_ends (some val) c
  on_result_ends (err e) c = end_with_error_ends e c
  on_result_ends panicked c = inl refl
  on_result_ends out_of_fuel c = inl refl

  -- Each of the five functions that handle the messages about an extrinsic either leaves the
  -- connection as it was, or closes it and, if the caller is still there, sends the caller exactly
  -- one text.
  pub on_extrinsic_msg_ends_once :
      (msg : Option Text) (c : Connection)
      → IsLeftOrEnded c ((on_extrinsic_msg_until_finalized J msg c).0)
        × IsLeftOrEnded c ((on_extrinsic_msg_until_in_block J msg c).0)
        × IsLeftOrEnded c ((on_extrinsic_msg_until_broadcast J msg c).0)
        × IsLeftOrEnded c ((on_extrinsic_msg_until_ready J msg c).0)
        × IsLeftOrEnded c ((on_extrinsic_msg_submit_only J msg c).0)
  unfolding on_extrinsic_msg_until_finalized on_extrinsic_msg_until_in_block
      on_extrinsic_msg_until_broadcast on_extrinsic_msg_until_ready on_extrinsic_msg_submit_only
  on_extrinsic_msg_ends_once none c = (inl refl, inl refl, inl refl, inl refl, inl refl)
  on_extrinsic_msg_ends_once (some t) c =
      let r = parse_status J t in
      (
        on_status_ends (until_finalized J) until_finalized_ends r c,
        on_status_ends (until_in_block J) until_in_block_ends r c,
        on_status_ends (until_broadcast J) until_broadcast_ends r c,
        on_status_ends (until_ready J) until_ready_ends r c,
        on_result_ends (result_from_json_response J t) c,
      )
