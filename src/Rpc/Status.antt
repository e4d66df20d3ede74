-- ===== src/Rpc/Status.antt =====
-- `parse_status`, `into_extrinsic_err` and `result_from_json_response` of
-- src/std/rpc/ws_client/mod.rs. A field of an unexpected type makes an `unwrap` panic.
use fusotao_rust_client.Prelude.{Option, none, some, [], ◌++◌, if◌then◌else◌}
use fusotao_rust_client.Prelude.Outcome.{Outcome, ok, err, ◌>>=◌, lift, unwrap_some}
use fusotao_rust_client.Prelude.Text.{Text, codes, text_eq}
use fusotao_rust_client.External.Json.{Json}
use fusotao_rust_client.Rpc.Types.{
  XtStatus, finalized, in_block, broadcast, ready, future, unknown, RpcClientError, serde,
  extrinsic,
}

module _ (J : Json) where
  open J use {Value, Object, SerdeError, field, as_str, as_object, as_i64, get, to_text, from_text}

  abbrev pub RpcError : Type 0
  RpcError = RpcClientError SerdeError

  -- `err_obj.get(name).map_or_else(|| default, |v| read(v).unwrap())`
  unfoldable pub read_or : Text → (Value → Option Text) → Option Value → Outcome RpcError Text
  read_or default read none = ok default
  read_or default read (some v) = unwrap_some (read v)

  unfoldable pub into_extrinsic_err : Value → Outcome RpcError RpcError
  unfolding read_or
  into_extrinsic_err resp_with_err = do
    err_obj ← unwrap_some (as_object (field resp_with_err "error"))
    message ← read_or [] as_str (get err_obj "message")
    code ← read_or (codes "-1") as_i64 (get err_obj "code")
    details ← read_or [] as_str (get err_obj "data")
    ok (
        extrinsic (
          codes "extrinsic error code "
          ++ (code ++ (codes ": " ++ (message ++ (codes ": " ++ details))))))

  unfoldable pub status_of_object : Object → XtStatus × Option Text
  status_of_object obj = elim (get obj "finalized") [
    | some hash ↦ (finalized, some (to_text hash))
    | none ↦ elim (get obj "inBlock") [
      | some hash ↦ (in_block, some (to_text hash))
      | none ↦ elim (get obj "broadcast") [
        | some array ↦ (broadcast, some (to_text array))
        | none ↦ (unknown, none)
      ]
    ]
  ]

  unfoldable pub status_of_text : Option Text → XtStatus × Option Text
  status_of_text none = (unknown, none)
  status_of_text (some s) =
      if text_eq s (codes "ready")
      then (ready, none)
      else if text_eq s (codes "future")
      then (future, none)
      else (unknown, none)

  -- The status in a response that reports no error.
  unfoldable pub status_of_result : Value → XtStatus × Option Text
  unfolding status_of_object status_of_text
  status_of_result result = elim (as_object result) [
    | some obj ↦ status_of_object obj
    | none ↦ status_of_text (as_str result)
  ]

  unfoldable pub status_of_value : Value → Outcome RpcError (XtStatus × Option Text)
  unfolding status_of_result
  status_of_value value = elim (as_object (field value "error")) [
    | some _ ↦ do e ← into_extrinsic_err value; err e
    | none ↦ ok (status_of_result (field (field value "params") "result"))
  ]

  unfoldable pub parse_status : Text → Outcome RpcError (XtStatus × Option Text)
  unfolding status_of_value
  parse_status msg = do value ← lift serde (from_text msg); status_of_value value

  unfoldable pub result_of_value : Value → Outcome RpcError Text
  result_of_value value = elim (as_str (field value "result")) [
    | some resp ↦ ok resp
    | none ↦ do e ← into_extrinsic_err value; err e
  ]

  unfoldable pub result_from_json_response : Text → Outcome RpcError Text
  unfolding result_of_value
  result_from_json_response resp = do value ← lift serde (from_text resp); result_of_value value
