-- ===== src/Api/Ws.antt =====
-- The Api over the WebSocket client: `impl RpcClientTrait for WsRpcClient` in
-- src/std/rpc/ws_client/client.rs as a client of the Api.
use mathlib.Core.Option
use fusotao_rust_client.Prelude.{◌≡◌, refl, ap, ◌∙◌, Option, none, some, List, ◌∷◌, ◌++◌}
use fusotao_rust_client.Prelude.Result.{ok, map_ok}
use fusotao_rust_client.Prelude.Text.{Text, Bytes, codes}
use fusotao_rust_client.External.Hex.{IsLawfulHex}
use fusotao_rust_client.External.Json.{Json}
use fusotao_rust_client.Storage.{StorageKey, StorageMap, get_map, map_key}
use fusotao_rust_client.Metadata.StorageKeys.{storage_map_key}
use fusotao_rust_client.Rpc.Types.{XtStatus}
use fusotao_rust_client.Rpc.Requests.{state_get_storage}
use fusotao_rust_client.Rpc.Handlers.{Message, on_get_request_msg, send_value}
use fusotao_rust_client.Rpc.Client.{Node, Answer, answer, connected, start_rpc_client_thread, recv}
use fusotao_rust_client.Rpc.Client as Ws
use fusotao_rust_client.Prelude.Outcome.{Outcome}
use fusotao_rust_client.Utils.{hash_from_hex}
use fusotao_rust_client.Rpc.Status.{parse_status}
use fusotao_rust_client.Rpc.Client.Answers.{send_extrinsic_included}
use fusotao_rust_client.Rpc.Client.Waiting.{TellsHash, ArePending}
use fusotao_rust_client.Api.{
  send_extrinsic, Crates, Value, ApiResult, RpcClient, Api, get_request, get_request_by,
}
use fusotao_rust_client.Api.Storage.{get_opaque_storage_by_key_hash, get_storage_by_key_hash}
use fusotao_rust_client.Api.Storage.Chain.{Chain, answer_text, Serves}
use fusotao_rust_client.Api.Storage.Refines.{Finds}
use fusotao_rust_client.Api.Account.{
  get_account_info, nonce_or_zero, nonce_of, signer_account, get_nonce,
}

module _ (C : Crates) where
  -- The client is the WebSocket client of the node: it returns what this comes to, wherever the
  -- caller is answered.
  pub record IsWsClient (client : RpcClient C) (node : Node) : Type 0 where
    pub gets :
        (jsonreq : Value C) (r : ApiResult C Text)
        → Ws.get_request C.json node jsonreq ≡ answer r
        → client.get_request jsonreq ≡ r
    pub sends :
        (xthex_prefixed : Text) (exit_on : XtStatus) (r : ApiResult C (Option Bytes))
        → Ws.send_extrinsic C.json C.serialize C.hex node xthex_prefixed exit_on ≡ answer r
        → client.send_extrinsic xthex_prefixed exit_on ≡ r

  -- The node's first message is JSON whose field `result` is printed as this text.
  abbrev pub Answers : Node → Value C → Text → Type 0
  Answers node jsonreq text =
      (message : Text) × (later : List Message) × (value : Value C) × (node
          (Json.to_text C.json jsonreq)
        ≡ some (some message ∷ later))
      × (Json.from_text C.json message ≡ ok value)
      × (Json.to_text C.json (Json.field C.json value "result") ≡ text)

  get_request-Answers :
      (node : Node) (jsonreq : Value C) (text : Text)
      → Answers node jsonreq text
      → Ws.get_request C.json node jsonreq ≡ answer (ok text)
  unfolding Ws.get_request start_rpc_client_thread recv on_get_request_msg send_value
  get_request-Answers node jsonreq text (message, later, value, answered, parsed, printed) =
      rw (answered, start_rpc_client_thread, parsed, on_get_request_msg, printed) refl

  -- A client that does as the WebSocket client does serves a chain to the Api, where the node's
  -- first message for each request for storage is JSON whose field `result` is printed as `null`
  -- where nothing is stored, and otherwise as the stored bytes in hex, which hex can write.
  pub IsWsClient-Serves :
      (client : RpcClient C) (node : Node) (chain : Chain)
      → IsWsClient client node
      → ((at_block : Option Bytes) (key : StorageKey)
          → Answers node
              (state_get_storage C.json C.serialize key at_block)
              (answer_text C (chain at_block key)))
      → ((at_block : Option Bytes) (key : StorageKey) (bytes : Bytes)
          → chain at_block key ≡ some bytes
          → IsLawfulHex C.hex bytes)
      → Serves C client chain
  IsWsClient-Serves client node chain is answers written = record {
    answers = λ at_block key. is.gets _ _ (get_request-Answers node _ _ (answers at_block key));
    written = written;
  }

  -- `Api::send_extrinsic` over the WebSocket client returns the hash of the block that the node
  -- reports, under the conditions of `send_extrinsic_included`.
  send_extrinsic_over_ws :
      {P : Type 0} (api : Api C P) (node : Node) (xthex_prefixed : Text) {exit_on s : XtStatus}
      (pending later : List Message) (t val : Text) (hash : Bytes)
      → IsWsClient api.client node
      → TellsHash exit_on s
      → node (Ws.jsonreq_of C.json C.serialize C.hex exit_on xthex_prefixed)
        ≡ some (pending ++ (some t ∷ later))
      → ArePending C.json exit_on pending
      → parse_status C.json t ≡ Outcome.ok (s, some val)
      → hash_from_hex C.hex val ≡ ok hash
      → send_extrinsic C api xthex_prefixed exit_on ≡ ok (some hash)
  unfolding send_extrinsic
  send_extrinsic_over_ws api node xt {exit_on} pending later t val hash is tells answers p parsed
        hex =
      is.sends xt exit_on (ok (some hash)) (
        send_extrinsic_included C.json C.serialize C.hex node xt pending later t val hash tells
          answers p parsed hex)

  module _ {P : Type 0} (api : Api C P) (node : Node) (is : IsWsClient api.client node)
      (finds : Finds C api "System" "Account") (s : StorageMap)
      (is_map : get_map finds.entry "System" ≡ ok s) where
    -- The node's answer for the storage of an account.
    abbrev pub AnswersAccount : Crates.AccountId C → Text → Type 0
    AnswersAccount account =
        Answers node
          (state_get_storage C.json C.serialize (map_key C.hashing C.account_id s account) none)

    get_account_info_null :
        (account : Crates.AccountId C)
        → AnswersAccount account (codes "null")
        → get_account_info C api account ≡ ok none
    unfolding get_account_info storage_map_key get_storage_by_key_hash
        get_opaque_storage_by_key_hash get_request get_request_by
    get_account_info_null account answers =
        rw (finds.found, finds.stored, is_map, is.gets _ _ (get_request-Answers node _ _ answers))
          refl

    -- If the Api's client is the WebSocket client, a signer is set, the metadata has the entry
    -- `Account` of the pallet `System` as a map, and the node's first message for the signer's
    -- account is JSON whose field `result` is printed as `null`, then `get_nonce` returns zero and
    -- no error: so it is where there is no such account, and just so where the message reports an
    -- error and has no result.
    pub get_nonce_null :
        (account_of : P → Crates.AccountId C) (signer : P)
        → api.signer ≡ some signer
        → AnswersAccount (account_of signer) (codes "null")
        → get_nonce C api account_of ≡ ok 0
    unfolding get_nonce signer_account
    get_nonce_null account_of signer set answers =
        ap (λ o. nonce_of C api (Option.map account_of o)) set
        ∙ ap (map_ok (nonce_or_zero C api)) (get_account_info_null (account_of signer) answers)
