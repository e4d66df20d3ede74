-- ===== src/Tests/Sockets.antt =====
-- The Api over WebSocket clients, one of the node of the accounts and one of a node that answers
-- each request with `null`.
use fusotao_rust_client.Prelude.{String, ◌≡◌, refl, ap, none, some, [], ◌∷◌, string_eq}
use fusotao_rust_client.Prelude.Result.{ok, err}
use fusotao_rust_client.Prelude.Text.{codes}
use fusotao_rust_client.Rpc.ApiError.{ApiError, disconnected}
use fusotao_rust_client.Rpc.Client.{Node, Answer, answer, waits}
use fusotao_rust_client.Rpc.Client as Ws
use fusotao_rust_client.Rpc.Requests.{state_get_storage}
use fusotao_rust_client.Api.{ApiResult, RpcClient}
use fusotao_rust_client.Api.Account.{get_nonce}
use fusotao_rust_client.Api.Storage.Chain.{Serves, answer_text}
use fusotao_rust_client.Api.Ws.{IsWsClient, IsWsClient-Serves, get_nonce_null}
use fusotao_rust_client.Tests.Nodes.{crates, json, account_map, api, chain, written}
use fusotao_rust_client.Tests.Apis.{finds, is_map}

abbrev result_of : {A : Type 0} → Answer (ApiError String) A → ApiResult crates A
result_of (answer r) = r
result_of waits = err disconnected

abbrev ws_client : Node → RpcClient crates
ws_client node = record {
  get_request = λ jsonreq. result_of (Ws.get_request json node jsonreq);
  send_extrinsic = λ xt exit_on.
      result_of (Ws.send_extrinsic crates.json crates.serialize crates.hex node xt exit_on);
}

ws_client-IsWsClient : (node : Node) → IsWsClient crates (ws_client node) node
ws_client-IsWsClient node = record {
  gets = λ jsonreq r e. ap result_of e;
  sends = λ xt exit_on r e. ap result_of e;
}

-- A message is the text of its field `result`.
abbrev account_node : Node
account_node key = some (some (answer_text crates (chain none key)) ∷ [])

IsWsClient-Serves_example : Serves crates (ws_client account_node) chain
unfolding state_get_storage
IsWsClient-Serves_example =
    IsWsClient-Serves crates (ws_client account_node) account_node chain
      (ws_client-IsWsClient account_node)
      (λ at_block key. (
        answer_text crates (chain at_block key),
        [],
        answer_text crates (chain at_block key),
        refl,
        refl,
        refl,
      ))
      written

abbrev null_node : Node
null_node _ = some (some (codes "null") ∷ [])

get_nonce_null_example :
    get_nonce crates (api (ws_client null_node) (some 7)) (λ account. account) ≡ ok 0
get_nonce_null_example =
    get_nonce_null crates (api (ws_client null_node) (some 7)) null_node
      (ws_client-IsWsClient null_node) (finds (ws_client null_node) (some 7)) account_map is_map
      (λ account. account) 7 refl (codes "null", [], codes "null", refl, refl, refl)
