-- ===== src/Rpc/Threads.antt =====
-- A connection's thread and its caller, in any order of their steps: src/std/rpc/ws_client/mod.rs and
-- src/std/rpc/ws_client/client.rs, over the channel between them.
pub mod Uniform
pub mod Order
pub mod Laws
pub mod Progress
pub mod Waits
pub mod Notified
pub mod Included
use fusotao_rust_client.Prelude.{Bool, true, false, not, List, [], ◌∷◌, ◌++◌, ◌≡◌}
use fusotao_rust_client.Prelude.Text.{Text}
use fusotao_rust_client.External.Json.{Json}
use fusotao_rust_client.Rpc.Handlers.{
  Message, Connection, WsResult, is_over, OnMessageFn, on_get_request_msg, on_subscription_msg,
  on_extrinsic_msg_submit_only, on_extrinsic_msg_until_finalized, on_extrinsic_msg_until_in_block,
  on_extrinsic_msg_until_broadcast, on_extrinsic_msg_until_ready,
}
use fusotao_rust_client.Rpc.Client.{connected}

-- The connection's `sent` is the channel: the texts that the caller has not taken yet.
pub record System : Type 0 where
  -- the node's messages that the thread has not handled
  pub incoming : List Message
  pub connection : Connection
  pub running : Bool
  -- the texts that `recv` has returned, in order
  pub taken : List Text

abbrev pub spawned : List Message → System
spawned msgs = record { incoming = msgs; connection = connected; running = true; taken = [] }

module _ (J : Json) (on_message : OnMessageFn J) where
  -- `RpcClient::on_message` for the next message
  abbrev pub after_message : Message → List Message → System → System
  after_message msg msgs s =
      let (after, r) = on_message msg s.connection in
      record s { incoming = msgs; connection = after; running = not (is_over after.closed r) }

  -- One step of the thread or of its caller. The caller may drop its receiver at any time.
  pub data Step : System → System → Type 0 where
    handle :
        (s : System) (msg : Message) (msgs : List Message)
        → s.running ≡ true
        → s.incoming ≡ msg ∷ msgs
        → Step s (after_message msg msgs s)
    receive :
        (s : System) (text : Text) (texts : List Text)
        → s.connection.receiving ≡ true
        → s.connection.sent ≡ text ∷ texts
        → Step s (record s {
          connection = record s.connection { sent = texts };
          taken = s.taken ++ (text ∷ []);
        })
    hang_up :
        (s : System) → Step s (record s { connection = record s.connection { receiving = false } })

  -- The states that the thread and the caller can come to, for the messages of a node.
  pub data Reach (msgs : List Message) : System → Type 0 where
    start : Reach msgs (spawned msgs)
    next : {s t : System} → Reach msgs s → Step s t → Reach msgs t

module _ (J : Json) where
  -- The seven functions that the methods of `WsRpcClient` pass to `start_rpc_client_thread`.
  pub data IsClientFn : OnMessageFn J → Type 0 where
    get_fn : IsClientFn (on_get_request_msg J)
    submit_fn : IsClientFn (on_extrinsic_msg_submit_only J)
    ready_fn : IsClientFn (on_extrinsic_msg_until_ready J)
    broadcast_fn : IsClientFn (on_extrinsic_msg_until_broadcast J)
    in_block_fn : IsClientFn (on_extrinsic_msg_until_in_block J)
    finalized_fn : IsClientFn (on_extrinsic_msg_until_finalized J)
    subscriber_fn : IsClientFn (on_subscription_msg J)
