-- ===== src/Rpc/Subscriber.antt =====
-- src/std/rpc/ws_client/client.rs: a subscription, which is a connection whose thread goes on
-- sending texts to the caller.
pub mod Laws
use fusotao_rust_client.Prelude.{Bool, true, false, Option, none, some, List, [], ◌∷◌}
use fusotao_rust_client.Prelude.Text.{Text}
use fusotao_rust_client.External.Hashing.{Hashing}
use fusotao_rust_client.External.Json.{Json}
use fusotao_rust_client.Rpc.Requests.{Serialize}
use fusotao_rust_client.Rpc.Handlers.{
  Message, Connection, WsResult, is_over, OnMessageFn, on_subscription_msg,
}
use fusotao_rust_client.Rpc.Client.{Node, connected}
use fusotao_rust_client.Rpc.Events.{subscribe_events, subscribe_finalized_heads}

-- What the caller's end of the channel gives: the texts in order, and whether the sender is gone
-- after the last.
pub record Subscription : Type 0 where
  pub texts : List Text
  pub ended : Bool

module _ (J : Json) where
  open J use {SerdeError}

  -- What the thread comes to, given whether it is over.
  abbrev pub go_on : Connection → Bool → Connection × Bool → Connection × Bool
  go_on after false later = later
  go_on after true later = (after, true)

  -- The thread handles the messages in order.
  unfoldable pub run : OnMessageFn J → List Message → Connection → Connection × Bool
  run on_message [] c = (c, false)
  run on_message (msg ∷ msgs) c =
      let (after, r) = on_message msg c in
      go_on after (is_over after.closed r) (run on_message msgs after)

  abbrev pub subscription_of : Connection × Bool → Subscription
  subscription_of (c, ended) = record { texts = c.sent; ended = ended }

  unfoldable pub start_subscriber : Node → Text → Subscription
  unfolding run on_subscription_msg
  start_subscriber node json_req = elim (node json_req) [
    | some msgs ↦ subscription_of (run (on_subscription_msg J) msgs connected)
    | none ↦ record { texts = []; ended = true }
  ]

  module _ {Hash : Type 0} (S : Serialize J Hash) where
    -- `Api::subscribe_events` and `Api::subscribe_finalized_heads`, with what the caller receives
    unfoldable pub events_of : Hashing → Node → Subscription
    unfolding start_subscriber subscribe_events
    events_of h node = start_subscriber node (subscribe_events J S h)

    unfoldable pub finalized_heads_of : Node → Subscription
    unfolding start_subscriber subscribe_finalized_heads
    finalized_heads_of node = start_subscriber node (subscribe_finalized_heads J S)
