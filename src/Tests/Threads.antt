-- ===== src/Tests/Threads.antt =====
-- A subscription whose caller takes a text between the thread's steps.
use fusotao_rust_client.Prelude.{String, Has, true, ◌≡◌, refl, some, List, [], ◌∷◌, inr}
use fusotao_rust_client.Prelude.Text.{Text, codes}
use fusotao_rust_client.Rpc.Handlers.{on_subscription_msg}
use fusotao_rust_client.Rpc.Client.{connected}
use fusotao_rust_client.Rpc.Subscriber.{start_subscriber}
use fusotao_rust_client.Rpc.Threads.{
  System, handle, receive, hang_up, Reach, start, next, subscriber_fn,
}
use fusotao_rust_client.Rpc.Threads.Notified.{taken-Carries, delivered-Carries, Inevitably-Carries}
use fusotao_rust_client.Rpc.Threads.Progress.{Inevitably}
use fusotao_rust_client.Prelude.Outcome.{ok}
use fusotao_rust_client.Rpc.Events.{over, wait_for_raw_event}
use fusotao_rust_client.Rpc.Events.Laws.{Reports}
use fusotao_rust_client.Rpc.Threads.Waits.{wait_for_raw_event-taken}
use fusotao_rust_client.Tests.Samples.{hex}
use fusotao_rust_client.Tests.Calls.{node_metadata}
use fusotao_rust_client.Tests.Types.{scale}
use fusotao_rust_client.Tests.Events.{report, empty_report, transferred, returned}
use fusotao_rust_client.Tests.Subscriptions.{notes, messages, node, carried}

abbrev between : System
between = record {
  incoming = some (codes "?") ∷ some (codes "3") ∷ [];
  connection = record connected { sent = [] };
  running = true;
  taken = empty_report ∷ [];
}

abbrev after_all : System
after_all = record {
  incoming = [];
  connection = record connected { sent = report ∷ [] };
  running = true;
  taken = empty_report ∷ [];
}

reached : Reach notes (on_subscription_msg notes) messages between
unfolding on_subscription_msg
reached =
    next (next (next start (handle _ _ _ refl refl)) (handle _ _ _ refl refl))
      (receive _ _ _ refl refl)

ended : Reach notes (on_subscription_msg notes) messages after_all
unfolding on_subscription_msg
ended = next (next reached (handle _ _ _ refl refl)) (handle _ _ _ refl refl)

taken-Carries_example : (later : List Text) × (empty_report ∷ later ≡ empty_report ∷ report ∷ [])
taken-Carries_example =
    taken-Carries notes messages (empty_report ∷ report ∷ []) carried
      (next reached (hang_up between))

delivered-Carries_example :
    (empty_report ∷ report ∷ [] ≡ empty_report ∷ report ∷ []) × (true ≡ true)
delivered-Carries_example =
    delivered-Carries notes messages (empty_report ∷ report ∷ []) carried ended refl (inr refl)

Inevitably-Carries_example :
    Inevitably notes subscriber_fn (λ t. t.taken ≡ empty_report ∷ report ∷ []) between
Inevitably-Carries_example =
    Inevitably-Carries notes messages (empty_report ∷ report ∷ []) carried reached refl

-- The caller has taken both texts.
abbrev all_taken : System
all_taken = record {
  incoming = [];
  connection = record connected { sent = [] };
  running = true;
  taken = empty_report ∷ report ∷ [];
}

both_taken : Reach notes (on_subscription_msg notes) messages all_taken
both_taken = next ended (receive after_all report [] refl refl)

wait_for_raw_event-taken_example :
    let whole = start_subscriber notes node (codes "sub") in
    ((text : Text) × Has text (empty_report ∷ report ∷ [])
      × Reports String scale node_metadata 1 hex "Balances" "transfer" text transferred)
    × (wait_for_raw_event String scale node_metadata 1 hex "Balances" "transfer" whole.texts
          whole.ended
        ≡ over (ok transferred))
wait_for_raw_event-taken_example =
    wait_for_raw_event-taken notes scale node_metadata 1 hex "Balances" "transfer" node
      (codes "sub") transferred refl both_taken returned
