-- ===== src/Rpc/Threads/Notified.antt =====
-- What the caller of `start_subscriber` in src/std/rpc/ws_client/client.rs takes of the change sets
-- that a node notifies, in any order of its steps and those of the connection's thread.
use fusotao_rust_client.Prelude.{Bool, true, false, not, List, ◌++◌, ◌≡◌, refl, ap, ◌∙◌}
use fusotao_rust_client.Prelude.Text.{Text}
use fusotao_rust_client.External.Json.{Json}
use fusotao_rust_client.Rpc.Handlers.{Message, on_subscription_msg}
use fusotao_rust_client.Rpc.Client.{connected}
use fusotao_rust_client.Rpc.Subscriber.{run}
use fusotao_rust_client.Rpc.Subscriber.Laws.{Carries, run-Carries}
use fusotao_rust_client.Rpc.Threads.{System, Reach, subscriber_fn}
use fusotao_rust_client.Rpc.Threads.Laws.{IsFinished, Reach-taken, Reach-run}
use fusotao_rust_client.Rpc.Threads.Progress.{Inevitably, Inevitably-map, Reach-Inevitably}

is_true : (b : Bool) → not b ≡ false → b ≡ true
is_true true h = refl
is_true false h = cc

module _ (J : Json) (msgs : List Message) (texts : List Text) (carries : Carries J msgs texts) where
  run-texts : (run J (on_subscription_msg J) msgs connected).0.sent ≡ texts
  run-texts = ap (λ p. p.0.sent) (run-Carries J msgs texts connected refl refl carries)

  run-open : (run J (on_subscription_msg J) msgs connected).1 ≡ false
  run-open = ap (λ p. p.1) (run-Carries J msgs texts connected refl refl carries)

  -- If the node's messages are notifications of change sets of the storage, answers to requests and
  -- texts that are not JSON, then in any order of the steps of the thread of a subscription and of
  -- its caller the texts that the caller has taken are the first of these change sets, in order,
  -- also when it has dropped its receiver.
  pub taken-Carries :
      {s : System}
      → Reach J (on_subscription_msg J) msgs s
      → (later : List Text) × (s.taken ++ later ≡ texts)
  taken-Carries reached =
      let (later, same) = Reach-taken J subscriber_fn reached in (later, same ∙ run-texts)

  -- If the node's messages are notifications of change sets of the storage, answers to requests and
  -- texts that are not JSON, then once the thread of a subscription has handled them, in any order
  -- of its steps and its caller's, a caller that still receives has taken, or finds in the channel,
  -- exactly these change sets, in order, and the thread is still running.
  pub delivered-Carries :
      {s : System}
      → Reach J (on_subscription_msg J) msgs s
      → s.connection.receiving ≡ true
      → IsFinished s
      → (s.taken ++ s.connection.sent ≡ texts) × (s.running ≡ true)
  delivered-Carries {s} reached receiving finished =
      let (same, open_yet) = Reach-run J subscriber_fn reached receiving finished in
      (same ∙ run-texts, is_true s.running (open_yet ∙ run-open))

  -- If the node's messages are notifications of change sets of the storage, answers to requests and
  -- texts that are not JSON, then as long as the caller of a subscription does not drop its
  -- receiver, no order of its steps and the thread's is stuck or goes on for ever before the caller
  -- has taken all of these change sets, in order.
  pub Inevitably-Carries :
      {s : System}
      → Reach J (on_subscription_msg J) msgs s
      → s.connection.receiving ≡ true
      → Inevitably J subscriber_fn (λ t. t.taken ≡ texts) s
  Inevitably-Carries {s} reached receiving =
      Inevitably-map J subscriber_fn s (λ t all. all ∙ run-texts)
        (Reach-Inevitably J subscriber_fn reached receiving)
