-- ===== src/Rpc/Threads/Laws.antt =====
-- What the caller of src/std/rpc/ws_client/client.rs takes from its channel, in any order of its
-- steps and those of the connection's thread.
use fusotao_rust_client.Prelude.{
  Bool, true, false, not, some, List, [], ◌∷◌, ◌++◌, ◌≡◌, refl, ap, sym, ◌∙◌, ◌⊎◌, inl, inr,
}
use fusotao_rust_client.Prelude.Text.{Text}
use fusotao_rust_client.External.Json.{Json}
use fusotao_rust_client.Rpc.Handlers.{Message, Connection, OnMessageFn, on_subscription_msg}
use fusotao_rust_client.Rpc.Client.{
  Reception, received, gone, connected, Node, start_rpc_client_thread,
}
use fusotao_rust_client.Rpc.Subscriber.{run, start_subscriber}
use fusotao_rust_client.Rpc.Threads.{
  System, handle, receive, hang_up, Reach, start, next, IsClientFn, subscriber_fn,
}
use fusotao_rust_client.Rpc.Threads.Order.{
  run_behind, thread_rest, first_of, recv-run, rest_of-Reach,
}

-- The thread has handled the node's messages, or is over.
abbrev pub IsFinished : System → Type 0
IsFinished s = (s.running ≡ false) ⊎ (s.incoming ≡ [])

-- What the first `recv` of the caller returned, or returns now.
pub data Receives (s : System) : Reception → Type 0 where
  took : (text : Text) (texts : List Text) → s.taken ≡ text ∷ texts → Receives s (received text)
  disconnects :
      s.connection.receiving ≡ true
      → s.running ≡ false
      → s.taken ≡ []
      → s.connection.sent ≡ []
      → Receives s gone

module _ (J : Json) {f : OnMessageFn J} (client : IsClientFn J f) where
  abbrev texts_of : List Message → List Text
  texts_of msgs = (run J f msgs connected).0.sent

  -- With any of the functions that the client passes to a thread, and whatever the order of the
  -- steps was, the texts that the caller has taken are the first of those that the thread sends when
  -- it handles the messages alone, also when the caller has dropped its receiver.
  pub Reach-taken :
      {msgs : List Message} {s : System}
      → Reach J f msgs s
      → (later : List Text) × (s.taken ++ later ≡ (run J f msgs connected).0.sent)
  Reach-taken {msgs} start = (texts_of msgs, refl)
  Reach-taken (next reached (handle s msg msgs running incoming)) = Reach-taken reached
  Reach-taken (next reached (hang_up s)) = Reach-taken reached
  Reach-taken {s} (next reached (receive before text texts receiving sent)) = (
    (thread_rest J client s.running s.incoming s.connection).0.sent,
    ap (λ p. p.0.sent)
        (rest_of-Reach J client (next reached (receive before text texts receiving sent))
          receiving),
  )

  rest-finished :
      (running : Bool) (msgs : List Message) (c : Connection)
      → (running ≡ false) ⊎ (msgs ≡ [])
      → thread_rest J client running msgs c ≡ (c, not running)
  unfolding run
  rest-finished false msgs c h = refl
  rest-finished true msgs c (inl h) = cc
  rest-finished true msgs c (inr h) = rw (h) refl

  -- Once the thread has handled the messages or is over, a caller that still receives has taken, or
  -- finds in the channel, the texts that the thread sends alone, and sees whether the sender is gone.
  pub Reach-run :
      {msgs : List Message} {s : System}
      → Reach J f msgs s
      → s.connection.receiving ≡ true
      → IsFinished s
      → (s.taken ++ s.connection.sent ≡ (run J f msgs connected).0.sent)
        × (not s.running ≡ (run J f msgs connected).1)
  Reach-run {msgs} {s} reached receiving finished =
      let whole =
        ap (run_behind s.taken) (sym (rest-finished s.running s.incoming s.connection finished))
        ∙ rest_of-Reach J client reached receiving in
      (ap (λ p. p.0.sent) whole, ap (λ p. p.1) whole)

  -- With any of the functions that the client passes to a thread, and a node that can be reached:
  -- the first text that the caller takes in any order of the steps, or the error of a sender that is
  -- gone, is what `start_rpc_client_thread` with the caller's `recv` returns.
  pub Receives-start_rpc_client_thread :
      (node : Node) (json_req : Text) {msgs : List Message} {s : System} {r : Reception}
      → node json_req ≡ some msgs
      → Reach J f msgs s
      → Receives s r
      → start_rpc_client_thread J node json_req f ≡ r
  unfolding start_rpc_client_thread
  Receives-start_rpc_client_thread node json_req {msgs} {s} answers reached
        (took text texts taken) =
      let (later, prefix) = Reach-taken reached in
      rw (answers, start_rpc_client_thread)
        (recv-run J client msgs connected refl
          ∙ ap (λ sent. first_of sent ((run J f msgs connected).1))
              (sym prefix ∙ ap (λ t. t ++ later) taken))
  Receives-start_rpc_client_thread node json_req {msgs} {s} answers reached
        (disconnects receiving over taken sent) =
      let (same, ended) = Reach-run reached receiving (inl over) in
      rw (answers, start_rpc_client_thread)
        (recv-run J client msgs connected refl
          ∙ ap (λ t. first_of t ((run J f msgs connected).1))
              (sym same ∙ ap (λ t. t ++ s.connection.sent) taken ∙ sent)
          ∙ ap (first_of []) (sym ended ∙ ap not over))

-- If the node can be reached, then once the thread of a subscription has handled the node's messages
-- or is over, what a caller that still receives has taken, and finds in the channel after it, is
-- what `start_subscriber` gives, whatever the order of the steps was.
pub Reach-start_subscriber :
    (J : Json) (node : Node) (json_req : Text) {msgs : List Message} {s : System}
    → node json_req ≡ some msgs
    → Reach J (on_subscription_msg J) msgs s
    → s.connection.receiving ≡ true
    → IsFinished s
    → start_subscriber J node json_req
      ≡ record { texts = s.taken ++ s.connection.sent; ended = not s.running }
unfolding start_subscriber
Reach-start_subscriber J node json_req {msgs} {s} answers reached receiving finished =
    let (texts, ended) = Reach-run J subscriber_fn reached receiving finished in
    rw (answers, start_subscriber, texts, ended) refl
