-- ===== src/Rpc/Threads/Progress.antt =====
-- That the caller of src/std/rpc/ws_client/client.rs gets what the connection's thread sends, in any
-- order of their steps.
use fusotao_rust_client.Prelude.{
  Bool, true, false, List, [], ◌∷◌, ◌++◌, ◌≡◌, ap, sym, ◌∙◌, drop, ◌⊎◌, inl, inr, append-nil, refl,
}
use fusotao_rust_client.Prelude.Text.{Text}
use fusotao_rust_client.External.Json.{Json}
use fusotao_rust_client.Rpc.Handlers.{Message, OnMessageFn}
use fusotao_rust_client.Rpc.Client.{connected}
use fusotao_rust_client.Rpc.Subscriber.{run}
use fusotao_rust_client.Rpc.Threads.{
  System, Step, handle, receive, hang_up, Reach, next, IsClientFn,
}
use fusotao_rust_client.Rpc.Threads.Order.{receiving-kept}
use fusotao_rust_client.Rpc.Threads.Laws.{IsFinished, Reach-run}

module _ (J : Json) {f : OnMessageFn J} (client : IsClientFn J f) where
  -- Every order of the steps in which the caller still receives comes to a system with `P`: none is
  -- stuck before, and none goes on for ever.
  pub data Inevitably (P : System → Type 0) : System → Type 0 where
    now : {s : System} → P s → Inevitably P s
    later :
        {s : System}
        → (t : System) × Step J f s t × (t.connection.receiving ≡ true)
        → ((t : System) → Step J f s t → t.connection.receiving ≡ true → Inevitably P t)
        → Inevitably P s

  abbrev pub TakesAll : List Message → System → Type 0
  TakesAll msgs s = s.taken ≡ (run J f msgs connected).0.sent

  Step-IsFinished :
      {s t : System} (text : Text) (texts : List Text)
      → Step J f s t
      → t.connection.receiving ≡ true
      → IsFinished s
      → s.connection.sent ≡ text ∷ texts
      → IsFinished t × (t.connection.sent ≡ texts)
  Step-IsFinished text texts (handle s msg msgs running incoming) h (inl over) sent = cc
  Step-IsFinished text texts (handle s msg msgs running incoming) h (inr nothing) sent = cc
  Step-IsFinished text texts (receive s taken others receiving queue) h finished sent =
      (finished, ap (drop 1) (sym queue ∙ sent))
  Step-IsFinished text texts (hang_up s) h finished sent = cc

  -- With the thread at its end, the caller empties the channel.
  drains :
      {all : List Message} (texts : List Text) (s : System)
      → s.connection.sent ≡ texts
      → IsFinished s
      → Reach J f all s
      → s.connection.receiving ≡ true
      → Inevitably (TakesAll all) s
  drains [] s sent finished reached receiving = now (
      sym (append-nil s.taken)
      ∙ ap (λ t. s.taken ++ t) (sym sent)
      ∙ (Reach-run J client reached receiving finished).0)
  drains (text ∷ texts) s sent finished reached receiving =
      later (_, receive s text texts receiving sent, receiving)
        (λ t step h.
          let (still, left) = Step-IsFinished text texts step h finished sent in
          drains texts t left still (next reached step) h)

  abbrev IsTail : List Text → List Text → Type 0
  IsTail [] left = ⊥
  IsTail (text ∷ texts) left = left ≡ texts

  IsTail-sent :
      (texts : List Text) {queue left : List Text} {text : Text}
      → queue ≡ texts
      → queue ≡ text ∷ left
      → IsTail texts left
  IsTail-sent [] h k = cc
  IsTail-sent (x ∷ texts) h k = ap (drop 1) (sym k ∙ h)

  -- With the thread at work, a step handles a message or takes a text.
  Step-running :
      {s t : System} (msg : Message) (msgs : List Message) (texts : List Text)
      → Step J f s t
      → t.connection.receiving ≡ true
      → s.running ≡ true
      → s.incoming ≡ msg ∷ msgs
      → s.connection.sent ≡ texts
      → (t.incoming ≡ msgs)
        ⊎ (((t.running ≡ true) × (t.incoming ≡ msg ∷ msgs)) × IsTail texts t.connection.sent)
  Step-running msg msgs texts (handle s first others running incoming) h runs has sent =
      inl (ap (drop 1) (sym incoming ∙ has))
  Step-running msg msgs texts (receive s text left receiving queue) h runs has sent =
      inr ((runs, has), IsTail-sent texts sent queue)
  Step-running msg msgs texts (hang_up s) h runs has sent = cc

  handling :
      (msg : Message) (msgs : List Message) (s : System)
      → s.running ≡ true
      → s.incoming ≡ msg ∷ msgs
      → s.connection.receiving ≡ true
      → (t : System) × Step J f s t × (t.connection.receiving ≡ true)
  handling msg msgs s runs has receiving =
      (_, handle s msg msgs runs has, receiving-kept J client msg s.connection ∙ receiving)

  -- While the thread is at work, and given that all goes well once it has handled `msg`.
  works :
      {all : List Message} (msg : Message) (msgs : List Message) (texts : List Text) (s : System)
      → ((t : System)
          → t.incoming ≡ msgs
          → Reach J f all t
          → t.connection.receiving ≡ true
          → Inevitably (TakesAll all) t)
      → s.connection.sent ≡ texts
      → s.running ≡ true
      → s.incoming ≡ msg ∷ msgs
      → Reach J f all s
      → s.connection.receiving ≡ true
      → Inevitably (TakesAll all) s
  works msg msgs [] s handled sent runs has reached receiving =
      later (handling msg msgs s runs has receiving) (λ t step h.
        elim (Step-running msg msgs [] step h runs has sent) [
          | inl left ↦ handled t left (next reached step) h
          | inr (_, none_left) ↦ elim none_left [ ]
        ])
  works msg msgs (text ∷ texts) s handled sent runs has reached receiving =
      later (handling msg msgs s runs has receiving) (λ t step h.
        elim (Step-running msg msgs (text ∷ texts) step h runs has sent) [
          | inl left ↦ handled t left (next reached step) h
          | inr ((still, same), tail) ↦
              works msg msgs texts t handled tail still same (next reached step) h
        ])

  inevitable :
      {all : List Message} (msgs : List Message) (s : System) (running : Bool)
      → s.incoming ≡ msgs
      → s.running ≡ running
      → Reach J f all s
      → s.connection.receiving ≡ true
      → Inevitably (TakesAll all) s
  inevitable [] s running has runs reached receiving =
      drains s.connection.sent s refl (inr has) reached receiving
  inevitable (msg ∷ msgs) s false has runs reached receiving =
      drains s.connection.sent s refl (inl runs) reached receiving
  inevitable (msg ∷ msgs) s true has runs reached receiving =
      works msg msgs s.connection.sent s
        (λ t left reached h. inevitable msgs t t.running left refl reached h) refl runs has reached
        receiving

  -- With any of the functions that the client passes to a thread: as long as the caller does not
  -- drop its receiver, no order of the steps is stuck or goes on for ever before the caller has taken
  -- all the texts that the thread sends when it handles the node's messages alone.
  pub Reach-Inevitably :
      {msgs : List Message} {s : System}
      → Reach J f msgs s
      → s.connection.receiving ≡ true
      → Inevitably (λ t. t.taken ≡ (run J f msgs connected).0.sent) s
  Reach-Inevitably {s} reached receiving =
      inevitable s.incoming s s.running refl refl reached receiving

  pub Inevitably-map :
      {P Q : System → Type 0} (s : System)
      → ((t : System) → P t → Q t)
      → Inevitably P s
      → Inevitably Q s
  Inevitably-map s f (now p) = now (f s p)
  Inevitably-map s f (later can each) = later can (λ t step h. Inevitably-map t f (each t step h))
