-- ===== src/Rpc/Threads/Order.antt =====
-- The steps of a connection's thread and its caller, against the thread alone: `run` and `recv`.
use fusotao_rust_client.Prelude.{
  Bool, true, false, not, List, [], ◌∷◌, ◌++◌, ◌≡◌, refl, ap, sym, ◌∙◌, append_assoc, append-nil,
}
use fusotao_rust_client.Prelude.Text.{Text}
use fusotao_rust_client.External.Json.{Json}
use fusotao_rust_client.Rpc.Handlers.{Message, Connection, is_over, OnMessageFn, push, close}
use fusotao_rust_client.Rpc.Client.{
  Reception, received, gone, waiting, recv, received_or, connected,
}
use fusotao_rust_client.Rpc.Subscriber.{run, go_on}
use fusotao_rust_client.Rpc.Threads.{
  System, after_message, Step, handle, receive, hang_up, Reach, start, next, IsClientFn,
}
use fusotao_rust_client.Rpc.Threads.Uniform.{IsRespected, on_message_fn-Respects}

-- A connection whose channel holds some texts before its own.
abbrev pub behind : List Text → Connection → Connection
behind texts c = record c { sent = texts ++ c.sent }

abbrev pub run_behind : List Text → Connection × Bool → Connection × Bool
run_behind texts (c, over) = (behind texts c, over)

run_behind-append :
    (xs ys : List Text) (p : Connection × Bool)
    → run_behind (xs ++ ys) p ≡ run_behind xs (run_behind ys p)
run_behind-append xs ys (c, over) =
    ap (λ sent. (record c { sent = sent }, over)) (append_assoc xs ys c.sent)

-- What the first `recv` of the caller comes to.
abbrev pub first_of : List Text → Bool → Reception
first_of (text ∷ _) over = received text
first_of [] true = gone
first_of [] false = waiting

-- The caller did not change whether it still receives.
abbrev BothReceive : Bool → Connection → Connection → Type 0
BothReceive b c d = (c ≡ d) × (c.receiving ≡ b)

behind-IsRespected : (texts : List Text) → IsRespected (λ c d. c ≡ behind texts d)
behind-IsRespected texts = record {
  same_receiving = λ c d h. ap (λ x. x.receiving) h;
  same_can_close = λ c d h. ap (λ x. x.can_close) h;
  pushed = λ value c d h.
      ap (push value) h
      ∙ ap (λ sent. record d { sent = sent }) (append_assoc texts d.sent (value ∷ []));
  closed = λ c d h. ap close h;
}

BothReceive-IsRespected : (b : Bool) → IsRespected (BothReceive b)
BothReceive-IsRespected b = record {
  same_receiving = λ c d (h, k). ap (λ x. x.receiving) h;
  same_can_close = λ c d (h, k). ap (λ x. x.can_close) h;
  pushed = λ value c d (h, k). (ap (push value) h, k);
  closed = λ c d (h, k). (ap close h, k);
}

module _ (J : Json) {f : OnMessageFn J} (client : IsClientFn J f) where
  open J use {SerdeError}

  pub receiving-kept : (msg : Message) (c : Connection) → (f msg c).0.receiving ≡ c.receiving
  receiving-kept msg c =
      (on_message_fn-Respects J (BothReceive c.receiving) (BothReceive-IsRespected c.receiving)
        client msg c c (refl, refl)).0.1

  go_on-behind :
      (texts : List Text) (a b : Connection) (over : Bool) (x y : Connection × Bool)
      → a ≡ behind texts b
      → x ≡ run_behind texts y
      → go_on J a over x ≡ run_behind texts (go_on J b over y)
  go_on-behind texts a b false x y h later = later
  go_on-behind texts a b true x y h later = ap (λ c. (c, true)) h

  run-behind :
      (texts : List Text) (msgs : List Message) (c d : Connection)
      → c ≡ behind texts d
      → run J f msgs c ≡ run_behind texts (run J f msgs d)
  unfolding run
  run-behind texts [] c d h = ap (λ x. (x, false)) h
  run-behind texts (msg ∷ msgs) c d h =
      let (same, e) =
        on_message_fn-Respects J (λ c d. c ≡ behind texts d) (behind-IsRespected texts) client msg c
          d h in
      let (a, r) = f msg c in
      let (b, q) = f msg d in
      ap (λ over. go_on J a over (run J f msgs a)) (λ i. is_over ((same i).closed) (e i))
      ∙ go_on-behind texts a b (is_over b.closed q) _ _ same (run-behind texts msgs a b same)

  abbrev pub outcome_of : Connection × Bool → Reception
  outcome_of (c, over) = first_of c.sent over

  received_or-run :
      (sent : List Text) (a : Connection) (over : Bool) (msgs : List Message)
      → a.sent ≡ sent
      → (a.sent ≡ [] → recv J f msgs a ≡ outcome_of (run J f msgs a))
      → received_or J a.sent over (recv J f msgs a) ≡ outcome_of (go_on J a over (run J f msgs a))
  received_or-run [] a false msgs h later =
      ap (λ sent. received_or J sent false (recv J f msgs a)) h ∙ later h
  received_or-run [] a true msgs h later = rw (h) refl
  received_or-run (text ∷ texts) a false msgs h later =
      ap (λ sent. received_or J sent false (recv J f msgs a)) h
      ∙ sym (
          ap outcome_of (
            run-behind (text ∷ texts) msgs a (record a { sent = [] })
              (ap (λ sent. record a { sent = sent }) (h ∙ sym (append-nil (text ∷ texts))))))
  received_or-run (text ∷ texts) a true msgs h later = rw (h) refl

  pub recv-run :
      (msgs : List Message) (c : Connection)
      → c.sent ≡ []
      → recv J f msgs c ≡ outcome_of (run J f msgs c)
  unfolding recv run
  recv-run [] c h = rw (h) refl
  recv-run (msg ∷ msgs) c h =
      let (after, r) = f msg c in
      received_or-run after.sent after (is_over after.closed r) msgs refl (recv-run msgs after)

  -- What the thread still does.
  abbrev pub thread_rest : Bool → List Message → Connection → Connection × Bool
  thread_rest true msgs c = run J f msgs c
  thread_rest false msgs c = (c, true)

  thread_rest-behind :
      (texts : List Text) (running : Bool) (msgs : List Message) (c d : Connection)
      → c ≡ behind texts d
      → run_behind texts (thread_rest running msgs d) ≡ thread_rest running msgs c
  thread_rest-behind texts true msgs c d h = sym (run-behind texts msgs c d h)
  thread_rest-behind texts false msgs c d h = sym (ap (λ x. (x, true)) h)

  -- The texts that were taken, and then what the thread still sends.
  abbrev rest_of : System → Connection × Bool
  rest_of s = run_behind s.taken (thread_rest s.running s.incoming s.connection)

  thread_rest-go_on :
      (a : Connection) (over : Bool) (msgs : List Message)
      → thread_rest (not over) msgs a ≡ go_on J a over (run J f msgs a)
  thread_rest-go_on a false msgs = refl
  thread_rest-go_on a true msgs = refl

  handle-rest_of :
      (s : System) (msg : Message) (msgs : List Message)
      → s.running ≡ true
      → s.incoming ≡ msg ∷ msgs
      → rest_of (after_message J f msg msgs s) ≡ rest_of s
  unfolding run
  handle-rest_of s msg msgs running incoming =
      let (a, r) = f msg s.connection in
      rw (running, incoming)
        (ap (run_behind s.taken) (thread_rest-go_on a (is_over a.closed r) msgs))

  receive-rest_of :
      (s : System) (text : Text) (texts : List Text)
      → s.connection.sent ≡ text ∷ texts
      → rest_of (record s {
        connection = record s.connection { sent = texts };
        taken = s.taken ++ (text ∷ []);
      })
        ≡ rest_of s
  receive-rest_of s text texts h =
      let left = record s.connection { sent = texts } in
      run_behind-append s.taken (text ∷ []) (thread_rest s.running s.incoming left)
      ∙ ap (run_behind s.taken) (
          thread_rest-behind (text ∷ []) s.running s.incoming s.connection left
            (ap (λ sent. record s.connection { sent = sent }) h))

  -- While the caller receives, each step keeps what is to come.
  rest_of-Step :
      {s t : System} → Step J f s t → t.connection.receiving ≡ true → rest_of t ≡ rest_of s
  rest_of-Step (handle s msg msgs running incoming) h = handle-rest_of s msg msgs running incoming
  rest_of-Step (receive s text texts receiving sent) h = receive-rest_of s text texts sent
  rest_of-Step (hang_up s) h = cc

  -- The caller that receives did so before.
  receiving-Step :
      {s t : System} → Step J f s t → t.connection.receiving ≡ true → s.connection.receiving ≡ true
  receiving-Step (handle s msg msgs running incoming) h = sym (receiving-kept msg s.connection) ∙ h
  receiving-Step (receive s text texts receiving sent) h = receiving
  receiving-Step (hang_up s) h = cc

  pub rest_of-Reach :
      {msgs : List Message} {s : System}
      → Reach J f msgs s
      → s.connection.receiving ≡ true
      → run_behind s.taken (thread_rest s.running s.incoming s.connection) ≡ run J f msgs connected
  rest_of-Reach start h = refl
  rest_of-Reach (next reached step) h =
      rest_of-Step step h ∙ rest_of-Reach reached (receiving-Step step h)
