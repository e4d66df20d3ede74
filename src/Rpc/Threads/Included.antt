-- ===== src/Rpc/Threads/Included.antt =====
-- What a caller of `send_extrinsic` in src/std/rpc/ws_client/client.rs that waits for a block takes
-- from its channel, in any order of its steps and those of the connection's thread.
use fusotao_rust_client.Prelude.{Bool, true, false, some, List, [], ◌∷◌, ◌++◌, ◌≡◌, refl, sym, ◌∙◌}
use fusotao_rust_client.Prelude.Outcome.{ok}
use fusotao_rust_client.Prelude.Text.{Text}
use fusotao_rust_client.External.Json.{Json}
use fusotao_rust_client.Rpc.Types.{XtStatus, finalized, in_block}
use fusotao_rust_client.Rpc.Status.{parse_status}
use fusotao_rust_client.Rpc.Handlers.{
  Message, OnMessageFn, on_extrinsic_msg_until_finalized, on_extrinsic_msg_until_in_block,
}
use fusotao_rust_client.Rpc.Client.{received, recv, connected}
use fusotao_rust_client.Rpc.Client.Waiting.{
  TellsHash, finalized_finalized, in_block_in_block, in_block_finalized, ArePending, watch,
  recv-pending, recv-TellsHash, recv-congr, until_finalized-watch, until_in_block-watch,
}
use fusotao_rust_client.Rpc.Subscriber.{run}
use fusotao_rust_client.Rpc.Threads.{System, Reach, IsClientFn, finalized_fn, in_block_fn}
use fusotao_rust_client.Rpc.Threads.Order.{first_of, recv-run}
use fusotao_rust_client.Rpc.Threads.Progress.{Inevitably, Inevitably-map, Reach-Inevitably}

first_of-received :
    (texts : List Text) (over : Bool) (val : Text)
    → first_of texts over ≡ received val
    → (later : List Text) × (texts ≡ val ∷ later)
first_of-received [] true val h = cc
first_of-received [] false val h = cc
first_of-received (text ∷ texts) over val h = (texts, cc)

module _ (J : Json) where
  -- The function that `send_extrinsic` passes to the thread where it waits for a block.
  abbrev pub block_fn : {exit_on s : XtStatus} → TellsHash exit_on s → OnMessageFn J
  block_fn finalized_finalized = on_extrinsic_msg_until_finalized J
  block_fn in_block_in_block = on_extrinsic_msg_until_in_block J
  block_fn in_block_finalized = on_extrinsic_msg_until_in_block J

  pub block_client :
      {exit_on s : XtStatus} (tells : TellsHash exit_on s) → IsClientFn J (block_fn tells)
  block_client finalized_finalized = finalized_fn
  block_client in_block_in_block = in_block_fn
  block_client in_block_finalized = in_block_fn

  recv-block_fn :
      {exit_on s : XtStatus} (tells : TellsHash exit_on s) (pending later : List Message)
      (t val : Text)
      → ArePending J exit_on pending
      → parse_status J t ≡ ok (s, some val)
      → recv J (block_fn tells) (pending ++ (some t ∷ later)) connected ≡ received val
  recv-block_fn finalized_finalized pending later t val p parsed =
      recv-congr J _ (watch J finalized) (until_finalized-watch J) _ connected
      ∙ recv-pending J finalized pending _ tt p
      ∙ recv-TellsHash J _ _ val t later finalized_finalized parsed
  recv-block_fn in_block_in_block pending later t val p parsed =
      recv-congr J _ (watch J in_block) (until_in_block-watch J) _ connected
      ∙ recv-pending J in_block pending _ tt p
      ∙ recv-TellsHash J _ _ val t later in_block_in_block parsed
  recv-block_fn in_block_finalized pending later t val p parsed =
      recv-congr J _ (watch J in_block) (until_in_block-watch J) _ connected
      ∙ recv-pending J in_block pending _ tt p
      ∙ recv-TellsHash J _ _ val t later in_block_finalized parsed

  module _ {exit_on status : XtStatus} (tells : TellsHash exit_on status)
      (pending later : List Message) (t val : Text) (p : ArePending J exit_on pending)
      (parsed : parse_status J t ≡ ok (status, some val)) where
    run-block_fn :
        (others : List Text) × ((run J
            (block_fn tells)
            (pending ++ (some t ∷ later))
            connected).0.sent
          ≡ val ∷ others)
    run-block_fn = first_of-received _ _ val (
        sym (recv-run J (block_client tells) (pending ++ (some t ∷ later)) connected refl)
        ∙ recv-block_fn tells pending later t val p parsed)

    -- A caller that waits until its extrinsic is finalized or in a block: the node's messages may
    -- begin with some about statuses that do not end the wait, and the next one reports a status
    -- that does, with a text. Then as long as the caller does not drop its receiver, no order of its
    -- steps and the thread's is stuck or goes on for ever before the caller has taken this text, and
    -- it is the first that the caller takes.
    pub Inevitably-TellsHash :
        {s : System}
        → Reach J (block_fn tells) (pending ++ (some t ∷ later)) s
        → s.connection.receiving ≡ true
        → Inevitably J (block_client tells) (λ u. (others : List Text) × (u.taken ≡ val ∷ others)) s
    Inevitably-TellsHash {s} reached receiving =
        Inevitably-map J (block_client tells) s
          (λ u all. let (others, same) = run-block_fn in (others, all ∙ same))
          (Reach-Inevitably J (block_client tells) reached receiving)
