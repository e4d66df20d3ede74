-- ===== src/Rpc/Client/Answers.antt =====
-- What a caller of `send_extrinsic` gets, for what the node answers.
use fusotao_rust_client.Prelude.{none, some, List, ◌∷◌, ◌++◌, ◌≡◌, refl, ap, ◌∙◌}
use fusotao_rust_client.Prelude.Outcome.{ok}
use fusotao_rust_client.Prelude.Result.{Result}
use fusotao_rust_client.Prelude.Text.{Text, Bytes}
use fusotao_rust_client.External.Json.{Json}
use fusotao_rust_client.External.Hex.{Hex}
use fusotao_rust_client.Utils.{hash_from_hex}
use fusotao_rust_client.Rpc.Types.{XtStatus}
use fusotao_rust_client.Rpc.Requests.{Serialize}
use fusotao_rust_client.Rpc.Status.{parse_status}
use fusotao_rust_client.Rpc.Handlers.{Message, Connection, OnMessageFn}
use fusotao_rust_client.Rpc.Client.{
  Reception, received, recv, start_rpc_client_thread, answer, Node, connected, jsonreq_of,
  send_extrinsic, some_hash,
}
use fusotao_rust_client.Rpc.Client.Waiting.{
  TellsHash, finalized_finalized, in_block_in_block, in_block_finalized, IsEnd, GivesNoHash,
  broadcast_gives, ready_gives, ArePending, IsWatched, recv-pending, recv-TellsHash, recv-end,
  recv-congr, watch, until_finalized-watch, until_in_block-watch, until_broadcast-watch,
  until_ready-watch,
}

module _ (J : Json) {Hash : Type 0} (S : Serialize J Hash) (h : Hex) where
  -- What the thread sends the caller, when the node answers with the messages.
  thread-received :
      (node : Node) (jsonreq : Text) (f g : OnMessageFn J) (msgs : List Message) (r : Reception)
      → node jsonreq ≡ some msgs
      → ((msg : Message) (c : Connection) → f msg c ≡ g msg c)
      → recv J g msgs connected ≡ r
      → start_rpc_client_thread J node jsonreq f ≡ r
  unfolding start_rpc_client_thread
  thread-received node jsonreq f g msgs r answers same e =
      rw (answers, start_rpc_client_thread) (recv-congr J f g same msgs connected ∙ e)

  thread-tells :
      (node : Node) (jsonreq : Text) {exit_on s : XtStatus} (pending later : List Message)
      (t val : Text)
      → TellsHash exit_on s
      → IsWatched J exit_on
      → node jsonreq ≡ some (pending ++ (some t ∷ later))
      → ArePending J exit_on pending
      → parse_status J t ≡ ok (s, some val)
      → (f : OnMessageFn J) → ((msg : Message) (c : Connection) → f msg c ≡ watch J exit_on msg c)
      → start_rpc_client_thread J node jsonreq f ≡ received val
  thread-tells node jsonreq {exit_on} pending later t val tells w answers p parsed f same =
      thread-received node jsonreq f (watch J exit_on) _ _ answers same
        (recv-pending J exit_on pending _ w p ∙ recv-TellsHash J _ _ val t later tells parsed)

  thread-ends :
      (node : Node) (jsonreq : Text) {exit_on : XtStatus} (pending later : List Message) (t : Text)
      → GivesNoHash exit_on
      → IsWatched J exit_on
      → node jsonreq ≡ some (pending ++ (some t ∷ later))
      → ArePending J exit_on pending
      → IsEnd exit_on (parse_status J t)
      → (f : OnMessageFn J) → ((msg : Message) (c : Connection) → f msg c ≡ watch J exit_on msg c)
      → (text : Text) × (start_rpc_client_thread J node jsonreq f ≡ received text)
  thread-ends node jsonreq {exit_on} pending later t gives w answers p end f same =
      let (text, e) = recv-end J t later gives end in
      (
        text,
        thread-received node jsonreq f (watch J exit_on) _ _ answers same
            (recv-pending J exit_on pending _ w p ∙ e),
      )

  read_hash :
      (res : Text) (hash : Bytes)
      → hash_from_hex h res ≡ Result.ok hash
      → some_hash J S h res ≡ Result.ok (some hash)
  read_hash res hash e = rw (e) refl

  -- A caller that waits until its extrinsic is finalized, or in a block, gets the block's hash: the
  -- node's answer to the request may begin with messages about statuses that do not end the wait;
  -- the next one reports the status and a text that is hex for a hash, and whatever follows does
  -- not matter.
  pub send_extrinsic_included :
      (node : Node) (xthex_prefixed : Text) {exit_on s : XtStatus} (pending later : List Message)
      (t val : Text) (hash : Bytes)
      → TellsHash exit_on s
      → node (jsonreq_of J S h exit_on xthex_prefixed) ≡ some (pending ++ (some t ∷ later))
      → ArePending J exit_on pending
      → parse_status J t ≡ ok (s, some val)
      → hash_from_hex h val ≡ Result.ok hash
      → send_extrinsic J S h node xthex_prefixed exit_on ≡ answer (Result.ok (some hash))
  unfolding send_extrinsic
  send_extrinsic_included node xt pending later t val hash finalized_finalized answers p parsed
        hex =
      rw
        (thread-tells node _ pending later t val finalized_finalized tt answers p parsed _
          (until_finalized-watch J))
        (ap answer (read_hash val hash hex))
  send_extrinsic_included node xt pending later t val hash in_block_in_block answers p parsed hex =
      rw
        (thread-tells node _ pending later t val in_block_in_block tt answers p parsed _
          (until_in_block-watch J))
        (ap answer (read_hash val hash hex))
  send_extrinsic_included node xt pending later t val hash in_block_finalized answers p parsed hex =
      rw
        (thread-tells node _ pending later t val in_block_finalized tt answers p parsed _
          (until_in_block-watch J))
        (ap answer (read_hash val hash hex))

  -- A caller that waits until its extrinsic is ready or broadcast is answered without a hash by
  -- whatever ends the wait, after messages that do not: by the awaited status, by the statuses
  -- finalized and future, and just so by an error that the node reports.
  pub send_extrinsic_unhashed :
      (node : Node) (xthex_prefixed : Text) {exit_on : XtStatus} (pending later : List Message)
      (t : Text)
      → GivesNoHash exit_on
      → node (jsonreq_of J S h exit_on xthex_prefixed) ≡ some (pending ++ (some t ∷ later))
      → ArePending J exit_on pending
      → IsEnd exit_on (parse_status J t)
      → send_extrinsic J S h node xthex_prefixed exit_on ≡ answer (Result.ok none)
  unfolding send_extrinsic
  send_extrinsic_unhashed node xt pending later t broadcast_gives answers p end =
      rw
        ((thread-ends node _ pending later t broadcast_gives tt answers p end _
          (until_broadcast-watch J)).1)
        refl
  send_extrinsic_unhashed node xt pending later t ready_gives answers p end =
      rw
        ((thread-ends node _ pending later t ready_gives tt answers p end _
          (until_ready-watch J)).1)
        refl
