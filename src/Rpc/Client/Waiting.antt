-- ===== src/Rpc/Client/Waiting.antt =====
-- What the caller of a watched extrinsic receives, message by message.
use fusotao_rust_client.Prelude.{
  Bool, true, false, Option, none, some, List, [], ◌∷◌, ◌++◌, ◌≡◌, refl, ap,
}
use fusotao_rust_client.Prelude.Outcome.{Outcome, ok, err, panicked, out_of_fuel}
use fusotao_rust_client.Prelude.Text.{Text}
use fusotao_rust_client.External.Json.{Json}
use fusotao_rust_client.Rpc.Types.{
  XtStatus, finalized, in_block, broadcast, ready, future, submit_only, error, unknown,
  RpcClientError,
}
use fusotao_rust_client.Rpc.Status.{parse_status}
use fusotao_rust_client.Rpc.Handlers.{
  Message, Connection, is_over, done, panics, Reaction, OnMessageFn, send_value, end_process,
  end_with_error, on_status, until_finalized, until_in_block, until_broadcast, until_ready,
  on_extrinsic_msg_until_finalized, on_extrinsic_msg_until_in_block,
  on_extrinsic_msg_until_broadcast, on_extrinsic_msg_until_ready, or_empty,
}
use fusotao_rust_client.Rpc.Client.{Reception, received, recv, connected, received_or}

-- The statuses with which a caller that waits for `exit_on` is told of a block's hash.
pub data TellsHash : XtStatus → XtStatus → Type 0 where
  finalized_finalized : TellsHash finalized finalized
  in_block_in_block : TellsHash in_block in_block
  in_block_finalized : TellsHash in_block finalized

-- The statuses that end the wait for `exit_on`.
abbrev pub ends : XtStatus → XtStatus → Bool
ends _ finalized = true
ends _ future = true
ends in_block in_block = true
ends broadcast broadcast = true
ends ready ready = true
ends _ _ = false

-- What a message comes to that ends the wait for `exit_on`: such a status, or an error.
abbrev pub IsEnd : {E : Type 0} → XtStatus → Outcome E (XtStatus × Option Text) → Type 0
IsEnd exit_on (ok (s, val)) = ends exit_on s ≡ true
IsEnd exit_on (err e) = Unit
IsEnd exit_on _ = ⊥

-- The wait for these statuses gives no hash.
pub data GivesNoHash : XtStatus → Type 0 where
  broadcast_gives : GivesNoHash broadcast
  ready_gives : GivesNoHash ready

module _ (J : Json) where
  open J use {SerdeError}

  -- The messages report statuses that do not end the wait for `exit_on`.
  abbrev pub ArePending : XtStatus → List Message → Type 0
  ArePending exit_on [] = Unit
  ArePending exit_on (none ∷ msgs) = ⊥
  ArePending exit_on (some t ∷ msgs) =
      ((s : XtStatus) × ((val : Option Text) × ((parse_status J t ≡ ok (s, val))
            × (ends exit_on s ≡ false))))
      × ArePending exit_on msgs

  -- The function that handles the messages of a watched extrinsic.
  abbrev pub watcher : XtStatus → XtStatus → Option Text → Connection → Reaction J
  watcher finalized = until_finalized J
  watcher in_block = until_in_block J
  watcher broadcast = until_broadcast J
  watcher _ = until_ready J

  abbrev pub watch : XtStatus → OnMessageFn J
  watch exit_on none c = (c, panics)
  watch exit_on (some t) c = on_status J (watcher exit_on) (parse_status J t) c

  -- The statuses `send_extrinsic` can watch for.
  abbrev pub IsWatched : XtStatus → Type 0
  IsWatched finalized = Unit
  IsWatched in_block = Unit
  IsWatched broadcast = Unit
  IsWatched ready = Unit
  IsWatched _ = ⊥

  pub watcher-pending :
      (exit_on s : XtStatus) (val : Option Text) (c : Connection)
      → IsWatched exit_on
      → ends exit_on s ≡ false
      → watcher exit_on s val c ≡ (c, done)
  unfolding until_finalized until_in_block until_broadcast until_ready
  watcher-pending finalized finalized val c w h = cc
  watcher-pending finalized in_block val c w h = refl
  watcher-pending finalized broadcast val c w h = refl
  watcher-pending finalized ready val c w h = refl
  watcher-pending finalized future val c w h = cc
  watcher-pending finalized submit_only val c w h = refl
  watcher-pending finalized error val c w h = refl
  watcher-pending finalized unknown val c w h = refl
  watcher-pending in_block finalized val c w h = cc
  watcher-pending in_block in_block val c w h = cc
  watcher-pending in_block broadcast val c w h = refl
  watcher-pending in_block ready val c w h = refl
  watcher-pending in_block future val c w h = cc
  watcher-pending in_block submit_only val c w h = refl
  watcher-pending in_block error val c w h = refl
  watcher-pending in_block unknown val c w h = refl
  watcher-pending broadcast finalized val c w h = cc
  watcher-pending broadcast in_block val c w h = refl
  watcher-pending broadcast broadcast val c w h = cc
  watcher-pending broadcast ready val c w h = refl
  watcher-pending broadcast future val c w h = cc
  watcher-pending broadcast submit_only val c w h = refl
  watcher-pending broadcast error val c w h = refl
  watcher-pending broadcast unknown val c w h = refl
  watcher-pending ready finalized val c w h = cc
  watcher-pending ready in_block val c w h = refl
  watcher-pending ready broadcast val c w h = refl
  watcher-pending ready ready val c w h = cc
  watcher-pending ready future val c w h = cc
  watcher-pending ready submit_only val c w h = refl
  watcher-pending ready error val c w h = refl
  watcher-pending ready unknown val c w h = refl
  watcher-pending future s val c w h = elim w [ ]
  watcher-pending submit_only s val c w h = elim w [ ]
  watcher-pending error s val c w h = elim w [ ]
  watcher-pending unknown s val c w h = elim w [ ]

  pub recv-pending :
      (exit_on : XtStatus) (pending msgs : List Message)
      → IsWatched exit_on
      → ArePending exit_on pending
      → recv J (watch exit_on) (pending ++ msgs) connected ≡ recv J (watch exit_on) msgs connected
  unfolding recv
  recv-pending exit_on [] msgs w p = refl
  recv-pending exit_on (none ∷ pending) msgs w p = elim p [ ]
  recv-pending exit_on (some t ∷ pending) msgs w ((s, (val, (parsed, h))), p) =
      rw (parsed, watcher-pending exit_on s val connected w h)
        (recv-pending exit_on pending msgs w p)

  pub recv-TellsHash :
      (exit_on s : XtStatus) (val t : Text) (later : List Message)
      → TellsHash exit_on s
      → parse_status J t ≡ ok (s, some val)
      → recv J (watch exit_on) (some t ∷ later) connected ≡ received val
  unfolding recv until_finalized until_in_block end_process send_value
  recv-TellsHash _ _ val t later finalized_finalized parsed = rw (parsed) refl
  recv-TellsHash _ _ val t later in_block_in_block parsed = rw (parsed) refl
  recv-TellsHash _ _ val t later in_block_finalized parsed = rw (parsed) refl

  reaction-end :
      {exit_on : XtStatus} (r : Outcome (RpcClientError SerdeError) (XtStatus × Option Text))
      (later : Reception)
      → GivesNoHash exit_on
      → IsEnd exit_on r
      → (text : Text) × (received_or J
            ((on_status J (watcher exit_on) r connected).0.sent)
            (is_over
              ((on_status J (watcher exit_on) r connected).0.closed)
              ((on_status J (watcher exit_on) r connected).1))
            later
          ≡ received text)
  unfolding until_broadcast until_ready end_with_error end_process send_value
  reaction-end (err e) later w h = ([], refl)
  reaction-end panicked later w h = elim h [ ]
  reaction-end out_of_fuel later w h = elim h [ ]
  reaction-end (ok (finalized, val)) later broadcast_gives h = (or_empty val, refl)
  reaction-end (ok (in_block, val)) later broadcast_gives h = cc
  reaction-end (ok (broadcast, val)) later broadcast_gives h = ([], refl)
  reaction-end (ok (ready, val)) later broadcast_gives h = cc
  reaction-end (ok (future, val)) later broadcast_gives h = ([], refl)
  reaction-end (ok (submit_only, val)) later broadcast_gives h = cc
  reaction-end (ok (error, val)) later broadcast_gives h = cc
  reaction-end (ok (unknown, val)) later broadcast_gives h = cc
  reaction-end (ok (finalized, val)) later ready_gives h = (or_empty val, refl)
  reaction-end (ok (in_block, val)) later ready_gives h = cc
  reaction-end (ok (broadcast, val)) later ready_gives h = cc
  reaction-end (ok (ready, val)) later ready_gives h = ([], refl)
  reaction-end (ok (future, val)) later ready_gives h = ([], refl)
  reaction-end (ok (submit_only, val)) later ready_gives h = cc
  reaction-end (ok (error, val)) later ready_gives h = cc
  reaction-end (ok (unknown, val)) later ready_gives h = cc

  pub recv-end :
      {exit_on : XtStatus} (t : Text) (later : List Message)
      → GivesNoHash exit_on
      → IsEnd exit_on (parse_status J t)
      → (text : Text) × (recv J (watch exit_on) (some t ∷ later) connected ≡ received text)
  unfolding recv
  recv-end {exit_on} t later w h =
      reaction-end (parse_status J t)
        (recv J (watch exit_on) later ((watch exit_on (some t) connected).0)) w h

  pub until_finalized-watch :
      (msg : Message) (c : Connection)
      → on_extrinsic_msg_until_finalized J msg c ≡ watch finalized msg c
  unfolding on_extrinsic_msg_until_finalized
  until_finalized-watch none c = refl
  until_finalized-watch (some t) c = refl

  pub until_in_block-watch :
      (msg : Message) (c : Connection)
      → on_extrinsic_msg_until_in_block J msg c ≡ watch in_block msg c
  unfolding on_extrinsic_msg_until_in_block
  until_in_block-watch none c = refl
  until_in_block-watch (some t) c = refl

  pub until_broadcast-watch :
      (msg : Message) (c : Connection)
      → on_extrinsic_msg_until_broadcast J msg c ≡ watch broadcast msg c
  unfolding on_extrinsic_msg_until_broadcast
  until_broadcast-watch none c = refl
  until_broadcast-watch (some t) c = refl

  pub until_ready-watch :
      (msg : Message) (c : Connection) → on_extrinsic_msg_until_ready J msg c ≡ watch ready msg c
  unfolding on_extrinsic_msg_until_ready
  until_ready-watch none c = refl
  until_ready-watch (some t) c = refl

  pub recv-congr :
      (f g : OnMessageFn J)
      → ((msg : Message) (c : Connection) → f msg c ≡ g msg c)
      → (msgs : List Message) (c : Connection) → recv J f msgs c ≡ recv J g msgs c
  unfolding recv
  recv-congr f g same [] c = refl
  recv-congr f g same (msg ∷ msgs) c = rw (same msg c) (
      ap (received_or J ((g msg c).0.sent) (is_over ((g msg c).0.closed) ((g msg c).1)))
        (recv-congr f g same msgs ((g msg c).0)))
