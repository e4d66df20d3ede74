-- ===== src/Rpc/Events/Laws.antt =====
-- The event that `wait_for_raw_event` returns.
use fusotao_rust_client.Prelude.{
  ℕ, String, ◌≡◌, refl, sym, ap, subst, ◌∙◌, ◌⊎◌, inl, inr, Bool, true, false, Bool-cases,
  Option-cases, none, some, List, [], ◌∷◌, ◌++◌, Has, here, there, string_eq, arith,
}
use fusotao_rust_client.Prelude.Result.{Result}
use fusotao_rust_client.Prelude.Outcome.{Outcome, ok, err, panicked, out_of_fuel}
use fusotao_rust_client.Prelude.Text.{Text, Bytes}
use fusotao_rust_client.External.Hex.{Hex, FromHexError}
use fusotao_rust_client.Error.{Error}
use fusotao_rust_client.Metadata.{Metadata}
use fusotao_rust_client.Decoder.Scale.{Phase, Scale}
use fusotao_rust_client.Decoder.Events.{RawEvent, Raw, decode_events}
use fusotao_rust_client.Utils.{vec_from_hex}
use fusotao_rust_client.Rpc.ApiError.{ApiError}
use fusotao_rust_client.Rpc.Events.{
  Wait, over, matches, find_raw, found_or, on_events, on_bytes, wait_for_raw_event,
}

module _ (pallet variant : String) where
  -- An event of the pallet and the variant is among the events.
  abbrev pub Contains : List (Phase × Raw) → RawEvent → Type 0
  Contains events raw =
      (phase : Phase) × (Has (phase, Raw.event raw) events)
      × (raw.pallet ≡ pallet)
      × (raw.variant ≡ variant)

  matches_iff :
      (raw : RawEvent)
      → matches pallet variant raw ≡ true
      → (raw.pallet ≡ pallet) × (raw.variant ≡ variant)
  matches_iff raw h = (
    ground (arith, string_eq.beq_iff raw.pallet pallet),
    ground (arith, string_eq.beq_iff raw.variant variant),
  )

  find_raw_sound :
      (events : List (Phase × Raw)) (raw : RawEvent)
      → find_raw pallet variant events ≡ some raw
      → Contains events raw
  unfolding find_raw
  find_raw_sound [] raw h = cc
  find_raw_sound ((ph, Raw.error e) ∷ events) raw h =
      let (phase, has, p, v) = find_raw_sound events raw h in (phase, there has, p, v)
  find_raw_sound ((ph, Raw.event x) ∷ events) raw h = elim (Bool-cases (matches pallet variant x)) [
    | inl this ↦
        let same : x ≡ raw = cc (rw (this, find_raw) at h) in
        let (p, v) = matches_iff x this in
        (
          ph,
          subst (λ (y : RawEvent). Has (ph, Raw.event y) ((ph, Raw.event x) ∷ events)) same here,
          sym (ap (λ (y : RawEvent). y.pallet) same) ∙ p,
          sym (ap (λ (y : RawEvent). y.variant) same) ∙ v,
        )
    | inr other ↦
        let (phase, has, p, v) = find_raw_sound events raw (rw (other, find_raw) at h) in
        (phase, there has, p, v)
  ]

  find_raw_complete :
      (events : List (Phase × Raw)) (phase : Phase) (raw : RawEvent)
      → Has (phase, Raw.event raw) events
      → matches pallet variant raw ≡ true
      → (first : RawEvent) × (find_raw pallet variant events ≡ some first)
  unfolding find_raw
  find_raw_complete [] phase raw h m = elim h [ ]
  find_raw_complete ((_, Raw.event x) ∷ events) phase raw here m = (x, rw (m) refl)
  find_raw_complete ((ph, Raw.error e) ∷ events) phase raw (there h) m =
      find_raw_complete events phase raw h m
  find_raw_complete ((ph, Raw.event x) ∷ events) phase raw (there h) m =
      elim (Bool-cases (matches pallet variant x)) [
        | inl this ↦ (x, rw (this) refl)
        | inr other ↦
            let (first, e) = find_raw_complete events phase raw h m in (first, rw (other) e)
      ]

module _ (SerdeError : Type 0) (S : Scale) (m : Metadata) (fuel : ℕ) (h : Hex)
    (pallet variant : String) where
  -- The text is hex for event records with the event among them.
  abbrev pub Reports : Text → RawEvent → Type 0
  Reports text raw =
      (bytes : Bytes) × (events : List (Phase × Raw)) × (rest : Bytes) × (vec_from_hex h text
        ≡ Result.ok bytes)
      × (decode_events S m fuel bytes ≡ ok (events, rest))
      × Contains pallet variant events raw

  -- The text is hex, and its event records cannot be decoded or hold no such event.
  abbrev pub IsPassed : Text → Type 0
  IsPassed text =
      (bytes : Bytes) × (vec_from_hex h text ≡ Result.ok bytes)
      × (((e : Error) × (decode_events S m fuel bytes ≡ err e))
          ⊎ ((events : List (Phase × Raw)) × (rest : Bytes) × (decode_events S m fuel bytes
                ≡ ok (events, rest))
              × (find_raw pallet variant events ≡ none)))

  abbrev pub ArePassed : List Text → Type 0
  ArePassed [] = Unit
  ArePassed (text ∷ texts) = IsPassed text × ArePassed texts

  abbrev Waited : Type 0
  Waited = Wait (ApiError SerdeError) RawEvent

  found_or_source :
      (events : List (Phase × Raw)) (later : Waited) (raw : RawEvent)
      → found_or SerdeError S m fuel h pallet variant (find_raw pallet variant events) later
        ≡ over (ok raw)
      → Contains pallet variant events raw ⊎ (later ≡ over (ok raw))
  found_or_source events later raw e = elim (Option-cases (find_raw pallet variant events)) [
    | inl absent ↦ inr (rw (absent) at e)
    | inr (x, found) ↦
        let same : some x ≡ some raw = cc (rw (found) at e) in
        inl (find_raw_sound pallet variant events raw (found ∙ same))
  ]

  on_text_source :
      (text : Text) (later : Waited) (raw : RawEvent)
      → on_bytes SerdeError S m fuel h pallet variant (vec_from_hex h text) later ≡ over (ok raw)
      → Reports text raw ⊎ (later ≡ over (ok raw))
  on_text_source text later raw e = by_hex (vec_from_hex h text) refl e
    where
      by_outcome :
          (bytes : Bytes) (r : Outcome Error (List (Phase × Raw) × Bytes))
          → vec_from_hex h text ≡ Result.ok bytes
          → decode_events S m fuel bytes ≡ r
          → on_events SerdeError S m fuel h pallet variant r later ≡ over (ok raw)
          → Reports text raw ⊎ (later ≡ over (ok raw))
      by_outcome bytes (ok (events, rest)) hex decoded e =
          elim (found_or_source events later raw e) [
            | inl has ↦ inl (bytes, events, rest, hex, decoded, has)
            | inr l ↦ inr l
          ]
      by_outcome bytes (err _) hex decoded e = inr e
      by_outcome bytes panicked hex decoded e = cc
      by_outcome bytes out_of_fuel hex decoded e = cc

      by_hex :
          (r : Result FromHexError Bytes)
          → vec_from_hex h text ≡ r
          → on_bytes SerdeError S m fuel h pallet variant r later ≡ over (ok raw)
          → Reports text raw ⊎ (later ≡ over (ok raw))
      by_hex (Result.ok bytes) hex e = by_outcome bytes (decode_events S m fuel bytes) hex refl e
      by_hex (Result.err x) hex e = cc

  -- An event that `wait_for_raw_event` returns is of the pallet and the variant, and is among the
  -- events that some text reports.
  pub wait_for_raw_event_sound :
      (texts : List Text) (ended : Bool) (raw : RawEvent)
      → wait_for_raw_event SerdeError S m fuel h pallet variant texts ended ≡ over (ok raw)
      → (text : Text) × Has text texts × Reports text raw
  unfolding wait_for_raw_event
  wait_for_raw_event_sound [] true raw e = cc
  wait_for_raw_event_sound [] false raw e = cc
  wait_for_raw_event_sound (text ∷ texts) ended raw e =
      elim (on_text_source text
        (wait_for_raw_event SerdeError S m fuel h pallet variant texts ended) raw e) [
          | inl reports ↦ (text, here, reports)
          | inr later ↦
              let (t, has, reports) = wait_for_raw_event_sound texts ended raw later in
              (t, there has, reports)
        ]

  wait_passed :
      (texts more : List Text) (ended : Bool)
      → ArePassed texts
      → wait_for_raw_event SerdeError S m fuel h pallet variant (texts ++ more) ended
        ≡ wait_for_raw_event SerdeError S m fuel h pallet variant more ended
  unfolding wait_for_raw_event
  wait_passed [] more ended p = refl
  wait_passed (text ∷ texts) more ended ((bytes, hex, inl (e, failed)), p) =
      rw (hex, failed) (wait_passed texts more ended p)
  wait_passed (text ∷ texts) more ended ((bytes, hex, inr (events, rest, decoded, none_there)), p) =
      rw (hex, decoded, none_there) (wait_passed texts more ended p)

  -- After texts that report no such event, `wait_for_raw_event` returns with the first text that
  -- does, whatever follows.
  pub wait_for_raw_event_returns :
      (texts later : List Text) (text : Text) (ended : Bool) (raw : RawEvent)
      → ArePassed texts
      → Reports text raw
      → (first : RawEvent) × (wait_for_raw_event SerdeError S m fuel h pallet variant
            (texts ++ (text ∷ later))
            ended
          ≡ over (ok first))
        × Reports text first
  unfolding wait_for_raw_event
  wait_for_raw_event_returns texts later text ended raw passed
        (bytes, events, rest, hex, decoded, (phase, has, p, v)) =
      let (first, found) = find_raw_complete pallet variant events phase raw has (named p v) in
      (
        first,
        wait_passed texts (text ∷ later) ended passed ∙ rw (hex, decoded, found) refl,
        (bytes, events, rest, hex, decoded, find_raw_sound pallet variant events first found),
      )
    where
      named : raw.pallet ≡ pallet → raw.variant ≡ variant → matches pallet variant raw ≡ true
      named p v =
          ground (arith, string_eq.beq_iff raw.pallet pallet, string_eq.beq_iff raw.variant variant)
