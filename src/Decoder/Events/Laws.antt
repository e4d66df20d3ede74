-- ===== src/Decoder/Events/Laws.antt =====
-- What the decoded events hold: their bytes are the node's, and none is lost.
use fusotao_rust_client.Prelude.{
  ℕ, zero, suc, ◌≤◌, ◌≡◌, refl, sym, ap, subst, ◌∙◌, Option-cases, Bool-cases, inl, inr, List, [],
  ◌∷◌, ◌++◌, length, arith, length-append, append_assoc, append-nil,
}
use fusotao_rust_client.Prelude.Outcome.{Outcome, ok, lift, >>=-eq-ok, lift-eq-ok}
use fusotao_rust_client.Prelude.Result.{Result}
use fusotao_rust_client.Prelude.Text.{Bytes}
use fusotao_rust_client.External.Codec.{IsCanonical}
use fusotao_rust_client.Error.{Error, RuntimeError}
use fusotao_rust_client.Dispatch.{from_dispatch}
use fusotao_rust_client.Metadata.{Metadata, EventMetadata, event as find_event, resolve_type}
use fusotao_rust_client.Decoder.Scale.{Phase, Scale, IsCanonicalScale}
use fusotao_rust_client.Decoder.Types.{decode_type}
use fusotao_rust_client.Decoder.Types.Copies.{Copied, Copied-refl, Copied-trans, decode_type-Copies}
use fusotao_rust_client.Decoder.Events.{
  RawEvent, Raw, EventState, is_dispatch_error, is_extrinsic_failed, decode_plain_field,
  decode_dispatch_field, decode_event_field, decode_raw_event, pushed, decode_event_record,
  decode_event_records, decode_events,
}

ok-cancel : (u t : EventState) → ◌≡◌ {A = Outcome Error EventState} (ok u) (ok t) → u ≡ t
ok-cancel u t e = cc

module _ (S : Scale) (m : Metadata) (fuel : ℕ) (canon : IsCanonicalScale S)
    (canon_error : IsCanonical S.dispatch_error) where
  abbrev CopiesState : (EventState → Outcome Error EventState) → Type 0
  CopiesState f = (s t : EventState) → f s ≡ ok t → Copied s.cursor t.cursor

  decode_plain_field-Copies : (id : ℕ) → CopiesState (decode_plain_field S m fuel id)
  unfolding decode_plain_field
  decode_plain_field-Copies id s t h =
      let (c, decoded, e) = >>=-eq-ok (decode_type S (resolve_type m) fuel id s.cursor) _ h in
      subst (λ (x : EventState). Copied s.cursor x.cursor) (ok-cancel _ t e)
        (decode_type-Copies S canon (resolve_type m) fuel id s.cursor c decoded)

  decode_dispatch_field-Copies : CopiesState (decode_dispatch_field S m fuel)
  unfolding decode_dispatch_field
  decode_dispatch_field-Copies s t h =
      let ((x, rest), decoded, e1) =
        >>=-eq-ok (lift Error.codec (S.dispatch_error.decode s.cursor.input)) _ h in
      let (y, found, e2) = >>=-eq-ok (lift (λ e. e) (from_dispatch m x)) _ e1 in
      subst (λ (u : EventState). Copied s.cursor u.cursor) (ok-cancel _ t e2)
        (
          S.dispatch_error.encode x,
          canon_error s.cursor.input x rest (lift-eq-ok Error.codec _ decoded),
          refl,
        )

  decode_event_field-Copies :
      (e : EventMetadata) (id : ℕ) → CopiesState (decode_event_field S m fuel e id)
  unfolding decode_event_field
  decode_event_field-Copies e id s t h = elim (Bool-cases (is_extrinsic_failed e)) [
    | inr other ↦ decode_plain_field-Copies id s t (rw (other, decode_event_field) at h)
    | inl extrinsic_failed ↦ elim (Option-cases (resolve_type m id)) [
      | inl absent ↦ cc (rw (extrinsic_failed, absent, decode_event_field) at h)
      | inr (ty, resolved) ↦ elim (Bool-cases (is_dispatch_error ty.ident)) [
        | inl is_error ↦
            decode_dispatch_field-Copies s t
              (rw (extrinsic_failed, resolved, is_error, decode_event_field) at h)
        | inr plain ↦
            decode_plain_field-Copies id s t
              (rw (extrinsic_failed, resolved, plain, decode_event_field) at h)
      ]
    ]
  ]

  -- If every codec that it copies with is canonical, a successful `decode_raw_event` moves bytes
  -- from the front of its input to the end of its output unchanged, those of a dispatch error too.
  pub decode_raw_event_copies :
      (e : EventMetadata) (fields : List ℕ) (s t : EventState)
      → decode_raw_event S m fuel e fields s ≡ ok t
      → (bytes : Bytes) × (s.cursor.input ≡ bytes ++ t.cursor.input)
        × (t.cursor.output ≡ s.cursor.output ++ bytes)
  unfolding decode_raw_event
  decode_raw_event_copies e [] s t h =
      subst (λ (u : EventState). Copied s.cursor u.cursor) (ok-cancel s t h) (Copied-refl s.cursor)
  decode_raw_event_copies e (id ∷ fields) s t h =
      let (u, first, later) = >>=-eq-ok (decode_event_field S m fuel e id s) _ h in
      Copied-trans s.cursor u.cursor t.cursor (decode_event_field-Copies e id s u first)
        (decode_raw_event_copies e fields u t later)

module _ (S : Scale) (m : Metadata) (fuel : ℕ) where
  length-pushed :
      (phase : Phase) (e : RawEvent) (errors : List RuntimeError)
      → 1 ≤ length (pushed S m fuel phase e errors)
  unfolding pushed
  length-pushed phase e [] = omega arith
  length-pushed phase e (x ∷ errors) = omega arith

  decode_event_record_nonempty :
      (input rest : Bytes) (new : List (Phase × Raw))
      → decode_event_record S m fuel input ≡ ok (new, rest)
      → 1 ≤ length new
  unfolding decode_event_record
  decode_event_record_nonempty input rest new h =
      let ((phase, i1), _, h1) = >>=-eq-ok (lift Error.codec (S.decode_phase input)) _ h in
      let ((p, i2), _, h2) = >>=-eq-ok (lift Error.codec (S.input.read_byte i1)) _ h1 in
      let ((v, i3), _, h3) = >>=-eq-ok (lift Error.codec (S.input.read_byte i2)) _ h2 in
      let (e, _, h4) = >>=-eq-ok (lift Error.metadata (find_event m p v)) _ h3 in
      let (s, _, h5) = >>=-eq-ok (decode_raw_event S m fuel e e.variant.fields _) _ h4 in
      let ((topics, i4), _, h6) =
        >>=-eq-ok (lift Error.codec (S.decode_topics s.cursor.input)) _ h5 in
      let pick : Outcome Error (List (Phase × Raw) × Bytes) → List (Phase × Raw) =
        λ r. elim r [ ok x ↦ x.0 | _ ↦ [] ] in
      subst (λ (l : List (Phase × Raw)). 1 ≤ length l) (ap pick h6) (length-pushed phase _ s.errors)

  -- The events that come first in the input come first in the result, and each gives at least one
  -- entry.
  decode_event_records_append :
      (n : ℕ) (r r' : List (Phase × Raw)) (input rest : Bytes)
      → decode_event_records S m fuel n r input ≡ ok (r', rest)
      → (more : List (Phase × Raw)) × (r' ≡ r ++ more) × (n ≤ length more)
  unfolding decode_event_records
  decode_event_records_append zero r r' input rest h =
      let same : r' ≡ r = cc in ([], same ∙ sym (append-nil r), omega arith)
  decode_event_records_append (suc n) r r' input rest h =
      let ((new, i1), first, h1) = >>=-eq-ok (decode_event_record S m fuel input) _ h in
      let (more, same, enough) = decode_event_records_append n (r ++ new) r' i1 rest h1 in
      (
        new ++ more,
        same ∙ append_assoc r new more,
        omega (
          arith,
          length-append new more,
          enough,
          decode_event_record_nonempty input i1 new first,
        ),
      )

  -- A successful `decode_events` reads a number of events, and its result has at least one entry
  -- for each of them.
  pub length-decode_events :
      (input rest : Bytes) (events : List (Phase × Raw))
      → decode_events S m fuel input ≡ ok (events, rest)
      → (len : ℕ) × (records : Bytes) × (S.compact_u32.decode input ≡ Result.ok (len, records))
        × (len ≤ length events)
  unfolding decode_events
  length-decode_events input rest events h =
      let ((len, records), read, h1) =
        >>=-eq-ok (lift Error.codec (S.compact_u32.decode input)) _ h in
      let (more, same, enough) = decode_event_records_append len [] events records rest h1 in
      (
        len,
        records,
        lift-eq-ok Error.codec _ read,
        subst (λ (l : List (Phase × Raw)). len ≤ length l) (sym same) enough,
      )
