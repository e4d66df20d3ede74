-- ===== src/Decoder/Events/Fields.antt =====
-- What `decode_raw_event` accepts is the encoding of an event's fields.
use mathlib.Core.Path.{subst}
use fusotao_rust_client.Prelude.{
  ℕ, String, ◌≡◌, refl, sym, ap, ◌∙◌, true, Bool-cases, Option, none, some, Option-cases, inl, inr,
  List, [], ◌∷◌, ◌++◌, append_assoc, append-nil, string_eq, arith,
}
use fusotao_rust_client.Prelude.Outcome.{Outcome, ok, lift, >>=-eq-ok, lift-eq-ok}
use fusotao_rust_client.Prelude.Result.{Result}
use fusotao_rust_client.Prelude.Text.{Bytes}
use fusotao_rust_client.External.Codec.{RoundTrips}
use fusotao_rust_client.External.Runtime.{DispatchError}
use fusotao_rust_client.Error.{Error, RuntimeError}
use fusotao_rust_client.Dispatch.{from_dispatch}
use fusotao_rust_client.Metadata.{Metadata, EventMetadata, resolve_type}
use fusotao_rust_client.Decoder.Scale.{Scale, IsCanonicalScale, IsReadBackScale, IsExactScale}
use fusotao_rust_client.Decoder.Types.{decode_type}
use fusotao_rust_client.Decoder.Types.Encoded.{Encoded}
use fusotao_rust_client.Decoder.Types.Sound.{AreGood, IsIndexed, Encoded-decode_type}
use fusotao_rust_client.Decoder.Events.{
  EventState, is_dispatch_error, is_extrinsic_failed, decode_plain_field, decode_dispatch_field,
  decode_event_field, decode_raw_event,
}
use fusotao_rust_client.Decoder.Events.Complete.{is_extrinsic_failed-true}
use fusotao_rust_client.Decoder.Events.Encoded.{
  IsExtrinsicFailed, IsReason, IsPlain, EncodedEvent, no_fields, plain, reason,
}

is_extrinsic_failed-IsExtrinsicFailed :
    (e : EventMetadata) → is_extrinsic_failed e ≡ true → IsExtrinsicFailed e
unfolding is_extrinsic_failed
is_extrinsic_failed-IsExtrinsicFailed e h = (
  ground (arith, h, string_eq.beq_iff e.pallet "System"),
  ground (arith, h, string_eq.beq_iff e.event "ExtrinsicFailed"),
)

is_dispatch_error-eq :
    (ident : Option String) → is_dispatch_error ident ≡ true → ident ≡ some "DispatchError"
is_dispatch_error-eq none h = cc
is_dispatch_error-eq (some ident) h = ap some ((string_eq.beq_iff ident "DispatchError").0 h)

-- One field of an event, with the error that it gives, if any.
data EncodedField (S : Scale) (m : Metadata) (e : EventMetadata) (id : ℕ)
    : Bytes → List RuntimeError → Type 0 where
  plain_field :
      {bytes : Bytes}
      → IsPlain m e id
      → Encoded S (resolve_type m) id bytes
      → EncodedField S m e id bytes []
  reason_field :
      (x : DispatchError) (error : RuntimeError)
      → IsReason m e id
      → RoundTrips S.dispatch_error x
      → from_dispatch m x ≡ Result.ok error
      → EncodedField S m e id (S.dispatch_error.encode x) (error ∷ [])

-- Bytes and errors with a relation went from the input to the output, and to the errors.
abbrev pub Moved : (Bytes → List RuntimeError → Type 0) → EventState → EventState → Type 0
Moved P s t =
    (bytes : Bytes) × (errors : List RuntimeError) × P bytes errors
    × (s.cursor.input ≡ bytes ++ t.cursor.input)
    × (t.cursor.output ≡ s.cursor.output ++ bytes)
    × (t.errors ≡ s.errors ++ errors)

state_of : (u t : EventState) → ◌≡◌ {A = Outcome Error EventState} (ok u) (ok t) → u ≡ t
state_of u t e = cc

EncodedEvent-field :
    {S : Scale} {m : Metadata} {e : EventMetadata} {id : ℕ} {fields : List ℕ} {bytes others : Bytes}
    {errors more : List RuntimeError}
    → EncodedField S m e id bytes errors
    → EncodedEvent S m e fields others more
    → EncodedEvent S m e (id ∷ fields) (bytes ++ others) (errors ++ more)
EncodedEvent-field (plain_field is encoded) later = plain is encoded later
EncodedEvent-field (reason_field x error is back named) later = reason x error is back named later

module _ (S : Scale) (canon : IsCanonicalScale S) (back : IsReadBackScale S)
    (exact : IsExactScale S) (m : Metadata) (Good : ℕ → Type 0)
    (indexed : IsIndexed Good (resolve_type m)) (fuel : ℕ) where
  decode_plain_field-EncodedField :
      (e : EventMetadata) (id : ℕ) (s t : EventState)
      → Good id
      → IsPlain m e id
      → decode_plain_field S m fuel id s ≡ ok t
      → Moved (EncodedField S m e id) s t
  unfolding decode_plain_field
  decode_plain_field-EncodedField e id s t good is h =
      let (c, decoded, same) = >>=-eq-ok (decode_type S (resolve_type m) fuel id s.cursor) _ h in
      let (bytes, encoded, i, o) =
        Encoded-decode_type S (resolve_type m) Good fuel id s.cursor c canon back indexed good
          decoded in
      subst (Moved (EncodedField S m e id) s) (state_of _ t same)
        (bytes, [], plain_field is encoded, i, o, sym (append-nil s.errors))

  decode_dispatch_field-EncodedField :
      (e : EventMetadata) (id : ℕ) (s t : EventState)
      → IsReason m e id
      → decode_dispatch_field S m fuel s ≡ ok t
      → Moved (EncodedField S m e id) s t
  unfolding decode_dispatch_field
  decode_dispatch_field-EncodedField e id s t is h =
      let ((x, rest), decoded, h1) =
        >>=-eq-ok (lift Error.codec (S.dispatch_error.decode s.cursor.input)) _ h in
      let (error, named, same) = >>=-eq-ok (lift (λ e. e) (from_dispatch m x)) _ h1 in
      let read = lift-eq-ok Error.codec _ decoded in
      subst (Moved (EncodedField S m e id) s) (state_of _ t same) (
        S.dispatch_error.encode x,
        error ∷ [],
        reason_field x error is (exact.dispatch_error_read_back s.cursor.input x rest read)
            (lift-eq-ok (λ e. e) _ named),
        exact.dispatch_error_canonical s.cursor.input x rest read,
        refl,
        refl,
      )

  decode_event_field-EncodedField :
      (e : EventMetadata) (id : ℕ) (s t : EventState)
      → Good id
      → decode_event_field S m fuel e id s ≡ ok t
      → Moved (EncodedField S m e id) s t
  unfolding decode_event_field
  decode_event_field-EncodedField e id s t good h = elim (Bool-cases (is_extrinsic_failed e)) [
    | inr other ↦
        decode_plain_field-EncodedField e id s t good
          (inl (λ is. cc (sym other ∙ is_extrinsic_failed-true e is)))
          (rw (other, decode_event_field) at h)
    | inl failed ↦ elim (Option-cases (resolve_type m id)) [
      | inl absent ↦ cc (rw (failed, absent, decode_event_field) at h)
      | inr (ty, resolved) ↦ elim (Bool-cases (is_dispatch_error ty.ident)) [
        | inl is_error ↦
            decode_dispatch_field-EncodedField e id s t
              (
                ty,
                is_extrinsic_failed-IsExtrinsicFailed e failed,
                resolved,
                is_dispatch_error-eq ty.ident is_error,
              )
              (rw (failed, resolved, is_error, decode_event_field) at h)
        | inr other ↦
            decode_plain_field-EncodedField e id s t good
              (inr (ty, resolved, λ is. cc (sym other ∙ ap is_dispatch_error is)))
              (rw (failed, resolved, other, decode_event_field) at h)
      ]
    ]
  ]

  pub decode_raw_event-Moved :
      (e : EventMetadata) (fields : List ℕ) (s t : EventState)
      → AreGood Good fields
      → decode_raw_event S m fuel e fields s ≡ ok t
      → Moved (EncodedEvent S m e fields) s t
  unfolding decode_raw_event
  decode_raw_event-Moved e [] s t good h =
      subst (Moved (EncodedEvent S m e []) s) (state_of s t h)
        ([], [], no_fields, refl, sym (append-nil s.cursor.output), sym (append-nil s.errors))
  decode_raw_event-Moved e (id ∷ fields) s t (g, good) h =
      let (u, first, later) = >>=-eq-ok (decode_event_field S m fuel e id s) _ h in
      let (xs, errors, one, i, o, r) = decode_event_field-EncodedField e id s u g first in
      let (ys, more, others, i', o', r') = decode_raw_event-Moved e fields u t good later in
      (
        xs ++ ys,
        errors ++ more,
        EncodedEvent-field one others,
        rw (i, i', append_assoc),
        rw (o', o, append_assoc),
        rw (r', r, append_assoc),
      )
