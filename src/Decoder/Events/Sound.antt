-- ===== src/Decoder/Events/Sound.antt =====
-- What `decode_events` accepts is the encoding of event records, which it reports.
use mathlib.Core.Path.{subst}
use fusotao_rust_client.Prelude.{
  ℕ, zero, suc, ◌≡◌, refl, sym, ap, ◌∙◌, List, [], ◌∷◌, ◌++◌, append_assoc, append-nil, string_eq,
}
use fusotao_rust_client.Prelude.Outcome.{Outcome, ok, lift, >>=-eq-ok, lift-eq-ok}
use fusotao_rust_client.Prelude.Result.{Result}
use fusotao_rust_client.Prelude.Text.{Bytes}
use fusotao_rust_client.Error.{Error, RuntimeError}
use fusotao_rust_client.Metadata.{Metadata, EventMetadata, event as find_event, resolve_type}
use fusotao_rust_client.Decoder.Scale.{
  Phase, Scale, IsCanonicalScale, IsReadBackScale, IsExactScale,
}
use fusotao_rust_client.Decoder.Types.Sound.{AreGood, IsIndexed}
use fusotao_rust_client.Decoder.Events.{
  Raw, EventState, decode_raw_event, pushed, decode_event_record, decode_event_records,
  decode_events,
}
use fusotao_rust_client.Decoder.Events.Fields.{decode_raw_event-Moved}
use fusotao_rust_client.Decoder.Events.Encoded.{
  EncodedEvent, Frame, record_bytes, raw_of, EncodedRecords, no_records, event, failure,
}

ok-pair : {A B : Type 0} {x y : A × B} → ◌≡◌ {A = Outcome Error (A × B)} (ok x) (ok y) → x ≡ y
ok-pair e = cc

-- The fields of the events are of good types.
abbrev pub HasGoodEvents : Metadata → (ℕ → Type 0) → Type 0
HasGoodEvents m Good =
    (p v : ℕ) (e : EventMetadata) → find_event m p v ≡ Result.ok e → AreGood Good e.variant.fields

module _ (S : Scale) (canon : IsCanonicalScale S) (back : IsReadBackScale S)
    (exact : IsExactScale S) (m : Metadata) (Good : ℕ → Type 0)
    (indexed : IsIndexed Good (resolve_type m)) (events_good : HasGoodEvents m Good)
    (fuel : ℕ) where
  -- The record that the input begins with, and what it adds to the result.
  abbrev BeginsWith : Bytes → Bytes → List (Phase × Raw) → Type 0
  BeginsWith input rest new =
      (f : Frame S m) × (errors : List RuntimeError) × EncodedEvent S m f.metadata
        f.metadata.variant.fields f.data_bytes errors
      × (input ≡ record_bytes f ++ rest)
      × (new ≡ pushed S m fuel f.phase (raw_of f) errors)

  record_whole :
      (p v : ℕ) (before inside after rest : Bytes) {input i1 i2 i3 left i4 : Bytes}
      → input ≡ before ++ i1
      → i1 ≡ p ∷ i2
      → i2 ≡ v ∷ i3
      → i3 ≡ inside ++ left
      → left ≡ after ++ i4
      → i4 ≡ rest
      → input ≡ (before ++ (p ∷ v ∷ (inside ++ after))) ++ rest
  record_whole p v before inside after rest e0 e1 e2 e3 e4 e5 =
      rw (e0, e1, e2, e3, e4, e5, append_assoc, append_assoc) refl

  -- The last step of a record, with what the steps before it read.
  record-BeginsWith :
      (input rest : Bytes) (new : List (Phase × Raw)) (phase : Phase) (p v : ℕ) (e : EventMetadata)
      (topics : Scale.Hashes S) (i1 i2 i3 i4 : Bytes) (s : EventState)
      → S.decode_phase input ≡ Result.ok (phase, i1)
      → S.input.read_byte i1 ≡ Result.ok (p, i2)
      → S.input.read_byte i2 ≡ Result.ok (v, i3)
      → find_event m p v ≡ Result.ok e
      → decode_raw_event S m fuel e e.variant.fields
          (record { cursor = record { input = i3; output = [] }; errors = [] })
        ≡ ok s
      → S.decode_topics s.cursor.input ≡ Result.ok (topics, i4)
      → ◌≡◌ {A = Outcome Error (List (Phase × Raw) × Bytes)}
          (ok (
            pushed S m fuel phase
                (record {
                  pallet = e.pallet;
                  pallet_index = p;
                  variant = e.event;
                  variant_index = v;
                  data_bytes = s.cursor.output;
                })
                s.errors,
            i4,
          ))
          (ok (new, rest))
      → BeginsWith input rest new
  record-BeginsWith input rest new phase p v e topics i1 i2 i3 i4 s r1 r2 r3 found r4 r5 added =
      let same = ok-pair added in
      let (before, e1, phase_read) = exact.phase input phase i1 r1 in
      let (after, e5, topics_read) = exact.topics s.cursor.input topics i4 r5 in
      let (inside, errors, encoded, i, o, r) =
        decode_raw_event-Moved S canon back exact m Good indexed fuel e e.variant.fields _ s
          (events_good p v e found) r4 in
      let f : Frame S m = record {
        phase = phase;
        phase_bytes = before;
        pallet_index = p;
        variant_index = v;
        metadata = e;
        data_bytes = inside;
        topics = topics;
        topics_bytes = after;
        phase_read = phase_read;
        found = found;
        topics_read = topics_read;
      } in
      (
        f,
        errors,
        encoded,
        record_whole p v before inside after rest e1 (exact.read_byte i1 p i2 r2)
            (exact.read_byte i2 v i3 r3) i e5 (ap (λ x. x.1) same),
        sym (ap (λ x. x.0) same)
            ∙ (λ j. pushed S m fuel phase (record (raw_of f) { data_bytes = o j }) (r j)),
      )

  decode_event_record-BeginsWith :
      (input rest : Bytes) (new : List (Phase × Raw))
      → decode_event_record S m fuel input ≡ ok (new, rest)
      → BeginsWith input rest new
  unfolding decode_event_record
  decode_event_record-BeginsWith input rest new h =
      let ((phase, i1), r1, h1) = >>=-eq-ok (lift Error.codec (S.decode_phase input)) _ h in
      let ((p, i2), r2, h2) = >>=-eq-ok (lift Error.codec (S.input.read_byte i1)) _ h1 in
      let ((v, i3), r3, h3) = >>=-eq-ok (lift Error.codec (S.input.read_byte i2)) _ h2 in
      let (e, found, h4) = >>=-eq-ok (lift Error.metadata (find_event m p v)) _ h3 in
      let (s, r4, h5) = >>=-eq-ok (decode_raw_event S m fuel e e.variant.fields _) _ h4 in
      let ((topics, i4), r5, h6) =
        >>=-eq-ok (lift Error.codec (S.decode_topics s.cursor.input)) _ h5 in
      record-BeginsWith input rest new phase p v e topics i1 i2 i3 i4 s
        (lift-eq-ok Error.codec _ r1) (lift-eq-ok Error.codec _ r2) (lift-eq-ok Error.codec _ r3)
        (lift-eq-ok Error.metadata _ found) r4 (lift-eq-ok Error.codec _ r5) h6

  EncodedRecords-record :
      {n : ℕ} {bytes : Bytes} {entries : List (Phase × Raw)} (f : Frame S m)
      (errors : List RuntimeError)
      → EncodedEvent S m f.metadata f.metadata.variant.fields f.data_bytes errors
      → EncodedRecords S m n bytes entries
      → EncodedRecords S m
          (suc n)
          (record_bytes f ++ bytes)
          (pushed S m fuel f.phase (raw_of f) errors ++ entries)
  unfolding pushed
  EncodedRecords-record f [] encoded records = event f encoded records
  EncodedRecords-record f (error ∷ errors) encoded records = failure f error errors encoded records

  decode_event_records-EncodedRecords :
      (n : ℕ) (before result : List (Phase × Raw)) (input rest : Bytes)
      → decode_event_records S m fuel n before input ≡ ok (result, rest)
      → (bytes : Bytes) × (entries : List (Phase × Raw)) × EncodedRecords S m n bytes entries
        × (input ≡ bytes ++ rest)
        × (result ≡ before ++ entries)
  unfolding decode_event_records
  decode_event_records-EncodedRecords zero before result input rest h =
      let same = ok-pair h in
      ([], [], no_records, ap (λ x. x.1) same, sym (ap (λ x. x.0) same) ∙ sym (append-nil before))
  decode_event_records-EncodedRecords (suc n) before result input rest h =
      let ((new, left), first, later) = >>=-eq-ok (decode_event_record S m fuel input) _ h in
      let (f, errors, encoded, whole, added) =
        decode_event_record-BeginsWith input left new first in
      let (bytes, entries, records, others, same) =
        decode_event_records-EncodedRecords n (before ++ new) result left rest later in
      (
        record_bytes f ++ bytes,
        pushed S m fuel f.phase (raw_of f) errors ++ entries,
        EncodedRecords-record f errors encoded records,
        whole
            ∙ ap (λ r. record_bytes f ++ r) others
            ∙ sym (append_assoc (record_bytes f) bytes rest),
        same ∙ append_assoc before new entries ∙ ap (λ l. before ++ (l ++ entries)) added,
      )

-- If every codec is canonical and reads back what it has read, the readers of phases and topics go
-- by the bytes that they take, and `read_byte` gives the byte in front, then what a successful
-- `decode_events` takes from its input is a number and the encoding of so many event records, and
-- its result are the entries of these: the events with their names and the bytes of their fields,
-- and for the event of a failed extrinsic the errors that its fields give, where they give any. The
-- fields of the metadata's events are among types that are `Good`: these refer only to such types,
-- and the enums among them list their variants at their indices.
pub EncodedRecords-decode_events :
    (S : Scale) (m : Metadata) (Good : ℕ → Type 0) (fuel : ℕ) (input rest : Bytes)
    (entries : List (Phase × Raw))
    → IsCanonicalScale S
    → IsReadBackScale S
    → IsExactScale S
    → IsIndexed Good (resolve_type m)
    → HasGoodEvents m Good
    → decode_events S m fuel input ≡ ok (entries, rest)
    → (n : ℕ) × (bytes : Bytes) × EncodedRecords S m n bytes entries
      × (input ≡ S.compact_u32.encode n ++ (bytes ++ rest))
unfolding decode_events
EncodedRecords-decode_events S m Good fuel input rest entries canon back exact indexed events_good
      h =
    let ((n, left), read, later) = >>=-eq-ok (lift Error.codec (S.compact_u32.decode input)) _ h in
    let (bytes, reported, records, whole, same) =
      decode_event_records-EncodedRecords S canon back exact m Good indexed events_good fuel n []
        entries left rest later in
    (
      n,
      bytes,
      subst (EncodedRecords S m n bytes) (sym same) records,
      canon.compact_u32 input n left (lift-eq-ok Error.codec _ read)
          ∙ ap (λ r. S.compact_u32.encode n ++ r) whole,
    )
