-- ===== src/Decoder/Types/Accepts.antt =====
-- The bytes that a step of `decode_type` accepts.
use mathlib.Core.Path.{subst}
use fusotao_rust_client.Prelude.{◌≡◌, refl, sym, ◌∙◌, ap, [], ◌++◌, append_assoc, append-nil}
use fusotao_rust_client.Prelude.Outcome.{Outcome, ok, ◌>>=◌, lift}
use fusotao_rust_client.Prelude.Result.{Result}
use fusotao_rust_client.Prelude.Text.{Bytes}
use fusotao_rust_client.External.Codec.{Codec, CodecError, IsCanonical, IsReadBack, RoundTrips}
use fusotao_rust_client.Error.{Error}
use fusotao_rust_client.Decoder.Types.{Cursor, Step, decode_raw}
use fusotao_rust_client.Decoder.Types.Encoded.{Writes}

-- Bytes with a property have moved from the front of the input to the end of the output.
abbrev pub Moved : (Bytes → Type 0) → Cursor → Cursor → Type 0
Moved P s t =
    (bytes : Bytes) × P bytes × (s.input ≡ bytes ++ t.input) × (t.output ≡ s.output ++ bytes)

-- What the step accepts has the property.
abbrev pub Accepts : (Bytes → Type 0) → Step → Type 0
Accepts P f = (s t : Cursor) → f s ≡ ok t → Moved P s t

pub Moved-ok :
    (P : Bytes → Type 0) (s u t : Cursor)
    → Moved P s u
    → ◌≡◌ {A = Outcome Error Cursor} (ok u) (ok t)
    → Moved P s t
Moved-ok P s u t m e = subst (Moved P s) (cc) m

pub Moved-nil : (P : Bytes → Type 0) (s : Cursor) → P [] → Moved P s s
Moved-nil P s p = ([], p, refl, sym (append-nil s.output))

pub Moved-append :
    {P Q R : Bytes → Type 0} (s t u : Cursor)
    → ((xs ys : Bytes) → P xs → Q ys → R (xs ++ ys))
    → Moved P s t
    → Moved Q t u
    → Moved R s u
Moved-append s t u join (xs, p, i, o) (ys, q, i', o') =
    (xs ++ ys, join xs ys p q, rw (i, i', append_assoc), rw (o', o, append_assoc))

pub Moved-map :
    {P Q : Bytes → Type 0} (s t : Cursor)
    → ((bytes : Bytes) → P bytes → Q bytes)
    → Moved P s t
    → Moved Q s t
Moved-map s t f (bytes, p, i, o) = (bytes, f bytes p, i, o)

-- The encoding of a value, and bytes that depend on it.
module _ {T : Type 0} (c : Codec T) (canon : IsCanonical c) (back : IsReadBack c) where
  abbrev pub Headed : (T → Bytes → Type 0) → Bytes → Type 0
  Headed P bytes =
      (a : T) × RoundTrips c a × (others : Bytes) × P a others × (bytes ≡ c.encode a ++ others)

  pub read_and_go-Accepts :
      (P : T → Bytes → Type 0) (k : T → Step)
      → ((a : T) → Accepts (P a) (k a))
      → Accepts (Headed P) (λ s. do
        (a, rest) ← lift Error.codec (c.decode s.input)
        k a (record { input = rest; output = s.output ++ c.encode a }))
  read_and_go-Accepts P k keeps s t h = go (c.decode s.input) refl h
    where
      go :
          (r : Result CodecError (T × Bytes))
          → c.decode s.input ≡ r
          → (lift Error.codec r >>= λ (a, rest).
              k a (record { input = rest; output = s.output ++ c.encode a }))
            ≡ ok t
          → Moved (Headed P) s t
      go (Result.err e) q h = cc
      go (Result.ok (a, rest)) q h =
          let u : Cursor = record { input = rest; output = s.output ++ c.encode a } in
          let (others, p, i, o) = keeps a u t h in
          (
            c.encode a ++ others,
            (a, back s.input a rest q, others, p, refl),
            canon s.input a rest q
                ∙ ap (λ r. c.encode a ++ r) i
                ∙ sym (append_assoc (c.encode a) others t.input),
            o ∙ append_assoc s.output (c.encode a) others,
          )

  pub decode_raw-Accepts : Accepts (Writes c) (decode_raw c)
  unfolding decode_raw
  decode_raw-Accepts s t h =
      Moved-map s t
        (λ bytes (a, rereads, others, none_left, whole).
          (a, rereads, whole ∙ ap (λ r. c.encode a ++ r) none_left ∙ append-nil (c.encode a)))
        (read_and_go-Accepts (λ a others. others ≡ []) (λ a. ok)
          (λ a u v same.
            Moved-ok (λ others. others ≡ []) u u v (Moved-nil (λ others. others ≡ []) u refl) same)
          s t h)
