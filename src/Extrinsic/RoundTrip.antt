-- ===== src/Extrinsic/RoundTrip.antt =====
-- The bytes of an extrinsic, and their decoding.
use fusotao_rust_client.Prelude.{
  ℕ, ◌-◌, ◌≡◌, refl, ap, Option, none, some, ◌∷◌, ◌++◌, append_assoc, nat_eq, leb, length, drop,
  replicate, length-append, length-replicate, drop-replicate_append, if◌then◌else◌, arith,
}
use fusotao_rust_client.Prelude.Result.{ok}
use fusotao_rust_client.Prelude.Text.{Bytes}
use fusotao_rust_client.External.Codec.{Codec, RoundTrips, IsLawfulInput}
use fusotao_rust_client.Extrinsic.{
  UncheckedExtrinsicV4, Format, encode_with_vec_prefix, encode_body, encode, decode,
}

-- Whatever the buffer reserved in front, the result is the prefix and the body.
encode_with_vec_prefix_lem :
    (units : Codec ℕ) (size : ℕ) (encoder : Bytes → Bytes) (body : Bytes)
    → ((v : Bytes) → encoder v ≡ v ++ body)
    → encode_with_vec_prefix units size encoder ≡ units.encode (length body) ++ body
unfolding encode_with_vec_prefix
encode_with_vec_prefix_lem units size encoder body appends =
    framed (if leb size 0x3f then 1 else if leb size 0x3fff then 2 else 4)
  where
    framed :
        (reserve : ℕ)
        → units.encode (length (encoder (replicate reserve 0)) - reserve)
            ++ drop reserve (encoder (replicate reserve 0))
          ≡ units.encode (length body) ++ body
    framed reserve =
        rw
          (
            appends (replicate reserve 0),
            length-append (replicate reserve 0) body,
            length-replicate {A = ℕ} reserve 0,
            drop-replicate_append {A = ℕ} reserve 0 body,
          )
          (ap (λ n. units.encode n ++ body) (omega arith))

module _ {Address Signature Extra Call : Type 0} (F : Format Address Signature Extra Call) where
  -- The version byte, the signature if there is one, and the call.
  abbrev pub body : UncheckedExtrinsicV4 Address Signature Extra Call → Bytes
  body x = elim x.signature [
    | some s ↦ 132 ∷ (F.signed.encode s ++ F.function.encode x.function)
    | none ↦ 4 ∷ F.function.encode x.function
  ]

  encode_body-eq-append :
      (signature : Option (Address × Signature × Extra)) (function : Call) (v : Bytes)
      → let x : UncheckedExtrinsicV4 Address Signature Extra Call = record {
        signature = signature;
        function = function;
      } in
        encode_body F x v ≡ v ++ body x
  unfolding encode_body
  encode_body-eq-append (some s) function v = simp append_assoc
  encode_body-eq-append none function v = simp append_assoc

  -- The encoding is the body with its length in front, as of a byte vector: no trace is left of the
  -- bytes that the encoder reserves.
  pub encode_layout :
      (x : UncheckedExtrinsicV4 Address Signature Extra Call)
      → encode F x ≡ F.units.encode (length (body x)) ++ body x
  unfolding encode
  encode_layout x =
      encode_with_vec_prefix_lem F.units F.size_of (encode_body F x) (body x)
        (encode_body-eq-append x.signature x.function)

  decode-body :
      (signature : Option (Address × Signature × Extra)) (function : Call) (rest : Bytes)
      → IsLawfulInput F.input
      → let x : UncheckedExtrinsicV4 Address Signature Extra Call = record {
        signature = signature;
        function = function;
      } in
        RoundTrips F.units (length (body x))
        → ((s : Address × Signature × Extra) → signature ≡ some s → RoundTrips F.signed s)
        → RoundTrips F.function function
        → decode F ((F.units.encode (length (body x)) ++ body x) ++ rest) ≡ ok (x, rest)
  unfolding decode
  decode-body (some s) function rest lawful units signed call =
      rw (append_assoc, units) (simp (lawful.read_byte-cons, append_assoc, signed s refl, call))
  decode-body none function rest lawful units signed call =
      rw (append_assoc, units) (simp (lawful.read_byte-cons, call))

  -- If the codecs read back the length of the extrinsic's body, its signed part where it has one,
  -- and its call, and `read_byte` gives the first byte of its input, then decoding the encoded
  -- extrinsic gives it back, signed or not, and leaves what follows.
  pub decode-encode :
      (x : UncheckedExtrinsicV4 Address Signature Extra Call) (rest : Bytes)
      → IsLawfulInput F.input
      → RoundTrips F.units (length (body x))
      → ((s : Address × Signature × Extra) → x.signature ≡ some s → RoundTrips F.signed s)
      → RoundTrips F.function x.function
      → decode F (encode F x ++ rest) ≡ ok (x, rest)
  decode-encode x rest lawful units signed function =
      rw (encode_layout x) (decode-body x.signature x.function rest lawful units signed function)
