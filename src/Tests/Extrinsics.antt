-- ===== src/Tests/Extrinsics.antt =====
-- A signed extrinsic whose parts are single bytes.
use fusotao_rust_client.Prelude.{
  ℕ, ◌%◌, subst, Option, ◌≡◌, refl, some, [], ◌∷◌, ◌++◌, Bool, true, arith, replicate,
}
use fusotao_rust_client.Prelude.Result.{Result, ok, err}
use fusotao_rust_client.Prelude.Text.{Bytes, text_eq}
use fusotao_rust_client.External.Codec.{Codec, CodecError, RoundTrips}
use fusotao_rust_client.Extrinsic.{SignedPayload, UncheckedExtrinsicV4, Format, encode, decode}
use fusotao_rust_client.Extrinsic.RoundTrip.{decode-encode}
use fusotao_rust_client.Extrinsic.Compose.{Signer}
use fusotao_rust_client.Tests.Samples.{
  byte, byte-RoundTrips, decode_byte, slice, slice-IsLawfulInput, end_of_input,
}

-- The last part is a byte: a larger number is not read back.
abbrev decode_signed : Bytes → Result CodecError ((ℕ × ℕ × ℕ) × Bytes)
decode_signed (a ∷ s ∷ e ∷ rest) = ok ((a, s, e), rest)
decode_signed _ = err end_of_input

abbrev signed : Codec (ℕ × ℕ × ℕ)
signed = record { encode = λ (a, s, e). a ∷ s ∷ (e % 256) ∷ []; decode = decode_signed }

abbrev format : Format ℕ ℕ ℕ ℕ
format = record { signed = signed; function = byte; units = byte; input = slice; size_of = 100 }

abbrev extrinsic : UncheckedExtrinsicV4 ℕ ℕ ℕ ℕ
extrinsic = record { signature = some (11, 22, 33); function = 44 }

signed-RoundTrips :
    (s : ℕ × ℕ × ℕ)
    → ◌≡◌ {A = Option (ℕ × ℕ × ℕ)} (some (11, 22, 33)) (some s)
    → RoundTrips signed s
signed-RoundTrips s h =
    let same : ◌≡◌ {A = ℕ × ℕ × ℕ} (11, 22, 33) s = cc in
    subst (RoundTrips signed) same (λ rest. refl)

decode-encode_example : decode format (encode format extrinsic ++ (7 ∷ [])) ≡ ok (extrinsic, 7 ∷ [])
decode-encode_example =
    decode-encode format extrinsic (7 ∷ []) slice-IsLawfulInput (byte-RoundTrips 5)
      signed-RoundTrips (byte-RoundTrips 44)

-- A payload of 300 bytes.
abbrev long : Codec ℕ
long = record { encode = λ n. replicate 300 n; decode = decode_byte }

-- A signature is the signed bytes.
abbrev signer : Signer ℕ Bytes
signer = record { address = 11; sign = λ bytes. bytes }

abbrev pub verify : ℕ → Bytes → Bytes → Bool
verify _ bytes signature = text_eq bytes signature

pub text_eq_refl : (t : Bytes) → text_eq t t ≡ true
text_eq_refl [] = refl
text_eq_refl (c ∷ t) = ground (arith, text_eq_refl t)

abbrev payload : Codec (SignedPayload ℕ ℕ ℕ)
payload = record {
  encode = λ (call, extra, additional).
      call ∷ extra.era ∷ extra.nonce ∷ extra.tip ∷ additional.spec_version
      ∷ additional.transaction_version ∷ additional.genesis_hash ∷ additional.current_hash ∷ [];
  decode = λ _. err end_of_input;
}
