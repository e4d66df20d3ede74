-- ===== src/Tests/Samples.antt =====
-- Small instances of the crates: a codec of one byte per number, hashes that keep the first bytes,
-- and hex digits.
use fusotao_rust_client.Prelude.{
  ℕ, zero, suc, ◌<◌, Bool-cases, inl, inr, arith, ◌+◌, ◌-◌, ◌*◌, ◌/◌, ◌%◌, ◌≡◌, refl, ap, [], ◌∷◌,
  ◌++◌, length, ltb, replicate, if◌then◌else◌, nat_eq,
}
use fusotao_rust_client.Prelude.Result.{Result, ok, err, ◌>>=◌}
use fusotao_rust_client.Prelude.Text.{Bytes, Text}
use fusotao_rust_client.External.Codec.{
  Codec, CodecError, RoundTrips, IsCanonical, Input, IsLawfulInput,
}
use fusotao_rust_client.External.Hashing.{Hashing, HasDigestSizes}
use fusotao_rust_client.External.Hex.{
  Hex, FromHexError, odd_length, IsDigit, AreDigits, IsLawfulHex,
}

abbrev pub end_of_input : CodecError
end_of_input = "Not enough data to fill buffer"

abbrev pub decode_byte : Bytes → Result CodecError (ℕ × Bytes)
decode_byte [] = err end_of_input
decode_byte (n ∷ rest) = ok (n, rest)

abbrev pub byte : Codec ℕ
byte = record { encode = λ n. n ∷ []; decode = decode_byte }

pub byte-RoundTrips : (n : ℕ) → RoundTrips byte n
byte-RoundTrips n rest = refl

pub byte-IsCanonical : IsCanonical byte
byte-IsCanonical [] n rest h = cc
byte-IsCanonical (m ∷ input) n rest h =
    let pick : Result CodecError (ℕ × Bytes) → ℕ × Bytes =
      λ r. elim r [ ok x ↦ x | err _ ↦ (m, input) ] in
    ap (λ (x : ℕ × Bytes). x.0 ∷ x.1) (ap pick h)

-- A type of which no value is decoded.
abbrev pub refused {ℓ} : {A : Type ℓ} → Codec A
refused = record { encode = λ _. []; decode = λ _. err "not supported" }

pub refused-IsCanonical {ℓ} : {A : Type ℓ} → IsCanonical (refused {A = A})
refused-IsCanonical input a rest h = cc

abbrev pub take_bytes : ℕ → Bytes → Result CodecError (Bytes × Bytes)
take_bytes zero input = ok ([], input)
take_bytes (suc n) [] = err end_of_input
take_bytes (suc n) (b ∷ input) = do (buf, rest) ← take_bytes n input; ok (b ∷ buf, rest)

abbrev pub slice : Input
slice = record { read_byte = decode_byte; read = take_bytes }

take_bytes-append : (buf rest : Bytes) → take_bytes (length buf) (buf ++ rest) ≡ ok (buf, rest)
take_bytes-append [] rest = refl
take_bytes-append (b ∷ buf) rest = rw (take_bytes-append buf rest) refl

pub slice-IsLawfulInput : IsLawfulInput slice
slice-IsLawfulInput = record { read_byte-cons = λ b rest. refl; read-append = take_bytes-append }

-- The first bytes, filled up with zeros.
abbrev pub digest : ℕ → Bytes → Bytes
digest zero _ = []
digest (suc n) [] = 0 ∷ digest n []
digest (suc n) (b ∷ bytes) = b ∷ digest n bytes

length-digest : (n : ℕ) (bytes : Bytes) → length (digest n bytes) ≡ n
length-digest zero bytes = refl
length-digest (suc n) [] = ap suc (length-digest n [])
length-digest (suc n) (b ∷ bytes) = ap suc (length-digest n bytes)

abbrev pub hashes : Hashing
hashes = record {
  twox_64 = digest 8;
  twox_128 = digest 16;
  twox_256 = digest 32;
  blake2_128 = digest 16;
  blake2_256 = digest 32;
}

pub hashes-HasDigestSizes : HasDigestSizes hashes
hashes-HasDigestSizes = record {
  twox_64_size = length-digest 8;
  twox_128_size = length-digest 16;
  blake2_128_size = length-digest 16;
  blake2_256_size = length-digest 32;
}

abbrev digit : ℕ → ℕ
digit n = if ltb n 10 then b'0' + n else (b'a' - 10) + n

abbrev digit_value : ℕ → ℕ
digit_value c = if ltb c b'a' then c - b'0' else c - (b'a' - 10)

abbrev hex_encode : Bytes → Text
hex_encode [] = []
hex_encode (b ∷ bytes) = digit (b / 16) ∷ digit (b % 16) ∷ hex_encode bytes

abbrev hex_decode : Text → Result FromHexError Bytes
hex_decode [] = ok []
hex_decode (c ∷ []) = err odd_length
hex_decode (c ∷ d ∷ s) = do bytes ← hex_decode s; ok ((digit_value c * 16 + digit_value d) ∷ bytes)

abbrev pub hex : Hex
hex = record { encode = hex_encode; decode = hex_decode }

digit-IsDigit : (n : ℕ) → n < 16 → IsDigit (digit n)
digit-IsDigit n small = elim (Bool-cases (ltb n 10)) [
  | inl below ↦ rw (below) (inl (ground arith))
  | inr above ↦ rw (above) (inr (ground arith))
]

digit_value-digit : (n : ℕ) → n < 16 → digit_value (digit n) ≡ n
digit_value-digit n small = ground arith

abbrev pub AreBytes : Bytes → Type 0
AreBytes [] = Unit
AreBytes (b ∷ bytes) = (b < 256) × AreBytes bytes

hex_encode-AreDigits : (bytes : Bytes) → AreBytes bytes → AreDigits (hex_encode bytes)
hex_encode-AreDigits [] small = tt
hex_encode-AreDigits (b ∷ bytes) (small, others) = (
  digit-IsDigit (b / 16) (omega arith),
  (digit-IsDigit (b % 16) (omega arith), hex_encode-AreDigits bytes others),
)

hex_decode-hex_encode : (bytes : Bytes) → AreBytes bytes → hex_decode (hex_encode bytes) ≡ ok bytes
hex_decode-hex_encode [] small = refl
hex_decode-hex_encode (b ∷ bytes) (small, others) =
    let same : (b / 16) * 16 + b % 16 ≡ b = omega arith in
    rw (
      hex_decode-hex_encode bytes others,
      digit_value-digit (b / 16) (omega arith),
      digit_value-digit (b % 16) (omega arith),
      same,
    )

pub hex-IsLawfulHex : (bytes : Bytes) → AreBytes bytes → IsLawfulHex hex bytes
hex-IsLawfulHex bytes small = record {
  decode-encode = hex_decode-hex_encode bytes small;
  encode_digits = hex_encode-AreDigits bytes small;
}

pub digest-AreBytes : (n : ℕ) (bytes : Bytes) → AreBytes bytes → AreBytes (digest n bytes)
digest-AreBytes zero bytes small = tt
digest-AreBytes (suc n) [] small = (omega arith, digest-AreBytes n [] tt)
digest-AreBytes (suc n) (b ∷ bytes) (b_small, small) = (b_small, digest-AreBytes n bytes small)

pub append-AreBytes : (xs ys : Bytes) → AreBytes xs → AreBytes ys → AreBytes (xs ++ ys)
append-AreBytes [] ys small more = more
append-AreBytes (x ∷ xs) ys (x_small, small) more = (x_small, append-AreBytes xs ys small more)

pub replicate-AreBytes : (n b : ℕ) → b < 256 → AreBytes (replicate n b)
replicate-AreBytes zero b small = tt
replicate-AreBytes (suc n) b small = (small, replicate-AreBytes n b small)
