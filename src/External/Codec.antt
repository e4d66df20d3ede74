-- ===== src/External/Codec.antt =====
-- `parity-scale-codec`: the traits `Encode`, `Decode` and `Input`. Of a `codec::Error` only its
-- description is kept.
pub mod Laws
use fusotao_rust_client.Prelude.{ℕ, String, ◌≡◌, ◌∷◌, ◌++◌, length}
use fusotao_rust_client.Prelude.Result.{Result, ok}
use fusotao_rust_client.Prelude.Text.{Bytes}

abbrev pub CodecError : Type 0
CodecError = String

-- A type that implements `Encode` and `Decode`. `decode` returns the value and the input that is
-- left.
pub record Codec {ℓ} (A : Type ℓ) : Type ℓ where
  pub encode : A → Bytes
  pub decode : Bytes → Result CodecError (A × Bytes)

-- SCALE reads back what it wrote, whatever follows, and leaves what follows.
abbrev pub RoundTrips {ℓ} : {A : Type ℓ} → Codec A → A → Type ℓ
RoundTrips c a = (rest : Bytes) → c.decode (c.encode a ++ rest) ≡ ok (a, rest)

-- SCALE decoding accepts one form of a value only: what was consumed is the value's encoding.
abbrev pub IsCanonical {ℓ} : {A : Type ℓ} → Codec A → Type ℓ
IsCanonical {A} c =
    (input : Bytes) (a : A) (rest : Bytes)
    → c.decode input ≡ ok (a, rest)
    → input ≡ c.encode a ++ rest

-- A value that SCALE has read is one that it reads back.
abbrev pub IsReadBack {ℓ} : {A : Type ℓ} → Codec A → Type ℓ
IsReadBack {A} c =
    (input : Bytes) (a : A) (rest : Bytes) → c.decode input ≡ ok (a, rest) → RoundTrips c a

-- What a `decode` takes from its input alone decides what it reads.
abbrev pub IsExact {ℓ} : {A : Type ℓ} → (Bytes → Result CodecError (A × Bytes)) → Type ℓ
IsExact {A} decode =
    (input : Bytes) (a : A) (rest : Bytes)
    → decode input ≡ ok (a, rest)
    → (bytes : Bytes) × (input ≡ bytes ++ rest)
      × ((others : Bytes) → decode (bytes ++ others) ≡ ok (a, others))

-- The `Input` implementation of `&[u8]`: `read` fills a buffer of the given length.
pub record Input : Type 0 where
  pub read_byte : Bytes → Result CodecError (ℕ × Bytes)
  pub read : ℕ → Bytes → Result CodecError (Bytes × Bytes)

pub record IsLawfulInput (i : Input) : Type 0 where
  pub read_byte-cons : (b : ℕ) (rest : Bytes) → i.read_byte (b ∷ rest) ≡ ok (b, rest)
  pub read-append : (buf rest : Bytes) → i.read (length buf) (buf ++ rest) ≡ ok (buf, rest)

-- `read_byte` gives the byte in front, and takes no more.
abbrev pub IsByteReader : Input → Type 0
IsByteReader i =
    (input : Bytes) (b : ℕ) (rest : Bytes) → i.read_byte input ≡ ok (b, rest) → input ≡ b ∷ rest
