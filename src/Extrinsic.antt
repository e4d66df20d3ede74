-- ===== src/Extrinsic.antt =====
-- primitives/src/extrinsics.rs: the version 4 extrinsic, its payload and its bytes.
pub mod RoundTrip
pub mod Version
pub mod Compose
use Prim.Native.Nat.{bit_and, bit_or}
use fusotao_rust_client.Prelude.{
  ℕ, ◌-◌, Bool, true, false, not, Option, none, some, [], ◌∷◌, ◌++◌, ◌==◌, nat_eq, leb, ltb, length,
  drop, replicate, if◌then◌else◌,
}
use fusotao_rust_client.Prelude.Result.{Result, ok, err, ◌>>=◌}
use fusotao_rust_client.Prelude.Text.{Bytes, Text, codes}
use fusotao_rust_client.External.Codec.{Codec, CodecError, Input}
use fusotao_rust_client.External.Hashing.{Hashing}
use fusotao_rust_client.External.Hex.{Hex}

-- The era is `sp_runtime::generic::Era`.
pub record GenericExtra (Era : Type 0) : Type 0 where
  pub era : Era
  pub nonce : ℕ
  pub tip : ℕ

-- `GenericExtra::new`
abbrev pub new_extra : {Era : Type 0} → Era → ℕ → GenericExtra Era
new_extra era nonce = record { era = era; nonce = nonce; tip = 0 }

-- `GenericExtra::default`, where `immortal` is `Era::Immortal`.
abbrev pub default_extra : {Era : Type 0} → Era → GenericExtra Era
default_extra immortal = new_extra immortal 0

-- The three fields of type `()` are left out.
pub record AdditionalSigned (Hash : Type 0) : Type 0 where
  pub spec_version : ℕ
  pub transaction_version : ℕ
  pub genesis_hash : Hash
  pub current_hash : Hash

abbrev pub SignedPayload : Type 0 → Type 0 → Type 0 → Type 0
SignedPayload Call Era Hash = Call × GenericExtra Era × AdditionalSigned Hash

-- `SignedPayload::from_raw`
abbrev pub from_raw :
    {Call Era Hash : Type 0}
    → Call
    → GenericExtra Era
    → AdditionalSigned Hash
    → SignedPayload Call Era Hash
from_raw call extra additional_signed = (call, extra, additional_signed)

-- `SignedPayload::using_encoded`: a payload of more than 256 bytes is hashed.
unfoldable pub using_encoded {ℓ} :
    {P : Type 0} {R : Type ℓ} → Hashing → Codec P → P → (Bytes → R) → R
using_encoded h c payload f =
    let bytes = c.encode payload in
    if ltb 256 (length bytes) then f (h.blake2_256 bytes) else f bytes

pub record UncheckedExtrinsicV4 (Address Signature Extra Call : Type 0) : Type 0 where
  pub signature : Option (Address × Signature × Extra)
  pub function : Call

module _ {Address Signature Extra Call : Type 0} where
  -- `UncheckedExtrinsicV4::new_signed`
  abbrev pub new_signed :
      Call → Address → Signature → Extra → UncheckedExtrinsicV4 Address Signature Extra Call
  new_signed function signed signature extra = record {
    signature = some (signed, signature, extra);
    function = function;
  }

abbrev pub v4 : ℕ
v4 = 4

-- `encode_with_vec_prefix`, where `size` is the size of the type in memory and `units` is the codec
-- of `Vec<()>`, given by its length.
unfoldable pub encode_with_vec_prefix : Codec ℕ → ℕ → (Bytes → Bytes) → Bytes
encode_with_vec_prefix units size encoder =
    let reserve : ℕ = if leb size 0x3f then 1 else if leb size 0x3fff then 2 else 4 in
    let v = encoder (replicate reserve 0) in units.encode (length v - reserve) ++ drop reserve v

-- The codecs of the parts of an extrinsic.
pub record Format (Address Signature Extra Call : Type 0) : Type 0 where
  pub signed : Codec (Address × Signature × Extra)
  pub function : Codec Call
  pub units : Codec ℕ
  pub input : Input
  pub size_of : ℕ

module _ {Address Signature Extra Call : Type 0} (F : Format Address Signature Extra Call) where
  -- What `encode` appends to its buffer.
  unfoldable pub encode_body : UncheckedExtrinsicV4 Address Signature Extra Call → Bytes → Bytes
  encode_body x v = elim x.signature [
    | some s ↦ ((v ++ bit_or v4 0x80 ∷ []) ++ F.signed.encode s) ++ F.function.encode x.function
    | none ↦ (v ++ bit_and v4 0x7f ∷ []) ++ F.function.encode x.function
  ]

  unfoldable pub encode : UncheckedExtrinsicV4 Address Signature Extra Call → Bytes
  unfolding encode_body encode_with_vec_prefix
  encode x = encode_with_vec_prefix F.units F.size_of (encode_body x)

  unfoldable pub decode_signature :
      Bool → Bytes → Result CodecError (Option (Address × Signature × Extra) × Bytes)
  decode_signature true input = do (s, rest) ← F.signed.decode input; ok (some s, rest)
  decode_signature false input = ok (none, input)

  unfoldable pub decode :
      Bytes → Result CodecError (UncheckedExtrinsicV4 Address Signature Extra Call × Bytes)
  unfolding decode_signature
  decode input = do
    (_, input1) ← F.units.decode input
    (version, input2) ← F.input.read_byte input1
    if not (bit_and version 0x7f == v4) then err "Invalid transaction version" else do
      (signature, input3) ← decode_signature (not (bit_and version 0x80 == 0)) input2
      (function, rest) ← F.function.decode input3
      ok (record { signature = signature; function = function }, rest)

  -- `hex_encode`
  unfoldable pub hex_encode : Hex → UncheckedExtrinsicV4 Address Signature Extra Call → Text
  unfolding encode
  hex_encode hex x = codes "0x" ++ hex.encode (encode x)
