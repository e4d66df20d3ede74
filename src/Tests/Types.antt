-- ===== src/Tests/Types.antt =====
-- Decoding by a registry with a list of pairs and a compact type.
use fusotao_rust_client.Decoder.Types.Variants.{decode_type_fieldless_iff}
use fusotao_rust_client.External.FrameMetadata.{Variant, variant}
use fusotao_rust_client.Prelude.{
  Has, Has-cons_cases, Has-nil, inl, inr, ap, ◌<◌, ◌↔◌, ℕ, zero, suc, ◌≡◌, ◌≢◌, refl, subst, Option,
  none, some, [], ◌∷◌, ◌++◌, arith,
}
use fusotao_rust_client.Prelude.Result.{Result}
use fusotao_rust_client.Prelude.Outcome.{ok, err, out_of_fuel}
use fusotao_rust_client.Prelude.Text.{Bytes}
use fusotao_rust_client.External.Codec.{CodecError}
use fusotao_rust_client.External.FrameMetadata.{
  RegistryType, Registry, TypeDef, sequence, composite, primitive, compact, TypeDefPrimitive,
}
use fusotao_rust_client.Error.{Error, invalid_compact_type}
use fusotao_rust_client.Decoder.Scale.{Phase, Scale, IsCanonicalScale}
use fusotao_rust_client.Decoder.Types.{Cursor, decode_type}
use fusotao_rust_client.Decoder.Types.Copies.{decode_type_copies, decode_type_compact}
use fusotao_rust_client.Decoder.Types.Encoded.{Encoded, no_fields, field, no_items, item}
use fusotao_rust_client.Decoder.Types.Fuel.{IsRanked, RefersBelow, decode_type_enough_fuel}
use fusotao_rust_client.Tests.Samples.{
  decode_byte, byte, byte-RoundTrips, byte-IsCanonical, refused, refused-IsCanonical, slice,
  end_of_input,
}

abbrev pub decode_phase : Bytes → Result CodecError (Phase × Bytes)
decode_phase [] = Result.err end_of_input
decode_phase (_ ∷ rest) = Result.ok (Phase.initialization, rest)

-- Only the types that are one byte are read.
abbrev pub scale : Scale
scale = record {
  Signed = ℕ;
  Hashes = ℕ;
  bool = refused;
  str = refused;
  u8 = byte;
  u16 = refused;
  u32 = refused;
  u64 = refused;
  u128 = refused;
  i8 = byte;
  i16 = refused;
  i32 = refused;
  i64 = refused;
  i128 = refused;
  compact_u8 = byte;
  compact_u16 = byte;
  compact_u32 = byte;
  compact_u64 = byte;
  compact_u128 = byte;
  dispatch_error = refused;
  decode_phase = decode_phase;
  decode_topics = decode_byte;
  input = slice;
}

pub scale-IsCanonicalScale : IsCanonicalScale scale
scale-IsCanonicalScale = record {
  bool = refused-IsCanonical;
  str = refused-IsCanonical;
  u8 = byte-IsCanonical;
  u16 = refused-IsCanonical;
  u32 = refused-IsCanonical;
  u64 = refused-IsCanonical;
  u128 = refused-IsCanonical;
  i8 = byte-IsCanonical;
  i16 = refused-IsCanonical;
  i32 = refused-IsCanonical;
  i64 = refused-IsCanonical;
  i128 = refused-IsCanonical;
  compact_u8 = byte-IsCanonical;
  compact_u16 = byte-IsCanonical;
  compact_u32 = byte-IsCanonical;
  compact_u64 = byte-IsCanonical;
  compact_u128 = byte-IsCanonical;
}

abbrev def_of : TypeDef → Option RegistryType
def_of def = some (record { ident = none; type_def = def })

abbrev registry : Registry
registry zero = def_of (primitive TypeDefPrimitive.u8)
registry (suc zero) = def_of (composite (0 ∷ 0 ∷ []))
registry (suc (suc zero)) = def_of (sequence 1)
registry (suc (suc (suc zero))) = def_of (compact 0)
registry _ = none

refers_below :
    (def : TypeDef) (ty : RegistryType) (n : ℕ)
    → def_of def ≡ some ty
    → RefersBelow (λ id. id) n def
    → RefersBelow (λ id. id) n ty.type_def
refers_below def ty n h below =
    let whole : RegistryType = record { ident = none; type_def = def } in
    let same : whole ≡ ty = cc in
    subst (λ (t : RegistryType). RefersBelow (λ id. id) n t.type_def) same below

registry-IsRanked : IsRanked registry (λ id. id)
registry-IsRanked zero ty h = refers_below (primitive TypeDefPrimitive.u8) ty 0 h tt
registry-IsRanked (suc zero) ty h =
    refers_below (composite (0 ∷ 0 ∷ [])) ty 1 h (omega arith, (omega arith, tt))
registry-IsRanked (suc (suc zero)) ty h = refers_below (sequence 1) ty 2 h (omega arith)
registry-IsRanked (suc (suc (suc zero))) ty h = refers_below (compact 0) ty 3 h tt
registry-IsRanked (suc (suc (suc (suc id)))) ty h = cc

abbrev start : Cursor
start = record { input = 2 ∷ 10 ∷ 11 ∷ 12 ∷ 13 ∷ 99 ∷ []; output = [] }

abbrev end : Cursor
end = record { input = 99 ∷ []; output = 2 ∷ 10 ∷ 11 ∷ 12 ∷ 13 ∷ [] }

decoded : decode_type scale registry 3 2 start ≡ ok end
unfolding decode_type
decoded = refl

decode_type_copies_example :
    (bytes : Bytes) × (start.input ≡ bytes ++ end.input) × (end.output ≡ start.output ++ bytes)
decode_type_copies_example =
    decode_type_copies scale registry 3 2 start end scale-IsCanonicalScale decoded

decode_type_enough_fuel_example :
    (decode_type scale registry 3 2 start ≢ out_of_fuel)
    × (decode_type scale registry 3 2 start ≡ decode_type scale registry 8 2 start)
decode_type_enough_fuel_example =
    decode_type_enough_fuel scale registry (λ id. id) registry-IsRanked 3 8 2 start (omega arith)
      (omega arith)

decode_type_compact_example :
    decode_type scale registry 1 3 start
    ≡ err (
        Error.decoding
          (invalid_compact_type "Compact type must be a primitive or a composite type"))
decode_type_compact_example = decode_type_compact scale registry 0 3 0 start refl refl

abbrev plain_type : TypeDef → RegistryType
plain_type def = record { ident = none; type_def = def }

one : (n : ℕ) → Encoded scale registry 0 (n ∷ [])
one n =
    Encoded.primitive (plain_type (primitive TypeDefPrimitive.u8)) TypeDefPrimitive.u8 refl refl
      (n, byte-RoundTrips n, refl)

pair : (m n : ℕ) → Encoded scale registry 1 (m ∷ n ∷ [])
pair m n = Encoded.composite (plain_type (composite (0 ∷ 0 ∷ []))) (0 ∷ 0 ∷ []) refl refl (
    field {bytes = m ∷ []} {others = n ∷ []} (one m)
      (field {bytes = n ∷ []} {others = []} (one n) no_fields))

pairs : Encoded scale registry 2 (2 ∷ 10 ∷ 11 ∷ 12 ∷ 13 ∷ [])
pairs =
    Encoded.sequence (plain_type (sequence 1)) 1 2 (10 ∷ 11 ∷ 12 ∷ 13 ∷ []) refl refl
      (byte-RoundTrips 2)
      (item {bytes = 10 ∷ 11 ∷ []} {others = 12 ∷ 13 ∷ []} (pair 10 11)
        (item {bytes = 12 ∷ 13 ∷ []} {others = []} (pair 12 13) no_items))
      refl

-- An enum whose only variant has an index of its own, as the attribute of a codec can give it.
abbrev indexed : Variant
indexed = record { name = "Set"; index = 7; fields = []; docs = [] }

abbrev enum : Registry
enum zero = def_of (variant (indexed ∷ []))
enum _ = none

fieldless : (v : Variant) → Has v (indexed ∷ []) → v.fields ≡ []
fieldless v has = elim (Has-cons_cases v indexed [] has) [
  | inl same ↦ ap (λ (w : Variant). w.fields) same
  | inr more ↦ absurd (Has-nil v more)
]

decode_type_fieldless_iff_example :
    (decode_type scale enum 1 0 (record { input = 7 ∷ []; output = [] })
      ≡ ok (record { input = []; output = 7 ∷ [] }))
    ↔ (7 < 1)
decode_type_fieldless_iff_example =
    decode_type_fieldless_iff scale enum 0 0 7 [] [] (indexed ∷ []) refl refl fieldless
      (byte-RoundTrips 7)
