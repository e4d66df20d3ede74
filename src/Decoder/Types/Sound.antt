-- ===== src/Decoder/Types/Sound.antt =====
-- What `decode_type` accepts is the encoding of a value.
use mathlib.Core.Path.{subst}
use fusotao_rust_client.Prelude.{
  ℕ, zero, suc, ◌≡◌, refl, sym, ◌∙◌, some, List, [], ◌∷◌, ◌++◌, get_elem?, Option-cases, inl, inr,
}
use fusotao_rust_client.Prelude.Outcome.{ok, >>=-eq-ok}
use fusotao_rust_client.Prelude.Text.{Bytes}
use fusotao_rust_client.External.Codec.{RoundTrips}
use fusotao_rust_client.External.FrameMetadata.{
  Variant, RegistryType, Registry, TypeDef, TypeDefPrimitive, composite, variant, sequence, array,
  tuple, primitive, compact, bit_sequence,
}
use fusotao_rust_client.Decoder.Scale.{Scale, IsCanonicalScale, IsReadBackScale}
use fusotao_rust_client.Decoder.Types.{
  Cursor, Step, each, times, decode_primitive, decode_variant_at, decode_variant, decode_sequence,
  decode_def, decode_type,
}
use fusotao_rust_client.Decoder.Types.Accepts.{
  Accepts, Moved-ok, Moved-nil, Moved-append, Moved-map, read_and_go-Accepts, decode_raw-Accepts,
}
use fusotao_rust_client.Decoder.Types.Copies.{decode_compact-err}
use fusotao_rust_client.Decoder.Types.Encoded.{
  WritesPrimitive, Encoded, EncodedFields, EncodedElements, no_fields, field, no_items, item,
}

-- The enums among some types list their variants at their indices.
module _ (Good : ℕ → Type 0) where
  abbrev pub AreGood : List ℕ → Type 0
  AreGood [] = Unit
  AreGood (id ∷ ids) = Good id × AreGood ids

  -- An enum has each variant at the place of its index, and what a type refers to is good.
  abbrev pub IsPlaced : TypeDef → Type 0
  IsPlaced (composite fields) = AreGood fields
  IsPlaced (variant variants) =
      (n : ℕ) (v : Variant) → get_elem? variants n ≡ some v → (v.index ≡ n) × AreGood v.fields
  IsPlaced (sequence element) = Good element
  IsPlaced (array len element) = Good element
  IsPlaced (tuple fields) = AreGood fields
  IsPlaced _ = Unit

  abbrev pub IsIndexed : Registry → Type 0
  IsIndexed types =
      (id : ℕ) (ty : RegistryType) → Good id → types id ≡ some ty → IsPlaced ty.type_def

module _ (S : Scale) (canon : IsCanonicalScale S) (back : IsReadBackScale S) (types : Registry)
    (Good : ℕ → Type 0) where
  decode_primitive-Accepts :
      (p : TypeDefPrimitive) → Accepts (WritesPrimitive S p) (decode_primitive S types p)
  unfolding decode_primitive
  decode_primitive-Accepts TypeDefPrimitive.bool = decode_raw-Accepts S.bool canon.bool back.bool
  decode_primitive-Accepts TypeDefPrimitive.char = λ s t h. cc
  decode_primitive-Accepts TypeDefPrimitive.str = decode_raw-Accepts S.str canon.str back.str
  decode_primitive-Accepts TypeDefPrimitive.u8 = decode_raw-Accepts S.u8 canon.u8 back.u8
  decode_primitive-Accepts TypeDefPrimitive.u16 = decode_raw-Accepts S.u16 canon.u16 back.u16
  decode_primitive-Accepts TypeDefPrimitive.u32 = decode_raw-Accepts S.u32 canon.u32 back.u32
  decode_primitive-Accepts TypeDefPrimitive.u64 = decode_raw-Accepts S.u64 canon.u64 back.u64
  decode_primitive-Accepts TypeDefPrimitive.u128 = decode_raw-Accepts S.u128 canon.u128 back.u128
  decode_primitive-Accepts TypeDefPrimitive.u256 = λ s t h. cc
  decode_primitive-Accepts TypeDefPrimitive.i8 = decode_raw-Accepts S.i8 canon.i8 back.i8
  decode_primitive-Accepts TypeDefPrimitive.i16 = decode_raw-Accepts S.i16 canon.i16 back.i16
  decode_primitive-Accepts TypeDefPrimitive.i32 = decode_raw-Accepts S.i32 canon.i32 back.i32
  decode_primitive-Accepts TypeDefPrimitive.i64 = decode_raw-Accepts S.i64 canon.i64 back.i64
  decode_primitive-Accepts TypeDefPrimitive.i128 = decode_raw-Accepts S.i128 canon.i128 back.i128
  decode_primitive-Accepts TypeDefPrimitive.i256 = λ s t h. cc

  module _ (decode : ℕ → Step)
      (keeps : (id : ℕ) → Good id → Accepts (Encoded S types id) (decode id)) where
    each-Accepts :
        (fields : List ℕ)
        → AreGood Good fields
        → Accepts (EncodedFields S types fields) (each decode fields)
    unfolding each
    each-Accepts [] good s t h =
        Moved-ok (EncodedFields S types []) s s t (Moved-nil (EncodedFields S types []) s no_fields)
          h
    each-Accepts (id ∷ fields) (g, good) s t h =
        let (u, p, q) = >>=-eq-ok (decode id s) (each decode fields) h in
        Moved-append s u t (λ xs ys one others. field {bytes = xs} {others = ys} one others)
          (keeps id g s u p) (each-Accepts fields good u t q)

    times-Accepts :
        (element len : ℕ)
        → Good element
        → Accepts (EncodedElements S types element len) (times (decode element) len)
    unfolding times
    times-Accepts element zero good s t h =
        Moved-ok (EncodedElements S types element zero) s s t
          (Moved-nil (EncodedElements S types element zero) s no_items) h
    times-Accepts element (suc len) good s t h =
        let (u, p, q) = >>=-eq-ok (decode element s) (times (decode element) len) h in
        Moved-append s u t (λ xs ys one others. item {bytes = xs} {others = ys} one others)
          (keeps element good s u p) (times-Accepts element len good u t q)

    -- The variant at a place, and the bytes of its fields.
    abbrev VariantAt : List Variant → ℕ → Bytes → Type 0
    VariantAt variants n bytes =
        (v : Variant) × (get_elem? variants n ≡ some v)
        × (v.index ≡ n)
        × EncodedFields S types v.fields bytes

    decode_variant_at-Accepts :
        (variants : List Variant) (n : ℕ)
        → IsPlaced Good (variant variants)
        → Accepts (VariantAt variants n) (decode_variant_at S types decode variants n)
    unfolding decode_variant_at
    decode_variant_at-Accepts variants n placed s t h = elim (Option-cases (get_elem? variants n)) [
      | inl absent ↦ cc (rw (absent, decode_variant_at) at h)
      | inr (v, found) ↦
          let (same, good) = placed n v found in
          Moved-map s t (λ bytes fields. (v, found, same, fields))
            (each-Accepts v.fields good s t (rw (found, decode_variant_at) at h))
    ]

    decode_def-Accepts :
        (id : ℕ) (ty : RegistryType)
        → types id ≡ some ty
        → (def : TypeDef) → ty.type_def ≡ def
        → IsPlaced Good def
        → Accepts (Encoded S types id) (decode_def S types decode id def)
    unfolding decode_def decode_variant decode_sequence
    decode_def-Accepts id ty found (composite fields) q good s t h =
        Moved-map s t (λ bytes e. Encoded.composite ty fields found q e)
          (each-Accepts fields good s t h)
    decode_def-Accepts id ty found (variant variants) q placed s t h =
        Moved-map s t
          (λ bytes (n, rereads, others, (v, at, index, e), whole).
            let same = sym index in
            Encoded.variant ty variants v others found q
              (subst (λ i. get_elem? variants i ≡ some v) same at)
              (subst (λ i. RoundTrips S.u8 i) same rereads) e
              (subst (λ i. bytes ≡ S.u8.encode i ++ others) same whole))
          (read_and_go-Accepts S.u8 canon.u8 back.u8 (VariantAt variants)
            (decode_variant_at S types decode variants)
            (λ n. decode_variant_at-Accepts variants n placed) s t h)
    decode_def-Accepts id ty found (sequence element) q good s t h =
        Moved-map s t
          (λ bytes (len, rereads, others, e, whole).
            Encoded.sequence ty element len others found q rereads e whole)
          (read_and_go-Accepts S.compact_u32 canon.compact_u32 back.compact_u32
            (EncodedElements S types element) (times (decode element))
            (λ len. times-Accepts element len good) s t h)
    decode_def-Accepts id ty found (array len element) q good s t h =
        Moved-map s t (λ bytes e. Encoded.array ty len element found q e)
          (times-Accepts element len good s t h)
    decode_def-Accepts id ty found (tuple fields) q good s t h =
        Moved-map s t (λ bytes e. Encoded.tuple ty fields found q e)
          (each-Accepts fields good s t h)
    decode_def-Accepts id ty found (primitive p) q good s t h =
        Moved-map s t (λ bytes e. Encoded.primitive ty p found q e)
          (decode_primitive-Accepts p s t h)
    decode_def-Accepts id ty found (compact inner) q good s t h =
        cc (sym (decode_compact-err S types id inner s found q) ∙ h)
    decode_def-Accepts id ty found bit_sequence q good s t h = cc

  decode_type-Accepts :
      IsIndexed Good types
      → (fuel id : ℕ) → Good id
      → Accepts (Encoded S types id) (decode_type S types fuel id)
  unfolding decode_type
  decode_type-Accepts indexed zero id good s t h = cc
  decode_type-Accepts indexed (suc fuel) id good s t h = elim (Option-cases (types id)) [
    | inl absent ↦ cc (rw (absent, decode_type) at h)
    | inr (ty, found) ↦
        decode_def-Accepts (decode_type S types fuel) (decode_type-Accepts indexed fuel) id ty found
          ty.type_def refl (indexed id ty good found) s t (rw (found, decode_type) at h)
  ]

-- If every primitive codec is canonical and reads back what it has read, then what a successful
-- `decode_type` takes from the front of its input, and appends to its output, is the SCALE encoding
-- of a value of the type. The type is among types that are `Good`: these refer only to such types,
-- and the enums among them list their variants at their indices.
pub Encoded-decode_type :
    (S : Scale) (types : Registry) (Good : ℕ → Type 0) (fuel id : ℕ) (s t : Cursor)
    → IsCanonicalScale S
    → IsReadBackScale S
    → IsIndexed Good types
    → Good id
    → decode_type S types fuel id s ≡ ok t
    → (bytes : Bytes) × Encoded S types id bytes
      × (s.input ≡ bytes ++ t.input)
      × (t.output ≡ s.output ++ bytes)
Encoded-decode_type S types Good fuel id s t canon back indexed good h =
    decode_type-Accepts S canon back types Good indexed fuel id good s t h
