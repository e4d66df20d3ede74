-- ===== src/Decoder/Types/Encoded.antt =====
-- The part of the SCALE encoding of the values of a registry's types that `decode_type` of
-- node-api/src/decoder.rs can read. Decoder/Types/Written has the whole encoding.
use fusotao_rust_client.Prelude.{ℕ, zero, suc, ◌≡◌, some, List, [], ◌∷◌, ◌++◌, get_elem?}
use fusotao_rust_client.Prelude.Text.{Bytes}
use fusotao_rust_client.External.Codec.{Codec, RoundTrips}
use fusotao_rust_client.External.FrameMetadata.{
  Variant, RegistryType, Registry, TypeDef, TypeDefPrimitive,
}
use fusotao_rust_client.Decoder.Scale.{Scale}

-- Some value has this encoding, from which the codec reads it back.
abbrev pub Writes {ℓ} : {A : Type ℓ} → Codec A → Bytes → Type ℓ
Writes {A} c bytes = (a : A) × RoundTrips c a × (bytes ≡ c.encode a)

-- The primitive types that have a codec; the decoder refuses the others.
abbrev pub WritesPrimitive : Scale → TypeDefPrimitive → Bytes → Type 0
WritesPrimitive S TypeDefPrimitive.bool = Writes S.bool
WritesPrimitive S TypeDefPrimitive.str = Writes S.str
WritesPrimitive S TypeDefPrimitive.u8 = Writes S.u8
WritesPrimitive S TypeDefPrimitive.u16 = Writes S.u16
WritesPrimitive S TypeDefPrimitive.u32 = Writes S.u32
WritesPrimitive S TypeDefPrimitive.u64 = Writes S.u64
WritesPrimitive S TypeDefPrimitive.u128 = Writes S.u128
WritesPrimitive S TypeDefPrimitive.i8 = Writes S.i8
WritesPrimitive S TypeDefPrimitive.i16 = Writes S.i16
WritesPrimitive S TypeDefPrimitive.i32 = Writes S.i32
WritesPrimitive S TypeDefPrimitive.i64 = Writes S.i64
WritesPrimitive S TypeDefPrimitive.i128 = Writes S.i128
WritesPrimitive S _ = λ bytes. ⊥

-- `Encoded S types id bytes`: the bytes are the encoding of a value of the type `id`, of the values
-- that `decode_type` has a way to read: compact types, bit sequences, `char`, `u256` and `i256` are
-- left out, and an enum value is the byte of the variant's index and its fields only where the index
-- is the variant's place in the list. A sequence is its length and its elements.
mutual
  pub data Encoded (S : Scale) (types : Registry) : ℕ → Bytes → Type 0 where
    composite :
        {id : ℕ} {bytes : Bytes} (ty : RegistryType) (fields : List ℕ)
        → types id ≡ some ty
        → ty.type_def ≡ TypeDef.composite fields
        → EncodedFields S types fields bytes
        → Encoded S types id bytes
    tuple :
        {id : ℕ} {bytes : Bytes} (ty : RegistryType) (fields : List ℕ)
        → types id ≡ some ty
        → ty.type_def ≡ TypeDef.tuple fields
        → EncodedFields S types fields bytes
        → Encoded S types id bytes
    variant :
        {id : ℕ} {bytes : Bytes} (ty : RegistryType) (variants : List Variant) (v : Variant)
        (fields_bytes : Bytes)
        → types id ≡ some ty
        → ty.type_def ≡ TypeDef.variant variants
        → get_elem? variants v.index ≡ some v
        → RoundTrips S.u8 v.index
        → EncodedFields S types v.fields fields_bytes
        → bytes ≡ S.u8.encode v.index ++ fields_bytes
        → Encoded S types id bytes
    sequence :
        {id : ℕ} {bytes : Bytes} (ty : RegistryType) (element len : ℕ) (elements_bytes : Bytes)
        → types id ≡ some ty
        → ty.type_def ≡ TypeDef.sequence element
        → RoundTrips S.compact_u32 len
        → EncodedElements S types element len elements_bytes
        → bytes ≡ S.compact_u32.encode len ++ elements_bytes
        → Encoded S types id bytes
    array :
        {id : ℕ} {bytes : Bytes} (ty : RegistryType) (len element : ℕ)
        → types id ≡ some ty
        → ty.type_def ≡ TypeDef.array len element
        → EncodedElements S types element len bytes
        → Encoded S types id bytes
    primitive :
        {id : ℕ} {bytes : Bytes} (ty : RegistryType) (prim : TypeDefPrimitive)
        → types id ≡ some ty
        → ty.type_def ≡ TypeDef.primitive prim
        → WritesPrimitive S prim bytes
        → Encoded S types id bytes

  pub data EncodedFields (S : Scale) (types : Registry) : List ℕ → Bytes → Type 0 where
    no_fields : EncodedFields S types [] []
    field :
        {id : ℕ} {fields : List ℕ} {bytes others : Bytes}
        → Encoded S types id bytes
        → EncodedFields S types fields others
        → EncodedFields S types (id ∷ fields) (bytes ++ others)

  -- The type of the elements, and their number.
  pub data EncodedElements (S : Scale) (types : Registry) : ℕ → ℕ → Bytes → Type 0 where
    no_items : {element : ℕ} → EncodedElements S types element zero []
    item :
        {element len : ℕ} {bytes others : Bytes}
        → Encoded S types element bytes
        → EncodedElements S types element len others
        → EncodedElements S types element (suc len) (bytes ++ others)
