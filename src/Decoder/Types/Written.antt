-- ===== src/Decoder/Types/Written.antt =====
-- The SCALE encoding of the values of a registry's types, as the node writes it, and what
-- `decode_type` of node-api/src/decoder.rs makes of it.
use mathlib.Core.Path.{subst}
use fusotao_rust_client.Prelude.{
  ℕ, zero, suc, ◌<◌, ◌≡◌, refl, sym, some, List, [], ◌∷◌, ◌++◌, get_elem?, Has, here, there,
  Has-nil,
}
use fusotao_rust_client.Prelude.Outcome.{ok}
use fusotao_rust_client.Prelude.Text.{Bytes}
use fusotao_rust_client.External.Codec.{RoundTrips}
use fusotao_rust_client.External.FrameMetadata.{
  Variant, RegistryType, Registry, TypeDef, TypeDefPrimitive,
}
use fusotao_rust_client.Decoder.Scale.{Scale}
use fusotao_rust_client.Decoder.Types.{decode_type}
use fusotao_rust_client.Decoder.Types.Fuel.{IsRanked}
use fusotao_rust_client.Decoder.Types.Encoded.{
  WritesPrimitive, Encoded, EncodedFields, EncodedElements, no_fields, field, no_items, item,
}
use fusotao_rust_client.Decoder.Types.Sound.{AreGood, IsPlaced, IsIndexed}
use fusotao_rust_client.Decoder.Types.Complete.{decode_type-Encoded}

-- The types that the decoder has no way to read.
abbrev pub IsUnsupported : TypeDef → Type 0
IsUnsupported (TypeDef.compact inner) = Unit
IsUnsupported TypeDef.bit_sequence = Unit
IsUnsupported (TypeDef.primitive TypeDefPrimitive.char) = Unit
IsUnsupported (TypeDef.primitive TypeDefPrimitive.u256) = Unit
IsUnsupported (TypeDef.primitive TypeDefPrimitive.i256) = Unit
IsUnsupported _ = ⊥

-- `Written S types Other id bytes`: the bytes are the encoding of a value of the type `id`. An enum
-- value is the byte of the variant's index, wherever the variant stands in the list, and its fields;
-- a sequence is its length and its elements. `Other` has the encodings of the values of the types
-- that the decoder does not support.
mutual
  pub data Written (S : Scale) (types : Registry) (Other : ℕ → Bytes → Type 0)
      : ℕ → Bytes → Type 0 where
    composite :
        {id : ℕ} {bytes : Bytes} (ty : RegistryType) (fields : List ℕ)
        → types id ≡ some ty
        → ty.type_def ≡ TypeDef.composite fields
        → WrittenFields S types Other fields bytes
        → Written S types Other id bytes
    tuple :
        {id : ℕ} {bytes : Bytes} (ty : RegistryType) (fields : List ℕ)
        → types id ≡ some ty
        → ty.type_def ≡ TypeDef.tuple fields
        → WrittenFields S types Other fields bytes
        → Written S types Other id bytes
    variant :
        {id : ℕ} {bytes : Bytes} (ty : RegistryType) (variants : List Variant) (v : Variant)
        (fields_bytes : Bytes)
        → types id ≡ some ty
        → ty.type_def ≡ TypeDef.variant variants
        → Has v variants
        → RoundTrips S.u8 v.index
        → WrittenFields S types Other v.fields fields_bytes
        → bytes ≡ S.u8.encode v.index ++ fields_bytes
        → Written S types Other id bytes
    sequence :
        {id : ℕ} {bytes : Bytes} (ty : RegistryType) (element len : ℕ) (elements_bytes : Bytes)
        → types id ≡ some ty
        → ty.type_def ≡ TypeDef.sequence element
        → RoundTrips S.compact_u32 len
        → WrittenElements S types Other element len elements_bytes
        → bytes ≡ S.compact_u32.encode len ++ elements_bytes
        → Written S types Other id bytes
    array :
        {id : ℕ} {bytes : Bytes} (ty : RegistryType) (len element : ℕ)
        → types id ≡ some ty
        → ty.type_def ≡ TypeDef.array len element
        → WrittenElements S types Other element len bytes
        → Written S types Other id bytes
    primitive :
        {id : ℕ} {bytes : Bytes} (ty : RegistryType) (prim : TypeDefPrimitive)
        → types id ≡ some ty
        → ty.type_def ≡ TypeDef.primitive prim
        → WritesPrimitive S prim bytes
        → Written S types Other id bytes
    unsupported :
        {id : ℕ} {bytes : Bytes} (ty : RegistryType)
        → types id ≡ some ty
        → IsUnsupported ty.type_def
        → Other id bytes
        → Written S types Other id bytes

  pub data WrittenFields (S : Scale) (types : Registry) (Other : ℕ → Bytes → Type 0)
      : List ℕ → Bytes → Type 0 where
    no_more : WrittenFields S types Other [] []
    field_then :
        {id : ℕ} {fields : List ℕ} {bytes others : Bytes}
        → Written S types Other id bytes
        → WrittenFields S types Other fields others
        → WrittenFields S types Other (id ∷ fields) (bytes ++ others)

  -- The type of the elements, and their number.
  pub data WrittenElements (S : Scale) (types : Registry) (Other : ℕ → Bytes → Type 0)
      : ℕ → ℕ → Bytes → Type 0 where
    none_left : {element : ℕ} → WrittenElements S types Other element zero []
    item_then :
        {element len : ℕ} {bytes others : Bytes}
        → Written S types Other element bytes
        → WrittenElements S types Other element len others
        → WrittenElements S types Other element (suc len) (bytes ++ others)

Has-get_elem? :
    (variants : List Variant) (v : Variant)
    → Has v variants
    → (n : ℕ) × (get_elem? variants n ≡ some v)
Has-get_elem? [] v has = absurd (Has-nil v has)
Has-get_elem? (w ∷ variants) _ here = (0, refl)
Has-get_elem? (w ∷ variants) v (there has) =
    let (n, found) = Has-get_elem? variants v has in (suc n, found)

-- None of the types is one that the decoder does not support.
abbrev pub AreSupported : (ℕ → Type 0) → Registry → Type 0
AreSupported Good types =
    (id : ℕ) (ty : RegistryType) → Good id → types id ≡ some ty → ¬ IsUnsupported ty.type_def

module _ (S : Scale) (types : Registry) (Other : ℕ → Bytes → Type 0) (Good : ℕ → Type 0)
    (indexed : IsIndexed Good types) (supported : AreSupported Good types) where
  placed :
      (id : ℕ) (ty : RegistryType) (def : TypeDef)
      → Good id
      → types id ≡ some ty
      → ty.type_def ≡ def
      → IsPlaced Good def
  placed id ty def good found is = subst (IsPlaced Good) is (indexed id ty good found)

  mutual
    Encoded-Written :
        (id : ℕ) (bytes : Bytes)
        → Good id
        → Written S types Other id bytes
        → Encoded S types id bytes
    Encoded-Written id bytes good (composite ty fields found is e) =
        Encoded.composite ty fields found is
          (Encoded-fields fields bytes (placed id ty (TypeDef.composite fields) good found is) e)
    Encoded-Written id bytes good (tuple ty fields found is e) =
        Encoded.tuple ty fields found is
          (Encoded-fields fields bytes (placed id ty (TypeDef.tuple fields) good found is) e)
    Encoded-Written id bytes good (variant ty variants v others found is has back e whole) =
        let (n, at) = Has-get_elem? variants v has in
        let (same, fields_good) = placed id ty (TypeDef.variant variants) good found is n v at in
        Encoded.variant ty variants v others found is
          (subst (λ i. get_elem? variants i ≡ some v) (sym same) at) back
          (Encoded-fields v.fields others fields_good e) whole
    Encoded-Written id bytes good (sequence ty element len others found is back e whole) =
        Encoded.sequence ty element len others found is back
          (Encoded-elements element len others
            (placed id ty (TypeDef.sequence element) good found is) e)
          whole
    Encoded-Written id bytes good (array ty len element found is e) =
        Encoded.array ty len element found is (
          Encoded-elements element len bytes
            (placed id ty (TypeDef.array len element) good found is) e)
    Encoded-Written id bytes good (primitive ty prim found is written) =
        Encoded.primitive ty prim found is written
    Encoded-Written id bytes good (unsupported ty found is other) =
        absurd (supported id ty good found is)

    Encoded-fields :
        (fields : List ℕ) (bytes : Bytes)
        → AreGood Good fields
        → WrittenFields S types Other fields bytes
        → EncodedFields S types fields bytes
    Encoded-fields fields bytes good no_more = no_fields
    Encoded-fields fields bytes (g, good)
          (field_then {id} {fields = more} {bytes = xs} {others = ys} e es) =
        field {bytes = xs} {others = ys} (Encoded-Written id xs g e)
          (Encoded-fields more ys good es)

    Encoded-elements :
        (element len : ℕ) (bytes : Bytes)
        → Good element
        → WrittenElements S types Other element len bytes
        → EncodedElements S types element len bytes
    Encoded-elements element len bytes good none_left = no_items
    Encoded-elements element len bytes good
          (item_then {len = more} {bytes = xs} {others = ys} e es) =
        item {bytes = xs} {others = ys} (Encoded-Written element xs good e)
          (Encoded-elements element more ys good es)

  -- In a registry without cycles, with fuel above the rank of the type, `decode_type` reads the SCALE
  -- encoding of every value of a type that is among supported types, whatever bytes follow: it takes
  -- exactly the bytes of the value from its input and appends them to its output. Supported types,
  -- which are those that are `Good`, refer only to each other; none is compact, a bit sequence,
  -- `char`, `u256` or `i256`, and each enum lists its variants at their indices. The value is such
  -- that the codecs read back its integers, Booleans and strings.
  pub decode_type-Written :
      (rank : ℕ → ℕ) (fuel id : ℕ) (bytes rest output : Bytes)
      → IsRanked types rank
      → rank id < fuel
      → Good id
      → Written S types Other id bytes
      → decode_type S types fuel id (record { input = bytes ++ rest; output = output })
        ≡ ok (record { input = rest; output = output ++ bytes })
  decode_type-Written rank fuel id bytes rest output ranked enough good e =
      decode_type-Encoded S types rank ranked fuel id bytes rest output enough
        (Encoded-Written id bytes good e)
