-- ===== src/Decoder/Types/Complete.antt =====
-- `decode_type` reads back every encoded value.
use mathlib.Core.Path.{subst}
use fusotao_rust_client.Prelude.{
  ℕ, zero, suc, ◌<◌, ◌≤◌, ◌≡◌, sym, some, List, [], ◌∷◌, ◌++◌, get_elem?, arith,
}
use fusotao_rust_client.Prelude.Outcome.{ok}
use fusotao_rust_client.Prelude.Text.{Bytes}
use fusotao_rust_client.External.FrameMetadata.{Variant, RegistryType, Registry, TypeDef}
use fusotao_rust_client.Decoder.Scale.{Scale}
use fusotao_rust_client.Decoder.Types.{
  Step, each, times, decode_variant_at, decode_variant, decode_sequence, decode_def, decode_type,
}
use fusotao_rust_client.Decoder.Types.Reads.{
  Reads, Reads-nil, Reads-append, Reads-read, decode_primitive-Reads,
}
use fusotao_rust_client.Decoder.Types.Fuel.{
  AllBelow, RefersBelow, IsRanked, VariantsBelow-get_elem?,
}
use fusotao_rust_client.Decoder.Types.Encoded.{
  Encoded, EncodedFields, EncodedElements, composite, tuple, variant, sequence, array, primitive,
  no_fields, field, no_items, item,
}

module _ (S : Scale) (types : Registry) (rank : ℕ → ℕ) (ranked : IsRanked types rank) where
  -- What the type at an id refers to has a smaller rank.
  refers :
      (id : ℕ) (ty : RegistryType) (def : TypeDef)
      → types id ≡ some ty
      → ty.type_def ≡ def
      → RefersBelow rank (rank id) def
  refers id ty def found is = subst (RefersBelow rank (rank id)) is (ranked id ty found)

  decode_variant_at-Reads :
      (f : ℕ → Step) (variants : List Variant) (index : ℕ) (v : Variant) (bytes : Bytes)
      → get_elem? variants index ≡ some v
      → Reads (each f v.fields) bytes
      → Reads (decode_variant_at S types f variants index) bytes
  unfolding decode_variant_at
  decode_variant_at-Reads f variants index v bytes at reads rest output =
      rw (at, decode_variant_at) (reads rest output)

  -- `decode_type` decodes by the definition of the type.
  decode_type-Reads :
      (fuel id : ℕ) (bytes : Bytes) (ty : RegistryType) (def : TypeDef)
      → types id ≡ some ty
      → ty.type_def ≡ def
      → Reads (decode_def S types (decode_type S types fuel) id def) bytes
      → Reads (decode_type S types (suc fuel) id) bytes
  unfolding decode_type
  decode_type-Reads fuel id bytes ty def found is reads rest output =
      rw (found, is, decode_type) (reads rest output)

  -- The fields and elements of a type are read where the types below a rank are.
  mutual
    unfolding decode_def each times decode_variant decode_variant_at decode_sequence

    complete :
        (fuel id : ℕ) (bytes : Bytes)
        → rank id < fuel
        → Encoded S types id bytes
        → Reads (decode_type S types fuel id) bytes
    complete zero id bytes enough e = absurd (omega arith)
    complete (suc fuel) id bytes enough (composite ty fields found is e) =
        decode_type-Reads fuel id bytes ty (TypeDef.composite fields) found is (
          complete_fields fuel (rank id) fields bytes (omega arith) e
            (refers id ty (TypeDef.composite fields) found is))
    complete (suc fuel) id bytes enough (tuple ty fields found is e) =
        decode_type-Reads fuel id bytes ty (TypeDef.tuple fields) found is (
          complete_fields fuel (rank id) fields bytes (omega arith) e
            (refers id ty (TypeDef.tuple fields) found is))
    complete (suc fuel) id bytes enough (variant ty variants v others found is at back e whole) =
        decode_type-Reads fuel id bytes ty (TypeDef.variant variants) found is (
          subst
            (Reads (decode_def S types (decode_type S types fuel) id (TypeDef.variant variants)))
            (sym whole)
            (Reads-read S.u8 v.index (decode_variant_at S types (decode_type S types fuel) variants)
              others back
              (decode_variant_at-Reads (decode_type S types fuel) variants v.index v others at (
                complete_fields fuel (rank id) v.fields others (omega arith) e (
                  VariantsBelow-get_elem? rank (rank id) variants v.index
                    (refers id ty (TypeDef.variant variants) found is) at)))))
    complete (suc fuel) id bytes enough (sequence ty element len others found is back e whole) =
        decode_type-Reads fuel id bytes ty (TypeDef.sequence element) found is (
          subst
            (Reads (decode_def S types (decode_type S types fuel) id (TypeDef.sequence element)))
            (sym whole)
            (Reads-read S.compact_u32 len (times (decode_type S types fuel element)) others back (
              complete_elements fuel (rank id) element len others (omega arith)
                (refers id ty (TypeDef.sequence element) found is) e)))
    complete (suc fuel) id bytes enough (array ty len element found is e) =
        decode_type-Reads fuel id bytes ty (TypeDef.array len element) found is (
          complete_elements fuel (rank id) element len bytes (omega arith)
            (refers id ty (TypeDef.array len element) found is) e)
    complete (suc fuel) id bytes enough (primitive ty prim found is written) =
        decode_type-Reads fuel id bytes ty (TypeDef.primitive prim) found is
          (decode_primitive-Reads S types prim bytes written)

    complete_fields :
        (fuel n : ℕ) (fields : List ℕ) (bytes : Bytes)
        → n ≤ fuel
        → EncodedFields S types fields bytes
        → AllBelow rank n fields
        → Reads (each (decode_type S types fuel) fields) bytes
    complete_fields fuel n fields bytes enough no_fields below = Reads-nil
    complete_fields fuel n fields bytes enough
          (field {id} {fields = others} {bytes = xs} {others = ys} e es) (b, below) =
        Reads-append (decode_type S types fuel id) (each (decode_type S types fuel) others) xs ys
          (complete fuel id xs (omega arith) e) (complete_fields fuel n others ys enough es below)

    complete_elements :
        (fuel n element len : ℕ) (bytes : Bytes)
        → n ≤ fuel
        → rank element < n
        → EncodedElements S types element len bytes
        → Reads (times (decode_type S types fuel element) len) bytes
    complete_elements fuel n element len bytes enough below no_items = Reads-nil
    complete_elements fuel n element len bytes enough below
          (item {len = others} {bytes = xs} {others = ys} e es) =
        Reads-append (decode_type S types fuel element)
          (times (decode_type S types fuel element) others) xs ys
          (complete fuel element xs (omega arith) e)
          (complete_elements fuel n element others ys enough below es)

  -- In a registry without cycles, with fuel above the rank of the type, `decode_type` reads the
  -- encoding of every value of a type, whatever bytes follow: it takes exactly the bytes of the
  -- value from its input and appends them to its output. The encoding is SCALE's, of composite
  -- types, tuples, enums, sequences, arrays and the primitives that the decoder supports; its
  -- integers, Booleans and strings are such that their codecs read them back, and an enum lists the
  -- variant of the value at the place of its index.
  pub decode_type-Encoded :
      (fuel id : ℕ) (bytes rest output : Bytes)
      → rank id < fuel
      → Encoded S types id bytes
      → decode_type S types fuel id (record { input = bytes ++ rest; output = output })
        ≡ ok (record { input = rest; output = output ++ bytes })
  decode_type-Encoded fuel id bytes rest output enough e =
      complete fuel id bytes enough e rest output

  AllBelow-bound : (n : ℕ) → ((id : ℕ) → rank id < n) → (fields : List ℕ) → AllBelow rank n fields
  AllBelow-bound n bound [] = tt
  AllBelow-bound n bound (id ∷ fields) = (bound id, AllBelow-bound n bound fields)

  -- With fuel above every type's rank the fields of a value are read.
  pub each-EncodedFields :
      (fuel : ℕ) (fields : List ℕ) (bytes rest output : Bytes)
      → ((id : ℕ) → rank id < fuel)
      → EncodedFields S types fields bytes
      → each (decode_type S types fuel) fields (record { input = bytes ++ rest; output = output })
        ≡ ok (record { input = rest; output = output ++ bytes })
  each-EncodedFields fuel fields bytes rest output bound e =
      complete_fields fuel fuel fields bytes (omega arith) e (AllBelow-bound fuel bound fields) rest
        output
