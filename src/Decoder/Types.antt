-- ===== src/Decoder/Types.antt =====
-- `decode_type` of node-api/src/decoder.rs. The recursion on types is bounded by fuel; the loops
-- over fields, elements and array places are structural.
pub mod Complete
pub mod Copies
pub mod Encoded
pub mod Reads
pub mod Accepts
pub mod Sound
pub mod Written
pub mod Fuel
pub mod Variants
use Prim.Native.String.{◌++◌ as ◌<>◌}
use fusotao_rust_client.Prelude.{ℕ, zero, suc, none, some, List, [], ◌∷◌, ◌++◌, get_elem?}
use fusotao_rust_client.Prelude.Outcome.{Outcome, ok, err, panicked, out_of_fuel, ◌>>=◌, lift}
use fusotao_rust_client.Prelude.Decimal.{to_string}
use fusotao_rust_client.Prelude.Text.{Bytes}
use fusotao_rust_client.External.Codec.{Codec}
use fusotao_rust_client.External.FrameMetadata.{
  Variant, Registry, TypeDef, TypeDefPrimitive, composite, variant, sequence, array, tuple,
  primitive, compact, bit_sequence,
}
use fusotao_rust_client.Error.{
  Error, type_not_found, unsupported_primitive, invalid_compact_primitive, invalid_compact_type,
}
use fusotao_rust_client.Decoder.Scale.{Scale}

-- The `input` and `output` of the decoder.
pub record Cursor : Type 0 where
  pub input : Bytes
  pub output : Bytes

abbrev pub Step : Type 0
Step = Cursor → Outcome Error Cursor

-- `decode_raw::<T>`
unfoldable pub decode_raw {ℓ} : {T : Type ℓ} → Codec T → Step
decode_raw c s = do
  (decoded, rest) ← lift Error.codec (c.decode s.input)
  ok (record { input = rest; output = s.output ++ c.encode decoded })

-- `for field in fields { … }`
unfoldable pub each : (ℕ → Step) → List ℕ → Step
each decode [] s = ok s
each decode (field ∷ fields) s = do s' ← decode field s; each decode fields s'

-- `for _ in 0..n { … }`
unfoldable pub times : Step → ℕ → Step
times decode zero s = ok s
times decode (suc n) s = do s' ← decode s; times decode n s'

module _ (S : Scale) (types : Registry) where
  unfoldable pub decode_primitive : TypeDefPrimitive → Step
  unfolding decode_raw
  decode_primitive TypeDefPrimitive.bool s = decode_raw S.bool s
  decode_primitive TypeDefPrimitive.char s =
      err (Error.decoding (unsupported_primitive TypeDefPrimitive.char))
  decode_primitive TypeDefPrimitive.str s = decode_raw S.str s
  decode_primitive TypeDefPrimitive.u8 s = decode_raw S.u8 s
  decode_primitive TypeDefPrimitive.u16 s = decode_raw S.u16 s
  decode_primitive TypeDefPrimitive.u32 s = decode_raw S.u32 s
  decode_primitive TypeDefPrimitive.u64 s = decode_raw S.u64 s
  decode_primitive TypeDefPrimitive.u128 s = decode_raw S.u128 s
  decode_primitive TypeDefPrimitive.u256 s =
      err (Error.decoding (unsupported_primitive TypeDefPrimitive.u256))
  decode_primitive TypeDefPrimitive.i8 s = decode_raw S.i8 s
  decode_primitive TypeDefPrimitive.i16 s = decode_raw S.i16 s
  decode_primitive TypeDefPrimitive.i32 s = decode_raw S.i32 s
  decode_primitive TypeDefPrimitive.i64 s = decode_raw S.i64 s
  decode_primitive TypeDefPrimitive.i128 s = decode_raw S.i128 s
  decode_primitive TypeDefPrimitive.i256 s =
      err (Error.decoding (unsupported_primitive TypeDefPrimitive.i256))

  unfoldable pub decode_compact_primitive : TypeDefPrimitive → Step
  unfolding decode_raw
  decode_compact_primitive TypeDefPrimitive.u8 s = decode_raw S.compact_u8 s
  decode_compact_primitive TypeDefPrimitive.u16 s = decode_raw S.compact_u16 s
  decode_compact_primitive TypeDefPrimitive.u32 s = decode_raw S.compact_u32 s
  decode_compact_primitive TypeDefPrimitive.u64 s = decode_raw S.compact_u64 s
  decode_compact_primitive TypeDefPrimitive.u128 s = decode_raw S.compact_u128 s
  decode_compact_primitive prim s = err (Error.decoding (invalid_compact_primitive prim))

  -- The only field of a composite type behind a compact one.
  unfoldable pub decode_compact_field : ℕ → Step
  unfolding decode_compact_primitive
  decode_compact_field field s = elim (types field) [
    | none ↦ err (Error.metadata (type_not_found field))
    | some field_ty ↦ elim field_ty.type_def [
      | primitive prim ↦ decode_compact_primitive prim s
      | _ ↦ err (
          Error.decoding (invalid_compact_type "Composite type must have a single primitive field"))
    ]
  ]

  unfoldable pub decode_compact_composite : List ℕ → Step
  unfolding decode_compact_field
  decode_compact_composite (field ∷ []) s = decode_compact_field field s
  decode_compact_composite _ s =
      err (Error.decoding (invalid_compact_type "Composite type must have a single field"))

  unfoldable pub decode_compact_def : TypeDef → Step
  unfolding decode_compact_composite
  decode_compact_def (primitive prim) s = decode_compact_primitive prim s
  decode_compact_def (composite fields) s = decode_compact_composite fields s
  decode_compact_def _ s =
      err (
        Error.decoding
          (invalid_compact_type "Compact type must be a primitive or a composite type"))

  -- The arm `TypeDef::Compact(_compact)`: it resolves the id of the compact type itself.
  unfoldable pub decode_compact : ℕ → Step
  unfolding decode_compact_def
  decode_compact type_id s = elim (types type_id) [
    | none ↦ err (Error.metadata (type_not_found type_id))
    | some inner ↦ decode_compact_def inner.type_def s
  ]

  -- The fields of the variant at a place of the list.
  unfoldable pub decode_variant_at : (ℕ → Step) → List Variant → ℕ → Step
  unfolding each to_string
  decode_variant_at decode variants variant_index s = elim (get_elem? variants variant_index) [
    | none ↦ err (Error.other (("Variant " <> to_string variant_index) <> " not found"))
    | some v ↦ each decode v.fields s
  ]

  -- The arm `TypeDef::Variant(variant)`: the byte read is the place of the variant in the list.
  unfoldable pub decode_variant : (ℕ → Step) → List Variant → Step
  unfolding decode_variant_at
  decode_variant decode variants s = do
    (variant_index, rest) ← lift Error.codec (S.u8.decode s.input)
    decode_variant_at decode variants variant_index
        (record { input = rest; output = s.output ++ S.u8.encode variant_index })

  -- The arm `TypeDef::Sequence(seq)`
  unfoldable pub decode_sequence : Step → Step
  unfolding times
  decode_sequence decode s = do
    (len, rest) ← lift Error.codec (S.compact_u32.decode s.input)
    times decode len (record { input = rest; output = s.output ++ S.compact_u32.encode len })

  -- `match ty.type_def() { … }`, over the recursive call.
  unfoldable pub decode_def : (ℕ → Step) → ℕ → TypeDef → Step
  unfolding decode_variant decode_sequence decode_primitive decode_compact
  decode_def decode type_id (composite fields) s = each decode fields s
  decode_def decode type_id (variant variants) s = decode_variant decode variants s
  decode_def decode type_id (sequence element) s = decode_sequence (decode element) s
  decode_def decode type_id (array len element) s = times (decode element) len s
  decode_def decode type_id (tuple fields) s = each decode fields s
  decode_def decode type_id (primitive prim) s = decode_primitive prim s
  decode_def decode type_id (compact _) s = decode_compact type_id s
  decode_def decode type_id bit_sequence s = panicked

  unfoldable pub decode_type : ℕ → ℕ → Step
  unfolding decode_def
  decode_type zero type_id s = out_of_fuel
  decode_type (suc fuel) type_id s = elim (types type_id) [
    | none ↦ err (Error.metadata (type_not_found type_id))
    | some ty ↦ decode_def (decode_type fuel) type_id ty.type_def s
  ]
