-- ===== src/Decoder/Types/Copies.antt =====
-- What `decode_type` appends to its output is what it takes from its input.
use mathlib.Core.Path.{subst}
use fusotao_rust_client.Prelude.{
  ℕ, zero, suc, ◌≡◌, refl, sym, ◌∙◌, some, List, [], ◌∷◌, ◌++◌, append_assoc, append-nil, get_elem?,
  Option-cases, inl, inr,
}
use fusotao_rust_client.Prelude.Outcome.{Outcome, ok, err, ◌>>=◌, lift, >>=-eq-ok}
use fusotao_rust_client.Prelude.Result.{Result}
use fusotao_rust_client.Prelude.Text.{Bytes}
use fusotao_rust_client.External.Codec.{Codec, CodecError, IsCanonical}
use fusotao_rust_client.External.FrameMetadata.{
  Variant, RegistryType, Registry, TypeDef, TypeDefPrimitive, composite, variant, sequence, array,
  tuple, primitive, compact, bit_sequence,
}
use fusotao_rust_client.Error.{Error, invalid_compact_type}
use fusotao_rust_client.Decoder.Scale.{Scale, IsCanonicalScale}
use fusotao_rust_client.Decoder.Types.{
  Cursor, Step, decode_raw, each, times, decode_primitive, decode_compact, decode_variant_at,
  decode_variant, decode_sequence, decode_def, decode_type,
}

-- Some bytes have moved from the front of the input to the end of the output.
abbrev pub Copied : Cursor → Cursor → Type 0
Copied s t = (bytes : Bytes) × (s.input ≡ bytes ++ t.input) × (t.output ≡ s.output ++ bytes)

abbrev pub Copies : Step → Type 0
Copies f = (s t : Cursor) → f s ≡ ok t → Copied s t

Copied-ok :
    (s u t : Cursor) → Copied s u → ◌≡◌ {A = Outcome Error Cursor} (ok u) (ok t) → Copied s t
Copied-ok s u t c e = subst (Copied s) (cc) c

pub Copied-refl : (s : Cursor) → Copied s s
Copied-refl s = ([], refl, sym (append-nil s.output))

pub Copied-trans : (s t u : Cursor) → Copied s t → Copied t u → Copied s u
Copied-trans s t u (xs, i, o) (ys, i', o') =
    (xs ++ ys, rw (i, i', append_assoc), rw (o', o, append_assoc))

-- A value is read and written again, and the rest of the work goes on from there.
module _ {ℓ} {T : Type ℓ} (c : Codec T) (canon : IsCanonical c) (k : T → Step) where
  abbrev read_and_go : Step
  read_and_go s = do
    (a, rest) ← lift Error.codec (c.decode s.input)
    k a (record { input = rest; output = s.output ++ c.encode a })

  read_and_go-Copies : ((a : T) → Copies (k a)) → Copies read_and_go
  read_and_go-Copies keeps s t h = go (c.decode s.input) refl h
    where
      go :
          (r : Result CodecError (T × Bytes))
          → c.decode s.input ≡ r
          → (lift Error.codec r >>= λ (a, rest).
              k a (record { input = rest; output = s.output ++ c.encode a }))
            ≡ ok t
          → Copied s t
      go (Result.err e) q h = cc
      go (Result.ok (a, rest)) q h =
          Copied-trans s _ t (c.encode a, canon s.input a rest q, refl) (keeps a _ t h)

decode_raw-Copies {ℓ} : {T : Type ℓ} (c : Codec T) → IsCanonical c → Copies (decode_raw c)
unfolding decode_raw
decode_raw-Copies c canon =
    read_and_go-Copies c canon (λ a s. ok s) (λ a s t h. Copied-ok s s t (Copied-refl s) h)

module _ (decode : ℕ → Step) (keeps : (field : ℕ) → Copies (decode field)) where
  each-Copies : (fields : List ℕ) → Copies (each decode fields)
  unfolding each
  each-Copies [] s t h = Copied-ok s s t (Copied-refl s) h
  each-Copies (field ∷ fields) s t h =
      let (u, p, q) = >>=-eq-ok (decode field s) (each decode fields) h in
      Copied-trans s u t (keeps field s u p) (each-Copies fields u t q)

times-Copies : (decode : Step) → Copies decode → (n : ℕ) → Copies (times decode n)
unfolding times
times-Copies decode keeps zero s t h = Copied-ok s s t (Copied-refl s) h
times-Copies decode keeps (suc n) s t h =
    let (u, p, q) = >>=-eq-ok (decode s) (times decode n) h in
    Copied-trans s u t (keeps s u p) (times-Copies decode keeps n u t q)

-- The recursive arm for compact types resolves their own id again, so none is ever decoded.
pub decode_compact-err :
    (S : Scale) (types : Registry) (id inner : ℕ) (s : Cursor) {ty : RegistryType}
    → types id ≡ some ty
    → ty.type_def ≡ compact inner
    → decode_compact S types id s
      ≡ err (
          Error.decoding
            (invalid_compact_type "Compact type must be a primitive or a composite type"))
unfolding decode_compact
decode_compact-err S types id inner s found q = rw (found, decode_compact, q)

-- A compact type is never decoded, whatever is compact and whatever the input: with any fuel that
-- lets `decode_type` begin, it fails, as it looks up the compact type again in place of the type
-- inside.
pub decode_type_compact :
    (S : Scale) (types : Registry) (fuel id inner : ℕ) (s : Cursor) {ty : RegistryType}
    → types id ≡ some ty
    → ty.type_def ≡ compact inner
    → decode_type S types (suc fuel) id s
      ≡ err (
          Error.decoding
            (invalid_compact_type "Compact type must be a primitive or a composite type"))
unfolding decode_type decode_def
decode_type_compact S types fuel id inner s found q =
    rw (found, decode_type, q) (decode_compact-err S types id inner s found q)

module _ (S : Scale) (canon : IsCanonicalScale S) (types : Registry) where
  decode_primitive-Copies : (p : TypeDefPrimitive) → Copies (decode_primitive S types p)
  unfolding decode_primitive
  decode_primitive-Copies TypeDefPrimitive.bool = decode_raw-Copies S.bool canon.bool
  decode_primitive-Copies TypeDefPrimitive.char = λ s t h. cc
  decode_primitive-Copies TypeDefPrimitive.str = decode_raw-Copies S.str canon.str
  decode_primitive-Copies TypeDefPrimitive.u8 = decode_raw-Copies S.u8 canon.u8
  decode_primitive-Copies TypeDefPrimitive.u16 = decode_raw-Copies S.u16 canon.u16
  decode_primitive-Copies TypeDefPrimitive.u32 = decode_raw-Copies S.u32 canon.u32
  decode_primitive-Copies TypeDefPrimitive.u64 = decode_raw-Copies S.u64 canon.u64
  decode_primitive-Copies TypeDefPrimitive.u128 = decode_raw-Copies S.u128 canon.u128
  decode_primitive-Copies TypeDefPrimitive.u256 = λ s t h. cc
  decode_primitive-Copies TypeDefPrimitive.i8 = decode_raw-Copies S.i8 canon.i8
  decode_primitive-Copies TypeDefPrimitive.i16 = decode_raw-Copies S.i16 canon.i16
  decode_primitive-Copies TypeDefPrimitive.i32 = decode_raw-Copies S.i32 canon.i32
  decode_primitive-Copies TypeDefPrimitive.i64 = decode_raw-Copies S.i64 canon.i64
  decode_primitive-Copies TypeDefPrimitive.i128 = decode_raw-Copies S.i128 canon.i128
  decode_primitive-Copies TypeDefPrimitive.i256 = λ s t h. cc

  decode_variant_at-Copies :
      (decode : ℕ → Step) (keeps : (field : ℕ) → Copies (decode field)) (variants : List Variant)
      (index : ℕ)
      → Copies (decode_variant_at S types decode variants index)
  unfolding decode_variant_at
  decode_variant_at-Copies decode keeps variants index s t h =
      elim (Option-cases (get_elem? variants index)) [
        | inl absent ↦ cc (rw (absent, decode_variant_at) at h)
        | inr (v, found) ↦
            each-Copies decode keeps v.fields s t (rw (found, decode_variant_at) at h)
      ]

  decode_variant-Copies :
      (decode : ℕ → Step) (keeps : (field : ℕ) → Copies (decode field)) (variants : List Variant)
      → Copies (decode_variant S types decode variants)
  unfolding decode_variant
  decode_variant-Copies decode keeps variants =
      read_and_go-Copies S.u8 canon.u8 (decode_variant_at S types decode variants)
        (decode_variant_at-Copies decode keeps variants)

  decode_sequence-Copies : (decode : Step) → Copies decode → Copies (decode_sequence S types decode)
  unfolding decode_sequence
  decode_sequence-Copies decode keeps =
      read_and_go-Copies S.compact_u32 canon.compact_u32 (times decode) (times-Copies decode keeps)

  decode_def-Copies :
      (decode : ℕ → Step) (keeps : (field : ℕ) → Copies (decode field)) (id : ℕ) (ty : RegistryType)
      → types id ≡ some ty
      → (def : TypeDef) → ty.type_def ≡ def
      → Copies (decode_def S types decode id def)
  unfolding decode_def
  decode_def-Copies decode keeps id ty found (composite fields) q = each-Copies decode keeps fields
  decode_def-Copies decode keeps id ty found (variant variants) q =
      decode_variant-Copies decode keeps variants
  decode_def-Copies decode keeps id ty found (sequence element) q =
      decode_sequence-Copies (decode element) (keeps element)
  decode_def-Copies decode keeps id ty found (array len element) q =
      times-Copies (decode element) (keeps element) len
  decode_def-Copies decode keeps id ty found (tuple fields) q = each-Copies decode keeps fields
  decode_def-Copies decode keeps id ty found (primitive p) q = decode_primitive-Copies p
  decode_def-Copies decode keeps id ty found (compact inner) q =
      λ s t h. cc (sym (decode_compact-err S types id inner s found q) ∙ h)
  decode_def-Copies decode keeps id ty found bit_sequence q = λ s t h. cc

  pub decode_type-Copies : (fuel id : ℕ) → Copies (decode_type S types fuel id)
  unfolding decode_type
  decode_type-Copies zero id s t h = cc
  decode_type-Copies (suc fuel) id s t h = elim (Option-cases (types id)) [
    | inl absent ↦ cc (rw (absent, decode_type) at h)
    | inr (ty, found) ↦
        decode_def-Copies (decode_type S types fuel) (decode_type-Copies fuel) id ty found
          ty.type_def refl s t (rw (found, decode_type) at h)
  ]

-- If every primitive codec is canonical, a successful `decode_type` appends to its output exactly
-- the bytes that it takes from the front of its input.
pub decode_type_copies :
    (S : Scale) (types : Registry) (fuel id : ℕ) (s t : Cursor)
    → IsCanonicalScale S
    → decode_type S types fuel id s ≡ ok t
    → (bytes : Bytes) × (s.input ≡ bytes ++ t.input) × (t.output ≡ s.output ++ bytes)
decode_type_copies S types fuel id s t canon h = decode_type-Copies S canon types fuel id s t h
