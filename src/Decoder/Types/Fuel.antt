-- ===== src/Decoder/Types/Fuel.antt =====
-- The fuel of `decode_type`: a registry whose types refer only to types of smaller rank needs no
-- more than the rank of the type decoded.
use mathlib.Core.Path.{subst}
use fusotao_rust_client.Prelude.{
  ℕ, zero, suc, ◌<◌, ◌≡◌, ◌≢◌, refl, sym, some, List, [], ◌∷◌, ◌∙◌, get_elem?, Option-cases, inl,
  inr, arith,
}
use fusotao_rust_client.Prelude.Outcome.{
  out_of_fuel, lift, bind-ne-out_of_fuel, bind-congr, lift-ne-out_of_fuel,
}
use fusotao_rust_client.External.FrameMetadata.{
  Variant, RegistryType, Registry, TypeDef, TypeDefPrimitive, composite, variant, sequence, array,
  tuple, primitive, compact, bit_sequence,
}
use fusotao_rust_client.External.Codec.{Codec}
use fusotao_rust_client.Error.{Error}
use fusotao_rust_client.Decoder.Scale.{Scale}
use fusotao_rust_client.Decoder.Types.{
  Cursor, Step, decode_raw, each, times, decode_primitive, decode_variant_at, decode_def,
  decode_type,
}
use fusotao_rust_client.Decoder.Types.Copies.{decode_compact-err}

module _ (rank : ℕ → ℕ) (n : ℕ) where
  abbrev pub AllBelow : List ℕ → Type 0
  AllBelow [] = Unit
  AllBelow (field ∷ fields) = (rank field < n) × AllBelow fields

  abbrev pub VariantsBelow : List Variant → Type 0
  VariantsBelow [] = Unit
  VariantsBelow (v ∷ variants) = AllBelow v.fields × VariantsBelow variants

  -- Every type that the definition refers to has a rank below `n`.
  abbrev pub RefersBelow : TypeDef → Type 0
  RefersBelow (composite fields) = AllBelow fields
  RefersBelow (variant variants) = VariantsBelow variants
  RefersBelow (sequence element) = rank element < n
  RefersBelow (array _ element) = rank element < n
  RefersBelow (tuple fields) = AllBelow fields
  RefersBelow _ = Unit

  pub VariantsBelow-get_elem? :
      (variants : List Variant) (index : ℕ) {v : Variant}
      → VariantsBelow variants
      → get_elem? variants index ≡ some v
      → AllBelow v.fields
  VariantsBelow-get_elem? [] index b h = cc
  VariantsBelow-get_elem? (w ∷ variants) zero {v} (b, _) h =
      let same : w ≡ v = cc in subst (λ (u : Variant). AllBelow u.fields) same b
  VariantsBelow-get_elem? (w ∷ variants) (suc index) (_, b) h =
      VariantsBelow-get_elem? variants index b h

-- The registry has no cycle: each type refers only to types of smaller rank.
abbrev pub IsRanked : Registry → (ℕ → ℕ) → Type 0
IsRanked types rank =
    (id : ℕ) (ty : RegistryType) → types id ≡ some ty → RefersBelow rank (rank id) ty.type_def

abbrev Fuelled : Step → Type 0
Fuelled f = (s : Cursor) → f s ≢ out_of_fuel

abbrev Agree : Step → Step → Type 0
Agree f g = (s : Cursor) → f s ≡ g s

times-Fuelled : (f : Step) → Fuelled f → (n : ℕ) → Fuelled (times f n)
unfolding times
times-Fuelled f keeps zero s = λ h. cc
times-Fuelled f keeps (suc n) s =
    bind-ne-out_of_fuel (f s) (times f n) (keeps s) (times-Fuelled f keeps n)

times-Agree : (f g : Step) → Agree f g → (n : ℕ) → Agree (times f n) (times g n)
unfolding times
times-Agree f g same zero s = refl
times-Agree f g same (suc n) s =
    rw (same s) (bind-congr (g s) (times f n) (times g n) (times-Agree f g same n))

decode_raw-Fuelled {ℓ} : {T : Type ℓ} (c : Codec T) → Fuelled (decode_raw c)
unfolding decode_raw
decode_raw-Fuelled c s =
    bind-ne-out_of_fuel (lift Error.codec (c.decode s.input)) _
      (lift-ne-out_of_fuel Error.codec (c.decode s.input)) (λ a h. cc)

module _ (rank : ℕ → ℕ) (n : ℕ) (f : ℕ → Step) where
  each-Fuelled :
      ((c : ℕ) → rank c < n → Fuelled (f c))
      → (fields : List ℕ) → AllBelow rank n fields
      → Fuelled (each f fields)
  unfolding each
  each-Fuelled keeps [] b s = λ h. cc
  each-Fuelled keeps (c ∷ fields) (below, b) s =
      bind-ne-out_of_fuel (f c s) (each f fields) (keeps c below s) (each-Fuelled keeps fields b)

  each-Agree :
      (g : ℕ → Step)
      → ((c : ℕ) → rank c < n → Agree (f c) (g c))
      → (fields : List ℕ) → AllBelow rank n fields
      → Agree (each f fields) (each g fields)
  unfolding each
  each-Agree g same [] b s = refl
  each-Agree g same (c ∷ fields) (below, b) s =
      rw (same c below s)
        (bind-congr (g c s) (each f fields) (each g fields) (each-Agree g same fields b))

module _ (S : Scale) (types : Registry) where
  decode_primitive-Fuelled : (p : TypeDefPrimitive) → Fuelled (decode_primitive S types p)
  unfolding decode_primitive
  decode_primitive-Fuelled TypeDefPrimitive.char = λ s h. cc
  decode_primitive-Fuelled TypeDefPrimitive.u256 = λ s h. cc
  decode_primitive-Fuelled TypeDefPrimitive.i256 = λ s h. cc
  decode_primitive-Fuelled TypeDefPrimitive.bool = decode_raw-Fuelled S.bool
  decode_primitive-Fuelled TypeDefPrimitive.str = decode_raw-Fuelled S.str
  decode_primitive-Fuelled TypeDefPrimitive.u8 = decode_raw-Fuelled S.u8
  decode_primitive-Fuelled TypeDefPrimitive.u16 = decode_raw-Fuelled S.u16
  decode_primitive-Fuelled TypeDefPrimitive.u32 = decode_raw-Fuelled S.u32
  decode_primitive-Fuelled TypeDefPrimitive.u64 = decode_raw-Fuelled S.u64
  decode_primitive-Fuelled TypeDefPrimitive.u128 = decode_raw-Fuelled S.u128
  decode_primitive-Fuelled TypeDefPrimitive.i8 = decode_raw-Fuelled S.i8
  decode_primitive-Fuelled TypeDefPrimitive.i16 = decode_raw-Fuelled S.i16
  decode_primitive-Fuelled TypeDefPrimitive.i32 = decode_raw-Fuelled S.i32
  decode_primitive-Fuelled TypeDefPrimitive.i64 = decode_raw-Fuelled S.i64
  decode_primitive-Fuelled TypeDefPrimitive.i128 = decode_raw-Fuelled S.i128

  module _ (rank : ℕ → ℕ) (n : ℕ) (f : ℕ → Step) where
    decode_variant_at-Fuelled :
        ((c : ℕ) → rank c < n → Fuelled (f c))
        → (variants : List Variant) → VariantsBelow rank n variants
        → (index : ℕ) → Fuelled (decode_variant_at S types f variants index)
    unfolding decode_variant_at
    decode_variant_at-Fuelled keeps variants b index s h =
        elim (Option-cases (get_elem? variants index)) [
          | inl absent ↦ cc (rw (absent, decode_variant_at) at h)
          | inr (v, found) ↦
              each-Fuelled rank n f keeps v.fields
                (VariantsBelow-get_elem? rank n variants index b found) s
                (rw (found, decode_variant_at) at h)
        ]

    decode_variant_at-Agree :
        (g : ℕ → Step)
        → ((c : ℕ) → rank c < n → Agree (f c) (g c))
        → (variants : List Variant) → VariantsBelow rank n variants
        → (index : ℕ)
        → Agree
            (decode_variant_at S types f variants index)
            (decode_variant_at S types g variants index)
    unfolding decode_variant_at
    decode_variant_at-Agree g same variants b index s =
        elim (Option-cases (get_elem? variants index)) [
          | inl absent ↦ rw (absent, decode_variant_at)
          | inr (v, found) ↦
              rw (found, decode_variant_at)
                (each-Agree rank n f g same v.fields
                  (VariantsBelow-get_elem? rank n variants index b found) s)
        ]

    decode_def-Fuelled :
        ((c : ℕ) → rank c < n → Fuelled (f c))
        → (id : ℕ) (ty : RegistryType) → types id ≡ some ty
        → (def : TypeDef) → ty.type_def ≡ def
        → RefersBelow rank n def
        → Fuelled (decode_def S types f id def)
    unfolding decode_def
    decode_def-Fuelled keeps id ty found (composite fields) q b =
        each-Fuelled rank n f keeps fields b
    decode_def-Fuelled keeps id ty found (variant variants) q b = λ s.
        bind-ne-out_of_fuel (lift Error.codec (S.u8.decode s.input)) _
          (lift-ne-out_of_fuel Error.codec (S.u8.decode s.input))
          (λ (index, rest). decode_variant_at-Fuelled keeps variants b index _)
    decode_def-Fuelled keeps id ty found (sequence element) q b = λ s.
        bind-ne-out_of_fuel (lift Error.codec (S.compact_u32.decode s.input)) _
          (lift-ne-out_of_fuel Error.codec (S.compact_u32.decode s.input))
          (λ (len, rest). times-Fuelled (f element) (keeps element b) len _)
    decode_def-Fuelled keeps id ty found (array len element) q b =
        times-Fuelled (f element) (keeps element b) len
    decode_def-Fuelled keeps id ty found (tuple fields) q b = each-Fuelled rank n f keeps fields b
    decode_def-Fuelled keeps id ty found (primitive p) q b = decode_primitive-Fuelled p
    decode_def-Fuelled keeps id ty found (compact inner) q b =
        λ s h. cc (sym (decode_compact-err S types id inner s found q) ∙ h)
    decode_def-Fuelled keeps id ty found bit_sequence q b = λ s h. cc

    decode_def-Agree :
        (g : ℕ → Step)
        → ((c : ℕ) → rank c < n → Agree (f c) (g c))
        → (id : ℕ) (def : TypeDef) → RefersBelow rank n def
        → Agree (decode_def S types f id def) (decode_def S types g id def)
    unfolding decode_def
    decode_def-Agree g same id (composite fields) b = each-Agree rank n f g same fields b
    decode_def-Agree g same id (variant variants) b = λ s.
        bind-congr (lift Error.codec (S.u8.decode s.input)) _ _
          (λ (index, rest). decode_variant_at-Agree g same variants b index _)
    decode_def-Agree g same id (sequence element) b = λ s.
        bind-congr (lift Error.codec (S.compact_u32.decode s.input)) _ _
          (λ (len, rest). times-Agree (f element) (g element) (same element b) len _)
    decode_def-Agree g same id (array len element) b =
        times-Agree (f element) (g element) (same element b) len
    decode_def-Agree g same id (tuple fields) b = each-Agree rank n f g same fields b
    decode_def-Agree g same id (primitive p) b = λ s. refl
    decode_def-Agree g same id (compact inner) b = λ s. refl
    decode_def-Agree g same id bit_sequence b = λ s. refl

module _ (S : Scale) (types : Registry) (rank : ℕ → ℕ) (ranked : IsRanked types rank) where
  decode_type-Fuelled : (fuel id : ℕ) → rank id < fuel → Fuelled (decode_type S types fuel id)
  unfolding decode_type
  decode_type-Fuelled zero id enough s h = absurd (omega arith)
  decode_type-Fuelled (suc fuel) id enough s h = elim (Option-cases (types id)) [
    | inl absent ↦ cc (rw (absent, decode_type) at h)
    | inr (ty, found) ↦
        decode_def-Fuelled S types rank (rank id) (decode_type S types fuel)
          (λ c below. decode_type-Fuelled fuel c (omega arith)) id ty found ty.type_def refl
          (ranked id ty found) s (rw (found, decode_type) at h)
  ]

  decode_type-Agree :
      (fuel more id : ℕ)
      → rank id < fuel
      → rank id < more
      → Agree (decode_type S types fuel id) (decode_type S types more id)
  unfolding decode_type
  decode_type-Agree zero more id enough also s = absurd (omega arith)
  decode_type-Agree (suc fuel) zero id enough also s = absurd (omega arith)
  decode_type-Agree (suc fuel) (suc more) id enough also s = elim (Option-cases (types id)) [
    | inl absent ↦ rw (absent, decode_type)
    | inr (ty, found) ↦
        rw (found, decode_type)
          (decode_def-Agree S types rank (rank id) (decode_type S types fuel)
            (decode_type S types more)
            (λ c below. decode_type-Agree fuel more c (omega arith) (omega arith)) id ty.type_def
            (ranked id ty found) s)
  ]

  -- In a registry without cycles any fuel above the rank of the type is enough: `decode_type` does
  -- not run out of it, and more of it gives the same outcome.
  pub decode_type_enough_fuel :
      (fuel more id : ℕ) (s : Cursor)
      → rank id < fuel
      → rank id < more
      → (decode_type S types fuel id s ≢ out_of_fuel)
        × (decode_type S types fuel id s ≡ decode_type S types more id s)
  decode_type_enough_fuel fuel more id s enough also =
      (decode_type-Fuelled fuel id enough s, decode_type-Agree fuel more id enough also s)
