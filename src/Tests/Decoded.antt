-- ===== src/Tests/Decoded.antt =====
-- Decoding a list of enum values.
use fusotao_rust_client.Prelude.{
  ℕ, zero, suc, ◌≡◌, refl, subst, get_elem?, none, some, [], ◌∷◌, ◌++◌, arith, here, there,
}
use fusotao_rust_client.Prelude.Outcome.{ok}
use fusotao_rust_client.Prelude.Text.{Bytes}
use fusotao_rust_client.External.Codec.{IsReadBack}
use fusotao_rust_client.External.FrameMetadata.{
  Variant, Registry, RegistryType, TypeDef, TypeDefPrimitive, variant, sequence, primitive,
}
use fusotao_rust_client.Decoder.Scale.{IsReadBackScale}
use fusotao_rust_client.Decoder.Types.{Cursor, decode_type}
use fusotao_rust_client.Decoder.Types.Encoded.{Encoded}
use fusotao_rust_client.Decoder.Types.Sound.{AreGood, IsPlaced, IsIndexed, Encoded-decode_type}
use fusotao_rust_client.Decoder.Types.Fuel.{IsRanked, RefersBelow}
use fusotao_rust_client.Decoder.Types.Written.{
  Written, no_more, field_then, none_left, item_then, IsUnsupported, AreSupported,
  decode_type-Written,
}
use fusotao_rust_client.Tests.Samples.{byte, byte-RoundTrips, refused}
use fusotao_rust_client.Tests.Types.{scale, scale-IsCanonicalScale}

pub refused-IsReadBack {ℓ} : {A : Type ℓ} → IsReadBack (refused {A = A})
refused-IsReadBack input a rest h = cc

byte-IsReadBack : IsReadBack byte
byte-IsReadBack input n rest h = byte-RoundTrips n

pub scale-IsReadBackScale : IsReadBackScale scale
scale-IsReadBackScale = record {
  bool = refused-IsReadBack;
  str = refused-IsReadBack;
  u8 = byte-IsReadBack;
  u16 = refused-IsReadBack;
  u32 = refused-IsReadBack;
  u64 = refused-IsReadBack;
  u128 = refused-IsReadBack;
  i8 = byte-IsReadBack;
  i16 = refused-IsReadBack;
  i32 = refused-IsReadBack;
  i64 = refused-IsReadBack;
  i128 = refused-IsReadBack;
  compact_u32 = byte-IsReadBack;
}

abbrev idle : Variant
idle = record { name = "Idle"; index = 0; fields = []; docs = [] }

abbrev set : Variant
set = record { name = "Set"; index = 1; fields = 0 ∷ []; docs = [] }

abbrev def_of : TypeDef → RegistryType
def_of def = record { ident = none; type_def = def }

-- A byte, an enum and a list of its values.
abbrev registry : Registry
registry zero = some (def_of (primitive TypeDefPrimitive.u8))
registry (suc zero) = some (def_of (variant (idle ∷ set ∷ [])))
registry (suc (suc zero)) = some (def_of (sequence 1))
registry _ = none

-- Each type of the registry.
abbrev Any : ℕ → Type 0
Any id = Unit

at_index :
    (n : ℕ) (v : Variant)
    → get_elem? (idle ∷ set ∷ []) n ≡ some v
    → (v.index ≡ n) × AreGood Any v.fields
at_index zero v h =
    let same : idle ≡ v = cc in
    subst (λ (w : Variant). (w.index ≡ 0) × AreGood Any w.fields) same (refl, tt)
at_index (suc zero) v h =
    let same : set ≡ v = cc in
    subst (λ (w : Variant). (w.index ≡ 1) × AreGood Any w.fields) same (refl, (tt, tt))
at_index (suc (suc n)) v h = cc

placed :
    (def : TypeDef) (ty : RegistryType)
    → some (def_of def) ≡ some ty
    → IsPlaced Any def
    → IsPlaced Any ty.type_def
placed def ty h good =
    let same : def_of def ≡ ty = cc in
    subst (λ (t : RegistryType). IsPlaced Any t.type_def) same good

registry-IsIndexed : IsIndexed Any registry
registry-IsIndexed zero ty good found = placed (primitive TypeDefPrimitive.u8) ty found tt
registry-IsIndexed (suc zero) ty good found = placed (variant (idle ∷ set ∷ [])) ty found at_index
registry-IsIndexed (suc (suc zero)) ty good found = placed (sequence 1) ty found tt
registry-IsIndexed (suc (suc (suc id))) ty good found = cc

abbrev start : Cursor
start = record { input = 2 ∷ 0 ∷ 1 ∷ 42 ∷ 99 ∷ []; output = [] }

abbrev end : Cursor
end = record { input = 99 ∷ []; output = 2 ∷ 0 ∷ 1 ∷ 42 ∷ [] }

decoded : decode_type scale registry 3 2 start ≡ ok end
unfolding decode_type
decoded = refl

Encoded-decode_type_example :
    (bytes : Bytes) × Encoded scale registry 2 bytes
    × (start.input ≡ bytes ++ end.input)
    × (end.output ≡ start.output ++ bytes)
Encoded-decode_type_example =
    Encoded-decode_type scale registry Any 3 2 start end scale-IsCanonicalScale
      scale-IsReadBackScale registry-IsIndexed tt decoded

placed_below :
    (def : TypeDef) (ty : RegistryType) (n : ℕ)
    → some (def_of def) ≡ some ty
    → RefersBelow (λ id. id) n def
    → RefersBelow (λ id. id) n ty.type_def
placed_below def ty n h below =
    let same : def_of def ≡ ty = cc in
    subst (λ (t : RegistryType). RefersBelow (λ id. id) n t.type_def) same below

registry-IsRanked : IsRanked registry (λ id. id)
registry-IsRanked zero ty h = placed_below (primitive TypeDefPrimitive.u8) ty 0 h tt
registry-IsRanked (suc zero) ty h =
    placed_below (variant (idle ∷ set ∷ [])) ty 1 h (tt, ((omega arith, tt), tt))
registry-IsRanked (suc (suc zero)) ty h = placed_below (sequence 1) ty 2 h (omega arith)
registry-IsRanked (suc (suc (suc id))) ty h = cc

supported : AreSupported Any registry
supported zero ty good found =
    let same : def_of (primitive TypeDefPrimitive.u8) ≡ ty = cc in
    subst (λ (t : RegistryType). ¬ IsUnsupported t.type_def) same (λ e. e)
supported (suc zero) ty good found =
    let same : def_of (variant (idle ∷ set ∷ [])) ≡ ty = cc in
    subst (λ (t : RegistryType). ¬ IsUnsupported t.type_def) same (λ e. e)
supported (suc (suc zero)) ty good found =
    let same : def_of (sequence 1) ≡ ty = cc in
    subst (λ (t : RegistryType). ¬ IsUnsupported t.type_def) same (λ e. e)
supported (suc (suc (suc id))) ty good found = cc

-- No encoding of a value of a type that is not supported.
abbrev Nowhere : ℕ → Bytes → Type 0
Nowhere id bytes = ⊥

idle-Written : Written scale registry Nowhere 1 (0 ∷ [])
idle-Written =
    Written.variant (def_of (variant (idle ∷ set ∷ []))) (idle ∷ set ∷ []) idle [] refl refl here
      (byte-RoundTrips 0) no_more refl

set-Written : Written scale registry Nowhere 1 (1 ∷ 42 ∷ [])
set-Written =
    Written.variant (def_of (variant (idle ∷ set ∷ []))) (idle ∷ set ∷ []) set (42 ∷ []) refl refl
      (there here) (byte-RoundTrips 1)
      (field_then {bytes = 42 ∷ []} {others = []}
        (Written.primitive (def_of (primitive TypeDefPrimitive.u8)) TypeDefPrimitive.u8 refl refl
          (42, byte-RoundTrips 42, refl))
        no_more)
      refl

both-Written : Written scale registry Nowhere 2 (2 ∷ 0 ∷ 1 ∷ 42 ∷ [])
both-Written =
    Written.sequence (def_of (sequence 1)) 1 2 (0 ∷ 1 ∷ 42 ∷ []) refl refl (byte-RoundTrips 2)
      (item_then {bytes = 0 ∷ []} {others = 1 ∷ 42 ∷ []} idle-Written
        (item_then {bytes = 1 ∷ 42 ∷ []} {others = []} set-Written none_left))
      refl

decode_type-Written_example :
    decode_type scale registry 3 2 (record { input = 2 ∷ 0 ∷ 1 ∷ 42 ∷ 99 ∷ []; output = 7 ∷ [] })
    ≡ ok (record { input = 99 ∷ []; output = 7 ∷ 2 ∷ 0 ∷ 1 ∷ 42 ∷ [] })
decode_type-Written_example =
    decode_type-Written scale registry Nowhere Any registry-IsIndexed supported (λ id. id) 3 2
      (2 ∷ 0 ∷ 1 ∷ 42 ∷ []) (99 ∷ []) (7 ∷ []) registry-IsRanked (omega arith) tt both-Written
