-- ===== src/Metadata/Resolves.antt =====
-- Which metadata `TryFrom<RuntimeMetadataPrefixed> for Metadata` of node-api/src/metadata.rs takes.
use mathlib.Core.Path.{subst}
use fusotao_rust_client.Prelude.{
  ℕ, String, ◌≡◌, refl, sym, ap, ◌∙◌, Option, some, List, [], ◌∷◌, inl, inr, Has, here, there,
  Has-nil, Has-cons_cases, Option-cases, map, ◌↔◌, ◌==◌, string_eq, nat_eq, Bool-cases,
}
use fusotao_rust_client.Prelude.Result.{
  ok, err, >>=-eq-ok, collect_results, collect_results-ok, Result-cases,
}
use fusotao_rust_client.Prelude.HashMap.{HashMap, collect}
use fusotao_rust_client.External.FrameMetadata.{
  Variant, Registry, RegistryType, TypeDef, PalletDeclaration, RuntimeMetadataV14, composite,
  variant, sequence, array, tuple, primitive, compact, bit_sequence, RuntimeMetadata, v14,
  other_version, RuntimeMetadataPrefixed,
}
use fusotao_rust_client.Error.{invalid_version}
use fusotao_rust_client.Metadata.{Metadata, PalletMetadata}
use fusotao_rust_client.Metadata.Parse.{
  get_type_def_variant, pallet_calls_by_name, pallet_entry, pallet_variants, from_v14, try_from,
}
use fusotao_rust_client.Metadata.Tables.{first_pallet, skipped, taken}

-- The registry has an enum at the id.
abbrev pub IsEnum : Registry → ℕ → Type 0
IsEnum types id =
    (ty : RegistryType) × (types id ≡ some ty)
    × (variants : List Variant) × (ty.type_def ≡ variant variants)

-- Each pallet that declares a type by `select` declares an enum.
abbrev pub AreEnums : Registry → (PalletDeclaration → Option ℕ) → List PalletDeclaration → Type 0
AreEnums types select pallets =
    (p : PalletDeclaration) (id : ℕ) → Has p pallets → select p ≡ some id → IsEnum types id

module _ (types : Registry) where
  variants_of :
      (id : ℕ) (ty : RegistryType) (variants : List Variant)
      → types id ≡ some ty
      → get_type_def_variant types id ≡ ok variants
      → (def : TypeDef) → ty.type_def ≡ def
      → (vs : List Variant) × (def ≡ variant vs)
  unfolding get_type_def_variant
  variants_of id ty variants found h (variant vs) q = (vs, refl)
  variants_of id ty variants found h (composite fields) q =
      cc (rw (found, get_type_def_variant, q) at h)
  variants_of id ty variants found h (sequence element) q =
      cc (rw (found, get_type_def_variant, q) at h)
  variants_of id ty variants found h (array len element) q =
      cc (rw (found, get_type_def_variant, q) at h)
  variants_of id ty variants found h (tuple fields) q =
      cc (rw (found, get_type_def_variant, q) at h)
  variants_of id ty variants found h (primitive prim) q =
      cc (rw (found, get_type_def_variant, q) at h)
  variants_of id ty variants found h (compact inner) q =
      cc (rw (found, get_type_def_variant, q) at h)
  variants_of id ty variants found h bit_sequence q = cc (rw (found, get_type_def_variant, q) at h)

  get_type_def_variant-IsEnum :
      (id : ℕ) (variants : List Variant)
      → get_type_def_variant types id ≡ ok variants
      → IsEnum types id
  unfolding get_type_def_variant
  get_type_def_variant-IsEnum id variants h = elim (Option-cases (types id)) [
    | inl absent ↦ cc (rw (absent, get_type_def_variant) at h)
    | inr (ty, found) ↦
        let (vs, q) = variants_of id ty variants found h ty.type_def refl in (ty, found, vs, q)
  ]

  IsEnum-get_type_def_variant :
      (id : ℕ)
      → IsEnum types id
      → (variants : List Variant) × (get_type_def_variant types id ≡ ok variants)
  unfolding get_type_def_variant
  IsEnum-get_type_def_variant id (ty, found, variants, q) =
      (variants, rw (found, get_type_def_variant, q) refl)

  module _ (select : PalletDeclaration → Option ℕ) where
    pallet_variants-AreEnums :
        (ps : List PalletDeclaration) (pvs : List (PalletDeclaration × List Variant))
        → pallet_variants types select ps ≡ ok pvs
        → AreEnums types select ps
    pallet_variants-AreEnums [] pvs h p id has enum = absurd (Has-nil p has)
    pallet_variants-AreEnums (q ∷ qs) pvs h p id has enum =
        elim (first_pallet types select q qs pvs h) [
          | skipped no_enum later ↦ elim (Has-cons_cases p q qs has) [
            | inl same ↦ cc (sym no_enum ∙ ap select (sym same) ∙ enum)
            | inr more ↦ pallet_variants-AreEnums qs pvs later p id more enum
          ]
          | taken id' vs rest enum' resolved later e ↦ elim (Has-cons_cases p q qs has) [
            | inl same ↦
                let ids : id' ≡ id = cc (sym enum' ∙ ap select (sym same) ∙ enum) in
                subst (IsEnum types) ids (get_type_def_variant-IsEnum id' vs resolved)
            | inr more ↦ pallet_variants-AreEnums qs rest later p id more enum
          ]
        ]

    AreEnums-pallet_variants :
        (ps : List PalletDeclaration)
        → AreEnums types select ps
        → (pvs : List (PalletDeclaration × List Variant)) × (pallet_variants types select ps
            ≡ ok pvs)
    unfolding pallet_variants
    AreEnums-pallet_variants [] enums = ([], refl)
    AreEnums-pallet_variants (q ∷ qs) enums =
        let (rest, later) = AreEnums-pallet_variants qs (λ p id has. enums p id (there has)) in
        elim (Option-cases (select q)) [
          | inl no_enum ↦ (rest, rw (no_enum, pallet_variants) later)
          | inr (id, enum) ↦
              let (variants, resolved) = IsEnum-get_type_def_variant id (enums q id here enum) in
              ((q, variants) ∷ rest, rw (enum, pallet_variants, resolved, later) refl)
        ]

  IsEnum-pallet_calls_by_name :
      (p : PalletDeclaration)
      → ((id : ℕ) → p.calls ≡ some id → IsEnum types id)
      → (calls : HashMap String ℕ) × (pallet_calls_by_name types p ≡ ok calls)
  unfolding pallet_calls_by_name
  IsEnum-pallet_calls_by_name p enum = elim (Option-cases p.calls) [
    | inl no_enum ↦ ([], rw (no_enum, pallet_calls_by_name) refl)
    | inr (id, called) ↦
        let (variants, resolved) = IsEnum-get_type_def_variant id (enum id called) in
        (
          collect (map (λ (v : Variant). (v.name, v.index)) variants),
          rw (called, pallet_calls_by_name, resolved) refl,
        )
  ]

  IsEnum-pallet_entry :
      (p : PalletDeclaration)
      → ((id : ℕ) → p.calls ≡ some id → IsEnum types id)
      → (entry : String × PalletMetadata) × (pallet_entry types p ≡ ok entry)
  unfolding pallet_entry
  IsEnum-pallet_entry p enum =
      let (calls, called) = IsEnum-pallet_calls_by_name p enum in
      elim (Result-cases (pallet_entry types p)) [
        | inl made ↦ made
        | inr (e, h) ↦ cc (rw (called) at h)
      ]

-- Each pallet's calls, events and errors are enums of the registry.
abbrev pub IsResolved : RuntimeMetadataV14 → Type 0
IsResolved meta =
    AreEnums meta.types (λ p. p.calls) meta.pallets
    × AreEnums meta.types (λ p. p.event) meta.pallets
    × AreEnums meta.types (λ p. p.error) meta.pallets

module _ (meta : RuntimeMetadataV14) where
  from_v14-IsResolved : (md : Metadata) → from_v14 meta ≡ ok md → IsResolved meta
  unfolding from_v14
  from_v14-IsResolved md h =
      let (_, _, h1) = >>=-eq-ok (collect_results (pallet_entry meta.types) meta.pallets) _ h in
      let (calls, called, h2) =
        >>=-eq-ok (pallet_variants meta.types (λ p. p.calls) meta.pallets) _ h1 in
      let (events, told, h3) =
        >>=-eq-ok (pallet_variants meta.types (λ p. p.event) meta.pallets) _ h2 in
      let (errors, failed, _) =
        >>=-eq-ok (pallet_variants meta.types (λ p. p.error) meta.pallets) _ h3 in
      (
        pallet_variants-AreEnums meta.types (λ p. p.calls) meta.pallets calls called,
        pallet_variants-AreEnums meta.types (λ p. p.event) meta.pallets events told,
        pallet_variants-AreEnums meta.types (λ p. p.error) meta.pallets errors failed,
      )

  IsResolved-from_v14 : IsResolved meta → (md : Metadata) × (from_v14 meta ≡ ok md)
  unfolding from_v14
  IsResolved-from_v14 (calls, events, errors) =
      let (_, entries) =
        collect_results-ok (pallet_entry meta.types) meta.pallets
          (λ p has. IsEnum-pallet_entry meta.types p (λ id. calls p id has)) in
      let (_, called) = AreEnums-pallet_variants meta.types (λ p. p.calls) meta.pallets calls in
      let (_, told) = AreEnums-pallet_variants meta.types (λ p. p.event) meta.pallets events in
      let (_, failed) = AreEnums-pallet_variants meta.types (λ p. p.error) meta.pallets errors in
      elim (Result-cases (from_v14 meta)) [
        | inl made ↦ made
        | inr (e, h) ↦ cc (rw (entries, called, told, failed) at h)
      ]

module _ (meta_reserved : ℕ) (prefixed : RuntimeMetadataPrefixed) where
  -- The prefix and version are right, and each declared enum is in the registry.
  abbrev pub IsAccepted : Type 0
  IsAccepted =
      (prefixed.magic ≡ meta_reserved)
      × ((meta : RuntimeMetadataV14) × (prefixed.metadata ≡ v14 meta) × IsResolved meta)

  IsAccepted-try_from : IsAccepted → (md : Metadata) × (try_from meta_reserved prefixed ≡ ok md)
  unfolding try_from
  IsAccepted-try_from (magic, (meta, version, resolved)) =
      let (md, made) = IsResolved-from_v14 meta resolved in
      (md, rw ((nat_eq.beq_iff prefixed.magic meta_reserved).1 magic, version) made)

  try_from-IsAccepted :
      (m : RuntimeMetadata) (md : Metadata)
      → prefixed.metadata ≡ m
      → try_from meta_reserved prefixed ≡ ok md
      → IsAccepted
  unfolding try_from
  try_from-IsAccepted m md q h = elim (Bool-cases (prefixed.magic == meta_reserved)) [
    | inl same ↦
        ((nat_eq.beq_iff prefixed.magic meta_reserved).0 same, version_of m q (rw (same) at h))
    | inr other ↦ cc (rw (other) at h)
  ]
    where
      version_of :
          (m : RuntimeMetadata)
          → prefixed.metadata ≡ m
          → elim prefixed.metadata [
            | v14 meta ↦ from_v14 meta
            | other_version _ ↦ err invalid_version
          ]
            ≡ ok md
          → (meta : RuntimeMetadataV14) × (prefixed.metadata ≡ v14 meta) × IsResolved meta
      version_of (v14 meta) q h = (meta, q, from_v14-IsResolved meta md (rw (q) at h))
      version_of (other_version n) q h = cc (rw (q) at h)

-- `try_from` succeeds exactly on metadata with the right prefix, of version 14, whose registry has
-- an enum for the calls, the events and the errors of every pallet that declares these.
pub try_from_iff :
    (meta_reserved : ℕ) (prefixed : RuntimeMetadataPrefixed)
    → ((md : Metadata) × (try_from meta_reserved prefixed ≡ ok md))
      ↔ IsAccepted meta_reserved prefixed
try_from_iff meta_reserved prefixed = (
  λ (md, h). try_from-IsAccepted meta_reserved prefixed prefixed.metadata md refl h,
  IsAccepted-try_from meta_reserved prefixed,
)
