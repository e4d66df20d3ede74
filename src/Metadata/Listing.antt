-- ===== src/Metadata/Listing.antt =====
-- `events` and `errors` of node-api/src/metadata.rs, which list what a pallet declares.
use mathlib.Core.Path.{subst}
use fusotao_rust_client.Prelude.{
  ℕ, ◌≡◌, sym, ap, ◌∙◌, ◌↔◌, Option, some, List, [], ◌∷◌, inl, inr, Bool-cases, nat_eq, pair_eq,
  Has, there, Has-head, Has-nil, Has-cons_cases, ◌==◌,
}
use fusotao_rust_client.Prelude.Result.{ok}
use fusotao_rust_client.Prelude.HashMap.{HashMap, get, collect, get-Has, Has-collect_source}
use fusotao_rust_client.External.FrameMetadata.{Variant, PalletDeclaration, RuntimeMetadataV14}
use fusotao_rust_client.Metadata.{
  Metadata, EventMetadata, ErrorMetadata, event, error, values_of, events, errors,
}
use fusotao_rust_client.Metadata.Parse.{
  pallet_variants, variant_entries, event_value, error_value, from_v14,
}
use fusotao_rust_client.Metadata.Tables.{Declared, IsUnambiguous, entry_source, table_complete}
use fusotao_rust_client.Metadata.Lookup.{parts, Describes, event_lookup, error_lookup}

module _ {ℓ} {V : Type ℓ} (i : ℕ) (x : V) where
  Has-values_of : (j : ℕ) (m : HashMap (ℕ × ℕ) V) → Has ((i, j), x) m → Has x (values_of i m)
  unfolding values_of
  Has-values_of j [] has = absurd (Has-nil ((i, j), x) has)
  Has-values_of j (((p, q), y) ∷ m) has = elim (Has-cons_cases ((i, j), x) ((p, q), y) m has) [
    | inl same ↦
        rw ((nat_eq.beq_iff p i).1 (sym (ap (λ (r : (ℕ × ℕ) × V). r.0.0) same)))
          (Has-head (values_of i m) (ap (λ (r : (ℕ × ℕ) × V). r.1) same))
    | inr more ↦ elim (Bool-cases (p == i)) [
      | inl same ↦ rw (same) (there (Has-values_of j m more))
      | inr differ ↦ rw (differ) (Has-values_of j m more)
    ]
  ]

  Has-values_of_source :
      (m : HashMap (ℕ × ℕ) V) → Has x (values_of i m) → (j : ℕ) × Has ((i, j), x) m
  unfolding values_of
  Has-values_of_source [] has = absurd (Has-nil x has)
  Has-values_of_source (((p, q), y) ∷ m) has = elim (Bool-cases (p == i)) [
    | inl same ↦ elim (Has-cons_cases x y (values_of i m) (rw (same) at has)) [
      | inl first ↦ (q, Has-head m (λ k. ((sym ((nat_eq.beq_iff p i).0 same) k, q), first k)))
      | inr more ↦ let (j, later) = Has-values_of_source m more in (j, there later)
    ]
    | inr differ ↦ let (j, later) = Has-values_of_source m (rw (differ) at has) in (j, there later)
  ]

-- `x` is what the tables keep for a variant that a pallet with this index declares.
abbrev pub IsDeclaredBy {ℓ} :
    {V : Type ℓ}
    → RuntimeMetadataV14
    → (PalletDeclaration → Option ℕ)
    → (PalletDeclaration → Variant → V)
    → ℕ
    → V
    → Type ℓ
IsDeclaredBy meta select value i x =
    (p : PalletDeclaration) × (v : Variant) × Declared meta.types select meta.pallets p v
    × (i ≡ p.index)
    × (x ≡ value p v)

module _ {ℓ} {V : Type ℓ} (meta : RuntimeMetadataV14) (select : PalletDeclaration → Option ℕ)
    (value : PalletDeclaration → Variant → V) (pvs : List (PalletDeclaration × List Variant))
    (table : HashMap (ℕ × ℕ) V) (built : pallet_variants meta.types select meta.pallets ≡ ok pvs)
    (from : table ≡ collect (variant_entries value pvs))
    (alone : IsUnambiguous meta.types select meta.pallets) where
  values_of-IsDeclaredBy :
      (i : ℕ) (x : V) → Has x (values_of i table) ↔ IsDeclaredBy meta select value i x
  values_of-IsDeclaredBy i x = (
    λ has.
        let (j, listed) = Has-values_of_source i x table has in
        let (p, v, d, ei, ej, ex) =
          entry_source meta.types select value meta.pallets pvs built i j x (
            Has-collect_source ((i, j), x) (variant_entries value pvs)
              (subst (Has ((i, j), x)) from listed)) in
        (p, v, d, ei, ex),
    λ (p, v, d, ei, ex). Has-values_of i x v.index table (
        get-Has (i, v.index) x table
          ((λ k. get (ei k, v.index) (from k))
            ∙ table_complete meta.types select value meta.pallets pvs built alone p v d
            ∙ ap some (sym ex))),
  )

module _ (meta : RuntimeMetadataV14) (m : Metadata) (built : from_v14 meta ≡ ok m) (i : ℕ) where
  pub events-IsDeclaredBy :
      IsUnambiguous meta.types (λ p. p.event) meta.pallets
      → (x : EventMetadata) → Has x (events m i) ↔ IsDeclaredBy meta (λ p. p.event) event_value i x
  unfolding events
  events-IsDeclaredBy alone x =
      let b = parts meta m built in
      values_of-IsDeclaredBy meta (λ p. p.event) event_value b.pallet_events m.events b.built_events
        b.from_events alone i x

  -- In metadata that `from_v14` has built, and if no two events share their indices, `event` finds,
  -- and `events` lists for a pallet's index, exactly the variants of the declared event enums, each
  -- under the index of its pallet and, for `event`, its own index.
  pub events_declared :
      IsUnambiguous meta.types (λ p. p.event) meta.pallets
      → (j : ℕ) (x : EventMetadata)
      → ((event m i j ≡ ok x) ↔ Describes meta (λ p. p.event) event_value i j x)
        × (Has x (events m i) ↔ IsDeclaredBy meta (λ p. p.event) event_value i x)
  events_declared alone j x = (event_lookup meta m built i j alone x, events-IsDeclaredBy alone x)

  pub errors-IsDeclaredBy :
      IsUnambiguous meta.types (λ p. p.error) meta.pallets
      → (x : ErrorMetadata) → Has x (errors m i) ↔ IsDeclaredBy meta (λ p. p.error) error_value i x
  unfolding errors
  errors-IsDeclaredBy alone x =
      let b = parts meta m built in
      values_of-IsDeclaredBy meta (λ p. p.error) error_value b.pallet_errors m.errors b.built_errors
        b.from_errors alone i x

  -- In metadata that `from_v14` has built, and if no two errors share their indices, `error` finds,
  -- and `errors` lists for a pallet's index, exactly the variants of the declared error enums, each
  -- under the index of its pallet and, for `error`, its own index.
  pub errors_declared :
      IsUnambiguous meta.types (λ p. p.error) meta.pallets
      → (j : ℕ) (x : ErrorMetadata)
      → ((error m i j ≡ ok x) ↔ Describes meta (λ p. p.error) error_value i j x)
        × (Has x (errors m i) ↔ IsDeclaredBy meta (λ p. p.error) error_value i x)
  errors_declared alone j x = (error_lookup meta m built i j alone x, errors-IsDeclaredBy alone x)
