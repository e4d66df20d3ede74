-- ===== src/Metadata/Lookup.antt =====
-- The look-ups of node-api/src/metadata.rs on metadata that `try_from` has built.
use fusotao_rust_client.Prelude.Result.{collect_results}
use fusotao_rust_client.Prelude.{
  ℕ, ◌≡◌, sym, ap, ◌∙◌, ◌↔◌, Option, none, some, List, nat_eq, pair_eq, String, string_eq,
}
use fusotao_rust_client.Prelude.Result.{ok, >>=-eq-ok, ok_or}
use fusotao_rust_client.Prelude.HashMap.{HashMap, get, collect}
use fusotao_rust_client.External.FrameMetadata.{Variant, PalletDeclaration, RuntimeMetadataV14}
use fusotao_rust_client.Error.{MetadataError}
use fusotao_rust_client.Metadata.{
  Metadata, CallMetadata, EventMetadata, ErrorMetadata, PalletMetadata, call, event, error,
}
use fusotao_rust_client.Metadata.Parse.{
  pallet_entry, pallet_variants, variant_entries, call_value, event_value, error_value, from_v14,
}
use fusotao_rust_client.Metadata.Tables.{Declared, IsUnambiguous, table_sound, table_complete}

-- The parts from which `from_v14` has built its result.
pub record Parts (meta : RuntimeMetadataV14) (m : Metadata) : Type 0 where
  pub pallet_calls : List (PalletDeclaration × List Variant)
  pub pallet_events : List (PalletDeclaration × List Variant)
  pub pallet_errors : List (PalletDeclaration × List Variant)
  pub pallets : List (String × PalletMetadata)
  pub entries : collect_results (pallet_entry meta.types) meta.pallets ≡ ok pallets
  pub built_calls : pallet_variants meta.types (λ p. p.calls) meta.pallets ≡ ok pallet_calls
  pub built_events : pallet_variants meta.types (λ p. p.event) meta.pallets ≡ ok pallet_events
  pub built_errors : pallet_variants meta.types (λ p. p.error) meta.pallets ≡ ok pallet_errors
  pub from_pallets : m.pallets ≡ collect pallets
  pub from_calls : m.calls ≡ collect (variant_entries call_value pallet_calls)
  pub from_events : m.events ≡ collect (variant_entries event_value pallet_events)
  pub from_errors : m.errors ≡ collect (variant_entries error_value pallet_errors)

pub parts : (meta : RuntimeMetadataV14) (m : Metadata) → from_v14 meta ≡ ok m → Parts meta m
unfolding from_v14
parts meta m h =
    let (pallets, entries, h1) =
      >>=-eq-ok (collect_results (pallet_entry meta.types) meta.pallets) _ h in
    let (pc, built_calls, h2) =
      >>=-eq-ok (pallet_variants meta.types (λ p. p.calls) meta.pallets) _ h1 in
    let (pe, built_events, h3) =
      >>=-eq-ok (pallet_variants meta.types (λ p. p.event) meta.pallets) _ h2 in
    let (pr, built_errors, e) =
      >>=-eq-ok (pallet_variants meta.types (λ p. p.error) meta.pallets) _ h3 in
    record {
      pallet_calls = pc;
      pallet_events = pe;
      pallet_errors = pr;
      pallets = pallets;
      entries = entries;
      built_calls = built_calls;
      built_events = built_events;
      built_errors = built_errors;
      from_pallets = cc;
      from_calls = cc;
      from_events = cc;
      from_errors = cc;
    }

pub ok_or-eq-ok {ℓ κ} :
    {E : Type ℓ} {A : Type κ} (e : E) (o : Option A) (a : A) → (ok_or e o ≡ ok a) ↔ (o ≡ some a)
ok_or-eq-ok e none a = (λ h. cc, λ h. cc)
ok_or-eq-ok e (some b) a = (λ h. cc, λ h. cc)

-- `x` is what the table keeps for a declared variant with these indices.
abbrev pub Describes {ℓ} :
    {V : Type ℓ}
    → RuntimeMetadataV14
    → (PalletDeclaration → Option ℕ)
    → (PalletDeclaration → Variant → V)
    → ℕ
    → ℕ
    → V
    → Type ℓ
Describes meta select value i j x =
    (p : PalletDeclaration) × (v : Variant) × Declared meta.types select meta.pallets p v
    × (i ≡ p.index)
    × (j ≡ v.index)
    × (x ≡ value p v)

module _ {ℓ} {V : Type ℓ} (meta : RuntimeMetadataV14) (select : PalletDeclaration → Option ℕ)
    (value : PalletDeclaration → Variant → V) (pvs : List (PalletDeclaration × List Variant))
    (table : HashMap (ℕ × ℕ) V) where
  table_lookup :
      pallet_variants meta.types select meta.pallets ≡ ok pvs
      → table ≡ collect (variant_entries value pvs)
      → IsUnambiguous meta.types select meta.pallets
      → (i j : ℕ) (x : V) → (get (i, j) table ≡ some x) ↔ Describes meta select value i j x
  table_lookup built from alone i j x = (
    λ found.
        table_sound meta.types select value meta.pallets pvs built i j x
          (ap (get (i, j)) (sym from) ∙ found),
    λ (p, v, d, ei, ej, ex).
        (λ k. get (ei k, ej k) (from k))
        ∙ table_complete meta.types select value meta.pallets pvs built alone p v d
        ∙ ap some (sym ex),
  )

module _ (meta : RuntimeMetadataV14) (m : Metadata) (built : from_v14 meta ≡ ok m) (i j : ℕ) where
  -- In metadata that `from_v14` has built, and if no two calls share their indices, `call` finds
  -- exactly the variants of the declared call enums, each under the index of its pallet and its
  -- own index.
  pub call_lookup :
      IsUnambiguous meta.types (λ p. p.calls) meta.pallets
      → (x : CallMetadata) → (call m i j ≡ ok x) ↔ Describes meta (λ p. p.calls) call_value i j x
  unfolding call
  call_lookup alone x =
      let b = parts meta m built in
      let t =
        table_lookup meta (λ p. p.calls) call_value b.pallet_calls m.calls b.built_calls
          b.from_calls alone i j x in
      let o = ok_or-eq-ok (MetadataError.callable_not_found i j) (get (i, j) m.calls) x in
      (λ h. t.0 (o.0 h), λ d. o.1 (t.1 d))

  -- In metadata that `from_v14` has built, and if no two events share their indices, `event` finds
  -- exactly the variants of the declared event enums, each under the index of its pallet and its
  -- own index.
  pub event_lookup :
      IsUnambiguous meta.types (λ p. p.event) meta.pallets
      → (x : EventMetadata) → (event m i j ≡ ok x) ↔ Describes meta (λ p. p.event) event_value i j x
  unfolding event
  event_lookup alone x =
      let b = parts meta m built in
      let t =
        table_lookup meta (λ p. p.event) event_value b.pallet_events m.events b.built_events
          b.from_events alone i j x in
      let o = ok_or-eq-ok (MetadataError.event_not_found i j) (get (i, j) m.events) x in
      (λ h. t.0 (o.0 h), λ d. o.1 (t.1 d))

  -- In metadata that `from_v14` has built, and if no two errors share their indices, `error` finds
  -- exactly the variants of the declared error enums, each under the index of its pallet and its
  -- own index.
  pub error_lookup :
      IsUnambiguous meta.types (λ p. p.error) meta.pallets
      → (x : ErrorMetadata) → (error m i j ≡ ok x) ↔ Describes meta (λ p. p.error) error_value i j x
  unfolding error
  error_lookup alone x =
      let b = parts meta m built in
      let t =
        table_lookup meta (λ p. p.error) error_value b.pallet_errors m.errors b.built_errors
          b.from_errors alone i j x in
      let o = ok_or-eq-ok (MetadataError.error_not_found i j) (get (i, j) m.errors) x in
      (λ h. t.0 (o.0 h), λ d. o.1 (t.1 d))
