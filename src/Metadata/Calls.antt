-- ===== src/Metadata/Calls.antt =====
-- A call that `encode_call` encodes by its name is the call that the table has under the two bytes
-- which it writes.
use fusotao_rust_client.Prelude.Result.{collect_results}
use fusotao_rust_client.Prelude.{
  ℕ, ◌≡◌, refl, sym, ap, subst, ◌∙◌, some, List, [], ◌∷◌, Option-cases, inl, inr, nat_eq, pair_eq,
  String, string_eq, Has, here, there, Has-nil, Has-cons_cases, Has-map_source, map,
}
use fusotao_rust_client.Prelude.Result.{Result, ok, err, >>=-eq-ok, ok_or}
use fusotao_rust_client.Prelude.HashMap.{HashMap, get, collect, get-collect_sound}
use fusotao_rust_client.Prelude.Text.{Bytes}
use fusotao_rust_client.External.Codec.{Codec}
use fusotao_rust_client.External.FrameMetadata.{
  Variant, Registry, PalletDeclaration, RuntimeMetadataV14,
}
use fusotao_rust_client.Error.{MetadataError, InvalidMetadataError}
use fusotao_rust_client.Metadata.{Metadata, CallMetadata, PalletMetadata, call, pallet, encode_call}
use fusotao_rust_client.Metadata.Parse.{
  get_type_def_variant, pallet_calls_by_name, pallet_entry, call_value, from_v14,
}
use fusotao_rust_client.Metadata.Tables.{Declared, IsUnambiguous}
use fusotao_rust_client.Metadata.Lookup.{parts, ok_or-eq-ok, call_lookup}

pub collect_results-source {ℓ κ} :
    {E : Type 0} {A : Type ℓ} {B : Type κ} (f : A → Result E B) (xs : List A) (ys : List B) (y : B)
    → collect_results f xs ≡ ok ys
    → Has y ys
    → (x : A) × Has x xs × (f x ≡ ok y)
unfolding collect_results
collect_results-source {B} f [] ys y h has =
    let empty : ys ≡ [] = cc in absurd (Has-nil y (subst (Has y) empty has))
collect_results-source {B} f (x ∷ xs) ys y h has =
    let (z, first, h1) = >>=-eq-ok (f x) _ h in
    let (zs, later, e) = >>=-eq-ok (collect_results f xs) _ h1 in
    let whole : ys ≡ z ∷ zs = cc in
    elim (Has-cons_cases y z zs (subst (Has y) whole has)) [
      | inl same ↦ (x, here, first ∙ ap ok (sym same))
      | inr more ↦
          let (w, listed, k) = collect_results-source f xs zs y later more in (w, there listed, k)
    ]

module _ (types : Registry) (p : PalletDeclaration) where
  pallet_entry-source :
      (name : String) (m : PalletMetadata)
      → pallet_entry types p ≡ ok (name, m)
      → (name ≡ p.name) × (m.index ≡ p.index) × (pallet_calls_by_name types p ≡ ok m.calls)
  unfolding pallet_entry
  pallet_entry-source name m h =
      let (calls, found, e) = >>=-eq-ok (pallet_calls_by_name types p) _ h in
      let pick : Result InvalidMetadataError (String × PalletMetadata) → String × PalletMetadata =
        λ r. elim r [ ok x ↦ x | err _ ↦ (name, m) ] in
      let same = ap pick e in
      (
        sym (ap (λ (r : String × PalletMetadata). r.0) same),
        sym (ap (λ (r : String × PalletMetadata). r.1.index) same),
        found ∙ ap ok (ap (λ (r : String × PalletMetadata). r.1.calls) same),
      )

  -- A call known by its name is a declared variant with that name.
  pallet_calls_by_name-source :
      (calls : HashMap String ℕ) (name : String) (index : ℕ)
      → pallet_calls_by_name types p ≡ ok calls
      → get name calls ≡ some index
      → (id : ℕ) × (variants : List Variant) × (v : Variant) × (p.calls ≡ some id)
        × (get_type_def_variant types id ≡ ok variants)
        × Has v variants
        × (v.name ≡ name)
        × (v.index ≡ index)
  unfolding pallet_calls_by_name get
  pallet_calls_by_name-source calls name index h found = elim (Option-cases p.calls) [
    | inl no_calls ↦
        let empty : calls ≡ [] = cc (rw (no_calls, pallet_calls_by_name) at h) in
        cc (rw (empty, get) at found)
    | inr (id, enum) ↦
        let (variants, resolved, e) =
          >>=-eq-ok (get_type_def_variant types id) _ (rw (enum, pallet_calls_by_name) at h) in
        let entries = map (λ (v : Variant). (v.name, v.index)) variants in
        let built : calls ≡ collect entries = cc in
        let (v, member, k) =
          Has-map_source (λ (v : Variant). (v.name, v.index)) (name, index) variants
            (get-collect_sound name index entries (ap (get name) (sym built) ∙ found)) in
        (
          id,
          variants,
          v,
          enum,
          resolved,
          member,
          sym (ap (λ (r : String × ℕ). r.0) k),
          sym (ap (λ (r : String × ℕ). r.1) k),
        )
  ]

-- In metadata that `from_v14` has built, and if no two calls share their indices, the bytes that
-- `encode_call` makes of a pallet's call begin with two indices under which `call` finds that
-- pallet and that call, and go on with the encoded arguments.
pub encode_call_found {ℓ} :
    {C : Type ℓ} (c : Codec C) (meta : RuntimeMetadataV14) (m : Metadata) (p : PalletMetadata)
    (pallet_name call_name : String) (args : C) (bytes : Bytes)
    → from_v14 meta ≡ ok m
    → IsUnambiguous meta.types (λ q. q.calls) meta.pallets
    → pallet m pallet_name ≡ ok p
    → encode_call c p call_name args ≡ ok bytes
    → (i : ℕ) × (j : ℕ) × (x : CallMetadata) × (bytes ≡ i ∷ j ∷ c.encode args)
      × (call m i j ≡ ok x)
      × (x.pallet ≡ pallet_name)
      × (x.call ≡ call_name)
unfolding pallet encode_call
encode_call_found c meta m p pallet_name call_name args bytes built alone found encoded =
    let b = parts meta m built in
    let listed = get-collect_sound pallet_name p b.pallets (
      ap (get pallet_name) (sym b.from_pallets)
      ∙ (ok_or-eq-ok (MetadataError.pallet_not_found pallet_name) (get pallet_name m.pallets) p).0
          found) in
    let (q, declared, entry) =
      collect_results-source (pallet_entry meta.types) meta.pallets b.pallets (pallet_name, p)
        b.entries listed in
    let (same_name, same_index, by_name) = pallet_entry-source meta.types q pallet_name p entry in
    let (j, known, e) =
      >>=-eq-ok (ok_or (MetadataError.call_not_found call_name) (get call_name p.calls)) _
        encoded in
    let (id, variants, v, enum, resolved, member, v_name, v_index) =
      pallet_calls_by_name-source meta.types q p.calls call_name j by_name (
        (ok_or-eq-ok (MetadataError.call_not_found call_name) (get call_name p.calls) j).0 known) in
    let d : Declared meta.types (λ q. q.calls) meta.pallets q v = record {
      listed = declared;
      type_id = id;
      selected = enum;
      variants = variants;
      resolved = resolved;
      member = member;
    } in
    (
      p.index,
      j,
      call_value q v,
      cc,
      (call_lookup meta m built p.index j alone (call_value q v)).1
          (q, v, d, same_index, sym v_index, refl),
      sym same_name,
      v_name,
    )
