-- ===== src/Metadata/Tables.antt =====
-- What the tables of calls, events and errors hold: the declared variants, under their indices.
use mathlib.Core.Path.{subst}
use fusotao_rust_client.Prelude.{
  Has-nil, Has-head, ℕ, ◌≡◌, sym, ap, ◌∙◌, Option, none, some, List, [], ◌∷◌, inl, inr, Has, here,
  there, Has-append_left, Has-append_right, Has-append_cases, Has-cons_cases, Has-map,
  Has-map_source, Option-cases, nat_eq, pair_eq,
}
use fusotao_rust_client.Prelude.Result.{ok, >>=-eq-ok}
use fusotao_rust_client.Prelude.HashMap.{get, collect, get-collect_sound, get-collect_unique}
use fusotao_rust_client.External.FrameMetadata.{Variant, Registry, PalletDeclaration}
use fusotao_rust_client.Metadata.Parse.{
  flat_map, get_type_def_variant, pallet_variants, variant_entries,
}

-- `v` is a variant of the enum that the pallet `p` declares by `select`.
pub record Declared (types : Registry) (select : PalletDeclaration → Option ℕ)
    (pallets : List PalletDeclaration) (p : PalletDeclaration) (v : Variant) : Type 0 where
  pub listed : Has p pallets
  pub type_id : ℕ
  pub selected : select p ≡ some type_id
  pub variants : List Variant
  pub resolved : get_type_def_variant types type_id ≡ ok variants
  pub member : Has v variants

module _ {ℓ κ} {A : Type ℓ} {B : Type κ} (f : A → List B) where
  Has-flat_map : (y : B) (x : A) (xs : List A) → Has x xs → Has y (f x) → Has y (flat_map f xs)
  unfolding flat_map
  Has-flat_map y x [] h k = elim h [ ]
  Has-flat_map y x (_ ∷ xs) here k = Has-append_left (flat_map f xs) k
  Has-flat_map y x (z ∷ xs) (there h) k = Has-append_right (f z) (Has-flat_map y x xs h k)

  Has-flat_map_source :
      (y : B) (xs : List A) → Has y (flat_map f xs) → (x : A) × Has x xs × Has y (f x)
  unfolding flat_map
  Has-flat_map_source y [] h = elim h [ ]
  Has-flat_map_source y (x ∷ xs) h = elim (Has-append_cases y (f x) (flat_map f xs) h) [
    | inl first ↦ (x, here, first)
    | inr later ↦ let (z, has, k) = Has-flat_map_source y xs later in (z, there has, k)
  ]

module _ (types : Registry) (select : PalletDeclaration → Option ℕ) where
  -- How `pallet_variants` comes to a result on a list that begins with `q`.
  pub data FirstPallet (q : PalletDeclaration) (qs : List PalletDeclaration)
      (pvs : List (PalletDeclaration × List Variant)) : Type 0 where
    skipped : select q ≡ none → pallet_variants types select qs ≡ ok pvs → FirstPallet q qs pvs
    taken :
        (id : ℕ) (variants : List Variant) (rest : List (PalletDeclaration × List Variant))
        → select q ≡ some id
        → get_type_def_variant types id ≡ ok variants
        → pallet_variants types select qs ≡ ok rest
        → pvs ≡ (q, variants) ∷ rest
        → FirstPallet q qs pvs

  pub first_pallet :
      (q : PalletDeclaration) (qs : List PalletDeclaration)
      (pvs : List (PalletDeclaration × List Variant))
      → pallet_variants types select (q ∷ qs) ≡ ok pvs
      → FirstPallet q qs pvs
  unfolding pallet_variants
  first_pallet q qs pvs h = elim (Option-cases (select q)) [
    | inl no_enum ↦ skipped no_enum (rw (no_enum, pallet_variants) at h)
    | inr (id, enum) ↦
        let (variants, resolved, k) =
          >>=-eq-ok (get_type_def_variant types id) _ (rw (enum, pallet_variants) at h) in
        let (rest, later, e) = >>=-eq-ok (pallet_variants types select qs) _ k in
        taken id variants rest enum resolved later (cc)
  ]

  pallet_variants-source :
      (ps : List PalletDeclaration) (pvs : List (PalletDeclaration × List Variant))
      (p : PalletDeclaration) (variants : List Variant)
      → pallet_variants types select ps ≡ ok pvs
      → Has (p, variants) pvs
      → Has p ps × ((id : ℕ) × (select p ≡ some id) × (get_type_def_variant types id ≡ ok variants))
  unfolding pallet_variants
  pallet_variants-source [] pvs p variants h has =
      let none_left : pvs ≡ [] = cc in
      absurd (Has-nil (p, variants) (subst (Has (p, variants)) none_left has))
  pallet_variants-source (q ∷ qs) pvs p variants h has = elim (first_pallet q qs pvs h) [
    | skipped _ later ↦
        let (listed, origin) = pallet_variants-source qs pvs p variants later has in
        (there listed, origin)
    | taken id vs rest enum resolved later e ↦
        elim (Has-cons_cases (p, variants) (q, vs) rest (subst (Has (p, variants)) e has)) [
          | inl same ↦ (
            Has-head qs (ap (λ (r : PalletDeclaration × List Variant). r.0) same),
            (
              id,
              ap (λ (r : PalletDeclaration × List Variant). select r.0) same ∙ enum,
              resolved ∙ ap ok (sym (ap (λ (r : PalletDeclaration × List Variant). r.1) same)),
            ),
          )
          | inr more ↦
              let (listed, origin) = pallet_variants-source qs rest p variants later more in
              (there listed, origin)
        ]
  ]

  pallet_variants-target :
      (ps : List PalletDeclaration) (pvs : List (PalletDeclaration × List Variant))
      (p : PalletDeclaration) (id : ℕ) (variants : List Variant)
      → pallet_variants types select ps ≡ ok pvs
      → Has p ps
      → select p ≡ some id
      → get_type_def_variant types id ≡ ok variants
      → Has (p, variants) pvs
  pallet_variants-target [] pvs p id variants h has enum resolved = absurd (Has-nil p has)
  pallet_variants-target (q ∷ qs) pvs p id variants h has enum resolved =
      elim (first_pallet q qs pvs h) [
        | skipped no_enum later ↦ elim (Has-cons_cases p q qs has) [
          | inl same ↦ cc (sym no_enum ∙ ap select (sym same) ∙ enum)
          | inr more ↦ pallet_variants-target qs pvs p id variants later more enum resolved
        ]
        | taken id' vs rest enum' resolved' later e ↦
            subst (Has (p, variants)) (sym e) (elim (Has-cons_cases p q qs has) [
              | inl same ↦ Has-head rest (same_variants id' vs enum' resolved' same)
              | inr more ↦
                  there (pallet_variants-target qs rest p id variants later more enum resolved)
            ])
      ]
    where
      same_variants :
          (id' : ℕ) (vs : List Variant)
          → select q ≡ some id'
          → get_type_def_variant types id' ≡ ok vs
          → p ≡ q
          → ◌≡◌ {A = PalletDeclaration × List Variant} (p, variants) (q, vs)
      same_variants id' vs enum' resolved' same =
          let ids : id ≡ id' = cc (sym enum ∙ ap select same ∙ enum') in
          let both : variants ≡ vs =
            cc (sym resolved ∙ ap (get_type_def_variant types) ids ∙ resolved') in
          λ i. (same i, both i)

  module _ {ℓ} {V : Type ℓ} (value : PalletDeclaration → Variant → V) where
    Has-variant_entries :
        (pvs : List (PalletDeclaration × List Variant)) (p : PalletDeclaration)
        (variants : List Variant) (v : Variant)
        → Has (p, variants) pvs
        → Has v variants
        → Has ((p.index, v.index), value p v) (variant_entries value pvs)
    unfolding variant_entries
    Has-variant_entries pvs p variants v has member =
        Has-flat_map _ _ (p, variants) pvs has
          (Has-map (λ (v : Variant). ((p.index, v.index), value p v)) member)

    Has-variant_entries_source :
        (pvs : List (PalletDeclaration × List Variant)) (i j : ℕ) (x : V)
        → Has ((i, j), x) (variant_entries value pvs)
        → (p : PalletDeclaration) × (variants : List Variant) × (v : Variant) × Has
            (p, variants)
            pvs
          × Has v variants
          × (i ≡ p.index)
          × (j ≡ v.index)
          × (x ≡ value p v)
    unfolding variant_entries
    Has-variant_entries_source pvs i j x has =
        let ((p, variants), listed, h) = Has-flat_map_source _ ((i, j), x) pvs has in
        let (v, member, e) = Has-map_source _ ((i, j), x) variants h in
        (
          p,
          variants,
          v,
          listed,
          member,
          ap (λ (r : (ℕ × ℕ) × V). r.0.0) e,
          ap (λ (r : (ℕ × ℕ) × V). r.0.1) e,
          ap (λ (r : (ℕ × ℕ) × V). r.1) e,
        )

-- No two declared variants share the index of their pallet and their own index.
abbrev pub IsUnambiguous :
    Registry → (PalletDeclaration → Option ℕ) → List PalletDeclaration → Type 0
IsUnambiguous types select pallets =
    (p q : PalletDeclaration) (v w : Variant)
    → Declared types select pallets p v
    → Declared types select pallets q w
    → p.index ≡ q.index
    → v.index ≡ w.index
    → (p ≡ q) × (v ≡ w)

-- The table built from the declared variants holds each of them under its indices, and no more.
module _ {ℓ} {V : Type ℓ} (types : Registry) (select : PalletDeclaration → Option ℕ)
    (value : PalletDeclaration → Variant → V) (pallets : List PalletDeclaration)
    (pvs : List (PalletDeclaration × List Variant))
    (built : pallet_variants types select pallets ≡ ok pvs) where
  pub entry_source :
      (i j : ℕ) (x : V)
      → Has ((i, j), x) (variant_entries value pvs)
      → (p : PalletDeclaration) × (v : Variant) × Declared types select pallets p v
        × (i ≡ p.index)
        × (j ≡ v.index)
        × (x ≡ value p v)
  entry_source i j x has =
      let (p, variants, v, listed, member, ei, ej, ex) =
        Has-variant_entries_source types select value pvs i j x has in
      let (declared, (id, enum, resolved)) =
        pallet_variants-source types select pallets pvs p variants built listed in
      (
        p,
        v,
        record {
          listed = declared;
          type_id = id;
          selected = enum;
          variants = variants;
          resolved = resolved;
          member = member;
        },
        ei,
        ej,
        ex,
      )

  pub table_sound :
      (i j : ℕ) (x : V)
      → get (i, j) (collect (variant_entries value pvs)) ≡ some x
      → (p : PalletDeclaration) × (v : Variant) × Declared types select pallets p v
        × (i ≡ p.index)
        × (j ≡ v.index)
        × (x ≡ value p v)
  table_sound i j x found =
      entry_source i j x (get-collect_sound (i, j) x (variant_entries value pvs) found)

  pub table_complete :
      IsUnambiguous types select pallets
      → (p : PalletDeclaration) (v : Variant) → Declared types select pallets p v
      → get (p.index, v.index) (collect (variant_entries value pvs)) ≡ some (value p v)
  table_complete alone p v d =
      get-collect_unique (p.index, v.index) (value p v) (variant_entries value pvs)
        (λ x has.
          let (q, w, dq, ei, ej, ex) = entry_source p.index v.index x has in
          let (same, both) = alone q p w v dq d (sym ei) (sym ej) in
          ex ∙ (λ i. value (same i) (both i)))
        (Has-variant_entries types select value pvs p d.variants v
          (pallet_variants-target types select pallets pvs p d.type_id d.variants built d.listed
            d.selected d.resolved)
          d.member)
