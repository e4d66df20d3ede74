-- ===== src/Prelude/HashMap.antt =====
-- `std::collections::HashMap` as an association list with at most one entry for a key.
use mathlib.Core.Path.{◌≡◌, refl, ap, ◌∙◌}
use mathlib.Core.Logic.{◌⊎◌, inl, inr}
use mathlib.Core.Option.{Option, none, some}
use mathlib.Core.List.{List, [], ◌∷◌}
use native.Mathlib.Omega.{arith}
use fusotao_rust_client.Prelude.Tests.{Eq, ◌==◌, if◌then◌else◌, Bool-cases}
use fusotao_rust_client.Prelude.Lists.{Has, here, there, Has-head, Has-cons_cases, Has-nil}

abbrev pub HashMap {ℓ κ} : Type ℓ → Type κ → Type (ℓ ⊔ κ)
HashMap K V = List (K × V)

module _ {ℓ κ} {K : Type ℓ} {V : Type κ} ⦃e : Eq K⦄ where
  unfoldable pub get : K → HashMap K V → Option V
  get k [] = none
  get k ((j, v) ∷ m) = if j == k then some v else get k m

  unfoldable pub insert : K → V → HashMap K V → HashMap K V
  insert k v [] = (k, v) ∷ []
  insert k v ((j, w) ∷ m) = if j == k then (k, v) ∷ m else (j, w) ∷ insert k v m

  unfoldable pub extend : HashMap K V → List (K × V) → HashMap K V
  extend m [] = m
  extend m ((k, v) ∷ entries) = extend (insert k v m) entries

  -- `entries.collect::<HashMap<_, _>>()`: a later entry replaces an earlier one of its key.
  unfoldable pub collect : List (K × V) → HashMap K V
  unfolding extend insert
  collect entries = extend [] entries

  pub get-insert :
      (k j : K) (v : V) (m : HashMap K V)
      → get j (insert k v m) ≡ (if k == j then some v else get j m)
  unfolding get insert
  get-insert k j v [] = refl
  get-insert k j v ((i, w) ∷ m) =
      ground (arith, e.beq_iff k j, e.beq_iff i k, e.beq_iff i j, get-insert k j v m)

  get-extend_old :
      (k : K) (v : V) (m : HashMap K V) (entries : List (K × V))
      → get k m ≡ some v
      → (w : V) × (get k (extend m entries) ≡ some w)
  unfolding extend
  get-extend_old k v m [] h = (v, h)
  get-extend_old k v m ((j, w) ∷ entries) h = elim (Bool-cases (j == k)) [
    | inl same ↦ get-extend_old k w (insert j w m) entries (rw (get-insert, same))
    | inr differ ↦ get-extend_old k v (insert j w m) entries (rw (get-insert, differ) h)
  ]

  get-extend_new :
      (k : K) (v : V) (m : HashMap K V) (entries : List (K × V))
      → Has (k, v) entries
      → (w : V) × (get k (extend m entries) ≡ some w)
  unfolding extend
  get-extend_new k v m [] h = elim h [ ]
  get-extend_new k v m (_ ∷ entries) here =
      get-extend_old k v (insert k v m) entries (rw (get-insert, (e.beq_iff k k).1 refl))
  get-extend_new k v m ((j, w) ∷ entries) (there h) = get-extend_new k v (insert j w m) entries h

  -- What the map holds after `extend` was in it before, or is one of the entries.
  get-extend_source :
      (k : K) (v : V) (m : HashMap K V) (entries : List (K × V))
      → get k (extend m entries) ≡ some v
      → (get k m ≡ some v) ⊎ Has (k, v) entries
  unfolding extend
  get-extend_source k v m [] h = inl h
  get-extend_source k v m ((j, w) ∷ entries) h =
      elim (get-extend_source k v (insert j w m) entries h) [
        | inl old ↦ inserted (rw get-insert at old)
        | inr new ↦ inr (there new)
      ]
    where
      inserted :
          (if j == k then some w else get k m) ≡ some v
          → (get k m ≡ some v) ⊎ Has (k, v) ((j, w) ∷ entries)
      inserted q = elim (Bool-cases (j == k)) [
        | inl same ↦ inr (Has-head entries (cc ((e.beq_iff j k).0 same, (rw same at q))))
        | inr differ ↦ inl (rw differ at q)
      ]

  -- A value found in a collected map was one of the entries.
  pub get-collect_sound :
      (k : K) (v : V) (entries : List (K × V))
      → get k (collect entries) ≡ some v
      → Has (k, v) entries
  unfolding collect get
  get-collect_sound k v entries h = elim (get-extend_source k v [] entries h) [
    | inl old ↦ cc
    | inr new ↦ new
  ]

  -- A key of the entries is found in the collected map.
  pub get-collect_total :
      (k : K) (v : V) (entries : List (K × V))
      → Has (k, v) entries
      → (w : V) × (get k (collect entries) ≡ some w)
  unfolding collect
  get-collect_total k v entries h = get-extend_new k v [] entries h

  -- If the entries give the key one value only, the collected map has it.
  pub get-collect_unique :
      (k : K) (v : V) (entries : List (K × V))
      → ((w : V) → Has (k, w) entries → w ≡ v)
      → Has (k, v) entries
      → get k (collect entries) ≡ some v
  get-collect_unique k v entries only h =
      let (w, found) = get-collect_total k v entries h in
      found ∙ ap some (only w (get-collect_sound k w entries found))

  -- What the list of a map holds, and what is found in it.
  pub get-Has : (k : K) (v : V) (m : HashMap K V) → get k m ≡ some v → Has (k, v) m
  unfolding get
  get-Has k v [] h = cc
  get-Has k v ((j, w) ∷ m) h = elim (Bool-cases (j == k)) [
    | inl same ↦ Has-head m (cc ((e.beq_iff j k).0 same, (rw same at h)))
    | inr differ ↦ there (get-Has k v m (rw differ at h))
  ]

  Has-insert_source :
      (x : K × V) (k : K) (v : V) (m : HashMap K V) → Has x (insert k v m) → (x ≡ (k, v)) ⊎ Has x m
  unfolding insert
  Has-insert_source x k v [] has = Has-cons_cases x (k, v) [] has
  Has-insert_source x k v ((j, w) ∷ m) has = elim (Bool-cases (j == k)) [
    | inl same ↦ elim (Has-cons_cases x (k, v) m (rw same at has)) [
      | inl new ↦ inl new
      | inr old ↦ inr (there old)
    ]
    | inr differ ↦ elim (Has-cons_cases x (j, w) (insert k v m) (rw differ at has)) [
      | inl old ↦ inr (Has-head m old)
      | inr more ↦ elim (Has-insert_source x k v m more) [
        | inl new ↦ inl new
        | inr old ↦ inr (there old)
      ]
    ]
  ]

  Has-extend_source :
      (x : K × V) (m : HashMap K V) (entries : List (K × V))
      → Has x (extend m entries)
      → Has x m ⊎ Has x entries
  unfolding extend
  Has-extend_source x m [] has = inl has
  Has-extend_source x m ((k, v) ∷ entries) has =
      elim (Has-extend_source x (insert k v m) entries has) [
        | inr later ↦ inr (there later)
        | inl before ↦ elim (Has-insert_source x k v m before) [
          | inl new ↦ inr (Has-head entries new)
          | inr old ↦ inl old
        ]
      ]

  -- What a collected map holds was one of the entries.
  pub Has-collect_source :
      (x : K × V) (entries : List (K × V)) → Has x (collect entries) → Has x entries
  unfolding collect
  Has-collect_source x entries has = elim (Has-extend_source x [] entries has) [
    | inl old ↦ absurd (Has-nil x old)
    | inr new ↦ new
  ]
