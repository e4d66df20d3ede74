-- ===== src/Prelude/Lists.antt =====
-- Lists measured and indexed by native numbers, under the library's names.
use Prim.Native.Nat.{ℕ, zero, suc, ◌+◌}
use mathlib.Core.Path.{◌≡◌, refl, sym, ◌∙◌, ap, subst}
use mathlib.Core.List.{List, [], ◌∷◌, ◌++◌, map, append_assoc, append_cancel_left}
use mathlib.Core.Logic.{◌⊎◌, inl, inr}
use mathlib.Core.Option.{Option, none, some}
use native.Mathlib.Omega.{arith}

module _ {ℓ} {A : Type ℓ} where
  abbrev pub length : List A → ℕ
  length [] = 0
  length (x ∷ xs) = suc (length xs)

  abbrev pub get_elem? : List A → ℕ → Option A
  get_elem? [] i = none
  get_elem? (x ∷ xs) zero = some x
  get_elem? (x ∷ xs) (suc i) = get_elem? xs i

  abbrev pub take : ℕ → List A → List A
  take zero xs = []
  take (suc n) [] = []
  take (suc n) (x ∷ xs) = x ∷ take n xs

  abbrev pub drop : ℕ → List A → List A
  drop zero xs = xs
  drop (suc n) [] = []
  drop (suc n) (x ∷ xs) = drop n xs

  abbrev pub replicate : ℕ → A → List A
  replicate zero a = []
  replicate (suc n) a = a ∷ replicate n a

  pub length-append : (xs ys : List A) → length (xs ++ ys) ≡ length xs + length ys
  length-append [] ys = omega arith
  length-append (x ∷ xs) ys = omega (arith, length-append xs ys)

  pub length-replicate : (n : ℕ) (a : A) → length (replicate n a) ≡ n
  length-replicate zero a = refl
  length-replicate (suc n) a = ap suc (length-replicate n a)

  pub drop-append : (xs ys : List A) → drop (length xs) (xs ++ ys) ≡ ys
  drop-append [] ys = refl
  drop-append (x ∷ xs) ys = drop-append xs ys

  pub take-append : (xs ys : List A) → take (length xs) (xs ++ ys) ≡ xs
  take-append [] ys = refl
  take-append (x ∷ xs) ys = ap (λ r. x ∷ r) (take-append xs ys)

  -- Membership, with the place kept.
  pub data Has (x : A) : List A → Type ℓ where
    here : {xs : List A} → Has x (x ∷ xs)
    there : {y : A} {xs : List A} → Has x xs → Has x (y ∷ xs)

  pub Has-append_left : {x : A} {xs : List A} (ys : List A) → Has x xs → Has x (xs ++ ys)
  Has-append_left ys here = here
  Has-append_left ys (there h) = there (Has-append_left ys h)

  pub Has-append_right : {x : A} (xs : List A) {ys : List A} → Has x ys → Has x (xs ++ ys)
  Has-append_right [] h = h
  Has-append_right (y ∷ xs) h = there (Has-append_right xs h)

  pub Has-head : {x y : A} (xs : List A) → x ≡ y → Has x (y ∷ xs)
  Has-head {x} xs p = subst (λ z. Has x (z ∷ xs)) p here

  -- Equal lists whose first parts have one length agree in the second parts.
  pub append_inj_right :
      (xs ys : List A) {us vs : List A} → length xs ≡ length ys → xs ++ us ≡ ys ++ vs → us ≡ vs
  append_inj_right [] [] l e = e
  append_inj_right [] (y ∷ ys) l e = absurd (omega (arith, l))
  append_inj_right (x ∷ xs) [] l e = absurd (omega (arith, l))
  append_inj_right (x ∷ xs) (y ∷ ys) l e = append_inj_right xs ys (omega (arith, l)) (ap (drop 1) e)

  pub append_cancel_prefix :
      (p xs ys us vs : List A) → (p ++ xs) ++ us ≡ (p ++ ys) ++ vs → xs ++ us ≡ ys ++ vs
  append_cancel_prefix p xs ys us vs e =
      append_cancel_left p _ _ (sym (append_assoc p xs us) ∙ e ∙ append_assoc p ys vs)

module _ {ℓ} {A : Type ℓ} where
  pub Has-append_cases : (x : A) (xs ys : List A) → Has x (xs ++ ys) → Has x xs ⊎ Has x ys
  Has-append_cases x [] ys h = inr h
  Has-append_cases x (y ∷ xs) ys here = inl here
  Has-append_cases x (y ∷ xs) ys (there h) = elim (Has-append_cases x xs ys h) [
    | inl left ↦ inl (there left)
    | inr right ↦ inr right
  ]

module _ {ℓ} {A : Type ℓ} where
  pub Has-cons_cases : (x y : A) (xs : List A) → Has x (y ∷ xs) → (x ≡ y) ⊎ Has x xs
  Has-cons_cases x y xs here = inl refl
  Has-cons_cases x y xs (there h) = inr h

module _ {ℓ κ} {A : Type ℓ} {B : Type κ} (f : A → B) where
  pub Has-map : {x : A} {xs : List A} → Has x xs → Has (f x) (map f xs)
  Has-map here = here
  Has-map (there h) = there (Has-map h)

  pub Has-map_source : (y : B) (xs : List A) → Has y (map f xs) → (x : A) × Has x xs × (y ≡ f x)
  Has-map_source y [] h = elim h [ ]
  Has-map_source y (x ∷ xs) h = elim (Has-cons_cases y (f x) (map f xs) h) [
    | inl e ↦ (x, here, e)
    | inr more ↦ let (z, has, e) = Has-map_source y xs more in (z, there has, e)
  ]

pub Has-nil {ℓ} : {A : Type ℓ} (x : A) → ¬ Has x []
Has-nil x h = elim h [ ]

pub drop-replicate_append {ℓ} :
    {A : Type ℓ} (n : ℕ) (a : A) (ys : List A) → drop n (replicate n a ++ ys) ≡ ys
drop-replicate_append zero a ys = refl
drop-replicate_append (suc n) a ys = drop-replicate_append n a ys
