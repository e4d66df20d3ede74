-- ===== src/Prelude/Outcome.antt =====
-- The outcome of code that may also panic. `out_of_fuel` has no counterpart in the program: it is
-- what the model returns when its bound on the depth of a recursion is too small.
use mathlib.Core.Path.{◌≡◌, refl}
use mathlib.Core.Logic.{◌≢◌}
use mathlib.Core.Option.{Option, none, some}
use fusotao_rust_client.Prelude.Result.{Result}

pub data Outcome {ℓ κ} (E : Type ℓ) (A : Type κ) : Type (ℓ ⊔ κ) where
  ok : A → Outcome E A
  err : E → Outcome E A
  panicked out_of_fuel : Outcome E A

infixl 5 ◌>>=◌
abbrev pub ◌>>=◌ {ℓ κ μ} :
    {E : Type ℓ} {A : Type κ} {B : Type μ} → Outcome E A → (A → Outcome E B) → Outcome E B
ok a >>= f = f a
err e >>= f = err e
panicked >>= f = panicked
out_of_fuel >>= f = out_of_fuel

-- `r?` where the error is converted by `convert`.
abbrev pub lift {ℓ κ μ} :
    {F : Type ℓ} {E : Type κ} {A : Type μ} → (F → E) → Result F A → Outcome E A
lift convert (Result.ok a) = ok a
lift convert (Result.err e) = err (convert e)

-- `r.unwrap()`
abbrev pub unwrap {ℓ κ μ} : {F : Type ℓ} {E : Type κ} {A : Type μ} → Result F A → Outcome E A
unwrap (Result.ok a) = ok a
unwrap (Result.err e) = panicked

pub >>=-eq-ok {ℓ κ μ} :
    {E : Type ℓ} {A : Type κ} {B : Type μ} (r : Outcome E A) (next : A → Outcome E B) {last : B}
    → (r >>= next) ≡ ok last
    → (first : A) × (r ≡ ok first) × (next first ≡ ok last)
>>=-eq-ok out_of_fuel next chain = cc
>>=-eq-ok panicked next chain = cc
>>=-eq-ok (err e) next chain = cc
>>=-eq-ok (ok first) next chain = (first, refl, chain)

pub lift-eq-ok {ℓ κ μ} :
    {F : Type ℓ} {E : Type κ} {A : Type μ} (convert : F → E) (r : Result F A) {a : A}
    → lift convert r ≡ ok a
    → r ≡ Result.ok a
lift-eq-ok convert (Result.ok a) h = cc
lift-eq-ok convert (Result.err e) h = cc

module _ {ℓ κ μ} {E : Type ℓ} {A : Type κ} {B : Type μ} where
  pub bind-ne-out_of_fuel :
      (m : Outcome E A) (f : A → Outcome E B)
      → m ≢ out_of_fuel
      → ((a : A) → f a ≢ out_of_fuel)
      → (m >>= f) ≢ out_of_fuel
  bind-ne-out_of_fuel (ok a) f hm hf = hf a
  bind-ne-out_of_fuel (err e) f hm hf = λ h. cc
  bind-ne-out_of_fuel panicked f hm hf = λ h. cc
  bind-ne-out_of_fuel out_of_fuel f hm hf = λ h. hm refl

  pub bind-congr :
      (m : Outcome E A) (f g : A → Outcome E B) → ((a : A) → f a ≡ g a) → (m >>= f) ≡ (m >>= g)
  bind-congr (ok a) f g h = h a
  bind-congr (err e) f g h = refl
  bind-congr panicked f g h = refl
  bind-congr out_of_fuel f g h = refl

pub lift-ne-out_of_fuel {ℓ κ μ} :
    {F : Type ℓ} {E : Type κ} {A : Type μ} (convert : F → E) (r : Result F A)
    → lift convert r ≢ out_of_fuel
lift-ne-out_of_fuel convert (Result.ok a) = λ h. cc
lift-ne-out_of_fuel convert (Result.err e) = λ h. cc

-- `o.unwrap()` of an `Option`
abbrev pub unwrap_some {ℓ κ} : {E : Type ℓ} {A : Type κ} → Option A → Outcome E A
unwrap_some none = panicked
unwrap_some (some a) = ok a
