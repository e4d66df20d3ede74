-- ===== src/Api/Fees/Bounds.antt =====
-- When the fees that a node reports fit the client's balances.
use fusotao_rust_client.Prelude.{ℕ, ◌<◌, ◌^◌, ◌≡◌, refl, ap, ◌∙◌, ◌↔◌, Option, none, some}
use fusotao_rust_client.Prelude.Result.{Result, ok, >>=-eq-ok, traverse}
use fusotao_rust_client.External.Runtime.{InclusionFee, FeeDetails}
use fusotao_rust_client.Rpc.ApiError.{try_from_int_error}
use fusotao_rust_client.Metadata.Lookup.{ok_or-eq-ok}
use fusotao_rust_client.Api.{Crates}
use fusotao_rust_client.Api.Fees.{
  NumberOrHex, try_into, inclusion_fee_with_balance, convert_fee_details,
}

module _ (C : Crates) where
  abbrev Converts : NumberOrHex C → ℕ → Type 0
  Converts n b = C.serde.try_into_u128 n ≡ some b

  abbrev ConvertsFee : InclusionFee (NumberOrHex C) → InclusionFee ℕ → Type 0
  ConvertsFee fee balances =
      Converts fee.base_fee balances.base_fee
      × Converts fee.len_fee balances.len_fee
      × Converts fee.adjusted_weight_fee balances.adjusted_weight_fee

  abbrev ConvertsInclusion :
      Option (InclusionFee (NumberOrHex C)) → Option (InclusionFee ℕ) → Type 0
  ConvertsInclusion none none = Unit
  ConvertsInclusion (some fee) (some balances) = ConvertsFee fee balances
  ConvertsInclusion _ _ = ⊥

  try_into_iff : (n : NumberOrHex C) (b : ℕ) → (try_into C n ≡ ok b) ↔ Converts n b
  try_into_iff n b = ok_or-eq-ok try_from_int_error (C.serde.try_into_u128 n) b

  ok-cancel {ℓ} : {A : Type ℓ} {E : Type 0} (a b : A) → ◌≡◌ {A = Result E A} (ok a) (ok b) → a ≡ b
  ok-cancel a b e = cc

  fee_iff :
      (fee : InclusionFee (NumberOrHex C)) (balances : InclusionFee ℕ)
      → (inclusion_fee_with_balance C fee ≡ ok balances) ↔ ConvertsFee fee balances
  unfolding inclusion_fee_with_balance
  fee_iff fee balances = (
    λ h.
        let (base, e1, h1) = >>=-eq-ok (try_into C fee.base_fee) _ h in
        let (len, e2, h2) = >>=-eq-ok (try_into C fee.len_fee) _ h1 in
        let (weight, e3, h3) = >>=-eq-ok (try_into C fee.adjusted_weight_fee) _ h2 in
        let same = ok-cancel _ balances h3 in
        (
          (try_into_iff fee.base_fee base).0 e1 ∙ ap (λ (f : InclusionFee ℕ). some f.base_fee) same,
          (try_into_iff fee.len_fee len).0 e2 ∙ ap (λ (f : InclusionFee ℕ). some f.len_fee) same,
          (try_into_iff fee.adjusted_weight_fee weight).0 e3
              ∙ ap (λ (f : InclusionFee ℕ). some f.adjusted_weight_fee) same,
        ),
    λ (base, len, weight). rw (base, len, weight),
  )

  inclusion_iff :
      (fee : Option (InclusionFee (NumberOrHex C))) (balances : Option (InclusionFee ℕ))
      → (traverse (inclusion_fee_with_balance C) fee ≡ ok balances) ↔ ConvertsInclusion fee balances
  inclusion_iff none none = (λ h. tt, λ h. refl)
  inclusion_iff none (some balances) = (λ h. cc, λ h. elim h [ ])
  inclusion_iff (some fee) none = (
    λ h. let (b, e, h1) = >>=-eq-ok (inclusion_fee_with_balance C fee) _ h in cc,
    λ h. elim h [ ],
  )
  inclusion_iff (some fee) (some balances) = (
    λ h.
        let (b, e, h1) = >>=-eq-ok (inclusion_fee_with_balance C fee) _ h in
        let same : b ≡ balances = cc in (fee_iff fee balances).0 (e ∙ ap ok same),
    λ fits. rw ((fee_iff fee balances).1 fits) refl,
  )

  convert_fee_details-Converts :
      (details : FeeDetails (NumberOrHex C)) (balances : FeeDetails ℕ)
      → (convert_fee_details C details ≡ ok balances) ↔ (
          ConvertsInclusion details.inclusion_fee balances.inclusion_fee
          × Converts details.tip balances.tip)
  unfolding convert_fee_details
  convert_fee_details-Converts details balances = (
    λ h.
        let (fee, e1, h1) =
          >>=-eq-ok (traverse (inclusion_fee_with_balance C) details.inclusion_fee) _ h in
        let (tip, e2, h2) = >>=-eq-ok (try_into C details.tip) _ h1 in
        let same = ok-cancel _ balances h2 in
        (
          (inclusion_iff details.inclusion_fee balances.inclusion_fee).0
              (e1 ∙ ap (λ (f : FeeDetails ℕ). ok f.inclusion_fee) same),
          (try_into_iff details.tip tip).0 e2 ∙ ap (λ (f : FeeDetails ℕ). some f.tip) same,
        ),
    λ (fits, tip).
        rw ((inclusion_iff details.inclusion_fee balances.inclusion_fee).1 fits, tip) refl,
  )

-- `TryFrom<NumberOrHex> for u128` of sp_rpc: the number itself, where it is below the bound, and
-- otherwise an error.
abbrev pub IsNumberConversion : (C : Crates) → (NumberOrHex C → ℕ) → Type 0
IsNumberConversion C value =
    (n : NumberOrHex C) (b : ℕ)
    → (C.serde.try_into_u128 n ≡ some b) ↔ ((value n ≡ b) × (b < 2 ^ 128))

module _ (C : Crates) (value : NumberOrHex C → ℕ) where
  -- The reported number is this balance, and fits an `u128`.
  abbrev pub Fits : NumberOrHex C → ℕ → Type 0
  Fits n b = (value n ≡ b) × (b < 2 ^ 128)

  abbrev pub FitsFee : InclusionFee (NumberOrHex C) → InclusionFee ℕ → Type 0
  FitsFee fee balances =
      Fits fee.base_fee balances.base_fee
      × Fits fee.len_fee balances.len_fee
      × Fits fee.adjusted_weight_fee balances.adjusted_weight_fee

  abbrev pub FitsInclusion :
      Option (InclusionFee (NumberOrHex C)) → Option (InclusionFee ℕ) → Type 0
  FitsInclusion none none = Unit
  FitsInclusion (some fee) (some balances) = FitsFee fee balances
  FitsInclusion _ _ = ⊥

  Converts-Fits :
      (fee : Option (InclusionFee (NumberOrHex C))) (balances : Option (InclusionFee ℕ))
      → IsNumberConversion C value
      → ConvertsInclusion C fee balances ↔ FitsInclusion fee balances
  Converts-Fits none none law = (λ h. h, λ h. h)
  Converts-Fits none (some b) law = (λ h. h, λ h. h)
  Converts-Fits (some fee) none law = (λ h. h, λ h. h)
  Converts-Fits (some fee) (some b) law = (
    λ (base, len, weight). (
      (law fee.base_fee b.base_fee).0 base,
      (law fee.len_fee b.len_fee).0 len,
      (law fee.adjusted_weight_fee b.adjusted_weight_fee).0 weight,
    ),
    λ (base, len, weight). (
      (law fee.base_fee b.base_fee).1 base,
      (law fee.len_fee b.len_fee).1 len,
      (law fee.adjusted_weight_fee b.adjusted_weight_fee).1 weight,
    ),
  )

  -- If the conversion of a `NumberOrHex` to an `u128` gives the number where it is below 2 ^ 128, and
  -- otherwise fails, then the conversion of fee details succeeds exactly if the tip and, where
  -- there is an inclusion fee, its three parts are below 2 ^ 128, and then each balance is the number
  -- that was reported.
  pub convert_fee_details_iff :
      (details : FeeDetails (NumberOrHex C)) (balances : FeeDetails ℕ)
      → IsNumberConversion C value
      → (convert_fee_details C details ≡ ok balances) ↔ (
          FitsInclusion details.inclusion_fee balances.inclusion_fee
          × Fits details.tip balances.tip)
  convert_fee_details_iff details balances law =
      let fees = Converts-Fits details.inclusion_fee balances.inclusion_fee law in
      let tips = law details.tip balances.tip in
      let whole = convert_fee_details-Converts C details balances in
      (
        λ h. let (fee, tip) = whole.0 h in (fees.0 fee, tips.0 tip),
        λ (fee, tip). whole.1 (fees.1 fee, tips.1 tip),
      )
