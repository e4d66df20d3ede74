-- ===== src/Decoder/Types/Variants.antt =====
-- How `decode_type` chooses the variant of an enum.
use fusotao_rust_client.Prelude.{
  ℕ, zero, suc, ◌≤◌, ◌<◌, ◌≡◌, ◌↔◌, refl, none, some, List, [], ◌∷◌, ◌++◌, length, get_elem?, arith,
  Has, here, there, ltb, Bool-cases, inl, inr,
}
use fusotao_rust_client.Prelude.Outcome.{ok}
use fusotao_rust_client.Prelude.Text.{Bytes}
use fusotao_rust_client.External.FrameMetadata.{Variant, RegistryType, Registry, variant}
use fusotao_rust_client.External.Codec.{RoundTrips}
use fusotao_rust_client.Decoder.Scale.{Scale}
use fusotao_rust_client.Decoder.Types.{
  each, decode_variant, decode_variant_at, decode_def, decode_type,
}

get_elem?-eq-none {ℓ} : {A : Type ℓ} (xs : List A) (n : ℕ) → length xs ≤ n → get_elem? xs n ≡ none
get_elem?-eq-none [] n le = refl
get_elem?-eq-none (x ∷ xs) zero le = absurd (omega arith)
get_elem?-eq-none (x ∷ xs) (suc n) le = get_elem?-eq-none xs n (omega arith)

get_elem?-lt {ℓ} :
    {A : Type ℓ} (xs : List A) (n : ℕ)
    → n < length xs
    → (x : A) × (get_elem? xs n ≡ some x) × Has x xs
get_elem?-lt [] n less = absurd (omega arith)
get_elem?-lt (x ∷ xs) zero less = (x, refl, here)
get_elem?-lt (x ∷ xs) (suc n) less =
    let (y, found, has) = get_elem?-lt xs n (omega arith) in (y, found, there has)

-- A value of an enum whose variants have no fields is the byte of its variant's index. Where the
-- codec reads this byte back, and with any fuel that lets `decode_type` begin, it is decoded exactly
-- if the index is below the number of variants, whatever the indices are that the variants have.
pub decode_type_fieldless_iff :
    (S : Scale) (types : Registry) (fuel id index : ℕ) (rest output : Bytes)
    (variants : List Variant) {ty : RegistryType}
    → types id ≡ some ty
    → ty.type_def ≡ variant variants
    → ((v : Variant) → Has v variants → v.fields ≡ [])
    → RoundTrips S.u8 index
    → (decode_type S types
          (suc fuel)
          id
          (record { input = S.u8.encode index ++ rest; output = output })
        ≡ ok (record { input = rest; output = output ++ S.u8.encode index }))
      ↔ (index < length variants)
unfolding decode_type decode_def decode_variant decode_variant_at each
decode_type_fieldless_iff S types fuel id index rest output variants found q plain back =
    elim (Bool-cases (ltb index (length variants))) [
      | inl small ↦ (
        λ h. ground (arith, small),
        λ less.
            let (v, at, has) = get_elem?-lt variants index less in
            rw (found, decode_type, q, back rest, decode_variant_at, at, plain v has, each) refl,
      )
      | inr large ↦ (
        λ h. cc (
            rw
              (
                found,
                decode_type,
                q,
                back rest,
                decode_variant_at,
                get_elem?-eq-none variants index (ground (arith, large)),
              )
              at h),
        λ less. absurd (ground (arith, large, less)),
      )
    ]
