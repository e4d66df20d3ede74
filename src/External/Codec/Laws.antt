-- ===== src/External/Codec/Laws.antt =====
-- What follows from the round trip of a codec.
use fusotao_rust_client.Prelude.{◌≡◌, ap, sym, ◌∙◌, [], ◌++◌}
use fusotao_rust_client.Prelude.Result.{Result, ok}
use fusotao_rust_client.Prelude.Text.{Bytes}
use fusotao_rust_client.External.Codec.{Codec, RoundTrips, CodecError}

module _ {ℓ} {A : Type ℓ} (c : Codec A) where
  -- Encodings are prefix free: equal texts that begin with two of them agree part by part.
  pub encode_prefix_free :
      (a b : A) (r s : Bytes)
      → RoundTrips c a
      → RoundTrips c b
      → c.encode a ++ r ≡ c.encode b ++ s
      → (a ≡ b) × (r ≡ s)
  encode_prefix_free a b r s ra rb e =
      let read : Result CodecError (A × Bytes) → A × Bytes =
        λ o. elim o [ ok p ↦ p | _ ↦ (a, r) ] in
      let same = ap read (sym (ra r) ∙ ap c.decode e ∙ rb s) in
      (ap (λ (p : A × Bytes). p.0) same, ap (λ (p : A × Bytes). p.1) same)

  pub encode-injective :
      (a b : A) → RoundTrips c a → RoundTrips c b → c.encode a ≡ c.encode b → a ≡ b
  encode-injective a b ra rb e = (encode_prefix_free a b [] [] ra rb (ap (λ x. x ++ []) e)).0
