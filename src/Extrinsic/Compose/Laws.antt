-- ===== src/Extrinsic/Compose/Laws.antt =====
-- What the composed calls and extrinsics hold.
use fusotao_rust_client.Prelude.{
  ℕ, String, Bool, true, ◌≡◌, refl, none, some, ◌∷◌, ◌↔◌, string_eq, arith, Option-cases, inl, inr,
}
use fusotao_rust_client.Prelude.Result
use fusotao_rust_client.Prelude.Outcome.{ok, panicked}
use fusotao_rust_client.Prelude.HashMap.{get}
use fusotao_rust_client.Prelude.Text.{Bytes}
use fusotao_rust_client.External.Codec.{Codec}
use fusotao_rust_client.External.Hashing.{Hashing}
use fusotao_rust_client.Metadata.{Metadata, PalletMetadata, pallet, encode_call}
use fusotao_rust_client.Extrinsic.{new_extra, SignedPayload, using_encoded}
use fusotao_rust_client.Extrinsic.Compose.{Signer, compose_call, compose_extrinsic_offline}

module _ {ℓ} {C : Type ℓ} (c : Codec C) (m : Metadata) (pallet_name call_name : String)
    (args : C) where
  -- Where the pallet and the call exist, `compose_call!` gives the two indices that `encode_call`
  -- writes in front of the encoded arguments.
  pub compose_call-encode_call :
      (p : PalletMetadata) (bytes : Bytes)
      → pallet m pallet_name ≡ Result.ok p
      → encode_call c p call_name args ≡ Result.ok bytes
      → (i : ℕ) × (j : ℕ) × (compose_call m pallet_name call_name args ≡ ok ((i, j), args))
        × (bytes ≡ i ∷ j ∷ c.encode args)
  unfolding compose_call encode_call
  compose_call-encode_call p bytes found encoded = elim (Option-cases (get call_name p.calls)) [
    | inl absent ↦ cc (rw (absent, encode_call) at encoded)
    | inr (j, known) ↦
        (p.index, j, ground (arith, found, known), cc (rw (known, encode_call) at encoded))
  ]

  -- `compose_call!` panics exactly if the pallet is unknown or has no call of that name.
  pub compose_call_panics :
      (compose_call m pallet_name call_name args ≡ panicked)
      ↔ ((p : PalletMetadata) → pallet m pallet_name ≡ Result.ok p → get call_name p.calls ≡ none)
  unfolding compose_call
  compose_call_panics =
      (λ h p found. ground (arith, found), λ h. cases (pallet m pallet_name) refl h)
    where
      cases :
          (r : Result.Result _ PalletMetadata)
          → pallet m pallet_name ≡ r
          → ((p : PalletMetadata)
              → pallet m pallet_name ≡ Result.ok p
              → get call_name p.calls ≡ none)
          → compose_call m pallet_name call_name args ≡ panicked
      cases (Result.ok p) found h = ground (arith, found, h p found)
      cases (Result.err e) found h = ground (arith, found)

module _ {Address Signature Era Hash Call : Type 0} (h : Hashing)
    (payload : Codec (SignedPayload Call Era Hash))
    (verify : Address → Bytes → Signature → Bool) where
  pub verified :
      (p : SignedPayload Call Era Hash) (signer : Signer Address Signature)
      → ((bytes : Bytes) → verify signer.address bytes (signer.sign bytes) ≡ true)
      → verify signer.address
          (using_encoded h payload p (λ bytes. bytes))
          (using_encoded h payload p signer.sign)
        ≡ true
  unfolding using_encoded
  verified p signer good =
      ground (arith, good (payload.encode p), good (h.blake2_256 (payload.encode p)))

  -- If the signer's signatures verify, the extrinsic that `compose_extrinsic_offline!` makes holds
  -- the call, the signer's address, the era and the nonce with no tip, and a signature that verifies
  -- for the payload of just these with the given versions and hashes.
  pub compose_extrinsic_offline_signed :
      (signer : Signer Address Signature) (call : Call) (nonce : ℕ) (era : Era)
      (genesis_hash current_hash : Hash) (spec_version transaction_version : ℕ)
      → ((bytes : Bytes) → verify signer.address bytes (signer.sign bytes) ≡ true)
      → let x =
          compose_extrinsic_offline h payload signer call nonce era genesis_hash current_hash
            spec_version transaction_version in
        (signature : Signature) × (x.function ≡ call)
        × (x.signature ≡ some (signer.address, signature, new_extra era nonce))
        × (verify signer.address
              (using_encoded h payload
                (
                  x.function,
                  new_extra era nonce,
                  record {
                    spec_version = spec_version;
                    transaction_version = transaction_version;
                    genesis_hash = genesis_hash;
                    current_hash = current_hash;
                  },
                )
                (λ bytes. bytes))
              signature
            ≡ true)
  unfolding compose_extrinsic_offline
  compose_extrinsic_offline_signed signer call nonce era genesis current spec tx good =
      (_, refl, refl, verified _ signer good)
