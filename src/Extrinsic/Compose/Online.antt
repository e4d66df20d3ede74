-- ===== src/Extrinsic/Compose/Online.antt =====
-- `compose_extrinsic!` of compose-macros/src/lib.rs: the nonce, the hashes and the versions are
-- those of an Api.
use mathlib.Core.Option
use fusotao_rust_client.Prelude.{ℕ, String, Bool, true, ◌≡◌, refl, ap, ◌∙◌, Option, none, some}
use fusotao_rust_client.Prelude.Result
use fusotao_rust_client.Prelude.Outcome.{Outcome, ok, ◌>>=◌, unwrap}
use fusotao_rust_client.Prelude.Text.{Bytes}
use fusotao_rust_client.External.Codec.{Codec}
use fusotao_rust_client.Primitives.{AccountInfo}
use fusotao_rust_client.Api.{Crates, Api}
use fusotao_rust_client.Api.Account.{get_nonce}
use fusotao_rust_client.Api.Account.Nonce.{HasAccounts, nonce_in, chain_nonce, get_nonce_refines}
use fusotao_rust_client.Api.Storage.Chain.{Chain}
use fusotao_rust_client.Extrinsic.{
  GenericExtra, new_extra, SignedPayload, using_encoded, UncheckedExtrinsicV4,
}
use fusotao_rust_client.Extrinsic.Compose.{
  Signer, CallIndex, compose_call, compose_extrinsic_offline,
}
use fusotao_rust_client.Extrinsic.Compose.Laws.{verified}

module _ (C : Crates) {Address Signature Era Args : Type 0}
    (payload : Codec (SignedPayload (CallIndex × Args) Era Bytes))
    (account_of : Signer Address Signature → Crates.AccountId C) (immortal : Era)
    (api : Api C (Signer Address Signature)) where
  abbrev pub Extrinsic : Type 0
  Extrinsic = UncheckedExtrinsicV4 Address Signature (GenericExtra Era) (CallIndex × Args)

  -- The extrinsic that is signed with a nonce.
  abbrev pub signed_with : Signer Address Signature → CallIndex × Args → ℕ → Extrinsic
  signed_with signer call nonce =
      compose_extrinsic_offline C.hashing payload signer call nonce immortal api.genesis_hash
        api.genesis_hash api.runtime_version.spec_version api.runtime_version.transaction_version

  -- The `if let` on the signer; `get_nonce` is unwrapped.
  abbrev pub compose_signed :
      Option (Signer Address Signature) → CallIndex × Args → Outcome ⊥ Extrinsic
  compose_signed none call = ok (record { signature = none; function = call })
  compose_signed (some signer) call = do
    nonce ← unwrap (get_nonce C api account_of)
    ok (signed_with signer call nonce)

  unfoldable pub compose_extrinsic : String → String → Args → Outcome ⊥ Extrinsic
  unfolding compose_call compose_extrinsic_offline
  compose_extrinsic pallet call_name args = do
    call ← compose_call api.metadata pallet call_name args
    compose_signed api.signer call

  compose_signed-some :
      (o : Option (Signer Address Signature)) (signer : Signer Address Signature)
      (call : CallIndex × Args) (nonce : ℕ)
      → o ≡ some signer
      → get_nonce C api account_of ≡ Result.ok nonce
      → compose_signed o call ≡ ok (signed_with signer call nonce)
  compose_signed-some o signer call nonce set asked = rw (set, asked) refl

  -- If the client answers from a chain that represents a map of accounts at the entry `Account` of
  -- the pallet `System`, which the metadata has as a map, the codec reads the accounts back, the
  -- metadata knows the call, a signer is set and its signatures verify, then `compose_extrinsic!`
  -- makes an extrinsic with the call, the signer's address, the immortal era and the nonce that the
  -- signer's account has on the chain (zero where there is no such account), and with a signature
  -- that verifies for the payload of these and of the Api's genesis hash and versions.
  pub compose_extrinsic_signed :
      (chain : Chain) (accounts : Crates.AccountId C → Option AccountInfo)
      (verify : Address → Bytes → Signature → Bool) (signer : Signer Address Signature)
      (pallet call_name : String) (args : Args) (call : CallIndex × Args)
      → HasAccounts C api chain accounts
      → compose_call api.metadata pallet call_name args ≡ ok call
      → api.signer ≡ some signer
      → ((bytes : Bytes) → verify signer.address bytes (signer.sign bytes) ≡ true)
      → let nonce = chain_nonce (accounts (account_of signer)) in
        (signature : Signature) × (compose_extrinsic pallet call_name args
          ≡ ok (record {
            signature = some (signer.address, signature, new_extra immortal nonce);
            function = call;
          }))
        × (verify signer.address
              (using_encoded C.hashing payload
                (
                  call,
                  new_extra immortal nonce,
                  record {
                    spec_version = api.runtime_version.spec_version;
                    transaction_version = api.runtime_version.transaction_version;
                    genesis_hash = api.genesis_hash;
                    current_hash = api.genesis_hash;
                  },
                )
                (λ bytes. bytes))
              signature
            ≡ true)
  unfolding compose_extrinsic compose_extrinsic_offline
  compose_extrinsic_signed chain accounts verify signer pallet call_name args call has composed set
        good =
      let nonce = chain_nonce (accounts (account_of signer)) in
      let asked =
        get_nonce_refines C api chain accounts has account_of
        ∙ ap (λ o. nonce_in C api chain accounts has (Option.map account_of o)) set in
      (
        _,
        rw (composed) (compose_signed-some api.signer signer call nonce set asked),
        verified C.hashing payload verify _ signer good,
      )
