-- ===== src/Extrinsic/Compose.antt =====
-- compose-macros/src/lib.rs: extrinsics composed from names, and signed offline.
pub mod Laws
pub mod Online
use fusotao_rust_client.Prelude.{
  ℕ, String, ◌≡◌, refl, Option, none, some, [], ◌∷◌, ◌++◌, ◌∙◌, sym, ap, string_eq, arith,
}
use fusotao_rust_client.Prelude.Result.{Result, map_ok}
use fusotao_rust_client.Prelude.Outcome.{Outcome, ok, err, panicked, ◌>>=◌, unwrap, unwrap_some}
use fusotao_rust_client.Prelude.HashMap.{get}
use fusotao_rust_client.Prelude.Text.{Bytes}
use fusotao_rust_client.External.Codec.{Codec}
use fusotao_rust_client.External.Hashing.{Hashing}
use fusotao_rust_client.Metadata.{Metadata, PalletMetadata, pallet}
use fusotao_rust_client.Extrinsic.{
  GenericExtra, new_extra, SignedPayload, from_raw, using_encoded, UncheckedExtrinsicV4, new_signed,
}

-- `[pallet.index, *call_index as u8]`
abbrev pub CallIndex : Type 0
CallIndex = ℕ × ℕ

-- `compose_call!`; `args` is the tuple of the arguments. Both `unwrap`s may panic.
unfoldable pub compose_call {ℓ} :
    {C : Type ℓ} → Metadata → String → String → C → Outcome ⊥ (CallIndex × C)
compose_call node_metadata pallet_name call_name args = do
  p ← unwrap (pallet node_metadata pallet_name)
  call_index ← unwrap_some (get call_name p.calls)
  ok ((p.index, call_index), args)

-- A key pair: `public` is the account of `MultiSigner::from(pair.public())`, as an address.
pub record Signer (Address Signature : Type 0) : Type 0 where
  pub address : Address
  pub sign : Bytes → Signature

module _ {Address Signature Era Hash Call : Type 0} (h : Hashing)
    (payload : Codec (SignedPayload Call Era Hash)) where
  -- `compose_extrinsic_offline!`
  unfoldable pub compose_extrinsic_offline :
      Signer Address Signature
      → Call
      → ℕ
      → Era
      → Hash
      → Hash
      → ℕ
      → ℕ
      → UncheckedExtrinsicV4 Address Signature (GenericExtra Era) Call
  compose_extrinsic_offline signer call nonce era genesis_hash genesis_or_current_hash
        runtime_spec_version transaction_version =
      let extra = new_extra era nonce in
      let raw_payload = from_raw call extra (record {
        spec_version = runtime_spec_version;
        transaction_version = transaction_version;
        genesis_hash = genesis_hash;
        current_hash = genesis_or_current_hash;
      }) in
      let signature = using_encoded h payload raw_payload signer.sign in
      new_signed call signer.address signature extra
