-- ===== src/Decoder/Calls.antt =====
-- Calls that `encode_call` of node-api/src/metadata.rs writes, read by `decode_call` of
-- node-api/src/decoder.rs.
use fusotao_rust_client.Prelude.{ℕ, String, ◌<◌, ◌≡◌, refl, ap, ◌∙◌, ◌∷◌, ◌++◌}
use fusotao_rust_client.Prelude.Result.{Result}
use fusotao_rust_client.Prelude.Outcome.{ok}
use fusotao_rust_client.Prelude.Text.{Bytes}
use fusotao_rust_client.External.Codec.{Codec, IsLawfulInput}
use fusotao_rust_client.External.FrameMetadata.{RuntimeMetadataV14}
use fusotao_rust_client.Metadata.{
  Metadata, CallMetadata, PalletMetadata, pallet, call as find_call, encode_call, resolve_type,
}
use fusotao_rust_client.Metadata.Parse.{from_v14}
use fusotao_rust_client.Metadata.Tables.{IsUnambiguous}
use fusotao_rust_client.Metadata.Calls.{encode_call_found}
use fusotao_rust_client.Decoder.Scale.{Scale}
use fusotao_rust_client.Decoder.Types.Encoded.{EncodedFields}
use fusotao_rust_client.Decoder.Types.Fuel.{IsRanked}
use fusotao_rust_client.Decoder.Types.Complete.{each-EncodedFields}
use fusotao_rust_client.Decoder.Events.{decode_call}

module _ (S : Scale) (m : Metadata) (rank : ℕ → ℕ) (ranked : IsRanked (resolve_type m) rank)
    (fuel : ℕ) (enough : (id : ℕ) → rank id < fuel) (lawful : IsLawfulInput S.input) where
  decode_call-EncodedFields :
      (i j : ℕ) (x : CallMetadata) (args rest : Bytes)
      → find_call m i j ≡ Result.ok x
      → EncodedFields S (resolve_type m) x.variant.fields args
      → decode_call S m fuel (i ∷ j ∷ (args ++ rest)) ≡ ok rest
  unfolding decode_call
  decode_call-EncodedFields i j x args rest found encoded =
      rw
        (
          lawful.read_byte-cons i (j ∷ (args ++ rest)),
          lawful.read_byte-cons j (args ++ rest),
          found,
          each-EncodedFields S (resolve_type m) rank ranked fuel x.variant.fields args rest _ enough
              encoded,
        )
        refl

  -- In metadata that `from_v14` has built, if no two calls share their indices and the arguments
  -- are encoded as the fields of the call are declared, of types that `decode_type` supports,
  -- compact types not among them, then `decode_call` reads the call that `encode_call` writes and
  -- leaves just the bytes that follow it: in a registry without cycles, with fuel above every
  -- type's rank, and where `read_byte` gives the byte in front.
  pub decode_call-encode_call {ℓ} :
      {A : Type ℓ} (c : Codec A) (meta : RuntimeMetadataV14) (p : PalletMetadata)
      (pallet_name call_name : String) (args : A) (bytes rest : Bytes)
      → from_v14 meta ≡ Result.ok m
      → IsUnambiguous meta.types (λ q. q.calls) meta.pallets
      → pallet m pallet_name ≡ Result.ok p
      → encode_call c p call_name args ≡ Result.ok bytes
      → ((i j : ℕ) (x : CallMetadata)
          → find_call m i j ≡ Result.ok x
          → x.pallet ≡ pallet_name
          → x.call ≡ call_name
          → EncodedFields S (resolve_type m) x.variant.fields (c.encode args))
      → decode_call S m fuel (bytes ++ rest) ≡ ok rest
  decode_call-encode_call c meta p pallet_name call_name args bytes rest built alone found encoded
        declared =
      let (i, j, x, whole, known, in_pallet, named) =
        encode_call_found c meta m p pallet_name call_name args bytes built alone found encoded in
      ap (λ b. decode_call S m fuel (b ++ rest)) whole
      ∙ decode_call-EncodedFields i j x (c.encode args) rest known
          (declared i j x known in_pallet named)
