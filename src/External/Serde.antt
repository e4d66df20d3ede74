-- ===== src/External/Serde.antt =====
-- The `Deserialize` implementations that `serde_json::from_str` uses: a reader for each type.
use fusotao_rust_client.Prelude.{ℕ, Option, List}
use fusotao_rust_client.Prelude.Result.{Result}
use fusotao_rust_client.Prelude.Text.{Text}
use fusotao_rust_client.External.Json.{Json}
use fusotao_rust_client.External.Runtime.{RuntimeVersion, FeeDetails}

abbrev pub FromStr : Json → Type 0 → Type 0
FromStr J A = Text → Result (Json.SerdeError J) A

pub record Serde (J : Json) : Type 1 where
  -- `rpc::ReadProof<Hash>` and `RuntimeDispatchInfo<Balance>`
  pub ReadProof : Type 0
  pub DispatchInfo : Type 0
  -- `sp_rpc::number::NumberOrHex`, and its conversion to an `u128`
  pub NumberOrHex : Type 0
  pub try_into_u128 : NumberOrHex → Option ℕ
  pub runtime_version : FromStr J RuntimeVersion
  pub read_proof : FromStr J ReadProof
  pub dispatch_info : FromStr J DispatchInfo
  pub fee_details : FromStr J (FeeDetails NumberOrHex)
  -- `Vec<String>` and `Vec<(String, String)>`
  pub strings : FromStr J (List Text)
  pub pairs : FromStr J (List (Text × Text))
