-- ===== src/External/Runtime.antt =====
-- `sp_runtime::DispatchError`. What the program does not look at is kept as a number.
use fusotao_rust_client.Prelude.{ℕ, String, Option}

pub data DispatchError : Type 0 where
  other : String → DispatchError
  cannot_lookup bad_origin : DispatchError
  -- `ModuleError`: the pallet's index and the four bytes of the error
  module_error : ℕ → ℕ × ℕ × ℕ × ℕ → DispatchError
  consumer_remaining no_providers too_many_consumers : DispatchError
  token arithmetic transactional : ℕ → DispatchError

-- `sp_version::RuntimeVersion`, with the fields that the program reads.
pub record RuntimeVersion : Type 0 where
  pub spec_version : ℕ
  pub transaction_version : ℕ

-- `transaction_payment::InclusionFee` and `FeeDetails`.
pub record InclusionFee (Balance : Type 0) : Type 0 where
  pub base_fee : Balance
  pub len_fee : Balance
  pub adjusted_weight_fee : Balance

pub record FeeDetails (Balance : Type 0) : Type 0 where
  pub inclusion_fee : Option (InclusionFee Balance)
  pub tip : Balance

-- `sp_runtime::generic::SignedBlock`
pub record SignedBlock (Block Justifications : Type 0) : Type 0 where
  pub block : Block
  pub justifications : Justifications
