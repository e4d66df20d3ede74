-- ===== src/Api/Fees.antt =====
-- The fees of an extrinsic, in src/std/mod.rs.
pub mod Bounds
use fusotao_rust_client.Prelude.{ℕ, Option, none, some}
use fusotao_rust_client.Prelude.Result.{Result, ok, err, ◌>>=◌, map_err, ok_or, traverse}
use fusotao_rust_client.Prelude.Text.{Text, Bytes}
use fusotao_rust_client.External.Runtime.{InclusionFee, FeeDetails}
use fusotao_rust_client.External.Serde.{Serde}
use fusotao_rust_client.Rpc.ApiError.{deserializing, try_from_int_error}
use fusotao_rust_client.Rpc.Requests.{payment_query_fee_details, payment_query_info}
use fusotao_rust_client.Api.{Crates, ApiResult, Api, get_request}

module _ (C : Crates) where
  abbrev pub NumberOrHex : Type 0
  NumberOrHex = Serde.NumberOrHex C.serde

  -- `n.try_into().map_err(|_| ApiClientError::TryFromIntError)`
  abbrev pub try_into : NumberOrHex → ApiResult C ℕ
  try_into n = ok_or try_from_int_error (C.serde.try_into_u128 n)

  unfoldable pub inclusion_fee_with_balance :
      InclusionFee NumberOrHex → ApiResult C (InclusionFee ℕ)
  inclusion_fee_with_balance inclusion_fee = do
    base_fee ← try_into inclusion_fee.base_fee
    len_fee ← try_into inclusion_fee.len_fee
    adjusted_weight_fee ← try_into inclusion_fee.adjusted_weight_fee
    ok (record {
      base_fee = base_fee;
      len_fee = len_fee;
      adjusted_weight_fee = adjusted_weight_fee;
    })

  unfoldable pub convert_fee_details : FeeDetails NumberOrHex → ApiResult C (FeeDetails ℕ)
  unfolding inclusion_fee_with_balance
  convert_fee_details details = do
    inclusion_fee ← traverse inclusion_fee_with_balance details.inclusion_fee
    tip ← try_into details.tip
    ok (record { inclusion_fee = inclusion_fee; tip = tip })

  module _ {P : Type 0} (api : Api C P) where
    unfoldable pub get_fee_details : Text → Option Bytes → ApiResult C (Option (FeeDetails ℕ))
    unfolding get_request convert_fee_details
    get_fee_details xthex_prefixed at_block = do
      res ← get_request C api (payment_query_fee_details C.json C.serialize xthex_prefixed at_block)
      traverse
          (λ text. do
            details ← map_err deserializing (C.serde.fee_details text)
            convert_fee_details details)
          res

    unfoldable pub get_payment_info :
        Text → Option Bytes → ApiResult C (Option (Serde.DispatchInfo C.serde))
    unfolding get_request
    get_payment_info xthex_prefixed at_block = do
      res ← get_request C api (payment_query_info C.json C.serialize xthex_prefixed at_block)
      traverse (λ text. map_err deserializing (C.serde.dispatch_info text)) res
