-- ===== src/Rpc/Types.antt =====
-- `XtStatus` and `RpcClientError` of src/std/rpc/mod.rs.
use fusotao_rust_client.Prelude.Text.{Text}

pub data XtStatus : Type 0 where
  finalized in_block broadcast ready future submit_only error unknown : XtStatus

pub data RpcClientError (SerdeError : Type 0) : Type 0 where
  serde : SerdeError → RpcClientError SerdeError
  extrinsic : Text → RpcClientError SerdeError
  -- the value that could not be sent
  send : Text → RpcClientError SerdeError
