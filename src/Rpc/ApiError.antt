-- ===== src/Rpc/ApiError.antt =====
-- `Error` of src/std/error.rs.
use fusotao_rust_client.Prelude.Text.{Text}
use fusotao_rust_client.External.Codec.{CodecError}
use fusotao_rust_client.External.Hex.{FromHexError}
use fusotao_rust_client.Error.{MetadataError, InvalidMetadataError, Error}
use fusotao_rust_client.Rpc.Types.{XtStatus}
use fusotao_rust_client.Rpc.Handlers.{WsError}

pub data ApiError (SerdeError : Type 0) : Type 0 where
  genesis runtime_version metadata_fetch no_signer : ApiError SerdeError
  web_socket : WsError SerdeError → ApiError SerdeError
  rpc_client : Text → ApiError SerdeError
  -- the channel's sender is gone
  disconnected : ApiError SerdeError
  metadata : MetadataError → ApiError SerdeError
  invalid_metadata : InvalidMetadataError → ApiError SerdeError
  node_api : Error → ApiError SerdeError
  storage_value_decode : CodecError → ApiError SerdeError
  invalid_hex_string : FromHexError → ApiError SerdeError
  deserializing : SerdeError → ApiError SerdeError
  unsupported_xt_status : XtStatus → ApiError SerdeError
  try_from_int_error : ApiError SerdeError
  other : Text → ApiError SerdeError
