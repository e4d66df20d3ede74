-- ===== src/Dispatch.antt =====
-- `RuntimeError::from_dispatch` of node-api/src/error.rs.
pub mod Laws
use fusotao_rust_client.Prelude.Result.{Result, ok, ◌>>=◌, map_err}
use fusotao_rust_client.External.Runtime.{DispatchError}
use fusotao_rust_client.Error.{Error, RuntimeError}
use fusotao_rust_client.Metadata.{Metadata, error, description}

unfoldable pub from_dispatch : Metadata → DispatchError → Result Error RuntimeError
from_dispatch m (DispatchError.module_error index (e0, e1, e2, e3)) = do
  e ← map_err Error.metadata (error m index e0)
  ok (
      RuntimeError.module_error
        (record { pallet = e.pallet; error = e.error; description = description e }))
from_dispatch m DispatchError.bad_origin = ok RuntimeError.bad_origin
from_dispatch m DispatchError.cannot_lookup = ok RuntimeError.cannot_lookup
from_dispatch m DispatchError.consumer_remaining = ok RuntimeError.consumer_remaining
from_dispatch m DispatchError.too_many_consumers = ok RuntimeError.too_many_consumers
from_dispatch m DispatchError.no_providers = ok RuntimeError.no_providers
from_dispatch m (DispatchError.arithmetic _) = ok (RuntimeError.other "math_error")
from_dispatch m (DispatchError.token _) = ok (RuntimeError.other "token error")
from_dispatch m (DispatchError.transactional _) = ok (RuntimeError.other "transactional error")
from_dispatch m (DispatchError.other msg) = ok (RuntimeError.other msg)
