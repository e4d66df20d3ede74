-- ===== src/Dispatch/Laws.antt =====
-- The errors of pallets under the names that the metadata declares.
use fusotao_rust_client.Prelude.{ℕ, ◌≡◌, refl}
use fusotao_rust_client.Prelude.Result.{ok}
use fusotao_rust_client.External.FrameMetadata.{Variant, PalletDeclaration, RuntimeMetadataV14}
use fusotao_rust_client.External.Runtime.{DispatchError}
use fusotao_rust_client.Error.{RuntimeError}
use fusotao_rust_client.Metadata.{Metadata}
use fusotao_rust_client.Metadata.Parse.{from_v14, error_value}
use fusotao_rust_client.Metadata.Tables.{Declared, IsUnambiguous}
use fusotao_rust_client.Metadata.Lookup.{error_lookup}
use fusotao_rust_client.Dispatch.{from_dispatch}

-- In metadata that `from_v14` has built, and if no two errors share their indices, a module error
-- with the indices of a declared error is reported by the names of its pallet and variant and with
-- the variant's documentation, whatever the other three bytes of the error are.
pub from_dispatch_named :
    (meta : RuntimeMetadataV14) (m : Metadata) (p : PalletDeclaration) (v : Variant) (e1 e2 e3 : ℕ)
    → from_v14 meta ≡ ok m
    → IsUnambiguous meta.types (λ q. q.error) meta.pallets
    → Declared meta.types (λ q. q.error) meta.pallets p v
    → from_dispatch m (DispatchError.module_error p.index (v.index, e1, e2, e3))
      ≡ ok (
          RuntimeError.module_error
            (record { pallet = p.name; error = v.name; description = v.docs }))
unfolding from_dispatch
from_dispatch_named meta m p v e1 e2 e3 built alone d =
    let found =
      (error_lookup meta m built p.index v.index alone (error_value p v)).1
        (p, v, d, refl, refl, refl) in
    rw (found) refl
