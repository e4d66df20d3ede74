-- ===== src/Tests/Prefixed.antt =====
-- A runtime's metadata under their prefix.
use fusotao_rust_client.Prelude.{◌≡◌, ◌↔◌}
use fusotao_rust_client.Prelude.Result.{ok}
use fusotao_rust_client.External.FrameMetadata.{RuntimeMetadataPrefixed, v14}
use fusotao_rust_client.Metadata.{Metadata}
use fusotao_rust_client.Metadata.Parse.{try_from}
use fusotao_rust_client.Metadata.Resolves.{IsAccepted, try_from_iff}
use fusotao_rust_client.Tests.Calls.{runtime}

abbrev prefixed : RuntimeMetadataPrefixed
prefixed = record { magic = 1635018093; metadata = v14 runtime }

try_from_iff_example :
    ((md : Metadata) × (try_from 1635018093 prefixed ≡ ok md)) ↔ IsAccepted 1635018093 prefixed
try_from_iff_example = try_from_iff 1635018093 prefixed
