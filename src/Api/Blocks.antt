-- ===== src/Api/Blocks.antt =====
-- Heads, headers and blocks, in src/std/mod.rs. The header and block types are the caller's, with
-- the reader that `serde_json` has for them.
pub mod ByNumber
use mathlib.Core.Option
use fusotao_rust_client.Prelude.{ℕ, Option, none, some}
use fusotao_rust_client.Prelude.Result.{Result, ok, err, ◌>>=◌, map_err, map_ok, traverse}
use fusotao_rust_client.Prelude.Text.{Bytes}
use fusotao_rust_client.External.Runtime.{SignedBlock}
use fusotao_rust_client.External.Serde.{FromStr}
use fusotao_rust_client.Rpc.ApiError.{deserializing}
use fusotao_rust_client.Rpc.Requests.{
  chain_get_finalized_head, chain_get_header, chain_get_block_hash, chain_get_block,
}
use fusotao_rust_client.Api.{Crates, ApiResult, Api, hash_of, get_request}

module _ (C : Crates) {P : Type 0} (api : Api C P) where
  unfoldable pub get_finalized_head : ApiResult C (Option Bytes)
  unfolding get_request
  get_finalized_head = do
    h ← get_request C api (chain_get_finalized_head C.json C.serialize)
    traverse (hash_of C) h

  unfoldable pub get_header :
      {H : Type 0} → FromStr C.json H → Option Bytes → ApiResult C (Option H)
  unfolding get_request
  get_header from_str hash = do
    h ← get_request C api (chain_get_header C.json C.serialize hash)
    traverse (λ header. map_err deserializing (from_str header)) h

  unfoldable pub get_block_hash : Option ℕ → ApiResult C (Option Bytes)
  unfolding get_request
  get_block_hash number = do
    h ← get_request C api (chain_get_block_hash C.json C.serialize number)
    traverse (hash_of C) h

  module _ {B J : Type 0} (from_str : FromStr C.json (SignedBlock B J)) where
    unfoldable pub get_signed_block : Option Bytes → ApiResult C (Option (SignedBlock B J))
    unfolding get_request
    get_signed_block hash = do
      b ← get_request C api (chain_get_block C.json C.serialize hash)
      traverse (λ block. map_err deserializing (from_str block)) b

    unfoldable pub get_signed_block_by_num : Option ℕ → ApiResult C (Option (SignedBlock B J))
    unfolding get_block_hash get_signed_block
    get_signed_block_by_num number = do h ← get_block_hash number; get_signed_block h

    -- `sb_opt.map(|sb| sb.block)`
    abbrev pub block_of : Option (SignedBlock B J) → Option B
    block_of sb_opt = Option.map (λ (sb : SignedBlock B J). sb.block) sb_opt

    unfoldable pub get_block : Option Bytes → ApiResult C (Option B)
    unfolding get_signed_block
    get_block hash = map_ok block_of (get_signed_block hash)

    unfoldable pub get_block_by_num : Option ℕ → ApiResult C (Option B)
    unfolding get_signed_block_by_num
    get_block_by_num number = map_ok block_of (get_signed_block_by_num number)
