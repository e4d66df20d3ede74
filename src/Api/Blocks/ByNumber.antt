-- ===== src/Api/Blocks/ByNumber.antt =====
-- The block of a number, against the blocks that a node has.

use fusotao_rust_client.Prelude.{ℕ, ◌≡◌, refl, Option, none, some, length}
use fusotao_rust_client.Prelude.Result.{ok, traverse}
use fusotao_rust_client.Prelude.Text.{Bytes, Text}
use fusotao_rust_client.External.Hex.{IsLawfulHex}
use fusotao_rust_client.External.Runtime.{SignedBlock}
use fusotao_rust_client.External.Serde.{FromStr}
use fusotao_rust_client.Utils.RoundTrip.{vec_from_hex-encode, hash_from_hex_iff}
use fusotao_rust_client.Rpc.Requests.{chain_get_block_hash, chain_get_block}
use fusotao_rust_client.Api.{Crates, RpcClient, Api, get_request, get_request_by, null_or, hash_of}
use fusotao_rust_client.Api.Storage.Chain.{answer_text}
use fusotao_rust_client.Api.Blocks.{
  get_block_hash, get_signed_block, get_signed_block_by_num, get_block_by_num,
}

-- The node knows the hashes of some numbers. For a hash, and without one, it gives a block: without
-- one the best block.
pub record ServesBlocks (C : Crates) {B J : Type 0}
    (from_str : FromStr (Crates.json C) (SignedBlock B J)) (client : RpcClient C)
    (hash_at : ℕ → Option Bytes) (block_at : Option Bytes → SignedBlock B J) : Type 0 where
  pub hashes :
      (n : ℕ)
      → client.get_request (chain_get_block_hash C.json C.serialize (some n))
        ≡ ok (answer_text C (hash_at n))
  pub written : (n : ℕ) (hash : Bytes) → hash_at n ≡ some hash → IsLawfulHex C.hex hash
  pub sized : (n : ℕ) (hash : Bytes) → hash_at n ≡ some hash → length hash ≡ 32
  pub text : Option Bytes → Text
  pub there : (n : ℕ) → null_or (text (hash_at n)) ≡ some (text (hash_at n))
  pub blocks :
      (n : ℕ)
      → client.get_request (chain_get_block C.json C.serialize (hash_at n)) ≡ ok (text (hash_at n))
  pub read : (n : ℕ) → from_str (text (hash_at n)) ≡ ok (block_at (hash_at n))

module _ (C : Crates) {P B J : Type 0} (api : Api C P)
    (from_str : FromStr (Crates.json C) (SignedBlock B J)) (hash_at : ℕ → Option Bytes)
    (block_at : Option Bytes → SignedBlock B J)
    (serves : ServesBlocks C from_str api.client hash_at block_at) where
  hash_of-answer :
      (stored : Option Bytes)
      → ((hash : Bytes) → stored ≡ some hash → IsLawfulHex C.hex hash)
      → ((hash : Bytes) → stored ≡ some hash → length hash ≡ 32)
      → traverse (hash_of C) (null_or (answer_text C stored)) ≡ ok stored
  hash_of-answer none written sized = refl
  hash_of-answer (some hash) written sized =
      rw
        ((hash_from_hex_iff C.hex _ hash).1
          ((vec_from_hex-encode C.hex hash (written hash refl)).1, sized hash refl))
        refl

  get_block_hash_answered : (n : ℕ) → get_block_hash C api (some n) ≡ ok (hash_at n)
  unfolding get_block_hash get_request get_request_by
  get_block_hash_answered n =
      rw (serves.hashes n) (hash_of-answer (hash_at n) (serves.written n) (serves.sized n))

  -- If the node answers for a number with its hash or with `null`, and for this answer, `null`
  -- included, with a block, then `get_block_by_num` returns that block: for a number with a hash
  -- the block of the hash, and for a number without one, as beyond the end of the chain, the block
  -- that the node gives without a hash, its best block.
  pub get_block_by_num_refines :
      (n : ℕ) → get_block_by_num C api from_str (some n) ≡ ok (some ((block_at (hash_at n)).block))
  unfolding get_block_by_num get_signed_block_by_num get_signed_block get_request get_request_by
  get_block_by_num_refines n =
      rw (get_block_hash_answered n, serves.blocks n, serves.there n, serves.read n) refl
