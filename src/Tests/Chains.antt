-- ===== src/Tests/Chains.antt =====
-- A node with one block, of number 0, that is not the best one.
use fusotao_rust_client.Prelude.{
  ℕ, ◌≡◌, refl, subst, Option, none, some, [], ◌∷◌, ◌==◌, nat_eq, string_eq, length, replicate,
  if◌then◌else◌, Bool-cases, inl, inr, arith,
}
use fusotao_rust_client.Prelude.Result.{ok, err}
use fusotao_rust_client.Prelude.Text.{Bytes, Text, codes, text_eq}
use fusotao_rust_client.External.Hex.{IsLawfulHex}
use fusotao_rust_client.External.Runtime.{SignedBlock}
use fusotao_rust_client.External.Serde.{FromStr}
use fusotao_rust_client.Rpc.ApiError.{disconnected}
use fusotao_rust_client.Rpc.Requests.{chain_get_block_hash, chain_get_block}
use fusotao_rust_client.Api.{RpcClient, null_or}
use fusotao_rust_client.Api.Storage.Chain.{answer_text}
use fusotao_rust_client.Api.Blocks.{get_block_by_num}
use fusotao_rust_client.Api.Blocks.ByNumber.{ServesBlocks, get_block_by_num_refines}
use fusotao_rust_client.Tests.Samples.{hex, hex-IsLawfulHex, replicate-AreBytes}
use fusotao_rust_client.Tests.Nodes.{crates, json, api}

abbrev genesis : Bytes
genesis = replicate 32 0xab

abbrev hash_at : ℕ → Option Bytes
hash_at n = if n == 0 then some genesis else none

-- A block is a number.
abbrev block_at : Option Bytes → SignedBlock ℕ ℕ
block_at none = record { block = 99; justifications = 0 }
block_at (some _) = record { block = 1; justifications = 0 }

abbrev text_at : Option Bytes → Text
text_at none = codes "best"
text_at (some _) = codes "first"

abbrev from_str : FromStr json (SignedBlock ℕ ℕ)
from_str t = ok (if text_eq t (codes "best") then block_at none else block_at (some genesis))

-- A request for a hash is a number, and one for a block is a hash or `null`.
abbrev answer_of : Bytes → Text
answer_of (n ∷ []) = answer_text crates (hash_at n)
answer_of v = if text_eq v (codes "null") then text_at none else text_at (some v)

abbrev client : RpcClient crates
client = record { get_request = λ v. ok (answer_of v); send_extrinsic = λ _ _. err disconnected }

is_genesis : (n : ℕ) (hash : Bytes) → hash_at n ≡ some hash → genesis ≡ hash
is_genesis n hash h = elim (Bool-cases (n == 0)) [
  | inl is ↦ cc (rw (is) at h)
  | inr other ↦ cc (rw (other) at h)
]

-- A property of the two answers is one of the answer for each number.
for_each : (P : Option Bytes → Type 0) → P none → P (some genesis) → (n : ℕ) → P (hash_at n)
for_each P best first n = elim (Bool-cases (n == 0)) [
  | inl is ↦ rw (is) first
  | inr other ↦ rw (other) best
]

serves : ServesBlocks crates from_str client hash_at block_at
unfolding chain_get_block_hash chain_get_block
serves = record {
  hashes = λ n. refl;
  written = λ n hash h.
      subst (IsLawfulHex hex) (is_genesis n hash h)
        (hex-IsLawfulHex genesis (replicate-AreBytes 32 0xab (omega arith)));
  sized = λ n hash h. subst (λ (b : Bytes). length b ≡ 32) (is_genesis n hash h) refl;
  text = text_at;
  there = for_each (λ h. null_or (text_at h) ≡ some (text_at h)) refl refl;
  blocks =
      for_each
        (λ h. client.get_request (chain_get_block crates.json crates.serialize h) ≡ ok (text_at h))
        refl refl;
  read = for_each (λ h. from_str (text_at h) ≡ ok (block_at h)) refl refl;
}

get_block_by_num_refines_example :
    get_block_by_num crates (api {P = ℕ} client none) from_str (some 5) ≡ ok (some 99)
get_block_by_num_refines_example =
    get_block_by_num_refines crates (api {P = ℕ} client none) from_str hash_at block_at serves 5
