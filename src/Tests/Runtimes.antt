-- ===== src/Tests/Runtimes.antt =====
-- A node that tells of the runtime with one pallet. A request is no more than its method.
use fusotao_rust_client.Prelude.{
  ℕ, String, ◌≡◌, refl, none, some, List, [], ◌∷◌, nat_eq, string_eq, replicate, if◌then◌else◌,
  arith,
}
use fusotao_rust_client.Prelude.Result.{Result, ok, err}
use fusotao_rust_client.Prelude.Text.{Bytes, Text, codes, text_eq}
use fusotao_rust_client.External.Codec.{CodecError}
use fusotao_rust_client.External.FrameMetadata.{RuntimeMetadataPrefixed, v14}
use fusotao_rust_client.External.Json.{Json}
use fusotao_rust_client.External.Runtime.{RuntimeVersion}
use fusotao_rust_client.External.Serde.{Serde}
use fusotao_rust_client.Metadata.Parse.{try_from}
use fusotao_rust_client.Rpc.ApiError.{disconnected}
use fusotao_rust_client.Rpc.Requests.{
  Serialize, chain_get_genesis_hash, state_get_metadata, state_get_runtime_version,
}
use fusotao_rust_client.Api.{Crates, RpcClient, new}
use fusotao_rust_client.Api.New.{ServesRuntime, new-ServesRuntime}
use fusotao_rust_client.Api.Storage.Chain.{answer_text}
use fusotao_rust_client.Tests.Samples.{
  byte, hashes, hex, hex-IsLawfulHex, end_of_input, replicate-AreBytes,
}
use fusotao_rust_client.Tests.Calls.{runtime, node_metadata, built}
use fusotao_rust_client.Tests.Nodes.{json, info_codec}

abbrev first_field : List (String × Bytes) → Bytes
first_field ((_, v) ∷ fields) = v
first_field [] = []

abbrev methods : Json
methods = record json { object = first_field }

abbrev serialize : Serialize methods Bytes
serialize = record { hash = λ h. h; storage_key = λ k. k; number = λ n. n ∷ [] }

abbrev version : RuntimeVersion
version = record { spec_version = 1; transaction_version = 1 }

abbrev reader : Serde methods
reader = record {
  ReadProof = ℕ;
  DispatchInfo = ℕ;
  NumberOrHex = ℕ;
  try_into_u128 = some;
  runtime_version = λ _. ok version;
  read_proof = λ _. err "expected value";
  dispatch_info = λ _. err "expected value";
  fee_details = λ _. err "expected value";
  strings = λ _. err "expected value";
  pairs = λ _. err "expected value";
}

abbrev prefixed_runtime : RuntimeMetadataPrefixed
prefixed_runtime = record { magic = 7; metadata = v14 runtime }

abbrev decode_runtime : Bytes → Result CodecError (RuntimeMetadataPrefixed × Bytes)
decode_runtime [] = err end_of_input
decode_runtime (_ ∷ rest) = ok (prefixed_runtime, rest)

abbrev crates : Crates
crates = record {
  json = methods;
  serialize = serialize;
  serde = reader;
  hashing = hashes;
  hex = hex;
  AccountId = ℕ;
  account_id = byte;
  account_info = info_codec;
  balance = byte;
  prefixed = record { encode = λ _. 14 ∷ []; decode = decode_runtime };
  meta_reserved = 7;
}

abbrev genesis : Bytes
genesis = replicate 32 0xab

abbrev answer_of : Text → Text
answer_of method =
    if text_eq method (codes "chain_getBlockHash")
    then answer_text crates (some genesis)
    else if text_eq method (codes "state_getMetadata")
    then answer_text crates (some (14 ∷ []))
    else codes "{}"

abbrev client : RpcClient crates
client = record {
  get_request = λ method. ok (answer_of method);
  send_extrinsic = λ _ _. err disconnected;
}

serves : ServesRuntime crates client genesis prefixed_runtime version
unfolding chain_get_genesis_hash state_get_metadata state_get_runtime_version
serves = record {
  hash = refl;
  hash_written = hex-IsLawfulHex genesis (replicate-AreBytes 32 0xab (omega arith));
  hash_sized = refl;
  metadata = refl;
  metadata_written = hex-IsLawfulHex (14 ∷ []) (omega arith, tt);
  metadata_read = λ rest. refl;
  version_text = codes "{}";
  version_answer = refl;
  version_there = refl;
  version_read = refl;
}

tables_built : try_from 7 prefixed_runtime ≡ ok node_metadata
unfolding try_from
tables_built = built

new-ServesRuntime_example :
    new crates {P = ℕ} client
    ≡ ok (record {
      signer = none;
      genesis_hash = genesis;
      metadata = node_metadata;
      runtime_version = version;
      client = client;
    })
new-ServesRuntime_example =
    new-ServesRuntime crates client genesis prefixed_runtime version serves {P = ℕ} node_metadata
      tables_built
