-- ===== src/Tests/Nodes.antt =====
-- A node whose storage holds the account 7, and an Api over it. A request is no more than its first
-- parameter.
use mathlib.Core.Option
use fusotao_rust_client.Prelude.{
  ℕ, String, ◌≡◌, refl, subst, ◌^◌, Option, none, some, List, [], ◌∷◌, get_elem?, Bool-cases, inl,
  inr, ltb, ◌==◌, nat_eq, string_eq, if◌then◌else◌, arith,
}
use fusotao_rust_client.Prelude.Result.{Result, ok, err}
use fusotao_rust_client.Prelude.Text.{Bytes, Text, as_bytes, codes}
use fusotao_rust_client.External.Codec.{Codec, CodecError}
use fusotao_rust_client.External.FrameMetadata.{
  StorageEntryMetadata, StorageEntryModifier, map_of, blake2_128_concat,
}
use fusotao_rust_client.External.Hex.{IsLawfulHex}
use fusotao_rust_client.External.Json.{Json}
use fusotao_rust_client.External.Serde.{Serde}
use fusotao_rust_client.Primitives.{AccountInfo}
use fusotao_rust_client.Metadata.{Metadata, PalletMetadata}
use fusotao_rust_client.Storage.{StorageMap}
use fusotao_rust_client.Rpc.ApiError.{disconnected}
use fusotao_rust_client.Rpc.Requests.{Serialize, state_get_storage}
use fusotao_rust_client.Api.{Crates, RpcClient, Api}
use fusotao_rust_client.Api.Storage.Chain.{Chain, answer_text, Serves}
use fusotao_rust_client.Tests.Samples.{byte, refused, hashes, hex, end_of_input, hex-IsLawfulHex}
use fusotao_rust_client.Tests.Calls.{node_metadata, balances_pallet}

abbrev first : List Bytes → Bytes
first [] = []
first (v ∷ values) = v

abbrev second_field : List (String × Bytes) → Bytes
second_field (_ ∷ (_, v) ∷ fields) = v
second_field _ = []

abbrev pub json : Json
json = record {
  Value = Bytes;
  Object = Bytes;
  SerdeError = String;
  null = codes "null";
  string = λ t. t;
  array = first;
  object = second_field;
  field = λ v _. v;
  place = λ v _. v;
  as_str = some;
  as_object = λ _. none;
  as_i64 = λ _. none;
  get = λ _ _. none;
  to_text = λ v. v;
  from_text = ok;
}

abbrev pub serialize : Serialize json Bytes
serialize = record { hash = λ h. h; storage_key = λ k. k; number = λ n. n ∷ [] }

abbrev pub account_map : StorageMap
account_map = record {
  module_prefix = as_bytes "System";
  storage_prefix = as_bytes "Account";
  hasher = blake2_128_concat;
}

abbrev add : ℕ → List Text → List Text
add c [] = (c ∷ []) ∷ []
add c (t ∷ texts) = (c ∷ t) ∷ texts

-- A list of texts is written with commas between them.
abbrev split : Text → List Text
split [] = [] ∷ []
split (c ∷ t) = let texts = split t in if c == b',' then [] ∷ texts else add c texts

abbrev pub serde : Serde json
serde = record {
  ReadProof = ℕ;
  DispatchInfo = ℕ;
  NumberOrHex = ℕ;
  try_into_u128 = λ n. if ltb n (2 ^ 128) then some n else none;
  runtime_version = λ _. ok (record { spec_version = 1; transaction_version = 1 });
  read_proof = λ _. err "expected value";
  dispatch_info = λ _. err "expected value";
  fee_details = λ _. err "expected value";
  strings = λ t. ok (split t);
  pairs = λ _. err "expected value";
}

abbrev decode_info : Bytes → Result CodecError (AccountInfo × Bytes)
decode_info (n ∷ c ∷ p ∷ s ∷ f ∷ r ∷ m ∷ e ∷ rest) = ok (
  record {
    nonce = n;
    consumers = c;
    providers = p;
    sufficients = s;
    account_data = record { free = f; reserved = r; misc_frozen = m; fee_frozen = e };
  },
  rest,
)
decode_info _ = err end_of_input

abbrev pub info_codec : Codec AccountInfo
info_codec = record {
  encode = λ i.
      i.nonce ∷ i.consumers ∷ i.providers ∷ i.sufficients ∷ i.account_data.free
      ∷ i.account_data.reserved ∷ i.account_data.misc_frozen ∷ i.account_data.fee_frozen ∷ [];
  decode = decode_info;
}

abbrev pub crates : Crates
crates = record {
  json = json;
  serialize = serialize;
  serde = serde;
  hashing = hashes;
  hex = hex;
  AccountId = ℕ;
  account_id = byte;
  account_info = info_codec;
  balance = byte;
  prefixed = refused;
  meta_reserved = 0;
}

abbrev pub info : AccountInfo
info = record {
  nonce = 3;
  consumers = 0;
  providers = 1;
  sufficients = 0;
  account_data = record { free = 90; reserved = 0; misc_frozen = 0; fee_frozen = 0 };
}

abbrev pub account_of_id : ℕ → Option AccountInfo
account_of_id a = if a == 7 then some info else none

-- The account that a key of the map ends with.
abbrev stored_at : Option ℕ → Option Bytes
stored_at none = none
stored_at (some a) = Option.map info_codec.encode (account_of_id a)

abbrev pub chain : Chain
chain _ key = stored_at (get_elem? key 48)

-- A double map with 5 under the pairs of equal keys.
abbrev pub five_if_equal : ℕ → ℕ → Option ℕ
five_if_equal a b = if a == b then some 5 else none

abbrev stored_at_pair : Option ℕ → Option ℕ → Option Bytes
stored_at_pair (some a) (some b) = Option.map byte.encode (five_if_equal a b)
stored_at_pair _ _ = none

abbrev pub pair_chain : Chain
pair_chain _ key = stored_at_pair (get_elem? key 40) (get_elem? key 41)

abbrev pub client_of : Chain → RpcClient crates
client_of chain = record {
  get_request = λ key. ok (answer_text crates (chain none key));
  send_extrinsic = λ _ _. err disconnected;
}

abbrev pub account_entry : StorageEntryMetadata
account_entry = record {
  name = "Account";
  modifier = StorageEntryModifier.default;
  ty = map_of (blake2_128_concat ∷ []) 1 1;
  default = 0 ∷ [];
}

abbrev pub system_pallet : PalletMetadata
system_pallet = record {
  index = 0;
  name = "System";
  calls = [];
  storage = ("Account", account_entry) ∷ [];
  constants = [];
}

abbrev pub metadata : Metadata
metadata = record node_metadata {
  pallets = ("System", system_pallet) ∷ ("Balances", balances_pallet) ∷ [];
}

abbrev pub api : {P : Type 0} → RpcClient crates → Option P → Api crates P
api client signer = record {
  signer = signer;
  genesis_hash = 100 ∷ [];
  metadata = metadata;
  runtime_version = record { spec_version = 2; transaction_version = 3 };
  client = client;
}

stored_at-IsLawfulHex :
    (a : Option ℕ) (bytes : Bytes) → stored_at a ≡ some bytes → IsLawfulHex hex bytes
stored_at-IsLawfulHex none bytes h = cc
stored_at-IsLawfulHex (some a) bytes h = elim (Bool-cases (a == 7)) [
  | inl seven ↦
      let same : info_codec.encode info ≡ bytes = cc (rw (seven) at h) in
      subst (IsLawfulHex hex) same (
        hex-IsLawfulHex (info_codec.encode info) (
          (
            omega arith,
            (
              omega arith,
              (
                omega arith,
                (omega arith, (omega arith, (omega arith, (omega arith, (omega arith, tt))))),
              ),
            ),
          )))
  | inr other ↦ cc (rw (other) at h)
]

stored_at_pair-IsLawfulHex :
    (a b : Option ℕ) (bytes : Bytes) → stored_at_pair a b ≡ some bytes → IsLawfulHex hex bytes
stored_at_pair-IsLawfulHex none b bytes h = cc
stored_at_pair-IsLawfulHex (some a) none bytes h = cc
stored_at_pair-IsLawfulHex (some a) (some b) bytes h = elim (Bool-cases (a == b)) [
  | inl equal ↦
      let same : 5 ∷ [] ≡ bytes = cc (rw (equal) at h) in
      subst (IsLawfulHex hex) same (hex-IsLawfulHex (5 ∷ []) (omega arith, tt))
  | inr other ↦ cc (rw (other) at h)
]

pub written :
    (at_block : Option Bytes) (key bytes : Bytes)
    → chain at_block key ≡ some bytes
    → IsLawfulHex hex bytes
written at_block key = stored_at-IsLawfulHex (get_elem? key 48)

pub serves : Serves crates (client_of chain) chain
unfolding state_get_storage
serves = record { answers = λ at_block key. refl; written = written }

pub pair_chain-Serves : Serves crates (client_of pair_chain) pair_chain
unfolding state_get_storage
pair_chain-Serves = record {
  answers = λ at_block key. refl;
  written = λ at_block key. stored_at_pair-IsLawfulHex (get_elem? key 40) (get_elem? key 41);
}
