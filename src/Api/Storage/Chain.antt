-- ===== src/Api/Storage/Chain.antt =====
-- A node's storage as a function, and a client that answers from it.
use mathlib.Core.Option
use fusotao_rust_client.Prelude.{◌≡◌, refl, sym, Option, none, some, [], ap, ◌∙◌, append-nil}
use fusotao_rust_client.Prelude.Result.{ok, traverse}
use fusotao_rust_client.Prelude.Text.{Text, Bytes, codes}
use fusotao_rust_client.External.Codec.{Codec, RoundTrips}
use fusotao_rust_client.External.Hex.{IsLawfulHex}
use fusotao_rust_client.Storage.{StorageKey}
use fusotao_rust_client.Utils.RoundTrip.{quoted, prefixed, vec_from_hex-encode}
use fusotao_rust_client.Rpc.Requests.{state_get_storage}
use fusotao_rust_client.Api.{Crates, RpcClient, Api, bytes_of, decoded, null_or}
use fusotao_rust_client.Api.Storage.{get_opaque_storage_by_key_hash, get_storage_by_key_hash}

-- What is stored under a key, at a block or at the best block.
abbrev pub Chain : Type 0
Chain = Option Bytes → StorageKey → Option Bytes

module _ (C : Crates) where
  -- JSON: `null`, or a string of hex digits with `0x` in front.
  abbrev pub answer_text : Option Bytes → Text
  answer_text none = codes "null"
  answer_text (some bytes) = quoted (prefixed (C.hex.encode bytes))

  -- The client answers the requests for storage from the chain, whose values hex can write.
  pub record Serves (client : RpcClient C) (chain : Chain) : Type 0 where
    pub answers :
        (at_block : Option Bytes) (key : StorageKey)
        → client.get_request (state_get_storage C.json C.serialize key at_block)
          ≡ ok (answer_text (chain at_block key))
    pub written :
        (at_block : Option Bytes) (key : StorageKey) (bytes : Bytes)
        → chain at_block key ≡ some bytes
        → IsLawfulHex C.hex bytes

  bytes_of-answer :
      (stored : Option Bytes)
      → ((bytes : Bytes) → stored ≡ some bytes → IsLawfulHex C.hex bytes)
      → traverse (bytes_of C) (null_or (answer_text stored)) ≡ ok stored
  bytes_of-answer none written = refl
  bytes_of-answer (some bytes) written =
      rw ((vec_from_hex-encode C.hex bytes (written bytes refl)).1) refl

  module _ {P : Type 0} (api : Api C P) (chain : Chain) (serves : Serves api.client chain) where
    -- The bytes that are read are the bytes that are stored.
    pub get_opaque_storage_by_key_hash-Chain :
        (key : StorageKey) (at_block : Option Bytes)
        → get_opaque_storage_by_key_hash C api key at_block ≡ ok (chain at_block key)
    unfolding get_opaque_storage_by_key_hash
    get_opaque_storage_by_key_hash-Chain key at_block =
        rw (serves.answers at_block key)
          (bytes_of-answer (chain at_block key) (serves.written at_block key))

    decoded-stored :
        {V : Type 0} (c : Codec V) (value : Option V)
        → ((v : V) → value ≡ some v → RoundTrips c v)
        → traverse (decoded C c) (Option.map c.encode value) ≡ ok value
    decoded-stored c none trips = refl
    decoded-stored c (some v) trips =
        let back = ap c.decode (sym (append-nil (c.encode v))) ∙ trips v refl [] in rw (back) refl

    -- Where the encoding of a value is stored, or nothing, the value is read, or nothing.
    pub get_storage_by_key_hash-Chain :
        {V : Type 0} (c : Codec V) (value : Option V) (key : StorageKey) (at_block : Option Bytes)
        → ((v : V) → value ≡ some v → RoundTrips c v)
        → chain at_block key ≡ Option.map c.encode value
        → get_storage_by_key_hash C api c key at_block ≡ ok value
    unfolding get_storage_by_key_hash
    get_storage_by_key_hash-Chain c value key at_block trips stored =
        rw (get_opaque_storage_by_key_hash-Chain key at_block, stored)
          (decoded-stored c value trips)
