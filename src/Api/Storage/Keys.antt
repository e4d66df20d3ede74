-- ===== src/Api/Storage/Keys.antt =====
-- The keys of a storage map, listed by `get_keys` and read back by `extract_map_identifier`.
use fusotao_rust_client.Prelude.{
  ◌≡◌, refl, Option, some, List, [], ◌∷◌, map, Has, here, there, ap, sym, ◌∙◌, append-nil,
}
use fusotao_rust_client.Prelude.Result.{ok, collect_results}
use fusotao_rust_client.Prelude.Text.{Text, Bytes}
use fusotao_rust_client.External.Codec.{Codec, RoundTrips, Input, IsLawfulInput}
use fusotao_rust_client.External.Hashing.{HasDigestSizes}
use fusotao_rust_client.External.Hex.{IsLawfulHex}
use fusotao_rust_client.Storage.{StorageKey, StorageMap, map_key}
use fusotao_rust_client.Decoder.Identifiers.{extract_map_identifier}
use fusotao_rust_client.Decoder.Identifiers.RoundTrip.{IsConcat, extract_map_identifier-map_key}
use fusotao_rust_client.Utils.RoundTrip.{prefixed, vec_from_hex-encode}
use fusotao_rust_client.Rpc.Requests.{state_get_keys}
use fusotao_rust_client.Api.{Crates, Api, bytes_of, null_or}
use fusotao_rust_client.Api.Storage.{get_keys}

module _ (C : Crates) {K : Type 0} (k : Codec K) (s : StorageMap) where
  -- The text of a key in the answer to `state_getKeys`.
  abbrev pub key_text : K → Text
  key_text key = prefixed (C.hex.encode (map_key C.hashing k s key))

module _ (C : Crates) {K : Type 0} (k : Codec K) (s : StorageMap) (i : Input)
    (lawful : IsLawfulInput i) (sizes : HasDigestSizes C.hashing) (concat : IsConcat s.hasher) where
  abbrev key_of : K → StorageKey
  key_of key = map_key C.hashing k s key

  bytes_of-key_text :
      (keys : List K)
      → ((key : K) → Has key keys → IsLawfulHex C.hex (key_of key))
      → collect_results (bytes_of C) (map (key_text C k s) keys) ≡ ok (map key_of keys)
  unfolding collect_results
  bytes_of-key_text [] written = refl
  bytes_of-key_text (key ∷ keys) written = rw (
    (vec_from_hex-encode C.hex (key_of key) (written key here)).0,
    bytes_of-key_text keys (λ other has. written other (there has)),
  )

  extract-keys :
      (keys : List K)
      → ((key : K) → Has key keys → RoundTrips k key)
      → collect_results (extract_map_identifier i k s.hasher) (map key_of keys)
        ≡ ok (map (λ key. (key, [])) keys)
  unfolding collect_results
  extract-keys [] trips = refl
  extract-keys (key ∷ keys) trips =
      let whole =
        ap (extract_map_identifier i k s.hasher) (sym (append-nil (key_of key)))
        ∙ extract_map_identifier-map_key i lawful C.hashing sizes k s key [] concat
            (trips key here) in
      rw (whole, extract-keys keys (λ other has. trips other (there has)))

  -- If the node answers `state_getKeys` with the hex texts of a map's storage keys, `get_keys`
  -- returns these storage keys, and the keys of the map are read back from them, in their order;
  -- the map has a concatenating hasher, digests have their declared sizes, the codec reads back
  -- the keys, `read` gives the bytes in front, and hex writes the storage keys.
  pub get_keys_extract :
      {P : Type 0} (api : Api C P) (keys : List K) (prefix : StorageKey) (at_block : Option Bytes)
      (answer : Text)
      → api.client.get_request (state_get_keys C.json C.serialize prefix at_block) ≡ ok answer
      → null_or answer ≡ some answer
      → C.serde.strings answer ≡ ok (map (key_text C k s) keys)
      → ((key : K) → Has key keys → IsLawfulHex C.hex (key_of key))
      → ((key : K) → Has key keys → RoundTrips k key)
      → (listed : List Bytes) × (get_keys C api prefix at_block ≡ ok (some listed))
        × (collect_results (extract_map_identifier i k s.hasher) listed
            ≡ ok (map (λ key. (key, [])) keys))
  unfolding get_keys
  get_keys_extract api keys prefix at_block answer asked there_are read written trips = (
    map key_of keys,
    rw (asked, there_are, read, bytes_of-key_text keys written),
    extract-keys keys trips,
  )
