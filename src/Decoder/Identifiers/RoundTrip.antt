-- ===== src/Decoder/Identifiers/RoundTrip.antt =====
-- The keys of node-api/src/storage.rs are read back by the extractors of node-api/src/decoder.rs.
use fusotao_rust_client.Prelude.{ℕ, ◌≡◌, refl, ◌++◌, length, append_assoc, length-append, arith}
use fusotao_rust_client.Prelude.Result.{ok}
use fusotao_rust_client.Prelude.Text.{Bytes}
use fusotao_rust_client.External.Codec.{Codec, RoundTrips, Input, IsLawfulInput}
use fusotao_rust_client.External.Hashing.{Hashing, HasDigestSizes}
use fusotao_rust_client.External.FrameMetadata.{StorageHasher, blake2_128_concat, twox64_concat}
use fusotao_rust_client.Storage.{StorageMap, StorageDoubleMap, key_hash, map_key, double_map_key}
use fusotao_rust_client.Decoder.Identifiers.{
  extract_identifier_from_concated_key, extract_map_identifier, extract_double_map_identifier,
}

-- The hashers whose output is a digest with the key behind it.
abbrev pub IsConcat : StorageHasher → Type 0
IsConcat blake2_128_concat = Unit
IsConcat twox64_concat = Unit
IsConcat _ = ⊥

module _ (i : Input) (lawful : IsLawfulInput i) (h : Hashing) (sizes : HasDigestSizes h) where
  read_exactly :
      (n : ℕ) (buf rest : Bytes) → length buf ≡ n → i.read n (buf ++ rest) ≡ ok (buf, rest)
  read_exactly n buf rest size = rw (← size) (lawful.read-append buf rest)

  extract-key_hash {ℓ} :
      {K : Type ℓ} (c : Codec K) (k : K) (hasher : StorageHasher) (rest : Bytes)
      → IsConcat hasher
      → extract_identifier_from_concated_key i hasher (key_hash h c k hasher ++ rest)
        ≡ ok (c.encode k ++ rest)
  unfolding extract_identifier_from_concated_key key_hash
  extract-key_hash c k blake2_128_concat rest concat =
      rw (append_assoc, read_exactly 16 (h.blake2_128 (c.encode k)) _ (sizes.blake2_128_size _))
  extract-key_hash c k twox64_concat rest concat =
      rw (append_assoc, read_exactly 8 (h.twox_64 (c.encode k)) _ (sizes.twox_64_size _))
  extract-key_hash c k _ rest concat = elim concat [ ]

  prefix_size : (a b : Bytes) → length (h.twox_128 a ++ h.twox_128 b) ≡ 32
  prefix_size a b = omega (
    arith,
    length-append (h.twox_128 a) (h.twox_128 b),
    sizes.twox_128_size a,
    sizes.twox_128_size b,
  )

  -- If the codec reads back the key, `read` gives the bytes in front and digests have their
  -- declared sizes, the key of a storage map with a concatenating hasher is read back from its
  -- storage key, whatever bytes follow.
  pub extract_map_identifier-map_key {ℓ} :
      {K : Type ℓ} (c : Codec K) (m : StorageMap) (k : K) (rest : Bytes)
      → IsConcat m.hasher
      → RoundTrips c k
      → extract_map_identifier i c m.hasher (map_key h c m k ++ rest) ≡ ok (k, rest)
  unfolding extract_map_identifier map_key
  extract_map_identifier-map_key c m k rest concat trip = rw (
    append_assoc,
    read_exactly 32 (h.twox_128 m.module_prefix ++ h.twox_128 m.storage_prefix)
        (key_hash h c k m.hasher ++ rest) (prefix_size _ _),
    extract-key_hash c k m.hasher rest concat,
    trip rest,
  )

  -- If the codec reads back the second key, `read` gives the bytes in front and digests have their
  -- declared sizes, the second key of a storage double map with concatenating hashers is read back
  -- from the storage key by one who knows the first key, whatever bytes follow.
  pub extract_double_map_identifier-double_map_key {ℓ κ} :
      {K : Type ℓ} {Q : Type κ} (c : Codec K) (d : Codec Q) (m : StorageDoubleMap) (k : K) (q : Q)
      (rest : Bytes)
      → IsConcat m.hasher
      → IsConcat m.key2_hasher
      → RoundTrips d q
      → extract_double_map_identifier i d c m.hasher m.key2_hasher k
          (double_map_key h c d m k q ++ rest)
        ≡ ok (q, rest)
  unfolding extract_double_map_identifier double_map_key
  extract_double_map_identifier-double_map_key c d m k q rest concat concat2 trip = rw (
    append_assoc,
    append_assoc,
    read_exactly 32 (h.twox_128 m.module_prefix ++ h.twox_128 m.storage_prefix)
        (key_hash h c k m.hasher ++ (key_hash h d q m.key2_hasher ++ rest)) (prefix_size _ _),
    extract-key_hash c k m.hasher (key_hash h d q m.key2_hasher ++ rest) concat,
    read_exactly (length (c.encode k)) (c.encode k) (key_hash h d q m.key2_hasher ++ rest) refl,
    extract-key_hash d q m.key2_hasher rest concat2,
    trip rest,
  )
