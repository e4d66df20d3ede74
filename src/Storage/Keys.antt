-- ===== src/Storage/Keys.antt =====
-- Properties of the storage keys.
use mathlib.Core.List.{append_cancel_left}
use fusotao_rust_client.Prelude.{
  ◌≡◌, ap, sym, ◌∙◌, String, [], ◌++◌, arith, append_inj_right, append_cancel_prefix,
}
use fusotao_rust_client.Prelude.{append_assoc}
use fusotao_rust_client.Prelude.Result.{ok}
use fusotao_rust_client.Prelude.Text.{Bytes}
use fusotao_rust_client.External.Codec.{Codec, RoundTrips}
use fusotao_rust_client.External.Codec.Laws.{encode_prefix_free}
use fusotao_rust_client.External.Hashing.{Hashing, HasDigestSizes}
use fusotao_rust_client.External.FrameMetadata.{
  StorageHasher, StorageEntryMetadata, blake2_128_concat, twox64_concat, identity,
}
use fusotao_rust_client.Storage.{
  StorageMap, StorageDoubleMap, key_hash, map_key, double_map_key, partial_key, get_double_map,
  get_double_map_prefix,
}

-- The hashers that keep the key: it can be read back from its hash.
abbrev pub IsReversible : StorageHasher → Type 0
IsReversible identity = Unit
IsReversible blake2_128_concat = Unit
IsReversible twox64_concat = Unit
IsReversible _ = ⊥

module _ {ℓ} {K : Type ℓ} (h : Hashing) (sizes : HasDigestSizes h) (c : Codec K) where
  -- Reversible hashes of two keys, with anything behind, agree only if the keys do.
  pub key_hash_prefix_free :
      (k l : K) (hasher : StorageHasher) (r s : Bytes)
      → IsReversible hasher
      → RoundTrips c k
      → RoundTrips c l
      → key_hash h c k hasher ++ r ≡ key_hash h c l hasher ++ s
      → (k ≡ l) × (r ≡ s)
  unfolding key_hash
  key_hash_prefix_free k l identity r s rev rk rl e = encode_prefix_free c k l r s rk rl e
  key_hash_prefix_free k l blake2_128_concat r s rev rk rl e = encode_prefix_free c k l r s rk rl (
      append_inj_right (h.blake2_128 (c.encode k)) (h.blake2_128 (c.encode l))
        (sizes.blake2_128_size _ ∙ sym (sizes.blake2_128_size _))
        (sym (append_assoc _ _ r) ∙ e ∙ append_assoc _ _ s))
  key_hash_prefix_free k l twox64_concat r s rev rk rl e = encode_prefix_free c k l r s rk rl (
      append_inj_right (h.twox_64 (c.encode k)) (h.twox_64 (c.encode l))
        (sizes.twox_64_size _ ∙ sym (sizes.twox_64_size _))
        (sym (append_assoc _ _ r) ∙ e ∙ append_assoc _ _ s))
  key_hash_prefix_free k l _ r s rev rk rl e = elim rev [ ]

  -- If digests have their declared sizes and the codec reads back both keys, two keys of a storage
  -- map under a reversible hasher have the same storage key only if they are equal.
  pub map_key-injective :
      (m : StorageMap) (k l : K)
      → IsReversible m.hasher
      → RoundTrips c k
      → RoundTrips c l
      → map_key h c m k ≡ map_key h c m l
      → k ≡ l
  unfolding map_key
  map_key-injective m k l rev rk rl e =
      (key_hash_prefix_free k l m.hasher [] [] rev rk rl
        (ap (λ x. x ++ []) (append_cancel_left _ _ _ e))).0

module _ {ℓ κ} {K : Type ℓ} {Q : Type κ} (h : Hashing) (sizes : HasDigestSizes h) (c : Codec K)
    (d : Codec Q) (m : StorageDoubleMap) where
  -- If digests have their declared sizes and the codecs read back all keys, the storage key of a
  -- double map under two reversible hashers determines both of its keys.
  pub double_map_key-injective :
      (k l : K) (q r : Q)
      → IsReversible m.hasher
      → IsReversible m.key2_hasher
      → RoundTrips c k
      → RoundTrips c l
      → RoundTrips d q
      → RoundTrips d r
      → double_map_key h c d m k q ≡ double_map_key h c d m l r
      → (k ≡ l) × (q ≡ r)
  unfolding double_map_key
  double_map_key-injective k l q r rev rev2 rk rl rq rr e =
      let kq = key_hash h d q m.key2_hasher in
      let lr = key_hash h d r m.key2_hasher in
      let (same, rest) = key_hash_prefix_free h sizes c k l m.hasher kq lr rev rk rl (
        append_cancel_prefix (h.twox_128 m.module_prefix ++ h.twox_128 m.storage_prefix)
          (key_hash h c k m.hasher) (key_hash h c l m.hasher) kq lr e) in
      let last = ap (λ x. x ++ []) rest in
      (same, (key_hash_prefix_free h sizes d q r m.key2_hasher [] [] rev2 rq rr last).0)

-- Where an entry is a double map, its key prefix is the partial key of that double map.
pub get_double_map_prefix-partial_key {ℓ} :
    {K : Type ℓ} (h : Hashing) (c : Codec K) (entry : StorageEntryMetadata) (prefix : String)
    (m : StorageDoubleMap) (k : K)
    → get_double_map entry prefix ≡ ok m
    → get_double_map_prefix h c entry prefix k ≡ ok (partial_key h c m k)
unfolding get_double_map get_double_map_prefix partial_key
get_double_map_prefix-partial_key h c entry prefix m k e = ground arith
