-- ===== src/External/Hashing.antt =====
-- `sp_core`'s hash functions. Each returns an array of the length that its name gives.
use fusotao_rust_client.Prelude.{◌≡◌, length}
use fusotao_rust_client.Prelude.Text.{Bytes}

pub record Hashing : Type 0 where
  pub twox_64 : Bytes → Bytes
  pub twox_128 : Bytes → Bytes
  pub twox_256 : Bytes → Bytes
  pub blake2_128 : Bytes → Bytes
  pub blake2_256 : Bytes → Bytes

pub record HasDigestSizes (h : Hashing) : Type 0 where
  pub twox_64_size : (b : Bytes) → length (h.twox_64 b) ≡ 8
  pub twox_128_size : (b : Bytes) → length (h.twox_128 b) ≡ 16
  pub blake2_128_size : (b : Bytes) → length (h.blake2_128 b) ≡ 16
  pub blake2_256_size : (b : Bytes) → length (h.blake2_256 b) ≡ 32
