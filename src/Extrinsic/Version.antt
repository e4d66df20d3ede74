-- ===== src/Extrinsic/Version.antt =====
-- The version byte that `decode` accepts, and the size of what is signed.
use Prim.Native.Nat.{bit_and}
use fusotao_rust_client.Prelude.{
  ℕ, zero, suc, ◌<◌, ◌≤◌, ◌≡◌, ◌≢◌, refl, Bool, true, false, not, ◌&&◌, ◌||◌, ◌∷◌, ◌++◌, ◌==◌,
  nat_eq, length, arith,
}
use fusotao_rust_client.Prelude.Result.{err}
use fusotao_rust_client.Prelude.Text.{Bytes}
use fusotao_rust_client.External.Codec.{Codec, RoundTrips, IsLawfulInput}
use fusotao_rust_client.External.Hashing.{Hashing, HasDigestSizes}
use fusotao_rust_client.Extrinsic.{Format, using_encoded, decode}

-- Whether a test holds for the numbers below a bound.
holds_below : (ℕ → Bool) → (bound : ℕ) → Bool
holds_below test (suc bound) = holds_below test bound && test bound
holds_below test zero = true

holds_below-lt :
    (test : ℕ → Bool) (bound b : ℕ) → b < bound → holds_below test bound ≡ true → test b ≡ true
unfolding holds_below
holds_below-lt test (suc bound) b small held = ground (arith, holds_below-lt test bound b)
holds_below-lt test zero b small held = absurd (omega arith)

abbrev is_v4 : ℕ → Bool
is_v4 b = bit_and b 0x7f == 4

v4_bytes : holds_below (λ b. not (is_v4 b) || (b == 4 || b == 132)) 256 ≡ true
unfolding holds_below
v4_bytes = refl

not_v4 : (b : ℕ) → b < 256 → b ≢ 4 → b ≢ 132 → is_v4 b ≡ false
not_v4 b small plain signed =
    ground (arith, holds_below-lt (λ c. not (is_v4 c) || (c == 4 || c == 132)) 256 b small v4_bytes)

-- If the codec of the length reads it back and `read_byte` gives the first byte of its input, an
-- extrinsic whose version byte is neither 4 nor 132 (4 with the bit of a signature) is refused,
-- whatever length stands in front and whatever follows.
pub decode_other_version :
    {Address Signature Extra Call : Type 0} (F : Format Address Signature Extra Call) (n b : ℕ)
    (rest : Bytes)
    → IsLawfulInput F.input
    → RoundTrips F.units n
    → b < 256
    → b ≢ 4
    → b ≢ 132
    → decode F (F.units.encode n ++ b ∷ rest) ≡ err "Invalid transaction version"
unfolding decode
decode_other_version F n b rest lawful units small plain signed =
    rw units (rw lawful.read_byte-cons (rw (not_v4 b small plain signed)))

module _ {P : Type 0} (h : Hashing) (c : Codec P) (payload : P) where
  -- If digests have their declared sizes, what is signed is never longer than 256 bytes.
  pub using_encoded-le :
      HasDigestSizes h → length (using_encoded h c payload (λ bytes. bytes)) ≤ 256
  unfolding using_encoded
  using_encoded-le sizes = ground (arith, sizes.blake2_256_size (c.encode payload))
