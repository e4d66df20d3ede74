-- ===== src/Utils/RoundTrip.antt =====
-- Hex texts as nodes and clients write them are read back.
use fusotao_rust_client.Prelude.{
  [], ◌∷◌, ◌++◌, ◌≡◌, ◌↔◌, refl, ap, ◌∙◌, ◌==◌, nat_eq, length, arith, if◌then◌else◌,
}
use fusotao_rust_client.Prelude.Result.{Result, ok, err, ◌>>=◌}
use fusotao_rust_client.Prelude.Text.{Bytes, Text}
use fusotao_rust_client.External.Hex.{
  Hex, FromHexError, IsLawfulHex, AreDigits, invalid_string_length,
}
use fusotao_rust_client.Utils.{trim_start, trim_end, trim_start_0x, vec_from_hex, hash_from_hex}

-- `hash.to_string()` of a JSON string, and `0x` in front of the digits.
abbrev pub quoted : Text → Text
quoted s = b'"' ∷ (s ++ (b'"' ∷ []))

abbrev pub prefixed : Text → Text
prefixed s = b'0' ∷ b'x' ∷ s

trim_end-digits : (s : Text) → AreDigits s → trim_end b'"' s ≡ s
unfolding trim_end
trim_end-digits [] d = refl
trim_end-digits (c ∷ s) (d, ds) = ground (arith, trim_end-digits s ds)

trim_end-digits_quote : (s : Text) → AreDigits s → trim_end b'"' (s ++ (b'"' ∷ [])) ≡ s
unfolding trim_end
trim_end-digits_quote [] d = refl
trim_end-digits_quote (c ∷ s) (d, ds) = ground (arith, trim_end-digits_quote s ds)

trim_start_0x-digits : (s : Text) → AreDigits s → trim_start_0x s ≡ s
unfolding trim_start_0x
trim_start_0x-digits [] d = refl
trim_start_0x-digits (c ∷ []) d = refl
trim_start_0x-digits (c ∷ e ∷ s) (d, (de, ds)) = ground arith

trim_start-digits : (s : Text) → AreDigits s → trim_start b'"' s ≡ s
unfolding trim_start
trim_start-digits [] d = refl
trim_start-digits (c ∷ s) (d, ds) = ground arith

trim_start-digits_quote :
    (s : Text) → AreDigits s → trim_end b'"' (trim_start b'"' (s ++ (b'"' ∷ []))) ≡ s
unfolding trim_start trim_end
trim_start-digits_quote [] d = refl
trim_start-digits_quote (c ∷ s) (d, ds) = ground (arith, trim_end-digits_quote s ds)

abbrev check_size : Bytes → Result FromHexError Bytes
check_size v = if length v == 32 then ok v else err invalid_string_length

check_size_iff :
    (r : Result FromHexError Bytes) (v : Bytes)
    → ((r >>= check_size) ≡ ok v) ↔ ((r ≡ ok v) × (length v ≡ 32))
check_size_iff (ok u) v =
    (λ e. ground arith, λ (e, l). let same : u ≡ v = cc in ap check_size same ∙ sized v l)
  where
    sized : (w : Bytes) → length w ≡ 32 → check_size w ≡ ok w
    sized w l = ground arith
check_size_iff (err x) v = (λ e. cc, λ (e, l). cc)

module _ (h : Hex) where
  -- If the crate `hex` writes the bytes as digits and reads these back, the hex text of the bytes
  -- is read back, with or without `0x` in front, and with or without the quotes of a JSON string
  -- around it.
  pub vec_from_hex-encode :
      (b : Bytes)
      → IsLawfulHex h b
      → (vec_from_hex h (prefixed (h.encode b)) ≡ ok b)
        × (vec_from_hex h (quoted (prefixed (h.encode b))) ≡ ok b)
        × (vec_from_hex h (h.encode b) ≡ ok b)
        × (vec_from_hex h (quoted (h.encode b)) ≡ ok b)
  unfolding vec_from_hex
  vec_from_hex-encode b lawful =
      let d = lawful.encode_digits in
      let read = lawful.decode-encode in
      let bare = trim_start_0x-digits (h.encode b) d in
      let finish =
        λ (s : Text) (e : s ≡ h.encode b). ap h.decode (ap trim_start_0x e ∙ bare) ∙ read in
      (
        finish _ (trim_end-digits (h.encode b) d),
        finish _ (trim_end-digits_quote (h.encode b) d),
        finish _ (
            ap (trim_end b'"') (trim_start-digits (h.encode b) d) ∙ trim_end-digits (h.encode b) d),
        finish _ (trim_start-digits_quote (h.encode b) d),
      )

  -- A hash is read from a text exactly if the text is hex for 32 bytes, and it is these.
  pub hash_from_hex_iff :
      (t : Text) (v : Bytes)
      → (hash_from_hex h t ≡ ok v) ↔ ((vec_from_hex h t ≡ ok v) × (length v ≡ 32))
  unfolding hash_from_hex
  hash_from_hex_iff t v = check_size_iff (vec_from_hex h t) v
