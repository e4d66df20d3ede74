-- ===== src/Decoder/Types/Reads.antt =====
-- Decoding steps that read given bytes, whatever follows, and copy them to the output.
use fusotao_rust_client.Prelude.{◌≡◌, sym, ap, [], ◌++◌, append_assoc, append-nil}
use fusotao_rust_client.Prelude.Outcome.{ok, ◌>>=◌, lift}
use fusotao_rust_client.Prelude.Text.{Bytes}
use fusotao_rust_client.External.Codec.{Codec, RoundTrips}
use fusotao_rust_client.External.FrameMetadata.{Registry, TypeDefPrimitive}
use fusotao_rust_client.Error.{Error}
use fusotao_rust_client.Decoder.Scale.{Scale}
use fusotao_rust_client.Decoder.Types.{Step, decode_raw, decode_primitive}
use fusotao_rust_client.Decoder.Types.Encoded.{Writes, WritesPrimitive}

-- The step takes these bytes from the input, whatever follows, and appends them to the output.
abbrev pub Reads : Step → Bytes → Type 0
Reads f bytes =
    (rest output : Bytes)
    → f (record { input = bytes ++ rest; output = output })
      ≡ ok (record { input = rest; output = output ++ bytes })

pub Reads-nil : Reads (λ s. ok s) []
Reads-nil rest output = ap (λ o. ok (record { input = rest; output = o })) (sym (append-nil output))

pub Reads-append :
    (f g : Step) (xs ys : Bytes) → Reads f xs → Reads g ys → Reads (λ s. f s >>= g) (xs ++ ys)
Reads-append f g xs ys first second rest output =
    rw
      (append_assoc xs ys rest, first (ys ++ rest) output, second rest (output ++ xs), append_assoc)

-- A value is read and written again, and the rest of the work goes on from there.
pub Reads-read {ℓ} :
    {A : Type ℓ} (c : Codec A) (a : A) (k : A → Step) (ys : Bytes)
    → RoundTrips c a
    → Reads (k a) ys
    → Reads
        (λ s. lift Error.codec (c.decode s.input) >>= λ (b, rest).
          k b (record { input = rest; output = s.output ++ c.encode b }))
        (c.encode a ++ ys)
Reads-read c a k ys back second rest output = rw (
  append_assoc (c.encode a) ys rest,
  back (ys ++ rest),
  second rest (output ++ c.encode a),
  append_assoc,
)

decode_raw-Reads {ℓ} :
    {A : Type ℓ} (c : Codec A) (bytes : Bytes) → Writes c bytes → Reads (decode_raw c) bytes
unfolding decode_raw
decode_raw-Reads c bytes (a, back, written) rest output = rw (written, back rest)

pub decode_primitive-Reads :
    (S : Scale) (types : Registry) (prim : TypeDefPrimitive) (bytes : Bytes)
    → WritesPrimitive S prim bytes
    → Reads (decode_primitive S types prim) bytes
unfolding decode_primitive
decode_primitive-Reads S types TypeDefPrimitive.bool bytes w = decode_raw-Reads S.bool bytes w
decode_primitive-Reads S types TypeDefPrimitive.str bytes w = decode_raw-Reads S.str bytes w
decode_primitive-Reads S types TypeDefPrimitive.u8 bytes w = decode_raw-Reads S.u8 bytes w
decode_primitive-Reads S types TypeDefPrimitive.u16 bytes w = decode_raw-Reads S.u16 bytes w
decode_primitive-Reads S types TypeDefPrimitive.u32 bytes w = decode_raw-Reads S.u32 bytes w
decode_primitive-Reads S types TypeDefPrimitive.u64 bytes w = decode_raw-Reads S.u64 bytes w
decode_primitive-Reads S types TypeDefPrimitive.u128 bytes w = decode_raw-Reads S.u128 bytes w
decode_primitive-Reads S types TypeDefPrimitive.i8 bytes w = decode_raw-Reads S.i8 bytes w
decode_primitive-Reads S types TypeDefPrimitive.i16 bytes w = decode_raw-Reads S.i16 bytes w
decode_primitive-Reads S types TypeDefPrimitive.i32 bytes w = decode_raw-Reads S.i32 bytes w
decode_primitive-Reads S types TypeDefPrimitive.i64 bytes w = decode_raw-Reads S.i64 bytes w
decode_primitive-Reads S types TypeDefPrimitive.i128 bytes w = decode_raw-Reads S.i128 bytes w
decode_primitive-Reads S types TypeDefPrimitive.char bytes w = absurd w
decode_primitive-Reads S types TypeDefPrimitive.u256 bytes w = absurd w
decode_primitive-Reads S types TypeDefPrimitive.i256 bytes w = absurd w
