-- ===== src/Decoder/Scale.antt =====
-- The codecs that the decoder calls, and `Phase` of node-api/src/lib.rs.
use fusotao_rust_client.Prelude.{ℕ, String, Bool}
use fusotao_rust_client.Prelude.Result.{Result}
use fusotao_rust_client.Prelude.Text.{Bytes}
use fusotao_rust_client.External.Codec.{
  Codec, CodecError, IsCanonical, IsReadBack, IsExact, Input, IsByteReader,
}
use fusotao_rust_client.External.Runtime.{DispatchError}

pub data Phase : Type 0 where
  apply_extrinsic : ℕ → Phase
  finalization initialization : Phase

-- `Signed` holds the signed integers and `Hashes` the lists of hashes; neither is looked at.
pub record Scale : Type 1 where
  pub Signed : Type 0
  pub Hashes : Type 0
  pub bool : Codec Bool
  pub str : Codec String
  pub u8 : Codec ℕ
  pub u16 : Codec ℕ
  pub u32 : Codec ℕ
  pub u64 : Codec ℕ
  pub u128 : Codec ℕ
  pub i8 : Codec Signed
  pub i16 : Codec Signed
  pub i32 : Codec Signed
  pub i64 : Codec Signed
  pub i128 : Codec Signed
  pub compact_u8 : Codec ℕ
  pub compact_u16 : Codec ℕ
  pub compact_u32 : Codec ℕ
  pub compact_u64 : Codec ℕ
  pub compact_u128 : Codec ℕ
  pub dispatch_error : Codec DispatchError
  pub decode_phase : Bytes → Result CodecError (Phase × Bytes)
  pub decode_topics : Bytes → Result CodecError (Hashes × Bytes)
  pub input : Input

-- Each value that the decoder copies to its output has one encoding.
pub record IsCanonicalScale (s : Scale) : Type 0 where
  pub bool : IsCanonical s.bool
  pub str : IsCanonical s.str
  pub u8 : IsCanonical s.u8
  pub u16 : IsCanonical s.u16
  pub u32 : IsCanonical s.u32
  pub u64 : IsCanonical s.u64
  pub u128 : IsCanonical s.u128
  pub i8 : IsCanonical s.i8
  pub i16 : IsCanonical s.i16
  pub i32 : IsCanonical s.i32
  pub i64 : IsCanonical s.i64
  pub i128 : IsCanonical s.i128
  pub compact_u8 : IsCanonical s.compact_u8
  pub compact_u16 : IsCanonical s.compact_u16
  pub compact_u32 : IsCanonical s.compact_u32
  pub compact_u64 : IsCanonical s.compact_u64
  pub compact_u128 : IsCanonical s.compact_u128

-- Each value of a type that the decoder supports is read back once it was read.
pub record IsReadBackScale (s : Scale) : Type 0 where
  pub bool : IsReadBack s.bool
  pub str : IsReadBack s.str
  pub u8 : IsReadBack s.u8
  pub u16 : IsReadBack s.u16
  pub u32 : IsReadBack s.u32
  pub u64 : IsReadBack s.u64
  pub u128 : IsReadBack s.u128
  pub i8 : IsReadBack s.i8
  pub i16 : IsReadBack s.i16
  pub i32 : IsReadBack s.i32
  pub i64 : IsReadBack s.i64
  pub i128 : IsReadBack s.i128
  pub compact_u32 : IsReadBack s.compact_u32

-- The parts of an event record around and beside the values of types are read as SCALE has them.
pub record IsExactScale (s : Scale) : Type 0 where
  pub dispatch_error_canonical : IsCanonical s.dispatch_error
  pub dispatch_error_read_back : IsReadBack s.dispatch_error
  pub phase : IsExact s.decode_phase
  pub topics : IsExact s.decode_topics
  pub read_byte : IsByteReader s.input
