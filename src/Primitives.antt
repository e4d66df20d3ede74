-- ===== src/Primitives.antt =====
-- The account data of primitives/src/lib.rs.
use fusotao_rust_client.Prelude.{ℕ}

pub record AccountDataGen (Balance : Type 0) : Type 0 where
  pub free : Balance
  pub reserved : Balance
  pub misc_frozen : Balance
  pub fee_frozen : Balance

pub record AccountInfoGen (Index AccountData : Type 0) : Type 0 where
  pub nonce : Index
  pub consumers : ℕ
  pub providers : ℕ
  pub sufficients : ℕ
  -- the field `data`
  pub account_data : AccountData

abbrev pub AccountData : Type 0
AccountData = AccountDataGen ℕ

abbrev pub AccountInfo : Type 0
AccountInfo = AccountInfoGen ℕ AccountData
