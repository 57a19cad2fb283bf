-- ===== src/Model/Wallet.antt =====
-- UserWallet and AddressBlacklist of internal/model/model.go, TokenConfig of
-- internal/config/config.go. Columns that no statement of the model reads are left out (chain_idx, which
-- repeats chain, and the times).
use trc.Base.{ℕ, Text, Bool}

pub data Purpose : Type 0 where
  deposit hot finance gas : Purpose

pub record UserWallet : Type 0 where
  pub id : ℕ
  pub merchant_id : Text
  pub uid : Text
  pub account : Text
  pub chain : Text
  pub address : Text
  pub addr_index : ℕ
  pub derive_path : Text
  pub purpose : Purpose
  pub status : ℕ

pub record AddressBlacklist : Type 0 where
  pub id : ℕ
  pub address : Text
  pub account : Text

pub record TokenConfig : Type 0 where
  pub symbol : Text
  pub contract : Text
  pub decimals : ℕ
  pub enabled : Bool
