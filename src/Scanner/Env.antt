-- ===== src/Scanner/Env.antt =====
-- What the scanner reads besides the tables: the configuration, the address filter, the answers of
-- the node, the drawn trade numbers, how many keys AUTO_INCREMENT skips for a record, and the clock. One value stands for one tick.
use trc.Base.{ℕ, ◌&&◌, List, [], ◌∷◌, Option, none, some, Text, text_eq, set_string, if◌then◌else◌}
use trc.Model.{TokenConfig}
use trc.Store.{Result}
use trc.Tron.Crypto.{Crypto}
use trc.Chain.TxInfo.{TxInfo}
use trc.Bloom.Filter.{BloomFilter}

-- The numbers are not negative.
pub record DepositConfig : Type 0 where
  pub network : Text
  pub tokens : List TokenConfig
  pub start_block : ℕ
  pub batch_blocks : ℕ
  pub confirmations : ℕ
  pub reorg_depth : ℕ
  pub min_deposit_units : Text

-- Block of internal/chain/gateway.go, without the transactions, which the scanner does not read.
pub record Block : Type 0 where
  pub block_id : Text
  pub number : ℕ
  pub timestamp : ℕ
  pub parent_hash : Text

-- The statements of the scanner that may fail.
pub data Statement : Type 0 where
  wallet_query wallet_count pending_query snapshot_upsert deposit_insert : Statement
  orphan_update confirm_update outbox_insert snapshot_query rewind_orphan : Statement
  snapshot_delete rewind_query cursor_update legacy_query cursor_query cursor_insert : Statement
  prune_delete : Statement

pub record Env : Type 0 where
  pub now : ℕ
  pub config : DepositConfig
  pub crypto : Crypto
  pub addr_filter : Option BloomFilter
  pub fails : Statement → Option Text
  pub commit_fails : Option Text
  pub now_block : Result Block
  pub block_by_num : ℕ → Result Block
  pub tx_info_by_block_num : ℕ → Result (List TxInfo)
  pub tx_info_by_id : Text → Result (Option TxInfo)
  pub new_trade_no : Text → ℕ → Text
  pub skipped_ids : Text → ℕ → ℕ

-- `tokens[t.Contract]`: a later enabled token of the same contract replaces an earlier one.
unfoldable pub allowed_token : List TokenConfig → Text → Option TokenConfig
allowed_token [] contract = none
allowed_token (t ∷ ts) contract = elim (allowed_token ts contract) [
  | some u ↦ some u
  | none ↦ if t.enabled && text_eq t.contract contract then some t else none
]

-- The dust threshold of New, where one that is not positive filters nothing: 0 here.
unfoldable pub min_unit : DepositConfig → ℕ
min_unit c = elim (set_string c.min_deposit_units) [
  | none ↦ 0
  | some (negative, n) ↦ if negative then 0 else n
]
