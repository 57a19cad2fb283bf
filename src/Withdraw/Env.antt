-- ===== src/Withdraw/Env.antt =====
-- What the withdrawal worker reads besides the tables: the configuration (internal/config/config.go),
-- the answers of the node, of the sign service and of the energy manager, the lock and the clock.
-- Each is a function of the call's arguments, and one value stands for one call of the worker.
use trc.Base.{
  ℕ, ◌-◌, ◌%◌, Bool, true, ◌&&◌, List, [], ◌∷◌, Option, none, some, Text, text_eq, to_upper, ltb,
  if◌then◌else◌,
}
use trc.Model.{TokenConfig}
use trc.Store.{Result}
unfoldable pub use trc.Store.{statement, as_fault}
use trc.Tron.Crypto.{Crypto}
use trc.Tron.Tx.{Transaction}
use trc.Chain.TxInfo.{TxInfo}
use trc.Chain.Gateway.{Node}
use trc.Chain.Resources.{AccountResource, ChainParameters}

pub record NamedAddress : Type 0 where
  pub address : Text
  pub path : Text

-- A limit of 0 is a limit that is not set, as a negative one is.
pub record Config : Type 0 where
  pub hot_wallet : NamedAddress
  pub tokens : List TokenConfig
  pub fee_limit_sun : ℕ
  pub halt_max_retries : ℕ
  pub max_amount_units : Text
  pub daily_max_units : Text
  pub confirm_blocks : ℕ
  pub confirmations : ℕ
  pub tx_expiration_sec : ℕ
  pub energy_rental : Option Bool
  pub rental_enabled : Option Bool
  pub energy_per_tx_new : ℕ

-- SignRequest and SignResponse of internal/signer/signer.go.
pub record SignRequest : Type 0 where
  pub path : Text
  pub address : Text
  pub tx : Transaction
  pub to_address : Text
  pub contract : Text
  pub amount_units : Text

pub record SignResponse : Type 0 where
  pub tx_id : Text
  pub tx : Transaction

-- The statements of the worker that may fail.
pub data Statement : Type 0 where
  blacklist_query wallet_count internal_count daily_sum inflight_sum : Statement
  halt_update fail_halted_update reject_update signed_update broadcast_update : Statement
  finish_update outbox_insert : Statement

pub record Env : Type 0 where
  pub now : ℕ
  pub config : Config
  pub crypto : Crypto
  pub lock : Text → Bool
  pub fails : Statement → Option Text
  pub commit_fails : Option Text
  pub trigger_constant_contract : Text → Text → Text → Result Text
  pub estimate_energy : Text → Text → Text → Result ℕ
  pub acquire_rented : Text → ℕ → Text → Result (Unit {0})
  pub chain_parameters : Result ChainParameters
  pub account_resource : Text → Result AccountResource
  pub trx_balance : Text → Result ℕ
  pub build_trc20_transfer : Text → Text → Text → ℕ → Result Transaction
  pub sign : SignRequest → Result SignResponse
  pub nodes : List Node
  pub tx_info_by_id : Text → Result (Option TxInfo)
  -- The answer to the second call of GetTxInfoByID, of finalInfo.
  pub tx_info_again : Text → Result (Option TxInfo)
  pub tx_info_by_id_confirmed : Text → Result (Option TxInfo)
  pub solidity_confirm : Bool

-- `tokensCf`: a map from the upper case symbol, in which a later enabled token replaces an earlier one.
unfoldable pub token_of : List TokenConfig → Text → Option TokenConfig
token_of [] symbol = none
token_of (t ∷ ts) symbol = elim (token_of ts symbol) [
  | some u ↦ some u
  | none ↦ if t.enabled && text_eq (to_upper t.symbol) (to_upper symbol) then some t else none
]

-- RentalOn and WithdrawRentalOn.
unfoldable pub withdraw_rental_on : Config → Bool
withdraw_rental_on c = elim c.energy_rental [
  | some on ↦ on
  | none ↦ elim c.rental_enabled [ none ↦ true | some on ↦ on ]
]

abbrev pub default_halt_max_retries : ℕ
default_halt_max_retries = 10

unfoldable pub halt_max_retries : Config → ℕ
halt_max_retries c =
    if ltb 0 c.halt_max_retries then c.halt_max_retries else default_halt_max_retries

-- confirmBlocks
unfoldable pub required_blocks : Config → ℕ
required_blocks c = if ltb 0 c.confirm_blocks then c.confirm_blocks else c.confirmations

unfoldable pub expiration_seconds : Config → ℕ
expiration_seconds c = if ltb 0 c.tx_expiration_sec then c.tx_expiration_sec else 60

-- `time.Now().Truncate(24 * time.Hour)`
abbrev pub start_of_day : ℕ → ℕ
start_of_day now = now - now % 86400
