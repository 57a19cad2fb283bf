-- ===== src/Sweep/Env.antt =====
-- What the sweep worker reads besides the tables. One value stands for one call. What the source
-- computes with floating point numbers is a field: the head room on an estimate of the energy
-- (EstimateEnergyFactor with RetrySafetyFactor of the attempt), the worst case times that factor,
-- and the threshold in units (minSweepUnits).
use trc.Base.{List, ℕ, Bool, true, Option, none, some, Text, ltb, if◌then◌else◌}
use trc.Model.{TokenConfig}
use trc.Store.{Result}
use trc.Tron.Crypto.{Crypto}
use trc.Tron.Tx.{Transaction}
use trc.Chain.TxInfo.{TxInfo}
use trc.Chain.Gateway.{Node}
use trc.Chain.Resources.{AccountResource, ChainParameters}
use trc.Withdraw.Env.{SignRequest, SignResponse}

-- A limit of 0 is a limit that is not set, as a negative one is.
pub record SweepConfig : Type 0 where
  pub sweep_wallet : Text
  pub fee_limit_sun : ℕ
  pub tx_expiration_sec : ℕ
  pub max_energy_retries : ℕ
  pub max_skip_rounds : ℕ
  pub max_per_round : ℕ
  pub stale_days : ℕ
  pub energy_rental : Option Bool
  pub rental_enabled : Option Bool

-- The fields of EnergyRentOrder that the sweep keeps; `fee_mode` is FeeMode of its provider.
pub record EnergyOrder : Type 0 where
  pub fee_mode : Text
  pub request_id : Text
  pub cost_trx : Text

pub data Statement : Type 0 where
  candidate_query wallet_query inflight_count confirmed_query failure_count max_id_query : Statement
  sweep_insert energy_update signed_update broadcast_update error_update fail_update : Statement
  skip_upsert skip_query confirmed_count empty_update stale_query rows_query : Statement
  chain_failure_update confirm_update deposit_update skip_delete absent_update : Statement

pub record Env : Type 0 where
  pub now : ℕ
  pub config : SweepConfig
  pub crypto : Crypto
  pub lock : Text → Text → Bool
  pub fails : Statement → Option Text
  pub skipped_ids : ℕ
  pub commit_fails : Option Text
  pub trigger_constant_contract : Text → Text → Text → Result Text
  pub estimate_energy_factor : Text → Text → Text → ℕ → Result ℕ
  pub worst_case : ℕ → ℕ
  pub min_sweep_units : TokenConfig → ℕ
  pub acquire_rented : Text → ℕ → ℕ → Result EnergyOrder
  pub acquire_burn : Text → ℕ → ℕ → Result EnergyOrder
  pub chain_parameters : Result ChainParameters
  pub account_resource : Text → Result AccountResource
  pub trx_balance : Text → Result ℕ
  pub build_trc20_transfer : Text → Text → Text → ℕ → Result Transaction
  pub sign : SignRequest → Result SignResponse
  pub nodes : List Node
  pub tx_info_by_id : Text → Result (Option TxInfo)

-- RentalOn and SweepRentalOn.
unfoldable pub sweep_rental_on : SweepConfig → Bool
sweep_rental_on c = elim c.energy_rental [
  | some on ↦ on
  | none ↦ elim c.rental_enabled [ none ↦ true | some on ↦ on ]
]

unfoldable pub max_energy_retries : SweepConfig → ℕ
max_energy_retries c = if ltb 0 c.max_energy_retries then c.max_energy_retries else 3

unfoldable pub expiration_seconds : SweepConfig → ℕ
expiration_seconds c = if ltb 0 c.tx_expiration_sec then c.tx_expiration_sec else 60
