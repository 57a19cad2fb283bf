-- ===== src/Model/Sweep.antt =====
-- SweepRecord and SweepSkip of internal/model/model.go. The cost in TRX, a floating point number that
-- the provider reports and nothing computes with, is the text of it.
use trc.Base.{ℕ, Option, Text, Bool, true, false}
use trc.Model.Withdraw.{FailCode}

pub data SweepState : Type 0 where
  created energy_ready broadcast confirmed failed : SweepState

-- `energy_rental`, or a code of internal/chain/failure.go.
pub data SweepFail : Type 0 where
  energy_rental : SweepFail
  on_chain : FailCode → SweepFail

-- The states that a sweep waits in.
abbrev pub is_waiting : SweepState → Bool
is_waiting SweepState.created = true
is_waiting SweepState.energy_ready = true
is_waiting SweepState.broadcast = true
is_waiting _ = false

-- The states that Reconcile settles.
abbrev pub is_signed_off : SweepState → Bool
is_signed_off SweepState.energy_ready = true
is_signed_off SweepState.broadcast = true
is_signed_off _ = false

abbrev pub is_swept : SweepState → Bool
is_swept SweepState.confirmed = true
is_swept _ = false

abbrev pub is_out_of_energy : Option SweepFail → Bool
is_out_of_energy (Option.some (on_chain FailCode.out_of_energy)) = true
is_out_of_energy _ = false

abbrev pub is_failed : SweepState → Bool
is_failed SweepState.failed = true
is_failed _ = false

pub record SweepRecord : Type 0 where
  pub id : ℕ
  pub from_address : Text
  pub to_address : Text
  pub symbol : Text
  pub contract : Text
  pub amount_units : Text
  pub amount : Text
  pub decimals : ℕ
  pub status : SweepState
  pub tx_id : Text
  pub block_number : ℕ
  pub signed_raw : Text
  pub expired_at : Option ℕ
  pub fee_mode : Text
  pub energy_order : Text
  pub cost_trx : Text
  pub energy_used : ℕ
  pub fail_reason : Text
  pub fail_code : Option SweepFail
  pub retry_count : ℕ
  pub deposit_max_id : ℕ
  pub broadcast_at : Option ℕ
  pub confirmed_at : Option ℕ
  pub updated_at : ℕ

pub record SweepSkip : Type 0 where
  pub address : Text
  pub contract : Text
  pub skip_count : ℕ
  pub last_skip_at : ℕ
