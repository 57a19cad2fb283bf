-- ===== src/Chain/Resources.antt =====
-- AccountResource and ChainParameters of internal/chain/gateway.go, and the cost of a transfer that
-- burns TRX (BurnCostSun of internal/energy/manager.go). Every amount a node reports is at least 0
-- and far below 2^63, so an int64 is a natural number here; a difference that the source clamps at
-- 0 is the truncated one.
use trc.Base.{ℕ, ◌+◌, ◌-◌, ◌*◌, leb, if◌then◌else◌}

pub record AccountResource : Type 0 where
  pub free_net_limit : ℕ
  pub free_net_used : ℕ
  pub net_limit : ℕ
  pub net_used : ℕ
  pub energy_limit : ℕ
  pub energy_used : ℕ

pub record ChainParameters : Type 0 where
  pub energy_fee_sun : ℕ
  pub transaction_fee_sun : ℕ

unfoldable pub available_energy : AccountResource → ℕ
available_energy a = if leb a.energy_limit a.energy_used then 0 else a.energy_limit - a.energy_used

-- `free + staked`, and 0 if that is negative.
unfoldable pub available_bandwidth : AccountResource → ℕ
available_bandwidth a = (a.free_net_limit + a.net_limit) - (a.free_net_used + a.net_used)

abbrev pub transfer_bytes : ℕ
transfer_bytes = 345

-- BurnCostSun of resources that are known.
unfoldable pub burn_cost_sun : AccountResource → ChainParameters → ℕ → ℕ
unfolding available_energy available_bandwidth
burn_cost_sun res params need_energy =
    let missing_energy = need_energy - available_energy res in
    let missing_bandwidth = transfer_bytes - available_bandwidth res in
    missing_energy * params.energy_fee_sun + missing_bandwidth * params.transaction_fee_sun
