-- ===== src/Chain/TxInfo.antt =====
-- TxInfo and TxLog of internal/chain/gateway.go: the receipt of a transaction, and whether its
-- execution succeeded.
use trc.Base.{
  ℕ, Bool, false, ◌&&◌, ◌||◌, not, List, [], ◌∷◌, Text, codes, text_eq, is_empty, to_upper,
  trim_space, equal_fold, if◌then◌else◌,
}

pub record TxLog : Type 0 where
  pub address : Text
  pub topics : List Text
  pub log_data : Text

pub record Receipt : Type 0 where
  pub energy_usage_total : ℕ
  pub net_usage : ℕ
  pub result : Text

pub record TxInfo : Type 0 where
  pub id : Text
  pub block_number : ℕ
  pub fee : ℕ
  pub receipt : Receipt
  pub logs : List TxLog
  pub result : Text
  pub res_message : Text

unfoldable pub norm_result : Text → Text
norm_result s = to_upper (trim_space s)

abbrev pub success : Text
success = codes "SUCCESS"

-- An empty result counts as a success, any value but SUCCESS as a failure.
unfoldable pub result_ok : Text → Bool
result_ok r = is_empty r || text_eq r success

unfoldable pub succeeded : TxInfo → Bool
succeeded t =
    if not (result_ok (norm_result t.result))
    then false
    else if not (is_empty t.res_message)
    then false
    else result_ok (norm_result t.receipt.result)

unknown_reason : Text
unknown_reason = codes "unknown reason"

first_reason : List Text → Text
first_reason [] = unknown_reason
first_reason (s ∷ rest) =
    let trimmed = trim_space s in
    if not (is_empty trimmed) && not (equal_fold trimmed success)
    then trimmed
    else first_reason rest

unfoldable pub failure_reason : TxInfo → Text
unfolding first_reason unknown_reason
failure_reason t = first_reason (t.receipt.result ∷ t.res_message ∷ t.result ∷ [])
