-- ===== src/Chain/Failure.antt =====
-- internal/chain/failure.go: from what a node answers to a failure code.
use trc.Base.{
  Bool, true, false, not, List, [], ◌∷◌, Text, codes, text_eq, is_empty, to_upper, to_lower,
  trim_space, contains, any, if◌then◌else◌,
}
use trc.Model.{FailCode}
use trc.Chain.TxInfo.{TxInfo}

-- One `case` of a switch over texts.
unfoldable pub one_of : Text → List Text → Bool
one_of s = any (text_eq s)

unfoldable pub contains_any : Text → List Text → Bool
contains_any s = any (contains s)

abbrev pub exec_results : List Text
exec_results =
    codes "BAD_JUMP_DESTINATION"
    ∷ codes "ILLEGAL_OPERATION"
    ∷ codes "STACK_TOO_SMALL"
    ∷ codes "STACK_TOO_LARGE"
    ∷ codes "TRANSFER_FAILED"
    ∷ codes "INVALID_CODE"
    ∷ codes "JVM_STACK_OVER_FLOW"
    ∷ codes "OUT_OF_MEMORY"
    ∷ codes "PRECOMPILED_CONTRACT"
    ∷ codes "STACK_OVERFLOW"
    ∷ codes "UNKNOWN"
    ∷ []

-- The second switch of ClassifyReceipt, over the lower case resMessage.
unfoldable pub classify_message : Text → FailCode
unfolding contains_any
classify_message msg =
    if contains_any msg
      (codes "out of energy" ∷ codes "not enough energy" ∷ codes "energy limit" ∷ [])
    then FailCode.out_of_energy
    else if contains msg (codes "revert")
    then FailCode.revert
    else if not (is_empty msg)
    then FailCode.contract_exec
    else FailCode.unknown

-- ClassifyReceipt of a receipt that is not nil.
unfoldable pub classify_receipt : TxInfo → FailCode
unfolding classify_message one_of
classify_receipt info =
    let result = to_upper (trim_space info.receipt.result) in
    if text_eq result (codes "OUT_OF_ENERGY")
    then FailCode.out_of_energy
    else if text_eq result (codes "OUT_OF_TIME")
    then FailCode.out_of_time
    else if text_eq result (codes "REVERT")
    then FailCode.revert
    else if one_of result exec_results
    then FailCode.contract_exec
    else classify_message (to_lower info.res_message)

abbrev pub transient_codes : List Text
transient_codes =
    codes "SERVER_BUSY"
    ∷ codes "NO_CONNECTION"
    ∷ codes "NOT_ENOUGH_EFFECTIVE_CONNECTION"
    ∷ codes "BLOCK_UNSOLIDIFIED"
    ∷ codes "OTHER_ERROR"
    ∷ []

-- The second switch of ClassifyBroadcast, over the lower case message.
unfoldable pub classify_text : Text → FailCode × Bool
unfolding contains_any
classify_text msg =
    if contains msg (codes "signature")
    then (FailCode.sig_error, true)
    else if contains msg (codes "expired")
    then (FailCode.expired, true)
    else if contains_any msg
        (codes "balance is not sufficient" ∷ codes "assert null" ∷ codes "validate" ∷ [])
    then (FailCode.validate_error, true)
    else if contains msg (codes "bandwidth")
    then (FailCode.bandwidth, true)
    else (FailCode.node_error, false)

-- The failure code, and whether the same bytes can never be accepted.
unfoldable pub classify_broadcast : Text → Text → FailCode × Bool
unfolding classify_text one_of
classify_broadcast code message =
    let c = to_upper (trim_space code) in
    if text_eq c (codes "SIGERROR")
    then (FailCode.sig_error, true)
    else if text_eq c (codes "CONTRACT_VALIDATE_ERROR")
    then (FailCode.validate_error, true)
    else if text_eq c (codes "CONTRACT_EXE_ERROR")
    then (FailCode.contract_exec, true)
    else if one_of c (codes "BANDWITH_ERROR" ∷ codes "BANDWIDTH_ERROR" ∷ [])
    then (FailCode.bandwidth, true)
    else if text_eq c (codes "TAPOS_ERROR")
    then (FailCode.tapos_error, true)
    else if text_eq c (codes "TOO_BIG_TRANSACTION_ERROR")
    then (FailCode.too_big_tx, true)
    else if one_of c (codes "TRANSACTION_EXPIRATION_ERROR" ∷ codes "EXPIRATION_ERROR" ∷ [])
    then (FailCode.expired, true)
    else if one_of c transient_codes
    then (FailCode.node_error, false)
    else classify_text (to_lower message)
