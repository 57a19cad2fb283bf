-- ===== src/Withdraw/Messages.antt =====
-- The texts that internal/withdraw/worker.go writes into fail_reason and into its errors.
use trc.Base.{ℕ, List, [], ◌∷◌, ◌++◌, Text, codes, print_dec}
use trc.Model.{WithdrawState}

unfoldable pub concat : List Text → Text
concat [] = []
concat (s ∷ rest) = s ++ concat rest

unfoldable pub event_id_prefix : Text
event_id_prefix = codes "withdraw:"

-- `"withdraw:" + row.OrderNo`, the key of the order's event and of its lock.
unfoldable pub event_id_of : Text → Text
event_id_of order_no = event_id_prefix ++ order_no

unfoldable pub withdraw_result : Text
withdraw_result = codes "withdraw_result"

unfoldable pub request_id : ℕ → Text
request_id id = codes "withdraw-" ++ print_dec id

unfoldable pub internal_destination : Text
internal_destination = codes "destination is an internal wallet address"

unfoldable pub invalid_destination_address : Text
invalid_destination_address = codes "invalid destination address"

unfoldable pub blacklisted : Text
blacklisted = codes "destination address is blacklisted"

unfoldable pub invalid_amount : Text
invalid_amount = codes "invalid amount"

unfoldable pub exceeds_limit : Text
exceeds_limit = codes "amount exceeds the single withdrawal limit"

unfoldable pub daily_limit_reached : Text
daily_limit_reached = codes "daily withdrawal limit reached"

unfoldable pub unsupported_symbol : Text → Text
unsupported_symbol symbol = codes "unsupported symbol " ++ symbol

unfoldable pub invalid_destination : Text
invalid_destination = codes "invalid destination"

unfoldable pub insufficient_balance : Text → ℕ → ℕ → ℕ → ℕ → Text
insufficient_balance symbol balance needed amount inflight = concat (
    codes "hot wallet "
    ∷ symbol
    ∷ codes " balance insufficient: balance="
    ∷ print_dec balance
    ∷ codes " required="
    ∷ print_dec needed
    ∷ codes " (amount="
    ∷ print_dec amount
    ∷ codes " in_flight="
    ∷ print_dec inflight
    ∷ codes ")"
    ∷ [])

unfoldable pub rental_failed : Text → Text
rental_failed e = codes "energy rental failed, withdrawal stopped (no TRX burn fallback): " ++ e

unfoldable pub fee_above_limit : ℕ → ℕ → Text
fee_above_limit cost limit = concat (
    codes "burning TRX for this transfer costs "
    ∷ print_dec cost
    ∷ codes " sun, above withdraw_server.fee_limit_sun="
    ∷ print_dec limit
    ∷ [])

unfoldable pub insufficient_trx : ℕ → ℕ → ℕ → Text
insufficient_trx balance cost need = concat (
    codes "hot wallet TRX insufficient to burn the fee: balance="
    ∷ print_dec balance
    ∷ codes " sun required="
    ∷ print_dec cost
    ∷ codes " sun (energy="
    ∷ print_dec need
    ∷ codes ")"
    ∷ [])

unfoldable pub halted_again : Text → ℕ → ℕ → Text
halted_again reason attempt limit =
    concat (
      reason
      ∷ codes " (attempt "
      ∷ print_dec attempt
      ∷ codes "/"
      ∷ print_dec limit
      ∷ codes ")"
      ∷ [])

unfoldable pub given_up : Text → ℕ → Text
given_up reason attempt =
    concat (reason ∷ codes " (halted " ∷ print_dec attempt ∷ codes " times, giving up)" ∷ [])

unfoldable pub broadcast_rejected : Text → Text
broadcast_rejected e = codes "broadcast rejected: " ++ e

unfoldable pub not_included : Text
not_included = codes "transaction expired without inclusion"

unfoldable pub on_chain_failure : Text → Text
on_chain_failure reason = codes "on-chain failure: " ++ reason

unfoldable pub no_transfer : Text
no_transfer = codes "receipt succeeded but no matching Transfer event was emitted"

unfoldable pub state_name : WithdrawState → Text
state_name WithdrawState.created = codes "created"
state_name WithdrawState.signed = codes "signed"
state_name WithdrawState.broadcast = codes "broadcast"
state_name WithdrawState.confirmed = codes "confirmed"
state_name WithdrawState.failed = codes "failed"
state_name WithdrawState.rejected = codes "rejected"

unfoldable pub no_reported_reason : WithdrawState → Text
no_reported_reason status =
    codes "settled as " ++ (state_name status ++ codes " without a reported reason")

unfoldable pub txid_changed : Text
txid_changed = codes "withdraw: refusing to rebroadcast, txid changed"

unfoldable pub unreadable_balance : Text
unreadable_balance = codes "withdraw: cannot parse balance"

unfoldable pub invalid_address : Text
invalid_address = codes "encode balanceOf: invalid address"
