-- ===== src/Withdraw/Reconcile.antt =====
-- reconcileOne, finalInfo, transferred and rebroadcast of internal/withdraw/worker.go.
use trc.Base.{
  ℕ, ◌+◌, Bool, false, ◌&&◌, not, List, [], ◌∷◌, Option, none, some, Text, text_eq, is_empty,
  is_some, equal_fold, ltb, ◌==◌, set_string, any, if◌then◌else◌,
}
use trc.Model.{WithdrawState, WithdrawRecord, FailCode}
use trc.Store.{Action, Result, ok, err, fault, pure, raise, ask, ◌>>=◌, ◌>>◌}
use trc.Tron.Address.{hex_to_address}
use trc.Tron.Crypto.{Crypto}
use trc.Tron.Tx.{transfer_event_topic, parse_uint256}
use trc.Chain.TxInfo.{TxInfo, TxLog, succeeded, failure_reason}
use trc.Chain.Failure.{classify_receipt, classify_broadcast}
use trc.Chain.Gateway.{Outcome, accepted_by, rejected_by, unavailable}
use trc.Chain.Gateway
use trc.Withdraw.Env.{Env, SignResponse, required_blocks}
use trc.Withdraw.Settle.{finish}
use trc.Withdraw.Execute.{note_sent}
use trc.Withdraw.Messages.{
  broadcast_rejected, not_included, on_chain_failure, no_transfer, txid_changed,
}

-- `a, err := HexToAddress(...)` with `err != nil || a != address` negated.
abbrev pub has_address : Option Text → Text → Bool
has_address none address = false
has_address (some a) address = text_eq a address

-- `value.Cmp(amount) == 0` for a value that is not negative.
abbrev pub has_value : Option ℕ → Bool × ℕ → Bool
has_value none amount = false
has_value (some value) (negative, n) = if negative then value == 0 && n == 0 else value == n

module _ (crypto : Crypto) where
  -- The sender is checked only if the order has one.
  abbrev pub sent_from : Text → Text → Bool
  sent_from topic from =
      if is_empty from
      then is_some (hex_to_address crypto topic)
      else has_address (hex_to_address crypto topic) from

  unfoldable pub pays_topics : Text → Text → List Text → Bool
  pays_topics from to (topic ∷ sender ∷ receiver ∷ []) =
      equal_fold topic (transfer_event_topic crypto)
      && (sent_from sender from && has_address (hex_to_address crypto receiver) to)
  pays_topics from to _ = false

  -- One round of the loop of `transferred`.
  unfoldable pub pays : WithdrawRecord → Bool × ℕ → TxLog → Bool
  unfolding pays_topics
  pays row amount lg =
      pays_topics row.from_address row.to_address lg.topics
      && (has_address (hex_to_address crypto lg.address) row.contract
          && has_value (parse_uint256 lg.log_data) amount)

  unfoldable pub transferred : TxInfo → WithdrawRecord → Bool
  unfolding pays
  transferred info row = elim (set_string row.amount_units) [
    | none ↦ false
    | some amount ↦ any (pays row amount) info.logs
  ]

module _ (env : Env) where
  open env use {
    now, config, crypto, nodes, sign, tx_info_by_id, tx_info_again, tx_info_by_id_confirmed,
    solidity_confirm,
  }

  abbrev pub deep_enough : ℕ → Option TxInfo → Option TxInfo
  deep_enough head none = none
  deep_enough head (some info) =
      if ltb head (info.block_number + required_blocks config) then none else some info

  -- `head-info.BlockNumber < confirmBlocks` is written without the subtraction.
  unfoldable pub final_info : Text → ℕ → Result (Option TxInfo)
  final_info txid head =
      if solidity_confirm
      then tx_info_by_id_confirmed txid
      else elim (tx_info_again txid) [ err e ↦ err e | ok info ↦ ok (deep_enough head info) ]

  abbrev pub settle_permanent : WithdrawRecord → Text → FailCode × Bool → Action (Unit {0})
  settle_permanent row e (code, permanent) =
      if permanent
      then finish env row WithdrawState.failed (broadcast_rejected e) (some code) 0 0
        >> raise (fault e)
      else raise (fault e)

  unfoldable pub after_rebroadcast : WithdrawRecord → Outcome → Action (Unit {0})
  after_rebroadcast row (accepted_by res) = pure tt
  after_rebroadcast row (rejected_by res e) =
      settle_permanent row e (classify_broadcast res.code res.message)
  after_rebroadcast row (unavailable e) = raise (fault e)

  -- The stored bytes, whose id must not have changed, go out again.
  unfoldable pub resend : WithdrawRecord → SignResponse → Action (Unit {0})
  unfolding after_rebroadcast
  resend row signed w =
      if not (text_eq signed.tx_id row.tx_id)
      then (err (fault txid_changed), w)
      else after_rebroadcast row (Gateway.broadcast nodes signed.tx) (note_sent row.id signed.tx w)

  unfoldable pub rebroadcast : WithdrawRecord → Action (Unit {0})
  unfolding resend
  rebroadcast row = do
    signed ← ask (
        sign (record {
          path = config.hot_wallet.path;
          address = config.hot_wallet.address;
          tx = record {
            tx_id = row.tx_id;
            has_raw_data = false;
            raw_data_hex = row.signed_raw;
            signature = [];
          };
          to_address = row.to_address;
          contract = row.contract;
          amount_units = row.amount_units;
        }))
    resend row signed

  -- `row.ExpiredAt != nil && now.Before(*row.ExpiredAt)`
  abbrev pub still_valid : Option ℕ → Bool
  still_valid none = false
  still_valid (some expired_at) = ltb now expired_at

  -- The transaction is not on the chain.
  unfoldable pub settle_absent : WithdrawRecord → Action (Unit {0})
  unfolding rebroadcast
  settle_absent row =
      if still_valid row.expired_at
      then (if is_empty row.signed_raw then pure tt else rebroadcast row)
      else finish env row WithdrawState.failed not_included (some FailCode.expired) 0 0

  unfoldable pub settle_final : WithdrawRecord → TxInfo → Action (Unit {0})
  settle_final row0 final =
      let row = record row0 { block_number = final.block_number } in
      if not (succeeded final)
      then finish env row WithdrawState.failed (on_chain_failure (failure_reason final))
          (some (classify_receipt final)) final.receipt.energy_usage_total final.fee
      else if not (transferred crypto final row)
      then finish env row WithdrawState.failed no_transfer (some FailCode.no_transfer_event)
          final.receipt.energy_usage_total final.fee
      else finish env row WithdrawState.confirmed [] none final.receipt.energy_usage_total final.fee

  abbrev pub settle_if_final : WithdrawRecord → Option TxInfo → Action (Unit {0})
  settle_if_final row none = pure tt
  settle_if_final row (some final) = settle_final row final

  abbrev pub settle_found : WithdrawRecord → ℕ → Option TxInfo → Action (Unit {0})
  settle_found row head none = settle_absent row
  settle_found row head (some info) = do
    final ← ask (final_info row.tx_id head)
    settle_if_final row final

  unfoldable pub reconcile_one : WithdrawRecord → ℕ → Action (Unit {0})
  unfolding final_info settle_absent settle_final
  reconcile_one row head =
      if is_empty row.tx_id
      then pure tt
      else do info ← ask (tx_info_by_id row.tx_id); settle_found row head info
