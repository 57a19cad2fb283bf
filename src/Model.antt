-- ===== src/Model.antt =====
-- The rows of internal/model/model.go and the events that are written to the outbox. Times are unix
-- seconds; a nullable column is an Option; an empty text column is the empty text.
pub mod Withdraw
pub mod Outbox
pub mod Wallet
pub mod Deposit
pub mod Amount
pub mod Sweep
pub use Withdraw.{WithdrawState, WithdrawRecord, FailCode}
pub use Outbox.{OutboxState, NotifyOutbox, Payload, WithdrawEvent, DepositEvent, Outcome}
pub use Wallet.{UserWallet, AddressBlacklist, TokenConfig, Purpose}
pub use Deposit.{DepositState, DepositRecord, ChainCursor, BlockSnapshot}
unfoldable pub use Amount.{
  format_units, format_magnitude, pad_left_zeros, trim_right_zeros, keep_tail,
}
pub use Sweep.{SweepState, SweepFail, SweepRecord, SweepSkip}
