-- ===== src/Signer/Guards.antt =====
-- What a signature of the service says of the transaction.
use trc.Base.{ℕ, ◌≡◌, sym, ◌∙◌, true, false, some, Text, is_empty, positive_units}
use trc.Tron.Address.{is_valid_address}
use trc.Tron.Tx.{encode_trc20_transfer}
use trc.Withdraw.Env
use trc.Withdraw.Steps.Run.{SignerNamesTx}
use trc.Signer.Policy.{SignRequest, member, no_texts, contains_fold}
use trc.Signer.Service.{Service, sign, withdrawal}
use trc.Signer.Signing.{sign-Signed}

-- A signature for a withdrawal.
pub record Authorized (s : Service) (req : SignRequest) : Type 0 where
  pub from_hot_wallet :
      is_empty s.policy.withdraw_from ≡ false → req.address ≡ s.policy.withdraw_from
  pub contract_allowed :
      no_texts s.policy.allowed_contracts ≡ false
      → member req.contract s.policy.allowed_contracts ≡ true
  pub valid_destination : is_valid_address s.crypto req.to_address ≡ true
  pub amount : ℕ
  pub declared : positive_units req.amount_units ≡ some amount
  pub call : Text
  pub encoded : encode_trc20_transfer s.crypto req.to_address amount ≡ some call
  pub calls_it : contains_fold req.tx.raw_data_hex call ≡ true

module _ (s : Service) (req : SignRequest) where
  record Calls : Type 0 where
    amount : ℕ
    declared : positive_units req.amount_units ≡ some amount
    call : Text
    encoded : encode_trc20_transfer s.crypto req.to_address amount ≡ some call
    calls_it : contains_fold req.tx.raw_data_hex call ≡ true

-- A worker whose sign service is this one gets the id of the very transaction that it gets, for every
-- withdrawal that is signed: what the theorems on the worker ask of the sign service.
sign-SignerNamesTx :
    (s : Service) (env : Env.Env)
    → ((req : Env.SignRequest) → env.sign req ≡ sign s (withdrawal s req))
    → SignerNamesTx env
sign-SignerNamesTx s env is_service req resp h =
    (sign-Signed s (withdrawal s req) resp (sym (is_service req) ∙ h)).1.names_tx
