-- ===== src/Signer/Service.antt =====
-- Service.Sign of internal/signer/server.go. DerivePrivateKey of internal/hd/hd.go is a parameter; a
-- key is its public key and what it makes of a digest (signRecoverable).
use trc.Base.{ℕ, not, ◌&&◌, List, Option, none, some, Text, codes, text_eq, is_empty, if◌then◌else◌}
use trc.Store.{Result, ok, err, fault}
use trc.Tron.Crypto.{Crypto}
use trc.Tron.Address.{pub_key_to_address}
use trc.Tron.Tx.{sign_transaction}
use trc.Withdraw.Env.{SignResponse}
use trc.Withdraw.Env
use trc.Signer.Policy.{SignRequest, Policy, Checked, passed, refused, check, purpose_withdraw}

pub record PrivateKey : Type 0 where
  pub public_key : List ℕ
  pub sign_recoverable : List ℕ → Option (List ℕ)

pub record Service : Type 0 where
  pub crypto : Crypto
  pub policy : Policy
  pub derive_private_key : Text → Option PrivateKey

module _ (s : Service) where
  open s use {crypto, policy, derive_private_key}

  unfoldable pub sign_with : SignRequest → PrivateKey → Text → Result SignResponse
  sign_with req key addr =
      if not (is_empty req.address) && not (text_eq addr req.address)
      then err (fault (codes "path/address mismatch"))
      else elim (sign_transaction crypto key.sign_recoverable req.tx) [
        | none ↦ err (fault (codes "sign failed"))
        | some signed ↦ ok (record { tx_id = signed.tx_id; tx = signed })
      ]

  abbrev pub sign_as : SignRequest → PrivateKey → Option Text → Result SignResponse
  sign_as req key none = err (fault (codes "tron: invalid public key length"))
  sign_as req key (some addr) = sign_with req key addr

  abbrev pub sign_by : SignRequest → Option PrivateKey → Result SignResponse
  sign_by req none = err (fault (codes "derive failed"))
  sign_by req (some key) = sign_as req key (pub_key_to_address crypto key.public_key)

  unfoldable pub sign_checked : SignRequest → Checked → Result SignResponse
  unfolding sign_with
  sign_checked req (refused reason) = err (fault reason)
  sign_checked req passed = sign_by req (derive_private_key req.path)

  unfoldable pub sign : SignRequest → Result SignResponse
  unfolding sign_checked
  sign req = sign_checked req (check crypto policy req)

  -- The request that the withdrawal worker makes.
  abbrev pub withdrawal : Env.SignRequest → SignRequest
  withdrawal req = record {
    purpose = purpose_withdraw;
    path = req.path;
    address = req.address;
    tx = req.tx;
    raw_contract = none;
    to_address = req.to_address;
    contract = req.contract;
    amount_units = req.amount_units;
    amount_sun = 0;
  }
