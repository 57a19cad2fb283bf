-- ===== src/Signer/Signing.antt =====
-- What Sign makes of a request that it answers.
use trc.Base.{
  Bool, true, false, text_eq_sound, ap, ◌∙◌, arith, ℕ, ◌≡◌, refl, not, ◌&&◌, Option, none, some,
  Text, text_eq, is_empty, Bool-cases, Option-cases, inl, inr, List, subst, equal_fold,
}
use trc.Store.{OnOk, Result, ok, err}
use trc.Tron.Address.{pub_key_to_address}
use trc.Tron.Tx.{Transaction, sign_transaction, tx_id_from_raw_hex}
use trc.Tron.Hex.{hex_decode}
use trc.Withdraw.Env.{SignResponse}
use trc.Signer.Policy.{SignRequest, Checked, passed, refused, check}
use trc.Signer.Service.{PrivateKey, Service, sign_with, sign_as, sign_by, sign_checked, sign}

-- What the service makes of the request's transaction.
pub record Signed (s : Service) (req : SignRequest) (resp : SignResponse) : Type 0 where
  pub same_bytes : resp.tx.raw_data_hex ≡ req.tx.raw_data_hex
  pub names_tx : resp.tx.tx_id ≡ resp.tx_id
  pub key : PrivateKey
  pub derived : s.derive_private_key req.path ≡ some key
  pub of_address :
      is_empty req.address ≡ false → pub_key_to_address s.crypto key.public_key ≡ some req.address
  pub is_hash : tx_id_from_raw_hex s.crypto req.tx.raw_data_hex ≡ some resp.tx_id

-- A property of the result, where there is one.
abbrev OnSome : {A : Type 0} → (A → Type 0) → Option A → Type 0
OnSome P none = Unit
OnSome P (some a) = P a

module _ (s : Service) (req : SignRequest) where
  abbrev SameTx : Transaction → Type 0
  SameTx signed =
      (signed.raw_data_hex ≡ req.tx.raw_data_hex)
      × (tx_id_from_raw_hex s.crypto req.tx.raw_data_hex ≡ some signed.tx_id)

  sign_transaction-SameTx :
      (sign_digest : List ℕ → Option (List ℕ))
      → OnSome SameTx (sign_transaction s.crypto sign_digest req.tx)
  unfolding sign_transaction
  sign_transaction-SameTx sign_digest = elim (Bool-cases (is_empty req.tx.raw_data_hex)) [
    | inl no_tx ↦ rw no_tx tt
    | inr tx ↦ elim (Option-cases (tx_id_from_raw_hex s.crypto req.tx.raw_data_hex)) [
      | inl none_made ↦ rw (tx, none_made) tt
      | inr (txid, made) ↦
          elim (Bool-cases (not (is_empty req.tx.tx_id) && not (equal_fold req.tx.tx_id txid))) [
            | inl differs ↦ rw (tx, made, differs) tt
            | inr agrees ↦ elim (Option-cases (hex_decode txid)) [
              | inl bad ↦ rw (tx, made, agrees, bad) tt
              | inr (digest, fine) ↦ elim (Option-cases (sign_digest digest)) [
                | inl failed ↦ rw (tx, made, agrees, fine, failed) tt
                | inr (sig, done) ↦ rw (tx, made, agrees, fine, done) (refl, made)
              ]
            ]
          ]
    ]
  ]

  -- An address that is given is that of the key.
  given_address :
      (addr : Text)
      → (not (is_empty req.address) && not (text_eq addr req.address)) ≡ false
      → is_empty req.address ≡ false
      → addr ≡ req.address
  given_address addr agrees given =
      text_eq_sound addr req.address (same (is_empty req.address) _ agrees given)
    where
      same : (a b : Bool) → (not a && not b) ≡ false → a ≡ false → b ≡ true
      same a b h k = ground arith

  sign_with-Signed :
      (key : PrivateKey) (addr : Text)
      → s.derive_private_key req.path ≡ some key
      → pub_key_to_address s.crypto key.public_key ≡ some addr
      → OnOk (Signed s req) (sign_with s req key addr)
  unfolding sign_with
  sign_with-Signed key addr derived owns =
      elim (Bool-cases (not (is_empty req.address) && not (text_eq addr req.address))) [
        | inl differs ↦ rw differs tt
        | inr agrees ↦ elim (Option-cases (sign_transaction s.crypto key.sign_recoverable req.tx)) [
          | inl failed ↦ rw (agrees, failed) tt
          | inr (signed, done) ↦
              let same =
                subst (OnSome SameTx) done (sign_transaction-SameTx key.sign_recoverable) in
              rw (agrees, done)
                (record {
                  same_bytes = same.0;
                  names_tx = refl;
                  key = key;
                  derived = derived;
                  of_address = λ given. owns ∙ ap some (given_address addr agrees given);
                  is_hash = same.1;
                })
        ]
      ]

  sign_as-Signed :
      (key : PrivateKey) (o : Option Text)
      → s.derive_private_key req.path ≡ some key
      → pub_key_to_address s.crypto key.public_key ≡ o
      → OnOk (Signed s req) (sign_as s req key o)
  sign_as-Signed key none derived owns = tt
  sign_as-Signed key (some addr) derived owns = sign_with-Signed key addr derived owns

  sign_by-Signed :
      (o : Option PrivateKey)
      → s.derive_private_key req.path ≡ o
      → OnOk (Signed s req) (sign_by s req o)
  sign_by-Signed none derived = tt
  sign_by-Signed (some key) derived =
      sign_as-Signed key (pub_key_to_address s.crypto key.public_key) derived refl

  with_check :
      (r : Result SignResponse)
      → OnOk (Signed s req) r
      → OnOk (λ resp. (passed ≡ passed) × Signed s req resp) r
  with_check (ok resp) h = (refl, h)
  with_check (err e) h = tt

  -- A response means that the policy's checks passed.
  sign_checked-Signed :
      (c : Checked) → OnOk (λ resp. (c ≡ passed) × Signed s req resp) (sign_checked s req c)
  unfolding sign_checked
  sign_checked-Signed (refused reason) = tt
  sign_checked-Signed passed =
      with_check (sign_by s req (s.derive_private_key req.path))
        (sign_by-Signed (s.derive_private_key req.path) refl)

  pub sign-Signed :
      (resp : SignResponse)
      → sign s req ≡ ok resp
      → (check s.crypto s.policy req ≡ passed) × Signed s req resp
  unfolding sign
  sign-Signed resp h =
      subst (OnOk (λ resp. (check s.crypto s.policy req ≡ passed) × Signed s req resp)) h
        (sign_checked-Signed (check s.crypto s.policy req))
