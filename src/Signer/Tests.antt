-- ===== src/Signer/Tests.antt =====
-- A withdrawal that the service signs. The hashes are stand-ins: the first bytes of their argument.
use trc.Base.{ℕ, false, List, [], ◌∷◌, ◌++◌, none, some, Text, codes, take, replicate}
use trc.Tron.Crypto.{Crypto}
use trc.Tron.Hex.{hex_encode}
use trc.Tron.Base58.{base58_encode}
use trc.Withdraw.Env.{SignResponse}
use trc.Signer.Policy.{SignRequest, purpose_withdraw}
use trc.Signer.Service.{Service}

abbrev crypto : Crypto
crypto = record { keccak256 = take 32; sha256 = take 32 }

-- Addresses whose checksum, under that hash, is their own first bytes.
abbrev address_of : List ℕ → Text
address_of body = base58_encode (0x41 ∷ body ++ 0x41 ∷ take 3 body)

abbrev sender : Text
sender = address_of (replicate 20 7)

abbrev receiver : Text
receiver = address_of (replicate 20 9)

abbrev service : Service
service = record {
  crypto = crypto;
  policy = record {
    topup_whitelist = [];
    topup_max_sun = 0;
    gas_account_address = [];
    sweep_destination = [];
    withdraw_from = sender;
    allowed_contracts = codes "TUsdt" ∷ [];
  };
  derive_private_key = λ path.
      some (record { public_key = replicate 64 7; sign_recoverable = λ digest. some digest });
}

abbrev call : Text
call = hex_encode (codes "tran" ++ replicate 12 0 ++ replicate 20 9 ++ replicate 31 0 ++ 25 ∷ [])

abbrev request : SignRequest
request = record {
  purpose = purpose_withdraw;
  path = codes "m/0";
  address = sender;
  tx = record { tx_id = []; has_raw_data = false; raw_data_hex = call; signature = [] };
  raw_contract = none;
  to_address = receiver;
  contract = codes "TUsdt";
  amount_units = codes "25";
  amount_sun = 0;
}

abbrev answer : SignResponse
answer = record {
  tx_id = hex_encode (codes "tran" ++ replicate 12 0 ++ replicate 16 9);
  tx = record {
    tx_id = hex_encode (codes "tran" ++ replicate 12 0 ++ replicate 16 9);
    has_raw_data = false;
    raw_data_hex = call;
    signature = hex_encode (codes "tran" ++ replicate 12 0 ++ replicate 16 9) ∷ [];
  };
}
