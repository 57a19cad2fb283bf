-- ===== src/Chain/Gateway.antt =====
-- Broadcast of internal/chain/gateway.go: one signed transaction is offered to the nodes in order.
-- How a node answers is not code of the repository, so each node is given with its answers.
use trc.Base.{
  ℕ, suc, ◌+◌, ◌*◌, ◌/◌, ◌%◌, Bool, true, false, ◌&&◌, ◌||◌, not, List, [], ◌∷◌, ◌++◌, Option, none,
  some, Text, codes, text_eq, is_empty, to_upper, to_lower, trim_space, trim_prefix, contains,
  length, leb, ltb, if◌then◌else◌,
}
use trc.Tron.Hex.{hex_encode, hex_decode}
use trc.Tron.Tx.{Transaction}

-- appendVarint; the fuel is more than the number of bytes that a value has.
unfoldable pub append_varint : ℕ → ℕ → List ℕ
append_varint ℕ.zero v = []
append_varint (suc f) v =
    let rest = append_varint f (v / 128) in if ltb v 128 then v ∷ [] else (v % 128 + 128) ∷ rest

-- appendProtoBytes
unfoldable pub proto_bytes : ℕ → List ℕ → List ℕ
unfolding append_varint
proto_bytes field val = append_varint 10 (field * 8 + 2) ++ (append_varint 10 (length val) ++ val)

abbrev append_field : Option (List ℕ) → Option (List ℕ) → Option (List ℕ)
append_field (some a) (some b) = some (a ++ b)
append_field _ _ = none

unfoldable pub signature_fields : List Text → Option (List ℕ)
unfolding proto_bytes
signature_fields [] = some []
signature_fields (s ∷ rest) =
    append_field
      (elim (hex_decode (trim_prefix s (codes "0x"))) [
        | none ↦ none
        | some sig ↦ some (proto_bytes 2 sig)
      ])
      (signature_fields rest)

-- SerializeSigned of internal/tron/tx.go.
unfoldable pub serialize_signed : Transaction → Option Text
unfolding signature_fields proto_bytes
serialize_signed tx = if is_empty tx.raw_data_hex then none else elim tx.signature [
  | [] ↦ none
  | _ ∷ _ ↦
      elim (append_field
        (elim (hex_decode (trim_prefix tx.raw_data_hex (codes "0x"))) [
          | none ↦ none
          | some raw ↦ some (proto_bytes 1 raw)
        ])
        (signature_fields tx.signature)) [ none ↦ none | some out ↦ some (hex_encode out) ]
]

-- What is posted: the protobuf bytes on /wallet/broadcasthex, or the JSON object of the transaction
-- on /wallet/broadcasttransaction.
pub data Payload : Type 0 where
  broadcast_hex : Text → Payload
  broadcast_transaction : Transaction → Payload

-- broadcastRequest
unfoldable pub broadcast_request : Transaction → Option Payload
unfolding serialize_signed
broadcast_request tx =
    if not tx.has_raw_data
    then elim (serialize_signed tx) [ none ↦ none | some hex ↦ some (broadcast_hex hex) ]
    else some (broadcast_transaction tx)

pub record Reply : Type 0 where
  pub result : Bool
  pub code : Text
  pub message : Text

-- `no_answer` is a failure of the network or of the decoder.
pub data Answer : Type 0 where
  no_answer : Text → Answer
  answer : Reply → Answer

pub record Node : Type 0 where
  pub name : Text
  pub rate_limited : Bool
  pub post : Payload → Answer

pub record BroadcastResult : Type 0 where
  pub tx_id : Text
  pub accepted : Bool
  pub duplicated : Bool
  pub code : Text
  pub message : Text

-- `result, nil`; `result, err`; `nil, err`.
pub data Outcome : Type 0 where
  accepted_by : BroadcastResult → Outcome
  rejected_by : BroadcastResult → Text → Outcome
  unavailable : Text → Outcome

unfoldable pub is_printable : List ℕ → Bool
is_printable [] = true
is_printable (c ∷ b) = (leb 32 c && leb c 126) && is_printable b

unfoldable pub decode_hex_message : Text → Text
unfolding is_printable
decode_hex_message msg = elim (hex_decode (trim_prefix msg (codes "0x"))) [
  | none ↦ msg
  | some b ↦ if not (is_empty b) && is_printable b then b else msg
]

unfoldable pub is_duplicate : Text → Text → Bool
is_duplicate code message =
    text_eq (to_upper code) (codes "DUP_TRANSACTION_ERROR")
    || contains (to_lower message) (codes "dup transaction")
    || contains (to_lower message) (codes "already exists")

pub rejection : Node → Text → Text → Text
rejection n code message =
    let reason = trim_space (code ++ (codes " " ++ message)) in
    codes "broadcast rejected: "
    ++ (if is_empty reason then codes "unknown reason (" ++ (n.name ++ codes ")") else reason)

unfoldable pub verdict : Text → Text → Text → Bool → Bool → BroadcastResult
verdict txid code message ok dup = record {
  tx_id = txid;
  accepted = ok;
  duplicated = dup;
  code = code;
  message = message;
}

-- The switch on a node's answer to the transaction `txid`.
unfoldable pub judge : Node → Text → Reply → Outcome
unfolding verdict
judge n txid res =
    let message = decode_hex_message res.message in
    let out = verdict txid res.code message in
    if res.result
    then accepted_by (out true false)
    else if is_duplicate res.code message
    then accepted_by (out true true)
    else rejected_by (out false false) (rejection n res.code message)

pub no_node : Text
no_node = codes "no node available: "

abbrev pub after_answer : Node → Text → Answer → (Text → Outcome) → Outcome
after_answer n txid (no_answer e) rest = rest (n.name ++ (codes ": " ++ e))
after_answer n txid (answer res) rest = judge n txid res

-- The loop over the nodes; `last_err` is the error of the last node that gave no verdict.
unfoldable pub try_nodes : List Node → Text → Payload → Text → Outcome
unfolding judge
try_nodes [] txid payload last_err = unavailable (no_node ++ last_err)
try_nodes (n ∷ ns) txid payload last_err =
    if n.rate_limited
    then try_nodes ns txid payload (n.name ++ codes ": rate limited")
    else after_answer n txid (n.post payload) (try_nodes ns txid payload)

unfoldable pub broadcast : List Node → Transaction → Outcome
unfolding try_nodes broadcast_request
broadcast nodes tx = elim (broadcast_request tx) [
  | none ↦ unavailable (codes "transaction cannot be serialized")
  | some payload ↦ try_nodes nodes tx.tx_id payload []
]
