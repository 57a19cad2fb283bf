-- ===== src/Withdraw/Transfer.antt =====
-- What `transferred` finds in a receipt, said without its tests.
use trc.Base.{
  ℕ, ◌≡◌, refl, ap, inl, inr, Bool, true, false, List, [], ◌∷◌, Option, none, some, Text, Any, any,
  Any-mono, text_eq_sound, is_empty, equal_fold, set_string, Bool-cases, &&-eq-true, ==_iff, arith,
}
use trc.Model.{WithdrawRecord}
use trc.Tron.Crypto.{Crypto}
use trc.Tron.Address.{hex_to_address}
use trc.Tron.Tx.{transfer_event_topic, parse_uint256}
use trc.Chain.TxInfo.{TxInfo, TxLog}
use trc.Withdraw.Reconcile.{has_address, has_value, sent_from, pays_topics, pays, transferred}

-- A log that is the event Transfer(sender, receiver, n) of the order's contract.
pub record IsTransfer (crypto : Crypto) (row : WithdrawRecord) (n : ℕ) (lg : TxLog) : Type 0 where
  pub topic : Text
  pub sender : Text
  pub receiver : Text
  pub shape : lg.topics ≡ topic ∷ sender ∷ receiver ∷ []
  pub is_event : equal_fold topic (transfer_event_topic crypto) ≡ true
  pub from_sender :
      is_empty row.from_address ≡ false → hex_to_address crypto sender ≡ some row.from_address
  pub to_receiver : hex_to_address crypto receiver ≡ some row.to_address
  pub of_contract : hex_to_address crypto lg.address ≡ some row.contract
  pub of_amount : parse_uint256 lg.log_data ≡ some n

has_address_sound : (o : Option Text) (a : Text) → has_address o a ≡ true → o ≡ some a
has_address_sound none a h = cc
has_address_sound (some b) a h = ap some (text_eq_sound b a h)

has_value_sound : (o : Option ℕ) (n : ℕ) → has_value o (false, n) ≡ true → o ≡ some n
has_value_sound none n h = cc
has_value_sound (some v) n h = ap some ((==_iff v n).0 h)

any_sound :
    {A : Type 0} (p : A → Bool) (xs : List A) → any p xs ≡ true → Any (λ (x : A). p x ≡ true) xs
any_sound p [] h = cc
any_sound p (x ∷ xs) h = elim (Bool-cases (p x)) [
  | inl hit ↦ inl hit
  | inr miss ↦ inr (any_sound p xs (ground arith))
]

module _ (crypto : Crypto) (row : WithdrawRecord) (n : ℕ) (lg : TxLog) where
  sender_sound :
      (topic : Text)
      → sent_from crypto topic row.from_address ≡ true
      → is_empty row.from_address ≡ false
      → hex_to_address crypto topic ≡ some row.from_address
  sender_sound topic h given =
      has_address_sound (hex_to_address crypto topic) row.from_address (rw given at h)

  topics_sound :
      (topics : List Text)
      → lg.topics ≡ topics
      → pays_topics crypto row.from_address row.to_address topics ≡ true
      → has_address (hex_to_address crypto lg.address) row.contract ≡ true
      → has_value (parse_uint256 lg.log_data) (false, n) ≡ true
      → IsTransfer crypto row n lg
  unfolding pays_topics
  topics_sound [] e h a v = cc
  topics_sound (t ∷ []) e h a v = cc
  topics_sound (t ∷ s ∷ []) e h a v = cc
  topics_sound (t ∷ s ∷ r ∷ x ∷ rest) e h a v = cc
  topics_sound (t ∷ s ∷ r ∷ []) e h a v =
      let (event, parties) = &&-eq-true _ _ h in
      let (from, to) = &&-eq-true _ _ parties in
      record {
        topic = t;
        sender = s;
        receiver = r;
        shape = e;
        is_event = event;
        from_sender = sender_sound s from;
        to_receiver = has_address_sound (hex_to_address crypto r) row.to_address to;
        of_contract = has_address_sound (hex_to_address crypto lg.address) row.contract a;
        of_amount = has_value_sound (parse_uint256 lg.log_data) n v;
      }

  pays_sound : pays crypto row (false, n) lg ≡ true → IsTransfer crypto row n lg
  unfolding pays
  pays_sound h =
      let (topics, rest) = &&-eq-true _ _ h in
      let (contract, value) = &&-eq-true _ _ rest in
      topics_sound lg.topics refl topics contract value

-- A receipt that `transferred` takes, for an order whose amount reads as n, has a log of three topics
-- that is the Transfer event: emitted by the order's contract, from the order's sender (where it has
-- one) to its receiver, of exactly n.
pub transferred_sound :
    (crypto : Crypto) (info : TxInfo) (row : WithdrawRecord) (n : ℕ)
    → set_string row.amount_units ≡ some (false, n)
    → transferred crypto info row ≡ true
    → Any (IsTransfer crypto row n) info.logs
unfolding transferred
transferred_sound crypto info row n amount h =
    let found : any (pays crypto row (false, n)) info.logs ≡ true = rw (amount, transferred) at h in
    Any-mono info.logs (λ lg is_it. pays_sound crypto row n lg is_it)
      (any_sound (pays crypto row (false, n)) info.logs found)
