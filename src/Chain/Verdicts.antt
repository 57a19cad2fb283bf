-- ===== src/Chain/Verdicts.antt =====
-- What Broadcast of internal/chain/gateway.go answers.
use trc.Base.{
  ◌≡◌, refl, true, false, List, [], ◌∷◌, Text, Bool-cases, if_intro, Option-cases, inl, inr,
}
use trc.Tron.Tx.{Transaction}
use trc.Chain.Gateway.{
  Node, Answer, no_answer, answer, Reply, Payload, Outcome, accepted_by, rejected_by, unavailable,
  judge, is_duplicate, decode_hex_message, try_nodes, broadcast, broadcast_request, after_answer,
}

-- What a verdict says: the transaction's own id, and acceptance only from a node that took it.
abbrev pub Names : Text → Outcome → Type 0
Names txid (accepted_by res) = (res.tx_id ≡ txid) × (res.accepted ≡ true)
Names txid (rejected_by res e) = (res.tx_id ≡ txid) × (res.accepted ≡ false)
Names txid (unavailable e) = Unit {0}

judge-Names : (n : Node) (txid : Text) (res : Reply) → Names txid (judge n txid res)
unfolding judge
judge-Names n txid res = elim (Bool-cases res.result) [
  | inl e ↦ rw e (refl, refl)
  | inr e ↦ elim (Bool-cases (is_duplicate res.code (decode_hex_message res.message))) [
    | inl d ↦ rw (e, d) (refl, refl)
    | inr d ↦ rw (e, d) (refl, refl)
  ]
]

try_nodes-Names :
    (ns : List Node) (txid : Text) (payload : Payload) (last_err : Text)
    → Names txid (try_nodes ns txid payload last_err)
unfolding try_nodes
try_nodes-Names [] txid payload last_err = tt
try_nodes-Names (n ∷ ns) txid payload last_err =
    if_intro (Names txid) n.rate_limited (λ _. try_nodes-Names ns txid payload _)
      (λ _. of_answer (n.post payload) (try_nodes-Names ns txid payload))
  where
    of_answer :
        (a : Answer)
        → ((e : Text) → Names txid (try_nodes ns txid payload e))
        → Names txid (after_answer n txid a (try_nodes ns txid payload))
    of_answer (no_answer e) rest = rest _
    of_answer (answer res) rest = judge-Names n txid res

-- Whatever the nodes answer, the result of Broadcast, where there is one, has the id of the
-- transaction that was offered, and it is marked accepted exactly where there is no error.
pub broadcast-Names : (nodes : List Node) (tx : Transaction) → Names tx.tx_id (broadcast nodes tx)
unfolding broadcast
broadcast-Names nodes tx = elim (Option-cases (broadcast_request tx)) [
  | inl e ↦ rw (e, broadcast) tt
  | inr (payload, e) ↦ rw (e, broadcast) (try_nodes-Names nodes tx.tx_id payload [])
]
