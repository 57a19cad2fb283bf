-- ===== src/Withdraw/Steps/Send.antt =====
-- The compare-and-swap that takes a signed order, and `broadcast` behind it: a transaction is handed
-- to the node only after this very call has written its id on the order.
use trc.Base.{
  ℕ, ◌≡◌, refl, sym, inl, inr, Bool, true, false, Option, none, some, Text, All-mono, arith,
  Bool-cases, ◌==◌, if◌then◌else◌, All-intro,
}
use trc.Model.{WithdrawRecord, FailCode}
use trc.Store.{ok, World, pure, ◌>>=◌, update_where, count_where}
use trc.Tron.Tx.{Transaction}
use trc.Chain.Failure.{classify_broadcast}
use trc.Chain.Gateway.{Outcome, accepted_by, rejected_by, unavailable, BroadcastResult}
use trc.Chain.Gateway
use trc.Chain.Verdicts.{Names, broadcast-Names}
use trc.Withdraw.Env.{Env, SignResponse, statement, broadcast_update, signed_update}
use trc.Withdraw.Settle.{set_orders, still_created}
use trc.Withdraw.Execute.{
  commit, with_signature, still_signed, keep_waiting, with_broadcast, with_broadcast_error,
  settle_rejection, after_broadcast, send, note_sent, taken, commit_and_send, ignore_error,
}
use trc.Withdraw.Steps.{
  get_signed, get_broadcast, Write, move, hand_over, use_energy, Steps, here, next, Committed,
  Ready, Does,
}
use trc.Withdraw.Steps.Rules.{Steps-trans, Does-raise, Does-bind, Does-set_orders}
use trc.Withdraw.Steps.Settling.{Does-finish, created_hit}
use trc.Withdraw.Steps.Stable.{Ready-Write, Committed-Write}
use trc.Withdraw.Steps.Execute.{commit_row, commit-Committed, go_out}

module _ (env : Env) (row : WithdrawRecord) where
  Does-keep_waiting : (e : Text) (code : FailCode) → Does row (keep_waiting env row.id e code)
  unfolding keep_waiting with_broadcast_error
  Does-keep_waiting e code = record {
    at =
        (Does-set_orders row _ _ _
          (λ r. record {
            same_id = refl;
            same_order_no = refl;
            same_to_address = refl;
            same_amount_units = refl;
            same_notify_url = refl;
          })
          (λ r h. get_broadcast (go_out env row row.id r h).1 refl refl)).at;
  }

  Does-settle_rejection :
      (txid e : Text) (v : FailCode × Bool) → Does row (settle_rejection env row txid e v)
  unfolding settle_rejection
  Does-settle_rejection txid e (code, true) =
      Does-bind _ _ (Does-finish env row _ _ _ _ _ _ refl refl (inl refl)) (λ _. Does-raise _)
  Does-settle_rejection txid e (code, false) = Does-keep_waiting e code

  -- The update after an acceptance, which writes the id again that is there already.
  accepted_write :
      (fails : Option Text) (txid : Text) (w : World)
      → Committed row.id txid w
      → Steps w (ignore_error (set_orders fails (still_signed row.id) (with_broadcast env txid)) w)
  unfolding set_orders statement with_broadcast
  accepted_write none txid w c = next here (
      move (still_signed row.id) (with_broadcast env txid)
        (λ r. record {
          same_id = refl;
          same_order_no = refl;
          same_to_address = refl;
          same_amount_units = refl;
          same_notify_url = refl;
        })
        (All-mono w.db.withdraws
          (λ r known h.
            let at = go_out env row row.id r h in get_broadcast at.1 refl (sym (known at.0).1))
          c)
        refl)
  accepted_write (some e) txid w c = here

  Steps-after_broadcast :
      (txid : Text) (tx : Transaction) (o : Outcome) (w : World)
      → Names tx.tx_id o
      → Ready row w
      → Committed row.id tx.tx_id w
      → Steps w (after_broadcast env row txid o w).1
  unfolding after_broadcast
  Steps-after_broadcast txid tx (accepted_by res) w named h c =
      let same : Committed row.id res.tx_id w = rw (named.0) c in
      next (accepted_write (env.fails broadcast_update) res.tx_id w same) (use_energy _ refl)
  Steps-after_broadcast txid tx (rejected_by res e) w named h c =
      (Does-settle_rejection txid e (classify_broadcast res.code res.message)).at w h
  Steps-after_broadcast txid tx (unavailable e) w named h c =
      (Does-keep_waiting e FailCode.node_error).at w h

  -- Handing a transaction over is a step once the order carries its id.
  pub Steps-send :
      (txid : Text) (tx : Transaction) (w : World)
      → Ready row w
      → Committed row.id tx.tx_id w
      → Steps w (send env row txid tx w).1
  unfolding send
  Steps-send txid tx w h c =
      let out : Write w (note_sent row.id tx w) = hand_over row.id tx h.present c refl in
      Steps-trans (next here out) (
        Steps-after_broadcast txid tx (Gateway.broadcast env.nodes tx) (note_sent row.id tx w)
          (broadcast-Names env.nodes tx) (Ready-Write row out h)
          (Committed-Write row.id tx.tx_id out c))

module _ (env : Env) (row : WithdrawRecord) where
  pub Ready-taken :
      (signed : SignResponse) (w : World) → Ready row w → Ready (taken env row signed) w
  Ready-taken signed w h = record { distinct = h.distinct; present = h.present; known = h.known }

  -- The world behind the compare-and-swap, which is a step whether or not it hits.
  abbrev swapped : SignResponse → World → World
  swapped signed w = record w {
    db = record (w.db) {
      withdraws = update_where (still_created row.id) (with_signature env signed) w.db.withdraws;
    };
  }

  swap : (signed : SignResponse) (w : World) → Write w (swapped signed w)
  unfolding with_signature
  swap signed w =
      move (still_created row.id) (with_signature env signed) (commit_row env row signed)
        (All-intro w.db.withdraws λ r t. get_signed (created_hit row.id r t).1 refl) refl

  -- The compare-and-swap, and the send behind it if it hit.
  commit_then_send :
      (fails : Option Text) (signed : SignResponse) (w : World)
      → signed.tx.tx_id ≡ signed.tx_id
      → Ready row w
      → Steps w
          ((set_orders fails (still_created row.id) (with_signature env signed) >>= λ affected.
              if affected == 0
              then pure tt
              else send env (taken env row signed) signed.tx_id signed.tx)
            w).1
  unfolding set_orders statement ◌>>=◌ with_signature
  commit_then_send (some e) signed w named h = here
  commit_then_send none signed w named h =
      let hits = count_where (still_created row.id) w.db.withdraws in
      elim (Bool-cases (hits == 0)) [
        | inl miss ↦ rw miss (next here (swap signed w))
        | inr hit ↦ rw hit (
            Steps-trans (next here (swap signed w)) (
              Steps-send env (taken env row signed) signed.tx_id signed.tx (swapped signed w)
                (Ready-taken signed (swapped signed w) (Ready-Write row (swap signed w) h))
                (rw named
                  (commit-Committed env row signed w.db.withdraws h.distinct (ground arith)))))
      ]

  pub Does-commit : (signed : SignResponse) → Does row (commit env row signed)
  unfolding commit with_signature
  Does-commit signed =
      Does-set_orders row _ _ _ (commit_row env row signed)
        λ r t. get_signed (created_hit row.id r t).1 refl

  set_orders-Committed :
      (fails : Option Text) (signed : SignResponse) (w : World) (n : ℕ)
      → Ready row w
      → (set_orders fails (still_created row.id) (with_signature env signed) w).0 ≡ ok n
      → (n == 0) ≡ false
      → Committed row.id signed.tx_id
          (set_orders fails (still_created row.id) (with_signature env signed) w).1
  unfolding set_orders statement
  set_orders-Committed (some e) signed w n h ok_n hit = cc
  set_orders-Committed none signed w n h ok_n hit =
      commit-Committed env row signed w.db.withdraws h.distinct (ground arith)

  -- A compare-and-swap that hits commits the order to the transaction.
  pub commit-hit :
      (signed : SignResponse) (w : World) (n : ℕ)
      → Ready row w
      → (commit env row signed w).0 ≡ ok n
      → (n == 0) ≡ false
      → Committed row.id signed.tx_id (commit env row signed w).1
  unfolding commit
  commit-hit signed w n = set_orders-Committed (env.fails signed_update) signed w n

  -- Steps of the call from a prepared order on, the worker having any answer of the sign service.
  pub Steps-commit_and_send :
      (o : Option SignResponse) (w : World)
      → ((signed : SignResponse) → o ≡ some signed → signed.tx.tx_id ≡ signed.tx_id)
      → Ready row w
      → Steps w (commit_and_send env row o w).1
  unfolding commit_and_send commit pure
  Steps-commit_and_send none w named h = here
  Steps-commit_and_send (some signed) w named h =
      commit_then_send (env.fails signed_update) signed w (named signed refl) h
