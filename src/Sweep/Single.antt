-- ===== src/Sweep/Single.antt =====
-- A call of sweepOne opens no second sweep of a token at an address.
use trc.Base.{
  Option-cases, codes, ℕ, suc, ◌≡◌, refl, sym, ◌∙◌, subst, inl, inr, true, false, Option, none,
  some, Text, All-mono, All-snoc, ltb, leb, if_intro, arith, if◌then◌else◌,
}
use trc.Model.{TokenConfig, UserWallet, SweepRecord}
use trc.Model.Sweep.{is_waiting}
use trc.Store.{
  World, Action, Result, ok, err, pure, ask, gets, continue, ◌>>=◌, statement, count_where,
}
use trc.Store.Table.{last_id, below_last_id}
use trc.Base.{◌+◌}
use trc.Tron.Tx.{encode_trc20_transfer}
use trc.Sweep.Env.{Env, sweep_rental_on, max_energy_retries, confirmed_query}
use trc.Sweep.Transfer.{
  in_flight, energy_failures, check_burn_budget, max_unswept_deposit_id, new_sweep, create_sweep,
  start_sweep, if_affordable, insert_sweep, estimate_and_start, sweep_if_free, sweep_one, or_fault,
  ok_or,
}
use trc.Sweep.Alone.{IsAlone, IsAlone-snoc}
use trc.Sweep.Kept.{Alone, Working, Alone-with_order}

module _ (env : Env) where
  open env use {config, fails}

  -- A call that only reads.
  read_only :
      {A : Type 0} (e : Option Text) (f : World → A) (w : World) → (statement e (gets f) w).1 ≡ w
  unfolding statement gets
  read_only none f w = refl
  read_only (some e) f w = refl

  read_value :
      {A : Type 0} (e : Option Text) (f : World → A) (w : World) (a : A)
      → (statement e (gets f) w).0 ≡ ok a
      → a ≡ f w
  unfolding statement gets
  read_value none f w a h = same h
    where
      same : {A : Type 0} {a b : A} → ok b ≡ ok a → a ≡ b
      same h = cc
  read_value (some e) f w a h = cc

  Alone-bind :
      {A B : Type 0} (m : Action A) (f : A → Action B) (w : World)
      → Alone (m w).1
      → ((a : A) → (m w).0 ≡ ok a → Alone (f a (m w).1).1)
      → Alone ((m >>= f) w).1
  unfolding ◌>>=◌
  Alone-bind m f w now later = continued (m w).0 refl
    where
      continued : (r : Result _) → (m w).0 ≡ r → Alone (continue r f (m w).1).1
      continued (ok a) e = later a e
      continued (err e) _ = now

  Alone-same :
      {A B : Type 0} (m : Action A) (f : A → Action B) (w : World)
      → (m w).1 ≡ w
      → Alone w
      → ((a : A) → Alone (f a w).1)
      → Alone ((m >>= f) w).1
  Alone-same m f w same h later =
      Alone-bind m f w (subst Alone (sym same) h)
        (λ a _. subst (λ v. Alone (f a v).1) (sym same) (later a))

  Alone-read :
      {A B : Type 0} (e : Option Text) (g : World → A) (f : A → Action B) (w : World)
      → Alone w
      → ((a : A) → a ≡ g w → Alone (f a w).1)
      → Alone ((statement e (gets g) >>= f) w).1
  Alone-read e g f w h later =
      Alone-bind (statement e (gets g)) f w (subst Alone (sym (read_only e g w)) h) (λ a is.
        subst (λ v. Alone (f a v).1) (sym (read_only e g w)) (later a (read_value e g w a is)))

  abbrev id_of : SweepRecord → ℕ
  id_of r = r.id

  abbrev drawn_id : World → ℕ
  drawn_id w = suc (last_id id_of w.db.sweeps + env.skipped_ids)

  -- What an insert needs: the drawn id, an open state, and no open sweep at the same address.
  abbrev Fresh : (ℕ → SweepRecord) → World → Type 0
  Fresh new w =
      (n : ℕ)
      → ((new n).id ≡ n)
        × (is_waiting (new n).status ≡ true)
        × (count_where (in_flight (new n).from_address (new n).contract) w.db.sweeps ≡ 0)

  Working-inserted :
      (e : Option Text) (new : ℕ → SweepRecord) (w : World) (id : ℕ)
      → Alone w
      → Fresh new w
      → (statement e (insert_sweep env.skipped_ids new) w).0 ≡ ok id
      → Working id (statement e (insert_sweep env.skipped_ids new) w).1
  unfolding statement insert_sweep
  Working-inserted (some e) new w id h fresh is = cc
  Working-inserted none new w id h fresh is =
      let n = drawn_id w in
      (
        IsAlone-snoc w.db.sweeps (new n) (fresh n).2 h,
        All-snoc _ (new n) w.db.sweeps (λ _. (fresh n).1)
            (All-mono w.db.sweeps (λ r old e. absurd (omega (arith, old, e, drawn n is)))
              (below_last_id id_of w.db.sweeps)),
      )
    where
      drawn : (n : ℕ) → ok n ≡ ok id → n ≡ id
      drawn n k = cc

  Alone-inserted :
      (e : Option Text) (new : ℕ → SweepRecord) (w : World)
      → Alone w
      → Fresh new w
      → Alone (statement e (insert_sweep env.skipped_ids new) w).1
  unfolding statement insert_sweep
  Alone-inserted (some e) new w h fresh = h
  Alone-inserted none new w h fresh =
      let n = drawn_id w in IsAlone-snoc w.db.sweeps (new n) (fresh n).2 h

  module _ (token : TokenConfig) (wallet : UserWallet) (amount : ℕ) where
    abbrev Free : World → Type 0
    Free w = count_where (in_flight wallet.address token.contract) w.db.sweeps ≡ 0

    Alone-start_sweep :
        (attempts : ℕ) (call : Text) (need : ℕ) (w : World)
        → Alone w
        → Free w
        → Alone (start_sweep env token wallet amount attempts call need w).1
    unfolding start_sweep max_unswept_deposit_id create_sweep new_sweep
    Alone-start_sweep attempts call need w h free = Alone-read _ _ _ w h (λ deposit_max_id _.
        Alone-bind _ _ w (Alone-inserted _ _ w h (λ n. (refl, refl, free))) (λ id is.
          Alone-with_order env id token wallet amount call _ _
            (Working-inserted _ _ w id h (λ n. (refl, refl, free)) is)))

    Alone-estimate_and_start :
        (attempts : ℕ) (call : Text) (w : World)
        → Alone w
        → Free w
        → Alone (estimate_and_start env token wallet amount attempts call w).1
    unfolding estimate_and_start pure
    Alone-estimate_and_start attempts call w h free =
        affordable
          (if sweep_rental_on config then ok tt else check_burn_budget env wallet.address need)
      where
        need : ℕ
        need =
            ok_or (env.worst_case attempts)
              (env.estimate_energy_factor wallet.address token.contract call attempts)

        affordable :
            (b : Result (Unit {0}))
            → Alone
                (if_affordable env b (start_sweep env token wallet amount attempts call need) w).1
        affordable (err e) = h
        affordable (ok _) = Alone-start_sweep attempts call need w h free

    Alone-retry :
        (attempts : ℕ) (w : World)
        → Alone w
        → Free w
        → Alone
            ((ask (
                  or_fault
                    (codes "tron: invalid transfer")
                    (encode_trc20_transfer env.crypto config.sweep_wallet amount))
                >>= estimate_and_start env token wallet amount attempts)
              w).1
    unfolding ask
    Alone-retry attempts w h free =
        Alone-bind _ _ w h (λ call _. Alone-estimate_and_start attempts call w h free)

    failures_same : (w : World) → (energy_failures env token.contract wallet.address w).1 ≡ w
    unfolding energy_failures ◌>>=◌ statement gets
    failures_same w = elim (Option-cases (fails confirmed_query)) [
      | inr (t, e) ↦ rw e refl
      | inl e ↦ rw e (read_only _ _ w)
    ]

    within_budget :
        (attempts : ℕ) (w : World)
        → Alone w
        → Free w
        → Alone
            ((if leb (max_energy_retries config) attempts
                then pure tt
                else ask (
                    or_fault
                      (codes "tron: invalid transfer")
                      (encode_trc20_transfer env.crypto config.sweep_wallet amount))
                  >>= estimate_and_start env token wallet amount attempts)
              w).1
    unfolding pure
    within_budget attempts w h free =
        if_intro (λ (m : Action (Unit {0})). Alone (m w).1)
          (leb (max_energy_retries config) attempts) (λ _. h) (λ _. Alone-retry attempts w h free)

    Alone-sweep_if_free : (w : World) → Alone w → Alone (sweep_if_free env token wallet amount w).1
    unfolding sweep_if_free pure
    Alone-sweep_if_free w h = Alone-read _ _ _ w h (λ inflight is.
        if_intro (λ (m : Action (Unit {0})). Alone (m w).1) (ltb 0 inflight) (λ _. h)
          (λ none_open.
            let free = no_other inflight is none_open in
            Alone-same _ _ w (failures_same w) h (λ attempts. within_budget attempts w h free)))
      where
        no_other :
            (n : ℕ)
            → n ≡ count_where (in_flight wallet.address token.contract) w.db.sweeps
            → ltb 0 n ≡ false
            → Free w
        no_other n is k = sym is ∙ zero_of k
          where
            zero_of : ltb 0 n ≡ false → n ≡ 0
            zero_of k = ground arith

-- A call of sweepOne keeps at most one open sweep of each token at each address, whatever the node, the
-- providers, the sign service and the statements answer, and whatever keys the inserts draw above those
-- of the table.
pub sweep_one-IsAlone :
    (env : Env) (token : TokenConfig) (wallet : UserWallet) (amount : ℕ) (w : World)
    → IsAlone w.db.sweeps
    → IsAlone (sweep_one env token wallet amount w).1.db.sweeps
unfolding sweep_one pure
sweep_one-IsAlone env token wallet amount w h =
    if_intro (λ (m : Action (Unit {0})). Alone (m w).1) (env.lock token.contract wallet.address)
      (λ _. Alone-sweep_if_free env token wallet amount w h) (λ _. h)
