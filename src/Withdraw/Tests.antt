-- ===== src/Withdraw/Tests.antt =====
-- Runs of the worker on concrete inputs.
use trc.Base.{
  ◌≡◌, refl, inl, inr, true, false, List, [], ◌∷◌, none, some, Text, codes, subst, sym, ap, ◌∙◌,
  ◌++◌, text_eq, has_prefix,
}
use trc.Model.{WithdrawState, WithdrawRecord, FailCode}
use trc.Store.{World, Sent, Result, ok, err, fault, count_where, update_where, ◌>>=◌}
use trc.Withdraw.Env.{Env, SignRequest, SignResponse}
use trc.Chain.Gateway
use trc.Tron.Address.{is_valid_address}
use trc.Withdraw.Risk.{risk_check}
use trc.Withdraw.Settle.{reject, settle_order, report}
use trc.Withdraw.Execute.{prepare, execute}
use trc.Withdraw.Reconcile.{reconcile_one}
use trc.Withdraw.Messages.{invalid_destination_address}
use trc.Withdraw.Steps.{Steps, Ready}
use trc.Withdraw.Steps.Run.{SignerNamesTx, Steps-execute}
use trc.Withdraw.Steps.Resolve.{Steps-reconcile_one}
use trc.Withdraw.History.{
  System, Job, to_prepare, to_reconcile, advance, place, pick_created, pick_in_flight, act, History,
  begin, turn, Started, In,
}
use trc.Withdraw.History.Once.{one_transaction}
use trc.Withdraw.History.Settled.{settled_stays}
use trc.Withdraw.History.Reports.{reports_of}
use trc.Withdraw.History.Notice.{reported_once}

abbrev hot : Text
hot = codes "THot"

-- A sign service that signs the bytes it is given.
abbrev sign_it : SignRequest → Result SignResponse
sign_it req = ok (record { tx_id = req.tx.tx_id; tx = req.tx })

-- No node answers, and no transaction is on the chain.
abbrev pub env : Env
env = record {
  now = 1000000;
  config = record {
    hot_wallet = record { address = hot; path = codes "m/0" };
    tokens = [];
    fee_limit_sun = 0;
    halt_max_retries = 3;
    max_amount_units = codes "100";
    daily_max_units = codes "0";
    confirm_blocks = 19;
    confirmations = 19;
    tx_expiration_sec = 60;
    energy_rental = some false;
    rental_enabled = none;
    energy_per_tx_new = 130000;
  };
  crypto = record { keccak256 = λ bytes. bytes; sha256 = λ bytes. bytes };
  lock = λ key. true;
  fails = λ s. none;
  commit_fails = none;
  trigger_constant_contract = λ from contract call. err (fault (codes "down"));
  estimate_energy = λ from contract call. ok 65000;
  acquire_rented = λ from need id. err (fault (codes "down"));
  chain_parameters = err (fault (codes "down"));
  account_resource = λ address. err (fault (codes "down"));
  trx_balance = λ address. ok 0;
  build_trc20_transfer = λ from contract call fee. err (fault (codes "down"));
  sign = sign_it;
  nodes = [];
  tx_info_by_id = λ txid. ok none;
  tx_info_again = λ txid. ok none;
  tx_info_by_id_confirmed = λ txid. ok none;
  solidity_confirm = true;
}

abbrev AnyEnv : Env → Type 0
AnyEnv e = e.sign ≡ sign_it

abbrev NamesIt : Result SignResponse → Type 0
NamesIt (ok resp) = resp.tx.tx_id ≡ resp.tx_id
NamesIt (err e) = Unit

any_names : (e : Env) → AnyEnv e → SignerNamesTx e
any_names e h req resp answer = subst NamesIt (sym (ap (λ sign. sign req) h) ∙ answer) refl

abbrev pub order : WithdrawRecord
order = record {
  id = 7;
  order_no = codes "A1";
  trade_no = codes "T1";
  ext_param = [];
  merchant_id = codes "m";
  chain = codes "tron";
  symbol = codes "USDT";
  contract = codes "TUsdt";
  from_address = [];
  to_address = codes "nowhere";
  notify_url = codes "http";
  amount_units = codes "25";
  amount = codes "0.000025";
  decimals = 6;
  status = WithdrawState.created;
  fail_reason = [];
  fail_code = none;
  halt_count = 0;
  tx_id = [];
  block_number = 0;
  signed_raw = [];
  expired_at = none;
  energy_used = 0;
  fee_sun = 0;
  broadcast_at = none;
  confirmed_at = none;
  created_at = 999000;
  updated_at = 999000;
}

abbrev pub world_of : List WithdrawRecord → World
world_of rows = record {
  db = record {
    withdraws = rows;
    outbox = [];
    wallets = [];
    blacklist = [];
    deposits = [];
    cursors = [];
    snapshots = [];
    sweeps = [];
    sweep_skips = [];
  };
  sent = [];
  pool = none;
}

abbrev empty : System
empty = record { world = world_of []; jobs = [] }

empty-Started : Started empty
empty-Started = record { distinct = tt; unsent = refl; idle = refl }

-- An order is placed, picked up, and rejected for its destination.
abbrev picked : System
picked = record { world = world_of (order ∷ []); jobs = to_prepare order ∷ [] }

abbrev rejected : System
rejected = record {
  world = (advance env (to_prepare order) picked.world).1;
  jobs = (advance env (to_prepare order) picked.world).0 ++ picked.jobs;
}

abbrev refused : WithdrawRecord
refused = record order {
  status = WithdrawState.rejected;
  fail_reason = codes "invalid destination address";
  fail_code = some FailCode.risk_rejected;
  updated_at = 1000000;
}

to_picked : History AnyEnv empty picked
to_picked = turn (turn begin (place order refl tt tt)) (pick_created order (inl refl) refl)

to_rejected : History AnyEnv empty rejected
to_rejected = turn to_picked (act env (to_prepare order) refl (inl refl))

refused_inside : In refused rejected.world
unfolding advance prepare ◌>>=◌ risk_check is_valid_address has_prefix reject settle_order
    count_where report update_where invalid_destination_address
refused_inside = inl refl

reported_once_example : reports_of (codes "A1") rejected.world.db.outbox ≡ 1
reported_once_example =
    reported_once AnyEnv any_names empty-Started refl refl to_rejected refused refused_inside

-- The order is signed, and the worker hands the same bytes over twice.
abbrev signed_order : WithdrawRecord
signed_order = record order {
  status = WithdrawState.signed;
  tx_id = codes "tx1";
  signed_raw = codes "0a02";
  expired_at = some 1000060;
}

abbrev waiting : System
waiting = record { world = world_of (signed_order ∷ []); jobs = [] }

waiting-Started : Started waiting
waiting-Started = record { distinct = (tt, tt); unsent = refl; idle = refl }

abbrev step : Job → System → System
step job s = record {
  world = (advance env job s.world).1;
  jobs = (advance env job s.world).0 ++ s.jobs;
}

abbrev due : Job
due = to_reconcile signed_order 0

abbrev sent_twice : System
sent_twice = step due (step due (record { world = waiting.world; jobs = due ∷ [] }))

to_sent_twice : History AnyEnv waiting sent_twice
unfolding advance
to_sent_twice =
    turn
      (turn (turn begin (pick_in_flight signed_order 0 (inl refl) refl))
        (act env due refl (inl refl)))
      (act env due refl (inl refl))

abbrev handed : Sent
handed = record { order = 7; txid = codes "tx1"; raw = codes "0a02" }

one_transaction_example : handed.txid ≡ codes "tx1"
unfolding advance reconcile_one ◌>>=◌ text_eq Gateway.broadcast
one_transaction_example =
    one_transaction AnyEnv any_names waiting-Started to_sent_twice handed handed (inl refl)
      (inr (inl refl)) refl

settled_stays_example : In refused rejected.world
settled_stays_example =
    settled_stays AnyEnv any_names empty-Started to_rejected refused refl refused_inside begin

ready : (row : WithdrawRecord) → Ready row (world_of (row ∷ []))
ready row = record { distinct = (tt, tt); present = inl refl; known = ((λ _. refl), tt) }

Steps-execute_example : Steps (world_of (order ∷ [])) (execute env order (world_of (order ∷ []))).1
Steps-execute_example =
    Steps-execute env (any_names env refl) order (world_of (order ∷ [])) (ready order)

Steps-reconcile_one_example :
    Steps
      (world_of (signed_order ∷ []))
      (reconcile_one env signed_order 0 (world_of (signed_order ∷ []))).1
Steps-reconcile_one_example =
    Steps-reconcile_one env (any_names env refl) signed_order 0 (world_of (signed_order ∷ []))
      (ready signed_order) ((λ _. (refl, refl)), tt)
