-- ===== src/Api/Placed.antt =====
-- What a placed order is, and that nothing else is written.
use trc.Base.{equal_fold, codes}
use trc.Base.{
  Any, inl, inr, ℕ, ◌≡◌, ◌<◌, refl, sym, Bool, true, false, ◌&&◌, ◌||◌, not, [], ◌∷◌, List, Option,
  none, some, Text, any, text_eq, text_eq_self, print_dec, ltb, ◌==◌, arith, if_intro, &&-eq-true,
}
use trc.Model.{WithdrawRecord, WithdrawState, TokenConfig}
use trc.Store.{World, Result, ok, err, Error}
use trc.Tron.Address
use trc.Withdraw.History.{insert_order, AbsentNo}
use trc.Base.{set_string, ◌++◌, replicate, ◌-◌, is_empty, length}
use trc.Api.Amounts.{is_digits, checked_units, parse_parts, parse_token_amount}
use trc.Api.AmountTrip.{parse_token_amount-format_units}
use trc.Api.Orders.{
  OrderRequest, Env, Answer, accepted, bad_request, enabled_token, clashes, is_http_url, new_order,
  after_failure, place_with, place, with_amount, with_token, with_request, create_withdraw,
}

-- Units that are more than none, where there are any.
data IsPositive : Result ℕ → Type 0 where
  no_units : (e : Error) → IsPositive (err e)
  units_of : (n : ℕ) → 0 < n → IsPositive (ok n)

checked_positive : (o : Option (Bool × ℕ)) → IsPositive (checked_units o)
checked_positive none = no_units _
checked_positive (some (true, n)) = no_units _
checked_positive (some (false, n)) =
    if_intro IsPositive (n == 0) (λ _. no_units _) (λ e. units_of n (ground arith))

parts_positive : (whole frac : Text) (d : ℕ) → IsPositive (parse_parts whole frac d)
unfolding parse_parts
parts_positive whole frac d =
    if_intro IsPositive (not (is_digits whole) || (not (is_empty frac) && not (is_digits frac)))
      (λ _. no_units _)
      (λ _.
        if_intro IsPositive (ltb d (length frac)) (λ _. no_units _)
          (λ _.
            checked_positive (set_string (whole ++ (frac ++ replicate (d - length frac) b'0')))))

parse_positive : (amount : Text) (d : ℕ) → IsPositive (parse_token_amount amount d)
unfolding parse_token_amount
parse_positive amount d = parts_positive _ _ d

-- A token of the configuration that is enabled and has that symbol, where there is one.
data IsEnabled (ts : List TokenConfig) (symbol : Text) : Option TokenConfig → Type 0 where
  no_token : IsEnabled ts symbol none
  enabled :
      (t : TokenConfig)
      → Any (λ (u : TokenConfig). u ≡ t) ts
      → t.enabled ≡ true
      → equal_fold t.symbol symbol ≡ true
      → IsEnabled ts symbol (some t)

IsEnabled-more :
    (u : TokenConfig) (ts : List TokenConfig) (symbol : Text) (o : Option TokenConfig)
    → IsEnabled ts symbol o
    → IsEnabled (u ∷ ts) symbol o
IsEnabled-more u ts symbol _ no_token = no_token
IsEnabled-more u ts symbol _ (enabled t i on same) = enabled t (inr i) on same

enabled_token_sound :
    (ts : List TokenConfig) (symbol : Text) → IsEnabled ts symbol (enabled_token ts symbol)
unfolding enabled_token
enabled_token_sound [] symbol = no_token
enabled_token_sound (u ∷ ts) symbol =
    let rest = IsEnabled-more u ts symbol _ (enabled_token_sound ts symbol) in
    if_intro (IsEnabled (u ∷ ts) symbol) (u.enabled && equal_fold u.symbol symbol)
      (λ e.
        let (on, same) = &&-eq-true u.enabled (equal_fold u.symbol symbol) e in
        enabled u (inl refl) on same)
      (λ _. rest)

abbrev is_accepted : Answer → Bool
is_accepted (accepted m o n time) = true
is_accepted _ = false

-- An order of a request, as createWithdraw writes it beside the orders `before`.
pub record Placed (env : Env) (before : List WithdrawRecord) (row : WithdrawRecord) : Type 0 where
  pub is_new : row.status ≡ WithdrawState.created
  pub absent_no : AbsentNo row.order_no before
  pub receivable : Address.is_valid_address env.crypto row.to_address ≡ true
  pub reportable : is_http_url env row.notify_url ≡ true
  pub token :
      (t : TokenConfig) × Any (λ (u : TokenConfig). u ≡ t) env.tokens
      × (t.enabled ≡ true)
      × (t.symbol ≡ row.symbol)
      × (t.contract ≡ row.contract)
      × (t.decimals ≡ row.decimals)
  pub amount :
      (units : ℕ) × (0 < units)
      × (row.amount_units ≡ print_dec units)
      × (parse_token_amount row.amount row.decimals ≡ ok units)
  pub payer : row.from_address ≡ env.hot_wallet

pub data Ends (env : Env) (w : World) : Answer × World → Type 0 where
  refused : (a : Answer) → is_accepted a ≡ false → Ends env w (a, w)
  placed :
      (row : WithdrawRecord)
      → Placed env w.db.withdraws row
      → Ends env w
          (accepted row.merchant_id row.order_no row.trade_no row.created_at, insert_order row w)

no_clash :
    (row : WithdrawRecord) (rs : List WithdrawRecord)
    → any (clashes row) rs ≡ false
    → AbsentNo row.order_no rs
no_clash row [] h = tt
no_clash row (r ∷ rs) h =
    let (miss, misses) = neither (clashes row r) (any (clashes row) rs) h in
    (
      λ same.
          taken (text_eq r.order_no row.order_no) (text_eq r.trade_no row.trade_no)
            (rw same (text_eq_self row.order_no)) miss,
      no_clash row rs misses,
    )
  where
    neither : (a b : Bool) → (a || b) ≡ false → (a ≡ false) × (b ≡ false)
    neither false b h = (refl, h)
    neither true b h = absurd (cc)

    taken : (a b : Bool) → a ≡ true → (a || b) ≡ false → ⊥
    taken true b e h = cc
    taken false b e h = cc

module _ (env : Env) where
  refused_insert :
      (q : Option Text) (e : Text) (row : WithdrawRecord) (w : World)
      → is_accepted (after_failure env q e row w) ≡ false
  refused_insert (some _) e row w = refl
  refused_insert none e row w =
      if_intro (λ a. is_accepted a ≡ false)
        (any (λ (r : WithdrawRecord). text_eq r.order_no row.order_no) w.db.withdraws) (λ _. refl)
        (λ _. refl)

  Ends-place_with :
      (i : Option Text) (row : WithdrawRecord) (w : World)
      → (AbsentNo row.order_no w.db.withdraws → Placed env w.db.withdraws row)
      → Ends env w (place_with env i row w)
  Ends-place_with (some e) row w good = refused _ (refused_insert env.query_fails e row w)
  Ends-place_with none row w good =
      if_intro (Ends env w) (any (clashes row) w.db.withdraws)
        (λ _. refused _ (refused_insert env.query_fails _ row w))
        (λ free. placed row (good (no_clash row w.db.withdraws free)))

  Ends-place :
      (row : WithdrawRecord) (w : World)
      → (AbsentNo row.order_no w.db.withdraws → Placed env w.db.withdraws row)
      → Ends env w (place env row w)
  unfolding place
  Ends-place row w good = Ends-place_with env.insert_fails row w good

  module _ (req : OrderRequest)
      (receivable : Address.is_valid_address env.crypto req.to_address ≡ true)
      (reportable : is_http_url env req.notify_url ≡ true) where
    Ends-with_amount :
        (t : TokenConfig) (units : Result ℕ) (w : World)
        → Any (λ (u : TokenConfig). u ≡ t) env.tokens
        → t.enabled ≡ true
        → IsPositive units
        → Ends env w (with_amount env req t units w)
    unfolding with_amount new_order
    Ends-with_amount t _ w listed on (no_units e) = refused _ refl
    Ends-with_amount t _ w listed on (units_of units h) = Ends-place _ w (λ absent. record {
      is_new = refl;
      absent_no = absent;
      receivable = receivable;
      reportable = reportable;
      token = (t, listed, on, refl, refl, refl);
      amount = (units, h, refl, parse_token_amount-format_units units t.decimals h);
      payer = refl;
    })

    Ends-with_token :
        (t : Option TokenConfig) (w : World)
        → IsEnabled env.tokens req.symbol t
        → Ends env w (with_token env req t w)
    unfolding with_token
    Ends-with_token _ w no_token = refused _ refl
    Ends-with_token _ w (enabled t listed on same) =
        Ends-with_amount t _ w listed on (parse_positive req.amount t.decimals)

  Ends-with_request : (req : Result OrderRequest) (w : World) → Ends env w (with_request env req w)
  unfolding with_request
  Ends-with_request (err e) w = refused _ refl
  Ends-with_request (ok req) w =
      if_intro (Ends env w) (not (Address.is_valid_address env.crypto req.to_address))
        (λ _. refused _ refl)
        (λ valid.
          if_intro (Ends env w) (not (is_http_url env req.notify_url)) (λ _. refused _ refl)
            (λ url.
              if_intro (Ends env w) (not (equal_fold req.chain (codes "TRON")))
                (λ _. refused (bad_request _) refl)
                (λ _.
                  Ends-with_token req (flipped valid) (flipped url) _ w
                    (enabled_token_sound env.tokens req.symbol))))
    where
      flipped : {b : Bool} → not b ≡ false → b ≡ true
      flipped {b = true} e = refl
      flipped {b = false} e = sym e

-- A request for a withdrawal is refused and changes no table, or it is answered as accepted and adds
-- one order, which is created, has an order number that no order had, pays from the hot wallet to a
-- valid address in a token that is in the configuration, enabled and of the order's symbol, contract and
-- decimals, and has an amount above 0 that reads the same in units and in the token's decimals.
pub create_withdraw-Ends : (env : Env) (w : World) → Ends env w (create_withdraw env w)
unfolding create_withdraw
create_withdraw-Ends env w = Ends-with_request env env.request w
