-- ===== src/Scanner/Credits/Decoded.antt =====
-- What a log that is read as a deposit is.
use trc.Base.{
  ℕ, ◌≡◌, ◌<◌, ◌≤◌, refl, inl, inr, Bool, true, ◌&&◌, ◌||◌, not, List, [], ◌∷◌, Option, none, some,
  Text, Any, subst, text_eq, text_eq_sound, equal_fold, &&-eq-true, ltb, arith, Bool-cases,
  if_intro, sym, false, if◌then◌else◌,
}
use trc.Model.{TokenConfig}
use trc.Chain.TxInfo.{TxLog}
use trc.Tron.Address.{hex_to_address}
use trc.Tron.Tx.{transfer_event_topic, parse_uint256}
use trc.Scanner.Env.{Env, allowed_token, min_unit}
use trc.Scanner.Decode.{Transfer, assemble, token_at, decode_topics, decode_transfer}

-- A token of the configuration that is enabled and has that contract.
pub record IsAllowed (tokens : List TokenConfig) (contract : Text) (t : TokenConfig) : Type 0 where
  pub listed : Any (λ (u : TokenConfig). u ≡ t) tokens
  pub enabled : t.enabled ≡ true
  pub of_contract : t.contract ≡ contract

-- The log is a Transfer event of an allowed contract, from and to the addresses of its topics, and its
-- amount is positive and not below the dust threshold.
pub record IsTransfer (env : Env) (lg : TxLog) (t : Transfer) : Type 0 where
  pub topic : Text
  pub from_topic : Text
  pub to_topic : Text
  pub three_topics : lg.topics ≡ topic ∷ from_topic ∷ to_topic ∷ []
  pub is_event : equal_fold topic (transfer_event_topic env.crypto) ≡ true
  pub of_contract : hex_to_address env.crypto lg.address ≡ some t.contract
  pub is_allowed : IsAllowed env.config.tokens t.contract t.token
  pub sender : hex_to_address env.crypto from_topic ≡ some t.from_addr
  pub receiver : hex_to_address env.crypto to_topic ≡ some t.to_addr
  pub of_amount : parse_uint256 lg.log_data ≡ some t.amount
  pub positive : 0 < t.amount
  pub not_dust : min_unit env.config ≤ t.amount

data Allows (tokens : List TokenConfig) (contract : Text) : Option TokenConfig → Type 0 where
  none_allowed : Allows tokens contract none
  allowed : (t : TokenConfig) → IsAllowed tokens contract t → Allows tokens contract (some t)

allowed_here :
    (u : TokenConfig) (us : List TokenConfig) (contract : Text) (b : Bool)
    → (u.enabled && text_eq u.contract contract) ≡ b
    → Allows (u ∷ us) contract (if b then some u else none)
allowed_here u us contract true e =
    let (on, same) = &&-eq-true u.enabled (text_eq u.contract contract) e in
    allowed u (record {
      listed = inl refl;
      enabled = on;
      of_contract = text_eq_sound u.contract contract same;
    })
allowed_here u us contract false e = none_allowed

allowed_more :
    (u : TokenConfig) (us : List TokenConfig) (contract : Text) (o : Option TokenConfig)
    → Allows us contract o
    → Allows (u ∷ us) contract (elim o [
      | some t ↦ some t
      | none ↦ if u.enabled && text_eq u.contract contract then some u else none
    ])
allowed_more u us contract _ none_allowed = allowed_here u us contract _ refl
allowed_more u us contract _ (allowed t a) =
    allowed t (record { listed = inr a.listed; enabled = a.enabled; of_contract = a.of_contract })

allowed_token-Allows :
    (tokens : List TokenConfig) (contract : Text)
    → Allows tokens contract (allowed_token tokens contract)
unfolding allowed_token
allowed_token-Allows [] contract = none_allowed
allowed_token-Allows (u ∷ us) contract =
    allowed_more u us contract _ (allowed_token-Allows us contract)

module _ (env : Env) (lg : TxLog) where
  data Decodes : Option Transfer → Type 0 where
    no_transfer : Decodes none
    transfer_of : (t : Transfer) → IsTransfer env lg t → Decodes (some t)

  module _ (topic from_topic to_topic : Text)
      (three : lg.topics ≡ topic ∷ from_topic ∷ to_topic ∷ [])
      (event : equal_fold topic (transfer_event_topic env.crypto) ≡ true) where
    assembled :
        (contract from_addr to_addr : Text) (token : TokenConfig) (amount : ℕ) (b : Bool)
        → (not (ltb 0 amount) || (ltb 0 (min_unit env.config) && ltb amount (min_unit env.config)))
          ≡ b
        → hex_to_address env.crypto lg.address ≡ some contract
        → IsAllowed env.config.tokens contract token
        → hex_to_address env.crypto from_topic ≡ some from_addr
        → hex_to_address env.crypto to_topic ≡ some to_addr
        → parse_uint256 lg.log_data ≡ some amount
        → Decodes (
            if b
            then none
            else some (record {
              contract = contract;
              token = token;
              from_addr = from_addr;
              to_addr = to_addr;
              amount = amount;
            }))
    assembled contract from_addr to_addr token amount true bad c a f t n = no_transfer
    assembled contract from_addr to_addr token amount false fine c a f t n = transfer_of _ (record {
      topic = topic;
      from_topic = from_topic;
      to_topic = to_topic;
      three_topics = three;
      is_event = event;
      of_contract = c;
      is_allowed = a;
      sender = f;
      receiver = t;
      of_amount = n;
      positive = above fine;
      not_dust = large fine;
    })
      where
        above :
            (not (ltb 0 amount)
                || (ltb 0 (min_unit env.config) && ltb amount (min_unit env.config)))
              ≡ false
            → 0 < amount
        above e = ground arith

        large :
            (not (ltb 0 amount)
                || (ltb 0 (min_unit env.config) && ltb amount (min_unit env.config)))
              ≡ false
            → min_unit env.config ≤ amount
        large e = ground arith

    assemble-Decodes :
        (contract : Option Text) (token : Option TokenConfig) (from_addr to_addr : Option Text)
        (amount : Option ℕ)
        → hex_to_address env.crypto lg.address ≡ contract
        → ((c : Text) → contract ≡ some c → Allows env.config.tokens c token)
        → hex_to_address env.crypto from_topic ≡ from_addr
        → hex_to_address env.crypto to_topic ≡ to_addr
        → parse_uint256 lg.log_data ≡ amount
        → Decodes (assemble env contract token from_addr to_addr amount)
    unfolding assemble
    assemble-Decodes none token f t n c a hf ht hn = no_transfer
    assemble-Decodes (some contract) none f t n c a hf ht hn = no_transfer
    assemble-Decodes (some contract) (some token) none t n c a hf ht hn = no_transfer
    assemble-Decodes (some contract) (some token) (some f) none n c a hf ht hn = no_transfer
    assemble-Decodes (some contract) (some token) (some f) (some t) none c a hf ht hn = no_transfer
    assemble-Decodes (some contract) (some token) (some f) (some t) (some n) c a hf ht hn =
        assembled contract f t token n _ refl c (allowed_one token (a contract refl)) hf ht hn
      where
        allowed_one :
            (u : TokenConfig)
            → Allows env.config.tokens contract (some u)
            → IsAllowed env.config.tokens contract u
        allowed_one u (allowed _ is) = is

    topics_read : Decodes (decode_topics env lg (topic ∷ from_topic ∷ to_topic ∷ []))
    topics_read =
        if_intro Decodes (not (equal_fold topic (transfer_event_topic env.crypto)))
          (λ _. no_transfer)
          (λ _.
            assemble-Decodes (hex_to_address env.crypto lg.address)
              (token_at env (hex_to_address env.crypto lg.address))
              (hex_to_address env.crypto from_topic) (hex_to_address env.crypto to_topic)
              (parse_uint256 lg.log_data) refl
              (λ contract is.
                subst (λ o. Allows env.config.tokens contract (token_at env o)) (sym is)
                  (allowed_token-Allows env.config.tokens contract))
              refl refl refl)

  topics-Decodes : (ts : List Text) → lg.topics ≡ ts → Decodes (decode_topics env lg ts)
  topics-Decodes [] three = no_transfer
  topics-Decodes (a ∷ []) three = no_transfer
  topics-Decodes (a ∷ b ∷ []) three = no_transfer
  topics-Decodes (a ∷ b ∷ c ∷ d ∷ ts) three = no_transfer
  topics-Decodes (topic ∷ from_topic ∷ to_topic ∷ []) three =
      elim (Bool-cases (equal_fold topic (transfer_event_topic env.crypto))) [
        | inl event ↦ topics_read topic from_topic to_topic three event
        | inr other ↦ rw other no_transfer
      ]

  transfer_one : (t : Transfer) → Decodes (some t) → IsTransfer env lg t
  transfer_one t (transfer_of _ is) = is

  pub decode_transfer-IsTransfer :
      (t : Transfer) → decode_transfer env lg ≡ some t → IsTransfer env lg t
  unfolding decode_transfer
  decode_transfer-IsTransfer t h = transfer_one t (subst Decodes h (topics-Decodes lg.topics refl))
