-- ===== src/Chain/Tests.antt =====
-- A node that refuses, behind one that does not answer; and one that asks to slow down.
use trc.Base.{[], ◌∷◌, ◌*◌, false, codes, List, All, ◌≤◌, ◌<◌, ◌+◌, ◌≡◌, refl, none, some, ℕ, arith}
use trc.Tron.Tx.{Transaction}
use trc.Chain.Gateway.{Node, no_answer, answer, broadcast}
use trc.Chain.Cooldown.{
  second, Refusal, refused, max_retry_after, suspended_seconds, parse_retry_after, held,
}
use trc.Chain.Parked.{served, refused-bounds}
use trc.Chain.Verdicts.{Names, broadcast-Names}

abbrev nodes : List Node
nodes =
    record { name = codes "a"; rate_limited = false; post = λ payload. no_answer (codes "timeout") }
    ∷ record {
      name = codes "b";
      rate_limited = false;
      post = λ payload.
          answer (record { result = false; code = codes "SIGERROR"; message = codes "bad" });
    }
    ∷ []

abbrev offered : Transaction
offered = record {
  tx_id = codes "tx1";
  has_raw_data = false;
  raw_data_hex = codes "0a02";
  signature = codes "00" ∷ [];
}

broadcast-Names_example : Names (codes "tx1") (broadcast nodes offered)
broadcast-Names_example = broadcast-Names nodes offered

abbrev suspended : Refusal
suspended = record {
  at = 40 * second;
  header = [];
  http_date = none;
  body = codes "(15), and the query server is suspended for 29 s";
}

-- More seconds than a duration of 64 bits has room for.
abbrev too_long : Refusal
too_long = record { at = 50 * second; header = codes "9223372037"; http_date = none; body = [] }

hint_read : suspended_seconds suspended.body ≡ some 29
unfolding suspended_seconds trc.Base.set_string trc.Base.trim_space
hint_read = refl

too_long-held : held (parse_retry_after too_long) ≡ 5 * second
unfolding held parse_retry_after trc.Base.set_string trc.Base.trim_space
too_long-held = refl

abbrev refusals : List Refusal
refusals = suspended ∷ too_long ∷ []

refused-bounds_example :
    All (λ (r : Refusal). (r.at < served r) × (served r ≤ refused refusals 0)) refusals
    × (0 ≤ refused refusals 0)
    × (refused refusals 0 ≤ 60 * second + max_retry_after)
refused-bounds_example =
    refused-bounds (60 * second) refusals 0 (omega arith, (omega arith, tt)) (omega arith)
