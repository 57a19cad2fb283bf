-- ===== src/Chain/Parked.antt =====
-- How long a node is parked by the refusals that it answered with.
use trc.Base.{ℕ, ◌+◌, ◌≤◌, ◌<◌, [], ◌∷◌, List, All, arith, ℤ, pos, negsuc}
use trc.Chain.Cooldown.{max_retry_after, held, set_cooldown, parse_retry_after, Refusal, refused}

held_capped : (d : ℤ) → held d ≤ max_retry_after
unfolding held
held_capped (negsuc d) = omega arith
held_capped (pos d) = ground arith

held_positive : (d : ℤ) → 0 < held d
unfolding held
held_positive (negsuc d) = omega arith
held_positive (pos d) = ground arith

-- The time until which a refusal parks the node.
abbrev pub served : Refusal → ℕ
served r = r.at + held (parse_retry_after r)

longer : (now : ℕ) (d : ℤ) (until : ℕ) → until ≤ set_cooldown now d until
unfolding set_cooldown
longer now d until = ground arith

reached : (now : ℕ) (d : ℤ) (until : ℕ) → now + held d ≤ set_cooldown now d until
unfolding set_cooldown
reached now d until = ground arith

capped :
    (t now : ℕ) (d : ℤ) (until : ℕ)
    → now ≤ t
    → until ≤ t + max_retry_after
    → set_cooldown now d until ≤ t + max_retry_after
unfolding set_cooldown
capped t now d until past h = let c = held_capped d in ground arith

refused_longer : (rs : List Refusal) (until : ℕ) → until ≤ refused rs until
unfolding refused
refused_longer [] until = omega arith
refused_longer (r ∷ rs) until =
    let step = longer r.at (parse_retry_after r) until in
    let rest = refused_longer rs (set_cooldown r.at (parse_retry_after r) until) in omega arith

-- After any list of refusals until a time, whatever their headers and bodies, the node is parked for
-- what each of them holds it, which is some time, no shorter than it was parked before, and for no more than two minutes
-- from then, where it was parked for no more before.
pub refused-bounds :
    (t : ℕ) (rs : List Refusal) (until : ℕ)
    → All (λ (r : Refusal). r.at ≤ t) rs
    → until ≤ t + max_retry_after
    → All (λ (r : Refusal). (r.at < served r) × (served r ≤ refused rs until)) rs
      × (until ≤ refused rs until)
      × (refused rs until ≤ t + max_retry_after)
unfolding refused
refused-bounds t [] until past h = (tt, omega arith, h)
refused-bounds t (r ∷ rs) until past h =
    let next = set_cooldown r.at (parse_retry_after r) until in
    let rest =
      refused-bounds t rs next past.1 (capped t r.at (parse_retry_after r) until past.0 h) in
    let here = reached r.at (parse_retry_after r) until in
    let on = refused_longer rs next in
    let some_time = held_positive (parse_retry_after r) in
    (((omega arith, omega arith), rest.0), refused_longer (r ∷ rs) until, rest.2)
