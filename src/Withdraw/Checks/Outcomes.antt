-- ===== src/Withdraw/Checks/Outcomes.antt =====
-- Properties of what a call returns, through the ways to go on from a call.
use trc.Base.{ℕ, ◌≡◌, ◌≤◌, false, Option, none, some, ltb, arith}
use trc.Store.{OnOk, World, Action, Result, ok, err, Error, pure, raise, continue, ◌>>=◌, ◌>>◌}
use trc.Withdraw.Env.{SignResponse}

-- A property that holds if a signature comes back.
abbrev pub IfSigned : Type 0 → Result (Option SignResponse) → Type 0
IfSigned P (ok (some signed)) = P
IfSigned P (ok none) = Unit
IfSigned P (err e) = Unit

pub signed_anyway : {P : Type 0} (r : Result (Option SignResponse)) → P → IfSigned P r
signed_anyway (ok (some signed)) p = p
signed_anyway (ok none) p = tt
signed_anyway (err e) p = tt

-- What follows a call that returns only if Q.
pub behind :
    {A P Q : Type 0} (r : Result A) (f : A → Action (Option SignResponse)) (w : World)
    → OnOk (λ (a : A). Q) r
    → (Q → P)
    → IfSigned P (continue r f w).0
behind (ok a) f w q p = signed_anyway (f a w).0 (p q)
behind (err e) f w q p = tt

pub then_raise :
    (P : Type 0) (r : Result (Unit {0})) (e : Error) (w : World)
    → OnOk (λ (a : Unit {0}). P) (continue r (λ _. raise e) w).0
unfolding raise
then_raise P (ok u) e w = tt
then_raise P (err x) e w = tt

pub then_none :
    (P : Type 0) (r : Result (Unit {0})) (w : World) → IfSigned P (continue r (λ _. pure none) w).0
unfolding pure
then_none P (ok u) w = tt
then_none P (err x) w = tt

pub below : (max n : ℕ) → ltb max n ≡ false → n ≤ max
below max n h = ground arith

pub raises :
    (P : Type 0) (m : Action (Unit {0})) (e : Error) (w : World)
    → OnOk (λ (a : Unit {0}). P) ((m >> raise e) w).0
unfolding ◌>>=◌
raises P m e w = then_raise P (m w).0 e (m w).1
