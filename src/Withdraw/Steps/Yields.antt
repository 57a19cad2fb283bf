-- ===== src/Withdraw/Steps/Yields.antt =====
-- What is known of a value that a call returns.
use trc.Base.{◌≡◌, refl, Bool, true, false, if◌then◌else◌}
use mathlib.Core.Path.{subst}
use trc.Store.{World, Action, Result, ok, err, Error, pure, raise, ask, continue, ◌>>=◌}

pub record Yields {A : Type 0} (Q : A → Type 0) (m : Action A) : Type 0 where
  pub at : (w : World) (a : A) → (m w).0 ≡ ok a → Q a

ok-injective : {A : Type 0} {a b : A} → ◌≡◌ {A = Result A} (ok a) (ok b) → a ≡ b
ok-injective e = cc

module _ {A : Type 0} {Q : A → Type 0} where
  pub Yields-pure : (a : A) → Q a → Yields Q (pure a)
  unfolding pure
  Yields-pure a q = record { at = λ w b e. subst Q (ok-injective e) q }

  pub Yields-raise : (e : Error) → Yields Q (raise e)
  unfolding raise
  Yields-raise e = record { at = λ w a h. cc }

  pub Yields-if :
      (b : Bool) (m n : Action A) → Yields Q m → Yields Q n → Yields Q (if b then m else n)
  Yields-if true m n h k = h
  Yields-if false m n h k = k

module _ {A B : Type 0} {Q : B → Type 0} where
  Yields-continue :
      (r : Result A) (f : A → Action B) (w : World) (b : B)
      → ((a : A) → r ≡ ok a → Yields Q (f a))
      → (continue r f w).0 ≡ ok b
      → Q b
  Yields-continue (ok a) f w b h e = (h a refl).at w b e
  Yields-continue (err x) f w b h e = cc

  pub Yields-bind :
      (m : Action A) (f : A → Action B) → ((a : A) → Yields Q (f a)) → Yields Q (m >>= f)
  unfolding ◌>>=◌
  Yields-bind m f h = record { at = λ w b e. Yields-continue (m w).0 f (m w).1 b (λ a _. h a) e }

  -- The rest may use the answer.
  pub Yields-ask :
      (r : Result A) (f : A → Action B)
      → ((a : A) → r ≡ ok a → Yields Q (f a))
      → Yields Q (ask r >>= f)
  unfolding ◌>>=◌
  Yields-ask r f h = record { at = λ w b e. Yields-continue r f w b h e }
