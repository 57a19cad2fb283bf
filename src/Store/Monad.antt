-- ===== src/Store/Monad.antt =====
-- A call of a service: it reads and changes the world, and returns a value or an error. What was
-- written before an error stays written, unless a database transaction is around it.
use trc.Base.{Option, none, some, Text, ◌≡◌, refl, ◌⊎◌, inl, inr}
use trc.Store.Schema.{Db, World}

-- `halted` and `halted_failed` wrap ErrHalted and ErrHaltedFailed of internal/withdraw/worker.go.
pub data Error : Type 0 where
  halted halted_failed fault : Text → Error

pub data Result {ℓ} (A : Type ℓ) : Type ℓ where
  ok : A → Result A
  err : Error → Result A

abbrev pub Action : Type 0 → Type 0
Action A = World → Result A × World

module _ {A : Type 0} where
  unfoldable pub pure : A → Action A
  pure a w = (ok a, w)

  unfoldable pub raise : Error → Action A
  raise e w = (err e, w)

  -- A call whose answer does not change the world.
  unfoldable pub ask : Result A → Action A
  ask r w = (r, w)

  unfoldable pub gets : (World → A) → Action A
  gets f w = (ok (f w), w)

abbrev pub continue : {A B : Type 0} → Result A → (A → Action B) → Action B
continue (ok a) f w = f a w
continue (err e) f w = (err e, w)

infixl 5 ◌>>=◌ ◌>>◌
-- To unfold this is to unfold the actions above.
unfoldable pub ◌>>=◌ : {A B : Type 0} → Action A → (A → Action B) → Action B
unfolding pure raise ask gets
◌>>=◌ m f w = let (r, w') = m w in continue r f w'

abbrev pub ◌>>◌ : {A B : Type 0} → Action A → Action B → Action B
m >> k = m >>= λ _. k

unfoldable pub modify_db : (Db → Db) → Action (Unit {0})
modify_db f w = (ok tt, record w { db = f w.db })

-- What a deferred roll back does with the outcome of the body.
abbrev pub settle : {A : Type 0} → World → Result A × World → Result A × World
settle w (ok a, w') = (ok a, w')
settle w (err e, w') = (err e, w)

-- gorm's `Transaction`: an error of the body, or of the commit, leaves the world as it was.
unfoldable pub transaction : {A : Type 0} → Option Error → Action A → Action A
transaction none body w = settle w (body w)
transaction (some e) body w = (err e, w)

-- A statement that the environment lets fail ends in its error.
unfoldable pub statement : {A : Type 0} → Option Text → Action A → Action A
statement none body w = body w
statement (some e) body w = (err (fault e), w)

abbrev pub as_fault : Option Text → Option Error
as_fault none = none
as_fault (some e) = some (fault e)

pub Result-cases {ℓ} :
    {A : Type ℓ} (r : Result A) → ((a : A) × (r ≡ ok a)) ⊎ ((e : Error) × (r ≡ err e))
Result-cases (ok a) = inl (a, refl)
Result-cases (err e) = inr (e, refl)

-- A property of the values that a call returns.
abbrev pub OnOk : {A : Type 0} → (A → Type 0) → Result A → Type 0
OnOk P (ok a) = P a
OnOk P (err e) = Unit
