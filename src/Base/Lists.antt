-- ===== src/Base/Lists.antt =====
-- Lists over the native numbers, and the predicates on all elements or on some element.
use Prim.Native.Nat.{ℕ, zero, suc, ◌+◌}
use mathlib.Core.Path.{◌≡◌, refl, ap}
use mathlib.Core.Logic.{◌⊎◌, inl, inr}
use mathlib.Core.Bool.{Bool, true, false, ◌||◌}
use mathlib.Core.List.{List, [], ◌∷◌, ◌++◌}
use native.Mathlib.Omega.{arith}
use trc.Base.Tests.{if◌then◌else◌}

module _ {ℓ} {A : Type ℓ} where
  abbrev pub length : List A → ℕ
  length [] = 0
  length (x ∷ xs) = suc (length xs)

  abbrev pub take : ℕ → List A → List A
  take zero xs = []
  take (suc n) [] = []
  take (suc n) (x ∷ xs) = x ∷ take n xs

  abbrev pub drop : ℕ → List A → List A
  drop zero xs = xs
  drop (suc n) [] = []
  drop (suc n) (x ∷ xs) = drop n xs

  abbrev pub replicate : ℕ → A → List A
  replicate zero a = []
  replicate (suc n) a = a ∷ replicate n a

  pub length-append : (xs ys : List A) → length (xs ++ ys) ≡ length xs + length ys
  length-append [] ys = omega arith
  length-append (x ∷ xs) ys = omega (arith, length-append xs ys)

  pub length-replicate : (n : ℕ) (a : A) → length (replicate n a) ≡ n
  length-replicate zero a = refl
  length-replicate (suc n) a = ap suc (length-replicate n a)

  -- The rows that satisfy a test, in order.
  abbrev pub select : (A → Bool) → List A → List A
  select p [] = []
  select p (x ∷ xs) = let rest = select p xs in if p x then x ∷ rest else rest

  abbrev pub any : (A → Bool) → List A → Bool
  any p [] = false
  any p (x ∷ xs) = p x || any p xs

  abbrev pub All {κ} : (A → Type κ) → List A → Type κ
  All P [] = Unit
  All P (x ∷ xs) = P x × All P xs

  abbrev pub Any : (A → Type 0) → List A → Type 0
  Any P [] = ⊥
  Any P (x ∷ xs) = P x ⊎ Any P xs

module _ {ℓ κ ν} {A : Type ℓ} {P : A → Type κ} {Q : A → Type ν} where
  pub All-mono : (xs : List A) → ((x : A) → P x → Q x) → All P xs → All Q xs
  All-mono [] f h = tt
  All-mono (x ∷ xs) f h = (f x h.0, All-mono xs f h.1)

module _ {ℓ κ} {A : Type ℓ} {P : A → Type κ} {Q : A → Type 0} where
  -- A property of all rows, and a row that has another: some row has both.
  pub Any-All : (xs : List A) → All P xs → Any Q xs → (x : A) × P x × Q x
  Any-All [] h a = absurd a
  Any-All (x ∷ xs) h (inl q) = (x, h.0, q)
  Any-All (x ∷ xs) h (inr a) = Any-All xs h.1 a

module _ {ℓ κ ν} {A : Type ℓ} (P : A → Type κ) (Q : A → Type ν) where
  pub All-zip : (xs : List A) → All P xs → All Q xs → All (λ x. P x × Q x) xs
  All-zip [] h k = tt
  All-zip (x ∷ xs) h k = ((h.0, k.0), All-zip xs h.1 k.1)

module _ {ℓ κ} {A : Type ℓ} {P : A → Type κ} where
  pub All-intro : (xs : List A) → ((x : A) → P x) → All P xs
  All-intro [] f = tt
  All-intro (x ∷ xs) f = (f x, All-intro xs f)

module _ {ℓ} {A : Type ℓ} {P Q : A → Type 0} where
  pub Any-mono : (xs : List A) → ((x : A) → P x → Q x) → Any P xs → Any Q xs
  Any-mono [] f h = absurd h
  Any-mono (x ∷ xs) f (inl p) = inl (f x p)
  Any-mono (x ∷ xs) f (inr h) = inr (Any-mono xs f h)

module _ {ℓ} {A : Type ℓ} (P : A → Type 0) (x : A) where
  pub All-snoc : (xs : List A) → P x → All P xs → All P (xs ++ x ∷ [])
  All-snoc [] p h = (p, tt)
  All-snoc (y ∷ ys) p h = (h.0, All-snoc ys p h.1)

  pub Any-snoc : (xs : List A) → Any P xs → Any P (xs ++ x ∷ [])
  Any-snoc [] h = absurd h
  Any-snoc (y ∷ ys) (inl p) = inl p
  Any-snoc (y ∷ ys) (inr h) = inr (Any-snoc ys h)

  pub Any-last : (xs : List A) → P x → Any P (xs ++ x ∷ [])
  Any-last [] p = inl p
  Any-last (y ∷ ys) p = inr (Any-last ys p)

module _ {ℓ κ} {A : Type ℓ} (P : A → Type κ) where
  pub All-append : (xs ys : List A) → All P xs → All P ys → All P (xs ++ ys)
  All-append [] ys h k = k
  All-append (x ∷ xs) ys h k = (h.0, All-append xs ys h.1 k)

  pub All-take : (n : ℕ) (xs : List A) → All P xs → All P (take n xs)
  All-take zero xs h = tt
  All-take (suc n) [] h = tt
  All-take (suc n) (x ∷ xs) h = (h.0, All-take n xs h.1)

module _ {A : Type 0} where
  All-kept :
      (P : A → Type 0) (b : Bool) (x : A) (ys : List A)
      → P x
      → All P ys
      → All P (if b then x ∷ ys else ys)
  All-kept P true x ys h k = (h, k)
  All-kept P false x ys h k = k

  -- The selected rows are rows of the table.
  pub select-In : (p : A → Bool) (xs : List A) → All (λ y. Any (λ x. x ≡ y) xs) (select p xs)
  select-In p [] = tt
  select-In p (x ∷ xs) =
      let rest = All-mono (select p xs) (λ y i. inr i) (select-In p xs) in
      All-kept (λ y. Any (λ z. z ≡ y) (x ∷ xs)) (p x) x (select p xs) (inl refl) rest
