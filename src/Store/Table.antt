-- ===== src/Store/Table.antt =====
-- What the statements of the services do to a table: `Where(...).UpdateColumns(...)` and its
-- RowsAffected, and sums over a selection.
use trc.Base.{
  Option, none, some, subst, ℕ, ◌+◌, ◌<◌, ◌≤◌, leb, ◌++◌, All-mono, ◌≡◌, refl, inl, inr, Bool, true,
  false, List, [], ◌∷◌, arith, map, if◌then◌else◌, All, Any, Bool-cases,
}

module _ {ℓ} {R : Type ℓ} where
  -- `Where(p).UpdateColumns(f)`
  unfoldable pub update_where : (R → Bool) → (R → R) → List R → List R
  update_where p f [] = []
  update_where p f (r ∷ rs) = (if p r then f r else r) ∷ update_where p f rs

  -- `RowsAffected`, and `Count`
  unfoldable pub count_where : (R → Bool) → List R → ℕ
  count_where p [] = 0
  count_where p (r ∷ rs) = (if p r then 1 else 0) + count_where p rs

  -- `Where(p).Take(&row)`, by a unique column: the first row is the only one.
  unfoldable pub take_where : (R → Bool) → List R → Option R
  take_where p [] = none
  take_where p (r ∷ rs) = let rest = take_where p rs in if p r then some r else rest

module _ {ℓ} {R : Type ℓ} (key : R → ℕ) where
  -- The highest key of a table, 0 of an empty one. AUTO_INCREMENT draws a key above it.
  unfoldable pub last_id : List R → ℕ
  last_id [] = 0
  last_id (r ∷ rs) = let rest = last_id rs in if leb (key r) rest then rest else key r

  pub below_last_id : (rs : List R) → All (λ (r : R). key r ≤ last_id rs) rs
  unfolding last_id
  below_last_id [] = tt
  below_last_id (r ∷ rs) = (
    here (key r) (last_id rs),
    All-mono rs (λ s le. there (key r) (last_id rs) (key s) le) (below_last_id rs),
  )
    where
      here : (k rest : ℕ) → k ≤ (if leb k rest then rest else k)
      here k rest = ground arith

      there : (k rest n : ℕ) → n ≤ rest → n ≤ (if leb k rest then rest else k)
      there k rest n le = ground arith

  pub last_id-snoc : (rs : List R) (r : R) → last_id rs ≤ last_id (rs ++ r ∷ [])
  unfolding last_id
  last_id-snoc [] r = omega arith
  last_id-snoc (s ∷ rs) r = larger (key s) (last_id rs) (last_id (rs ++ r ∷ [])) (last_id-snoc rs r)
    where
      larger : (k a c : ℕ) → a ≤ c → (if leb k a then a else k) ≤ (if leb k c then c else k)
      larger k a c le = ground arith

  pub last_id-update_where :
      (p : R → Bool) (f : R → R) (rs : List R)
      → ((r : R) → key (f r) ≡ key r)
      → last_id (update_where p f rs) ≡ last_id rs
  unfolding last_id update_where
  last_id-update_where p f [] same = refl
  last_id-update_where p f (r ∷ rs) same = elim (Bool-cases (p r)) [
    | inl e ↦ rw (e, same r, last_id-update_where p f rs same) refl
    | inr e ↦ rw (e, last_id-update_where p f rs same) refl
  ]

some_injective : {A : Type 0} {a b : A} → some a ≡ some b → a ≡ b
some_injective e = cc

-- A row that was taken is in the table and satisfies the condition.
pub take_where-In :
    {R : Type 0} (p : R → Bool) (rs : List R) (r : R)
    → take_where p rs ≡ some r
    → Any (λ x. x ≡ r) rs × (p r ≡ true)
unfolding take_where
take_where-In p [] r h = cc
take_where-In p (x ∷ rs) r h = elim (Bool-cases (p x)) [
  | inl hit ↦
      let e =
        some_injective (subst (λ b. (if b then some x else take_where p rs) ≡ some r) hit h) in
      (inl e, subst (λ y. p y ≡ true) e hit)
  | inr miss ↦
      let t =
        take_where-In p rs r
          (subst (λ b. (if b then some x else take_where p rs) ≡ some r) miss h) in
      (inr t.0, t.1)
]

module _ {ℓ} {R : Type ℓ} (p : R → Bool) (f : R → R) where
  -- A column that the update leaves alone keeps its values, row by row.
  pub map-update_where {κ} :
      {C : Type κ} (c : R → C) (rs : List R)
      → ((r : R) → c (f r) ≡ c r)
      → map c (update_where p f rs) ≡ map c rs
  unfolding update_where
  map-update_where c [] keeps = refl
  map-update_where c (r ∷ rs) keeps = elim (Bool-cases (p r)) [
    | inl e ↦ rw (e, keeps r, map-update_where c rs keeps)
    | inr e ↦ rw (e, map-update_where c rs keeps)
  ]

  -- What holds of every row afterwards: it holds of a changed row, and of a row left alone.
  pub All-update_where {κ ν} :
      {P : R → Type κ} {Q : R → Type ν} (rs : List R)
      → ((r : R) → P r → p r ≡ true → Q (f r))
      → ((r : R) → P r → p r ≡ false → Q r)
      → All P rs
      → All Q (update_where p f rs)
  unfolding update_where
  All-update_where [] hit miss h = tt
  All-update_where (r ∷ rs) hit miss h = elim (Bool-cases (p r)) [
    | inl e ↦ rw e (hit r h.0 e, All-update_where rs hit miss h.1)
    | inr e ↦ rw e (miss r h.0 e, All-update_where rs hit miss h.1)
  ]

  -- An update that affects a row leaves one with the new values.
  pub Any-update_where :
      (Q : R → Type 0) (rs : List R)
      → ((r : R) → p r ≡ true → Q (f r))
      → 0 < count_where p rs
      → Any Q (update_where p f rs)
  unfolding update_where count_where
  Any-update_where Q [] hit h = elim h [ ]
  Any-update_where Q (r ∷ rs) hit h = elim (Bool-cases (p r)) [
    | inl e ↦ rw e (inl (hit r e))
    | inr e ↦ rw e (inr (Any-update_where Q rs hit (ground arith)))
  ]

module _ {ℓ} {R : Type ℓ} (p : R → Bool) (f : R → R) where
  -- What holds of some row, and that the update keeps, holds of some row afterwards.
  pub Any-kept :
      {Q : R → Type 0} (rs : List R)
      → ((r : R) → Q r → Q (f r))
      → Any Q rs
      → Any Q (update_where p f rs)
  unfolding update_where
  Any-kept [] keep h = h
  Any-kept (r ∷ rs) keep (inl q) = elim (Bool-cases (p r)) [
    | inl e ↦ rw e (inl (keep r q))
    | inr e ↦ rw e (inl q)
  ]
  Any-kept (r ∷ rs) keep (inr m) = inr (Any-kept rs keep m)

  -- An update that affects no row changes nothing.
  pub update_where_none : (rs : List R) → count_where p rs ≡ 0 → update_where p f rs ≡ rs
  unfolding update_where count_where
  update_where_none [] h = refl
  update_where_none (r ∷ rs) h = elim (Bool-cases (p r)) [
    | inl e ↦ absurd (ground arith)
    | inr e ↦ rw (e, update_where_none rs (ground arith))
  ]

  -- What holds of some row, and of what the update makes of it, holds of some row afterwards.
  pub Any-updated :
      {Q : R → Type 0} (rs : List R)
      → ((r : R) → Q r → p r ≡ true → Q (f r))
      → Any Q rs
      → Any Q (update_where p f rs)
  unfolding update_where
  Any-updated [] keep h = h
  Any-updated (r ∷ rs) keep (inl q) = elim (Bool-cases (p r)) [
    | inl e ↦ rw e (inl (keep r q e))
    | inr e ↦ rw e (inl q)
  ]
  Any-updated (r ∷ rs) keep (inr m) = inr (Any-updated rs keep m)

  -- As Any-update_where, with what is known of every row.
  pub Any-hit :
      {K : R → Type 0} (Q : R → Type 0) (rs : List R)
      → All K rs
      → ((r : R) → K r → p r ≡ true → Q (f r))
      → 0 < count_where p rs
      → Any Q (update_where p f rs)
  unfolding update_where count_where
  Any-hit Q [] known hit h = elim h [ ]
  Any-hit Q (r ∷ rs) known hit h = elim (Bool-cases (p r)) [
    | inl e ↦ rw e (inl (hit r known.0 e))
    | inr e ↦ rw e (inr (Any-hit Q rs known.1 hit (ground arith)))
  ]
