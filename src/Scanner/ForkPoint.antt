-- ===== src/Scanner/ForkPoint.antt =====
-- The fork point that handleReorg finds (internal/scanner/scanner.go).
use trc.Base.{
  leb→le, ℕ, zero, suc, ◌≡◌, ◌<◌, ◌≤◌, refl, subst, inl, inr, Bool, true, false, List, Option, none,
  some, Text, equal_fold, ltb, leb, Bool-cases, arith, if◌then◌else◌,
}
use trc.Model.{BlockSnapshot}
use trc.Store.{Result, ok, err, Error}
use trc.Scanner.Env.{Env, Block, snapshot_query}
use trc.Scanner.Reorg.{snapshot_at, stops_at, stop_if, walk, find_fork}

module _ (env : Env) (snaps : List BlockSnapshot) where
  -- The stored snapshot and the block of the chain that agree at a height.
  pub record Agrees (n : ℕ) : Type 0 where
    pub snap : BlockSnapshot
    pub on_chain : Block
    pub is_stored : snapshot_at n snaps ≡ some snap
    pub is_on_chain : env.block_by_num n ≡ ok on_chain
    pub same_hash : equal_fold on_chain.block_id snap.block_hash ≡ true

  -- The highest height not above `top` where they agree.
  pub record IsFork (limit top fork : ℕ) : Type 0 where
    pub positive : 0 < fork
    pub not_below : limit ≤ fork
    pub not_above : fork ≤ top
    pub agrees : Agrees fork
    pub highest : (m : ℕ) → fork < m → m ≤ top → stops_at env snaps m ≡ ok false

  stop_if-Agrees :
      (n : ℕ) (failing : Option Text) (found : Option BlockSnapshot) (answer : Result Block)
      → snapshot_at n snaps ≡ found
      → env.block_by_num n ≡ answer
      → stop_if env failing found answer ≡ ok true
      → Agrees n
  stop_if-Agrees n (some e) found answer f a h = absurd (differs h)
    where
      differs : {A : Type 0} {e : Error} {a : A} → err e ≡ ok a → ⊥
      differs k = cc
  stop_if-Agrees n none none answer f a h = cc
  stop_if-Agrees n none (some snap) (err e) f a h = cc
  stop_if-Agrees n none (some snap) (ok on_chain) f a h = record {
    snap = snap;
    on_chain = on_chain;
    is_stored = f;
    is_on_chain = a;
    same_hash = same h;
  }
    where
      same : {b c : Bool} → ok b ≡ ok c → b ≡ c
      same k = cc

  stops_at-Agrees : (n : ℕ) → stops_at env snaps n ≡ ok true → Agrees n
  unfolding stops_at
  stops_at-Agrees n h =
      stop_if-Agrees n (env.fails snapshot_query) (snapshot_at n snaps) (env.block_by_num n) refl
        refl h

  higher :
      (n fork : ℕ)
      → stops_at env snaps (suc n) ≡ ok false
      → ((m : ℕ) → fork < m → m ≤ n → stops_at env snaps m ≡ ok false)
      → (m : ℕ) → fork < m
      → m ≤ suc n
      → stops_at env snaps m ≡ ok false
  higher n fork here below m above le = elim (Bool-cases (leb m n)) [
    | inl inside ↦ below m above (leb→le m n inside)
    | inr top ↦ subst (λ k. stops_at env snaps k ≡ ok false) (equal top) here
  ]
    where
      equal : leb m n ≡ false → suc n ≡ m
      equal t = ground arith

  walk-IsFork :
      (limit n fork : ℕ) (stops : Result Bool) (rest : Result (Option ℕ))
      → stops_at env snaps (suc n) ≡ stops
      → limit ≤ suc n
      → (rest ≡ ok (some fork) → IsFork limit n fork)
      → walk env stops (suc n) rest ≡ ok (some fork)
      → IsFork limit (suc n) fork
  walk-IsFork limit n fork (err e) rest s le below h = cc
  walk-IsFork limit n fork (ok true) rest s le below h =
      let e : suc n ≡ fork = same h in
      record {
        positive = omega (arith, e);
        not_below = omega (arith, e, le);
        not_above = omega (arith, e);
        agrees = subst Agrees e (stops_at-Agrees (suc n) s);
        highest = λ m above k. absurd (omega (arith, e, above, k));
      }
    where
      same : {a b : ℕ} → ok (some a) ≡ ok (some b) → a ≡ b
      same k = cc
  walk-IsFork limit n fork (ok false) rest s le below h =
      let f = below h in
      record {
        positive = f.positive;
        not_below = f.not_below;
        not_above = omega (arith, f.not_above);
        agrees = f.agrees;
        highest = higher n fork s f.highest;
      }

  pub find_fork-IsFork :
      (limit n fork : ℕ) → find_fork env snaps limit n ≡ ok (some fork) → IsFork limit n fork
  unfolding find_fork
  find_fork-IsFork limit zero fork h = cc
  find_fork-IsFork limit (suc n) fork h =
      let later = walk env (stops_at env snaps (suc n)) (suc n) (find_fork env snaps limit n) in
      elim (Bool-cases (ltb (suc n) limit)) [
        | inl below ↦ absurd (
            differs (subst (λ (b : Bool). (if b then ok none else later) ≡ ok (some fork)) below h))
        | inr inside ↦
            walk-IsFork limit n fork (stops_at env snaps (suc n)) (find_fork env snaps limit n) refl
              (not_below inside) (find_fork-IsFork limit n fork)
              (subst (λ (b : Bool). (if b then ok none else later) ≡ ok (some fork)) inside h)
      ]
    where
      differs : ok none ≡ ok (some fork) → ⊥
      differs k = cc

      not_below : ltb (suc n) limit ≡ false → limit ≤ suc n
      not_below k = ground arith
