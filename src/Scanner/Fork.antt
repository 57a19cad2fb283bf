-- ===== src/Scanner/Fork.antt =====
-- What a reorganisation does: the fork point that is found, and the tables after the rewind.
use trc.Base.{
  ap, ◌∙◌, ◌==◌, [], ◌∷◌, map, text_eq_iff, ◌&&◌, ℕ, ◌-◌, ◌≡◌, ◌<◌, refl, inl, inr, Bool, true,
  false, List, Option, none, some, Text, All, All-intro, select, ltb, leb, Bool-cases, Option-cases,
  arith,
}
use trc.Scanner.ForkPoint.{IsFork, find_fork-IsFork}
use trc.Model.{DepositState, DepositRecord, BlockSnapshot, ChainCursor}
use trc.Model.Deposit.{is_pending}
use trc.Store.{
  Db, take_where, World, Result, ok, err, Error, pure, raise, ask, gets, modify_db, ◌>>=◌,
  statement, transaction, continue, update_where,
}
use trc.Store.Table.{All-update_where, map-update_where}
use trc.Scanner.Env.{Env, rewind_query, rewind_orphan, snapshot_delete, cursor_update}
use trc.Scanner.Settle.{set_deposits, with_orphaned}
use trc.Scanner.Reorg.{
  fork_hash, hash_or_empty, cursor_name, snapshot_at, set_cursor, is_above, find_fork, rewind,
  rewind_to, handle_reorg, delete_above, save_cursor,
}

-- The snapshot at the fork point is not deleted.
snapshot_at_left :
    (n : ℕ) (ts : List BlockSnapshot)
    → snapshot_at n (select (λ (s : BlockSnapshot). leb s.block_number n) ts) ≡ snapshot_at n ts
unfolding take_where
snapshot_at_left n [] = refl
snapshot_at_left n (t ∷ ts) = elim (Bool-cases (leb t.block_number n)) [
  | inl left ↦ rw (left, snapshot_at_left n ts) refl
  | inr deleted ↦ rw (deleted, elsewhere deleted, snapshot_at_left n ts) refl
]
  where
    elsewhere : leb t.block_number n ≡ false → (t.block_number == n) ≡ false
    elsewhere h = ground arith

fork_hash-agrees :
    (env : Env) (query : Option Text) (fork : ℕ) (db : Db) (snaps : List BlockSnapshot)
    (snap : BlockSnapshot)
    → query ≡ none
    → db.snapshots ≡ select (λ (s : BlockSnapshot). leb s.block_number fork) snaps
    → snapshot_at fork snaps ≡ some snap
    → fork_hash env query fork db ≡ snap.block_hash
fork_hash-agrees env (some e) fork db snaps snap answered left stored = cc
fork_hash-agrees env none fork db snaps snap answered left stored =
    ap hash_or_empty (ap (snapshot_at fork) left ∙ snapshot_at_left fork snaps ∙ stored)

abbrev name_of : ChainCursor → Text
name_of c = c.name

cursor_names :
    (cursor : ChainCursor) (cs : List ChainCursor)
    → map name_of (set_cursor cursor cs) ≡ map name_of cs
unfolding set_cursor
cursor_names cursor cs = map-update_where _ _ name_of cs (λ c. refl)

-- Every row of a cursor's name stands where it was moved to.
cursor_stored :
    (cursor : ChainCursor) (cs : List ChainCursor)
    → All
        (λ (c : ChainCursor).
          c.name ≡ cursor.name
          → (c.block_number ≡ cursor.block_number) × (c.block_hash ≡ cursor.block_hash))
        (set_cursor cursor cs)
unfolding set_cursor
cursor_stored cursor cs =
    All-update_where _ _ cs (λ c (_ : Unit {0}) hit same. (refl, refl))
      (λ c _ miss same. absurd (clash ((text_eq_iff c.name cursor.name).1 same) miss))
      (All-intro cs (λ c. tt))
  where
    clash : {b : Bool} → b ≡ true → b ≡ false → ⊥
    clash h k = cc

-- The tables after a rewind to the fork point: the pending records above it are orphaned and nothing
-- else is, its snapshot is the last, and the cursor of the network stands there.
pub record Rewound (env : Env) (detected : ℕ) (w : World) (cursor : ChainCursor) (w' : World)
    : Type 0 where
  pub is_fork :
      IsFork env w.db.snapshots
        (detected - env.config.reorg_depth)
        (detected - 1)
        cursor.block_number
  pub orphaned :
      w'.db.deposits
      ≡ update_where
          (λ (r : DepositRecord). ltb cursor.block_number r.block_number && is_pending r.status)
          (λ (r : DepositRecord). record r { status = DepositState.orphaned; updated_at = env.now })
          w.db.deposits
  pub none_pending :
      All
        (λ (r : DepositRecord). cursor.block_number < r.block_number → is_pending r.status ≡ false)
        w'.db.deposits
  pub forgotten :
      w'.db.snapshots
      ≡ select (λ (s : BlockSnapshot). leb s.block_number cursor.block_number) w.db.snapshots
  pub hashed : env.fails rewind_query ≡ none → cursor.block_hash ≡ is_fork.agrees.snap.block_hash
  pub same_names : map name_of w'.db.cursors ≡ map name_of w.db.cursors
  pub stored :
      All
        (λ (c : ChainCursor).
          c.name ≡ cursor_name env.config
          → (c.block_number ≡ cursor.block_number) × (c.block_hash ≡ cursor.block_hash))
        w'.db.cursors
  pub same_outbox : w'.db.outbox ≡ w.db.outbox

-- A call either rewinds, or ends in an error and changes nothing.
pub data Reorged (env : Env) (detected : ℕ) (w : World) : Result ChainCursor × World → Type 0 where
  rewound :
      (cursor : ChainCursor) (w' : World)
      → Rewound env detected w cursor w'
      → Reorged env detected w (ok cursor, w')
  refused : (e : Error) → Reorged env detected w (err e, w)

none_above :
    (now fork : ℕ) (rs : List DepositRecord)
    → All
        (λ (r : DepositRecord). fork < r.block_number → is_pending r.status ≡ false)
        (update_where (is_above fork) (with_orphaned now) rs)
none_above now fork rs =
    All-update_where (is_above fork) (with_orphaned now) rs (λ r (_ : Unit {0}) hit above. refl)
      (λ r _ miss above. left r miss above) (All-intro rs (λ r. tt))
  where
    left :
        (r : DepositRecord)
        → is_above fork r ≡ false
        → fork < r.block_number
        → is_pending r.status ≡ false
    left r miss above = ground arith

module _ (env : Env) (detected : ℕ) (w : World) where
  open env use {fails, commit_fails, config}

  abbrev below : ℕ
  below = detected - config.reorg_depth

  rewind_to-Reorged :
      (fork : ℕ)
      → IsFork env w.db.snapshots below (detected - 1) fork
      → Reorged env detected w (rewind_to env (some fork) w)
  unfolding rewind_to rewind set_deposits delete_above save_cursor transaction ◌>>=◌ statement
      modify_db gets pure
  rewind_to-Reorged fork f = elim (Option-cases commit_fails) [
    | inr (t, c) ↦ simp c (refused _)
    | inl c ↦ elim (Option-cases (fails rewind_orphan)) [
      | inr (t, bad) ↦ simp (c, bad) (refused _)
      | inl fine ↦ elim (Option-cases (fails snapshot_delete)) [
        | inr (t, bad) ↦ simp (c, fine, bad) (refused _)
        | inl gone ↦ elim (Option-cases (fails cursor_update)) [
          | inr (t, bad) ↦ simp (c, fine, gone, bad) (refused _)
          | inl moved ↦
              simp (c, fine, gone, moved)
                (rewound _ _ (record {
                  is_fork = f;
                  orphaned = refl;
                  none_pending = none_above env.now fork w.db.deposits;
                  forgotten = refl;
                  hashed = λ answered.
                      fork_hash-agrees env _ fork _ w.db.snapshots f.agrees.snap answered refl
                        f.agrees.is_stored;
                  same_names = cursor_names _ w.db.cursors;
                  stored = cursor_stored _ w.db.cursors;
                  same_outbox = refl;
                }))
        ]
      ]
    ]
  ]

  continued :
      (fork : Result (Option ℕ))
      → find_fork env w.db.snapshots below (detected - 1) ≡ fork
      → Reorged env detected w (continue fork (rewind_to env) w)
  unfolding rewind_to raise
  continued (err e) h = refused e
  continued (ok none) h = refused _
  continued (ok (some fork)) h =
      rewind_to-Reorged fork (find_fork-IsFork env w.db.snapshots below (detected - 1) fork h)

  -- A call of handleReorg ends in an error and changes nothing, or it finds the highest height below
  -- the detected one, positive and within the reorganisation depth, where the stored snapshot agrees
  -- with the chain, and rewinds to it: the pending records above it are orphaned and no record else
  -- is changed, none above it is pending, the snapshots above it are deleted, the returned cursor
  -- stands there, with the hash of the snapshot where its query is answered, and so does every stored cursor of the network's name; no cursor is added or renamed.
  pub handle_reorg-Reorged : Reorged env detected w (handle_reorg env detected w)
  unfolding handle_reorg ask ◌>>=◌
  handle_reorg-Reorged = continued (find_fork env w.db.snapshots below (detected - 1)) refl
