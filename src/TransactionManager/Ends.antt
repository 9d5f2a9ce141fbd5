-- ===== src/TransactionManager/Ends.antt =====
-- What `Commit` and `Abort` leave behind.
use disk_oriented_concurrenc.Base.{
  ℕ, ◌≡◌, ◌≢◌, refl, sym, ap, ◌∙◌, true, false, List, [], ◌∷◌, arith,
}
use disk_oriented_concurrenc.Transaction.{Rid, TransactionState, committed, is_growing}
use disk_oriented_concurrenc.LockManager.{LockManager, set_state}
use disk_oriented_concurrenc.RwLatch.{r_unlock}
use disk_oriented_concurrenc.TransactionManager.{
  TransactionManager, Tables, Indexes, TableWriteRecord, WType, insert, delete, update_row,
  release_locks, apply_delete, commit_write, commit_writes, commit,
}
use disk_oriented_concurrenc.TransactionManager.Locks.{
  holds, lists, Queued, Released, Released-refl, Released-trans, Released-Queued, unlock-Released,
  release_locks-Released, release_locks-holds,
}

-- The part of a transaction's end that is about locks.
pub record Ended {S I T : Type 0} (m m' : TransactionManager S I T) (t : ℕ)
    (ending : TransactionState) : Type 0 where
  pub state : (m'.locks.txns t).state ≡ ending
  pub free : (r : Rid) → holds m'.locks t r ≡ false
  pub others : (u : ℕ) → u ≢ t → m'.locks.txns u ≡ m.locks.txns u
  pub latch : m'.global_txn_latch ≡ r_unlock m.global_txn_latch

-- The lock manager's part, for a state that is not growing: `n` is the manager after the loop over the write set.
let_go :
    (m n : LockManager) (t : ℕ) (ending : TransactionState) (order : List Rid)
    → is_growing ending ≡ false
    → Queued m t
    → Released (set_state m t ending) n t
    → ((r : Rid) → holds n t r ≡ true → lists order r ≡ true)
    → let m' = release_locks n t order in
      ((m'.txns t).state ≡ ending)
      × ((r : Rid) → holds m' t r ≡ false)
      × ((u : ℕ) → u ≢ t → m'.txns u ≡ m.txns u)
unfolding set_state
let_go m n t ending order g q a l =
    let o = set_state m t ending in
    let b = Released-trans o n (release_locks n t order) t a (release_locks-Released n t order) in
    let same : (r : Rid) → holds o t r ≡ holds m t r = λ r. ground arith in
    let set : (o.txns t).state ≡ ending = ground arith in
    let queued : Queued n t = Released-Queued o n t a (λ r h. q r (sym (same r) ∙ h)) in
    (
      b.state (ap is_growing set ∙ g) ∙ set,
      (λ r. release_locks-holds n t order r queued (l r)),
      λ u ne. b.others u ne ∙ ground (arith, ne),
    )

module _ {S I T : Type 0} (tables : Tables S T) (indexes : Indexes I T) where
  apply_delete-Released :
      (t : ℕ) (w : TableWriteRecord T) (x : S × LockManager)
      → Released x.1 (apply_delete tables indexes t w x).1 t
  unfolding apply_delete
  apply_delete-Released t w (s, m) = unlock-Released m t w.rid

  commit_write-Released :
      (t : ℕ) (w : TableWriteRecord T) (x : S × LockManager) (k : WType)
      → w.wtype ≡ k
      → Released x.1 (commit_write tables indexes t w x).1 t
  unfolding commit_write
  commit_write-Released t w x insert e = rw e (Released-refl x.1 t)
  commit_write-Released t w x delete e = rw e (apply_delete-Released t w x)
  commit_write-Released t w x update_row e = rw e (Released-refl x.1 t)

  commit_writes-Released :
      (t : ℕ) (ws : List (TableWriteRecord T)) (x : S × LockManager)
      → Released x.1 (commit_writes tables indexes t ws x).1 t
  unfolding commit_writes
  commit_writes-Released t [] x = Released-refl x.1 t
  commit_writes-Released t (w ∷ ws) x =
      let y = commit_write tables indexes t w x in
      Released-trans x.1 y.1 (commit_writes tables indexes t ws y).1 t
        (commit_write-Released t w x w.wtype refl) (commit_writes-Released t ws y)

  -- The deletes of a write set, and their application to the pages.
  abbrev pub deletes : List (TableWriteRecord T) → List (TableWriteRecord T)
  deletes [] = []
  deletes (w ∷ ws) = elim w.wtype [ delete ↦ w ∷ deletes ws | _ ↦ deletes ws ]

  abbrev pub apply_all : List (TableWriteRecord T) → S → S
  apply_all [] s = s
  apply_all (w ∷ ws) s = apply_all ws (tables.delete_from_page w.table w.rid s)

  commit_write-deletes :
      (t : ℕ) (w : TableWriteRecord T) (ws : List (TableWriteRecord T)) (x : S × LockManager)
      (k : WType)
      → w.wtype ≡ k
      → apply_all (deletes ws) (commit_write tables indexes t w x).0
        ≡ apply_all (deletes (w ∷ ws)) x.0
  unfolding commit_write apply_delete
  commit_write-deletes t w ws x insert e = rw e refl
  commit_write-deletes t w ws x delete e = rw e refl
  commit_write-deletes t w ws x update_row e = rw e refl

  commit_writes-deletes :
      (t : ℕ) (ws : List (TableWriteRecord T)) (x : S × LockManager)
      → (commit_writes tables indexes t ws x).0 ≡ apply_all (deletes ws) x.0
  unfolding commit_writes
  commit_writes-deletes t [] x = refl
  commit_writes-deletes t (w ∷ ws) x =
      commit_writes-deletes t ws (commit_write tables indexes t w x)
      ∙ commit_write-deletes t w ws x w.wtype refl

  -- `Commit` of a transaction whose held records have its requests queued, with an order that lists what it still
  -- holds after its deletes were applied, each of which releases its record: the deletes of its table write set are
  -- applied to the pages, the last one first, and nothing else is done to the tables; the indexes stay, the table
  -- write set is empty, the transaction is committed and holds no record, other transactions are as they were, and
  -- the latch is released.
  pub commit-Ended :
      (m : TransactionManager S I T) (t : ℕ) (order : List Rid)
      → Queued m.locks t
      → ((r : Rid)
          → holds
              (commit_writes tables indexes t
                (m.table_write_set t)
                (m.table_state, set_state m.locks t committed)).1
              t
              r
            ≡ true
          → lists order r ≡ true)
      → let m' = commit tables indexes m t order in
        (m'.table_state ≡ apply_all (deletes (m.table_write_set t)) m.table_state)
        × (m'.index_state ≡ m.index_state)
        × (m'.table_write_set t ≡ [])
        × Ended m m' t committed
  unfolding commit
  commit-Ended m t order q l =
      let x : S × LockManager = (m.table_state, set_state m.locks t committed) in
      let y = commit_writes tables indexes t (m.table_write_set t) x in
      let g =
        let_go m.locks y.1 t committed order refl q
          (commit_writes-Released t (m.table_write_set t) x) l in
      (
        commit_writes-deletes t (m.table_write_set t) x,
        refl,
        ground arith,
        record { state = g.0; free = g.1; others = g.2; latch = refl },
      )
