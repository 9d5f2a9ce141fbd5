-- ===== src/TransactionManager.antt =====
-- src/concurrency/transaction_manager.cpp and src/include/concurrency/transaction_manager.h. The tables and
-- the indexes are states of their own, with what the manager calls of them as two interfaces. A write set is
-- listed from its back, where records are added and taken. The transactions and the lock table are the lock
-- manager's.
pub mod Locks
pub mod Ends
mod Tests
use disk_oriented_concurrenc.Base.{
  ℕ, ◌+◌, ◌≡◌, Bool, true, false, Option, none, some, List, [], ◌∷◌, arith, ◌==◌, if◌then◌else◌,
  update,
}
use disk_oriented_concurrenc.Transaction.{
  Rid, Transaction, IsolationLevel, TransactionState, committed, aborted, new_transaction,
}
use disk_oriented_concurrenc.LockManager.{LockManager, set_state, unlock}
use disk_oriented_concurrenc.RwLatch.{RwLatch, r_lock, r_unlock, w_lock, w_unlock}

pub data WType : Type 0 where
  insert delete update_row : WType

pub record TableWriteRecord (T : Type 0) : Type 0 where
  pub rid : Rid
  pub wtype : WType
  pub tuple : T
  pub table : ℕ

pub record IndexWriteRecord (T : Type 0) : Type 0 where
  pub rid : Rid
  pub table_oid : ℕ
  pub wtype : WType
  pub tuple : T
  pub old_tuple : T
  pub index_oid : ℕ

-- What the manager calls of the table heaps, by table, and of the indexes, by table and index. Of
-- `TableHeap::ApplyDelete`, which also unlocks the record, only the page's part is here: its calls of the
-- buffer pool and of the page. The key of a tuple is that of `KeyFromTuple` with the index's schema and attributes.
pub record Tables (S T : Type 0) : Type 0 where
  pub delete_from_page : ℕ → Rid → S → S
  pub rollback_delete : ℕ → Rid → S → S
  pub update_tuple : ℕ → T → Rid → S → S

pub record Indexes (I T : Type 0) : Type 0 where
  pub key_from_tuple : ℕ → ℕ → T → T
  pub insert_entry : ℕ → T → Rid → I → I
  pub delete_entry : ℕ → T → Rid → I → I

pub record TransactionManager (S I T : Type 0) : Type 0 where
  pub locks : LockManager
  pub next_txn_id : ℕ
  pub global_txn_latch : RwLatch
  pub table_write_set : ℕ → List (TableWriteRecord T)
  pub index_write_set : ℕ → List (IndexWriteRecord T)
  pub table_state : S
  pub index_state : I

-- `Unlock` of each record of the set, which `order` lists as the set's iterator does.
unfoldable pub release_locks : LockManager → ℕ → List Rid → LockManager
unfolding unlock
release_locks m t [] = m
release_locks m t (rid ∷ order) = release_locks (unlock m t rid).0 t order

module _ {S I T : Type 0} (tables : Tables S T) (indexes : Indexes I T) where
  -- What `Begin` does once it has the latch.
  unfoldable pub begun :
      TransactionManager S I T → RwLatch → Option ℕ → IsolationLevel → TransactionManager S I T × ℕ
  unfolding new_transaction
  begun m latch (some t) level = (
    record m {
      global_txn_latch = latch;
      locks = record (m.locks) { registered = update m.locks.registered t true };
    },
    t,
  )
  begun m latch none level = (
    record m {
      global_txn_latch = latch;
      locks = record (m.locks) {
        txns = update m.locks.txns m.next_txn_id (new_transaction level);
        registered = update m.locks.registered m.next_txn_id true;
      };
      next_txn_id = m.next_txn_id + 1;
      table_write_set = update m.table_write_set m.next_txn_id [];
      index_write_set = update m.index_write_set m.next_txn_id [];
    },
    m.next_txn_id,
  )

  -- `Begin`, of a new transaction or of one that is there: none while it waits for the latch.
  unfoldable pub begin :
      TransactionManager S I T → Option ℕ → IsolationLevel → Option (TransactionManager S I T × ℕ)
  unfolding r_lock begun
  begin m given level = elim (r_lock m.global_txn_latch) [
    | none ↦ none
    | some latch ↦ some (begun m latch given level)
  ]

  -- `TableHeap::ApplyDelete` by a transaction: the page's delete, and the `Unlock` of the record.
  unfoldable pub apply_delete : ℕ → TableWriteRecord T → S × LockManager → S × LockManager
  unfolding unlock
  apply_delete t w (s, locks) = (tables.delete_from_page w.table w.rid s, (unlock locks t w.rid).0)

  -- The loop of `Commit`, and one round.
  unfoldable pub commit_write : ℕ → TableWriteRecord T → S × LockManager → S × LockManager
  unfolding apply_delete
  commit_write t w x = elim w.wtype [ delete ↦ apply_delete t w x | _ ↦ x ]

  unfoldable pub commit_writes : ℕ → List (TableWriteRecord T) → S × LockManager → S × LockManager
  unfolding commit_write
  commit_writes t [] x = x
  commit_writes t (w ∷ ws) x = commit_writes t ws (commit_write t w x)

  -- The loops of `Abort`, and one round of each.
  unfoldable pub undo_write : ℕ → TableWriteRecord T → S × LockManager → S × LockManager
  unfolding apply_delete
  undo_write t w x = elim w.wtype [
    | delete ↦ (tables.rollback_delete w.table w.rid x.0, x.1)
    | insert ↦ apply_delete t w x
    | update_row ↦ (tables.update_tuple w.table w.tuple w.rid x.0, x.1)
  ]

  unfoldable pub undo_writes : ℕ → List (TableWriteRecord T) → S × LockManager → S × LockManager
  unfolding undo_write
  undo_writes t [] x = x
  undo_writes t (w ∷ ws) x = undo_writes t ws (undo_write t w x)

  unfoldable pub undo_index : IndexWriteRecord T → I → I
  undo_index w i =
      let new_key = indexes.key_from_tuple w.table_oid w.index_oid w.tuple in
      let old_key = indexes.key_from_tuple w.table_oid w.index_oid w.old_tuple in
      elim w.wtype [
        | delete ↦ indexes.insert_entry w.index_oid new_key w.rid i
        | insert ↦ indexes.delete_entry w.index_oid new_key w.rid i
        | update_row ↦
            indexes.insert_entry w.index_oid old_key w.rid
              (indexes.delete_entry w.index_oid new_key w.rid i)
      ]

  unfoldable pub undo_indexes : List (IndexWriteRecord T) → I → I
  unfolding undo_index
  undo_indexes [] i = i
  undo_indexes (w ∷ ws) i = undo_indexes ws (undo_index w i)

  -- `Commit`, which leaves the index write set.
  unfoldable pub commit : TransactionManager S I T → ℕ → List Rid → TransactionManager S I T
  unfolding commit_writes release_locks set_state r_unlock
  commit m t order =
      let (s, locks) =
        commit_writes t (m.table_write_set t) (m.table_state, set_state m.locks t committed) in
      record m {
        table_state = s;
        table_write_set = update m.table_write_set t [];
        locks = release_locks locks t order;
        global_txn_latch = r_unlock m.global_txn_latch;
      }

  -- `Abort`
  unfoldable pub abort : TransactionManager S I T → ℕ → List Rid → TransactionManager S I T
  unfolding undo_writes undo_indexes release_locks set_state r_unlock
  abort m t order =
      let (s, locks) =
        undo_writes t (m.table_write_set t) (m.table_state, set_state m.locks t aborted) in
      record m {
        table_state = s;
        table_write_set = update m.table_write_set t [];
        index_state = undo_indexes (m.index_write_set t) m.index_state;
        index_write_set = update m.index_write_set t [];
        locks = release_locks locks t order;
        global_txn_latch = r_unlock m.global_txn_latch;
      }

  -- `BlockAllTransactions` when no other thread runs, and `ResumeTransactions`.
  unfoldable pub block_all_transactions :
      TransactionManager S I T → Option (TransactionManager S I T)
  unfolding w_lock
  block_all_transactions m = elim (w_lock m.global_txn_latch) [
    | none ↦ none
    | some l ↦ some (record m { global_txn_latch = l })
  ]

  unfoldable pub resume_transactions : TransactionManager S I T → TransactionManager S I T
  unfolding w_unlock
  resume_transactions m = record m { global_txn_latch = w_unlock m.global_txn_latch }
