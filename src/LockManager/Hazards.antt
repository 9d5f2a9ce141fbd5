-- ===== src/LockManager/Hazards.antt =====
-- Inputs on which two transactions end up with conflicting locks.
use disk_oriented_concurrenc.Base.{ℕ, ◌≡◌, ◌≢◌, refl, true, false, some, List, [], ◌∷◌, ◌++◌, arith}
use disk_oriented_concurrenc.Transaction.{
  Rid, rid_eq_refl, growing, is_aborted, is_growing, is_read_uncommitted,
}
use disk_oriented_concurrenc.LockManager.{
  LockManager, shared, LockRequest, returns, set_state, set_queue, check_abort, back_mode,
  need_wait_from, need_wait, try_lock, wake_lock, enter_shared, request_shared, request_exclusive,
  enqueue, lock_shared,
}

back_mode-snoc :
    (q : List LockRequest) (r : LockRequest) → back_mode (q ++ r ∷ []) ≡ some r.lock_mode
unfolding back_mode
back_mode-snoc [] r = refl
back_mode-snoc (x ∷ q) r = rw (back_mode-snoc q r)

-- A growing transaction, not at read uncommitted and without a shared lock on the record, is granted
-- one whenever the head of the queue is shared, whatever exclusive requests stand behind it, and no
-- other transaction is touched.
pub lock_shared-shared_head :
    (m : LockManager) (t : ℕ) (rid : Rid) (r : LockRequest) (q : List LockRequest)
    → (m.lock_table rid).request_queue ≡ r ∷ q
    → r.lock_mode ≡ shared
    → is_growing (m.txns t).state ≡ true
    → is_read_uncommitted (m.txns t).isolation_level ≡ false
    → (m.txns t).shared_lock_set rid ≡ false
    → ((lock_shared m t rid).1 ≡ returns true)
      × ((u : ℕ) → u ≢ t → (lock_shared m t rid).0.txns u ≡ m.txns u)
unfolding lock_shared enter_shared request_shared enqueue set_queue try_lock need_wait
    need_wait_from set_state
lock_shared-shared_head m t rid r q front s g i k = ground (
  arith,
  rid_eq_refl rid,
  back_mode-snoc (r ∷ q) (record { txn_id = t; lock_mode = shared; granted = false }),
)

-- A waiter that wakes looks at the last request of the queue instead of its own: between a shared
-- head and a shared last request an unaborted waiter is granted its lock,
-- an exclusive one too, and no other transaction is touched.
pub wake_lock-shared_ends :
    (m : LockManager) (t : ℕ) (rid : Rid) (r : LockRequest) (q : List LockRequest)
    → (m.lock_table rid).request_queue ≡ r ∷ q
    → r.lock_mode ≡ shared
    → back_mode (r ∷ q) ≡ some shared
    → is_aborted (m.txns t).state ≡ false
    → ((wake_lock m t rid).1 ≡ returns true)
      × ((u : ℕ) → u ≢ t → (wake_lock m t rid).0.txns u ≡ m.txns u)
unfolding wake_lock check_abort try_lock need_wait need_wait_from set_state set_queue
wake_lock-shared_ends m t rid r q front s b a = ground (arith, rid_eq_refl rid)

-- The latched part of a lock call does not look at the state again: on an empty queue it grants the
-- lock to a transaction that was aborted in between, and the transaction grows again.
pub request_exclusive-revives :
    (m : LockManager) (t : ℕ) (rid : Rid)
    → (m.lock_table rid).request_queue ≡ []
    → ((request_exclusive m t rid).1 ≡ returns true)
      × (((request_exclusive m t rid).0.txns t).state ≡ growing)
unfolding request_exclusive enqueue set_queue try_lock need_wait need_wait_from set_state back_mode
request_exclusive-revives m t rid e = ground (arith, rid_eq_refl rid)
