-- ===== src/LockManager.antt =====
-- src/concurrency/lock_manager.cpp. A call is cut where another thread can run: before the latch is
-- taken, and at `cv_.wait`. A waiter may wake at any time, so `notify_all` changes nothing here.
-- Transaction ids are numbers, older ones smaller; `txns` holds the transaction objects by id, and
-- `registered` the ids in `TransactionManager::txn_map`.
pub mod Wounds
pub mod Grants
pub mod Hazards
pub mod Upgrades
mod Tests
use disk_oriented_concurrenc.Base.{
  ℕ, ◌≡◌, Bool, true, false, not, ◌&&◌, ◌||◌, Option, none, some, List, [], ◌∷◌, ◌++◌, arith, ltb,
  ◌==◌, if◌then◌else◌, update,
}
use disk_oriented_concurrenc.Transaction.{
  Rid, rid_eq, Transaction, TransactionState, growing, shrinking, committed, aborted, AbortReason,
  lock_on_shrinking, upgrade_conflict, is_aborted, is_growing, is_read_uncommitted,
  is_repeatable_read, emplace, erase_rid,
}

pub data LockMode : Type 0 where
  shared exclusive : LockMode

abbrev pub is_exclusive : LockMode → Bool
is_exclusive exclusive = true
is_exclusive shared = false

pub record LockRequest : Type 0 where
  pub txn_id : ℕ
  pub lock_mode : LockMode
  pub granted : Bool

pub record LockRequestQueue : Type 0 where
  pub request_queue : List LockRequest
  pub upgrading : Option ℕ

pub record LockManager : Type 0 where
  pub txns : ℕ → Transaction
  pub registered : ℕ → Bool
  pub lock_table : Rid → LockRequestQueue

-- How a segment of a call ends: it returns, throws, blocks, goes on to the latched part, or reads
-- past the end of a list or fails an assertion.
pub data Attempt : Type 0 where
  returns : Bool → Attempt
  throws : AbortReason → Attempt
  waits proceeds faults : Attempt

unfoldable pub set_state : LockManager → ℕ → TransactionState → LockManager
set_state m t s = record m { txns = update m.txns t (record (m.txns t) { state = s }) }

unfoldable pub set_queue : LockManager → Rid → List LockRequest → LockManager
set_queue m r q = record m {
  lock_table =
      λ x. if rid_eq x r then record (m.lock_table r) { request_queue = q } else m.lock_table x;
}

unfoldable pub check_abort : LockManager → ℕ → Bool
check_abort m t = is_aborted (m.txns t).state

-- `if (younger_txn->GetState() != ABORTED) younger_txn->SetState(ABORTED)`; the flag that it sets
-- only decides on a notification.
unfoldable pub wound : LockManager → ℕ → LockManager
unfolding set_state
wound m t = if is_aborted (m.txns t).state then m else set_state m t aborted

-- The scan of `NeedWait` over the requests before the transaction's own, with the mode of `self`.
unfoldable pub scan :
    LockManager → ℕ → LockMode → List LockRequest → Bool → Option (LockManager × Bool)
unfolding wound
scan m t mode [] need_wait = none
scan m t mode (r ∷ rest) need_wait =
    let conflict = is_exclusive mode || is_exclusive r.lock_mode in
    let wounded = scan (wound m r.txn_id) t mode rest need_wait in
    let skipped = scan m t mode rest need_wait in
    let older = scan m t mode rest (need_wait || conflict) in
    if r.txn_id == t
    then some (m, need_wait)
    else if ltb t r.txn_id
    then (if conflict then (if m.registered r.txn_id then wounded else none) else skipped)
    else older

-- `request_queue_.back()`
unfoldable pub back_mode : List LockRequest → Option LockMode
back_mode [] = none
back_mode (r ∷ rest) = elim (back_mode rest) [ none ↦ some r.lock_mode | some m ↦ some m ]

-- `NeedWait` once `self` and the first request are known.
unfoldable pub need_wait_from :
    LockManager → ℕ → LockMode → List LockRequest → Option (LockManager × Bool)
unfolding scan
need_wait_from m t self [] = none
need_wait_from m t self (first ∷ rest) =
    if first.txn_id == t || (not (is_exclusive self) && not (is_exclusive first.lock_mode))
    then some (m, false)
    else scan m t self (first ∷ rest) false

-- `NeedWait`: the manager afterwards and whether to wait.
unfoldable pub need_wait : LockManager → ℕ → List LockRequest → Option (LockManager × Bool)
unfolding back_mode need_wait_from
need_wait m t q = elim (back_mode q) [ none ↦ none | some self ↦ need_wait_from m t self q ]

-- The scan of `NeedWaitUpdate`, in which every earlier request counts.
unfoldable pub need_wait_update :
    LockManager → ℕ → List LockRequest → Bool → Option (LockManager × Bool)
unfolding wound
need_wait_update m t [] need_wait = none
need_wait_update m t (r ∷ rest) need_wait =
    let wounded = need_wait_update (wound m r.txn_id) t rest need_wait in
    let older = need_wait_update m t rest true in
    if r.txn_id == t
    then some (m, need_wait)
    else if ltb t r.txn_id
    then (if m.registered r.txn_id then wounded else none)
    else older

-- `iter.granted_ = true` for every request of the transaction.
unfoldable pub grant : ℕ → List LockRequest → List LockRequest
grant t [] = []
grant t (r ∷ rest) = (if r.txn_id == t then record r { granted = true } else r) ∷ grant t rest

-- The loop of `LockShared` and `LockExclusive` from its test on.
unfoldable pub try_lock : LockManager → ℕ → Rid → LockManager × Attempt
unfolding need_wait grant set_state set_queue
try_lock m t rid = elim (need_wait m t (m.lock_table rid).request_queue) [
  | none ↦ (m, faults)
  | some (m', wait) ↦ if wait then (m', waits) else (
    set_state (set_queue m' rid (grant t (m'.lock_table rid).request_queue)) t growing,
    returns true,
  )
]

-- After `cv_.wait`: `if (CheckAbort(txn)) return false;` and the test again.
unfoldable pub wake_lock : LockManager → ℕ → Rid → LockManager × Attempt
unfolding try_lock check_abort
wake_lock m t rid = if check_abort m t then (m, returns false) else try_lock m t rid

-- `LockShared` before the latch.
unfoldable pub enter_shared : LockManager → ℕ → Rid → LockManager × Attempt
unfolding check_abort set_state
enter_shared m t rid =
    let txn = m.txns t in
    if check_abort m t
    then (m, returns false)
    else if is_read_uncommitted txn.isolation_level
    then (set_state m t aborted, returns false)
    else if not (is_growing txn.state)
    then (set_state m t aborted, throws lock_on_shrinking)
    else if txn.shared_lock_set rid
    then (m, returns true)
    else (m, proceeds)

-- `request_queue_.emplace_back(lock_request)`
unfoldable pub enqueue : LockManager → ℕ → Rid → LockMode → LockManager
unfolding set_queue
enqueue m t rid mode = set_queue m rid (
    (m.lock_table rid).request_queue
    ++ record { txn_id = t; lock_mode = mode; granted = false } ∷ [])

-- `LockShared` from the latch on.
unfoldable pub request_shared : LockManager → ℕ → Rid → LockManager × Attempt
unfolding enqueue try_lock
request_shared m t rid =
    let m' = enqueue m t rid shared in
    try_lock
      (record m' {
        txns =
            update m'.txns t
              (record (m'.txns t) { shared_lock_set = emplace rid (m'.txns t).shared_lock_set });
      })
      t rid

-- `LockExclusive` before the latch.
unfoldable pub enter_exclusive : LockManager → ℕ → Rid → LockManager × Attempt
unfolding check_abort set_state
enter_exclusive m t rid =
    let txn = m.txns t in
    if check_abort m t
    then (m, returns false)
    else if not (is_growing txn.state)
    then (set_state m t aborted, throws lock_on_shrinking)
    else if txn.exclusive_lock_set rid
    then (m, returns true)
    else (m, proceeds)

-- `LockExclusive` from the latch on.
unfoldable pub request_exclusive : LockManager → ℕ → Rid → LockManager × Attempt
unfolding enqueue try_lock
request_exclusive m t rid =
    let m' = enqueue m t rid exclusive in
    try_lock
      (record m' {
        txns = update m'.txns t (record (m'.txns t) {
          exclusive_lock_set = emplace rid (m'.txns t).exclusive_lock_set;
        });
      })
      t rid

-- Runs the latched part if the checks before it let the call through.
abbrev pub continue_with :
    (LockManager → LockManager × Attempt) → LockManager × Attempt → LockManager × Attempt
continue_with f (m, proceeds) = f m
continue_with f (m, a) = (m, a)

-- `LockShared` and `LockExclusive` when no other thread runs before the first test of the loop.
unfoldable pub lock_shared : LockManager → ℕ → Rid → LockManager × Attempt
unfolding enter_shared request_shared
lock_shared m t rid = continue_with (λ m'. request_shared m' t rid) (enter_shared m t rid)

unfoldable pub lock_exclusive : LockManager → ℕ → Rid → LockManager × Attempt
unfolding enter_exclusive request_exclusive
lock_exclusive m t rid = continue_with (λ m'. request_exclusive m' t rid) (enter_exclusive m t rid)

-- Whether a request of the transaction is in the queue.
unfoldable pub has_request : ℕ → List LockRequest → Bool
has_request t [] = false
has_request t (r ∷ rest) = r.txn_id == t || has_request t rest

-- The loop that ends `LockUpgrade`. It works on copies of the requests, so the queue stays.
unfoldable pub record_upgrade : LockManager → ℕ → Rid → LockManager
unfolding has_request
record_upgrade m t rid =
    let txn = m.txns t in
    if has_request t (m.lock_table rid).request_queue
    then record m {
      txns = update m.txns t (record txn {
        state = growing;
        shared_lock_set = erase_rid rid txn.shared_lock_set;
        exclusive_lock_set = emplace rid txn.exclusive_lock_set;
      });
    }
    else m

-- The loop of `LockUpgrade` from its test on, and after a wait.
unfoldable pub try_upgrade : LockManager → ℕ → Rid → LockManager × Attempt
unfolding need_wait_update record_upgrade
try_upgrade m t rid = elim (need_wait_update m t (m.lock_table rid).request_queue false) [
  | none ↦ (m, faults)
  | some (m', wait) ↦ if wait then (m', waits) else (record_upgrade m' t rid, returns true)
]

unfoldable pub wake_upgrade : LockManager → ℕ → Rid → LockManager × Attempt
unfolding try_upgrade check_abort
wake_upgrade m t rid = if check_abort m t then (m, returns false) else try_upgrade m t rid

-- `LockUpgrade` before the latch.
unfoldable pub enter_upgrade : LockManager → ℕ → Rid → LockManager × Attempt
unfolding check_abort set_state
enter_upgrade m t rid =
    let txn = m.txns t in
    if check_abort m t
    then (m, returns false)
    else if not (is_growing txn.state)
    then (set_state m t aborted, throws upgrade_conflict)
    else if txn.exclusive_lock_set rid
    then (m, returns true)
    else (m, proceeds)

unfoldable pub lock_upgrade : LockManager → ℕ → Rid → LockManager × Attempt
unfolding enter_upgrade try_upgrade
lock_upgrade m t rid = continue_with (λ m'. try_upgrade m' t rid) (enter_upgrade m t rid)

-- Erases the first request of the transaction.
unfoldable pub erase_request : ℕ → List LockRequest → List LockRequest
erase_request t [] = []
erase_request t (r ∷ rest) = if r.txn_id == t then rest else r ∷ erase_request t rest

abbrev pub clear_upgrading : ℕ → Option ℕ → Option ℕ
clear_upgrading t none = none
clear_upgrading t (some u) = if u == t then none else some u

-- What `Unlock` does to the queue of the record.
unfoldable pub dequeue : LockManager → ℕ → Rid → LockManager
unfolding erase_request
dequeue m t rid = record m {
  lock_table = λ x.
      if rid_eq x rid
      then record {
        request_queue = erase_request t (m.lock_table rid).request_queue;
        upgrading = clear_upgrading t (m.lock_table rid).upgrading;
      }
      else m.lock_table x;
}

-- What `Unlock` does to the transaction: a growing, repeatable-read one starts to shrink.
unfoldable pub unlocked : Rid → Transaction → Transaction
unlocked rid txn = record txn {
  state =
      if is_growing txn.state && is_repeatable_read txn.isolation_level
      then shrinking
      else txn.state;
  shared_lock_set = erase_rid rid txn.shared_lock_set;
  exclusive_lock_set = erase_rid rid txn.exclusive_lock_set;
}

-- `Unlock`
unfoldable pub unlock : LockManager → ℕ → Rid → LockManager × Bool
unfolding has_request dequeue unlocked
unlock m t rid =
    let txn = m.txns t in
    if not (txn.shared_lock_set rid) && not (txn.exclusive_lock_set rid)
    then (m, false)
    else if has_request t (m.lock_table rid).request_queue
    then (record (dequeue m t rid) { txns = update m.txns t (unlocked rid txn) }, true)
    else (dequeue m t rid, false)
