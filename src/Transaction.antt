-- ===== src/Transaction.antt =====
-- src/include/concurrency/transaction.h and src/include/common/rid.h: record ids, and the part of a
-- transaction that locking reads and writes. Its write sets are in the modules that fill them.
use disk_oriented_concurrenc.Base.{ℕ, ◌≡◌, Bool, true, false, ◌&&◌, arith, ◌==◌, if◌then◌else◌}

pub record Rid : Type 0 where
  pub page_id : ℕ
  pub slot_num : ℕ

abbrev pub rid_eq : Rid → Rid → Bool
rid_eq a b = a.page_id == b.page_id && a.slot_num == b.slot_num

pub data TransactionState : Type 0 where
  growing shrinking committed aborted : TransactionState

pub data IsolationLevel : Type 0 where
  read_uncommitted repeatable_read read_committed : IsolationLevel

pub data AbortReason : Type 0 where
  lock_on_shrinking unlock_on_shrinking upgrade_conflict deadlock : AbortReason
  lockshared_on_read_uncommitted : AbortReason

abbrev pub is_aborted : TransactionState → Bool
is_aborted aborted = true
is_aborted _ = false

abbrev pub is_growing : TransactionState → Bool
is_growing growing = true
is_growing _ = false

abbrev pub is_read_uncommitted : IsolationLevel → Bool
is_read_uncommitted read_uncommitted = true
is_read_uncommitted _ = false

abbrev pub is_repeatable_read : IsolationLevel → Bool
is_repeatable_read repeatable_read = true
is_repeatable_read _ = false

-- A set of record ids, as its `find` test.
abbrev pub RidSet : Type 0
RidSet = Rid → Bool

abbrev pub emplace : Rid → RidSet → RidSet
emplace r s q = if rid_eq q r then true else s q

abbrev pub erase_rid : Rid → RidSet → RidSet
erase_rid r s q = if rid_eq q r then false else s q

pub record Transaction : Type 0 where
  pub state : TransactionState
  pub isolation_level : IsolationLevel
  pub shared_lock_set : RidSet
  pub exclusive_lock_set : RidSet

-- The constructor.
unfoldable pub new_transaction : IsolationLevel → Transaction
new_transaction level = record {
  state = growing;
  isolation_level = level;
  shared_lock_set = λ _. false;
  exclusive_lock_set = λ _. false;
}

pub rid_eq_refl : (r : Rid) → rid_eq r r ≡ true
rid_eq_refl r = ground arith

pub rid_eq_sound : (a b : Rid) → rid_eq a b ≡ true → a ≡ b
rid_eq_sound a b e = ground arith
