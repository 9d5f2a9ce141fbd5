-- ===== src/LockManager/Tests.antt =====
-- Locks on concrete inputs, and the theorems at inputs that meet their hypotheses.
use disk_oriented_concurrenc.Base.{
  ℕ, ◌≡◌, refl, true, false, none, List, [], ◌∷◌, ◌==◌, if◌then◌else◌, ◌||◌, ◌&&◌,
}
use disk_oriented_concurrenc.Transaction.{Rid, rid_eq, growing, shrinking, aborted, repeatable_read}
use disk_oriented_concurrenc.LockManager.{
  LockManager, LockMode, shared, exclusive, LockRequest, lock_exclusive, lock_upgrade, unlock,
  has_request,
}
use disk_oriented_concurrenc.LockManager.Grants
use disk_oriented_concurrenc.LockManager.Upgrades

abbrev row : Rid
row = record { page_id = 1; slot_num = 2 }

abbrev request : ℕ → LockMode → LockRequest
request t mode = record { txn_id = t; lock_mode = mode; granted = true }

abbrev with_queue : List LockRequest → LockManager
with_queue q = record {
  txns = λ _. record {
    state = growing;
    isolation_level = repeatable_read;
    shared_lock_set = λ _. false;
    exclusive_lock_set = λ _. false;
  };
  registered = λ _. true;
  lock_table = λ r. record { request_queue = if rid_eq r row then q else []; upgrading = none };
}

-- Transaction 5 holds the record exclusively; 3 is older and 7 is younger.
abbrev held : LockManager
held = with_queue (request 5 exclusive ∷ [])

-- Transaction 1 shares the record, 2 waits for it exclusively, and 3 shares it too.
abbrev crowded : LockManager
crowded = with_queue (
    request 1 shared
    ∷ record { txn_id = 2; lock_mode = exclusive; granted = false }
    ∷ request 3 shared
    ∷ [])

lock_exclusive-ExclusiveGrant_example :
    Grants.ExclusiveGrant held (lock_exclusive held 3 row).0 3 row
unfolding lock_exclusive has_request
lock_exclusive-ExclusiveGrant_example =
    Grants.lock_exclusive-ExclusiveGrant held (lock_exclusive held 3 row).0 3 row refl refl refl

abbrev past_growing : LockManager
past_growing = record held {
  txns = λ t. record (held.txns t) { state = if t == 5 then shrinking else growing };
}

abbrev wounded_early : LockManager
wounded_early = record (with_queue []) {
  txns = λ t. record ((with_queue []).txns t) { state = aborted };
}

lock_upgrade-Upgrade_example : Upgrades.Upgrade crowded (lock_upgrade crowded 1 row).0 1 row
unfolding lock_upgrade has_request
lock_upgrade-Upgrade_example =
    Upgrades.lock_upgrade-Upgrade crowded (lock_upgrade crowded 1 row).0 1 row refl refl refl

abbrev holding : LockManager
holding = record held {
  txns = λ t. record (held.txns t) { exclusive_lock_set = λ r. rid_eq r row && t == 5 };
}

unlock-Unlocks_example :
    ((unlock holding 5 row).1 ≡ (
      ((holding.txns 5).shared_lock_set row || (holding.txns 5).exclusive_lock_set row)
      && has_request 5 (holding.lock_table row).request_queue))
    × ((unlock holding 5 row).1 ≡ true → Upgrades.Unlocks holding (unlock holding 5 row).0 5 row)
unlock-Unlocks_example = Upgrades.unlock-Unlocks holding 5 row
