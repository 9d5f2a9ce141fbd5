-- ===== src/LockManager/Upgrades.antt =====
-- `LockUpgrade` and `Unlock`.
use disk_oriented_concurrenc.Base.{
  ℕ, ◌≡◌, ◌<◌, ◌≢◌, refl, true, false, ◌&&◌, ◌||◌, some, List, ◌∷◌, arith, if◌then◌else◌, inl, inr,
  Option-cases, Bool-cases, subst, ap, [], ◌++◌, false, ◌==◌,
}
use disk_oriented_concurrenc.Transaction.{
  Rid, rid_eq, rid_eq_refl, shrinking, is_growing, is_repeatable_read,
}
use disk_oriented_concurrenc.LockManager.{
  LockManager, exclusive, LockRequest, returns, need_wait_update, lock_upgrade, enter_upgrade,
  try_upgrade, record_upgrade, has_request, unlock, dequeue, erase_request, unlocked,
}
use disk_oriented_concurrenc.LockManager.Wounds.{
  ahead, AllWounded, scan-Scans, AllWounded-kept, need_wait_update-scan,
}

-- What a successful upgrade does.
pub record Upgrade (m m' : LockManager) (t : ℕ) (rid : Rid) : Type 0 where
  pub recorded : (m'.txns t).exclusive_lock_set rid ≡ true
  pub moved : (m'.txns t).shared_lock_set rid ≡ false
  pub wounded : AllWounded m' t exclusive (ahead t (m.lock_table rid).request_queue)
  pub table : m'.lock_table ≡ m.lock_table

try_upgrade-true :
    (m m' : LockManager) (t : ℕ) (rid : Rid)
    → try_upgrade m t rid ≡ (m', returns true)
    → (m₁ : LockManager) × (need_wait_update m t (m.lock_table rid).request_queue false
        ≡ some (m₁, false))
      × (m' ≡ record_upgrade m₁ t rid)
unfolding try_upgrade
try_upgrade-true m m' t rid e =
    elim (Option-cases (need_wait_update m t (m.lock_table rid).request_queue false)) [
      | inl n ↦ absurd (ground arith)
      | inr ((m₁, w), n) ↦ (m₁, ground arith, ground arith)
    ]

record_upgrade_lem :
    (m : LockManager) (t : ℕ) (rid : Rid)
    → has_request t (m.lock_table rid).request_queue ≡ true
    → (((record_upgrade m t rid).txns t).exclusive_lock_set rid ≡ true)
      × (((record_upgrade m t rid).txns t).shared_lock_set rid ≡ false)
      × ((u : ℕ) → t < u → (record_upgrade m t rid).txns u ≡ m.txns u)
      × ((record_upgrade m t rid).lock_table ≡ m.lock_table)
unfolding record_upgrade
record_upgrade_lem m t rid h = (
  ground (arith, rid_eq_refl rid),
  ground (arith, rid_eq_refl rid),
  λ u lt. ground arith,
  ground arith,
)

upgrade-proceeds :
    (m m' : LockManager) (t : ℕ) (rid : Rid)
    → (m.txns t).exclusive_lock_set rid ≡ false
    → lock_upgrade m t rid ≡ (m', returns true)
    → try_upgrade m t rid ≡ (m', returns true)
unfolding lock_upgrade enter_upgrade
upgrade-proceeds m m' t rid x e = ground arith

-- A transaction that has a request in the queue and no exclusive lock, and is granted an upgrade at once holds the record
-- exclusively in its own sets, finds only requests of younger, aborted transactions ahead, and
-- leaves the lock table as it was, the mode of its own request included.
pub lock_upgrade-Upgrade :
    (m m' : LockManager) (t : ℕ) (rid : Rid)
    → has_request t (m.lock_table rid).request_queue ≡ true
    → (m.txns t).exclusive_lock_set rid ≡ false
    → lock_upgrade m t rid ≡ (m', returns true)
    → Upgrade m m' t rid
lock_upgrade-Upgrade m m' t rid h x e =
    let (m₁, n, done) = try_upgrade-true m m' t rid (upgrade-proceeds m m' t rid x e) in
    let q = (m.lock_table rid).request_queue in
    let s =
      scan-Scans m t exclusive q false m₁ false (rw (need_wait_update-scan m t q false) at n) in
    let g = record_upgrade_lem m₁ t rid (rw (s.aborts.table) h) in
    record {
      recorded = ground (arith, done, g.0);
      moved = ground (arith, done, g.1);
      wounded =
          AllWounded-kept m₁ m' t exclusive (ahead t q) (λ u lt. ground (arith, done, g.2 u))
            ((s.wounded refl).1);
      table = ground (arith, done, g.3, s.aborts.table);
    }

-- One queue is the other without the first request of the transaction, which it has.
pub record DropsFirst (t : ℕ) (q q' : List LockRequest) : Type 0 where
  pub front : List LockRequest
  pub dropped : LockRequest
  pub back : List LockRequest
  pub before : q ≡ front ++ dropped ∷ back
  pub own : dropped.txn_id ≡ t
  pub first : has_request t front ≡ false
  pub after : q' ≡ front ++ back

erase_request-DropsFirst :
    (t : ℕ) (q : List LockRequest) → has_request t q ≡ true → DropsFirst t q (erase_request t q)
unfolding has_request erase_request
erase_request-DropsFirst t [] h = absurd (ground arith)
erase_request-DropsFirst t (r ∷ q) h = elim (Bool-cases (r.txn_id == t)) [
  | inl e ↦ record {
    front = [];
    dropped = r;
    back = q;
    before = refl;
    own = ground arith;
    first = refl;
    after = ground arith;
  }
  | inr e ↦
      let d = erase_request-DropsFirst t q (ground arith) in
      record {
        front = r ∷ d.front;
        dropped = d.dropped;
        back = d.back;
        before = ap (λ l. r ∷ l) (d.before);
        own = d.own;
        first = let f = d.first in ground arith;
        after = let a = d.after in ground arith;
      }
]

-- What a successful unlock does.
pub record Unlocks (m m' : LockManager) (t : ℕ) (rid : Rid) : Type 0 where
  pub queue : DropsFirst t (m.lock_table rid).request_queue (m'.lock_table rid).request_queue
  pub shared_gone : (m'.txns t).shared_lock_set rid ≡ false
  pub exclusive_gone : (m'.txns t).exclusive_lock_set rid ≡ false
  pub state : (m'.txns t).state ≡ (
      if is_growing (m.txns t).state && is_repeatable_read (m.txns t).isolation_level
      then shrinking
      else (m.txns t).state)
  pub others : (u : ℕ) → u ≢ t → m'.txns u ≡ m.txns u
  pub elsewhere : (r : Rid) → rid_eq r rid ≡ false → m'.lock_table r ≡ m.lock_table r

-- `Unlock` succeeds exactly when the transaction has the record in one of its sets and a request in
-- the queue. It then takes its first request out of the queue and the record out of both sets, and a growing
-- transaction under repeatable read starts to shrink; other transactions and records are unchanged.
pub unlock-Unlocks :
    (m : LockManager) (t : ℕ) (rid : Rid)
    → ((unlock m t rid).1 ≡ (
        ((m.txns t).shared_lock_set rid || (m.txns t).exclusive_lock_set rid)
        && has_request t (m.lock_table rid).request_queue))
      × ((unlock m t rid).1 ≡ true → Unlocks m (unlock m t rid).0 t rid)
unfolding unlock dequeue unlocked
unlock-Unlocks m t rid = (
  ground arith,
  λ h. record {
    queue =
        subst (DropsFirst t (m.lock_table rid).request_queue) (ground (arith, rid_eq_refl rid))
          (erase_request-DropsFirst t (m.lock_table rid).request_queue (ground arith));
    shared_gone = ground (arith, rid_eq_refl rid);
    exclusive_gone = ground (arith, rid_eq_refl rid);
    state = ground arith;
    others = λ u ne. ground arith;
    elsewhere = λ r ne. ground arith;
  },
)
