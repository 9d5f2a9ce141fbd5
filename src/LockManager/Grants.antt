-- ===== src/LockManager/Grants.antt =====
-- When `LockShared` and `LockExclusive` grant, wait and refuse.
use disk_oriented_concurrenc.Base.{
  ℕ, ◌≡◌, ◌<◌, refl, Bool, true, false, some, List, [], ◌∷◌, ◌++◌, arith, update, ◌⊎◌, inl, inr,
  Option-cases, subst,
}
use disk_oriented_concurrenc.Transaction.{Rid, rid_eq_refl, growing, emplace}
use disk_oriented_concurrenc.LockManager.{
  LockManager, LockMode, shared, exclusive, LockRequest, Attempt, returns, waits, set_state,
  set_queue, scan, back_mode, need_wait_from, need_wait, grant, try_lock, enter_shared,
  request_shared, enter_exclusive, request_exclusive, enqueue, lock_shared, lock_exclusive,
  has_request,
}
use disk_oriented_concurrenc.LockManager.Wounds.{
  OnlyAborts, ahead, AllWounded, SomeOlder, scan-Scans, AllWounded-kept, OnlyAborts-refl,
}

abbrev own : ℕ → LockMode → LockRequest
own t mode = record { txn_id = t; lock_mode = mode; granted = false }

back_mode-snoc :
    (q : List LockRequest) (r : LockRequest) → back_mode (q ++ r ∷ []) ≡ some r.lock_mode
unfolding back_mode
back_mode-snoc [] r = refl
back_mode-snoc (x ∷ q) r = rw (back_mode-snoc q r)

ahead-snoc :
    (t : ℕ) (mode : LockMode) (q : List LockRequest)
    → has_request t q ≡ false
    → ahead t (q ++ own t mode ∷ []) ≡ q
unfolding has_request
ahead-snoc t mode [] h = ground arith
ahead-snoc t mode (r ∷ q) h = ground (arith, ahead-snoc t mode q)

-- What a finished scan for a new request says about the queue `q` ahead of it.
pub record Decides (m : LockManager) (t : ℕ) (mode : LockMode) (q : List LockRequest)
    (m' : LockManager) (wait : Bool) : Type 0 where
  pub aborts : OnlyAborts m m'
  pub self : m'.txns t ≡ m.txns t
  pub wounded : wait ≡ false → AllWounded m' t mode q
  pub older : wait ≡ true → SomeOlder t mode q

scan-Decides :
    (m : LockManager) (t : ℕ) (mode : LockMode) (q : List LockRequest) (m' : LockManager)
    (wait : Bool)
    → has_request t q ≡ false
    → scan m t mode (q ++ own t mode ∷ []) false ≡ some (m', wait)
    → Decides m t mode q m' wait
scan-Decides m t mode q m' wait h e =
    let s = scan-Scans m t mode (q ++ own t mode ∷ []) false m' wait e in
    let a = ahead-snoc t mode q h in
    record {
      aborts = s.aborts;
      self = s.self;
      wounded = λ k. subst (AllWounded m' t mode) a (s.wounded k).1;
      older = λ k. subst (SomeOlder t mode) a (grind (arith, s.older k));
    }

-- A new exclusive request looks at everything ahead of it.
pub need_wait-exclusive :
    (m : LockManager) (t : ℕ) (q : List LockRequest) (m' : LockManager) (wait : Bool)
    → has_request t q ≡ false
    → need_wait m t (q ++ own t exclusive ∷ []) ≡ some (m', wait)
    → Decides m t exclusive q m' wait
unfolding need_wait need_wait_from has_request
need_wait-exclusive m t [] m' wait h e =
    let same : m ≡ m' = ground arith in
    record {
      aborts = subst (OnlyAborts m) same (OnlyAborts-refl m);
      self = ground arith;
      wounded = λ _. tt;
      older = ground arith;
    }
need_wait-exclusive m t (r ∷ q) m' wait h e =
    scan-Decides m t exclusive (r ∷ q) m' wait h
      (ground (arith, back_mode-snoc (r ∷ q) (own t exclusive)))

-- A new shared request does so behind an exclusive head.
need_wait-shared :
    (m : LockManager) (t : ℕ) (r : LockRequest) (q : List LockRequest) (m' : LockManager)
    (wait : Bool)
    → has_request t (r ∷ q) ≡ false
    → r.lock_mode ≡ exclusive
    → need_wait m t (r ∷ q ++ own t shared ∷ []) ≡ some (m', wait)
    → Decides m t shared (r ∷ q) m' wait
unfolding need_wait need_wait_from has_request
need_wait-shared m t r q m' wait h x e =
    scan-Decides m t shared (r ∷ q) m' wait h
      (ground (arith, back_mode-snoc (r ∷ q) (own t shared)))

abbrev granted_state : LockManager → ℕ → Rid → LockManager
granted_state m t rid =
    set_state (set_queue m rid (grant t (m.lock_table rid).request_queue)) t growing

granted_state_lem :
    (m : LockManager) (t : ℕ) (rid : Rid)
    → (((granted_state m t rid).txns t).exclusive_lock_set ≡ (m.txns t).exclusive_lock_set)
      × (((granted_state m t rid).txns t).state ≡ growing)
      × ((u : ℕ) → t < u → (granted_state m t rid).txns u ≡ m.txns u)
      × (((granted_state m t rid).lock_table rid).request_queue
          ≡ grant t (m.lock_table rid).request_queue)
unfolding set_state set_queue
granted_state_lem m t rid =
    (ground arith, ground arith, λ u lt. ground arith, ground (arith, rid_eq_refl rid))

try_lock-granted :
    (m m' : LockManager) (t : ℕ) (rid : Rid)
    → try_lock m t rid ≡ (m', returns true)
    → (m₁ : LockManager) × (need_wait m t (m.lock_table rid).request_queue ≡ some (m₁, false))
      × (m' ≡ granted_state m₁ t rid)
unfolding try_lock
try_lock-granted m m' t rid e =
    elim (Option-cases (need_wait m t (m.lock_table rid).request_queue)) [
      | inl n ↦ absurd (ground arith)
      | inr ((m₁, w), n) ↦ (m₁, ground arith, ground arith)
    ]

try_lock-waits :
    (m m' : LockManager) (t : ℕ) (rid : Rid)
    → try_lock m t rid ≡ (m', waits)
    → need_wait m t (m.lock_table rid).request_queue ≡ some (m', true)
unfolding try_lock
try_lock-waits m m' t rid e = elim (Option-cases (need_wait m t (m.lock_table rid).request_queue)) [
  | inl n ↦ absurd (ground arith)
  | inr ((m₁, w), n) ↦ ground arith
]

-- The manager in which `LockExclusive` first tests whether to wait.
abbrev queued_exclusive : LockManager → ℕ → Rid → LockManager
queued_exclusive m t rid =
    let m' = enqueue m t rid exclusive in
    record m' {
      txns =
          update m'.txns t (record (m'.txns t) {
            exclusive_lock_set = emplace rid (m'.txns t).exclusive_lock_set;
          });
    }

request_exclusive-try_lock :
    (m : LockManager) (t : ℕ) (rid : Rid)
    → (request_exclusive m t rid ≡ try_lock (queued_exclusive m t rid) t rid)
      × (((queued_exclusive m t rid).lock_table rid).request_queue
          ≡ (m.lock_table rid).request_queue ++ own t exclusive ∷ [])
unfolding request_exclusive enqueue
request_exclusive-try_lock m t rid = (refl, ground (arith, rid_eq_refl rid))

lock_exclusive-proceeds :
    (m m' : LockManager) (t : ℕ) (rid : Rid) (a : Attempt)
    → (m.txns t).exclusive_lock_set rid ≡ false
    → (a ≡ returns true) ⊎ (a ≡ waits)
    → lock_exclusive m t rid ≡ (m', a)
    → request_exclusive m t rid ≡ (m', a)
unfolding lock_exclusive enter_exclusive
lock_exclusive-proceeds m m' t rid a x k e = ground arith

grant-snoc :
    (t : ℕ) (mode : LockMode) (q : List LockRequest)
    → has_request t q ≡ false
    → grant t (q ++ own t mode ∷ [])
      ≡ q ++ record { txn_id = t; lock_mode = mode; granted = true } ∷ []
unfolding grant has_request
grant-snoc t mode [] h = ground arith
grant-snoc t mode (r ∷ q) h = ground (arith, grant-snoc t mode q)

-- What a granted exclusive lock means.
pub record ExclusiveGrant (m m' : LockManager) (t : ℕ) (rid : Rid) : Type 0 where
  pub recorded : (m'.txns t).exclusive_lock_set rid ≡ true
  pub state : (m'.txns t).state ≡ growing
  pub wounded : AllWounded m' t exclusive (m.lock_table rid).request_queue
  pub queue :
      (m'.lock_table rid).request_queue
      ≡ (m.lock_table rid).request_queue
        ++ record { txn_id = t; lock_mode = exclusive; granted = true } ∷ []

-- A transaction that has no request in the record's queue and no exclusive lock on it, and is granted
-- one at once, has the record in its exclusive set, is growing, and finds only requests of younger,
-- aborted transactions ahead of its own. The queue then has the old requests, unchanged, and behind them
-- one of its own that is exclusive and granted.
pub lock_exclusive-ExclusiveGrant :
    (m m' : LockManager) (t : ℕ) (rid : Rid)
    → has_request t (m.lock_table rid).request_queue ≡ false
    → (m.txns t).exclusive_lock_set rid ≡ false
    → lock_exclusive m t rid ≡ (m', returns true)
    → ExclusiveGrant m m' t rid
lock_exclusive-ExclusiveGrant m m' t rid h x e =
    let m₀ = queued_exclusive m t rid in
    let q = (m.lock_table rid).request_queue in
    let (run, tail) = request_exclusive-try_lock m t rid in
    let e' : try_lock m₀ t rid ≡ (m', returns true) =
      rw (← run) (lock_exclusive-proceeds m m' t rid _ x (inl refl) e) in
    let (m₁, n, done) = try_lock-granted m₀ m' t rid e' in
    let d = need_wait-exclusive m₀ t q m₁ false h (rw tail at n) in
    let g = granted_state_lem m₁ t rid in
    record {
      recorded = ground (arith, done, g.0, d.self, rid_eq_refl rid);
      state = ground (arith, done, g.1);
      wounded =
          AllWounded-kept m₁ m' t exclusive q (λ u lt. ground (arith, done, g.2 u))
            (d.wounded refl);
      queue = ground (arith, done, g.3, d.aborts.table, tail, grant-snoc t exclusive q h);
    }

-- The first exclusive request of a transaction for a record waits only behind a request of an older
-- transaction.
pub lock_exclusive-waits :
    (m m' : LockManager) (t : ℕ) (rid : Rid)
    → has_request t (m.lock_table rid).request_queue ≡ false
    → (m.txns t).exclusive_lock_set rid ≡ false
    → lock_exclusive m t rid ≡ (m', waits)
    → SomeOlder t exclusive (m.lock_table rid).request_queue
lock_exclusive-waits m m' t rid h x e =
    let m₀ = queued_exclusive m t rid in
    let (run, tail) = request_exclusive-try_lock m t rid in
    let e' : try_lock m₀ t rid ≡ (m', waits) =
      rw (← run) (lock_exclusive-proceeds m m' t rid _ x (inr refl) e) in
    (need_wait-exclusive m₀ t (m.lock_table rid).request_queue m' true h
        (rw tail at (try_lock-waits m₀ m' t rid e'))).older
      refl

-- The manager in which `LockShared` first tests whether to wait.
abbrev queued_shared : LockManager → ℕ → Rid → LockManager
queued_shared m t rid =
    let m' = enqueue m t rid shared in
    record m' {
      txns =
          update m'.txns t
            (record (m'.txns t) { shared_lock_set = emplace rid (m'.txns t).shared_lock_set });
    }

request_shared-try_lock :
    (m : LockManager) (t : ℕ) (rid : Rid)
    → (request_shared m t rid ≡ try_lock (queued_shared m t rid) t rid)
      × (((queued_shared m t rid).lock_table rid).request_queue
          ≡ (m.lock_table rid).request_queue ++ own t shared ∷ [])
unfolding request_shared enqueue
request_shared-try_lock m t rid = (refl, ground (arith, rid_eq_refl rid))

lock_shared-proceeds :
    (m m' : LockManager) (t : ℕ) (rid : Rid) (a : Attempt)
    → (m.txns t).shared_lock_set rid ≡ false
    → (a ≡ returns true) ⊎ (a ≡ waits)
    → lock_shared m t rid ≡ (m', a)
    → request_shared m t rid ≡ (m', a)
unfolding lock_shared enter_shared
lock_shared-proceeds m m' t rid a x k e = ground arith

-- Behind an exclusive head, a transaction that has no request in the queue and no shared lock on the
-- record is granted one at once only if every exclusive request ahead belongs to a younger, aborted
-- transaction.
pub lock_shared-wounded :
    (m m' : LockManager) (t : ℕ) (rid : Rid) (r : LockRequest) (q : List LockRequest)
    → (m.lock_table rid).request_queue ≡ r ∷ q
    → r.lock_mode ≡ exclusive
    → has_request t (r ∷ q) ≡ false
    → (m.txns t).shared_lock_set rid ≡ false
    → lock_shared m t rid ≡ (m', returns true)
    → AllWounded m' t shared (r ∷ q)
lock_shared-wounded m m' t rid r q front x h k e =
    let m₀ = queued_shared m t rid in
    let (run, tail) = request_shared-try_lock m t rid in
    let e' : try_lock m₀ t rid ≡ (m', returns true) =
      rw (← run) (lock_shared-proceeds m m' t rid _ k (inl refl) e) in
    let (m₁, n, done) = try_lock-granted m₀ m' t rid e' in
    let whole : (m₀.lock_table rid).request_queue ≡ r ∷ q ++ own t shared ∷ [] =
      ground (arith, tail) in
    let d = need_wait-shared m₀ t r q m₁ false h x (rw whole at n) in
    let g = granted_state_lem m₁ t rid in
    AllWounded-kept m₁ m' t shared (r ∷ q) (λ u lt. ground (arith, done, g.2 u)) (d.wounded refl)
