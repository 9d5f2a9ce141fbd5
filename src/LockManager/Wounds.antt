-- ===== src/LockManager/Wounds.antt =====
-- Wound-wait: what the scans of `NeedWait` and `NeedWaitUpdate` do to the transactions ahead.
use disk_oriented_concurrenc.Base.{
  ℕ, ◌≡◌, ◌<◌, ◌≢◌, refl, Bool, true, false, ◌||◌, some, List, [], ◌∷◌, arith, ltb, ◌==◌,
  if◌then◌else◌, ◌⊎◌, inl, inr, Bool-cases, subst,
}
use disk_oriented_concurrenc.Transaction.{aborted, is_aborted}
use disk_oriented_concurrenc.LockManager.{
  LockManager, LockMode, exclusive, is_exclusive, LockRequest, set_state, wound, scan,
  need_wait_update,
}

-- Between two managers, transactions may only have been aborted; the lock table is the same.
pub record OnlyAborts (m m' : LockManager) : Type 0 where
  pub table : m'.lock_table ≡ m.lock_table
  pub registry : m'.registered ≡ m.registered
  pub states :
      (u : ℕ) → (m'.txns u ≡ m.txns u) ⊎ (m'.txns u ≡ record (m.txns u) { state = aborted })
  pub stay : (u : ℕ) → is_aborted (m.txns u).state ≡ true → is_aborted (m'.txns u).state ≡ true

pub OnlyAborts-refl : (m : LockManager) → OnlyAborts m m
OnlyAborts-refl m = record {
  table = refl;
  registry = refl;
  states = λ u. inl refl;
  stay = λ u h. h;
}

OnlyAborts-trans : (a b c : LockManager) → OnlyAborts a b → OnlyAborts b c → OnlyAborts a c
OnlyAborts-trans a b c h k = record {
  table = ground (arith, h.table, k.table);
  registry = ground (arith, h.registry, k.registry);
  states = λ u. ground (arith, h.states u, k.states u);
  stay = λ u e. k.stay u (h.stay u e);
}

wound-OnlyAborts :
    (m : LockManager) (t : ℕ)
    → OnlyAborts m (wound m t) × (is_aborted ((wound m t).txns t).state ≡ true)
unfolding wound set_state
wound-OnlyAborts m t = elim (Bool-cases (is_aborted (m.txns t).state)) [
  | inl h ↦ rw (h, wound) (OnlyAborts-refl m, h)
  | inr h ↦
      rw (h, wound)
        (
          record {
            table = refl;
            registry = refl;
            states = λ u. ground arith;
            stay = λ u. ground arith;
          },
          ground arith,
        )
]

wound_other : (m : LockManager) (t u : ℕ) → t ≢ u → (wound m t).txns u ≡ m.txns u
unfolding wound set_state
wound_other m t u h = ground arith

-- The requests before the transaction's own.
abbrev pub ahead : ℕ → List LockRequest → List LockRequest
ahead t [] = []
ahead t (r ∷ rest) = if r.txn_id == t then [] else r ∷ ahead t rest

abbrev pub conflicts : LockMode → LockRequest → Bool
conflicts mode r = is_exclusive mode || is_exclusive r.lock_mode

-- Every conflicting request of the list belongs to a younger, aborted transaction.
abbrev pub AllWounded : LockManager → ℕ → LockMode → List LockRequest → Type 0
AllWounded m t mode [] = Unit {0}
AllWounded m t mode (r ∷ rest) =
    (conflicts mode r ≡ true → (t < r.txn_id) × (is_aborted (m.txns r.txn_id).state ≡ true))
    × AllWounded m t mode rest

-- Some conflicting request of the list belongs to an older transaction.
abbrev pub SomeOlder : ℕ → LockMode → List LockRequest → Type 0
SomeOlder t mode [] = ⊥
SomeOlder t mode (r ∷ rest) = ((conflicts mode r ≡ true) × (r.txn_id < t)) ⊎ SomeOlder t mode rest

pub record Scans (m : LockManager) (t : ℕ) (mode : LockMode) (q : List LockRequest) (w : Bool)
    (m' : LockManager) (wait : Bool) : Type 0 where
  pub aborts : OnlyAborts m m'
  pub self : m'.txns t ≡ m.txns t
  pub wounded : wait ≡ false → (w ≡ false) × AllWounded m' t mode (ahead t q)
  pub older : wait ≡ true → (w ≡ true) ⊎ SomeOlder t mode (ahead t q)

pub scan-Scans :
    (m : LockManager) (t : ℕ) (mode : LockMode) (q : List LockRequest) (w : Bool) (m' : LockManager)
    (wait : Bool)
    → scan m t mode q w ≡ some (m', wait)
    → Scans m t mode q w m' wait
unfolding scan
scan-Scans m t mode [] w m' wait e = ground arith
scan-Scans m t mode (r ∷ rest) w m' wait e = elim (Bool-cases (r.txn_id == t)) [
  | inl own ↦
      let same : m ≡ m' = ground arith in
      record {
        aborts = subst (OnlyAborts m) same (OnlyAborts-refl m);
        self = ground arith;
        wounded = ground arith;
        older = ground arith;
      }
  | inr other ↦ elim (Bool-cases (ltb t r.txn_id)) [
    | inl younger ↦ elim (Bool-cases (conflicts mode r)) [
      | inl conflict ↦
          let ih = scan-Scans (wound m r.txn_id) t mode rest w m' wait (ground arith) in
          let (wo, dead) = wound-OnlyAborts m r.txn_id in
          record {
            aborts = OnlyAborts-trans m (wound m r.txn_id) m' wo ih.aborts;
            self = ground (arith, ih.self, wound_other m r.txn_id t);
            wounded = λ h. ground (arith, ih.wounded h, ih.aborts.stay r.txn_id dead);
            older = λ h. ground (arith, ih.older h);
          }
      | inr free ↦
          let ih = scan-Scans m t mode rest w m' wait (ground arith) in
          record {
            aborts = ih.aborts;
            self = ih.self;
            wounded = λ h. ground (arith, ih.wounded h);
            older = λ h. ground (arith, ih.older h);
          }
    ]
    | inr older ↦
        let ih = scan-Scans m t mode rest (w || conflicts mode r) m' wait (ground arith) in
        record {
          aborts = ih.aborts;
          self = ih.self;
          wounded = λ h. ground (arith, ih.wounded h);
          older = λ h. ground (arith, ih.older h);
        }
  ]
]

-- `NeedWaitUpdate` scans as `NeedWait` does for an exclusive request.
pub need_wait_update-scan :
    (m : LockManager) (t : ℕ) (q : List LockRequest) (w : Bool)
    → need_wait_update m t q w ≡ scan m t exclusive q w
unfolding scan need_wait_update
need_wait_update-scan m t [] w = refl
need_wait_update-scan m t (r ∷ rest) w =
    ground (
      arith,
      need_wait_update-scan (wound m r.txn_id) t rest w,
      need_wait_update-scan m t rest true,
    )

-- The wounded stay wounded while transactions other than `t` keep their states.
pub AllWounded-kept :
    (m m' : LockManager) (t : ℕ) (mode : LockMode) (q : List LockRequest)
    → ((u : ℕ) → t < u → (m'.txns u).state ≡ (m.txns u).state)
    → AllWounded m t mode q
    → AllWounded m' t mode q
AllWounded-kept m m' t mode [] k h = tt
AllWounded-kept m m' t mode (r ∷ rest) k h =
    (λ c. ground (arith, h.0 c, k r.txn_id), AllWounded-kept m m' t mode rest k h.1)
