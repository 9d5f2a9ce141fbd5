-- ===== src/TransactionManager/Locks.antt =====
-- The locks that a transaction's end releases.
use disk_oriented_concurrenc.Base.{
  ℕ, ◌≡◌, ◌≢◌, refl, ap, ◌∙◌, Bool, true, false, ◌||◌, List, [], ◌∷◌, arith, Bool-cases, inl, inr,
}
use disk_oriented_concurrenc.Transaction.{Rid, rid_eq, rid_eq_refl, rid_eq_sound, is_growing}
use disk_oriented_concurrenc.LockManager.{LockManager, unlock, has_request, dequeue, unlocked}
use disk_oriented_concurrenc.TransactionManager.{release_locks}

-- Whether the transaction has the record in one of its sets.
abbrev pub holds : LockManager → ℕ → Rid → Bool
holds m t r = (m.txns t).shared_lock_set r || (m.txns t).exclusive_lock_set r

-- Whether a list has the record.
abbrev pub lists : List Rid → Rid → Bool
lists [] r = false
lists (x ∷ xs) r = rid_eq r x || lists xs r

-- Every record that the transaction holds has a request of it in its queue.
abbrev pub Queued : LockManager → ℕ → Type 0
Queued m t = (r : Rid) → holds m t r ≡ true → has_request t (m.lock_table r).request_queue ≡ true

-- What one manager of locks, after a transaction's unlocks, has in common with the one before.
pub record Released (m m' : LockManager) (t : ℕ) : Type 0 where
  pub fewer : (r : Rid) → holds m t r ≡ false → holds m' t r ≡ false
  pub queued :
      (r : Rid)
      → holds m' t r ≡ true
      → has_request t (m.lock_table r).request_queue ≡ true
      → has_request t (m'.lock_table r).request_queue ≡ true
  pub state : is_growing (m.txns t).state ≡ false → (m'.txns t).state ≡ (m.txns t).state
  pub others : (u : ℕ) → u ≢ t → m'.txns u ≡ m.txns u

pub unlock-Released : (m : LockManager) (t : ℕ) (rid : Rid) → Released m (unlock m t rid).0 t
unfolding unlock dequeue unlocked
unlock-Released m t rid = record {
  fewer = λ r e. ground arith;
  queued = λ r e q. ground arith;
  state = λ e. ground arith;
  others = λ u ne. ground arith;
}

-- A record that is held and queued is not held after its unlock.
unlock-holds :
    (m : LockManager) (t : ℕ) (rid r : Rid)
    → Queued m t
    → rid_eq r rid ≡ true
    → holds (unlock m t rid).0 t r ≡ false
unfolding unlock dequeue unlocked
unlock-holds m t rid r q e =
    let w = q rid in let s = rid_eq_sound r rid e in ground (arith, w, s, rid_eq_refl rid)

pub Released-Queued : (m m' : LockManager) (t : ℕ) → Released m m' t → Queued m t → Queued m' t
Released-Queued m m' t u q r h = elim (Bool-cases (holds m t r)) [
  | inl e ↦ u.queued r h (q r e)
  | inr e ↦ let f = u.fewer r e in absurd (ground (arith, f, h))
]

held_before :
    (m m' : LockManager) (t : ℕ) (r : Rid)
    → Released m m' t
    → holds m' t r ≡ true
    → holds m t r ≡ true
held_before m m' t r a e = elim (Bool-cases (holds m t r)) [
  | inl h ↦ h
  | inr h ↦ let f = a.fewer r h in absurd (ground (arith, f, e))
]

pub Released-trans :
    (m n o : LockManager) (t : ℕ) → Released m n t → Released n o t → Released m o t
Released-trans m n o t a b = record {
  fewer = λ r e. b.fewer r (a.fewer r e);
  queued = λ r e q. b.queued r e (a.queued r (held_before n o t r b e) q);
  state = λ e. let s = a.state e in b.state (ap is_growing s ∙ e) ∙ s;
  others = λ u ne. b.others u ne ∙ a.others u ne;
}

pub Released-refl : (m : LockManager) (t : ℕ) → Released m m t
Released-refl m t = record {
  fewer = λ r e. e;
  queued = λ r e q. q;
  state = λ e. refl;
  others = λ u ne. refl;
}

pub release_locks-Released :
    (m : LockManager) (t : ℕ) (order : List Rid) → Released m (release_locks m t order) t
unfolding release_locks
release_locks-Released m t [] = Released-refl m t
release_locks-Released m t (rid ∷ order) =
    let n = (unlock m t rid).0 in
    Released-trans m n (release_locks n t order) t (unlock-Released m t rid)
      (release_locks-Released n t order)

-- Every record of the list is let go.
pub release_locks-holds :
    (m : LockManager) (t : ℕ) (order : List Rid) (r : Rid)
    → Queued m t
    → (holds m t r ≡ true → lists order r ≡ true)
    → holds (release_locks m t order) t r ≡ false
unfolding release_locks
release_locks-holds m t [] r q l = ground (arith, l)
release_locks-holds m t (rid ∷ order) r q l =
    let n = (unlock m t rid).0 in
    let u = unlock-Released m t rid in
    release_locks-holds n t order r (Released-Queued m n t u q) (λ h.
      elim (Bool-cases (rid_eq r rid)) [
        | inl e ↦ let f = unlock-holds m t rid r q e in absurd (ground (arith, f, h))
        | inr e ↦ elim (Bool-cases (holds m t r)) [
          | inl g ↦ let k = l g in ground (arith, k, e)
          | inr g ↦ let f = u.fewer r g in absurd (ground (arith, f, h))
        ]
      ])
