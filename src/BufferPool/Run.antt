-- ===== src/BufferPool/Run.antt =====
-- Sequences of calls on a buffer pool, with the client's writes into pinned pages between them.
use disk_oriented_concurrenc.Base.{
  ℕ, ◌+◌, ◌<◌, ◌≡◌, refl, Bool, Option, none, some, List, [], ◌∷◌, arith, lookup, lookup-insert,
  lookup-erase, update, Option-cases, Bool-cases, inl, inr, ltb, ◌==◌,
}
use disk_oriented_concurrenc.DiskManager.{Data, DiskManager}
use disk_oriented_concurrenc.BufferPool.{
  BufferPool, Outcome, done, aborted, fresh, new_pg, fetch_pg, fetch_in, delete_pg, unpin_pg,
  flush_pg, flush_all_pgs, release_frame, pin_page, install, take_frame,
}
use disk_oriented_concurrenc.BufferPool.Invariant.{Inv, touch-Inv, Takes, take_frame-Takes}
use disk_oriented_concurrenc.BufferPool.Preserves.{
  fresh-Inv, fetch_pg-Inv, delete_pg-Inv, unpin_pg-Inv, flush_pg-Inv, flush_all_pgs-Inv,
}
use disk_oriented_concurrenc.BufferPool.Allocation.{Ids, fresh-Ids, new_pg_lem}

pub data Call : Type 0 where
  news flushes_all : Call
  fetches deletes flushes : ℕ → Call
  unpins : ℕ → Bool → Call
  writes : ℕ → Data → Call

-- A client writes into a page through the pointer that it was given.
unfoldable pub write_data : BufferPool → ℕ → Data → BufferPool
write_data b frame_id content = record b {
  pages = update b.pages frame_id (record (b.pages frame_id) { content = content });
}

unfoldable pub state_of : Outcome (BufferPool × Option (ℕ × ℕ)) → Outcome BufferPool
state_of (done (b, r)) = done b
state_of aborted = aborted

unfoldable pub step : BufferPool → Call → Outcome BufferPool
unfolding write_data state_of
step b news = state_of (new_pg b)
step b flushes_all = done (flush_all_pgs b)
step b (fetches p) = done (fetch_pg b p).0
step b (deletes p) = done (delete_pg b p).0
step b (flushes p) = done (flush_pg b p).0
step b (unpins p d) = done (unpin_pg b p d).0
step b (writes f x) = done (write_data b f x)

infixl 5 ◌>>=◌
abbrev pub ◌>>=◌ {ℓ κ} : {A : Type ℓ} {B : Type κ} → Outcome A → (A → Outcome B) → Outcome B
done a >>= f = f a
aborted >>= f = aborted

unfoldable pub run : BufferPool → List Call → Outcome BufferPool
run b [] = done b
run b (c ∷ cs) = do b' ← step b c; run b' cs

-- A client fetches only ids that were handed out, and the id counter does not wrap.
abbrev pub Allowed : BufferPool → Call → Type 0
Allowed b news = b.next_page_id + b.num_instances < 4294967296
Allowed b (fetches p) = p < b.next_page_id
Allowed b _ = Unit {0}

abbrev pub OnDone {ℓ} : {A : Type ℓ} → (A → Type 0) → Outcome A → Type 0
OnDone P (done a) = P a
OnDone P aborted = Unit {0}

unfoldable pub AllowedRun : BufferPool → List Call → Type 0
AllowedRun b [] = Unit {0}
AllowedRun b (c ∷ cs) = Allowed b c × OnDone (λ b'. AllowedRun b' cs) (step b c)

abbrev pub Well : BufferPool → Type 0
Well b = Inv b × Ids b

-- An operation keeps the ids in order if it adds no page to the table and leaves the counter.
Ids-kept :
    (b b' : BufferPool)
    → Ids b
    → b'.next_page_id ≡ b.next_page_id
    → b'.num_instances ≡ b.num_instances
    → b'.instance_index ≡ b.instance_index
    → ((q f : ℕ) → lookup q b'.page_table ≡ some f → q < b.next_page_id)
    → Ids b'
Ids-kept b b' i n m x t = record {
  positive = ground (arith, i.positive);
  routed = rw (n, m, x) i.routed;
  issued = λ q f e. rw n (t q f e);
}

fetch_in-Ids :
    (b : BufferPool) (p : ℕ) (w : BufferPool × Option ℕ)
    → Ids b
    → p < b.next_page_id
    → Takes b w
    → Ids (fetch_in p w).0
unfolding fetch_in install
fetch_in-Ids b p (b', none) i h t = rw (t.same) i
fetch_in-Ids b p (b', some f) i h t =
    Ids-kept b _ i t.next t.num t.index
      (λ q g. ground (arith, lookup-insert p q f b'.page_table, t.was q g, i.issued q g))

fetch_pg-Ids : (b : BufferPool) (p : ℕ) → Inv b → Ids b → p < b.next_page_id → Ids (fetch_pg b p).0
unfolding fetch_pg pin_page
fetch_pg-Ids b p v i h = elim (Option-cases (lookup p b.page_table)) [
  | inl e ↦ rw (e, fetch_pg) (fetch_in-Ids b p (take_frame b) i h (take_frame-Takes b v))
  | inr (f, e) ↦ rw (e, fetch_pg) (Ids-kept b _ i refl refl refl i.issued)
]

delete_pg-Ids : (b : BufferPool) (p : ℕ) → Ids b → Ids (delete_pg b p).0
unfolding delete_pg release_frame
delete_pg-Ids b p i = elim (Option-cases (lookup p b.page_table)) [
  | inl e ↦ rw (e, delete_pg) i
  | inr (f, e) ↦ elim (Bool-cases (ltb 0 (b.pages f).pin_count)) [
    | inl h ↦ rw (e, delete_pg, h) i
    | inr h ↦
        rw (e, delete_pg, h)
          (Ids-kept b _ i refl refl refl
            (λ q g. ground (arith, lookup-erase (b.pages f).page_id q b.page_table, i.issued q g)))
  ]
]

flush_pg-Ids : (b : BufferPool) (p : ℕ) → Ids b → Ids (flush_pg b p).0
unfolding flush_pg
flush_pg-Ids b p i = ground (arith, i.positive, i.routed, i.issued)

unpin_pg-Ids : (b : BufferPool) (p : ℕ) (d : Bool) → Ids b → Ids (unpin_pg b p d).0
unfolding unpin_pg
unpin_pg-Ids b p d i = elim (Option-cases (lookup p b.page_table)) [
  | inl e ↦ rw (e, unpin_pg) i
  | inr (f, e) ↦ elim (Bool-cases ((b.pages f).pin_count == 0)) [
    | inl h ↦ rw (e, unpin_pg, h) i
    | inr h ↦ rw (e, unpin_pg, h) (Ids-kept b _ i refl refl refl i.issued)
  ]
]

-- One call.
step-Well :
    (b : BufferPool) (c : Call)
    → Well b
    → Allowed b c
    → (b' : BufferPool) × (step b c ≡ done b') × Well b'
unfolding step write_data flush_all_pgs
step-Well b news (v, i) a = let (b', r, e, v', i', _) = new_pg_lem b v i a in (b', rw e, (v', i'))
step-Well b flushes_all (v, i) a =
    (_, refl, (flush_all_pgs-Inv b v, Ids-kept b _ i refl refl refl i.issued))
step-Well b (fetches p) (v, i) a = (_, refl, (fetch_pg-Inv b p v, fetch_pg-Ids b p v i a))
step-Well b (deletes p) (v, i) a = (_, refl, (delete_pg-Inv b p v, delete_pg-Ids b p i))
step-Well b (flushes p) (v, i) a = (_, refl, (flush_pg-Inv b p v, flush_pg-Ids b p i))
step-Well b (unpins p d) (v, i) a = (_, refl, (unpin_pg-Inv b p d v, unpin_pg-Ids b p d i))
step-Well b (writes f x) (v, i) a = (
  _,
  refl,
  (
    touch-Inv b f (record (b.pages f) { content = x }) v refl refl,
    Ids-kept b _ i refl refl refl i.issued,
  ),
)

run-Well :
    (b : BufferPool) (cs : List Call)
    → Well b
    → AllowedRun b cs
    → (b' : BufferPool) × (run b cs ≡ done b') × Well b'
unfolding run AllowedRun
run-Well b [] w a = (b, refl, w)
run-Well b (c ∷ cs) w a =
    let (b₁, e, w₁) = step-Well b c w a.0 in
    let (b', e', w') = run-Well b₁ cs w₁ (rw e at a.1) in (b', rw e e', w')

-- From a fresh pool of any size and any instance, every sequence of calls in which the client fetches
-- only ids that were handed out, and the id counter does not wrap, runs through without a failed
-- assertion, and ends in a well-formed pool whose next id belongs to the instance.
pub run-fresh-Well :
    (size num index : ℕ) (d : DiskManager) (cs : List Call)
    → index < num
    → AllowedRun (fresh size num index d) cs
    → (b' : BufferPool) × (run (fresh size num index d) cs ≡ done b') × Well b'
run-fresh-Well size num index d cs h a =
    run-Well (fresh size num index d) cs (fresh-Inv size num index d, fresh-Ids size num index d h)
      a
