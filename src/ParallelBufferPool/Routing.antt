-- ===== src/ParallelBufferPool/Routing.antt =====
-- `NewPgImp` of the parallel manager: page ids find their instance again, and every instance is tried.
use disk_oriented_concurrenc.Base.{
  ℕ, zero, suc, ◌+◌, ◌%◌, ◌≤◌, ◌<◌, ◌≡◌, ◌≢◌, refl, sym, ◌∙◌, ap, Option, none, some, arith, ◌⊎◌,
  inl, inr, ltb, ◌==◌, lookup, Bool-cases, subst,
}
use native.Mathlib.Nat.{mod-eq_of_lt, mod_self}
use disk_oriented_concurrenc.DiskManager.{DiskManager}
use disk_oriented_concurrenc.BufferPool
use disk_oriented_concurrenc.BufferPool.{
  BufferPool, Outcome, done, aborted, new_in, allocate_page, install, validate_page_id, take_frame,
}
use disk_oriented_concurrenc.BufferPool.Invariant.{
  Inv, Takes, Resident, IsExhausted, other-Partial, take_frame-Takes,
}
use disk_oriented_concurrenc.BufferPool.Preserves.{fresh-Inv}
use disk_oriented_concurrenc.BufferPool.Allocation.{Ids, Created, NewResult, fresh-Ids, new_pg_lem}
use disk_oriented_concurrenc.ParallelBufferPool.{
  ParallelBufferPool, init, instance_at, manager_of, tag, fetch_pg, advance, new_rounds, new_pg,
}

-- The instance is well formed and hands out the page ids of its index.
pub record Serves (b : BufferPool) (n i : ℕ) : Type 0 where
  pub inv : Inv b
  pub ids : Ids b
  pub num : b.num_instances ≡ n
  pub index : b.instance_index ≡ i

pub record Well (p : ParallelBufferPool) : Type 0 where
  pub served : (i : ℕ) → i < p.num_instances → Serves (instance_at p i) p.num_instances i
  pub next : p.next_instance < p.num_instances

-- No instance is about to leave the non-negative page ids.
abbrev pub HasIds : ParallelBufferPool → Type 0
HasIds p =
    (i : ℕ) → i < p.num_instances → (p.managers i).next_page_id + p.num_instances < 2147483648

-- Every frame of the instance holds a pinned page.
abbrev pub IsPinned : BufferPool → Type 0
IsPinned b = (f : ℕ) → f < b.pool_size → Resident b f × (0 < (b.pages f).pin_count)

new_in_kept :
    (w : BufferPool × Option ℕ) (b' : BufferPool) (r : Option (ℕ × ℕ))
    → new_in w ≡ done (b', r)
    → (b'.num_instances ≡ w.0.num_instances) × (b'.instance_index ≡ w.0.instance_index)
unfolding new_in allocate_page install
new_in_kept (b, none) b' r e = ground arith
new_in_kept (b, some f) b' r e = ground arith

take_frame_kept :
    (b : BufferPool) (w : BufferPool × Option ℕ)
    → Takes b w
    → (w.0.num_instances ≡ b.num_instances) × (w.0.instance_index ≡ b.instance_index)
take_frame_kept b (b', none) t = rw (t.same) (refl, refl)
take_frame_kept b (b', some f) t = (t.num, t.index)

new_pg_kept :
    (b b' : BufferPool) (r : Option (ℕ × ℕ))
    → Inv b
    → BufferPool.new_pg b ≡ done (b', r)
    → (b'.num_instances ≡ b.num_instances) × (b'.instance_index ≡ b.instance_index)
unfolding BufferPool.new_pg
new_pg_kept b b' r v e =
    let k = new_in_kept (take_frame b) b' r e in
    let t = take_frame_kept b (take_frame b) (take_frame-Takes b v) in (k.0 ∙ t.0, k.1 ∙ t.1)

-- An instance after its `NewPgImp`.
new_pg-Serves :
    (b : BufferPool) (num i : ℕ)
    → Serves b num i
    → b.next_page_id + num < 2147483648
    → (b' : BufferPool) × (r : Option (ℕ × ℕ)) × (BufferPool.new_pg b ≡ done (b', r))
      × Serves b' num i
      × NewResult b b' r
new_pg-Serves b num i s h =
    let (b', r, e, v, ids, res) = new_pg_lem b s.inv s.ids (omega (arith, s.num)) in
    let k = new_pg_kept b b' r s.inv e in
    (b', r, e, record { inv = v; ids = ids; num = k.0 ∙ s.num; index = k.1 ∙ s.index }, res)

-- The shared disk plays no part.
Serves-disk :
    (b : BufferPool) (d : DiskManager) (n i : ℕ) → Serves b n i → Serves (record b { disk = d }) n i
Serves-disk b d n i s = record {
  inv = other-Partial b b.pool_size d b.next_page_id s.inv;
  ids = record { positive = s.ids.positive; routed = s.ids.routed; issued = s.ids.issued };
  num = s.num;
  index = s.index;
}

next_round :
    (s n : ℕ) → s < n → ((s + 1 < n) × ((s + 1) % n ≡ s + 1)) ⊎ ((s + 1 ≡ n) × ((s + 1) % n ≡ 0))
next_round s n h = elim (Bool-cases (ltb (s + 1) n)) [
  | inl e ↦ inl (ground arith, mod-eq_of_lt (ground arith))
  | inr e ↦ let q : s + 1 ≡ n = ground arith in inr (q, rw q (mod_self n))
]

advance_same :
    (p : ParallelBufferPool) (b : BufferPool) → instance_at (advance p b) p.next_instance ≡ b
unfolding advance
advance_same p b = ground arith

advance_other :
    (p : ParallelBufferPool) (b : BufferPool) (i : ℕ)
    → i ≢ p.next_instance
    → instance_at (advance p b) i ≡ record (instance_at p i) { disk = b.disk }
unfolding advance
advance_other p b i ne = ground arith

advance_idle :
    (p : ParallelBufferPool) (b : BufferPool) (i : ℕ)
    → b ≡ instance_at p p.next_instance
    → instance_at (advance p b) i ≡ instance_at p i
unfolding advance
advance_idle p b i e = ground arith

next_round-below : (s n : ℕ) → s < n → (s + 1) % n < n
next_round-below s n h = elim (next_round s n h) [
  | inl (k, e) ↦ rw e k
  | inr (k, e) ↦ rw e (omega arith)
]

advance-Well :
    (p : ParallelBufferPool) (b : BufferPool)
    → Well p
    → Serves b p.num_instances p.next_instance
    → Well (advance p b)
unfolding advance
advance-Well p b w s = record {
  served = λ i h. elim (Bool-cases (i == p.next_instance)) [
    | inl e ↦ let q : i ≡ p.next_instance = ground arith in rw (q, advance_same p b) s
    | inr e ↦
        rw (advance_other p b i (ground arith))
          (Serves-disk (instance_at p i) b.disk p.num_instances i (w.served i h))
  ];
  next = next_round-below p.next_instance p.num_instances w.next;
}

-- Whether the next `n` rounds reach instance `j`.
abbrev pub InRounds : ParallelBufferPool → ℕ → ℕ → Type 0
InRounds p n j =
    ((p.next_instance ≤ j) × (j < p.next_instance + n))
    ⊎ (j + p.num_instances < p.next_instance + n)

-- The manager after a page was created in frame `f` of instance `i`.
pub record NewPage (p p' : ParallelBufferPool) (i f id : ℕ) : Type 0 where
  pub num : p'.num_instances ≡ p.num_instances
  pub within : i < p.num_instances
  pub created : Created (instance_at p i) (instance_at p' i) f id
  pub others : (j : ℕ) → j ≢ i → instance_at p' j ≡ record (instance_at p j) { disk = p'.disk }

abbrev pub NewRounds : ℕ → ParallelBufferPool → ParallelBufferPool → Option (ℕ × ℕ × ℕ) → Type 0
NewRounds n p p' (some (i, f, id)) = NewPage p p' i f id
NewRounds n p p' none =
    ((j : ℕ) → instance_at p' j ≡ instance_at p j)
    × ((j : ℕ) → j < p.num_instances → InRounds p n j → IsPinned (instance_at p j))

-- A round in which the instance is exhausted.
NewRounds-idle :
    (n : ℕ) (p p' : ParallelBufferPool) (b : BufferPool) (r : Option (ℕ × ℕ × ℕ))
    → p.next_instance < p.num_instances
    → IsExhausted (instance_at p p.next_instance) b
    → NewRounds n (advance p b) p' r
    → NewRounds (suc n) p p' r
unfolding advance
NewRounds-idle n p p' b (some (i, f, id)) w x h = record {
  num = h.num;
  within = h.within;
  created = subst (λ c. Created c (instance_at p' i) f id) (advance_idle p b i x.same) h.created;
  others = λ j ne.
      h.others j ne
      ∙ ap {A = BufferPool} (λ c. record c { disk = p'.disk }) (advance_idle p b j x.same);
}
NewRounds-idle n p p' b none w x h = (
  λ j. h.0 j ∙ advance_idle p b j x.same,
  λ j k m. elim (Bool-cases (j == p.next_instance)) [
    | inl e ↦ let q : j ≡ p.next_instance = ground arith in rw q x.pinned
    | inr e ↦ subst IsPinned (advance_idle p b j x.same) (
        h.1 j k (elim (next_round p.next_instance p.num_instances w) [
          | inl (a, c) ↦ rw c (ground arith)
          | inr (a, c) ↦ rw c (ground arith)
        ]))
  ],
)

new_rounds_step :
    (n : ℕ) (p : ParallelBufferPool) (b : BufferPool) (r : Option (ℕ × ℕ))
    → BufferPool.new_pg (instance_at p p.next_instance) ≡ done (b, r)
    → ((f id : ℕ)
        → r ≡ some (f, id)
        → new_rounds (suc n) p ≡ done (advance p b, some (p.next_instance, f, id)))
      × (r ≡ none → new_rounds (suc n) p ≡ new_rounds n (advance p b))
unfolding new_rounds
new_rounds_step n p b r e = ground arith

HasIds-idle :
    (p : ParallelBufferPool) (b : BufferPool)
    → b ≡ instance_at p p.next_instance
    → HasIds p
    → HasIds (advance p b)
unfolding advance
HasIds-idle p b e h i k =
    subst (λ c. c.next_page_id + p.num_instances < 2147483648) (sym (advance_idle p b i e)) (h i k)

-- What `n` rounds promise.
abbrev Promises : ℕ → ParallelBufferPool → Type 0
Promises n p =
    (p' : ParallelBufferPool) × (r : Option (ℕ × ℕ × ℕ)) × (new_rounds n p ≡ done (p', r))
    × Well p'
    × NewRounds n p p' r

new_round :
    (n : ℕ) (p : ParallelBufferPool) (b : BufferPool) (r : Option (ℕ × ℕ))
    → Well p
    → BufferPool.new_pg (instance_at p p.next_instance) ≡ done (b, r)
    → Serves b p.num_instances p.next_instance
    → NewResult (instance_at p p.next_instance) b r
    → (r ≡ none → Promises n (advance p b))
    → Promises (suc n) p
unfolding advance
new_round n p b none w e s x rest =
    let (p', r, run, w', h) = rest refl in
    (p', r, (new_rounds_step n p b none e).1 refl ∙ run, w', NewRounds-idle n p p' b r w.next x h)
new_round n p b (some (f, id)) w e s x rest = (
  advance p b,
  some (p.next_instance, f, id),
  (new_rounds_step n p b (some (f, id)) e).0 f id refl,
  advance-Well p b w s,
  record {
    num = refl;
    within = w.next;
    created =
        subst (λ c. Created (instance_at p p.next_instance) c f id) (sym (advance_same p b)) x;
    others = λ j ne. advance_other p b j ne;
  },
)

new_rounds_lem : (n : ℕ) (p : ParallelBufferPool) → Well p → HasIds p → Promises n p
unfolding new_rounds
new_rounds_lem zero p w h =
    (p, none, refl, w, (λ j. refl, λ j k m. absurd (ground (arith, w.next))))
new_rounds_lem (suc n) p w h =
    let s = w.served p.next_instance w.next in
    let (b, r, e, s', x) =
      new_pg-Serves (instance_at p p.next_instance) p.num_instances p.next_instance s
        (h p.next_instance w.next) in
    new_round n p b r w e s' x (λ q.
      let x' : IsExhausted (instance_at p p.next_instance) b =
        subst (NewResult (instance_at p p.next_instance) b) q x in
      new_rounds_lem n (advance p b) (advance-Well p b w s') (HasIds-idle p b x'.same h))

-- On a well-formed manager with page ids left, `NewPgImp` returns and keeps the manager well formed.
-- Either it creates a zeroed, clean page with one pin in a frame of one instance, under the next id of
-- that instance, and the other instances keep their pages; or no instance changes and every frame of
-- every instance holds a pinned page.
pub new_pg-NewPage :
    (p : ParallelBufferPool)
    → Well p
    → HasIds p
    → (p' : ParallelBufferPool) × (r : Option (ℕ × ℕ × ℕ)) × (new_pg p ≡ done (p', r))
      × Well p'
      × (((i f id : ℕ) → r ≡ some (i, f, id) → NewPage p p' i f id)
          × (r ≡ none
              → ((j : ℕ) → instance_at p' j ≡ instance_at p j)
                × ((j : ℕ) → j < p.num_instances → IsPinned (instance_at p j))))
unfolding new_pg
new_pg-NewPage p w h =
    let (p', r, e, w', x) = new_rounds_lem p.num_instances p w h in
    (
      p',
      r,
      e,
      w',
      (
        λ i f id q. subst (NewRounds p.num_instances p p') q x,
        λ q.
            let y = subst (NewRounds p.num_instances p p') q x in
            (y.0, λ j k. y.1 j k (ground (arith, w.next))),
      ),
    )

-- A page id that an instance of a well-formed manager can hand out leads back to it.
routed :
    (p p' : ParallelBufferPool) (i : ℕ)
    → p'.num_instances ≡ p.num_instances
    → Serves (instance_at p i) p.num_instances i
    → (p.managers i).next_page_id < 2147483648
    → manager_of p' (p.managers i).next_page_id ≡ i
unfolding manager_of
routed p p' i n s h = ground (arith, s.ids.routed, s.num, s.index)

NewPage-of :
    (p p' : ParallelBufferPool) (i f id : ℕ)
    → Well p
    → HasIds p
    → new_pg p ≡ done (p', some (i, f, id))
    → NewPage p p' i f id
NewPage-of p p' i f id w h e =
    let (q, r, run, _, (made, _)) = new_pg-NewPage p w h in
    let same : Path (Outcome (ParallelBufferPool × Option (ℕ × ℕ × ℕ))) (done (q, r))
        (done (p', some (i, f, id))) =
      sym run ∙ e in
    let x : q ≡ p' = cc in
    let y : r ≡ some (i, f, id) = cc in subst (λ c. NewPage p c i f id) x (made i f id y)

fetch_pg_found :
    (b : BufferPool) (id f : ℕ)
    → lookup id b.page_table ≡ some f
    → (BufferPool.fetch_pg b id).1 ≡ some f
unfolding BufferPool.fetch_pg
fetch_pg_found b id f e = rw (e, BufferPool.fetch_pg) refl

-- After `NewPgImp` created a page on a well-formed manager with page ids left, `FetchPgImp` of its id
-- goes to the same instance and finds it in the same frame.
pub fetch_pg-new_pg :
    (p p' : ParallelBufferPool) (i f id : ℕ)
    → Well p
    → HasIds p
    → new_pg p ≡ done (p', some (i, f, id))
    → (fetch_pg p' id).1 ≡ some (i, f)
unfolding fetch_pg
fetch_pg-new_pg p p' i f id w h e =
    let x = NewPage-of p p' i f id w h e in
    let c = x.created in
    let to : manager_of p' id ≡ i =
      subst (λ q. manager_of p' q ≡ i) (sym (c.0))
        (routed p p' i x.num (w.served i x.within) (omega (arith, h i x.within))) in
    rw to (ap (tag i) (fetch_pg_found (instance_at p' i) id f c.1))

-- The constructor of at least one instance leaves a well-formed manager.
pub init-Well : (num size : ℕ) (d : DiskManager) → 0 < num → Well (init num size d)
unfolding init BufferPool.fresh
init-Well num size d h = record {
  served = λ i k. record {
    inv = fresh-Inv size num i d;
    ids = fresh-Ids size num i d k;
    num = refl;
    index = refl;
  };
  next = h;
}
