-- ===== src/BufferPool/Allocation.antt =====
-- `NewPgImp`: page ids, and when it fails.
use disk_oriented_concurrenc.Base.{
  ℕ, ◌+◌, ◌%◌, ◌≤◌, ◌<◌, ◌≡◌, ◌≢◌, refl, true, false, Option, none, some, arith, inl, inr, ◌==◌,
  lookup, Option-cases, lookup-insert,
}
use native.Mathlib.Nat.{mod-eq_of_lt, add-mod_right}
use disk_oriented_concurrenc.DiskManager.{Data, DiskManager, zero_page}
use disk_oriented_concurrenc.BufferPool.{
  BufferPool, done, fresh, new_pg, new_in, install, take_frame,
}
use disk_oriented_concurrenc.BufferPool.Invariant.{
  Resident, Inv, Takes, Taken, IsExhausted, install-Inv, take_frame-Takes, other-Partial,
}

-- Page ids are handed out in steps of `num_instances`, and no page beyond the last one is resident.
pub record Ids (b : BufferPool) : Type 0 where
  pub positive : 0 < b.num_instances
  pub routed : b.next_page_id % b.num_instances ≡ b.instance_index
  pub issued : (q f : ℕ) → lookup q b.page_table ≡ some f → q < b.next_page_id

-- A fresh pool has no page, and its first id is its index.
pub fresh-Ids : (size num index : ℕ) (d : DiskManager) → index < num → Ids (fresh size num index d)
unfolding fresh lookup
fresh-Ids size num index d h = record {
  positive = omega arith;
  routed = mod-eq_of_lt h;
  issued = λ q f. ground arith;
}

-- The pool after a page was created in frame `f`.
abbrev pub Created : BufferPool → BufferPool → ℕ → ℕ → Type 0
Created b b' f p =
    (p ≡ b.next_page_id)
    × (lookup p b'.page_table ≡ some f)
    × (b'.pages f ≡ record { content = zero_page; page_id = p; pin_count = 1; is_dirty = false })
    × (Resident b f → (b.pages f).pin_count ≡ 0)
    × ((g : ℕ) → g ≢ f → b'.pages g ≡ b.pages g)

abbrev pub NewResult : BufferPool → BufferPool → Option (ℕ × ℕ) → Type 0
NewResult b b' none = IsExhausted b b'
NewResult b b' (some (f, p)) = Created b b' f p

-- The next id, when it does not wrap, belongs to the same instance.
next-routed : (a n i : ℕ) → a + n < 4294967296 → a % n ≡ i → ((a + n) % 4294967296) % n ≡ i
next-routed a n i h e = rw (mod-eq_of_lt h, add-mod_right a n) e

-- An id that is yet to be issued is not in the table.
issued_absent : (b : BufferPool) (p : ℕ) → Ids b → b.next_page_id ≤ p → lookup p b.page_table ≡ none
issued_absent b p i h = elim (Option-cases (lookup p b.page_table)) [
  | inl e ↦ e
  | inr (f, e) ↦ absurd (omega (arith, i.issued p f e))
]

install-Ids :
    (b b₁ : BufferPool) (f p : ℕ) (c : Data)
    → Ids b
    → Taken b b₁ f
    → b.next_page_id + b.num_instances < 4294967296
    → Ids (
        install
          (record b₁ { next_page_id = (b₁.next_page_id + b₁.num_instances) % 4294967296 })
          f
          b₁.next_page_id
          c)
unfolding install
install-Ids b b₁ f p c i t h = record {
  positive = omega (arith, i.positive, t.num);
  routed =
      next-routed b₁.next_page_id b₁.num_instances b₁.instance_index (omega (arith, t.next, t.num))
        (rw (t.next, t.num, t.index) i.routed);
  issued = λ q g. ground (
    arith,
    lookup-insert b₁.next_page_id q f b₁.page_table,
    t.was q g,
    i.issued q g,
    t.next,
    t.num,
    mod-eq_of_lt h,
    i.positive,
  );
}

new_in_lem :
    (b : BufferPool) (w : BufferPool × Option ℕ)
    → Inv b
    → Ids b
    → b.next_page_id + b.num_instances < 4294967296
    → Takes b w
    → (b' : BufferPool) × (r : Option (ℕ × ℕ)) × (new_in w ≡ done (b', r))
      × Inv b'
      × Ids b'
      × NewResult b b' r
unfolding new_in install
new_in_lem b (b₁, none) v i h t = (b₁, none, refl, rw (t.same) v, rw (t.same) i, t)
new_in_lem b (b₁, some f) v i h t =
    let p = b₁.next_page_id in
    let b₂ = record b₁ { next_page_id = (p + b₁.num_instances) % 4294967296 } in
    let unused : lookup p b.page_table ≡ none = issued_absent b p i (omega (arith, t.next)) in
    let valid : (p % b₁.num_instances == b₁.instance_index) ≡ true =
      ground (arith, t.next, t.num, t.index, i.routed) in
    (
      install b₂ f p zero_page,
      some (f, p),
      rw valid,
      install-Inv b₂ f p zero_page (other-Partial b₁ f b₁.disk _ t.partial)
          (record {
            within = t.held.within;
            not_free = t.held.not_free;
            not_resident = t.held.not_resident;
          })
          (t.absent p unused),
      install-Ids b b₁ f p zero_page i t h,
      (
        t.next,
        ground (arith, lookup-insert p p f b₁.page_table),
        ground arith,
        t.unpinned,
        λ g ne. ground (arith, t.pages),
      ),
    )

-- While the id counter does not wrap, `NewPgImp` on a well-formed pool returns, keeps the pool well
-- formed, and either creates a zeroed, clean page with one pin under the next id, in a frame that was
-- not pinned, and leaves the other frames alone; or every frame is pinned, and nothing changes.
pub new_pg_lem :
    (b : BufferPool)
    → Inv b
    → Ids b
    → b.next_page_id + b.num_instances < 4294967296
    → (b' : BufferPool) × (r : Option (ℕ × ℕ)) × (new_pg b ≡ done (b', r))
      × Inv b'
      × Ids b'
      × NewResult b b' r
unfolding new_pg
new_pg_lem b v i h = new_in_lem b (take_frame b) v i h (take_frame-Takes b v)
