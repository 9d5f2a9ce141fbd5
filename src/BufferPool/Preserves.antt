-- ===== src/BufferPool/Preserves.antt =====
-- Every operation of a buffer pool keeps it well formed.
use disk_oriented_concurrenc.Base.{
  ℕ, zero, suc, ◌-◌, ◌<◌, ◌≡◌, refl, Bool, true, false, Option, none, some, [], ◌∷◌, arith, length,
  inl, inr, ◌==◌, if◌then◌else◌, elem, Distinct, update, lookup, Bool-cases, Option-cases,
  elem-append, snoc-Distinct, pigeonhole, ltb,
}
use disk_oriented_concurrenc.LruReplacer
use disk_oriented_concurrenc.LruReplacer.{LruReplacer, frames}
use disk_oriented_concurrenc.LruReplacer.Refines.{
  unpin_lem, frames-Distinct, init-IsValid, init-max_size,
}
use disk_oriented_concurrenc.LruReplacer.Members.{elem-unpin}
use disk_oriented_concurrenc.DiskManager.{DiskManager, read_page}
use disk_oriented_concurrenc.BufferPool.{
  BufferPool, fresh, count_up, fetch_pg, fetch_in, delete_pg, unpin_pg, flush_pg, flush_all_pgs,
  take_frame, write_back, invalid_page_id,
}
use disk_oriented_concurrenc.BufferPool.Invariant.{
  Resident, Inv, Takes, install-Inv, take_frame-Takes, pin_page-Inv, release_frame-Inv, touch-Inv,
  other-Partial,
}

elem-count_up : (n f : ℕ) → elem f (count_up n) ≡ ltb f n
unfolding count_up
elem-count_up zero f = ground arith
elem-count_up (suc n) f = ground (arith, elem-append f (count_up n) (n ∷ []), elem-count_up n f)

count_up-Distinct : (n : ℕ) → Distinct (count_up n)
unfolding count_up
count_up-Distinct zero = tt
count_up-Distinct (suc n) =
    snoc-Distinct n (count_up n) (count_up-Distinct n) (ground (arith, elem-count_up n n))

-- A fresh pool is well formed, with every frame free.
pub fresh-Inv : (size num index : ℕ) (d : DiskManager) → Inv (fresh size num index d)
unfolding fresh lookup
fresh-Inv size num index d = record {
  keyed = λ q g. ground arith;
  free = λ g. ground (arith, elem-count_up size g);
  distinct = count_up-Distinct size;
  unique = tt;
  evictable = λ g. ground (arith, (init-IsValid size).1);
  cover = λ g. ground (arith, elem-count_up size g);
  valid = (init-IsValid size).0;
  capacity = init-max_size size;
}

-- A resident page stays where its entry says.
lookup-Resident : (b : BufferPool) (p f : ℕ) → Inv b → lookup p b.page_table ≡ some f → Resident b f
lookup-Resident b p f v e = ground (arith, v.keyed p f)

fetch_in-Inv :
    (b : BufferPool) (p : ℕ) (w : BufferPool × Option ℕ)
    → Inv b
    → lookup p b.page_table ≡ none
    → Takes b w
    → Inv (fetch_in p w).0
unfolding fetch_in
fetch_in-Inv b p (b', none) v e t = rw t.same v
fetch_in-Inv b p (b', some f) v e t =
    let (d, c) = read_page b'.disk p (b'.pages f).content in
    install-Inv (record b' { disk = d }) f p c (other-Partial b' f d b'.next_page_id t.partial)
      (record {
        within = t.held.within;
        not_free = t.held.not_free;
        not_resident = t.held.not_resident;
      })
      (t.absent p e)

-- `FetchPgImp` keeps a well-formed pool well formed, whatever page is asked for.
pub fetch_pg-Inv : (b : BufferPool) (p : ℕ) → Inv b → Inv (fetch_pg b p).0
unfolding fetch_pg
fetch_pg-Inv b p v = elim (Option-cases (lookup p b.page_table)) [
  | inl e ↦ rw (e, fetch_pg) (fetch_in-Inv b p (take_frame b) v e (take_frame-Takes b v))
  | inr (f, e) ↦ rw (e, fetch_pg) (pin_page-Inv b f v (lookup-Resident b p f v e))
]

-- `DeletePgImp` keeps a well-formed pool well formed, whatever page is asked for.
pub delete_pg-Inv : (b : BufferPool) (p : ℕ) → Inv b → Inv (delete_pg b p).0
unfolding delete_pg
delete_pg-Inv b p v = elim (Option-cases (lookup p b.page_table)) [
  | inl e ↦ rw (e, delete_pg) v
  | inr (f, e) ↦ elim (Bool-cases (ltb 0 (b.pages f).pin_count)) [
    | inl pinned ↦ rw (e, delete_pg, pinned) v
    | inr unpinned ↦
        rw (e, delete_pg, unpinned)
          (release_frame-Inv (record b { disk = write_back b.disk (b.pages f) }) f
            (other-Partial b b.pool_size _ b.next_page_id v) (lookup-Resident b p f v e))
  ]
]

-- `FlushPgImp` keeps the pool well formed.
pub flush_pg-Inv : (b : BufferPool) (p : ℕ) → Inv b → Inv (flush_pg b p).0
unfolding flush_pg
flush_pg-Inv b p v = elim (Bool-cases (p == invalid_page_id)) [
  | inl e ↦ rw (e, flush_pg) v
  | inr e ↦ elim (Option-cases (lookup p b.page_table)) [
    | inl e' ↦ rw (e, flush_pg, e') v
    | inr (f, e') ↦
        rw (e, flush_pg, e')
          (other-Partial _ b.pool_size _ b.next_page_id
            (touch-Inv b f (record (b.pages f) { is_dirty = false }) v refl refl))
  ]
]

-- `FlushAllPgsImp` keeps the pool well formed.
pub flush_all_pgs-Inv : (b : BufferPool) → Inv b → Inv (flush_all_pgs b)
unfolding flush_all_pgs
flush_all_pgs-Inv b v = other-Partial b b.pool_size _ b.next_page_id v

-- An unpinned frame that is not in the replacer finds room there.
room :
    (b : BufferPool) (f : ℕ)
    → Inv b
    → f < b.pool_size
    → elem f (frames b.replacer) ≡ false
    → length (frames b.replacer) < b.replacer.max_size
room b f v h e =
    let d : Distinct (f ∷ frames b.replacer) = (e, frames-Distinct b.replacer v.valid) in
    omega (arith, v.capacity, pigeonhole b.pool_size (f ∷ frames b.replacer) d below)
  where
    below : (a : ℕ) → elem a (f ∷ frames b.replacer) ≡ true → a < b.pool_size
    below a m = ground (arith, v.evictable a, v.keyed (b.pages a).page_id a)

unpinned : BufferPool → ℕ → Bool → BufferPool
unpinned b f is_dirty =
    let page = b.pages f in
    record b {
      pages = update b.pages f (record page {
        pin_count = page.pin_count - 1;
        is_dirty = if is_dirty then true else page.is_dirty;
      });
      replacer = if page.pin_count - 1 == 0 then LruReplacer.unpin b.replacer f else b.replacer;
    }

unpinned-Inv :
    (b : BufferPool) (f : ℕ) (dirty : Bool)
    → Inv b
    → Resident b f
    → 0 < (b.pages f).pin_count
    → Inv (unpinned b f dirty)
unfolding unpinned
unpinned-Inv b f dirty v h pos = record {
  keyed = λ q g. ground (arith, v.keyed q g);
  free = λ g. ground (arith, v.free g);
  distinct = v.distinct;
  unique = v.unique;
  evictable = λ g. ground (arith, elem-unpin b.replacer f g v.valid, v.evictable g, full);
  cover = λ g. ground (arith, v.cover g);
  valid = ground (arith, v.valid, unpin_lem b.replacer f v.valid);
  capacity = ground (arith, v.capacity, unpin_lem b.replacer f v.valid);
}
  where
    full : length (frames b.replacer) < b.replacer.max_size
    full =
        room b f v (ground (arith, v.keyed (b.pages f).page_id f)) (ground (arith, v.evictable f))

-- `UnpinPgImp` keeps a well-formed pool well formed, whatever page is asked for: the replacer has room
-- for the frame.
pub unpin_pg-Inv : (b : BufferPool) (p : ℕ) (dirty : Bool) → Inv b → Inv (unpin_pg b p dirty).0
unfolding unpin_pg unpinned
unpin_pg-Inv b p dirty v = elim (Option-cases (lookup p b.page_table)) [
  | inl e ↦ rw (e, unpin_pg) v
  | inr (f, e) ↦ elim (Bool-cases ((b.pages f).pin_count == 0)) [
    | inl zero_pins ↦ rw (e, unpin_pg, zero_pins) v
    | inr pins ↦
        rw (e, unpin_pg, pins) (unpinned-Inv b f dirty v (lookup-Resident b p f v e) (ground arith))
  ]
]
