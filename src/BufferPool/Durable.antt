-- ===== src/BufferPool/Durable.antt =====
-- Flushing, against the memory of pages of `BufferPool.Contents`.
use disk_oriented_concurrenc.Base.{
  ℕ, ◌<◌, ◌≡◌, ◌≢◌, refl, Bool, true, false, none, some, List, [], ◌∷◌, arith, ◌⊎◌, inl, inr, ◌==◌,
  lookup, Bool-cases, DistinctKeys, is_some,
}
use disk_oriented_concurrenc.DiskManager.{Data, DiskManager, write_page, IsGood, write_page-IsGood}
use disk_oriented_concurrenc.BufferPool.{
  BufferPool, Page, flush_pg, flush_all_pgs, flush_entries, invalid_page_id,
}
use disk_oriented_concurrenc.BufferPool.Invariant.{Inv}
use disk_oriented_concurrenc.BufferPool.Contents.{on_disk, contents, IsCoherent}

-- A write puts the page on disk and leaves the other pages.
write_page_lem :
    (d : DiskManager) (p q : ℕ) (x c : Data)
    → IsGood d
    → p < 524287
    → IsGood (write_page d p x)
      × (on_disk (write_page d p x) p ≡ some x)
      × (q ≢ p → on_disk d q ≡ some c → on_disk (write_page d p x) q ≡ some c)
unfolding write_page
write_page_lem d p q x c g s = ground (arith, write_page-IsGood d p x s g)

-- The flushed page: on disk as it is in its frame, and clean there.
pub record Flushes (b : BufferPool) (p f : ℕ) (w : BufferPool × Bool) : Type 0 where
  pub succeeds : w.1 ≡ true
  pub stored : on_disk w.0.disk p ≡ some (b.pages f).content
  pub unchanged : w.0.pages f ≡ record (b.pages f) { is_dirty = false }
  pub coherent : IsCoherent w.0
  pub kept : (q : ℕ) (c : Data) → contents b q ≡ some c → contents w.0 q ≡ some c

-- On a well-formed pool whose disk and clean frames agree, `FlushPgImp` of a resident page succeeds: it
-- stores the page, marks it clean and keeps every read, whether or not the page is pinned.
pub flush_pg-Flushes :
    (b : BufferPool) (p f : ℕ)
    → Inv b
    → IsCoherent b
    → lookup p b.page_table ≡ some f
    → Flushes b p f (flush_pg b p)
unfolding flush_pg contents
flush_pg-Flushes b p f v k e =
    let small = k.small p f e in
    let w = λ (q : ℕ) (c : Data). write_page_lem b.disk p q (b.pages f).content c k.good small in
    let valid : (p == invalid_page_id) ≡ false = ground arith in
    rw (valid, e, flush_pg)
      (record {
        succeeds = refl;
        stored = (w 0 []).1;
        unchanged = ground arith;
        coherent = record {
          good = (w 0 []).0;
          small = k.small;
          clean =
              λ q g. ground (arith, k.clean q g, w q (b.pages g).content, v.keyed q g, v.keyed p f);
        };
        kept = λ q c h. ground (arith, w q c, v.keyed q f, v.keyed p f);
      })

tail_small :
    (p f : ℕ) (m : List (ℕ × ℕ))
    → is_some (lookup p m) ≡ false
    → ((q g : ℕ) → lookup q ((p, f) ∷ m) ≡ some g → q < 524287)
    → (q g : ℕ) → lookup q m ≡ some g
    → q < 524287
unfolding lookup
tail_small p f m u s q g e = ground (arith, s q g)

flush_entries_lem :
    (pages : ℕ → Page) (m : List (ℕ × ℕ)) (d : DiskManager) (q : ℕ) (c : Data)
    → DistinctKeys m
    → IsGood d
    → ((p f : ℕ) → lookup p m ≡ some f → p < 524287)
    → IsGood (flush_entries pages m d)
      × (lookup q m ≡ none → on_disk d q ≡ some c → on_disk (flush_entries pages m d) q ≡ some c)
      × ((f : ℕ)
          → lookup q m ≡ some f
          → (pages f).is_dirty ≡ true
          → on_disk (flush_entries pages m d) q ≡ some (pages f).content)
      × ((f : ℕ)
          → lookup q m ≡ some f
          → (pages f).is_dirty ≡ false
          → on_disk d q ≡ some c
          → on_disk (flush_entries pages m d) q ≡ some c)
unfolding flush_entries lookup
flush_entries_lem pages [] d q c u g s =
    (g, λ _ h. h, λ f e _. ground arith, λ f e _ _. ground arith)
flush_entries_lem pages ((p, f) ∷ m) d q c u g s = elim (Bool-cases (pages f).is_dirty) [
  | inl dirty ↦
      let x = (pages f).content in
      let small : p < 524287 = s p f (ground arith) in
      let w = write_page_lem d p q x c g small in
      let ih = flush_entries_lem pages m (write_page d p x) q c u.1 w.0 (tail_small p f m u.0 s) in
      let stored =
        flush_entries_lem pages m (write_page d p x) q x u.1 w.0 (tail_small p f m u.0 s) in
      rw dirty (
        ih.0,
        λ e h. ground (arith, w, ih.1),
        λ h e t. ground (arith, w, ih.2 h, stored.1, u.0),
        λ h e t o. ground (arith, w, ih.3 h, u.0),
      )
  | inr same ↦
      let ih = flush_entries_lem pages m d q c u.1 g (tail_small p f m u.0 s) in
      rw same (
        ih.0,
        λ e h. ground (arith, ih.1),
        λ h e t. ground (arith, ih.2 h),
        λ h e t o. ground (arith, ih.3 h, ih.1, u.0),
      )
]

pub record FlushesAll (b b' : BufferPool) : Type 0 where
  pub coherent : IsCoherent b'
  pub stored :
      (p f : ℕ)
      → lookup p b.page_table ≡ some f
      → ((b.pages f).is_dirty ≡ true) ⊎ ((b.pages f).pin_count ≡ 0)
      → on_disk b'.disk p ≡ some (b.pages f).content
  pub kept : (q : ℕ) (c : Data) → contents b q ≡ some c → contents b' q ≡ some c
  pub pages : b'.pages ≡ b.pages

-- On a well-formed pool whose disk and clean frames agree, `FlushAllPgsImp` leaves every resident page
-- that is dirty or unpinned on the disk, keeps every read, and leaves the frames as they are, their
-- dirty flags included.
pub flush_all_pgs-FlushesAll :
    (b : BufferPool) → Inv b → IsCoherent b → FlushesAll b (flush_all_pgs b)
unfolding flush_all_pgs contents
flush_all_pgs-FlushesAll b v k =
    let w = λ (q : ℕ) (c : Data).
      flush_entries_lem b.pages b.page_table b.disk q c v.unique k.good k.small in
    record {
      coherent = record {
        good = (w 0 []).0;
        small = k.small;
        clean = λ p f e z d. (w p (b.pages f).content).3 f e d (k.clean p f e z d);
      };
      stored = λ p f e h. elim (Bool-cases (b.pages f).is_dirty) [
        | inl d ↦ (w p (b.pages f).content).2 f e d
        | inr d ↦ (w p (b.pages f).content).3 f e d (k.clean p f e (ground arith) d)
      ];
      kept = λ q c. ground (arith, (w q c).1);
      pages = refl;
    }
