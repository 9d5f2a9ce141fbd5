-- ===== src/BufferPool/Contents.antt =====
-- What a client reads: the pool and the disk behind it as one memory of pages.
use disk_oriented_concurrenc.Base.{
  ℕ, ◌<◌, ◌≡◌, ◌≢◌, refl, false, Option, none, some, List, [], ◌∷◌, arith, inl, inr, if◌then◌else◌,
  lookup, Option-cases, lookup-erase, lookup-insert, ltb,
}
use disk_oriented_concurrenc.LruReplacer
use disk_oriented_concurrenc.LruReplacer.{LruReplacer, frames}
use disk_oriented_concurrenc.LruReplacer.Members.{Victims, victim-Victims}
use disk_oriented_concurrenc.DiskManager.{
  Data, DiskManager, write_page, IsGood, write_page-IsGood, read_page-cases,
}
use disk_oriented_concurrenc.BufferPool.{
  BufferPool, Page, fetch_pg, fetch_in, install, pin_page, take_frame, evict, write_back,
}
use disk_oriented_concurrenc.BufferPool.Invariant.{
  Resident, Inv, Takes, take_frame-Takes, take_frame-nil, take_frame-cons,
}

-- The page in the file, if the file is long enough.
abbrev pub on_disk : DiskManager → ℕ → Option Data
on_disk d p = if ltb p d.file_pages then some (d.page_at p) else none

-- A page's bytes: those of its frame, else those on disk.
unfoldable pub contents : BufferPool → ℕ → Option Data
contents b p = elim (lookup p b.page_table) [
  | some f ↦ some (b.pages f).content
  | none ↦ on_disk b.disk p
]

-- The disk is good, resident ids fit it, and an unpinned page that is not dirty is the page on disk.
pub record IsCoherent (b : BufferPool) : Type 0 where
  pub good : IsGood b.disk
  pub small : (p f : ℕ) → lookup p b.page_table ≡ some f → p < 524287
  pub clean :
      (p f : ℕ)
      → lookup p b.page_table ≡ some f
      → (b.pages f).pin_count ≡ 0
      → (b.pages f).is_dirty ≡ false
      → on_disk b.disk p ≡ some (b.pages f).content

abbrev pub WritesBack : DiskManager → Page → ℕ → Data → Type 0
WritesBack d page q c =
    IsGood (write_back d page)
    × (on_disk (write_back d page) page.page_id ≡ some page.content)
    × (q ≢ page.page_id → on_disk d q ≡ some c → on_disk (write_back d page) q ≡ some c)

-- After a page is written back the disk holds it, and every other page that it held before.
pub write_back_lem :
    (d : DiskManager) (page : Page) (q : ℕ) (c : Data)
    → IsGood d
    → page.page_id < 524287
    → (page.is_dirty ≡ false → on_disk d page.page_id ≡ some page.content)
    → WritesBack d page q c
unfolding write_back write_page
write_back_lem d page q c g s k = ground (arith, write_page-IsGood d page.page_id page.content s g)

-- No read sees that a frame was taken.
pub record Keeps (b b' : BufferPool) : Type 0 where
  pub coherent : IsCoherent b'
  pub kept : (p : ℕ) (c : Data) → contents b p ≡ some c → contents b' p ≡ some c

-- An unpinned resident can be written back.
pub unpinned-WritesBack :
    (b : BufferPool) (f : ℕ) (q : ℕ) (c : Data)
    → Resident b f
    → (b.pages f).pin_count ≡ 0
    → IsCoherent b
    → WritesBack b.disk (b.pages f) q c
unpinned-WritesBack b f q c r z k =
    write_back_lem b.disk (b.pages f) q c k.good (k.small _ f r) (k.clean _ f r z)

evict-Keeps :
    (b : BufferPool) (r : LruReplacer) (f : ℕ)
    → Inv b
    → IsCoherent b
    → Resident b f
    → (b.pages f).pin_count ≡ 0
    → Keeps b (evict b (r, some f)).0
unfolding evict contents
evict-Keeps b r f v k res z = record {
  coherent = record {
    good = (unpinned-WritesBack b f 0 [] res z k).0;
    small = λ p g. ground (arith, lookup-erase (b.pages f).page_id p b.page_table, k.small p g);
    clean = λ p g. ground (
      arith,
      lookup-erase (b.pages f).page_id p b.page_table,
      k.clean p g,
      unpinned-WritesBack b f p (b.pages g).content res z k,
    );
  };
  kept = λ p c.
      ground (
        arith,
        lookup-erase (b.pages f).page_id p b.page_table,
        unpinned-WritesBack b f p c res z k,
      );
}

abbrev KeepsIfTaken : BufferPool → BufferPool × Option ℕ → Type 0
KeepsIfTaken b (b', none) = Unit {0}
KeepsIfTaken b (b', some f) = Keeps b b'

victim-Keeps :
    (b : BufferPool) (w : LruReplacer × Option ℕ)
    → Inv b
    → IsCoherent b
    → Victims b.replacer w
    → KeepsIfTaken b (evict b w)
victim-Keeps b (r, none) v k h = unfold evict in tt
victim-Keeps b (r, some f) v k h =
    unfold evict in evict-Keeps b r f v k ((v.evictable f).0 h.2).0 ((v.evictable f).0 h.2).1

take_frame-Keeps : (b : BufferPool) → Inv b → IsCoherent b → KeepsIfTaken b (take_frame b)
unfolding contents
take_frame-Keeps b v k = by_free_list b.free_list refl
  where
    by_free_list : (l : List ℕ) → b.free_list ≡ l → KeepsIfTaken b (take_frame b)
    by_free_list [] e =
        rw (take_frame-nil b e)
          (victim-Keeps b (LruReplacer.victim b.replacer) v k (victim-Victims b.replacer v.valid))
    by_free_list (f ∷ rest) e = rw (take_frame-cons b f rest e) (record {
      coherent = record { good = k.good; small = k.small; clean = k.clean };
      kept = λ p c h. h;
    })

-- The result of a fetch: reads are kept, and a frame that is returned holds the page and is pinned.
pub record Fetches (b : BufferPool) (p : ℕ) (w : BufferPool × Option ℕ) : Type 0 where
  pub coherent : IsCoherent w.0
  pub kept : (q : ℕ) (c : Data) → contents b q ≡ some c → contents w.0 q ≡ some c
  pub found : (f : ℕ) → w.1 ≡ some f → lookup p w.0.page_table ≡ some f
  pub pinned : (f : ℕ) → w.1 ≡ some f → 0 < (w.0.pages f).pin_count

fetch_in-Fetches :
    (b : BufferPool) (p : ℕ) (w : BufferPool × Option ℕ)
    → IsCoherent b
    → p < 524287
    → lookup p b.page_table ≡ none
    → Takes b w
    → KeepsIfTaken b w
    → Fetches b p (fetch_in p w)
unfolding fetch_in install contents
fetch_in-Fetches b p (b', none) k s e t kept = record {
  coherent = rw (t.same) k;
  kept = λ q c h. rw (t.same) h;
  found = λ f h. ground arith;
  pinned = λ f h. ground arith;
}
fetch_in-Fetches b p (b', some f) k s e t kept = record {
  coherent = record {
    good = ground (arith, read_page-cases b'.disk p (b'.pages f).content, kept.coherent.good);
    small = λ q g. ground (arith, lookup-insert p q f b'.page_table, kept.coherent.small q g);
    clean = λ q g. ground (
      arith,
      lookup-insert p q f b'.page_table,
      kept.coherent.clean q g,
      t.partial.keyed q g,
      t.held.not_resident,
      read_page-cases b'.disk p (b'.pages f).content,
      kept.coherent.good,
    );
  };
  kept = λ q c h. ground (
    arith,
    lookup-insert p q f b'.page_table,
    kept.kept q c h,
    t.absent p e,
    t.partial.keyed q f,
    t.held.not_resident,
    read_page-cases b'.disk p (b'.pages f).content,
    kept.coherent.good,
  );
  found = λ g h. ground (arith, lookup-insert p p f b'.page_table);
  pinned = λ g h. ground arith;
}

-- On a well-formed pool whose disk and clean frames agree, `FetchPgImp` of a page id below 524287, so
-- that the end of the page, and not only its start, fits an `int`, keeps that agreement and loses no
-- data: every page that had contents, in a frame or on the disk, has them afterwards, also when a page
-- was evicted. A frame that is returned is the one the page table has for the page, and it is pinned.
pub fetch_pg-Fetches :
    (b : BufferPool) (p : ℕ) → Inv b → IsCoherent b → p < 524287 → Fetches b p (fetch_pg b p)
unfolding fetch_pg pin_page contents
fetch_pg-Fetches b p v k s = elim (Option-cases (lookup p b.page_table)) [
  | inl e ↦
      rw (e, fetch_pg)
        (fetch_in-Fetches b p (take_frame b) k s e (take_frame-Takes b v) (take_frame-Keeps b v k))
  | inr (f, e) ↦
      rw (e, fetch_pg)
        (record {
          coherent = record {
            good = k.good;
            small = k.small;
            clean = λ q g. ground (arith, k.clean q g);
          };
          kept = λ q c h. ground arith;
          found = λ g h. ground arith;
          pinned = λ g h. ground arith;
        })
]
