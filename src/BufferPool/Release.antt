-- ===== src/BufferPool/Release.antt =====
-- Unpinning and deleting, against the memory of pages, and a read past the end of the file.
use disk_oriented_concurrenc.Base.{
  ℕ, ◌<◌, ◌≡◌, refl, Bool, true, false, not, Option, none, some, [], arith, ◌⊎◌, inl, inr, ◌==◌,
  lookup, Bool-cases, Option-cases, lookup-erase, ltb,
}
use disk_oriented_concurrenc.DiskManager.{Data, IsGood, read_page-cases}
use disk_oriented_concurrenc.BufferPool.{
  BufferPool, fetch_pg, fetch_in, delete_pg, unpin_pg, install, release_frame, take_frame,
  write_back,
}
use disk_oriented_concurrenc.BufferPool.Invariant.{Inv}
use disk_oriented_concurrenc.BufferPool.Contents.{
  on_disk, contents, IsCoherent, unpinned-WritesBack,
}

-- The page is resident and pinned.
unfoldable pub is_pinned : BufferPool → ℕ → Bool
is_pinned b p = elim (lookup p b.page_table) [ none ↦ false | some f ↦ ltb 0 (b.pages f).pin_count ]

pub record Deletes (b : BufferPool) (p : ℕ) (w : BufferPool × Bool) : Type 0 where
  pub refused : w.1 ≡ not (is_pinned b p)
  pub untouched : is_pinned b p ≡ true → w.0 ≡ b
  pub gone : is_pinned b p ≡ false → lookup p w.0.page_table ≡ none
  pub coherent : IsCoherent w.0
  pub kept : (q : ℕ) (c : Data) → contents b q ≡ some c → contents w.0 q ≡ some c

released-Deletes :
    (b : BufferPool) (p f : ℕ)
    → Inv b
    → IsCoherent b
    → lookup p b.page_table ≡ some f
    → (b.pages f).pin_count ≡ 0
    → is_pinned b p ≡ false
    → Deletes b p (release_frame (record b { disk = write_back b.disk (b.pages f) }) f, true)
unfolding release_frame contents
released-Deletes b p f v k e z n =
    let key : (b.pages f).page_id ≡ p = ground (arith, v.keyed p f) in
    let w = λ (q : ℕ) (c : Data). unpinned-WritesBack b f q c (ground arith) z k in
    record {
      refused = rw n;
      untouched = λ h. ground arith;
      gone = λ h. ground (arith, lookup-erase (b.pages f).page_id p b.page_table);
      coherent = record {
        good = (w 0 []).0;
        small = λ q g. ground (arith, lookup-erase (b.pages f).page_id q b.page_table, k.small q g);
        clean = λ q g. ground (
          arith,
          lookup-erase (b.pages f).page_id q b.page_table,
          k.clean q g,
          v.keyed q f,
          w q (b.pages g).content,
        );
      };
      kept = λ q c.
          ground (arith, lookup-erase (b.pages f).page_id q b.page_table, w q c, v.keyed q f);
    }

-- On a well-formed pool whose disk and clean frames agree, `DeletePgImp` refuses exactly the pages that
-- are resident and pinned, and then changes nothing;
-- otherwise the page is not resident afterwards. Every read is kept either way: a dirty page is
-- written back first.
pub delete_pg-Deletes :
    (b : BufferPool) (p : ℕ) → Inv b → IsCoherent b → Deletes b p (delete_pg b p)
unfolding delete_pg is_pinned
delete_pg-Deletes b p v k = elim (Option-cases (lookup p b.page_table)) [
  | inl e ↦
      let n : is_pinned b p ≡ false = rw (e, is_pinned) in
      rw (e, delete_pg)
        (record {
          refused = rw n;
          untouched = λ h. refl;
          gone = λ _. e;
          coherent = k;
          kept = λ q c h. h;
        })
  | inr (f, e) ↦ elim (Bool-cases (ltb 0 (b.pages f).pin_count)) [
    | inl pins ↦
        let n : is_pinned b p ≡ true = rw (e, is_pinned) pins in
        rw (e, delete_pg, pins)
          (record {
            refused = rw n;
            untouched = λ h. refl;
            gone = λ h. ground arith;
            coherent = k;
            kept = λ q c h. h;
          })
    | inr free ↦
        rw (e, delete_pg, free)
          (released-Deletes b p f v k e (ground arith) (rw (e, is_pinned) free))
  ]
]

pub record Unpins (b : BufferPool) (p : ℕ) (w : BufferPool × Bool) : Type 0 where
  pub succeeds : w.1 ≡ is_pinned b p
  pub kept : (q : ℕ) → contents w.0 q ≡ contents b q

-- `UnpinPgImp` succeeds exactly on a resident, pinned page, and never changes what is read.
pub unpin_pg-Unpins : (b : BufferPool) (p : ℕ) (dirty : Bool) → Unpins b p (unpin_pg b p dirty)
unfolding unpin_pg contents is_pinned
unpin_pg-Unpins b p dirty = elim (Option-cases (lookup p b.page_table)) [
  | inl e ↦ rw (e, unpin_pg) (record { succeeds = rw (e, is_pinned); kept = λ q. refl })
  | inr (f, e) ↦ elim (Bool-cases ((b.pages f).pin_count == 0)) [
    | inl z ↦
        rw (e, unpin_pg, z)
          (record { succeeds = rw (e, is_pinned) (ground arith); kept = λ q. refl })
    | inr pins ↦
        rw (e, unpin_pg, pins)
          (record { succeeds = rw (e, is_pinned) (ground arith); kept = λ q. ground arith })
  ]
]

-- On a well-formed pool whose disk and clean frames agree, they still agree after `UnpinPgImp` of a
-- resident page if the caller says that the page is dirty, or the page is as it is on disk.
pub unpin_pg-IsCoherent :
    (b : BufferPool) (p f : ℕ) (dirty : Bool)
    → Inv b
    → IsCoherent b
    → lookup p b.page_table ≡ some f
    → (dirty ≡ true) ⊎ (on_disk b.disk p ≡ some (b.pages f).content)
    → IsCoherent (unpin_pg b p dirty).0
unfolding unpin_pg
unpin_pg-IsCoherent b p f dirty v k e h = elim (Bool-cases ((b.pages f).pin_count == 0)) [
  | inl z ↦ rw (e, unpin_pg, z) k
  | inr pins ↦
      rw (e, unpin_pg, pins)
        (record {
          good = k.good;
          small = k.small;
          clean = λ q g. ground (arith, k.clean q g, h, v.keyed q g, v.keyed p f);
        })
]

fetch_in_stale :
    (w : BufferPool × Option ℕ) (p f : ℕ)
    → w.1 ≡ some f
    → IsGood w.0.disk
    → p < 524288
    → w.0.disk.file_pages < p
    → ((fetch_in p w).1 ≡ some f) × (((fetch_in p w).0.pages f).content ≡ (w.0.pages f).content)
unfolding fetch_in install
fetch_in_stale (b, none) p f t g s past = ground arith
fetch_in_stale (b, some f') p f t g s past =
    ground (arith, read_page-cases b.disk p (b.pages f').content s g)

-- On a good disk, where a frame can be taken, a fetch of a page that is not resident and lies beyond the
-- end of the file returns that frame with whatever it held before.
pub fetch_pg-stale :
    (b : BufferPool) (p f : ℕ)
    → lookup p b.page_table ≡ none
    → (take_frame b).1 ≡ some f
    → IsGood (take_frame b).0.disk
    → p < 524288
    → (take_frame b).0.disk.file_pages < p
    → ((fetch_pg b p).1 ≡ some f)
      × (((fetch_pg b p).0.pages f).content ≡ ((take_frame b).0.pages f).content)
unfolding fetch_pg
fetch_pg-stale b p f e t g s past = rw (e, fetch_pg) (fetch_in_stale (take_frame b) p f t g s past)
