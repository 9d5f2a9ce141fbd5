-- ===== src/HashTable/Pool.antt =====
-- What the hash table relies on in its buffer pool.
use disk_oriented_concurrenc.Base.{
  ℕ, suc, ◌-◌, ◌<◌, ◌≡◌, ◌≢◌, refl, Bool, false, Option, some, ◌==◌, if◌then◌else◌,
}
use disk_oriented_concurrenc.HashDirectory.{HashTableDirectoryPage}
use disk_oriented_concurrenc.HashBucket.{HashTableBucketPage}
use disk_oriented_concurrenc.HashTable.{
  ◌>>=◌, ◌>>◌, assert_pool, read, where_so, directory_id, PagePool, HashTable, Call, done,
  fetch_directory_page, fetch_bucket_page, invalid_page_id,
}

-- A call in a chain that is done.
pub bind_done {ℓ κ} :
    {P : Type 0} {A : Type ℓ} {B : Type κ} (m : Call P A) (f : A → Call P B) (t t' : HashTable P)
    (a : A)
    → m t ≡ done (a, t')
    → (m >>= f) t ≡ f a t'
bind_done m f t t' a e = rw (◌>>=◌, e) refl

pub assert_pool_lem :
    {P : Type 0} (f : P → Option P) (t : HashTable P) (p' : P)
    → f t.pool ≡ some p'
    → assert_pool f t ≡ done (tt, record t { pool = p' })
assert_pool_lem f t p' e = rw (e, assert_pool) refl

module _ {ℓ κ} {P : Type 0} {K : Type ℓ} {V : Type κ} (pages : PagePool P K V) where
  -- The pages hold the same data.
  pub record SameData (p p' : P) : Type (ℓ ⊔ κ) where
    pub directories : (x : ℕ) → pages.directory p' x ≡ pages.directory p x
    pub buckets : (x : ℕ) → pages.bucket p' x ≡ pages.bucket p x

  -- A pool of finitely many frames, of which `free` hold no pinned page. A fetch is answered while there is
  -- such a frame, pins its page, and takes a frame unless the page was pinned; an unpin of a pinned page gives
  -- the frame back with the last pin. Neither changes data, and what is written into a page can be read from it.
  pub record Serves : Type (ℓ ⊔ κ) where
    pub pins : P → ℕ → ℕ
    pub free : P → ℕ
    pub fetches :
        (p : P) (id : ℕ)
        → 0 < free p
        → (p' : P) × (pages.fetch_page p id ≡ some p')
          × SameData p p'
          × ((x : ℕ) → pins p' x ≡ (if x == id then suc (pins p x) else pins p x))
          × (free p' ≡ (if pins p id == 0 then free p - 1 else free p))
    pub unpins :
        (p : P) (id : ℕ) (dirty : Bool)
        → 0 < pins p id
        → (p' : P) × (pages.unpin_page p id dirty ≡ some p')
          × SameData p p'
          × ((x : ℕ) → pins p' x ≡ (if x == id then pins p x - 1 else pins p x))
          × (free p' ≡ (if pins p id == 1 then suc (free p) else free p))
    pub bucket_written :
        (p : P) (id : ℕ) (b : HashTableBucketPage K V)
        → pages.bucket (pages.set_bucket p id b) id ≡ b
    pub bucket_apart :
        (p : P) (id x : ℕ) (b : HashTableBucketPage K V)
        → x ≢ id
        → pages.directory (pages.set_bucket p id b) x ≡ pages.directory p x
    pub bucket_others :
        (p : P) (id x : ℕ) (b : HashTableBucketPage K V)
        → x ≢ id
        → pages.bucket (pages.set_bucket p id b) x ≡ pages.bucket p x
    pub bucket_pins :
        (p : P) (id x : ℕ) (b : HashTableBucketPage K V)
        → pins (pages.set_bucket p id b) x ≡ pins p x
    pub bucket_free :
        (p : P) (id : ℕ) (b : HashTableBucketPage K V) → free (pages.set_bucket p id b) ≡ free p

  -- The directory of a table, which is there.
  pub record Ready (t : HashTable P) : Type 0 where
    pub made : (t.directory_page_id == invalid_page_id) ≡ false
    pub named : (pages.directory t.pool t.directory_page_id).page_id ≡ t.directory_page_id

  abbrev pub directory_of : HashTable P → HashTableDirectoryPage
  directory_of t = pages.directory t.pool t.directory_page_id

  -- On a table whose directory is there, its page is fetched and its data read.
  pub fetch_directory_page_lem :
      (t : HashTable P) (p' : P)
      → Ready t
      → pages.fetch_page t.pool t.directory_page_id ≡ some p'
      → SameData t.pool p'
      → fetch_directory_page pages t
        ≡ done ((t.directory_page_id, directory_of t), record t { pool = p' })
  unfolding fetch_directory_page
  fetch_directory_page_lem t p' r e s =
      rw
        (
          r.made,
          r.made,
          e,
          s.directories t.directory_page_id,
          fetch_directory_page,
          ◌>>◌,
          ◌>>=◌,
          assert_pool,
          read,
          where_so,
          directory_id,
        )
        refl

  pub fetch_bucket_page_lem :
      (t : HashTable P) (p' : P) (id : ℕ)
      → pages.fetch_page t.pool id ≡ some p'
      → SameData t.pool p'
      → fetch_bucket_page pages id t ≡ done (pages.bucket t.pool id, record t { pool = p' })
  unfolding fetch_bucket_page
  fetch_bucket_page_lem t p' id e s =
      rw (e, s.buckets id, fetch_bucket_page, ◌>>◌, ◌>>=◌, assert_pool, read) refl
