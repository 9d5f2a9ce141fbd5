-- ===== src/HashTable/Inserts.antt =====
-- Insert on a table whose directory is there: into a bucket with a free slot, and into a full one.
use disk_oriented_concurrenc.Base.{ℕ, suc, ◌≡◌, ◌≢◌, Bool, true, false, some}
use disk_oriented_concurrenc.RwLatch.{RwLatch}
use disk_oriented_concurrenc.HashBucket
use disk_oriented_concurrenc.HashBucket.{HashTableBucketPage, get_array_copy, is_nil}
use disk_oriented_concurrenc.HashTable.{PagePool, HashTable, latch}
use disk_oriented_concurrenc.HashTable.Pool.{SameData, Serves, Ready, directory_of}
use disk_oriented_concurrenc.HashTable.Calls.{page_of, bucket_at}

module _ {ℓ κ} {P : Type 0} {K : Type ℓ} {V : Type κ} (pages : PagePool P K V) where
  -- The pool after both pages were fetched, a bucket was written, and both pages were unpinned.
  record Put (serves : Serves pages) (p : P) (x y : ℕ) (b : HashTableBucketPage K V)
      : Type (ℓ ⊔ κ) where
    pub p₁ : P
    pub p₂ : P
    pub p₃ : P
    pub p₄ : P
    pub fetch₁ : pages.fetch_page p x ≡ some p₁
    pub same₁ : SameData pages p p₁
    pub fetch₂ : pages.fetch_page p₁ y ≡ some p₂
    pub same₂ : SameData pages p₁ p₂
    pub unpin₃ : pages.unpin_page (pages.set_bucket p₂ y b) y true ≡ some p₃
    pub unpin₄ : pages.unpin_page p₃ x false ≡ some p₄
    pub written : pages.bucket p₄ y ≡ b
    pub others : (k : ℕ) → k ≢ y → pages.bucket p₄ k ≡ pages.bucket p k
    pub directories : (k : ℕ) → k ≢ y → pages.directory p₄ k ≡ pages.directory p k
    pub pins : (k : ℕ) → serves.pins p₄ k ≡ serves.pins p k
    pub free : serves.free p₄ ≡ serves.free p

module _ {ℓ κ} {P : Type 0} {K : Type ℓ} {V : Type κ} (pages : PagePool P K V)
    (key_eq : K → K → Bool) (value_eq : V → V → Bool) (hash_fn : K → ℕ) (blank : K × V)
    (n : ℕ) where
  -- A table where an `Insert` has run, with the bucket `b` where its key leads.
  pub record Stores (serves : Serves pages) (key : K) (b : HashTableBucketPage K V)
      (t t' : HashTable P) : Type (ℓ ⊔ κ) where
    pub ready : Ready pages t'
    pub directory : directory_of pages t' ≡ directory_of pages t
    pub bucket : bucket_at pages hash_fn key t' ≡ b
    pub others :
        (k : ℕ) → k ≢ page_of pages hash_fn key t → pages.bucket t'.pool k ≡ pages.bucket t.pool k
    pub latch :
        t'.table_latch ≡ record t.table_latch { reader_count = suc t.table_latch.reader_count }
    pub pins : (k : ℕ) → serves.pins t'.pool k ≡ serves.pins t.pool k
    pub free : serves.free t'.pool ≡ serves.free t.pool
