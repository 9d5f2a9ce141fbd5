-- ===== src/HashTable/State.antt =====
-- The table's state, its calls as functions of it, and what it uses of the buffer pool.
use disk_oriented_concurrenc.Base.{ℕ, Bool, Option, none, some, ◌==◌, if◌then◌else◌}
use disk_oriented_concurrenc.RwLatch.{RwLatch, r_lock, r_unlock, w_lock, w_unlock}
use disk_oriented_concurrenc.RwLatch
use disk_oriented_concurrenc.HashDirectory.{HashTableDirectoryPage, Checked, returns, asserts}
use disk_oriented_concurrenc.HashBucket.{HashTableBucketPage}

-- `INVALID_PAGE_ID`, the pattern of -1.
abbrev pub invalid_page_id : ℕ
invalid_page_id = 4294967295

-- What the table uses of a `BufferPoolManager`: its four calls, which fail with a null page or with
-- false, and the data of a page, read as a directory or as a bucket.
pub record PagePool {ℓ κ} (P : Type 0) (K : Type ℓ) (V : Type κ) : Type (ℓ ⊔ κ) where
  pub new_page : P → Option (ℕ × P)
  pub fetch_page : P → ℕ → Option P
  pub unpin_page : P → ℕ → Bool → Option P
  pub delete_page : P → ℕ → Option P
  pub directory : P → ℕ → HashTableDirectoryPage
  pub set_directory : P → ℕ → HashTableDirectoryPage → P
  pub bucket : P → ℕ → HashTableBucketPage K V
  pub set_bucket : P → ℕ → HashTableBucketPage K V → P

pub record HashTable (P : Type 0) : Type 0 where
  pub directory_page_id : ℕ
  pub table_latch : RwLatch
  pub pool : P

-- A call returns, fails an assertion, waits for a latch that nobody will release, or has
-- had no rounds left.
pub data Outcome {ℓ} (A : Type ℓ) : Type ℓ where
  done : A → Outcome A
  failed : Outcome A
  waits : Outcome A
  spent : Outcome A

-- The constructor.
unfoldable pub init : {P : Type 0} → P → HashTable P
init p = record { directory_page_id = invalid_page_id; table_latch = RwLatch.init; pool = p }

abbrev pub Call {ℓ} : Type 0 → Type ℓ → Type ℓ
Call P A = HashTable P → Outcome (A × HashTable P)

infixl 5 ◌>>=◌
abbrev pub ◌>>=◌ {ℓ κ} :
    {P : Type 0} {A : Type ℓ} {B : Type κ} → Call P A → (A → Call P B) → Call P B
m >>= f =
    λ t. elim (m t) [ done (a, t') ↦ f a t' | failed ↦ failed | waits ↦ waits | spent ↦ spent ]

infixl 5 ◌>>◌
abbrev pub ◌>>◌ {ℓ κ} : {P : Type 0} {A : Type ℓ} {B : Type κ} → Call P A → Call P B → Call P B
m >> k = m >>= λ _. k

module _ {P : Type 0} where
  abbrev pub give {ℓ} : {A : Type ℓ} → A → Call P A
  give a t = done (a, t)

  -- What a part of a call answers, where an assertion can fail.
  abbrev pub check {ℓ} : {A : Type ℓ} → Checked A → Call P A
  check (returns a) t = done (a, t)
  check asserts t = failed

  abbrev pub expect {ℓ} : {A : Type ℓ} → Option A → Call P A
  expect (some a) t = done (a, t)
  expect none t = failed

  -- The calls on `table_latch_` that can wait, and those that cannot.
  abbrev pub latch : (RwLatch → Option RwLatch) → Call P (Unit {0})
  latch f t = elim (f t.table_latch) [
    | none ↦ waits
    | some l ↦ done (tt, record t { table_latch = l })
  ]

  abbrev pub unlatch : (RwLatch → RwLatch) → Call P (Unit {0})
  unlatch f t = done (tt, record t { table_latch = f t.table_latch })

  -- An assertion on a call of the pool.
  abbrev pub assert_pool : (P → Option P) → Call P (Unit {0})
  assert_pool f t = elim (f t.pool) [ none ↦ failed | some p ↦ done (tt, record t { pool = p }) ]

  abbrev pub assert_that : Bool → Call P (Unit {0})
  assert_that b t = if b then done (tt, t) else failed

  abbrev pub name_directory : ℕ → Call P (Unit {0})
  name_directory id t = done (tt, record t { directory_page_id = id })

  -- A part of a call that runs on a condition.
  abbrev pub where_so : (HashTable P → Bool) → Call P (Unit {0}) → Call P (Unit {0})
  where_so f m t = if f t then m t else done (tt, t)

  -- The directory's id, asserted not to be `INVALID_PAGE_ID`.
  abbrev pub directory_id : Call P ℕ
  directory_id t =
      if t.directory_page_id == invalid_page_id then failed else done (t.directory_page_id, t)

  abbrev pub write : (P → P) → Call P (Unit {0})
  write f t = done (tt, record t { pool = f t.pool })

  abbrev pub read {ℓ} : {A : Type ℓ} → (P → A) → Call P A
  read f t = done (f t.pool, t)
