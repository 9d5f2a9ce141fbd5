-- ===== src/HashTable.antt =====
-- src/container/hash/extendible_hash_table.cpp. The table is a state of its own: the id of its directory,
-- its latch, and the pool that keeps its pages, of which it uses what `PagePool` names. A page is read
-- when it is fetched and written back before it is unpinned. The latches of the bucket pages are taken and
-- released inside each call and are left out, as is `init_lock_`.
pub mod State
pub mod Pool
pub mod Calls
pub mod Inserts
pub mod Lookup
pub mod Post
pub mod Rounds
mod Tests
unfoldable pub use State.*
use disk_oriented_concurrenc.Base.{
  ℕ, zero, suc, ◌+◌, ◌-◌, ◌*◌, ◌/◌, ◌%◌, ◌^◌, ◌≡◌, Bool, true, false, not, ◌&&◌, ◌||◌, Option, none,
  some, List, [], ◌∷◌, arith, ltb, leb, ◌==◌, if◌then◌else◌,
}
use disk_oriented_concurrenc.RwLatch.{RwLatch, r_lock, r_unlock, w_lock, w_unlock}
use disk_oriented_concurrenc.RwLatch
use disk_oriented_concurrenc.HashDirectory.{
  HashTableDirectoryPage, Checked, returns, asserts, word, size, set_bucket_page_id,
  get_local_high_bit, verify_integrity,
}
use disk_oriented_concurrenc.HashBucket
use disk_oriented_concurrenc.HashBucket.{
  HashTableBucketPage, is_full, is_empty, get_array_copy, reset,
}
use disk_oriented_concurrenc.HashPlaces.{
  max_bucket_depth, deepen, split_places, redistribute, merge_places,
}

module _ {ℓ} {K : Type ℓ} (hash_fn : K → ℕ) where
  -- The hash's low 32 bits, and the place and the page where it leads.
  unfoldable pub hash : K → ℕ
  hash key = hash_fn key % word

  unfoldable pub key_to_directory_index : K → HashTableDirectoryPage → ℕ
  unfolding hash size
  key_to_directory_index key d = hash key % size d

  unfoldable pub key_to_page_id : K → HashTableDirectoryPage → ℕ
  unfolding key_to_directory_index
  key_to_page_id key d = d.bucket_page_ids (key_to_directory_index key d)

module _ {ℓ κ} {P : Type 0} {K : Type ℓ} {V : Type κ} (pages : PagePool P K V) where
  abbrev pub new_page : Call P ℕ
  new_page t = elim (pages.new_page t.pool) [
    | none ↦ failed
    | some (id, p) ↦ done (id, record t { pool = p })
  ]

  -- The part of `FetchDirectoryPage` that makes the directory and its first bucket.
  unfoldable pub create_directory : Call P (Unit {0})
  unfolding set_bucket_page_id
  create_directory = do
    dir_id ← new_page
    name_directory dir_id
    bucket_id ← new_page
    write λ p.
        pages.set_directory p dir_id
          (set_bucket_page_id (record (pages.directory p dir_id) { page_id = dir_id }) 0 bucket_id)
    assert_pool λ p. pages.unpin_page p dir_id true
    assert_pool λ p. pages.unpin_page p bucket_id true

  -- `FetchDirectoryPage`: the directory's id and data.
  unfoldable pub fetch_directory_page : Call P (ℕ × HashTableDirectoryPage)
  unfolding create_directory
  fetch_directory_page = do
    where_so (λ t. t.directory_page_id == invalid_page_id) create_directory
    dir_id ← directory_id
    assert_pool λ p. pages.fetch_page p dir_id
    d ← read λ p. pages.directory p dir_id
    give (dir_id, d)

  unfoldable pub fetch_bucket_page : ℕ → Call P (HashTableBucketPage K V)
  fetch_bucket_page id = do assert_pool λ p. pages.fetch_page p id; read λ p. pages.bucket p id

  unfoldable pub get_global_depth : Call P ℕ
  unfolding fetch_directory_page r_lock r_unlock
  get_global_depth = do
    latch r_lock
    (dir_id, d) ← fetch_directory_page
    λ t. assert_pool (λ p. pages.unpin_page p t.directory_page_id false) t
    unlatch r_unlock
    give d.global_depth

  -- `VerifyIntegrity`
  unfoldable pub verify : Call P (Unit {0})
  unfolding fetch_directory_page r_lock r_unlock verify_integrity
  verify = do
    latch r_lock
    (dir_id, d) ← fetch_directory_page
    assert_that (verify_integrity d)
    λ t. assert_pool (λ p. pages.unpin_page p t.directory_page_id false) t
    unlatch r_unlock

module _ {ℓ κ} {P : Type 0} {K : Type ℓ} {V : Type κ} (pages : PagePool P K V)
    (key_eq : K → K → Bool) (value_eq : V → V → Bool) (hash_fn : K → ℕ) (blank : K × V)
    (n : ℕ) where
  -- `GetValue`: the caller's vector afterwards, and whether a value was found.
  unfoldable pub get_value : K → List V → Call P (List V × Bool)
  unfolding fetch_directory_page key_to_page_id fetch_bucket_page r_lock r_unlock
      HashBucket.get_value
  get_value key result = do
    latch r_lock
    (dir_id, d) ← fetch_directory_page pages
    let bucket_id = key_to_page_id hash_fn key d
    b ← fetch_bucket_page pages bucket_id
    assert_pool λ p. pages.unpin_page p bucket_id false
    assert_pool λ p. pages.unpin_page p d.page_id false
    unlatch r_unlock
    give (HashBucket.get_value key_eq value_eq n b key result)

  -- The part of `SplitInsert` that makes two buckets of one: their ids and the directory.
  unfoldable pub halve :
      K → ℕ → HashTableDirectoryPage → ℕ → Call P (ℕ × ℕ × HashTableDirectoryPage)
  unfolding key_to_page_id fetch_bucket_page hash deepen get_array_copy reset get_local_high_bit
      split_places redistribute
  halve key dir_id d index = do
    d₁ ← check (deepen d index)
    let split_id = key_to_page_id hash_fn key d₁
    b ← fetch_bucket_page pages split_id
    image_id ← new_page pages
    new_b ← read λ p. pages.bucket p image_id
    image ← expect (get_local_high_bit d₁ index)
    d₂ ← check (split_places d₁ index split_id image image_id)
    (split_b, image_b) ← check (
        redistribute key_eq value_eq (hash hash_fn) n d₂ (2 ^ d₂.local_depths index) split_id
          image_id (get_array_copy n b) (reset blank) new_b)
    write λ p. pages.set_bucket p split_id split_b
    write λ p. pages.set_bucket p image_id image_b
    write λ p. pages.set_directory p dir_id d₂
    give (split_id, image_id, d₂)

  -- `SplitInsert`, with the call of `Insert` that ends it.
  unfoldable pub split_insert : Call P Bool → K → Call P Bool
  unfolding fetch_directory_page key_to_directory_index w_lock w_unlock halve
  split_insert again key = do
    latch w_lock
    (dir_id, d) ← fetch_directory_page pages
    let index = key_to_directory_index hash_fn key d
    let stop = (do
      assert_pool λ p. pages.unpin_page p d.page_id false
      unlatch w_unlock
      give false)
    let go = (do
      (split_id, image_id, d₂) ← halve key dir_id d index
      assert_pool λ p. pages.unpin_page p split_id true
      assert_pool λ p. pages.unpin_page p image_id true
      assert_pool λ p. pages.unpin_page p d₂.page_id true
      unlatch w_unlock
      again)
    if leb max_bucket_depth (d.local_depths index) then stop else go

  -- `Insert`, for at most `r` rounds: a round that finds the bucket full splits it and goes on with the next.
  unfoldable pub insert : ℕ → K → V → Call P Bool
  unfolding fetch_directory_page key_to_page_id fetch_bucket_page r_lock r_unlock is_full
      HashBucket.insert split_insert
  insert zero key value t = spent
  insert (suc r) key value t =
      let again = insert r key value in
      (do
        latch r_lock
        (dir_id, d) ← fetch_directory_page pages
        let bucket_id = key_to_page_id hash_fn key d
        b ← fetch_bucket_page pages bucket_id
        let (b', ok) = HashBucket.insert key_eq value_eq n b key value
        let put = (do
          write λ p. pages.set_bucket p bucket_id b'
          assert_pool λ p. pages.unpin_page p bucket_id true
          assert_pool λ p. pages.unpin_page p d.page_id false
          give ok)
        let split = (do
          assert_pool λ p. pages.unpin_page p bucket_id false
          assert_pool λ p. pages.unpin_page p d.page_id false
          unlatch r_unlock
          split_insert again key)
        if not (is_full n b) then put else split)
        t

  -- `Merge` of the bucket at a place. The split image of a bucket of depth 0 is not used.
  unfoldable pub merge : ℕ → Call P (Unit {0})
  unfolding fetch_directory_page fetch_bucket_page w_lock w_unlock is_empty size get_local_high_bit
      merge_places
  merge target = do
    latch w_lock
    (dir_id, d) ← fetch_directory_page pages
    let target_id = d.bucket_page_ids target
    let leave = (do assert_pool λ p. pages.unpin_page p d.page_id false; unlatch w_unlock)
    let leave_both = (do
      assert_pool λ p. pages.unpin_page p target_id false
      assert_pool λ p. pages.unpin_page p d.page_id false
      unlatch w_unlock)
    let join = λ (image : ℕ). (do
      assert_pool λ p. pages.unpin_page p target_id false
      assert_pool λ p. pages.delete_page p target_id
      d' ← check (merge_places d target image)
      write λ p. pages.set_directory p dir_id d'
      assert_pool λ p. pages.unpin_page p d'.page_id true
      unlatch w_unlock)
    let try = λ (image : ℕ). (do
      b ← fetch_bucket_page pages target_id
      if is_empty n b then join image else leave_both)
    let with_image =
        λ (image : ℕ). if d.local_depths target == d.local_depths image then try image else leave
    let shallow = d.local_depths target == 0
    let deep = (do image ← expect (get_local_high_bit d target); with_image image)
    if leb (size d) target then unlatch w_unlock else if shallow then leave else deep

  unfoldable pub remove : K → V → Call P Bool
  unfolding fetch_directory_page key_to_page_id key_to_directory_index fetch_bucket_page r_lock
      r_unlock is_empty HashBucket.remove merge
  remove key value = do
    latch r_lock
    (dir_id, d) ← fetch_directory_page pages
    let bucket_id = key_to_page_id hash_fn key d
    let index = key_to_directory_index hash_fn key d
    b ← fetch_bucket_page pages bucket_id
    let (b', ok) = HashBucket.remove key_eq value_eq n b key value
    write λ p. pages.set_bucket p bucket_id b'
    assert_pool λ p. pages.unpin_page p bucket_id true
    assert_pool λ p. pages.unpin_page p d.page_id false
    unlatch r_unlock
    if is_empty n b' then merge index else give tt
    give ok
