-- ===== src/HashPlaces.antt =====
-- src/container/hash/extendible_hash_table.cpp, the parts of SplitInsert and Merge that rewrite the
-- directory and move entries between buckets. An index into the directory is a place.
pub mod Residues
pub mod Loops
pub mod Leads
pub mod Split
pub mod Shrink
pub mod Repoint
pub mod Merge
pub mod Entries
mod Tests
use disk_oriented_concurrenc.Base.{
  ℕ, zero, suc, ◌+◌, ◌-◌, ◌*◌, ◌/◌, ◌%◌, ◌^◌, ◌≡◌, Bool, true, false, not, ◌&&◌, ◌||◌, Option, none,
  some, List, [], ◌∷◌, arith, ltb, leb, ◌==◌, if◌then◌else◌,
}
use disk_oriented_concurrenc.HashDirectory.{
  HashTableDirectoryPage, Checked, returns, asserts, size, incr_global_depth, decr_global_depth,
  set_bucket_page_id, can_shrink, set_local_depth, incr_local_depth, decr_local_depth,
  get_local_high_bit, local_depth_mask,
}
use disk_oriented_concurrenc.HashBucket
use disk_oriented_concurrenc.HashBucket.{HashTableBucketPage}

-- `MAX_BUCKET_DEPTH`
abbrev pub max_bucket_depth : ℕ
max_bucket_depth = 9

infixl 5 ◌>>=◌
abbrev pub ◌>>=◌ {ℓ κ} : {A : Type ℓ} {B : Type κ} → Checked A → (A → Checked B) → Checked B
returns a >>= f = f a
asserts >>= f = asserts

-- `SetBucketPageId(i, page_id); SetLocalDepth(i, GetLocalDepth(split))`
unfoldable pub point : HashTableDirectoryPage → ℕ → ℕ → ℕ → Checked HashTableDirectoryPage
unfolding set_bucket_page_id set_local_depth
point d split page_id i = set_local_depth (set_bucket_page_id d i page_id) i (d.local_depths split)

-- The loop downwards, with the rounds that can follow.
unfoldable pub point_down :
    ℕ → HashTableDirectoryPage → ℕ → ℕ → ℕ → ℕ → Checked HashTableDirectoryPage
unfolding point
point_down zero d split page_id diff i = point d split page_id i
point_down (suc r) d split page_id diff i = do
  d' ← point d split page_id i
  if ltb i diff then returns d' else point_down r d' split page_id diff (i - diff)

-- The loop upwards, with the rounds that are left.
unfoldable pub point_up :
    ℕ → HashTableDirectoryPage → ℕ → ℕ → ℕ → ℕ → Checked HashTableDirectoryPage
unfolding point size
point_up zero d split page_id diff i = returns d
point_up (suc r) d split page_id diff i =
    if ltb i (size d)
    then (do d' ← point d split page_id i; point_up r d' split page_id diff (i + diff))
    else returns d

-- Both loops from place `i`; `i` rounds can follow the first one, and the other has at most `size d`.
unfoldable pub point_all : HashTableDirectoryPage → ℕ → ℕ → ℕ → ℕ → Checked HashTableDirectoryPage
unfolding point_down point_up size
point_all d split page_id diff i = do
  d' ← point_down i d split page_id diff i
  point_up (size d') d' split page_id diff i

-- `IncrGlobalDepth` where the split bucket is as deep as the directory, and `IncrLocalDepth`.
unfoldable pub deepen : HashTableDirectoryPage → ℕ → Checked HashTableDirectoryPage
unfolding incr_global_depth incr_local_depth
deepen d i =
    incr_local_depth (if d.local_depths i == d.global_depth then incr_global_depth d else d) i

-- The directory's part of a split of place `i`, from the split image's index on.
unfoldable pub split_places :
    HashTableDirectoryPage → ℕ → ℕ → ℕ → ℕ → Checked HashTableDirectoryPage
unfolding set_local_depth set_bucket_page_id point_all
split_places d i page_id image image_id = do
  d₁ ← set_local_depth d image (d.local_depths i)
  let d₂ = set_bucket_page_id d₁ image image_id
  let diff = 2 ^ d₂.local_depths i
  d₃ ← point_all d₂ i page_id diff i
  point_all d₃ i image_id diff image

-- The loop of `Merge` that repoints the places of both buckets, after its first `m` rounds.
unfoldable pub repoint : ℕ → HashTableDirectoryPage → ℕ → ℕ → ℕ → Checked HashTableDirectoryPage
unfolding set_bucket_page_id set_local_depth
repoint zero d target target_id image_id = returns d
repoint (suc m) d target target_id image_id = do
  d' ← repoint m d target target_id image_id
  let hit = d'.bucket_page_ids m == target_id || d'.bucket_page_ids m == image_id
  if hit
      then set_local_depth (set_bucket_page_id d' m image_id) m (d'.local_depths target)
      else returns d'

-- `while (dir_page->CanShrink()) dir_page->DecrGlobalDepth()`, for at most `r` rounds.
unfoldable pub shrink : ℕ → HashTableDirectoryPage → HashTableDirectoryPage
unfolding can_shrink decr_global_depth
shrink zero d = d
shrink (suc r) d = elim (can_shrink d) [ true ↦ shrink r (decr_global_depth d) | false ↦ d ]

-- The directory's part of a merge of place `target` into place `image`.
unfoldable pub merge_places : HashTableDirectoryPage → ℕ → ℕ → Checked HashTableDirectoryPage
unfolding set_bucket_page_id decr_local_depth size repoint shrink
merge_places d target image = do
  let target_id = d.bucket_page_ids target
  let image_id = d.bucket_page_ids image
  let d₁ = decr_local_depth (decr_local_depth (set_bucket_page_id d target image_id) target) image
  d₂ ← if d₁.local_depths target == d₁.local_depths image then returns d₁ else asserts
  d₃ ← repoint (size d₂) d₂ target target_id image_id
  returns (shrink d₃.global_depth d₃)

module _ {ℓ κ} {K : Type ℓ} {V : Type κ} (key_eq : K → K → Bool) (value_eq : V → V → Bool)
    (hash : K → ℕ) (n : ℕ) where
  -- The loop of `SplitInsert` over the entries of the old bucket: the two buckets afterwards.
  unfoldable pub redistribute :
      HashTableDirectoryPage
      → ℕ
      → ℕ
      → ℕ
      → List (K × V)
      → HashTableBucketPage K V
      → HashTableBucketPage K V
      → Checked (HashTableBucketPage K V × HashTableBucketPage K V)
  unfolding HashBucket.insert
  redistribute d modulus split_id image_id [] split image = returns (split, image)
  redistribute d modulus split_id image_id (e ∷ rest) split image =
      let page = d.bucket_page_ids (hash e.0 % modulus) in
      let (split', in_split) = HashBucket.insert key_eq value_eq n split e.0 e.1 in
      let (image', in_image) = HashBucket.insert key_eq value_eq n image e.0 e.1 in
      if page == split_id
      then elim in_split [
        | true ↦ redistribute d modulus split_id image_id rest split' image
        | false ↦ asserts
      ]
      else if page == image_id
      then elim in_image [
        | true ↦ redistribute d modulus split_id image_id rest split image'
        | false ↦ asserts
      ]
      else asserts
