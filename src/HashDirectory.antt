-- ===== src/HashDirectory.antt =====
-- src/storage/page/hash_table_directory_page.cpp. The two arrays are functions of the index, and the
-- bounds of the proofs keep indices below `DIRECTORY_ARRAY_SIZE`. The words are `uint32_t` and the
-- local depths `uint8_t`.
pub mod Depth
mod Tests
use disk_oriented_concurrenc.Base.{
  ℕ, zero, suc, ◌+◌, ◌-◌, ◌*◌, ◌/◌, ◌%◌, ◌^◌, ◌≡◌, Bool, true, false, not, ◌&&◌, Option, none, some,
  List, [], ◌∷◌, arith, ltb, leb, ◌==◌, if◌then◌else◌, update, lookup, insert, is_some,
}

pub record HashTableDirectoryPage : Type 0 where
  pub page_id : ℕ
  pub lsn : ℕ
  pub global_depth : ℕ
  pub local_depths : ℕ → ℕ
  pub bucket_page_ids : ℕ → ℕ

-- An `assert` that fails ends the process.
pub data Checked {ℓ} (A : Type ℓ) : Type ℓ where
  returns : A → Checked A
  asserts : Checked A

-- 2^32
abbrev pub word : ℕ
word = 4294967296

-- `Size`, and the masks of the global and of a local depth.
unfoldable pub size : HashTableDirectoryPage → ℕ
size d = 2 ^ d.global_depth

unfoldable pub global_depth_mask : HashTableDirectoryPage → ℕ
global_depth_mask d = 2 ^ d.global_depth - 1

unfoldable pub local_depth_mask : HashTableDirectoryPage → ℕ → ℕ
local_depth_mask d i = 2 ^ d.local_depths i - 1

-- The loop of `IncrGlobalDepth`, after `m` of its rounds, on one of the arrays.
unfoldable pub copy_up : ℕ → ℕ → (ℕ → ℕ) → ℕ → ℕ
copy_up org_num zero f = f
copy_up org_num (suc m) f = let g = copy_up org_num m f in update g (org_num + m) (g m)

unfoldable pub incr_global_depth : HashTableDirectoryPage → HashTableDirectoryPage
unfolding size copy_up
incr_global_depth d = record d {
  bucket_page_ids = copy_up (size d) (size d) d.bucket_page_ids;
  local_depths = copy_up (size d) (size d) d.local_depths;
  global_depth = (d.global_depth + 1) % word;
}

unfoldable pub decr_global_depth : HashTableDirectoryPage → HashTableDirectoryPage
decr_global_depth d = record d { global_depth = (d.global_depth + word - 1) % word }

unfoldable pub set_bucket_page_id : HashTableDirectoryPage → ℕ → ℕ → HashTableDirectoryPage
set_bucket_page_id d i id = record d { bucket_page_ids = update d.bucket_page_ids i id }

-- The loop of `CanShrink` over the first `m` places.
unfoldable pub shrinks_below : HashTableDirectoryPage → ℕ → Bool
shrinks_below d zero = true
shrinks_below d (suc m) = if shrinks_below d m then ltb (d.local_depths m) d.global_depth else false

unfoldable pub can_shrink : HashTableDirectoryPage → Bool
unfolding size shrinks_below
can_shrink d = shrinks_below d (size d)

unfoldable pub set_local_depth : HashTableDirectoryPage → ℕ → ℕ → Checked HashTableDirectoryPage
set_local_depth d i depth =
    if leb depth d.global_depth
    then returns (record d { local_depths = update d.local_depths i depth })
    else asserts

unfoldable pub incr_local_depth : HashTableDirectoryPage → ℕ → Checked HashTableDirectoryPage
incr_local_depth d i =
    if ltb (d.local_depths i) d.global_depth
    then returns
        (record d { local_depths = update d.local_depths i ((d.local_depths i + 1) % 256) })
    else asserts

unfoldable pub decr_local_depth : HashTableDirectoryPage → ℕ → HashTableDirectoryPage
decr_local_depth d i = record d {
  local_depths = update d.local_depths i ((d.local_depths i + 255) % 256);
}

-- `bucket_idx ^ (1 << (local_depth - 1))`, which clears the bit of weight `b` or sets it; or none where
-- the shift is by -1.
unfoldable pub get_local_high_bit : HashTableDirectoryPage → ℕ → Option ℕ
get_local_high_bit d i =
    let b = 2 ^ (d.local_depths i - 1) in
    if d.local_depths i == 0
    then none
    else if leb b (i % (b + b))
    then some (i - b)
    else some (i + b)

-- `map[key]`, which is 0 for a key that is missing.
unfoldable pub at_key : ℕ → List (ℕ × ℕ) → ℕ
unfolding lookup
at_key k m = elim (lookup k m) [ none ↦ 0 | some x ↦ x ]

-- `VerifyIntegrity`: the maps after the first `m` places, or that an assertion failed.
unfoldable pub tally : HashTableDirectoryPage → ℕ → Checked (List (ℕ × ℕ) × List (ℕ × ℕ))
unfolding lookup insert at_key
tally d zero = returns ([], [])
tally d (suc m) = elim (tally d m) [
  | asserts ↦ asserts
  | returns (counts, depths) ↦
      let id = d.bucket_page_ids m in
      let depth = d.local_depths m in
      let count = at_key id counts in
      let after = returns (insert id (count + 1) counts, insert id depth depths) in
      if leb depth d.global_depth
      then elim (lookup id depths) [
        | none ↦ after
        | some old ↦ if depth == old then after else asserts
      ]
      else asserts
]

-- Whether each page is counted as often as its depth requires.
unfoldable pub counts_match : ℕ → List (ℕ × ℕ) → List (ℕ × ℕ) → Bool
unfolding at_key
counts_match global [] depths = true
counts_match global ((id, count) ∷ rest) depths =
    let others = counts_match global rest depths in
    let depth = at_key id depths in if count == 2 ^ (global - depth) then others else false

unfoldable pub verify_integrity : HashTableDirectoryPage → Bool
unfolding size tally counts_match
verify_integrity d = elim (tally d (size d)) [
  | asserts ↦ false
  | returns (counts, depths) ↦ counts_match d.global_depth counts depths
]
