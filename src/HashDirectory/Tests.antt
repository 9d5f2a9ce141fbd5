-- ===== src/HashDirectory/Tests.antt =====
-- Directories of two places.
use disk_oriented_concurrenc.Base.{◌≡◌, refl, true, false, arith, ◌==◌, if◌then◌else◌}
use disk_oriented_concurrenc.HashDirectory.{
  HashTableDirectoryPage, incr_global_depth, verify_integrity,
}
use disk_oriented_concurrenc.HashDirectory.Depth.{Mirrored}

-- Two buckets of depth 1.
abbrev split : HashTableDirectoryPage
split = record {
  page_id = 3;
  lsn = 0;
  global_depth = 1;
  local_depths = λ i. 1;
  bucket_page_ids = λ i. if i == 0 then 10 else 11;
}

-- One bucket of depth 0.
abbrev whole : HashTableDirectoryPage
whole = record {
  page_id = 3;
  lsn = 0;
  global_depth = 1;
  local_depths = λ i. 0;
  bucket_page_ids = λ i. 10;
}

split-Mirrored : Mirrored split
split-Mirrored = record { bounded = λ i x. omega arith; same = λ i j x y e. ground arith }

whole-Mirrored : Mirrored whole
whole-Mirrored = record { bounded = λ i x. omega arith; same = λ i j x y e. (refl, refl) }

integrity :
    (verify_integrity split ≡ true)
    × (verify_integrity (incr_global_depth split) ≡ true)
    × (verify_integrity (record split { local_depths = λ i. 0 }) ≡ false)
unfolding verify_integrity incr_global_depth disk_oriented_concurrenc.Base.erase
integrity = (refl, refl, refl)
