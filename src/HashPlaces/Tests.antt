-- ===== src/HashPlaces/Tests.antt =====
-- A directory of two buckets of depth 1, split at place 0 and merged again.
use disk_oriented_concurrenc.Base.{
  ℕ, List, Bool, ◌∷◌, [], ◌<◌, ◌≡◌, refl, true, some, arith, ◌==◌, if◌then◌else◌,
}
use disk_oriented_concurrenc.HashDirectory.{
  HashTableDirectoryPage, returns, size, can_shrink, get_local_high_bit,
}
use disk_oriented_concurrenc.HashDirectory.Depth.{Mirrored}
use disk_oriented_concurrenc.HashPlaces.{deepen, split_places, shrink, merge_places, redistribute}
use disk_oriented_concurrenc.HashBucket.{HashTableBucketPage, get_array_copy, reset}
use disk_oriented_concurrenc.HashPlaces.Entries
use disk_oriented_concurrenc.HashPlaces.Shrink
use disk_oriented_concurrenc.HashPlaces.Shrink.{Shrunk}
use disk_oriented_concurrenc.HashPlaces.Split
use disk_oriented_concurrenc.HashPlaces.Split.{Splits}
use disk_oriented_concurrenc.HashPlaces.Merge
use disk_oriented_concurrenc.HashPlaces.Merge.{Merges, Separate, Halves}

abbrev halves : HashTableDirectoryPage
halves = record {
  page_id = 3;
  lsn = 0;
  global_depth = 1;
  local_depths = λ i. 1;
  bucket_page_ids = λ i. if i == 0 then 10 else 11;
}

halves-Mirrored : Mirrored halves
halves-Mirrored = record { bounded = λ i x. omega arith; same = λ i j x y e. ground arith }

-- One bucket of depth 0 at two places.
abbrev whole : HashTableDirectoryPage
whole = record halves { local_depths = λ i. 0; bucket_page_ids = λ i. 10 }

whole-Mirrored : Mirrored whole
whole-Mirrored = record { bounded = λ i x. omega arith; same = λ i j x y e. (refl, refl) }

halves-Halves : Halves halves 0 1 0
halves-Halves = record {
  mirrored = halves-Mirrored;
  separate = λ x y e. ground arith;
  bounded = omega arith;
  place = omega arith;
  image_of = record {
    within = omega arith;
    same = refl;
    differs = λ e. ground arith;
    covers = λ h e. ground arith;
  };
  target_depth = refl;
  image_depth = refl;
}

room : 0 < size halves
unfolding size
room = omega arith

split_places-Splits_example :
    (d₁ : HashTableDirectoryPage) × (image : ℕ) × (d' : HashTableDirectoryPage) × (deepen halves 0
      ≡ returns d₁)
    × (get_local_high_bit d₁ 0 ≡ some image)
    × (split_places d₁ 0 10 image 12 ≡ returns d')
    × Splits halves d' 0 1 10 image 12
split_places-Splits_example =
    Split.split_places-Splits halves 0 10 12 halves-Mirrored (omega arith) room (omega arith)

merge_places-Merges_example :
    (d' : HashTableDirectoryPage) × (merge_places halves 0 1 ≡ returns d') × Merges halves d' 0 0 11
merge_places-Merges_example = Merge.merge_places-Merges halves 0 1 0 halves-Halves

-- Four keys, each its own hash, in a bucket of six slots.
abbrev same : ℕ → ℕ → Bool
same a b = a == b

abbrev four : List (ℕ × ℕ)
four = (4, 40) ∷ (7, 70) ∷ (2, 20) ∷ (9, 90) ∷ []

redistribute-get_array_copy_example :
    (split : HashTableBucketPage ℕ ℕ) × (image : HashTableBucketPage ℕ ℕ) × (redistribute same same
        (λ k. k)
        6
        halves
        2
        10
        11
        four
        (reset (0, 0))
        (reset (0, 0))
      ≡ returns (split, image))
    × (get_array_copy 6 split ≡ (4, 40) ∷ (2, 20) ∷ [])
    × (get_array_copy 6 image ≡ (7, 70) ∷ (9, 90) ∷ [])
redistribute-get_array_copy_example =
    Entries.redistribute-get_array_copy same same (λ k. k) 6 halves 2 10 11 four (0, 0)
      (λ e. ground arith) (omega arith) refl refl

shrink-Shrunk_example : Shrunk whole (shrink 1 whole)
shrink-Shrunk_example = Shrink.shrink-Shrunk 1 whole whole-Mirrored (omega arith) (omega arith)

-- Place 1 is the split image of place 0, and the merged directory has one place.
runs :
    (get_local_high_bit halves 0 ≡ some 1)
    × (can_shrink whole ≡ true)
    × ((shrink 1 whole).global_depth ≡ 0)
unfolding get_local_high_bit can_shrink shrink
runs = (refl, refl, refl)
