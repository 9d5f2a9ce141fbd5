-- ===== src/HashBucket/Tests.antt =====
-- A bucket of ten slots, two of them in use.
use disk_oriented_concurrenc.Base.{
  ℕ, zero, suc, ◌+◌, ◌/◌, ◌%◌, ◌≡◌, refl, Bool, false, [], ◌∷◌, arith, ◌==◌, length, if◌then◌else◌,
}
use disk_oriented_concurrenc.HashBucket.{
  HashTableBucketPage, bit, is_readable, insert, remove, get_array_copy, num_readable, is_full,
  is_empty,
}
use disk_oriented_concurrenc.HashBucket.Bitmap
use disk_oriented_concurrenc.HashBucket.Bitmap.{IsPadded}
use disk_oriented_concurrenc.HashBucket.Changes
use disk_oriented_concurrenc.HashBucket.Changes.{Inserts, Removes}

abbrev equal : ℕ → ℕ → Bool
equal a b = a == b

-- Slots 0 and 2 hold the key 5 with the values 50 and 52.
abbrev bucket : HashTableBucketPage ℕ ℕ
bucket = record {
  occupied = λ q. if q == 0 then 7 else 0;
  readable = λ q. if q == 0 then 5 else 0;
  array = λ i. (5, 50 + i);
}

bit_of_zero : (j : ℕ) → bit 0 j ≡ false
unfolding bit
bit_of_zero zero = refl
bit_of_zero (suc j) = bit_of_zero j

bucket-IsPadded : IsPadded 10 bucket
unfolding is_readable
bucket-IsPadded i h = let e : (i / 8 == 0) ≡ false = ground arith in rw e (bit_of_zero (i % 8))

copies : get_array_copy 10 bucket ≡ (5, 50) ∷ (5, 52) ∷ []
unfolding get_array_copy
copies = refl

insert-Inserts_example : Inserts equal equal bucket 5 51 10 (insert equal equal 10 bucket 5 51)
insert-Inserts_example = Changes.insert-Inserts equal equal 10 bucket 5 51

remove-Removes_example : Removes equal equal bucket 5 52 10 (remove equal equal 10 bucket 5 52)
remove-Removes_example = Changes.remove-Removes equal equal 10 bucket 5 52

num_readable-get_array_copy_example :
    (num_readable 10 bucket ≡ length (get_array_copy 10 bucket))
    × (is_full 10 bucket ≡ (length (get_array_copy 10 bucket) == 10))
    × (is_empty 10 bucket ≡ (length (get_array_copy 10 bucket) == 0))
num_readable-get_array_copy_example =
    Bitmap.num_readable-get_array_copy 10 bucket (omega arith) bucket-IsPadded

removed : get_array_copy 10 (remove equal equal 10 bucket 5 52).0 ≡ (5, 50) ∷ []
unfolding get_array_copy remove
removed = refl
