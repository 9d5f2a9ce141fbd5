-- ===== src/HashBucket/Bitmap.antt =====
-- The bucket's bitmap operations against the slots that they name.
use disk_oriented_concurrenc.Base.{
  ℕ, zero, suc, ◌+◌, ◌-◌, ◌*◌, ◌/◌, ◌%◌, ◌≤◌, ◌<◌, ◌≡◌, refl, ap, Bool, false, not, ◌&&◌, ◌||◌,
  arith, ltb, ◌==◌, Bool-cases, inl, inr, length,
}
use disk_oriented_concurrenc.HashBucket.{
  HashTableBucketPage, is_readable, is_occupied, set_occupied, set_readable, remove_at,
  num_readable, is_full, is_empty, get_array_copy, copy_from,
}
use disk_oriented_concurrenc.HashBucket.Bits.{
  bit-set_bit, bit-clear_bit, count, every, place, count-add, count_same, every_append, count_byte,
  all_byte, count_bytes_lem, full_bytes_lem, zero_bytes_lem,
}

same_slot : (i k : ℕ) → (i == k) ≡ (i / 8 == k / 8 && i % 8 == k % 8)
same_slot i k = ground arith

module _ {ℓ κ} {K : Type ℓ} {V : Type κ} where
  pub is_readable-set_readable :
      (b : HashTableBucketPage K V) (k i : ℕ)
      → is_readable (set_readable b k) i ≡ (i == k || is_readable b i)
  unfolding is_readable set_readable
  is_readable-set_readable b k i =
      ground (arith, same_slot i k, bit-set_bit (b.readable (k / 8)) (k % 8) (i % 8))

  pub is_occupied-set_occupied :
      (b : HashTableBucketPage K V) (k i : ℕ)
      → is_occupied (set_occupied b k) i ≡ (i == k || is_occupied b i)
  unfolding is_occupied set_occupied
  is_occupied-set_occupied b k i =
      ground (arith, same_slot i k, bit-set_bit (b.occupied (k / 8)) (k % 8) (i % 8))

  pub is_readable-remove_at :
      (b : HashTableBucketPage K V) (k i : ℕ)
      → is_readable (remove_at b k) i ≡ (not (i == k) && is_readable b i)
  unfolding is_readable remove_at
  is_readable-remove_at b k i =
      ground (arith, same_slot i k, bit-clear_bit (b.readable (k / 8)) (k % 8) (i % 8))

  -- No slot past the last one is marked: what is left of the last byte stays zero.
  abbrev pub IsPadded : ℕ → HashTableBucketPage K V → Type 0
  IsPadded n b = (i : ℕ) → n ≤ i → is_readable b i ≡ false

  -- The number of slots that can be read.
  pub num_readable-count :
      (n : ℕ) (b : HashTableBucketPage K V) → num_readable n b ≡ count (is_readable b) n
  unfolding num_readable is_readable
  num_readable-count n b =
      let r = b.readable in
      let q = n / 8 in
      let whole : 8 * q + n % 8 ≡ n = omega arith in
      let e : count (place r) (8 * q + n % 8) ≡ count (place r) n = ap (count (place r)) whole in
      let s = count-add (place r) (8 * q) (n % 8) in
      let c = count_byte r q (n % 8) (omega arith) in
      elim (Bool-cases (ltb 0 (n % 8))) [
        | inl h ↦ ground (arith, e, s, c, count_bytes_lem r q)
        | inr h ↦
            let z : n % 8 ≡ 0 = ground arith in
            let e' : count (place r) (8 * q) ≡ count (place r) n =
              ap (count (place r)) (omega (arith, z)) in
            ground (arith, e', count_bytes_lem r q)
      ]

  pub is_full-every : (n : ℕ) (b : HashTableBucketPage K V) → is_full n b ≡ every (is_readable b) n
  unfolding is_full is_readable
  is_full-every n b =
      let r = b.readable in
      let q = n / 8 in
      let whole : 8 * q + n % 8 ≡ n = omega arith in
      let e : every (place r) (8 * q + n % 8) ≡ every (place r) n = ap (every (place r)) whole in
      let s = every_append (place r) (8 * q) (n % 8) in
      let c = all_byte r q (n % 8) (omega arith) in
      elim (Bool-cases (ltb 0 (n % 8))) [
        | inl h ↦ ground (arith, e, s, c, full_bytes_lem r q)
        | inr h ↦
            let w : 8 * q ≡ n = ground arith in
            let e' : every (place r) (8 * q) ≡ every (place r) n = ap (every (place r)) w in
            ground (arith, e', full_bytes_lem r q)
      ]

  pub is_empty-every :
      (n : ℕ) (b : HashTableBucketPage K V)
      → is_empty n b ≡ every (λ k. not (is_readable b k)) (8 * ((n - 1) / 8 + 1))
  unfolding is_empty is_readable
  is_empty-every n b = zero_bytes_lem b.readable ((n - 1) / 8 + 1)

  pub length-copy_from :
      (b : HashTableBucketPage K V) (i m : ℕ)
      → length (copy_from b i m) ≡ count (λ k. is_readable b (i + k)) m
  unfolding copy_from
  length-copy_from b i zero = refl
  length-copy_from b i (suc m) =
      let z : is_readable b (i + 0) ≡ is_readable b i =
        ap (is_readable b) {x = i + 0} {y = i} (omega arith) in
      let s : count (λ k. is_readable b (suc i + k)) m ≡ count (λ k. is_readable b (i + suc k)) m =
        count_same (λ k. is_readable b (suc i + k)) (λ k. is_readable b (i + suc k)) m
          (λ k l. ap (is_readable b) {x = suc i + k} {y = i + suc k} (omega arith)) in
      ground (arith, z, s, length-copy_from b (suc i) m)

pub every-count : (f : ℕ → Bool) (m : ℕ) → (every f m ≡ (count f m == m)) × (count f m ≤ m)
every-count f zero = (ground arith, omega arith)
every-count f (suc m) = ground (arith, every-count (λ k. f (suc k)) m)

pub none_count : (f : ℕ → Bool) (m : ℕ) → every (λ k. not (f k)) m ≡ (count f m == 0)
none_count f zero = ground arith
none_count f (suc m) = ground (arith, none_count (λ k. f (suc k)) m)

-- Places that do not hold count for nothing.
pub count_past : (f : ℕ → Bool) (m : ℕ) → ((k : ℕ) → f k ≡ false) → count f m ≡ 0
count_past f zero h = refl
count_past f (suc m) h = ground (arith, h 0, count_past (λ k. f (suc k)) m (λ k. h (suc k)))

module _ {ℓ κ} {K : Type ℓ} {V : Type κ} where
  empty_padded :
      (n : ℕ) (b : HashTableBucketPage K V)
      → 0 < n
      → IsPadded n b
      → is_empty n b ≡ (count (is_readable b) n == 0)
  empty_padded n b h p =
      let m = 8 * ((n - 1) / 8 + 1) in
      let split : n + (m - n) ≡ m = omega arith in
      let e : count (is_readable b) (n + (m - n)) ≡ count (is_readable b) m =
        ap (count (is_readable b)) split in
      let z = count_past (λ k. is_readable b (n + k)) (m - n) (λ k. p (n + k) (omega arith)) in
      ground (
        arith,
        is_empty-every n b,
        none_count (is_readable b) m,
        e,
        count-add (is_readable b) n (m - n),
        z,
      )

  -- On a bucket of at least one slot whose last byte is padded with zeros, the three counts over the
  -- bytes of the bitmap agree with the list of entries: `NumReadable` is the number of entries,
  -- `IsFull` tells that it is the number of slots, and `IsEmpty` that it is 0.
  pub num_readable-get_array_copy :
      (n : ℕ) (b : HashTableBucketPage K V)
      → 0 < n
      → IsPadded n b
      → (num_readable n b ≡ length (get_array_copy n b))
        × (is_full n b ≡ (length (get_array_copy n b) == n))
        × (is_empty n b ≡ (length (get_array_copy n b) == 0))
  unfolding get_array_copy
  num_readable-get_array_copy n b h p =
      let len = length-copy_from b 0 n in
      let same : count (λ k. is_readable b (0 + k)) n ≡ count (is_readable b) n =
        count_same (λ k. is_readable b (0 + k)) (is_readable b) n
          (λ k l. ap (is_readable b) {x = 0 + k} {y = k} (omega arith)) in
      (
        omega (arith, len, same, num_readable-count n b),
        ground (arith, len, same, is_full-every n b, (every-count (is_readable b) n).0),
        ground (arith, len, same, empty_padded n b h p),
      )
