-- ===== src/HashBucket.antt =====
-- src/storage/page/hash_table_bucket_page.cpp. The two bitmaps are bytes by index, and `n` stands for
-- `BUCKET_ARRAY_SIZE`, which depends on the template's key and value types. Of the comparator only
-- whether it answers 0 matters: `key_eq`; `value_eq` is the value type's `==`.
pub mod Bits
pub mod Bitmap
pub mod Entries
pub mod Changes
pub mod Filled
mod Tests
use disk_oriented_concurrenc.Base.{
  ℕ, zero, suc, ◌+◌, ◌-◌, ◌*◌, ◌/◌, ◌%◌, ◌≡◌, Bool, true, false, not, ◌&&◌, ◌||◌, Option, none,
  some, List, [], ◌∷◌, ◌++◌, arith, ltb, leb, ◌==◌, if◌then◌else◌, update, is_some,
}

-- `c & (1 << j)`, `c |= 1 << j` and `c &= ~(1 << j)`.
unfoldable pub bit : ℕ → ℕ → Bool
bit c zero = c % 2 == 1
bit c (suc j) = bit (c / 2) j

unfoldable pub set_bit : ℕ → ℕ → ℕ
set_bit c zero = c / 2 * 2 + 1
set_bit c (suc j) = set_bit (c / 2) j * 2 + c % 2

unfoldable pub clear_bit : ℕ → ℕ → ℕ
clear_bit c zero = c / 2 * 2
clear_bit c (suc j) = clear_bit (c / 2) j * 2 + c % 2

pub record HashTableBucketPage {ℓ κ} (K : Type ℓ) (V : Type κ) : Type (ℓ ⊔ κ) where
  pub occupied : ℕ → ℕ
  pub readable : ℕ → ℕ
  pub array : ℕ → K × V

module _ {ℓ κ} {K : Type ℓ} {V : Type κ} where
  unfoldable pub is_readable : HashTableBucketPage K V → ℕ → Bool
  unfolding bit
  is_readable b i = bit (b.readable (i / 8)) (i % 8)

  unfoldable pub is_occupied : HashTableBucketPage K V → ℕ → Bool
  unfolding bit
  is_occupied b i = bit (b.occupied (i / 8)) (i % 8)

  unfoldable pub set_occupied : HashTableBucketPage K V → ℕ → HashTableBucketPage K V
  unfolding set_bit
  set_occupied b i = record b {
    occupied = update b.occupied (i / 8) (set_bit (b.occupied (i / 8)) (i % 8));
  }

  unfoldable pub set_readable : HashTableBucketPage K V → ℕ → HashTableBucketPage K V
  unfolding set_bit
  set_readable b i = record b {
    readable = update b.readable (i / 8) (set_bit (b.readable (i / 8)) (i % 8));
  }

  unfoldable pub remove_at : HashTableBucketPage K V → ℕ → HashTableBucketPage K V
  unfolding clear_bit
  remove_at b i = record b {
    readable = update b.readable (i / 8) (clear_bit (b.readable (i / 8)) (i % 8));
  }

  -- `Reset`, where `blank` is the pair of zero bytes.
  unfoldable pub reset : K × V → HashTableBucketPage K V
  reset blank = record { occupied = λ _. 0; readable = λ _. 0; array = λ _. blank }

  -- The loop of `GetArrayCopy` over the `m` slots from `i` on, and the whole.
  unfoldable pub copy_from : HashTableBucketPage K V → ℕ → ℕ → List (K × V)
  unfolding is_readable
  copy_from b i zero = []
  copy_from b i (suc m) =
      let rest = copy_from b (suc i) m in if is_readable b i then b.array i ∷ rest else rest

  unfoldable pub get_array_copy : ℕ → HashTableBucketPage K V → List (K × V)
  unfolding copy_from
  get_array_copy n b = copy_from b 0 n

-- The lowest `m` bits of a byte that are set, and whether all are; both loops shift the byte.
unfoldable pub count_bits : ℕ → ℕ → ℕ
count_bits c zero = 0
count_bits c (suc m) = (if c % 2 == 1 then 1 else 0) + count_bits (c / 2) m

unfoldable pub all_bits : ℕ → ℕ → Bool
all_bits c zero = true
all_bits c (suc m) = let rest = all_bits (c / 2) m in if not (c % 2 == 1) then false else rest

-- The loops over the first `m` bytes.
unfoldable pub count_bytes : (ℕ → ℕ) → ℕ → ℕ
unfolding count_bits
count_bytes r zero = 0
count_bytes r (suc m) = count_bytes r m + count_bits (r m) 8

unfoldable pub full_bytes : (ℕ → ℕ) → ℕ → Bool
full_bytes r zero = true
full_bytes r (suc m) = if full_bytes r m then r m % 256 == 255 else false

unfoldable pub zero_bytes : (ℕ → ℕ) → ℕ → Bool
zero_bytes r zero = true
zero_bytes r (suc m) = if zero_bytes r m then not (ltb 0 (r m % 256)) else false

module _ {ℓ κ} {K : Type ℓ} {V : Type κ} where
  -- `NumReadable`, `IsFull` and `IsEmpty`.
  unfoldable pub num_readable : ℕ → HashTableBucketPage K V → ℕ
  unfolding count_bytes count_bits
  num_readable n b =
      if ltb 0 (n % 8)
      then count_bytes b.readable (n / 8) + count_bits (b.readable (n / 8)) (n % 8)
      else count_bytes b.readable (n / 8)

  unfoldable pub is_full : ℕ → HashTableBucketPage K V → Bool
  unfolding full_bytes all_bits
  is_full n b =
      if full_bytes b.readable (n / 8)
      then (if ltb 0 (n % 8) then all_bits (b.readable (n / 8)) (n % 8) else true)
      else false

  unfoldable pub is_empty : ℕ → HashTableBucketPage K V → Bool
  unfolding zero_bytes
  is_empty n b = zero_bytes b.readable ((n - 1) / 8 + 1)

abbrev pub is_nil {ℓ} : {A : Type ℓ} → List A → Bool
is_nil [] = true
is_nil (x ∷ xs) = false

module _ {ℓ κ} {K : Type ℓ} {V : Type κ} (key_eq : K → K → Bool) (value_eq : V → V → Bool) where
  -- Whether slot `i` holds exactly this pair.
  unfoldable pub holds : HashTableBucketPage K V → K → V → ℕ → Bool
  holds b key value i = key_eq key (b.array i).0 && value_eq value (b.array i).1

  -- The loop of `GetValue`: the values that it pushes.
  unfoldable pub values_from : HashTableBucketPage K V → K → ℕ → ℕ → List V
  unfolding is_readable
  values_from b key i zero = []
  values_from b key i (suc m) =
      let rest = values_from b key (suc i) m in
      if is_readable b i && key_eq key (b.array i).0 then (b.array i).1 ∷ rest else rest

  -- `GetValue`: the caller's vector afterwards, and whether a value was found.
  unfoldable pub get_value : ℕ → HashTableBucketPage K V → K → List V → List V × Bool
  unfolding values_from
  get_value n b key result = (result ++ values_from b key 0 n, not (is_nil (values_from b key 0 n)))

  -- The first loop of `Insert`, with `available` for the free slot seen so far: none for a duplicate.
  unfoldable pub find_slot : HashTableBucketPage K V → K → V → Option ℕ → ℕ → ℕ → Option (Option ℕ)
  unfolding is_readable holds
  find_slot b key value available i zero = some available
  find_slot b key value available i (suc m) =
      let rest = find_slot b key value available (suc i) m in
      let first = find_slot b key value (some i) (suc i) m in
      if is_readable b i
      then (if holds b key value i then none else rest)
      else (if is_some available then rest else first)

  unfoldable pub insert : ℕ → HashTableBucketPage K V → K → V → HashTableBucketPage K V × Bool
  unfolding find_slot set_occupied set_readable
  insert n b key value = elim (find_slot b key value none 0 n) [
    | none ↦ (b, false)
    | some none ↦ (b, false)
    | some (some i) ↦
        (set_readable (set_occupied (record b { array = update b.array i (key, value) }) i) i, true)
  ]

  -- The loop of `Remove`.
  unfoldable pub remove_from :
      HashTableBucketPage K V → K → V → ℕ → ℕ → HashTableBucketPage K V × Bool
  unfolding is_readable holds remove_at
  remove_from b key value i zero = (b, false)
  remove_from b key value i (suc m) =
      let rest = remove_from b key value (suc i) m in
      if is_readable b i && holds b key value i then (remove_at b i, true) else rest

  unfoldable pub remove : ℕ → HashTableBucketPage K V → K → V → HashTableBucketPage K V × Bool
  unfolding remove_from
  remove n b key value = remove_from b key value 0 n
