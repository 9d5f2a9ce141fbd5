-- ===== src/HashBucket/Changes.antt =====
-- `Insert` and `Remove` of the bucket page: which slot changes, and when none does.
use disk_oriented_concurrenc.Base.{
  ℕ, zero, suc, ◌+◌, ◌<◌, ◌≡◌, ◌≢◌, refl, sym, Bool, true, false, not, ◌&&◌, ◌||◌, Option, none,
  some, arith, ◌==◌, Bool-cases, inl, inr, ◌⊎◌, subst, update,
}
use disk_oriented_concurrenc.HashBucket.{
  HashTableBucketPage, is_readable, is_occupied, set_readable, set_occupied, remove_at, holds,
  find_slot, insert, remove_from, remove,
}
use disk_oriented_concurrenc.HashBucket.Bitmap.{
  is_readable-set_readable, is_occupied-set_occupied, is_readable-remove_at,
}
use disk_oriented_concurrenc.HashBucket.Entries.{Has, Lacks, FindResult, find_slot_lem}

module _ {ℓ κ} {K : Type ℓ} {V : Type κ} (key_eq : K → K → Bool) (value_eq : V → V → Bool) where
  -- The bucket after a pair was put into slot `i`.
  pub record Stored (b b' : HashTableBucketPage K V) (key : K) (value : V) (n i : ℕ)
      : Type (ℓ ⊔ κ) where
    pub within : i < n
    pub free : is_readable b i ≡ false
    pub first : (k : ℕ) → k < i → is_readable b k ≡ true
    pub fresh : Lacks key_eq value_eq b key value 0 n
    pub pair : b'.array i ≡ (key, value)
    pub pairs : (k : ℕ) → k ≢ i → b'.array k ≡ b.array k
    pub readable : (k : ℕ) → is_readable b' k ≡ (k == i || is_readable b k)
    pub occupied : (k : ℕ) → is_occupied b' k ≡ (k == i || is_occupied b k)

  -- Without a change the pair is there already, or every slot is taken.
  abbrev pub Inserts :
      HashTableBucketPage K V → K → V → ℕ → HashTableBucketPage K V × Bool → Type (ℓ ⊔ κ)
  Inserts b key value n (b', true) = (i : ℕ) × Stored b b' key value n i
  Inserts b key value n (b', false) =
      (b' ≡ b)
      × (((k : ℕ) × (k < n) × Has key_eq value_eq b key value k)
          ⊎ ((k : ℕ) → k < n → is_readable b k ≡ true))

  -- What `Insert` writes.
  abbrev stored : HashTableBucketPage K V → K → V → ℕ → HashTableBucketPage K V
  stored b key value i =
      set_readable (set_occupied (record b { array = update b.array i (key, value) }) i) i

  stored_array :
      (b : HashTableBucketPage K V) (key : K) (value : V) (i : ℕ)
      → (stored b key value i).array ≡ update b.array i (key, value)
  unfolding set_readable set_occupied
  stored_array b key value i = refl

  stored_readable :
      (b : HashTableBucketPage K V) (key : K) (value : V) (i k : ℕ)
      → is_readable (stored b key value i) k ≡ (k == i || is_readable b k)
  unfolding set_occupied is_readable
  stored_readable b key value i k =
      is_readable-set_readable (set_occupied (record b { array = update b.array i (key, value) }) i)
        i k

  stored_occupied :
      (b : HashTableBucketPage K V) (key : K) (value : V) (i k : ℕ)
      → is_occupied (stored b key value i) k ≡ (k == i || is_occupied b k)
  unfolding set_readable is_occupied
  stored_occupied b key value i k =
      is_occupied-set_occupied (record b { array = update b.array i (key, value) }) i k

  insert_runs :
      (n : ℕ) (b : HashTableBucketPage K V) (key : K) (value : V) (r : Option (Option ℕ))
      → find_slot key_eq value_eq b key value none 0 n ≡ r
      → insert key_eq value_eq n b key value ≡ (elim r [
        | none ↦ (b, false)
        | some none ↦ (b, false)
        | some (some i) ↦ (stored b key value i, true)
      ])
  unfolding insert
  insert_runs n b key value r e = rw (e, insert) refl

  insert_found :
      (n : ℕ) (b : HashTableBucketPage K V) (key : K) (value : V) (r : Option (Option ℕ))
      → find_slot key_eq value_eq b key value none 0 n ≡ r
      → FindResult key_eq value_eq b key value none 0 n r
      → Inserts b key value n (insert key_eq value_eq n b key value)
  insert_found n b key value none e (k, x, y, h) =
      subst (Inserts b key value n) (sym (insert_runs n b key value none e)) (refl, inl (k, y, h))
  insert_found n b key value (some none) e (l, f) =
      subst (Inserts b key value n) (sym (insert_runs n b key value (some none) e))
        (refl, inr (λ k x. f k (omega arith) x))
  insert_found n b key value (some (some i)) e (l, (x, y, t, f)) =
      let a = stored_array b key value i in
      subst (Inserts b key value n) (sym (insert_runs n b key value (some (some i)) e)) (
        i,
        record {
          within = y;
          free = t;
          first = λ k z. f k (omega arith) z;
          fresh = l;
          pair = rw a (ground arith);
          pairs = λ k ne. rw a (ground arith);
          readable = λ k. stored_readable b key value i k;
          occupied = λ k. stored_occupied b key value i k;
        },
      )

  -- `Insert` succeeds exactly when no slot that can be read holds the pair and a slot is free. It then
  -- writes the pair into the first free slot, which becomes occupied and readable, and leaves the other
  -- slots' pairs and both their bits as they were; otherwise nothing changes.
  pub insert-Inserts :
      (n : ℕ) (b : HashTableBucketPage K V) (key : K) (value : V)
      → Inserts b key value n (insert key_eq value_eq n b key value)
  insert-Inserts n b key value =
      insert_found n b key value _ refl
        (find_slot_lem key_eq value_eq b key value none 0 n n (omega arith))

  -- The bucket after the pair of slot `i` was removed: it was the first slot with this pair.
  pub record Removed (b b' : HashTableBucketPage K V) (key : K) (value : V) (n i : ℕ)
      : Type (ℓ ⊔ κ) where
    pub within : i < n
    pub had : Has key_eq value_eq b key value i
    pub first : Lacks key_eq value_eq b key value 0 i
    pub pairs : b'.array ≡ b.array
    pub readable : (k : ℕ) → is_readable b' k ≡ (not (k == i) && is_readable b k)
    pub occupied : b'.occupied ≡ b.occupied

  abbrev pub Removes :
      HashTableBucketPage K V → K → V → ℕ → HashTableBucketPage K V × Bool → Type (ℓ ⊔ κ)
  Removes b key value n (b', true) = (i : ℕ) × Removed b b' key value n i
  Removes b key value n (b', false) = (b' ≡ b) × Lacks key_eq value_eq b key value 0 n

  removed_array : (b : HashTableBucketPage K V) (i : ℕ) → (remove_at b i).array ≡ b.array
  unfolding remove_at
  removed_array b i = refl

  removed_occupied : (b : HashTableBucketPage K V) (i : ℕ) → (remove_at b i).occupied ≡ b.occupied
  unfolding remove_at
  removed_occupied b i = refl

  remove_from_lem :
      (n : ℕ) (b : HashTableBucketPage K V) (key : K) (value : V) (i m : ℕ)
      → i + m ≡ n
      → Lacks key_eq value_eq b key value 0 i
      → Removes b key value n (remove_from key_eq value_eq b key value i m)
  unfolding remove_from
  remove_from_lem n b key value i zero e l = (refl, λ k x y. l k x (omega (arith, e, y)))
  remove_from_lem n b key value i (suc m) e l =
      elim (Bool-cases (is_readable b i && holds key_eq value_eq b key value i)) [
        | inl h ↦ rw h (
          i,
          record {
            within = omega (arith, e);
            had = h;
            first = l;
            pairs = removed_array b i;
            readable = λ k. is_readable-remove_at b i k;
            occupied = removed_occupied b i;
          },
        )
        | inr h ↦ rw h (
            remove_from_lem n b key value (suc i) m (omega (arith, e)) (λ k x y.
              elim (Bool-cases (k == i)) [
                | inl c ↦ let q : k ≡ i = ground arith in rw q h
                | inr c ↦ l k x (ground arith)
              ]))
      ]

  -- `Remove` succeeds exactly when a slot that can be read holds the pair. The first such slot then
  -- cannot be read any more; the pairs, the occupied bitmap and the other slots' readable bits stay, and
  -- without success nothing changes.
  pub remove-Removes :
      (n : ℕ) (b : HashTableBucketPage K V) (key : K) (value : V)
      → Removes b key value n (remove key_eq value_eq n b key value)
  unfolding remove
  remove-Removes n b key value =
      remove_from_lem n b key value 0 n (omega arith) (λ k x y. absurd (omega (arith, y)))
