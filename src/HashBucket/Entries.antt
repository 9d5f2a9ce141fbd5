-- ===== src/HashBucket/Entries.antt =====
-- The bucket's operations against its slots: what `GetValue` collects, where `Insert` puts a pair, and
-- which pair `Remove` takes.
use disk_oriented_concurrenc.Base.{
  ℕ, zero, suc, ◌+◌, ◌≤◌, ◌<◌, ◌≡◌, refl, Bool, true, false, not, ◌&&◌, Option, none, some, List,
  [], ◌∷◌, ◌++◌, arith, leb, if◌then◌else◌, Bool-cases, inl, inr, is_some,
}
use disk_oriented_concurrenc.HashBucket.{
  HashTableBucketPage, is_readable, holds, find_slot, values_from, get_value, get_array_copy,
  copy_from, is_nil,
}

module _ {ℓ κ} {K : Type ℓ} {V : Type κ} (key_eq : K → K → Bool) (value_eq : V → V → Bool) where
  -- The values of a key in a list of entries.
  abbrev pub select : K → List (K × V) → List V
  select key [] = []
  select key (e ∷ rest) = if key_eq key e.0 then e.1 ∷ select key rest else select key rest

  values_from_lem :
      (b : HashTableBucketPage K V) (key : K) (i m : ℕ)
      → values_from key_eq value_eq b key i m ≡ select key (copy_from b i m)
  unfolding values_from copy_from
  values_from_lem b key i zero = refl
  values_from_lem b key i (suc m) = ground (arith, values_from_lem b key (suc i) m)

  -- `GetValue` appends the values of the key's entries, in the order of the slots, to the caller's
  -- vector, and tells whether there are any.
  pub get_value-select :
      (n : ℕ) (b : HashTableBucketPage K V) (key : K) (result : List V)
      → get_value key_eq value_eq n b key result ≡ (
        result ++ select key (get_array_copy n b),
        not (is_nil (select key (get_array_copy n b))),
      )
  unfolding get_value get_array_copy
  get_value-select n b key result = rw (values_from_lem b key 0 n) refl

  -- The slot holds this pair and can be read.
  abbrev pub Has : HashTableBucketPage K V → K → V → ℕ → Type 0
  Has b key value i = (is_readable b i && holds key_eq value_eq b key value i) ≡ true

  -- No slot from `i` up to `j` holds the pair, and each can be read, respectively.
  abbrev pub Lacks : HashTableBucketPage K V → K → V → ℕ → ℕ → Type 0
  Lacks b key value i j =
      (k : ℕ) → i ≤ k → k < j → (is_readable b k && holds key_eq value_eq b key value k) ≡ false

  abbrev pub AllTaken : HashTableBucketPage K V → ℕ → ℕ → Type 0
  AllTaken b i j = (k : ℕ) → i ≤ k → k < j → is_readable b k ≡ true

  -- What the first loop of `Insert` finds in the slots from `i` up to `j`.
  abbrev pub FindsSlot : HashTableBucketPage K V → Option ℕ → ℕ → ℕ → Option ℕ → Type 0
  FindsSlot b (some x) i j a = a ≡ some x
  FindsSlot b none i j none = AllTaken b i j
  FindsSlot b none i j (some s) = (i ≤ s) × (s < j) × (is_readable b s ≡ false) × AllTaken b i s

  abbrev pub FindResult :
      HashTableBucketPage K V → K → V → Option ℕ → ℕ → ℕ → Option (Option ℕ) → Type 0
  FindResult b key value available i j none = (k : ℕ) × (i ≤ k) × (k < j) × Has b key value k
  FindResult b key value available i j (some a) =
      Lacks b key value i j × FindsSlot b available i j a

  -- One more slot below, which does not hold the pair.
  Lacks-below :
      (b : HashTableBucketPage K V) (key : K) (value : V) (i j : ℕ)
      → (is_readable b i && holds key_eq value_eq b key value i) ≡ false
      → Lacks b key value (suc i) j
      → Lacks b key value i j
  Lacks-below b key value i j h l k x y = elim (Bool-cases (leb k i)) [
    | inl e ↦ let q : k ≡ i = ground arith in rw q h
    | inr e ↦ l k (ground arith) y
  ]

  AllTaken-below :
      (b : HashTableBucketPage K V) (i j : ℕ)
      → is_readable b i ≡ true
      → AllTaken b (suc i) j
      → AllTaken b i j
  AllTaken-below b i j h l k x y = elim (Bool-cases (leb k i)) [
    | inl e ↦ let q : k ≡ i = ground arith in rw q h
    | inr e ↦ l k (ground arith) y
  ]

  find-taken :
      (b : HashTableBucketPage K V) (key : K) (value : V) (available : Option ℕ) (i j : ℕ)
      (r : Option (Option ℕ))
      → is_readable b i ≡ true
      → holds key_eq value_eq b key value i ≡ false
      → FindResult b key value available (suc i) j r
      → FindResult b key value available i j r
  find-taken b key value available i j none t h (k, x, y, z) = (k, omega (arith, x), y, z)
  find-taken b key value none i j (some none) t h (l, f) =
      (Lacks-below b key value i j (ground arith) l, AllTaken-below b i j t f)
  find-taken b key value none i j (some (some s)) t h (l, (x, y, z, f)) = (
    Lacks-below b key value i j (ground arith) l,
    (omega (arith, x), y, z, AllTaken-below b i s t f),
  )
  find-taken b key value (some a) i j (some r) t h (l, f) =
      (Lacks-below b key value i j (ground arith) l, f)

  find-free :
      (b : HashTableBucketPage K V) (key : K) (value : V) (i j : ℕ) (r : Option (Option ℕ))
      → i < j
      → is_readable b i ≡ false
      → FindResult b key value (some i) (suc i) j r
      → FindResult b key value none i j r
  find-free b key value i j none m t (k, x, y, z) = (k, omega (arith, x), y, z)
  find-free b key value i j (some none) m t (l, f) = absurd cc
  find-free b key value i j (some (some s)) m t (l, f) =
      let q : s ≡ i = ground arith in
      (
        Lacks-below b key value i j (ground arith) l,
        rw q (omega arith, m, t, λ k x y. absurd (omega (arith, x, y))),
      )

  find-later :
      (b : HashTableBucketPage K V) (key : K) (value : V) (a i j : ℕ) (r : Option (Option ℕ))
      → is_readable b i ≡ false
      → FindResult b key value (some a) (suc i) j r
      → FindResult b key value (some a) i j r
  find-later b key value a i j none t (k, x, y, z) = (k, omega (arith, x), y, z)
  find-later b key value a i j (some r) t (l, f) = (Lacks-below b key value i j (ground arith) l, f)

  -- A slot that cannot be read: it is the first one, or another was found before.
  find-open :
      (b : HashTableBucketPage K V) (key : K) (value : V) (available : Option ℕ) (i m j : ℕ)
      → is_readable b i ≡ false
      → i + suc m ≡ j
      → FindResult b key value
          (some i)
          (suc i)
          j
          (find_slot key_eq value_eq b key value (some i) (suc i) m)
      → FindResult b key value available
          (suc i)
          j
          (find_slot key_eq value_eq b key value available (suc i) m)
      → FindResult b key value available i j (
          if is_some available
          then find_slot key_eq value_eq b key value available (suc i) m
          else find_slot key_eq value_eq b key value (some i) (suc i) m)
  find-open b key value none i m j t e f g = find-free b key value i j _ (omega (arith, e)) t f
  find-open b key value (some a) i m j t e f g = find-later b key value a i j _ t g

  pub find_slot_lem :
      (b : HashTableBucketPage K V) (key : K) (value : V) (available : Option ℕ) (i m j : ℕ)
      → i + m ≡ j
      → FindResult b key value available i j (find_slot key_eq value_eq b key value available i m)
  unfolding find_slot
  find_slot_lem b key value none i zero j e =
      (λ k x y. absurd (omega (arith, e, x, y)), λ k x y. absurd (omega (arith, e, x, y)))
  find_slot_lem b key value (some a) i zero j e = (λ k x y. absurd (omega (arith, e, x, y)), refl)
  find_slot_lem b key value available i (suc m) j e = elim (Bool-cases (is_readable b i)) [
    | inl t ↦ elim (Bool-cases (holds key_eq value_eq b key value i)) [
      | inl h ↦ rw (t, h) (i, omega arith, omega (arith, e), ground arith)
      | inr h ↦
          rw (t, h)
            (find-taken b key value available i j _ t h
              (find_slot_lem b key value available (suc i) m j (omega (arith, e))))
    ]
    | inr t ↦ rw t (
        find-open b key value available i m j t e
          (find_slot_lem b key value (some i) (suc i) m j (omega (arith, e)))
          (find_slot_lem b key value available (suc i) m j (omega (arith, e))))
  ]
