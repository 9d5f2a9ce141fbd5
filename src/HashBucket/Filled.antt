-- ===== src/HashBucket/Filled.antt =====
-- Buckets whose readable slots have no gap, such as a bucket that is only filled after a reset.
use disk_oriented_concurrenc.Base.{
  ℕ, zero, suc, ◌+◌, ◌≤◌, ◌<◌, ◌≡◌, refl, ap, sym, ◌∙◌, Bool, true, false, ◌&&◌, ◌||◌, List, [],
  ◌∷◌, ◌++◌, arith, ◌==◌, inl, inr, Bool-cases, subst, length,
}
use disk_oriented_concurrenc.HashBucket.{
  HashTableBucketPage, is_readable, copy_from, get_array_copy, insert, holds,
}
use disk_oriented_concurrenc.HashBucket.Entries.{Has}
use disk_oriented_concurrenc.HashBucket.Changes.{Stored, Inserts, insert-Inserts}

module _ {ℓ κ} {K : Type ℓ} {V : Type κ} where
  -- From slot `i` on the bucket holds exactly this list, without a gap.
  pub data Filled (b : HashTableBucketPage K V) : ℕ → List (K × V) → Type (ℓ ⊔ κ) where
    ends : {i : ℕ} → ((k : ℕ) → i ≤ k → is_readable b k ≡ false) → Filled b i []
    slot :
        {i : ℕ} {e : K × V} {es : List (K × V)}
        → is_readable b i ≡ true
        → b.array i ≡ e
        → Filled b (suc i) es
        → Filled b i (e ∷ es)

  copy_from_lem :
      (b : HashTableBucketPage K V) (i m : ℕ) (es : List (K × V))
      → Filled b i es
      → length es ≤ m
      → copy_from b i m ≡ es
  unfolding copy_from
  copy_from_lem b i zero [] f l = refl
  copy_from_lem b i zero (e ∷ es) f l = absurd (omega (arith, l))
  copy_from_lem b i (suc m) [] (ends f) l =
      rw (f i (omega arith))
        (copy_from_lem b (suc i) m [] (ends (λ k x. f k (omega (arith, x)))) (omega arith))
  copy_from_lem b i (suc m) (e ∷ es) (slot t a f) l =
      rw (t, a) (ap (λ r. e ∷ r) (copy_from_lem b (suc i) m es f (omega (arith, l))))

  pub get_array_copy-Filled :
      (n : ℕ) (b : HashTableBucketPage K V) (es : List (K × V))
      → Filled b 0 es
      → length es ≤ n
      → get_array_copy n b ≡ es
  unfolding get_array_copy
  get_array_copy-Filled n b es f l = copy_from_lem b 0 n es f l

  -- The slot after the entries cannot be read, and those before it can.
  next_slot :
      (b : HashTableBucketPage K V) (i : ℕ) (es : List (K × V))
      → Filled b i es
      → is_readable b (i + length es) ≡ false
  next_slot b i [] (ends f) = f (i + 0) (omega arith)
  next_slot b i (e ∷ es) (slot t a f) =
      let q : suc i + length es ≡ i + suc (length es) = omega arith in
      subst (λ k. is_readable b k ≡ false) q (next_slot b (suc i) es f)

module _ {ℓ κ} {K : Type ℓ} {V : Type κ} (key_eq : K → K → Bool) (value_eq : V → V → Bool) where
  -- Whether the pair equals an entry of the list.
  abbrev pub matches : K → V → List (K × V) → Bool
  matches key value [] = false
  matches key value (e ∷ es) = (key_eq key e.0 && value_eq value e.1) || matches key value es

  Stored-Filled :
      (b b' : HashTableBucketPage K V) (key : K) (value : V) (n j i : ℕ) (es : List (K × V))
      → Stored key_eq value_eq b b' key value n j
      → i ≤ j
      → Filled b i es
      → Filled b' i (es ++ (key, value) ∷ [])
  Stored-Filled b b' key value n j i [] s l (ends f) = elim (Bool-cases (j == i)) [
    | inr ne ↦
        let lt : i < j = ground (arith, l) in
        absurd (ground (arith, s.first i lt, f i (omega arith)))
    | inl eq ↦
        let q : j ≡ i = ground arith in
        slot (s.readable i ∙ ground arith) (subst (λ z. b'.array z ≡ (key, value)) q s.pair) (
          ends (λ k x.
            let not_j : (k == j) ≡ false = ground (arith, x) in
            let no : is_readable b k ≡ false = f k (omega (arith, x)) in
            s.readable k ∙ rw (not_j, no) refl))
  ]
  Stored-Filled b b' key value n j i (e ∷ es) s l (slot t a f) =
      let ne : (i == j) ≡ false = elim (Bool-cases (i == j)) [
        | inr n ↦ n
        | inl eq ↦
            let q : j ≡ i = ground arith in
            let free : is_readable b i ≡ false = subst (λ z. is_readable b z ≡ false) q s.free in
            absurd (ground arith)
      ] in
      slot (s.readable i ∙ rw (ne, t) refl) (s.pairs i (ground arith) ∙ a)
        (Stored-Filled b b' key value n j (suc i) es s (ground (arith, l)) f)

  had_matches :
      (b : HashTableBucketPage K V) (key : K) (value : V) (k i : ℕ) (es : List (K × V))
      → Filled b i es
      → i ≤ k
      → Has key_eq value_eq b key value k
      → matches key value es ≡ true
  unfolding holds
  had_matches b key value k i [] (ends f) l h = let no = f k l in ground arith
  had_matches b key value k i (e ∷ es) (slot t a f) l h = elim (Bool-cases (k == i)) [
    | inl eq ↦
        let q : k ≡ i = ground arith in
        let at : b.array k ≡ e = subst (λ z. b.array z ≡ e) (sym q) a in
        let x : (is_readable b k && (key_eq key e.0 && value_eq value e.1)) ≡ true =
          subst (λ z. (is_readable b k && (key_eq key z.0 && value_eq value z.1)) ≡ true) at h in
        ground arith
    | inr ne ↦
        let r : matches key value es ≡ true =
          had_matches b key value k (suc i) es f (ground (arith, l)) h in
        rw r (ground arith)
  ]

  pub record Appends (r : HashTableBucketPage K V × Bool) (es : List (K × V)) : Type (ℓ ⊔ κ) where
    pub ok : r.1 ≡ true
    pub filled : Filled r.0 0 es

  -- `Insert` of a pair that a bucket without gaps lacks, with a slot left, appends the pair.
  pub insert-Appends :
      (n : ℕ) (b : HashTableBucketPage K V) (key : K) (value : V) (es : List (K × V))
      → Filled b 0 es
      → length es < n
      → matches key value es ≡ false
      → Appends (insert key_eq value_eq n b key value) (es ++ (key, value) ∷ [])
  insert-Appends n b key value es f l m =
      from n b key value es f l m (insert key_eq value_eq n b key value)
        (insert-Inserts key_eq value_eq n b key value)
    where
      from :
          (n : ℕ) (b : HashTableBucketPage K V) (key : K) (value : V) (es : List (K × V))
          → Filled b 0 es
          → length es < n
          → matches key value es ≡ false
          → (r : HashTableBucketPage K V × Bool) → Inserts key_eq value_eq b key value n r
          → Appends r (es ++ (key, value) ∷ [])
      from n b key value es f l m (b', true) (j, s) = record {
        ok = refl;
        filled = Stored-Filled b b' key value n j 0 es s (omega arith) f;
      }
      from n b key value es f l m (b', false) (same, inl (k, lt, h)) =
          let t = had_matches b key value k 0 es f (omega arith) h in absurd (ground arith)
      from n b key value es f l m (b', false) (same, inr all) =
          let no = next_slot b 0 es f in let yes = all (length es) l in absurd (ground arith)
