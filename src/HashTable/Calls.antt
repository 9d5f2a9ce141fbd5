-- ===== src/HashTable/Calls.antt =====
-- GetValue and Insert on a table whose directory is there.
use disk_oriented_concurrenc.Base.{
  ℕ, suc, ◌+◌, ◌%◌, ◌<◌, ◌≡◌, refl, ap, ◌∙◌, Bool, false, not, some, List, ◌++◌, arith, ◌==◌,
  Bool-cases, inl, inr,
}
use disk_oriented_concurrenc.RwLatch.{RwLatch, r_lock, r_unlock}
use disk_oriented_concurrenc.HashBucket
use disk_oriented_concurrenc.HashBucket.{HashTableBucketPage, is_full, get_array_copy, is_nil}
use disk_oriented_concurrenc.HashBucket.Entries.{select, get_value-select}
use disk_oriented_concurrenc.HashTable.{
  ◌>>=◌, ◌>>◌, PagePool, HashTable, done, latch, unlatch, assert_pool, read, give, key_to_page_id,
  get_value,
}
use disk_oriented_concurrenc.HashTable.Pool.{SameData, Serves, Ready, directory_of}

-- Readers in and out.
abbrev pub Enters : RwLatch → Type 0
Enters l = (l.writer_entered ≡ false) × (l.reader_count < 4294967295)

pub enters :
    (l : RwLatch) → Enters l → r_lock l ≡ some (record l { reader_count = suc l.reader_count })
unfolding r_lock
enters l (w, c) =
    let full : (l.reader_count == 4294967295) ≡ false = ground arith in
    let e : (l.reader_count + 1) % 4294967296 ≡ suc l.reader_count = omega (arith, c) in
    rw (w, full, e) refl

pub leaves :
    (l : RwLatch) → Enters l → r_unlock (record l { reader_count = suc l.reader_count }) ≡ l
unfolding r_unlock
leaves l (w, c) =
    let e : (suc l.reader_count + 4294967295) % 4294967296 ≡ l.reader_count = omega (arith, c) in
    rw e refl

module _ {ℓ κ} {P : Type 0} {K : Type ℓ} {V : Type κ} (pages : PagePool P K V) where
  -- The pool after two fetches and two unpins of the same pages.
  pub record Returned (serves : Serves pages) (p : P) (x y : ℕ) (d₁ d₂ : Bool) : Type (ℓ ⊔ κ) where
    pub p₁ : P
    pub p₂ : P
    pub p₃ : P
    pub p₄ : P
    pub fetch₁ : pages.fetch_page p x ≡ some p₁
    pub same₁ : SameData pages p p₁
    pub fetch₂ : pages.fetch_page p₁ y ≡ some p₂
    pub same₂ : SameData pages p₁ p₂
    pub unpin₃ : pages.unpin_page p₂ y d₁ ≡ some p₃
    pub unpin₄ : pages.unpin_page p₃ x d₂ ≡ some p₄
    pub same : SameData pages p p₄
    pub pins : (k : ℕ) → serves.pins p₄ k ≡ serves.pins p k
    pub free : serves.free p₄ ≡ serves.free p

  pub SameData-trans : (p q r : P) → SameData pages p q → SameData pages q r → SameData pages p r
  SameData-trans p q r s s' = record {
    directories = λ k. s'.directories k ∙ s.directories k;
    buckets = λ k. s'.buckets k ∙ s.buckets k;
  }

  pub returned :
      (serves : Serves pages) (p : P) (x y : ℕ) (d₁ d₂ : Bool)
      → 1 < serves.free p
      → Returned serves p x y d₁ d₂
  returned serves p x y d₁ d₂ room =
      let (p₁, f₁, s₁, n₁, a₁) = serves.fetches p x (omega (arith, room)) in
      let (p₂, f₂, s₂, n₂, a₂) = serves.fetches p₁ y (ground (arith, a₁, room)) in
      let (p₃, u₃, s₃, n₃, a₃) = serves.unpins p₂ y d₁ (ground (arith, n₂ y)) in
      let (p₄, u₄, s₄, n₄, a₄) = serves.unpins p₃ x d₂ (ground (arith, n₁ x, n₂ x, n₃ x)) in
      record {
        p₁ = p₁;
        p₂ = p₂;
        p₃ = p₃;
        p₄ = p₄;
        fetch₁ = f₁;
        same₁ = s₁;
        fetch₂ = f₂;
        same₂ = s₂;
        unpin₃ = u₃;
        unpin₄ = u₄;
        same =
            SameData-trans p p₂ p₄ (SameData-trans p p₁ p₂ s₁ s₂) (SameData-trans p₂ p₃ p₄ s₃ s₄);
        pins = λ k. ground (arith, n₁ k, n₂ k, n₃ k, n₄ k);
        free = elim (Bool-cases (x == y)) [
          | inl e ↦ ground (arith, room, n₁ x, n₁ y, n₂ x, n₂ y, n₃ x, a₁, a₂, a₃, a₄)
          | inr e ↦ ground (arith, room, n₁ x, n₁ y, n₂ x, n₂ y, n₃ x, a₁, a₂, a₃, a₄)
        ];
      }

  -- A call that has left the data, the pins and the latch as they were.
  pub record Leaves (serves : Serves pages) (t t' : HashTable P) : Type (ℓ ⊔ κ) where
    pub directory_id : t'.directory_page_id ≡ t.directory_page_id
    pub latch : t'.table_latch ≡ t.table_latch
    pub same : SameData pages t.pool t'.pool
    pub pins : (k : ℕ) → serves.pins t'.pool k ≡ serves.pins t.pool k
    pub free : serves.free t'.pool ≡ serves.free t.pool

  module _ (hash_fn : K → ℕ) where
    -- The bucket where a key leads.
    abbrev pub page_of : K → HashTable P → ℕ
    page_of key t = key_to_page_id hash_fn key (directory_of pages t)

    abbrev pub bucket_at : K → HashTable P → HashTableBucketPage K V
    bucket_at key t = pages.bucket t.pool (page_of key t)

module _ {ℓ κ} {P : Type 0} {K : Type ℓ} {V : Type κ} (pages : PagePool P K V)
    (key_eq : K → K → Bool) (value_eq : V → V → Bool) (hash_fn : K → ℕ) (blank : K × V)
    (n : ℕ) where
  get_value_runs :
      (key : K) (result : List V) (t : HashTable P) (l : RwLatch) (p₁ p₂ p₃ p₄ : P)
      → Ready pages t
      → r_lock t.table_latch ≡ some l
      → pages.fetch_page t.pool t.directory_page_id ≡ some p₁
      → SameData pages t.pool p₁
      → pages.fetch_page p₁ (page_of pages hash_fn key t) ≡ some p₂
      → SameData pages p₁ p₂
      → pages.unpin_page p₂ (page_of pages hash_fn key t) false ≡ some p₃
      → pages.unpin_page p₃ t.directory_page_id false ≡ some p₄
      → get_value pages key_eq value_eq hash_fn blank n key result t
        ≡ done (
          HashBucket.get_value key_eq value_eq n (bucket_at pages hash_fn key t) key result,
          record t { table_latch = r_unlock l; pool = p₄ },
        )
  unfolding get_value
  get_value_runs key result t l p₁ p₂ p₃ p₄ r lock f₁ s₁ f₂ s₂ u₃ u₄ =
      let d : pages.directory p₁ t.directory_page_id ≡ directory_of pages t =
        s₁.directories t.directory_page_id in
      let b : pages.bucket p₂ (page_of pages hash_fn key t) ≡ bucket_at pages hash_fn key t =
        s₂.buckets (page_of pages hash_fn key t) ∙ s₁.buckets (page_of pages hash_fn key t) in
      rw
        (
          lock, r.made, r.made, f₁, d, f₂, d, u₃, d, r.named, u₄, d, b, get_value, ◌>>◌, ◌>>=◌,
          latch, unlatch, assert_pool, give, read,
        )
        refl

  -- `GetValue` on a table whose directory is there and whose latch lets a reader in, over a pool with two
  -- frames that hold no pinned page: it returns, with the values of the key's entries in the bucket where its hash
  -- leads appended in slot order and whether there are any. Data, pins and the latch are as before.
  pub get_value-Leaves :
      (serves : Serves pages) (key : K) (result : List V) (t : HashTable P)
      → Ready pages t
      → Enters t.table_latch
      → 1 < serves.free t.pool
      → (t' : HashTable P) × (get_value pages key_eq value_eq hash_fn blank n key result t
          ≡ done (
            (
              result
                  ++ select key_eq value_eq key (get_array_copy n (bucket_at pages hash_fn key t)),
              not (
                  is_nil (
                    select key_eq value_eq key (get_array_copy n (bucket_at pages hash_fn key t)))),
            ),
            t',
          ))
        × Leaves pages serves t t'
  get_value-Leaves serves key result t r e two =
      let q =
        returned pages serves t.pool t.directory_page_id (page_of pages hash_fn key t) false false
          two in
      let l = record t.table_latch { reader_count = suc t.table_latch.reader_count } in
      (
        record t { table_latch = r_unlock l; pool = q.p₄ },
        get_value_runs key result t l q.p₁ q.p₂ q.p₃ q.p₄ r (enters t.table_latch e) q.fetch₁
              q.same₁ q.fetch₂ q.same₂ q.unpin₃ q.unpin₄
            ∙ ap (λ v. done (v, record t { table_latch = r_unlock l; pool = q.p₄ }))
                (get_value-select key_eq value_eq n (bucket_at pages hash_fn key t) key result),
        record {
          directory_id = refl;
          latch = leaves t.table_latch e;
          same = q.same;
          pins = q.pins;
          free = q.free;
        },
      )
