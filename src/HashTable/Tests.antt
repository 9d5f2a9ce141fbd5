-- ===== src/HashTable/Tests.antt =====
-- A table of one bucket with eight slots, over a store of two frames.
use disk_oriented_concurrenc.Base.{
  ℕ, suc, ◌-◌, ◌≡◌, ◌≢◌, refl, ap, sym, Bool, true, false, Option, none, some, [], ◌∷◌, arith, ltb,
  ◌==◌, ◌||◌, ◌∙◌, if◌then◌else◌, update,
}
use disk_oriented_concurrenc.RwLatch
use disk_oriented_concurrenc.RwLatch.{RwLatch}
use disk_oriented_concurrenc.HashDirectory.{HashTableDirectoryPage}
use disk_oriented_concurrenc.HashBucket
use disk_oriented_concurrenc.HashBucket.{
  HashTableBucketPage, reset, is_full, get_array_copy, is_nil,
}
use disk_oriented_concurrenc.HashTable.{
  PagePool, HashTable, Outcome, done, spent, init, get_value, insert, remove, get_global_depth,
  key_to_page_id,
}
use disk_oriented_concurrenc.HashTable.Pool.{Serves}
use disk_oriented_concurrenc.HashTable.Calls.{page_of, bucket_at}
use disk_oriented_concurrenc.HashTable.Inserts
use disk_oriented_concurrenc.HashTable.Lookup
use disk_oriented_concurrenc.HashTable.Rounds
use disk_oriented_concurrenc.HashTable.Post.{Keeps}
use disk_oriented_concurrenc.HashTable.Rounds.{Sound}

record Store : Type 0 where
  pub directories : ℕ → HashTableDirectoryPage
  pub buckets : ℕ → HashTableBucketPage ℕ ℕ
  pub pins : ℕ → ℕ
  pub free : ℕ
  pub next : ℕ

abbrev blank_directory : HashTableDirectoryPage
blank_directory = record {
  page_id = 0;
  lsn = 0;
  global_depth = 0;
  local_depths = λ i. 0;
  bucket_page_ids = λ i. 0;
}

-- A page that is fetched or unpinned, of which the first pin takes a frame and the last one gives it back.
abbrev fetched : Store → ℕ → Store
fetched p id = record p {
  pins = update p.pins id (suc (p.pins id));
  free = if p.pins id == 0 then p.free - 1 else p.free;
}

abbrev unpinned : Store → ℕ → Store
unpinned p id = record p {
  pins = update p.pins id (p.pins id - 1);
  free = if p.pins id == 1 then suc p.free else p.free;
}

abbrev store : PagePool Store ℕ ℕ
store = record {
  new_page = λ p. some (
    p.next,
    record p {
      next = suc p.next;
      pins = update p.pins p.next 1;
      free = p.free - 1;
      directories = update p.directories p.next blank_directory;
      buckets = update p.buckets p.next (reset (0, 0));
    },
  );
  fetch_page = λ p id. if ltb 0 p.free || ltb 0 (p.pins id) then some (fetched p id) else none;
  unpin_page = λ p id dirty. if ltb 0 (p.pins id) then some (unpinned p id) else none;
  delete_page = λ p id. some p;
  directory = λ p id. p.directories id;
  set_directory = λ p id d. record p { directories = update p.directories id d };
  bucket = λ p id. p.buckets id;
  set_bucket = λ p id b. record p { buckets = update p.buckets id b };
}

store-Serves : Serves store
store-Serves = record {
  pins = λ p. p.pins;
  free = λ p. p.free;
  fetches = λ p id l. (
    fetched p id,
    ground arith,
    record { directories = λ x. refl; buckets = λ x. refl },
    λ x. ground arith,
    refl,
  );
  unpins = λ p id dirty l. (
    unpinned p id,
    ground arith,
    record { directories = λ x. refl; buckets = λ x. refl },
    λ x. ground arith,
    refl,
  );
  bucket_written = λ p id b. ground arith;
  bucket_apart = λ p id x b ne. refl;
  bucket_others = λ p id x b ne. ground arith;
  bucket_pins = λ p id x b. refl;
  bucket_free = λ p id b. refl;
}

answered :
    (p q p' : Store) (x : ℕ) (b : Bool)
    → q.directories ≡ p.directories
    → (if b then some q else none) ≡ some p'
    → p'.directories x ≡ p.directories x
answered p q p' x true k e =
    let q' : q ≡ p' = cc in ap (λ z. z.directories x) (sym q') ∙ ap (λ z. z x) k
answered p q p' x false k e = absurd (ground arith)

store-Keeps : Keeps store
store-Keeps = record {
  fetch_keeps =
      λ p p' id x e. answered p (fetched p id) p' x (ltb 0 p.free || ltb 0 (p.pins id)) refl e;
  unpin_keeps = λ p p' id x dirty e. answered p (unpinned p id) p' x (ltb 0 (p.pins id)) refl e;
  written = λ p id d. ground arith;
}

abbrev empty_store : Store
empty_store = record {
  directories = λ i. blank_directory;
  buckets = λ i. reset (0, 0);
  pins = λ i. 0;
  free = 2;
  next = 5;
}

-- The directory is page 5 and its bucket page 6.
abbrev one_bucket : HashTable Store
one_bucket = record {
  directory_page_id = 5;
  table_latch = RwLatch.init;
  pool = record empty_store {
    directories = λ i. record blank_directory { page_id = i; bucket_page_ids = λ j. 6 };
    next = 7;
  };
}

abbrev same : ℕ → ℕ → Bool
same a b = a == b

-- A bucket of one slot that is taken.
abbrev full_store : HashTable Store
full_store = record one_bucket {
  table_latch = record { reader_count = 1; writer_entered = false };
  pool = record one_bucket.pool {
    buckets = λ i. record { occupied = λ k. 1; readable = λ k. 1; array = λ k. (3, 30) };
  };
}

sound : Sound store same same (λ k. k) (0, 0) 8 one_bucket
sound = record {
  made = refl;
  mirrored = record { bounded = λ i x. omega arith; same = λ i j x y e. (refl, refl) };
  bounded = omega arith;
}

at_6 : page_of store (λ k. k) 3 one_bucket ≡ 6
unfolding key_to_page_id
at_6 = refl

free : is_full 8 (bucket_at store (λ k. k) 3 one_bucket) ≡ false
unfolding is_full reset key_to_page_id
free = refl

full : is_full 1 (bucket_at store (λ k. k) 3 full_store) ≡ true
unfolding is_full key_to_page_id
full = refl

insert-ends_example : insert store same same (λ k. k) (0, 0) 8 10 3 30 one_bucket ≢ spent
insert-ends_example =
    Rounds.insert-ends store same same (λ k. k) (0, 0) 8 store-Keeps 10 3 30 one_bucket sound
      (omega arith)

abbrev answer {ℓ} : {A : Type ℓ} → Outcome (A × HashTable Store) → Option A
answer (done (a, t)) = some a
answer _ = none

-- The state after a call that is done.
abbrev table_after {ℓ} : {A : Type ℓ} → Outcome (A × HashTable Store) → HashTable Store
table_after (done (a, t)) = t
table_after _ = init empty_store

-- The first insert makes the directory and a bucket, and leaves a reader behind.
abbrev first_insert : Outcome (Bool × HashTable Store)
first_insert = insert store same same (λ k. k) (0, 0) 8 1 3 30 (init empty_store)

first :
    (answer first_insert ≡ some true)
    × ((table_after first_insert).table_latch.reader_count ≡ 1)
    × (answer (get_value store same same (λ k. k) (0, 0) 8 3 [] (table_after first_insert))
        ≡ some (30 ∷ [], true))
    × (answer (remove store same same (λ k. k) (0, 0) 8 4 40 (table_after first_insert))
        ≡ some false)
unfolding insert get_value remove init reset
first = (refl, refl, refl, refl)

-- A full bucket of one slot under a latch that is free is split, and both keys are found.
abbrev second_insert : Outcome (Bool × HashTable Store)
second_insert =
    insert store same same (λ k. k) (0, 0) 1 2 2 20
      (record full_store { table_latch = RwLatch.init })

second :
    (answer second_insert ≡ some true)
    × (answer (get_value store same same (λ k. k) (0, 0) 1 2 [] (table_after second_insert))
        ≡ some (20 ∷ [], true))
    × (answer (get_value store same same (λ k. k) (0, 0) 1 3 [] (table_after second_insert))
        ≡ some (30 ∷ [], true))
    × (answer (get_global_depth store (table_after second_insert)) ≡ some 1)
unfolding insert get_value get_global_depth reset
second = (refl, refl, refl, refl)
