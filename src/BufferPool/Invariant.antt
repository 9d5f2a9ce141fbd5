-- ===== src/BufferPool/Invariant.antt =====
-- The well-formedness of a buffer pool, and the steps out of which its operations are composed.
use disk_oriented_concurrenc.Base.{
  ℕ, ◌<◌, ◌≡◌, ◌≢◌, refl, true, false, Option, none, some, List, [], ◌∷◌, arith, ◌⊎◌, ◌↔◌, elem,
  Distinct, update, lookup, lookup-erase, lookup-insert, DistinctKeys, erase-DistinctKeys,
  insert-DistinctKeys, elem-append, snoc-Distinct,
}
use disk_oriented_concurrenc.LruReplacer
use disk_oriented_concurrenc.LruReplacer.{LruReplacer, frames}
use disk_oriented_concurrenc.LruReplacer.Refines.{IsValid, pin_lem}
use disk_oriented_concurrenc.LruReplacer.Members.{elem-pin, Victims, victim-Victims}
use disk_oriented_concurrenc.DiskManager.{Data, DiskManager}
use disk_oriented_concurrenc.BufferPool.{
  BufferPool, Page, install, pin_page, release_frame, take_frame, evict,
}

abbrev pub Resident : BufferPool → ℕ → Type 0
Resident b f = lookup (b.pages f).page_id b.page_table ≡ some f

-- Every frame but `held` is either free or resident, and the replacer holds the unpinned residents.
pub record Partial (b : BufferPool) (held : ℕ) : Type 0 where
  pub keyed :
      (p f : ℕ) → lookup p b.page_table ≡ some f → (f < b.pool_size) × ((b.pages f).page_id ≡ p)
  pub free : (f : ℕ) → elem f b.free_list ≡ true → (f < b.pool_size) × (¬ Resident b f)
  pub distinct : Distinct b.free_list
  pub unique : DistinctKeys b.page_table
  pub evictable :
      (f : ℕ) → (elem f (frames b.replacer) ≡ true) ↔ (Resident b f × ((b.pages f).pin_count ≡ 0))
  pub cover : (f : ℕ) → f < b.pool_size → f ≢ held → (elem f b.free_list ≡ true) ⊎ Resident b f
  pub valid : IsValid b.replacer
  pub capacity : b.replacer.max_size ≡ b.pool_size

-- No frame is held between operations.
abbrev pub Inv : BufferPool → Type 0
Inv b = Partial b b.pool_size

-- A frame that is neither free nor resident.
pub record IsHeld (b : BufferPool) (f : ℕ) : Type 0 where
  pub within : f < b.pool_size
  pub not_free : elem f b.free_list ≡ false
  pub not_resident : ¬ Resident b f

-- Neither the disk nor the next page id plays a part.
pub other-Partial :
    (b : BufferPool) (held : ℕ) (d : DiskManager) (n : ℕ)
    → Partial b held
    → Partial (record b { disk = d; next_page_id = n }) held
other-Partial b held d n v = record {
  keyed = v.keyed;
  free = v.free;
  distinct = v.distinct;
  unique = v.unique;
  evictable = v.evictable;
  cover = v.cover;
  valid = v.valid;
  capacity = v.capacity;
}

-- A page that is not in the table goes into a held frame.
pub install-Inv :
    (b : BufferPool) (f p : ℕ) (c : Data)
    → Partial b f
    → IsHeld b f
    → lookup p b.page_table ≡ none
    → Inv (install b f p c)
unfolding install
install-Inv b f p c v h absent = record {
  keyed = λ q g. ground (arith, lookup-insert p q f b.page_table, v.keyed q g, v.keyed q f);
  free = λ g. ground (arith, lookup-insert p (b.pages g).page_id f b.page_table, v.free g);
  distinct = v.distinct;
  unique = insert-DistinctKeys p f b.page_table v.unique;
  evictable = λ g. ground (
    arith,
    elem-pin b.replacer f g v.valid,
    lookup-insert p (b.pages g).page_id f b.page_table,
    v.evictable g,
  );
  cover = λ g. ground (
    arith,
    lookup-insert p p f b.page_table,
    lookup-insert p (b.pages g).page_id f b.page_table,
    v.cover g,
  );
  valid = (pin_lem b.replacer f v.valid).0;
  capacity = ground (arith, pin_lem b.replacer f v.valid, v.capacity);
}

-- What `take_frame` leaves behind when it finds frame `f`: nothing else has moved, and a resident
-- that had to go was not pinned.
pub record Taken (b b' : BufferPool) (f : ℕ) : Type 0 where
  pub partial : Partial b' f
  pub held : IsHeld b' f
  pub pages : b'.pages ≡ b.pages
  pub size : b'.pool_size ≡ b.pool_size
  pub next : b'.next_page_id ≡ b.next_page_id
  pub num : b'.num_instances ≡ b.num_instances
  pub index : b'.instance_index ≡ b.instance_index
  pub kept : (q g : ℕ) → g ≢ f → lookup q b.page_table ≡ some g → lookup q b'.page_table ≡ some g
  pub absent : (q : ℕ) → lookup q b.page_table ≡ none → lookup q b'.page_table ≡ none
  pub was : (q g : ℕ) → lookup q b'.page_table ≡ some g → lookup q b.page_table ≡ some g
  pub unpinned : Resident b f → (b.pages f).pin_count ≡ 0

-- Without a frame every frame is a pinned resident, and nothing changed.
pub record IsExhausted (b b' : BufferPool) : Type 0 where
  pub same : b' ≡ b
  pub pinned : (f : ℕ) → f < b.pool_size → Resident b f × (0 < (b.pages f).pin_count)

abbrev pub Takes : BufferPool → BufferPool × Option ℕ → Type 0
Takes b (b', none) = IsExhausted b b'
Takes b (b', some f) = Taken b b' f

evict-Takes :
    (b : BufferPool) (w : LruReplacer × Option ℕ)
    → Inv b
    → b.free_list ≡ []
    → Victims b.replacer w
    → Takes b (evict b w)
unfolding evict
evict-Takes b (r, none) v e h = record {
  same = ground arith;
  pinned = λ f lt. ground (arith, v.evictable f, v.cover f, h.1 f);
}
evict-Takes b (r, some f) v e h = record {
  partial = record {
    keyed = λ p g. ground (arith, lookup-erase (b.pages f).page_id p b.page_table, v.keyed p g);
    free = λ g. ground arith;
    distinct = v.distinct;
    unique = erase-DistinctKeys (b.pages f).page_id b.page_table v.unique;
    evictable = λ g. ground (
      arith,
      h.3 g,
      v.evictable g,
      v.evictable f,
      lookup-erase (b.pages f).page_id (b.pages g).page_id b.page_table,
    );
    cover = λ g. ground (
      arith,
      v.cover g,
      v.evictable f,
      lookup-erase (b.pages f).page_id (b.pages g).page_id b.page_table,
    );
    valid = h.0;
    capacity = ground (arith, h.1, v.capacity);
  };
  held = record {
    within = ground (arith, h.2, v.evictable f, v.keyed (b.pages f).page_id f);
    not_free = ground arith;
    not_resident =
        ground (arith, lookup-erase (b.pages f).page_id (b.pages f).page_id b.page_table);
  };
  pages = refl;
  size = refl;
  next = refl;
  num = refl;
  index = refl;
  kept = λ q g.
      ground (arith, lookup-erase (b.pages f).page_id q b.page_table, v.evictable f, v.keyed q g);
  absent = λ q. ground (arith, lookup-erase (b.pages f).page_id q b.page_table);
  was = λ q g. ground (arith, lookup-erase (b.pages f).page_id q b.page_table);
  unpinned = λ _. ((v.evictable f).0 h.2).1;
}

pub take_frame-nil :
    (b : BufferPool) → b.free_list ≡ [] → take_frame b ≡ evict b (LruReplacer.victim b.replacer)
unfolding take_frame
take_frame-nil b e = ground arith

pub take_frame-cons :
    (b : BufferPool) (f : ℕ) (rest : List ℕ)
    → b.free_list ≡ f ∷ rest
    → take_frame b ≡ (record b { free_list = rest }, some f)
unfolding take_frame
take_frame-cons b f rest e = ground arith

-- On a well-formed pool `take_frame` takes a free or an unpinned frame, and fails only if every
-- frame is pinned.
pub take_frame-Takes : (b : BufferPool) → Inv b → Takes b (take_frame b)
take_frame-Takes b v = by_free_list b.free_list refl
  where
    by_free_list : (l : List ℕ) → b.free_list ≡ l → Takes b (take_frame b)
    by_free_list [] e =
        rw (take_frame-nil b e)
          (evict-Takes b (LruReplacer.victim b.replacer) v e (victim-Victims b.replacer v.valid))
    by_free_list (f ∷ rest) e = rw (take_frame-cons b f rest e) (record {
      partial = record {
        keyed = v.keyed;
        free = λ g. ground (arith, v.free g);
        distinct = ground (arith, v.distinct);
        unique = v.unique;
        evictable = v.evictable;
        cover = λ g. ground (arith, v.cover g);
        valid = v.valid;
        capacity = v.capacity;
      };
      held = record {
        within = ground (arith, v.free f);
        not_free = ground (arith, v.distinct);
        not_resident = ground (arith, v.free f);
      };
      pages = refl;
      size = refl;
      next = refl;
      num = refl;
      index = refl;
      kept = λ q g _ h. h;
      absent = λ q h. h;
      was = λ q g h. h;
      unpinned = ground (arith, v.free f);
    })

-- A page that is in the table gets one more pin.
pub pin_page-Inv : (b : BufferPool) (f : ℕ) → Inv b → Resident b f → Inv (pin_page b f)
unfolding pin_page
pin_page-Inv b f v h = record {
  keyed = λ q g. ground (arith, v.keyed q g);
  free = λ g. ground (arith, v.free g);
  distinct = v.distinct;
  unique = v.unique;
  evictable = λ g. ground (arith, elem-pin b.replacer f g v.valid, v.evictable g);
  cover = λ g. ground (arith, v.cover g);
  valid = (pin_lem b.replacer f v.valid).0;
  capacity = ground (arith, pin_lem b.replacer f v.valid, v.capacity);
}

-- A resident frame that leaves the table is free.
pub release_frame-Inv : (b : BufferPool) (f : ℕ) → Inv b → Resident b f → Inv (release_frame b f)
unfolding release_frame
release_frame-Inv b f v h = record {
  keyed = λ q g. ground (
    arith,
    lookup-erase (b.pages f).page_id q b.page_table,
    v.keyed q g,
    v.keyed q f,
    v.keyed (b.pages f).page_id f,
  );
  free = λ g. ground (
    arith,
    elem-append g b.free_list (f ∷ []),
    lookup-erase (b.pages f).page_id 4294967295 b.page_table,
    lookup-erase (b.pages f).page_id (b.pages g).page_id b.page_table,
    v.free g,
    v.keyed 4294967295 f,
    v.keyed (b.pages f).page_id f,
  );
  distinct = snoc-Distinct f b.free_list v.distinct (ground (arith, v.free f));
  unique = erase-DistinctKeys (b.pages f).page_id b.page_table v.unique;
  evictable = λ g. ground (
    arith,
    elem-pin b.replacer f g v.valid,
    lookup-erase (b.pages f).page_id 4294967295 b.page_table,
    lookup-erase (b.pages f).page_id (b.pages g).page_id b.page_table,
    v.keyed 4294967295 f,
    v.evictable g,
  );
  cover = λ g. ground (
    arith,
    elem-append g b.free_list (f ∷ []),
    lookup-erase (b.pages f).page_id (b.pages g).page_id b.page_table,
    v.cover g,
  );
  valid = (pin_lem b.replacer f v.valid).0;
  capacity = ground (arith, pin_lem b.replacer f v.valid, v.capacity);
}

-- A resident's page may change in any way that leaves its id and its pin count.
pub touch-Inv :
    (b : BufferPool) (f : ℕ) (page : Page)
    → Inv b
    → page.page_id ≡ (b.pages f).page_id
    → page.pin_count ≡ (b.pages f).pin_count
    → Inv (record b { pages = update b.pages f page })
touch-Inv b f page v same pins = record {
  keyed = λ q g. ground (arith, v.keyed q g);
  free = λ g. ground (arith, v.free g);
  distinct = v.distinct;
  unique = v.unique;
  evictable = λ g. ground (arith, v.evictable g);
  cover = λ g. ground (arith, v.cover g);
  valid = v.valid;
  capacity = v.capacity;
}
