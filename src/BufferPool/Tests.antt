-- ===== src/BufferPool/Tests.antt =====
-- The pool on concrete inputs, and the theorems at inputs that meet their hypotheses.
use disk_oriented_concurrenc.Base.{
  ℕ, ◌≡◌, refl, true, false, Option, none, some, List, [], ◌∷◌, arith, lookup, insert,
  if◌then◌else◌, ◌==◌,
}
use disk_oriented_concurrenc.LruReplacer
use disk_oriented_concurrenc.LruReplacer.{LruReplacer}
use disk_oriented_concurrenc.DiskManager.{DiskManager}
use disk_oriented_concurrenc.BufferPool.{
  BufferPool, done, fresh, new_pg, fetch_pg, delete_pg, unpin_pg, flush_pg,
}
use disk_oriented_concurrenc.BufferPool.Invariant.{Inv}
use disk_oriented_concurrenc.BufferPool.Allocation
use disk_oriented_concurrenc.BufferPool.Allocation.{Ids}
use disk_oriented_concurrenc.BufferPool.Contents
use disk_oriented_concurrenc.BufferPool.Contents.{IsCoherent, contents}
use disk_oriented_concurrenc.BufferPool.Durable
use disk_oriented_concurrenc.BufferPool.Release
use disk_oriented_concurrenc.BufferPool.Run
use disk_oriented_concurrenc.BufferPool.Run.{news, fetches, unpins, Call, run, AllowedRun}

-- A file of two pages.
abbrev disk : DiskManager
disk = record {
  file_pages = 2;
  page_at = λ p. if p == 0 then 10 ∷ [] else 11 ∷ [];
  num_writes = 2;
  failed = false;
}

-- Page 0 is pinned in frame 0, and page 1 waits, dirty, in frame 1.
abbrev busy : BufferPool
busy = record {
  pool_size = 2;
  num_instances = 1;
  instance_index = 0;
  next_page_id = 3;
  pages = λ f.
      if f == 0
      then record { content = 20 ∷ []; page_id = 0; pin_count = 1; is_dirty = false }
      else record { content = 21 ∷ []; page_id = 1; pin_count = 0; is_dirty = true };
  disk = disk;
  page_table = (1, 1) ∷ (0, 0) ∷ [];
  replacer = record {
    lru_list = (0, 1) ∷ [];
    lru_hash = λ f. if f == 1 then some 0 else none;
    max_size = 2;
    next_node = 1;
  };
  free_list = [];
}

busy-Inv : Inv busy
unfolding lookup
busy-Inv = record {
  keyed = λ p f. ground arith;
  free = λ f. ground arith;
  distinct = tt;
  unique = ground arith;
  evictable = λ f. ground arith;
  cover = λ f. ground arith;
  valid = record { linked = ground arith; bounded = omega arith };
  capacity = refl;
}

busy-Ids : Ids busy
unfolding lookup
busy-Ids = record { positive = omega arith; routed = refl; issued = λ q f. ground arith }

busy-IsCoherent : IsCoherent busy
unfolding lookup
busy-IsCoherent = record {
  good = record { fits = omega arith; good = refl };
  small = λ q f. ground arith;
  clean = λ q f. ground arith;
}

new_pg_lem_example :
    (b' : BufferPool) × (r : Option (ℕ × ℕ)) × (new_pg busy ≡ done (b', r))
    × Inv b'
    × Ids b'
    × Allocation.NewResult busy b' r
new_pg_lem_example = Allocation.new_pg_lem busy busy-Inv busy-Ids (omega arith)

fetch_pg-Fetches_example : Contents.Fetches busy 2 (fetch_pg busy 2)
fetch_pg-Fetches_example = Contents.fetch_pg-Fetches busy 2 busy-Inv busy-IsCoherent (omega arith)

flush_pg-Flushes_example : Durable.Flushes busy 1 1 (flush_pg busy 1)
unfolding lookup
flush_pg-Flushes_example = Durable.flush_pg-Flushes busy 1 1 busy-Inv busy-IsCoherent refl

delete_pg-Deletes_example : Release.Deletes busy 1 (delete_pg busy 1)
delete_pg-Deletes_example = Release.delete_pg-Deletes busy 1 busy-Inv busy-IsCoherent

abbrev calls : List Call
calls = news ∷ unpins 0 true ∷ fetches 0 ∷ []

calls-AllowedRun : AllowedRun (fresh 2 1 0 disk) calls
unfolding AllowedRun Run.step fresh new_pg fetch_pg unpin_pg LruReplacer.init lookup insert
calls-AllowedRun = omega arith

run-fresh-Well_example : (b : BufferPool) × (run (fresh 2 1 0 disk) calls ≡ done b) × Run.Well b
run-fresh-Well_example = Run.run-fresh-Well 2 1 0 disk calls (omega arith) calls-AllowedRun
