-- ===== src/ParallelBufferPool/Tests.antt =====
-- The parallel manager with two instances of one frame each.
use disk_oriented_concurrenc.Base.{ℕ, ◌≡◌, ◌<◌, refl, false, Option, none, some, [], arith}
use disk_oriented_concurrenc.DiskManager.{DiskManager}
use disk_oriented_concurrenc.BufferPool.{Outcome, done, aborted}
use disk_oriented_concurrenc.ParallelBufferPool.{
  ParallelBufferPool, init, instance_at, new_pg, fetch_pg,
}
use disk_oriented_concurrenc.ParallelBufferPool.Routing
use disk_oriented_concurrenc.ParallelBufferPool.Routing.{Well, HasIds, NewPage, IsPinned, init-Well}

abbrev disk : DiskManager
disk = record { file_pages = 0; page_at = λ _. []; num_writes = 0; failed = false }

abbrev two : ParallelBufferPool
two = init 2 1 disk

two-HasIds : HasIds two
unfolding init disk_oriented_concurrenc.BufferPool.fresh
two-HasIds i h = omega arith

-- The manager and the result of a call, if it returned.
abbrev after : Outcome (ParallelBufferPool × Option (ℕ × ℕ × ℕ)) → ParallelBufferPool
after (done (p, r)) = p
after aborted = two

abbrev page_of : Outcome (ParallelBufferPool × Option (ℕ × ℕ × ℕ)) → Option (ℕ × ℕ × ℕ)
page_of (done (p, r)) = r
page_of aborted = none

pages_alternate :
    (page_of (new_pg (after (new_pg two))) ≡ some (1, 0, 1))
    × (page_of (new_pg (after (new_pg (after (new_pg two))))) ≡ none)
unfolding new_pg init disk_oriented_concurrenc.BufferPool.new_pg
    disk_oriented_concurrenc.LruReplacer.victim disk_oriented_concurrenc.LruReplacer.pin
    disk_oriented_concurrenc.LruReplacer.init
pages_alternate = (refl, refl)

new_pg-NewPage_example :
    (p' : ParallelBufferPool) × (r : Option (ℕ × ℕ × ℕ)) × (new_pg two ≡ done (p', r))
    × Well p'
    × (((i f id : ℕ) → r ≡ some (i, f, id) → NewPage two p' i f id)
        × (r ≡ none
            → ((j : ℕ) → instance_at p' j ≡ instance_at two j)
              × ((j : ℕ) → j < two.num_instances → IsPinned (instance_at two j))))
new_pg-NewPage_example = Routing.new_pg-NewPage two (init-Well 2 1 disk (omega arith)) two-HasIds

first_page : new_pg two ≡ done (after (new_pg two), some (0, 0, 0))
unfolding new_pg init disk_oriented_concurrenc.BufferPool.new_pg
first_page = refl

fetch_pg-new_pg_example : (fetch_pg (after (new_pg two)) 0).1 ≡ some (0, 0)
fetch_pg-new_pg_example =
    Routing.fetch_pg-new_pg two (after (new_pg two)) 0 0 0 (init-Well 2 1 disk (omega arith))
      two-HasIds first_page
