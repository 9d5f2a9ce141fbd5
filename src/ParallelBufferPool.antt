-- ===== src/ParallelBufferPool.antt =====
-- src/buffer/parallel_buffer_pool_manager.cpp. The instances share one disk manager: an instance is
-- run on the shared disk, and the disk that it leaves is shared again. Frames carry the index of
-- their instance. Page ids are patterns of `page_id_t`, as in the buffer pool.
pub mod Routing
mod Tests
use disk_oriented_concurrenc.Base.{
  ℕ, zero, suc, ◌+◌, ◌*◌, ◌%◌, ◌≡◌, Bool, true, false, Option, none, some, ltb, update,
  if◌then◌else◌,
}
use disk_oriented_concurrenc.DiskManager.{DiskManager}
use disk_oriented_concurrenc.BufferPool
use disk_oriented_concurrenc.BufferPool.{BufferPool, Outcome, done, aborted}

pub record ParallelBufferPool : Type 0 where
  pub num_instances : ℕ
  pub pool_size : ℕ
  pub next_instance : ℕ
  pub managers : ℕ → BufferPool
  pub disk : DiskManager

unfoldable pub init : ℕ → ℕ → DiskManager → ParallelBufferPool
unfolding BufferPool.fresh
init num_instances pool_size disk = record {
  num_instances = num_instances;
  pool_size = pool_size;
  next_instance = 0;
  managers = λ i. BufferPool.fresh pool_size num_instances i disk;
  disk = disk;
}

unfoldable pub get_pool_size : ParallelBufferPool → ℕ
get_pool_size p = p.pool_size * p.num_instances

-- An instance with the shared disk, and the manager after a call on it.
abbrev pub instance_at : ParallelBufferPool → ℕ → BufferPool
instance_at p i = record (p.managers i) { disk = p.disk }

abbrev pub put : ParallelBufferPool → ℕ → BufferPool → ParallelBufferPool
put p i b = record p { managers = update p.managers i b; disk = b.disk }

-- `page_id % num_instances_`, in which a negative page id is extended to 64 bits.
unfoldable pub manager_of : ParallelBufferPool → ℕ → ℕ
manager_of p page_id =
    (if ltb page_id 2147483648 then page_id else page_id + 18446744069414584320) % p.num_instances

abbrev pub tag {ℓ} : {A : Type ℓ} → ℕ → Option A → Option (ℕ × A)
tag i none = none
tag i (some a) = some (i, a)

unfoldable pub fetch_pg : ParallelBufferPool → ℕ → ParallelBufferPool × Option (ℕ × ℕ)
unfolding manager_of
fetch_pg p page_id =
    let i = manager_of p page_id in
    let (b, frame) = BufferPool.fetch_pg (instance_at p i) page_id in (put p i b, tag i frame)

unfoldable pub unpin_pg : ParallelBufferPool → ℕ → Bool → ParallelBufferPool × Bool
unfolding manager_of
unpin_pg p page_id is_dirty =
    let i = manager_of p page_id in
    let (b, ok) = BufferPool.unpin_pg (instance_at p i) page_id is_dirty in (put p i b, ok)

unfoldable pub flush_pg : ParallelBufferPool → ℕ → ParallelBufferPool × Bool
unfolding manager_of
flush_pg p page_id =
    let i = manager_of p page_id in
    let (b, ok) = BufferPool.flush_pg (instance_at p i) page_id in (put p i b, ok)

unfoldable pub delete_pg : ParallelBufferPool → ℕ → ParallelBufferPool × Bool
unfolding manager_of
delete_pg p page_id =
    let i = manager_of p page_id in
    let (b, ok) = BufferPool.delete_pg (instance_at p i) page_id in (put p i b, ok)

-- The manager after a call on the next instance, and the next one after it.
unfoldable pub advance : ParallelBufferPool → BufferPool → ParallelBufferPool
advance p b = record (put p p.next_instance b) {
  next_instance = (p.next_instance + 1) % p.num_instances;
}

-- The loop of `NewPgImp` with the rounds that are left: instance, frame and page id.
unfoldable pub new_rounds :
    ℕ → ParallelBufferPool → Outcome (ParallelBufferPool × Option (ℕ × ℕ × ℕ))
unfolding advance
new_rounds zero p = done (p, none)
new_rounds (suc n) p = elim (BufferPool.new_pg (instance_at p p.next_instance)) [
  | aborted ↦ aborted
  | done (b, some (frame_id, page_id)) ↦
      done (advance p b, some (p.next_instance, frame_id, page_id))
  | done (b, none) ↦ new_rounds n (advance p b)
]

unfoldable pub new_pg : ParallelBufferPool → Outcome (ParallelBufferPool × Option (ℕ × ℕ × ℕ))
unfolding new_rounds
new_pg p = new_rounds p.num_instances p

-- The loop of `FlushAllPgsImp` over the first instances.
unfoldable pub flush_first : ℕ → ParallelBufferPool → ParallelBufferPool
flush_first zero p = p
flush_first (suc n) p =
    let q = flush_first n p in put q n (BufferPool.flush_all_pgs (instance_at q n))

unfoldable pub flush_all_pgs : ParallelBufferPool → ParallelBufferPool
unfolding flush_first
flush_all_pgs p = flush_first p.num_instances p
