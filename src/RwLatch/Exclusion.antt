-- ===== src/RwLatch/Exclusion.antt =====
-- The latch among threads: a writer that holds it is alone.
use disk_oriented_concurrenc.Base.{
  ℕ, suc, ◌+◌, ◌≤◌, ◌<◌, ◌≡◌, refl, true, some, arith, if◌then◌else◌,
}
use disk_oriented_concurrenc.RwLatch.{
  RwLatch, init, max_readers, r_lock, r_unlock, w_enter, w_ready, w_unlock,
}

-- The latch, and how many threads hold it to read, wait in `WLock` for the readers to leave, and hold it
-- to write.
pub record Threads : Type 0 where
  pub latch : RwLatch
  pub readers : ℕ
  pub entered : ℕ
  pub writers : ℕ

abbrev pub idle : Threads
idle = record { latch = init; readers = 0; entered = 0; writers = 0 }

-- One thread takes a step. A thread unlocks only what it holds.
pub data Step (s : Threads) : Threads → Type 0 where
  reads :
      {l : RwLatch}
      → r_lock s.latch ≡ some l
      → Step s (record s { latch = l; readers = suc s.readers })
  stops_reading :
      {k : ℕ} → s.readers ≡ suc k → Step s (record s { latch = r_unlock s.latch; readers = k })
  enters :
      {l : RwLatch}
      → w_enter s.latch ≡ some l
      → Step s (record s { latch = l; entered = suc s.entered })
  writes :
      {k : ℕ}
      → s.entered ≡ suc k
      → w_ready s.latch ≡ true
      → Step s (record s { entered = k; writers = suc s.writers })
  stops_writing :
      {k : ℕ} → s.writers ≡ suc k → Step s (record s { latch = w_unlock s.latch; writers = k })

pub data Reach : Threads → Type 0 where
  start : Reach idle
  later : {s t : Threads} → Reach s → Step s t → Reach t

-- What the latch records.
pub record Agrees (s : Threads) : Type 0 where
  pub count : s.latch.reader_count ≡ s.readers
  pub bounded : s.readers ≤ max_readers
  pub writer : s.entered + s.writers ≡ (if s.latch.writer_entered then 1 else 0)
  pub exclusive : 0 < s.writers → s.readers ≡ 0

Step-Agrees : (s t : Threads) → Step s t → Agrees s → Agrees t
unfolding r_lock r_unlock w_enter w_ready w_unlock
Step-Agrees s t (Step.reads e) a = record {
  count = ground (arith, a.count, a.bounded, a.writer);
  bounded = ground (arith, a.count, a.bounded, a.writer);
  writer = ground (arith, a.count, a.writer);
  exclusive = ground (arith, a.count, a.bounded, a.writer, a.exclusive);
}
Step-Agrees s t (Step.stops_reading e) a = record {
  count = ground (arith, a.count, a.bounded, a.writer);
  bounded = ground (arith, a.count, a.bounded, a.writer);
  writer = ground (arith, a.count, a.writer);
  exclusive = ground (arith, a.count, a.bounded, a.writer, a.exclusive);
}
Step-Agrees s t (Step.enters e) a = record {
  count = ground (arith, a.count, a.bounded, a.writer);
  bounded = ground (arith, a.count, a.bounded, a.writer);
  writer = ground (arith, a.count, a.writer);
  exclusive = ground (arith, a.count, a.bounded, a.writer, a.exclusive);
}
Step-Agrees s t (Step.writes e r) a = record {
  count = ground (arith, a.count, a.bounded, a.writer);
  bounded = ground (arith, a.count, a.bounded, a.writer);
  writer = ground (arith, a.count, a.writer);
  exclusive = ground (arith, a.count, a.bounded, a.writer, a.exclusive);
}
Step-Agrees s t (Step.stops_writing e) a = record {
  count = ground (arith, a.count, a.bounded, a.writer);
  bounded = ground (arith, a.count, a.bounded, a.writer);
  writer = ground (arith, a.count, a.writer);
  exclusive = ground (arith, a.count, a.bounded, a.writer, a.exclusive);
}

-- In every state that threads can reach, the latch's count is the number of readers and does not wrap,
-- at most one thread has entered `WLock` past its first test and not left `WUnlock`, and while a thread
-- holds the latch to write, no thread holds it to read.
pub Reach-Agrees : (s : Threads) → Reach s → Agrees s
Reach-Agrees _ Reach.start = record {
  count = refl;
  bounded = omega arith;
  writer = refl;
  exclusive = λ h. refl;
}
Reach-Agrees t (Reach.later r e) = Step-Agrees _ t e (Reach-Agrees _ r)
