-- ===== src/RwLatch.antt =====
-- src/include/common/rwlatch.h. Each function runs under the mutex from one wait to the next, so these
-- stretches are the steps. A waiter may wake at any time, so the notifications change nothing here.
pub mod Exclusion
mod Tests
use disk_oriented_concurrenc.Base.{
  ℕ, ◌+◌, ◌-◌, ◌%◌, Bool, true, false, ◌||◌, Option, none, some, arith, ltb, ◌==◌, if◌then◌else◌,
}

-- `UINT_MAX`
abbrev pub max_readers : ℕ
max_readers = 4294967295

pub record RwLatch : Type 0 where
  pub reader_count : ℕ
  pub writer_entered : Bool

abbrev pub init : RwLatch
init = record { reader_count = 0; writer_entered = false }

-- `RLock` from its test on: none while it has to wait.
unfoldable pub r_lock : RwLatch → Option RwLatch
r_lock l =
    if l.writer_entered || l.reader_count == max_readers
    then none
    else some (record l { reader_count = (l.reader_count + 1) % 4294967296 })

-- `RUnlock`, with the decrement that wraps.
unfoldable pub r_unlock : RwLatch → RwLatch
r_unlock l = record l { reader_count = (l.reader_count + 4294967295) % 4294967296 }

-- `WLock` from the first test on: the writer is entered, or has to wait.
unfoldable pub w_enter : RwLatch → Option RwLatch
w_enter l = if l.writer_entered then none else some (record l { writer_entered = true })

-- The second test of `WLock`: whether the writer that is entered may go on.
unfoldable pub w_ready : RwLatch → Bool
w_ready l = if ltb 0 l.reader_count then false else true

-- `WUnlock`
unfoldable pub w_unlock : RwLatch → RwLatch
w_unlock l = record l { writer_entered = false }

-- `WLock` when no other thread runs in between: none if it waits for ever.
unfoldable pub w_lock : RwLatch → Option RwLatch
unfolding w_enter w_ready
w_lock l = elim (w_enter l) [ none ↦ none | some l' ↦ if w_ready l' then some l' else none ]
