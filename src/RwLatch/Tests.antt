-- ===== src/RwLatch/Tests.antt =====
-- A reader enters, and a writer waits for it.
use disk_oriented_concurrenc.Base.{◌≡◌, refl, true, false, none}
use disk_oriented_concurrenc.RwLatch.{RwLatch, r_lock, w_enter, w_lock}
use disk_oriented_concurrenc.RwLatch.Exclusion
use disk_oriented_concurrenc.RwLatch.Exclusion.{Threads, Step, Reach, Agrees, idle}

abbrev one_reader : RwLatch
one_reader = record { reader_count = 1; writer_entered = false }

writer_waits :
    (w_lock one_reader ≡ none) × (r_lock (record one_reader { writer_entered = true }) ≡ none)
unfolding w_lock r_lock
writer_waits = (refl, refl)

abbrev waiting : Threads
waiting = record {
  latch = record { reader_count = 1; writer_entered = true };
  readers = 1;
  entered = 1;
  writers = 0;
}

waiting-Reach : Reach waiting
unfolding r_lock w_enter
waiting-Reach = Reach.later (Reach.later Reach.start (Step.reads refl)) (Step.enters refl)

Reach-Agrees_example : Agrees waiting
Reach-Agrees_example = Exclusion.Reach-Agrees waiting waiting-Reach
