-- ===== src/TransactionManager/Tests.antt =====
-- A transaction that wrote twice, over tables and indexes that are numbers.
use disk_oriented_concurrenc.Base.{
  ℕ, ◌+◌, ◌-◌, ◌≡◌, refl, true, false, ◌&&◌, none, [], ◌∷◌, arith, ◌==◌,
}
use disk_oriented_concurrenc.Transaction.{
  Rid, rid_eq, erase_rid, growing, committed, repeatable_read,
}
use disk_oriented_concurrenc.LockManager.{
  exclusive, has_request, set_state, unlock, dequeue, unlocked, erase_request,
}
use disk_oriented_concurrenc.TransactionManager.{
  TransactionManager, Tables, Indexes, TableWriteRecord, IndexWriteRecord, insert, delete,
  update_row, commit, abort, apply_delete, commit_write, commit_writes, undo_write, undo_writes,
  undo_index, undo_indexes,
}
use disk_oriented_concurrenc.TransactionManager.Locks.{holds, lists, Queued}
use disk_oriented_concurrenc.TransactionManager.Ends.{Ended, commit-Ended, deletes, apply_all}

abbrev tables : Tables ℕ ℕ
tables = record {
  delete_from_page = λ table rid s. s - 1;
  rollback_delete = λ table rid s. s;
  update_tuple = λ table tuple rid s. tuple;
}

abbrev indexes : Indexes ℕ ℕ
indexes = record {
  key_from_tuple = λ table index tuple. tuple;
  insert_entry = λ index key rid i. i + 1;
  delete_entry = λ index key rid i. i - 1;
}

abbrev row : Rid
row = record { page_id = 1; slot_num = 2 }

abbrev record_of_update : TableWriteRecord ℕ
record_of_update = record { rid = row; wtype = update_row; tuple = 4; table = 0 }

abbrev record_of_delete : TableWriteRecord ℕ
record_of_delete = record { rid = row; wtype = delete; tuple = 0; table = 0 }

abbrev record_of_entry : IndexWriteRecord ℕ
record_of_entry = record {
  rid = row;
  table_oid = 0;
  wtype = insert;
  tuple = 9;
  old_tuple = 0;
  index_oid = 3;
}

-- Transaction 5 has locked the row, updated it from 4 to 9 and marked it deleted.
abbrev running : TransactionManager ℕ ℕ ℕ
running = record {
  locks = record {
    txns = λ t. record {
      state = growing;
      isolation_level = repeatable_read;
      shared_lock_set = λ r. false;
      exclusive_lock_set = λ r. rid_eq r row && t == 5;
    };
    registered = λ t. true;
    lock_table = λ r. record {
      request_queue = record { txn_id = 5; lock_mode = exclusive; granted = true } ∷ [];
      upgrading = none;
    };
  };
  next_txn_id = 6;
  global_txn_latch = record { reader_count = 1; writer_entered = false };
  table_write_set = λ t. record_of_delete ∷ record_of_update ∷ [];
  index_write_set = λ t. record_of_entry ∷ [];
  table_state = 9;
  index_state = 1;
}

running-Queued : Queued running.locks 5
unfolding has_request
running-Queued r h = refl

nothing_held :
    (r : Rid)
    → holds
        (commit_writes tables indexes 5
          (running.table_write_set 5)
          (running.table_state, set_state running.locks 5 committed)).1
        5
        r
      ≡ true
    → lists [] r ≡ true
unfolding commit_writes commit_write apply_delete set_state unlock dequeue unlocked has_request
    erase_request erase_rid
nothing_held r h = absurd (ground (arith, h))

commit-Ended_example :
    ((commit tables indexes running 5 []).table_state
      ≡ apply_all tables indexes (deletes tables indexes (running.table_write_set 5)) 9)
    × ((commit tables indexes running 5 []).index_state ≡ 1)
    × ((commit tables indexes running 5 []).table_write_set 5 ≡ [])
    × Ended running (commit tables indexes running 5 []) 5 committed
commit-Ended_example = commit-Ended tables indexes running 5 [] running-Queued nothing_held

aborted_tables : (abort tables indexes running 5 (row ∷ [])).table_state ≡ 4
unfolding abort undo_writes undo_write
aborted_tables = refl

aborted_indexes : (abort tables indexes running 5 (row ∷ [])).index_state ≡ 0
unfolding abort undo_indexes undo_index
aborted_indexes = refl
