-- ===== src/TablePage.antt =====
-- src/storage/page/table_page.cpp and src/include/storage/page/table_page.h: the slotted page of a
-- table. The words of the header and of the slot array are fields, and `bytes` is the rest of the
-- page: the slots end at `slots_end` and the tuples start at `free_space_pointer`, and the bounds
-- below keep the two apart. Nothing sets `enable_logging`, which is false at the start, so the parts
-- under it do not run. The numbers are `uint32_t` and `size_t` with their wrap-around.
pub mod Layout
pub mod Bytes
pub mod Insert
pub mod Delete
pub mod Update
pub mod Scan
mod Tests
use disk_oriented_concurrenc.Base.{
  ℕ, zero, suc, ◌+◌, ◌-◌, ◌*◌, ◌%◌, ◌≡◌, Bool, true, false, not, ◌&&◌, ◌||◌, Option, none, some,
  List, [], ◌∷◌, arith, ltb, leb, ◌==◌, if◌then◌else◌, update, length,
}
use disk_oriented_concurrenc.Transaction.{Rid}

pub record TablePage : Type 0 where
  pub table_page_id : ℕ
  pub prev_page_id : ℕ
  pub next_page_id : ℕ
  pub free_space_pointer : ℕ
  pub tuple_count : ℕ
  pub tuple_offset : ℕ → ℕ
  pub tuple_size : ℕ → ℕ
  pub bytes : ℕ → ℕ

-- `BUSTUB_ASSERT` ends the process.
pub data Result {ℓ} (A : Type ℓ) : Type ℓ where
  returns : A → Result A
  asserts : Result A

abbrev pub invalid_page_id : ℕ
invalid_page_id = 4294967295

-- 2^32, 2^64 and `DELETE_MASK`
abbrev pub word : ℕ
word = 4294967296

abbrev pub wide : ℕ
wide = 18446744073709551616

abbrev pub delete_mask : ℕ
delete_mask = 2147483648

-- the subtraction of `uint32_t`
abbrev pub sub32 : ℕ → ℕ → ℕ
sub32 a b = (a + word - b) % word

-- `Init`, on memory that holds the rest.
unfoldable pub init : TablePage → ℕ → ℕ → ℕ → TablePage
init t page_id page_size prev_page_id = record t {
  table_page_id = page_id;
  prev_page_id = prev_page_id;
  next_page_id = invalid_page_id;
  free_space_pointer = page_size;
  tuple_count = 0;
}

-- `GetFreeSpaceRemaining`: computed in `size_t` and cut to `uint32_t`.
unfoldable pub free_space_remaining : TablePage → ℕ
free_space_remaining t =
    ((t.free_space_pointer + wide - 24 - (8 * t.tuple_count) % wide) % wide) % word

-- The flag is the top bit of the size word.
abbrev pub is_deleted : ℕ → Bool
is_deleted size = leb delete_mask size || size == 0

abbrev pub set_deleted_flag : ℕ → ℕ
set_deleted_flag size = if leb delete_mask size then size else size + delete_mask

abbrev pub unset_deleted_flag : ℕ → ℕ
unset_deleted_flag size = if leb delete_mask size then size - delete_mask else size

-- `memcpy` of a tuple's data to an address, and of `n` bytes from one.
unfoldable pub store : (ℕ → ℕ) → ℕ → List ℕ → ℕ → ℕ
store b a [] = b
store b a (x ∷ xs) = update (store b (suc a) xs) a x

unfoldable pub load : (ℕ → ℕ) → ℕ → ℕ → List ℕ
load b a zero = []
load b a (suc n) = b a ∷ load b (suc a) n

-- `memmove` of `n` bytes.
unfoldable pub move : (ℕ → ℕ) → ℕ → ℕ → ℕ → ℕ → ℕ
move b to from n a = if leb to a && ltb a (to + n) then b (from + (a - to)) else b a

-- The search for an empty slot among the `n` slots from `i` on.
unfoldable pub free_slot : (ℕ → ℕ) → ℕ → ℕ → ℕ
free_slot size i zero = i
free_slot size i (suc n) = let rest = free_slot size (suc i) n in if size i == 0 then i else rest

-- What `InsertTuple` writes once the slot is known.
unfoldable pub claim : TablePage → List ℕ → ℕ → TablePage
unfolding store
claim t tuple i =
    let p = sub32 t.free_space_pointer (length tuple) in
    record t {
      free_space_pointer = p;
      bytes = store t.bytes p tuple;
      tuple_offset = update t.tuple_offset i p;
      tuple_size = update t.tuple_size i (length tuple);
      tuple_count = if i == t.tuple_count then t.tuple_count + 1 else t.tuple_count;
    }

-- `InsertTuple`: the slot of the new tuple, or none for false.
unfoldable pub insert_tuple : TablePage → List ℕ → Result (TablePage × Option ℕ)
unfolding free_space_remaining free_slot claim
insert_tuple t tuple =
    let i = free_slot t.tuple_size 0 t.tuple_count in
    let size = length tuple in
    if size == 0
    then asserts
    else if ltb (free_space_remaining t) (size + 8)
    then returns (t, none)
    else if i == t.tuple_count && ltb (free_space_remaining t) (size + 8)
    then returns (t, none)
    else returns (claim t tuple i, some i)

-- `MarkDelete`
unfoldable pub mark_delete : TablePage → ℕ → TablePage × Bool
mark_delete t slot =
    let size = t.tuple_size slot in
    if leb t.tuple_count slot then (t, false) else if is_deleted size then (t, false) else (
      record t {
        tuple_size =
            if ltb 0 size then update t.tuple_size slot (set_deleted_flag size) else t.tuple_size;
      },
      true,
    )

-- `RollbackDelete`
unfoldable pub rollback_delete : TablePage → ℕ → Result TablePage
rollback_delete t slot =
    let size = t.tuple_size slot in
    if leb t.tuple_count slot
    then asserts
    else returns (record t {
      tuple_size =
          if is_deleted size
          then update t.tuple_size slot (unset_deleted_flag size)
          else t.tuple_size;
    })

-- `GetTuple`: the tuple's data, or none for false.
unfoldable pub get_tuple : TablePage → ℕ → Option (List ℕ)
unfolding load
get_tuple t slot =
    let size = t.tuple_size slot in
    if leb t.tuple_count slot
    then none
    else if is_deleted size
    then none
    else some (load t.bytes (t.tuple_offset slot) size)

-- The size that `ApplyDelete` frees.
abbrev pub deleted_size : ℕ → ℕ
deleted_size size = if is_deleted size then unset_deleted_flag size else size

-- The loop over the slots that closes the gap of a removed tuple.
unfoldable pub shift_offsets : TablePage → ℕ → ℕ → ℕ → ℕ
shift_offsets t offset by i =
    if ltb i t.tuple_count && (not (t.tuple_size i == 0) && ltb (t.tuple_offset i) offset)
    then (t.tuple_offset i + by) % word
    else t.tuple_offset i

-- `ApplyDelete`
unfoldable pub apply_delete : TablePage → ℕ → Result TablePage
unfolding move shift_offsets
apply_delete t slot =
    let offset = t.tuple_offset slot in
    let size = deleted_size (t.tuple_size slot) in
    let p = t.free_space_pointer in
    let t' = record t {
      bytes = move t.bytes (p + size) p (offset - p);
      free_space_pointer = (p + size) % word;
      tuple_size = update t.tuple_size slot 0;
      tuple_offset = update t.tuple_offset slot 0;
    } in
    if leb t.tuple_count slot
    then asserts
    else if ltb offset p
    then asserts
    else returns (record t' { tuple_offset = shift_offsets t' offset size })

-- `UpdateTuple`: the old tuple's data, or none for false.
unfoldable pub update_tuple : TablePage → List ℕ → ℕ → Result (TablePage × Option (List ℕ))
unfolding free_space_remaining move store load
update_tuple t tuple slot =
    let size = t.tuple_size slot in
    let offset = t.tuple_offset slot in
    let n = length tuple in
    let p = t.free_space_pointer in
    let tuple_size = update t.tuple_size slot n in
    if n == 0
    then asserts
    else if leb t.tuple_count slot
    then returns (t, none)
    else if is_deleted size
    then returns (t, none)
    else if ltb ((free_space_remaining t + size) % word) n
    then returns (t, none)
    else if ltb offset p
    then asserts
    else returns (
      record t {
        bytes = store (move t.bytes (p + size - n) p (offset - p)) (offset + size - n) tuple;
        free_space_pointer = sub32 (p + size) n;
        tuple_size = tuple_size;
        tuple_offset = λ i.
            if ltb i t.tuple_count
              && (ltb 0 (tuple_size i) && ltb (t.tuple_offset i) ((offset + size) % word))
            then sub32 (t.tuple_offset i + size) n
            else t.tuple_offset i;
      },
      some (load t.bytes offset size),
    )

-- The first slot from `i` on, among `n`, with a tuple.
unfoldable pub next_live : (ℕ → ℕ) → ℕ → ℕ → Option ℕ
next_live size i zero = none
next_live size i (suc n) =
    let rest = next_live size (suc i) n in if is_deleted (size i) then rest else some i

abbrev pub rid_at : ℕ → Option ℕ → Rid × Bool
rid_at page_id none = (record { page_id = invalid_page_id; slot_num = 0 }, false)
rid_at page_id (some i) = (record { page_id = page_id; slot_num = i }, true)

-- `GetFirstTupleRid` and `GetNextTupleRid`.
unfoldable pub get_first_tuple_rid : TablePage → Rid × Bool
unfolding next_live
get_first_tuple_rid t = rid_at t.table_page_id (next_live t.tuple_size 0 t.tuple_count)

unfoldable pub get_next_tuple_rid : TablePage → Rid → Result (Rid × Bool)
unfolding next_live
get_next_tuple_rid t cur =
    let i = (cur.slot_num + 1) % word in
    if cur.page_id == t.table_page_id
    then returns (rid_at t.table_page_id (next_live t.tuple_size i (t.tuple_count - i)))
    else asserts
