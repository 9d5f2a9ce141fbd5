-- ===== src/BufferPool.antt =====
-- src/buffer/buffer_pool_manager_instance.cpp, with the page metadata of
-- src/include/storage/page/page.h. Page ids are 32-bit patterns; the latch is held for the whole
-- of each operation, so an operation is one step. A frame's address is its number.
pub mod Invariant
pub mod Preserves
pub mod Allocation
pub mod Contents
pub mod Durable
pub mod Release
pub mod Run
mod Tests
use disk_oriented_concurrenc.Base.{
  ℕ, zero, suc, ◌+◌, ◌-◌, ◌%◌, ◌≡◌, Bool, true, false, Option, none, some, List, [], ◌∷◌, ◌++◌,
  arith, ltb, ◌==◌, if◌then◌else◌, update, lookup, erase, insert,
}
use disk_oriented_concurrenc.DiskManager.{DiskManager, Data, zero_page, write_page, read_page}
use disk_oriented_concurrenc.LruReplacer
use disk_oriented_concurrenc.LruReplacer.{LruReplacer}

-- `INVALID_PAGE_ID`, the pattern of -1.
abbrev pub invalid_page_id : ℕ
invalid_page_id = 4294967295

pub record Page : Type 0 where
  pub content : Data
  pub page_id : ℕ
  pub pin_count : ℕ
  pub is_dirty : Bool

pub record BufferPool : Type 0 where
  pub pool_size : ℕ
  pub num_instances : ℕ
  pub instance_index : ℕ
  pub next_page_id : ℕ
  pub pages : ℕ → Page
  pub disk : DiskManager
  pub page_table : List (ℕ × ℕ)
  pub replacer : LruReplacer
  pub free_list : List ℕ

-- An `assert` that fails ends the process.
pub data Outcome {ℓ} (A : Type ℓ) : Type ℓ where
  done : A → Outcome A
  aborted : Outcome A

unfoldable pub blank_page : Page
blank_page = record {
  content = zero_page;
  page_id = invalid_page_id;
  pin_count = 0;
  is_dirty = false;
}

-- `for (i = 0; i < pool_size; ++i) free_list_.emplace_back(i)`
unfoldable pub count_up : ℕ → List ℕ
count_up zero = []
count_up (suc n) = count_up n ++ n ∷ []

unfoldable pub fresh : ℕ → ℕ → ℕ → DiskManager → BufferPool
unfolding blank_page count_up
fresh pool_size num_instances instance_index disk = record {
  pool_size = pool_size;
  num_instances = num_instances;
  instance_index = instance_index;
  next_page_id = instance_index;
  pages = λ _. blank_page;
  disk = disk;
  page_table = [];
  replacer = LruReplacer.init pool_size;
  free_list = count_up pool_size;
}

-- The constructor, whose two assertions guard the instance index.
unfoldable pub init : ℕ → ℕ → ℕ → DiskManager → Outcome BufferPool
unfolding fresh
init pool_size num_instances instance_index disk =
    if ltb 0 num_instances
    then (if ltb instance_index num_instances
        then done (fresh pool_size num_instances instance_index disk)
        else aborted)
    else aborted

-- The disk after `if (page->IsDirty()) WritePage(page->GetPageId(), page->GetData())`.
unfoldable pub write_back : DiskManager → Page → DiskManager
write_back disk page = if page.is_dirty then write_page disk page.page_id page.content else disk

unfoldable pub evict : BufferPool → LruReplacer × Option ℕ → BufferPool × Option ℕ
unfolding write_back
evict b (r, none) = (record b { replacer = r }, none)
evict b (r, some frame_id) =
    let page = b.pages frame_id in
    (
      record b {
        replacer = r;
        disk = write_back b.disk page;
        page_table = erase page.page_id b.page_table;
      },
      some frame_id,
    )

-- A frame for a new resident: the first free one, else the replacer's victim, written back.
unfoldable pub take_frame : BufferPool → BufferPool × Option ℕ
unfolding evict
take_frame b = elim b.free_list [
  | frame_id ∷ rest ↦ (record b { free_list = rest }, some frame_id)
  | [] ↦ evict b (LruReplacer.victim b.replacer)
]

-- `AllocatePage`, with the increment that wraps.
unfoldable pub allocate_page : BufferPool → BufferPool × ℕ
allocate_page b =
    (record b { next_page_id = (b.next_page_id + b.num_instances) % 4294967296 }, b.next_page_id)

-- The condition that `ValidatePageId` asserts.
unfoldable pub validate_page_id : BufferPool → ℕ → Bool
validate_page_id b page_id = page_id % b.num_instances == b.instance_index

-- The new resident's metadata, the page table and the replacer.
unfoldable pub install : BufferPool → ℕ → ℕ → Data → BufferPool
install b frame_id page_id content = record b {
  pages =
      update b.pages frame_id
        (record { content = content; page_id = page_id; pin_count = 1; is_dirty = false });
  page_table = insert page_id frame_id b.page_table;
  replacer = LruReplacer.pin b.replacer frame_id;
}

unfoldable pub new_in : BufferPool × Option ℕ → Outcome (BufferPool × Option (ℕ × ℕ))
unfolding allocate_page validate_page_id install
new_in (b, none) = done (b, none)
new_in (b, some frame_id) =
    let (b', page_id) = allocate_page b in
    if validate_page_id b' page_id
    then done (install b' frame_id page_id zero_page, some (frame_id, page_id))
    else aborted

-- `NewPgImp`: the frame and the page id, or none for a null pointer.
unfoldable pub new_pg : BufferPool → Outcome (BufferPool × Option (ℕ × ℕ))
unfolding take_frame new_in
new_pg b = new_in (take_frame b)

unfoldable pub fetch_in : ℕ → BufferPool × Option ℕ → BufferPool × Option ℕ
unfolding install
fetch_in page_id (b, none) = (b, none)
fetch_in page_id (b, some frame_id) =
    let (disk, content) = read_page b.disk page_id (b.pages frame_id).content in
    (install (record b { disk = disk }) frame_id page_id content, some frame_id)

unfoldable pub pin_page : BufferPool → ℕ → BufferPool
pin_page b frame_id =
    let page = b.pages frame_id in
    record b {
      pages = update b.pages frame_id (record page { pin_count = suc page.pin_count });
      replacer = LruReplacer.pin b.replacer frame_id;
    }

-- `FetchPgImp`: the frame, or none for a null pointer.
unfoldable pub fetch_pg : BufferPool → ℕ → BufferPool × Option ℕ
unfolding take_frame fetch_in pin_page
fetch_pg b page_id = elim (lookup page_id b.page_table) [
  | some frame_id ↦ (pin_page b frame_id, some frame_id)
  | none ↦ fetch_in page_id (take_frame b)
]

unfoldable pub release_frame : BufferPool → ℕ → BufferPool
release_frame b frame_id = record b {
  replacer = LruReplacer.pin b.replacer frame_id;
  page_table = erase (b.pages frame_id).page_id b.page_table;
  pages =
      update b.pages frame_id (record {
        content = zero_page;
        page_id = invalid_page_id;
        pin_count = 0;
        is_dirty = false;
      });
  free_list = b.free_list ++ frame_id ∷ [];
}

-- `DeletePgImp`
unfoldable pub delete_pg : BufferPool → ℕ → BufferPool × Bool
unfolding write_back release_frame
delete_pg b page_id = elim (lookup page_id b.page_table) [
  | none ↦ (b, true)
  | some frame_id ↦
      if ltb 0 (b.pages frame_id).pin_count
      then (b, false)
      else (release_frame (record b { disk = write_back b.disk (b.pages frame_id) }) frame_id, true)
]

-- `UnpinPgImp`
unfoldable pub unpin_pg : BufferPool → ℕ → Bool → BufferPool × Bool
unpin_pg b page_id is_dirty = elim (lookup page_id b.page_table) [
  | none ↦ (b, false)
  | some frame_id ↦
      let page = b.pages frame_id in
      if page.pin_count == 0 then (b, false) else (
        record b {
          pages = update b.pages frame_id (record page {
            pin_count = page.pin_count - 1;
            is_dirty = if is_dirty then true else page.is_dirty;
          });
          replacer =
              if page.pin_count - 1 == 0 then LruReplacer.unpin b.replacer frame_id else b.replacer;
        },
        true,
      )
]

-- `FlushPgImp`
unfoldable pub flush_pg : BufferPool → ℕ → BufferPool × Bool
flush_pg b page_id =
    if page_id == invalid_page_id then (b, false) else elim (lookup page_id b.page_table) [
      | none ↦ (b, false)
      | some frame_id ↦
          let page = b.pages frame_id in
          (
            record b {
              disk = write_page b.disk page_id page.content;
              pages = update b.pages frame_id (record page { is_dirty = false });
            },
            true,
          )
    ]

-- The loop of `FlushAllPgsImp` over the page table.
unfoldable pub flush_entries : (ℕ → Page) → List (ℕ × ℕ) → DiskManager → DiskManager
flush_entries pages [] disk = disk
flush_entries pages ((page_id, frame_id) ∷ rest) disk =
    let page = pages frame_id in
    flush_entries pages rest (if page.is_dirty then write_page disk page_id page.content else disk)

unfoldable pub flush_all_pgs : BufferPool → BufferPool
unfolding flush_entries
flush_all_pgs b = record b { disk = flush_entries b.pages b.page_table b.disk }
