-- ===== src/DiskManager.antt =====
-- The page half of src/storage/disk/disk_manager.cpp. The database file is a sequence of whole
-- pages, holes read as zeros, and the stream keeps its fail bit until `clear`. Errors that set the
-- bad bit are not modelled. Ids and offsets are 32-bit patterns, and `int` products wrap.
mod Tests
use disk_oriented_concurrenc.Base.{
  zero, ℕ, suc, ◌+◌, ◌*◌, ◌/◌, ◌%◌, ◌≤◌, ◌<◌, max, ◌≡◌, ◌≢◌, refl, Bool, true, false, ◌||◌, List,
  [], ◌∷◌, arith, ltb, leb, ◌==◌, if◌then◌else◌, update,
}

-- The bytes of a page.
abbrev pub Data : Type 0
Data = List ℕ

abbrev pub int_mod : ℕ
int_mod = 4294967296

abbrev pub int_min : ℕ
int_min = 2147483648

abbrev pub page_size : ℕ
page_size = 4096

unfoldable pub zeros : ℕ → Data
zeros n = elim n [ zero ↦ [] | suc (k → rest) ↦ 0 ∷ rest ]

-- `memset(data, 0, PAGE_SIZE)`
unfoldable pub zero_page : Data
zero_page = zeros page_size

-- `a < b` of two `int` bit patterns.
abbrev pub int_lt : ℕ → ℕ → Bool
int_lt a b = ltb ((a + int_min) % int_mod) ((b + int_min) % int_mod)

pub record DiskManager : Type 0 where
  pub file_pages : ℕ
  pub page_at : ℕ → Data
  pub num_writes : ℕ
  pub failed : Bool

-- `WritePage`: `seekp` on a negative page id sets the fail bit, after which nothing is written.
unfoldable pub write_page : DiskManager → ℕ → Data → DiskManager
write_page d page_id page_data =
    if d.failed || leb int_min page_id
    then record d { num_writes = suc d.num_writes; failed = true }
    else record d {
      num_writes = suc d.num_writes;
      file_pages = max d.file_pages (suc page_id);
      page_at = update d.page_at page_id page_data;
    }

-- The read at a byte offset that passed the file-size test.
read_at : DiskManager → ℕ → DiskManager × Data
read_at d offset =
    if d.failed || leb int_min offset
    then (record d { failed = false }, zero_page)
    else if ltb (offset / page_size) d.file_pages
    then (d, d.page_at (offset / page_size))
    else (record d { failed = false }, zero_page)

-- `ReadPage`: past the end of the file the memory area is left as it was.
unfoldable pub read_page : DiskManager → ℕ → Data → DiskManager × Data
unfolding read_at
read_page d page_id page_data =
    let offset = page_id * page_size % int_mod in
    let file_size = d.file_pages * page_size % int_mod in
    if int_lt file_size offset then (d, page_data) else read_at d offset

-- The file has fewer than 2^19 pages, so that its size fits an `int`, and the stream is good.
pub record IsGood (d : DiskManager) : Type 0 where
  pub fits : d.file_pages < 524288
  pub good : d.failed ≡ false

-- Writing a page keeps the disk good.
pub write_page-IsGood :
    (d : DiskManager) (p : ℕ) (x : Data) → p < 524287 → IsGood d → IsGood (write_page d p x)
unfolding write_page
write_page-IsGood d p x h g = ground arith

-- On a good disk `ReadPage` has three outcomes, by where the page lies.
pub read_page-cases :
    (d : DiskManager) (p : ℕ) (x : Data)
    → p < 524288
    → IsGood d
    → read_page d p x ≡ (
        if ltb p d.file_pages
        then (d, d.page_at p)
        else if p == d.file_pages
        then (d, zero_page)
        else (d, x))
unfolding read_page
read_page-cases d p x h g = ground arith

-- On a good disk, for a page id below 524287, so that the end of the page, and not only its start, fits
-- an `int`, what `WritePage` stored is what `ReadPage` returns for that page, whatever the memory area
-- held, and the pages of the file before the write read as before.
pub read_page-write_page :
    (d : DiskManager) (p q : ℕ) (x y : Data)
    → p < 524287
    → q < d.file_pages
    → IsGood d
    → ((read_page (write_page d p x) p y).1 ≡ x)
      × (q ≢ p → (read_page (write_page d p x) q y).1 ≡ (read_page d q y).1)
unfolding write_page
read_page-write_page d p q x y h k g = ground (
  arith,
  write_page-IsGood d p x h g,
  read_page-cases (write_page d p x) p y,
  read_page-cases (write_page d p x) q y,
  read_page-cases d q y,
)
