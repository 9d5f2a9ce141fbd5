-- ===== src/DiskManager/Tests.antt =====
-- The disk on concrete inputs.
use disk_oriented_concurrenc.Base.{ℕ, ◌≡◌, ◌≢◌, refl, false, [], ◌∷◌, arith}
use disk_oriented_concurrenc.DiskManager.{DiskManager, write_page, read_page, read_page-write_page}

-- A file of four pages, all of them alike.
abbrev disk : DiskManager
disk = record { file_pages = 4; page_at = λ _. 7 ∷ []; num_writes = 4; failed = false }

-- The 2^20th page is read from the offset of page 0: the `int` product wraps.
read_wraps : (read_page disk 1048576 []).1 ≡ 7 ∷ []
unfolding read_page
read_wraps = refl

read_page-write_page_example :
    ((read_page (write_page disk 9 (1 ∷ [])) 9 []).1 ≡ 1 ∷ [])
    × (◌≢◌ {A = ℕ} 2 9 → (read_page (write_page disk 9 (1 ∷ [])) 2 []).1 ≡ (read_page disk 2 []).1)
read_page-write_page_example =
    read_page-write_page disk 9 2 (1 ∷ []) [] (omega arith) (omega arith)
      (record { fits = omega arith; good = refl })
