-- ===== src/TablePage/Tests.antt =====
-- A page of two tuples.
use disk_oriented_concurrenc.Base.{
  ℕ, ◌≡◌, refl, Bool, Option, none, some, List, [], ◌∷◌, arith, if◌then◌else◌, ◌==◌,
}
use disk_oriented_concurrenc.Transaction.{Rid}
use disk_oriented_concurrenc.TablePage.{
  TablePage, Result, returns, asserts, invalid_page_id, insert_tuple, apply_delete, update_tuple,
  get_tuple, get_first_tuple_rid, get_next_tuple_rid,
}
use disk_oriented_concurrenc.TablePage.Layout.{Layout}
use disk_oriented_concurrenc.TablePage.Insert
use disk_oriented_concurrenc.TablePage.Delete
use disk_oriented_concurrenc.TablePage.Update
use disk_oriented_concurrenc.TablePage.Scan

-- Slot 0 holds the bytes 1 2 3 at 4093, slot 1 the bytes 8 9 at 4091.
abbrev page : TablePage
page = record {
  table_page_id = 7;
  prev_page_id = invalid_page_id;
  next_page_id = invalid_page_id;
  free_space_pointer = 4091;
  tuple_count = 2;
  tuple_offset = λ i. if i == 0 then 4093 else 4091;
  tuple_size = λ i. if i == 0 then 3 else if i == 1 then 2 else 0;
  bytes = λ a.
      if a == 4093
      then 1
      else if a == 4094
      then 2
      else if a == 4095
      then 3
      else if a == 4091
      then 8
      else 9;
}

page-Layout : Layout page
page-Layout = record {
  header = omega arith;
  top = omega arith;
  placed = λ i u. ground arith;
  apart = λ i j ne u v. ground arith;
}

abbrev three : List ℕ
three = 4 ∷ 5 ∷ 6 ∷ []

insert_tuple-Inserts_example :
    (t' : TablePage) × (r : Option ℕ) × (insert_tuple page three ≡ returns (t', r))
    × Insert.Inserts page three t' r
insert_tuple-Inserts_example = Insert.insert_tuple-Inserts page three page-Layout (omega arith)

apply_delete-Removes_example :
    (t' : TablePage) × (apply_delete page 0 ≡ returns t') × Delete.Removes page t' 0
apply_delete-Removes_example =
    Delete.apply_delete-Removes page 0 page-Layout (omega arith, omega arith)

update_tuple-Updates_example :
    (t' : TablePage) × (r : Option (List ℕ)) × (update_tuple page (6 ∷ []) 0 ≡ returns (t', r))
    × Update.UpdateResult page (6 ∷ []) 0 t' r
unfolding get_tuple
update_tuple-Updates_example =
    Update.update_tuple-Updates page (6 ∷ []) 0 page-Layout (omega arith) refl

get_next_tuple_rid-Finds_example :
    Scan.Finds page 0 (get_first_tuple_rid page)
    × ((answer : Rid × Bool) × (get_next_tuple_rid page (record { page_id = 7; slot_num = 0 })
          ≡ returns answer)
        × Scan.Finds page 1 answer)
get_next_tuple_rid-Finds_example = Scan.get_next_tuple_rid-Finds page 0 (omega arith)

-- The page after a call, and what its two slots read.
abbrev page_of : Result TablePage → TablePage
page_of (returns t) = t
page_of asserts = page

abbrev first_of : Result (TablePage × Option (List ℕ)) → TablePage
first_of (returns (t, r)) = t
first_of asserts = page

reads : (get_tuple page 0 ≡ some (1 ∷ 2 ∷ 3 ∷ [])) × (get_tuple page 1 ≡ some (8 ∷ 9 ∷ []))
unfolding get_tuple
reads = (refl, refl)

reads_after_delete :
    (get_tuple (page_of (apply_delete page 0)) 0 ≡ none)
    × (get_tuple (page_of (apply_delete page 0)) 1 ≡ some (8 ∷ 9 ∷ []))
unfolding get_tuple apply_delete
reads_after_delete = (refl, refl)

reads_after_update :
    (get_tuple (first_of (update_tuple page (6 ∷ []) 0)) 0 ≡ some (6 ∷ []))
    × (get_tuple (first_of (update_tuple page (6 ∷ []) 0)) 1 ≡ some (8 ∷ 9 ∷ []))
unfolding get_tuple update_tuple
reads_after_update = (refl, refl)
