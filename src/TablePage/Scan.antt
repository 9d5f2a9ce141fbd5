-- ===== src/TablePage/Scan.antt =====
-- `GetFirstTupleRid` and `GetNextTupleRid`: a scan visits the tuples of a page in the order of slots.
use disk_oriented_concurrenc.Base.{
  ℕ, zero, suc, ◌+◌, ◌-◌, ◌%◌, ◌≤◌, ◌<◌, ◌≡◌, refl, ◌⊎◌, inl, inr, Bool, true, false, Option, none,
  some, arith, ltb, leb, is_some, Bool-cases, subst,
}
use disk_oriented_concurrenc.Transaction.{Rid}
use disk_oriented_concurrenc.TablePage.{
  TablePage, returns, get_tuple, next_live, rid_at, is_deleted, get_first_tuple_rid,
  get_next_tuple_rid, word, invalid_page_id,
}

-- What the loop over `n` slots from `i` on finds.
abbrev Search : (ℕ → ℕ) → ℕ → ℕ → Option ℕ → Type 0
Search size i n none = (j : ℕ) → i ≤ j → j < i + n → is_deleted (size j) ≡ true
Search size i n (some s) =
    (i ≤ s)
    × (s < i + n)
    × (is_deleted (size s) ≡ false)
    × ((j : ℕ) → i ≤ j → j < s → is_deleted (size j) ≡ true)

next_live-skip :
    (size : ℕ → ℕ) (i n : ℕ) (r : Option ℕ)
    → is_deleted (size i) ≡ true
    → Search size (suc i) n r
    → Search size i (suc n) r
next_live-skip size i n none d h = λ j a b. elim (Bool-cases (leb j i)) [
  | inl e ↦ let q : j ≡ i = ground arith in rw q d
  | inr e ↦ h j (ground arith) (omega (arith, b))
]
next_live-skip size i n (some s) d (a, b, c, h) = (
  omega (arith, a),
  omega (arith, b),
  c,
  λ j x y. elim (Bool-cases (leb j i)) [
    | inl e ↦ let q : j ≡ i = ground arith in rw q d
    | inr e ↦ h j (ground arith) y
  ],
)

next_live_lem : (size : ℕ → ℕ) (i n : ℕ) → Search size i n (next_live size i n)
unfolding next_live
next_live_lem size i zero = λ j a b. absurd (omega (arith, a, b))
next_live_lem size i (suc n) = elim (Bool-cases (is_deleted (size i))) [
  | inl e ↦
      rw e (next_live-skip size i n (next_live size (suc i) n) e (next_live_lem size (suc i) n))
  | inr e ↦ rw e (omega arith, omega arith, e, λ j a b. absurd (omega (arith, a, b)))
]

-- The answer for a search from slot `i` on: the first slot that can be read, or that there is none.
pub record Finds (t : TablePage) (i : ℕ) (answer : Rid × Bool) : Type 0 where
  pub found :
      answer.1 ≡ true
      → (answer.0.page_id ≡ t.table_page_id)
        × (i ≤ answer.0.slot_num)
        × (is_some (get_tuple t answer.0.slot_num) ≡ true)
        × ((j : ℕ) → i ≤ j → j < answer.0.slot_num → get_tuple t j ≡ none)
  pub missing :
      answer.1 ≡ false
      → (answer.0.page_id ≡ invalid_page_id) × ((j : ℕ) → i ≤ j → get_tuple t j ≡ none)

unreadable :
    (t : TablePage) (j : ℕ)
    → (t.tuple_count ≤ j) ⊎ (is_deleted (t.tuple_size j) ≡ true)
    → get_tuple t j ≡ none
unfolding get_tuple
unreadable t j h = ground arith

is_readable :
    (t : TablePage) (j : ℕ)
    → j < t.tuple_count
    → is_deleted (t.tuple_size j) ≡ false
    → is_some (get_tuple t j) ≡ true
unfolding get_tuple
is_readable t j h d = ground arith

Search-Finds :
    (t : TablePage) (i : ℕ) (r : Option ℕ)
    → Search t.tuple_size i (t.tuple_count - i) r
    → Finds t i (rid_at t.table_page_id r)
Search-Finds t i none h = record {
  found = λ e. cc;
  missing = λ e. (
    refl,
    λ j a. elim (Bool-cases (ltb j t.tuple_count)) [
      | inl k ↦ unreadable t j (inr (h j a (ground arith)))
      | inr k ↦ unreadable t j (inl (ground arith))
    ],
  );
}
Search-Finds t i (some s) (a, b, c, h) = record {
  found = λ e.
      (refl, a, is_readable t s (omega (arith, a, b)) c, λ j x y. unreadable t j (inr (h j x y)));
  missing = λ e. cc;
}

-- `GetFirstTupleRid` answers with the first slot of the page that can be read, and `GetNextTupleRid`,
-- for a slot of the same page below 2^32 - 1, returns with the first one after it; each answers false,
-- with an invalid page id, exactly when there is no such slot.
pub get_next_tuple_rid-Finds :
    (t : TablePage) (slot : ℕ)
    → slot + 1 < word
    → Finds t 0 (get_first_tuple_rid t)
      × ((answer : Rid × Bool) × (get_next_tuple_rid t
              (record { page_id = t.table_page_id; slot_num = slot })
            ≡ returns answer)
          × Finds t (slot + 1) answer)
unfolding get_first_tuple_rid get_next_tuple_rid
get_next_tuple_rid-Finds t slot h =
    let first = next_live_lem t.tuple_size 0 t.tuple_count in
    let all : t.tuple_count ≡ t.tuple_count - 0 = omega arith in
    let after : (slot + 1) % word ≡ slot + 1 = omega arith in
    let next = next_live_lem t.tuple_size (slot + 1) (t.tuple_count - (slot + 1)) in
    (
      Search-Finds t 0 (next_live t.tuple_size 0 t.tuple_count)
          (subst (λ n. Search t.tuple_size 0 n (next_live t.tuple_size 0 t.tuple_count)) all first),
      (
        rid_at t.table_page_id (next_live t.tuple_size (slot + 1) (t.tuple_count - (slot + 1))),
        ground (arith, after),
        Search-Finds t (slot + 1) (next_live t.tuple_size (slot + 1) (t.tuple_count - (slot + 1)))
            next,
      ),
    )
