-- ===== src/TablePage/Insert.antt =====
-- `InsertTuple`: the new tuple is read back, and nothing else moves.
use disk_oriented_concurrenc.Base.{
  ℕ, zero, suc, ◌+◌, ◌*◌, ◌≤◌, ◌<◌, ◌≡◌, ◌≢◌, refl, inl, inr, Option, none, some, List, arith, ltb,
  length, Bool-cases,
}
use disk_oriented_concurrenc.TablePage.{
  TablePage, returns, free_space_remaining, free_slot, claim, insert_tuple, get_tuple, store, sub32,
}
use disk_oriented_concurrenc.TablePage.Layout.{
  page_size, Layout, free_space_remaining_lem, get_tuple_agree,
}
use disk_oriented_concurrenc.TablePage.Bytes.{load_agree, load-store, store_outside}

free_slot_lem :
    (size : ℕ → ℕ) (i n : ℕ)
    → (i ≤ free_slot size i n)
      × (free_slot size i n ≤ i + n)
      × (free_slot size i n < i + n → size (free_slot size i n) ≡ 0)
unfolding free_slot
free_slot_lem size i zero = (omega arith, omega arith, λ h. absurd (omega arith))
free_slot_lem size i (suc n) = ground (arith, free_slot_lem size (suc i) n)

-- A slot that can take a tuple of a size for which there is room.
abbrev pub Fits : TablePage → ℕ → ℕ → Type 0
Fits t n i =
    (0 < n)
    × (i ≤ t.tuple_count)
    × (i < t.tuple_count → t.tuple_size i ≡ 0)
    × (24 + 8 * t.tuple_count + n + 8 ≤ t.free_space_pointer)

sub32_lem : (a b : ℕ) → b ≤ a → a ≤ page_size → sub32 a b + b ≡ a
sub32_lem a b h k = omega arith

claim-Layout :
    (t : TablePage) (tuple : List ℕ) (i : ℕ)
    → Layout t
    → Fits t (length tuple) i
    → Layout (claim t tuple i)
unfolding claim
claim-Layout t tuple i l f =
    let p : sub32 t.free_space_pointer (length tuple) + length tuple ≡ t.free_space_pointer =
      sub32_lem t.free_space_pointer (length tuple) (omega (arith, f.3)) l.top in
    record {
      header = ground (arith, p, f.3);
      top = ground (arith, p, l.top);
      placed = λ j u. ground (arith, p, l.placed j, f, l.top);
      apart = λ j k ne u v. ground (arith, p, l.placed j, l.placed k, l.apart j k, f, l.top);
    }

-- The page after a tuple was put into slot `i`.
pub record Inserted (t t' : TablePage) (tuple : List ℕ) (i : ℕ) : Type 0 where
  pub layout : Layout t'
  pub unused : get_tuple t i ≡ none
  pub read : get_tuple t' i ≡ some tuple
  pub others : (j : ℕ) → j ≢ i → get_tuple t' j ≡ get_tuple t j
  pub space : t'.free_space_pointer + length tuple ≡ t.free_space_pointer

claim-read :
    (t : TablePage) (tuple : List ℕ) (i : ℕ)
    → Layout t
    → Fits t (length tuple) i
    → get_tuple (claim t tuple i) i ≡ some tuple
unfolding claim get_tuple
claim-read t tuple i l f =
    ground (arith, l.top, f, load-store t.bytes (sub32 t.free_space_pointer (length tuple)) tuple)

claim-others :
    (t : TablePage) (tuple : List ℕ) (i j : ℕ)
    → Layout t
    → Fits t (length tuple) i
    → j ≢ i
    → get_tuple (claim t tuple i) j ≡ get_tuple t j
unfolding claim
claim-others t tuple i j l f ne =
    let p = sub32 t.free_space_pointer (length tuple) in
    let e : p + length tuple ≡ t.free_space_pointer =
      sub32_lem t.free_space_pointer (length tuple) (omega (arith, f.3)) l.top in
    get_tuple_agree t (claim t tuple i) j (ground (arith, f)) (ground arith) (λ u d. ground (
      arith,
      load_agree (store t.bytes p tuple) t.bytes (t.tuple_size j) (t.tuple_offset j)
          (t.tuple_offset j)
          (λ k h.
            store_outside t.bytes p (t.tuple_offset j + k) tuple
              (inr (omega (arith, e, (l.placed j u).0)))),
    ))

claim-Inserted :
    (t : TablePage) (tuple : List ℕ) (i : ℕ)
    → Layout t
    → Fits t (length tuple) i
    → Inserted t (claim t tuple i) tuple i
unfolding claim get_tuple
claim-Inserted t tuple i l f = record {
  layout = claim-Layout t tuple i l f;
  unused = ground (arith, f);
  read = claim-read t tuple i l f;
  others = λ j ne. claim-others t tuple i j l f ne;
  space = sub32_lem t.free_space_pointer (length tuple) (omega (arith, f.3)) l.top;
}

-- What `InsertTuple` promises for a tuple that is not empty.
abbrev pub Inserts : TablePage → List ℕ → TablePage → Option ℕ → Type 0
Inserts t tuple t' none =
    (t' ≡ t) × (t.free_space_pointer < 24 + 8 * t.tuple_count + length tuple + 8)
Inserts t tuple t' (some i) = Inserted t t' tuple i

-- On a page within its bounds, `InsertTuple` of a tuple that is not empty returns. It fails exactly
-- when a slot and the tuple do not fit between the slots and the tuples, and then changes nothing.
-- Otherwise the page stays within its bounds, the tuple is read back from the slot that was returned,
-- which held none before, and every other slot reads as before.
pub insert_tuple-Inserts :
    (t : TablePage) (tuple : List ℕ)
    → Layout t
    → 0 < length tuple
    → (t' : TablePage) × (r : Option ℕ) × (insert_tuple t tuple ≡ returns (t', r))
      × Inserts t tuple t' r
unfolding insert_tuple
insert_tuple-Inserts t tuple l h =
    let i = free_slot t.tuple_size 0 t.tuple_count in
    let s = free_slot_lem t.tuple_size 0 t.tuple_count in
    let room = free_space_remaining_lem t l in
    elim (Bool-cases (ltb (free_space_remaining t) (length tuple + 8))) [
      | inl e ↦ (t, none, ground arith, (refl, ground (arith, room)))
      | inr e ↦ (
        claim t tuple i,
        some i,
        ground arith,
        claim-Inserted t tuple i l
            (h, ground (arith, s), λ b. s.2 (omega (arith, b)), ground (arith, room)),
      )
    ]
