-- ===== src/TablePage/Update.antt =====
-- `UpdateTuple`: the new tuple is read back, and the other tuples stay readable where they end up.
use disk_oriented_concurrenc.Base.{
  ℕ, ◌+◌, ◌-◌, ◌*◌, ◌%◌, ◌≤◌, ◌<◌, ◌≡◌, ◌≢◌, refl, ◌⊎◌, inl, inr, true, false, ◌&&◌, Option, none,
  some, List, arith, ltb, ◌==◌, if◌then◌else◌, is_some, length, update, Bool-cases, ap, ◌∙◌, subst,
}
use disk_oriented_concurrenc.TablePage.{
  TablePage, returns, update_tuple, free_space_remaining, get_tuple, load, store, move, word,
  is_deleted, sub32,
}
use disk_oriented_concurrenc.TablePage.Layout.{
  real_size, IsUsed, Layout, get_tuple_agree, free_space_remaining_lem,
}
use disk_oriented_concurrenc.TablePage.Bytes.{
  load_agree, load-store, store_outside, moved_below, move_outside,
}

-- The page that `UpdateTuple` leaves when it succeeds.
unfoldable updated : TablePage → List ℕ → ℕ → TablePage
unfolding store move
updated t tuple slot =
    let size = t.tuple_size slot in
    let offset = t.tuple_offset slot in
    let n = length tuple in
    let p = t.free_space_pointer in
    let tuple_size = update t.tuple_size slot n in
    record t {
      bytes = store (move t.bytes (p + size - n) p (offset - p)) (offset + size - n) tuple;
      free_space_pointer = sub32 (p + size) n;
      tuple_size = tuple_size;
      tuple_offset = λ i.
          if ltb i t.tuple_count
            && (ltb 0 (tuple_size i) && ltb (t.tuple_offset i) ((offset + size) % word))
          then sub32 (t.tuple_offset i + size) n
          else t.tuple_offset i;
    }

-- The slot can be read, and the new tuple fits in the free space and its own.
pub record Room (t : TablePage) (n slot : ℕ) : Type 0 where
  pub used : IsUsed t slot
  pub live : is_deleted (t.tuple_size slot) ≡ false
  pub nonempty : 0 < n
  pub fits : 24 + 8 * t.tuple_count + n ≤ t.free_space_pointer + t.tuple_size slot

updated_space :
    (t : TablePage) (tuple : List ℕ) (slot : ℕ)
    → Layout t
    → Room t (length tuple) slot
    → (updated t tuple slot).free_space_pointer + length tuple
      ≡ t.free_space_pointer + t.tuple_size slot
unfolding updated
updated_space t tuple slot l r = ground (arith, l.placed slot r.used, r.live, r.fits, l.top)

updated_self :
    (t : TablePage) (tuple : List ℕ) (slot : ℕ)
    → Layout t
    → Room t (length tuple) slot
    → (updated t tuple slot).tuple_offset slot + length tuple
      ≡ t.tuple_offset slot + t.tuple_size slot
unfolding updated
updated_self t tuple slot l r =
    ground (arith, l.placed slot r.used, r.used, r.live, r.nonempty, r.fits, l.top)

-- Where the tuple of another slot lies afterwards.
updated_offset :
    (t : TablePage) (tuple : List ℕ) (slot j : ℕ)
    → Layout t
    → Room t (length tuple) slot
    → IsUsed t j
    → j ≢ slot
    → ((t.tuple_offset j + real_size t j ≤ t.tuple_offset slot)
        × ((updated t tuple slot).tuple_offset j + length tuple
            ≡ t.tuple_offset j + t.tuple_size slot))
      ⊎ ((t.tuple_offset slot + t.tuple_size slot ≤ t.tuple_offset j)
          × ((updated t tuple slot).tuple_offset j ≡ t.tuple_offset j))
unfolding updated
updated_offset t tuple slot j l r v ne =
    ground
      (arith, l.placed slot r.used, l.placed j v, l.apart j slot ne v r.used, r.live, r.fits, l.top)

updated-IsUsed :
    (t : TablePage) (tuple : List ℕ) (slot j : ℕ)
    → IsUsed (updated t tuple slot) j
    → j ≢ slot
    → IsUsed t j × (real_size (updated t tuple slot) j ≡ real_size t j)
unfolding updated
updated-IsUsed t tuple slot j u ne = ground arith

updated_size :
    (t : TablePage) (tuple : List ℕ) (slot : ℕ)
    → Layout t
    → Room t (length tuple) slot
    → (real_size (updated t tuple slot) slot ≡ length tuple)
      × ((updated t tuple slot).tuple_count ≡ t.tuple_count)
unfolding updated
updated_size t tuple slot l r = ground (arith, l.placed slot r.used, r.live, r.fits, l.top)

-- The room of a slot lies within the page.
size_lem :
    (t : TablePage) (slot : ℕ)
    → is_deleted (t.tuple_size slot) ≡ false
    → real_size t slot ≡ t.tuple_size slot
size_lem t slot d = ground arith

-- The tuple of a slot of the updated page ends before that of another one.
abbrev Before : TablePage → ℕ → ℕ → Type 0
Before t i j = t.tuple_offset i + real_size t i ≤ t.tuple_offset j

updated_self_apart :
    (t : TablePage) (tuple : List ℕ) (slot j : ℕ)
    → Layout t
    → Room t (length tuple) slot
    → j ≢ slot
    → IsUsed (updated t tuple slot) j
    → Before (updated t tuple slot) j slot ⊎ Before (updated t tuple slot) slot j
updated_self_apart t tuple slot j l r ne v =
    let (x, y) = updated-IsUsed t tuple slot j v ne in
    let z = updated_size t tuple slot l r in
    ground (arith, y, z.0, updated_self t tuple slot l r, updated_offset t tuple slot j l r x ne)

updated_apart :
    (t : TablePage) (tuple : List ℕ) (slot i j : ℕ)
    → Layout t
    → Room t (length tuple) slot
    → i ≢ j
    → i ≢ slot
    → j ≢ slot
    → IsUsed (updated t tuple slot) i
    → IsUsed (updated t tuple slot) j
    → Before (updated t tuple slot) i j ⊎ Before (updated t tuple slot) j i
updated_apart t tuple slot i j l r ne a b v w =
    let (x, e) = updated-IsUsed t tuple slot i v a in
    let (y, f) = updated-IsUsed t tuple slot j w b in
    ground (
      arith,
      e,
      f,
      l.apart i j ne x y,
      updated_offset t tuple slot i l r x a,
      updated_offset t tuple slot j l r y b,
      l.placed i x,
      l.placed j y,
      l.placed slot r.used,
      size_lem t slot r.live,
    )

updated-Layout :
    (t : TablePage) (tuple : List ℕ) (slot : ℕ)
    → Layout t
    → Room t (length tuple) slot
    → Layout (updated t tuple slot)
updated-Layout t tuple slot l r =
    let f = updated_space t tuple slot l r in
    let g = updated_self t tuple slot l r in
    let z = updated_size t tuple slot l r in
    let p = l.placed slot r.used in
    let e = size_lem t slot r.live in
    record {
      header = omega (arith, f, z.1, r.fits);
      top = omega (arith, f, p.0, p.1, e);
      placed = λ i v. elim (Bool-cases (i == slot)) [
        | inl c ↦
            let q : i ≡ slot = ground arith in
            rw (q, z.0) (omega (arith, f, g, p.0), omega (arith, g, p.1, e), r.nonempty)
        | inr c ↦
            let ne : i ≢ slot = ground arith in
            let (x, y) = updated-IsUsed t tuple slot i v ne in
            ground (arith, f, g, y, l.placed i x, updated_offset t tuple slot i l r x ne, p, e)
      ];
      apart = λ i j ne v w. elim (Bool-cases (i == slot)) [
        | inl c ↦
            let q : slot ≡ i = ground arith in
            elim (updated_self_apart t tuple slot j l r (ground arith) w) [
              | inl h ↦ inr (subst (Before (updated t tuple slot) j) q h)
              | inr h ↦ inl (subst (λ k. Before (updated t tuple slot) k j) q h)
            ]
        | inr c ↦ elim (Bool-cases (j == slot)) [
          | inl d ↦
              let q : slot ≡ j = ground arith in
              subst (λ k. Before (updated t tuple slot) i k ⊎ Before (updated t tuple slot) k i) q
                (updated_self_apart t tuple slot i l r (ground arith) v)
          | inr d ↦ updated_apart t tuple slot i j l r ne (ground arith) (ground arith) v w
        ]
      ];
    }

-- The bytes of another slot's tuple.
updated-bytes :
    (t : TablePage) (tuple : List ℕ) (slot j k : ℕ)
    → Layout t
    → Room t (length tuple) slot
    → IsUsed t j
    → j ≢ slot
    → k < real_size t j
    → (updated t tuple slot).bytes ((updated t tuple slot).tuple_offset j + k)
      ≡ t.bytes (t.tuple_offset j + k)
unfolding updated
updated-bytes t tuple slot j k l r v ne h =
    let o = t.tuple_offset slot in
    let p = t.free_space_pointer in
    let n = length tuple in
    let to = p + t.tuple_size slot - n in
    let at = o + t.tuple_size slot - n in
    let x = t.tuple_offset j + k in
    let q = l.placed j v in
    let u = l.placed slot r.used in
    let fit = r.fits in
    let m = move t.bytes to p (o - p) in
    elim (updated_offset t tuple slot j l r v ne) [
      | inl (le, e) ↦
          store_outside m at _ tuple (inl (omega (arith, le, e, h, fit, u.0)))
          ∙ moved_below t.bytes to p o x _ (omega (arith, q.0)) (omega (arith, le, h))
              (omega (arith, e, fit, l.header))
      | inr (le, e) ↦
          store_outside m at _ tuple (inr (omega (arith, le, e, fit, u.0)))
          ∙ move_outside t.bytes to p (o - p) _ (inr (omega (arith, le, e, fit, u.0, l.header)))
          ∙ ap t.bytes (ap (λ z. z + k) e)
    ]

updated-others :
    (t : TablePage) (tuple : List ℕ) (slot j : ℕ)
    → Layout t
    → Room t (length tuple) slot
    → j ≢ slot
    → get_tuple (updated t tuple slot) j ≡ get_tuple t j
unfolding updated
updated-others t tuple slot j l r ne =
    get_tuple_agree t (updated t tuple slot) j refl (ground arith) (λ v d.
      load_agree (updated t tuple slot).bytes t.bytes (t.tuple_size j) _ (t.tuple_offset j)
        (λ k h. updated-bytes t tuple slot j k l r v ne (ground (arith, d))))

updated-read :
    (t : TablePage) (tuple : List ℕ) (slot : ℕ)
    → Layout t
    → Room t (length tuple) slot
    → get_tuple (updated t tuple slot) slot ≡ some tuple
unfolding updated get_tuple
updated-read t tuple slot l r =
    let g = updated_self t tuple slot l r in
    let u = l.placed slot r.used in
    let e : (updated t tuple slot).tuple_offset slot
        ≡ t.tuple_offset slot + t.tuple_size slot - length tuple =
      omega (arith, g) in
    let m =
      move t.bytes (t.free_space_pointer + t.tuple_size slot - length tuple) t.free_space_pointer
        (t.tuple_offset slot - t.free_space_pointer) in
    ground (
      arith,
      e,
      r.used,
      r.nonempty,
      r.fits,
      l.top,
      updated_size t tuple slot l r,
      load-store m (t.tuple_offset slot + t.tuple_size slot - length tuple) tuple,
    )

-- The page after a successful update.
pub record Updates (t t' : TablePage) (tuple : List ℕ) (slot : ℕ) : Type 0 where
  pub layout : Layout t'
  pub read : get_tuple t' slot ≡ some tuple
  pub others : (j : ℕ) → j ≢ slot → get_tuple t' j ≡ get_tuple t j
  pub space : t'.free_space_pointer + length tuple ≡ t.free_space_pointer + t.tuple_size slot

abbrev pub UpdateResult : TablePage → List ℕ → ℕ → TablePage → Option (List ℕ) → Type 0
UpdateResult t tuple slot t' none =
    (t' ≡ t) × (t.free_space_pointer + t.tuple_size slot < 24 + 8 * t.tuple_count + length tuple)
UpdateResult t tuple slot t' (some old) = (get_tuple t slot ≡ some old) × Updates t t' tuple slot

is_live :
    (t : TablePage) (slot : ℕ)
    → is_some (get_tuple t slot) ≡ true
    → IsUsed t slot × (is_deleted (t.tuple_size slot) ≡ false)
unfolding get_tuple
is_live t slot h = ground arith

update-returned :
    (t : TablePage) (tuple : List ℕ) (slot : ℕ)
    → Layout t
    → Room t (length tuple) slot
    → ltb ((free_space_remaining t + t.tuple_size slot) % word) (length tuple) ≡ false
    → update_tuple t tuple slot
      ≡ returns
          (updated t tuple slot, some (load t.bytes (t.tuple_offset slot) (t.tuple_size slot)))
unfolding update_tuple updated
update-returned t tuple slot l r h =
    ground (arith, r.nonempty, r.used, r.live, l.placed slot r.used)

-- On a page within its bounds, `UpdateTuple` of a slot that can be read, with a tuple that is not
-- empty, returns. It fails exactly when the new tuple does not fit in the free space and the space of
-- the old one, and then changes nothing. Otherwise it hands out the old tuple, the new one is read
-- back from the slot, every other slot reads as before although tuples have moved, and the page stays
-- within its bounds.
pub update_tuple-Updates :
    (t : TablePage) (tuple : List ℕ) (slot : ℕ)
    → Layout t
    → 0 < length tuple
    → is_some (get_tuple t slot) ≡ true
    → (t' : TablePage) × (r : Option (List ℕ)) × (update_tuple t tuple slot ≡ returns (t', r))
      × UpdateResult t tuple slot t' r
unfolding update_tuple get_tuple
update_tuple-Updates t tuple slot l n h =
    let (u, d) = is_live t slot h in
    let p = l.placed slot u in
    let e = size_lem t slot d in
    let f = free_space_remaining_lem t l in
    elim (Bool-cases (ltb ((free_space_remaining t + t.tuple_size slot) % word) (length tuple))) [
      | inl x ↦ (t, none, ground (arith, n, u, d), (refl, ground (arith, f, p, e, l.top, l.header)))
      | inr x ↦
          let r : Room t (length tuple) slot = record {
            used = u;
            live = d;
            nonempty = n;
            fits = ground (arith, f, p, e, l.top, l.header);
          } in
          (
            updated t tuple slot,
            some (load t.bytes (t.tuple_offset slot) (t.tuple_size slot)),
            update-returned t tuple slot l r x,
            (
              ground (arith, u, d),
              record {
                layout = updated-Layout t tuple slot l r;
                read = updated-read t tuple slot l r;
                others = λ j ne. updated-others t tuple slot j l r ne;
                space = updated_space t tuple slot l r;
              },
            ),
          )
    ]
