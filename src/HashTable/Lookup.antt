-- ===== src/HashTable/Lookup.antt =====
-- GetValue after Insert.
use disk_oriented_concurrenc.Base.{ℕ, suc, ◌≡◌, ap, Bool, true, List, [], ◌∷◌, ◌++◌}
use disk_oriented_concurrenc.HashBucket
use disk_oriented_concurrenc.HashBucket.Changes.{Inserts}
use disk_oriented_concurrenc.HashTable.{PagePool, HashTable, done, get_value, insert}
use disk_oriented_concurrenc.HashTable.Pool.{Serves}
use disk_oriented_concurrenc.HashTable.Calls.{Leaves}

-- A value stands in a list.
abbrev pub Among {ℓ} : {V : Type ℓ} → V → List V → Type ℓ
Among {V} value vs = (xs : List V) × (ys : List V) × (vs ≡ xs ++ value ∷ ys)

module _ {ℓ κ} {K : Type ℓ} {V : Type κ} (key_eq : K → K → Bool) (value_eq : V → V → Bool) where
  Among-later : (v value : V) (vs : List V) → Among value vs → Among value (v ∷ vs)
  Among-later v value vs (xs, ys, e) = (v ∷ xs, ys, ap (λ l. v ∷ l) e)

  Among-append : (result vs : List V) (value : V) → Among value vs → Among value (result ++ vs)
  Among-append [] vs value a = a
  Among-append (v ∷ result) vs value a =
      Among-later v value (result ++ vs) (Among-append result vs value a)

module _ {ℓ κ} {P : Type 0} {K : Type ℓ} {V : Type κ} (pages : PagePool P K V)
    (key_eq : K → K → Bool) (value_eq : V → V → Bool) (hash_fn : K → ℕ) (blank : K × V)
    (n : ℕ) where
  -- What `GetValue` finds after an `Insert` that answers true.
  pub record Found (serves : Serves pages) (r : ℕ) (key : K) (value : V) (result : List V)
      (t : HashTable P) : Type (ℓ ⊔ κ) where
    pub after : HashTable P
    pub last : HashTable P
    pub values : List V
    pub inserts :
        insert pages key_eq value_eq hash_fn blank n (suc r) key value t ≡ done (true, after)
    pub looks :
        get_value pages key_eq value_eq hash_fn blank n key result after
        ≡ done ((result ++ values, true), last)
    pub among : Among value values
    pub leaves : Leaves pages serves after last
