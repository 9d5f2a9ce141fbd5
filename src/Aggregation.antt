-- ===== src/Aggregation.antt =====
-- src/execution/aggregation_executor.cpp and src/include/execution/executors/aggregation_executor.h. The map is
-- an association list, iterated in its order; a row is what the child's tuple gives for `MakeAggregateKey` and
-- `MakeAggregateValue`, and keys are compared by a test.
pub mod Groups
mod Tests
use disk_oriented_concurrenc.Base.{
  ℕ, ◌-◌, ◌≡◌, Bool, true, false, Option, none, some, List, [], ◌∷◌, if◌then◌else◌,
}
use disk_oriented_concurrenc.SqlType.Int.{ℤ, pos, negsuc}
use disk_oriented_concurrenc.SqlType.{
  ◌>>=◌, Value, Double, Result, gives, undefined, integer, half32, value_int32,
}
use disk_oriented_concurrenc.SqlType.Calls.{add}
use disk_oriented_concurrenc.SqlType.Extremes.{min, max}

pub data AggregationType : Type 0 where
  count_aggregate sum_aggregate min_aggregate max_aggregate : AggregationType

module _ {D : Type 0} (double : Double D) (parse_double : List ℕ → Result D) where
  -- `ValueFactory::GetIntegerValue`
  unfoldable pub get_integer_value : ℤ → Result (Value D)
  unfolding value_int32
  get_integer_value x = value_int32 double integer x

  -- Where the aggregate of a type starts.
  unfoldable pub initial : AggregationType → Result (Value D)
  unfolding get_integer_value
  initial count_aggregate = get_integer_value (pos 0)
  initial sum_aggregate = get_integer_value (pos 0)
  initial min_aggregate = get_integer_value (pos (half32 - 1))
  initial max_aggregate = get_integer_value (negsuc (half32 - 2))

  unfoldable pub generate_initial : List AggregationType → Result (List (Value D))
  unfolding initial
  generate_initial [] = gives []
  generate_initial (t ∷ ts) = initial t >>= λ v. generate_initial ts >>= λ vs. gives (v ∷ vs)

  -- One aggregate, and the loop over all of them; a list that is too short is read past its end.
  unfoldable pub combine : AggregationType → Value D → Value D → Result (Value D)
  unfolding add min max get_integer_value
  combine count_aggregate result input =
      get_integer_value (pos 1) >>= λ one. add double parse_double result one
  combine sum_aggregate result input = add double parse_double result input
  combine min_aggregate result input = min double parse_double result input
  combine max_aggregate result input = max double parse_double result input

  unfoldable pub combine_aggregate_values :
      List AggregationType → List (Value D) → List (Value D) → Result (List (Value D))
  unfolding combine
  combine_aggregate_values [] results inputs = gives results
  combine_aggregate_values (t ∷ ts) (r ∷ rs) (i ∷ is) =
      combine t r i >>= λ v. combine_aggregate_values ts rs is >>= λ vs. gives (v ∷ vs)
  combine_aggregate_values (t ∷ ts) _ _ = undefined

  module _ {K : Type 0} (same : K → K → Bool) (types : List AggregationType) where
    -- The entry of a key.
    abbrev pub find : K → List (K × List (Value D)) → Option (List (Value D))
    find k [] = none
    find k (e ∷ ht) = if same k e.0 then some e.1 else find k ht

    -- Another value for the first entry of a key, or a new entry at the end.
    abbrev pub store : K → List (Value D) → List (K × List (Value D)) → List (K × List (Value D))
    store k v [] = (k, v) ∷ []
    store k v (e ∷ ht) = let rest = store k v ht in if same k e.0 then (e.0, v) ∷ ht else e ∷ rest

    -- The entry of a key, made with the initial aggregates if `count` is 0.
    unfoldable pub inserted : K → List (K × List (Value D)) → Result (List (K × List (Value D)))
    unfolding generate_initial
    inserted k ht = elim (find k ht) [
      | none ↦ generate_initial types >>= λ v. gives (store k v ht)
      | some v ↦ gives ht
    ]

    -- `ht_[key]`, which makes an entry of no aggregates for a key that is not found.
    abbrev pub entry : Option (List (Value D)) → List (Value D)
    entry none = []
    entry (some v) = v

    -- `InsertCombine`
    unfoldable pub insert_combine :
        K → List (Value D) → List (K × List (Value D)) → Result (List (K × List (Value D)))
    unfolding combine_aggregate_values inserted
    insert_combine k input ht = inserted k ht >>= λ ht'.
        combine_aggregate_values types (entry (find k ht')) input >>= λ new. gives (store k new ht')

    -- The loop of `Init`.
    unfoldable pub insert_all :
        List (K × List (Value D)) → List (K × List (Value D)) → Result (List (K × List (Value D)))
    unfolding insert_combine
    insert_all [] ht = gives ht
    insert_all (row ∷ rows) ht = insert_combine row.0 row.1 ht >>= insert_all rows

    -- `Next`, from the entries that the iterator has not passed: the first that `HAVING` accepts, none at the end.
    unfoldable pub next :
        {C : Type 0}
        → Option (K → List (Value D) → Bool)
        → (K → List (Value D) → C)
        → List (K × List (Value D))
        → List (K × List (Value D)) × Option C
    next having output [] = ([], none)
    next having output (e ∷ ht) =
        let rest = next having output ht in
        elim having [
          | none ↦ (ht, some (output e.0 e.1))
          | some p ↦ if p e.0 e.1 then (ht, some (output e.0 e.1)) else rest
        ]
