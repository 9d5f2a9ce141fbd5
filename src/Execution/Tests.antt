-- ===== src/Execution/Tests.antt =====
-- A join and a limit of small lists.
use disk_oriented_concurrenc.Base.{ℕ, ◌+◌, ◌≡◌, refl, some, List, [], ◌∷◌, arith, ◌==◌}
use disk_oriented_concurrenc.Execution.{init_join, drain_join, init_limit, drain_limit}
use disk_oriented_concurrenc.Execution.Results
use disk_oriented_concurrenc.Execution.Results.{join, take}

abbrev left : List ℕ
left = 1 ∷ 2 ∷ []

abbrev right : List ℕ
right = 2 ∷ 1 ∷ 2 ∷ []

drain_join-join_example :
    drain_join (some (λ a b. a == b)) (λ a b. a + b) 4 (init_join left right [])
    ≡ join (some (λ a b. a == b)) (λ a b. a + b) left right
unfolding disk_oriented_concurrenc.Execution.matches
drain_join-join_example =
    Results.drain_join-join (some (λ a b. a == b)) (λ a b. a + b) left right 4 (omega arith)

joined :
    drain_join (some (λ a b. a == b)) (λ a b. a + b) 9 (init_join left right []) ≡ 2 ∷ 4 ∷ 4 ∷ []
unfolding drain_join init_join
joined = refl
