-- ===== src/HashJoin/Tests.antt =====
-- Two small tables joined on their first components.
use disk_oriented_concurrenc.Base.{ℕ, ◌≡◌, refl, some, List, [], ◌∷◌, arith, ◌==◌}
use disk_oriented_concurrenc.HashJoin.{init, drain}
use disk_oriented_concurrenc.HashJoin.Agrees.{drain-drain_join}
use disk_oriented_concurrenc.Execution.{drain_join, init_join}

abbrev Pair : Type 0
Pair = ℕ × ℕ

abbrev key : Pair → ℕ
key p = p.0

abbrev both : Pair → Pair → ℕ × ℕ
both v w = (v.1, w.1)

abbrev colours : List Pair
colours = (1, 10) ∷ (2, 20) ∷ (1, 11) ∷ []

abbrev sizes : List Pair
sizes = (3, 7) ∷ (1, 8) ∷ (2, 9) ∷ []

joined :
    drain ◌==◌ key key both 9 (init ◌==◌ key key both colours sizes [])
    ≡ (10, 8) ∷ (11, 8) ∷ (20, 9) ∷ []
unfolding drain init
joined = refl

drain-drain_join_example :
    drain ◌==◌ key key both 9 (init ◌==◌ key key both colours sizes [])
    ≡ drain_join (some (λ v w. key v == key w)) (λ v w. both w v) 9 (init_join sizes colours [])
drain-drain_join_example =
    drain-drain_join ◌==◌ key key both (λ a b e. ground arith) (λ a. ground arith) 9 colours sizes
      []
