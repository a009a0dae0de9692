-- ===== src/Slicer/Tests.antt =====
-- Three keys cut for two servers.
use step_mesh.Prelude.{All, ℕ, ◌≤◌, ◌<◌, ◌≡◌, refl, List, [], ◌∷◌, arith}
use step_mesh.Prelude.Result.{ok}
use step_mesh.Postoffice.{Range}
use step_mesh.Postoffice.KeyRanges.{AreAdjacent}
use step_mesh.Slicer.{KvPairs, sum, SlicedKvs, default_slicer}
use step_mesh.Slicer.Positions.{IsSorted}
use step_mesh.Slicer.Partition.{Partitions}
use step_mesh.Slicer.Whole.{default_slicer-lens}

abbrev ranges : List Range
ranges = record { begin = 0; end = 10 } ∷ record { begin = 10; end = 20 } ∷ []

abbrev keys : List ℕ
keys = 3 ∷ 4 ∷ 12 ∷ []

ranges-AreAdjacent : AreAdjacent 0 ranges 20
ranges-AreAdjacent = (refl, omega arith, (refl, omega arith, refl))

keys-low : All (λ x. 0 ≤ x) keys
keys-low = (omega arith, (omega arith, (omega arith, tt)))

keys-IsSorted : IsSorted keys
keys-IsSorted = ((omega arith, (omega arith, tt)), ((omega arith, tt), (tt, tt)))

keys-high : All (λ x. x < 20) keys
keys-high = (omega arith, (omega arith, (omega arith, tt)))

abbrev plain : KvPairs ℕ
plain = record { keys = keys; vals = 1 ∷ 2 ∷ 3 ∷ 4 ∷ 5 ∷ 6 ∷ []; lens = [] }

abbrev with_lens : KvPairs ℕ
with_lens = record { keys = keys; vals = 1 ∷ 2 ∷ 3 ∷ 4 ∷ []; lens = 1 ∷ 0 ∷ 3 ∷ [] }

sum-lens : sum (1 ∷ 0 ∷ 3 ∷ []) ≡ 4
unfolding sum
sum-lens = refl

default_slicer-lens_example :
    (sliced : SlicedKvs ℕ) × (default_slicer with_lens ranges ≡ ok sliced)
    × Partitions with_lens ranges 0 0 sliced
default_slicer-lens_example =
    default_slicer-lens keys (1 ∷ 2 ∷ 3 ∷ 4 ∷ []) 1 (0 ∷ 3 ∷ []) refl sum-lens ranges 0 20
      ranges-AreAdjacent keys-low keys-IsSorted keys-high
