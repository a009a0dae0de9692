-- ===== src/KvWorker/Slices.antt =====
-- The slices of what a worker sends to all servers.
use step_mesh.Slicer.Positions.{IsSorted}
use step_mesh.Prelude.{
  All-mono, ℕ, suc, ◌*◌, ◌/◌, ◌≤◌, ◌<◌, ◌≡◌, ◌⊎◌, refl, ap, inl, inr, true, false, List, [], ◌∷◌,
  arith, length, length-append, All,
}
use step_mesh.Slicer.{KvPairs, SlicedKvs, default_slicer, sum}
use step_mesh.Slicer.Partition.{Partitions, join, FitRanges}
use step_mesh.Slicer.Whole.{default_slicer-plain, default_slicer-lens}
use step_mesh.Postoffice.{Postoffice, k_max_key, Range}
use step_mesh.Postoffice.KeyRanges.{AreAdjacent}
use step_mesh.KvWorker.{ok}
use step_mesh.KvWorker.Calls.{skipped}

module _ {V : Type 0} where
  -- Values of one length and no lengths, or a length for each key that add up to the values.
  abbrev pub HasSizes : KvPairs V → Type 0
  HasSizes kvs =
      ((kvs.lens ≡ []) × (k : ℕ) × (length kvs.vals ≡ k * length kvs.keys))
      ⊎ ((0 < length kvs.lens)
          × (length kvs.keys ≡ length kvs.lens)
          × (sum kvs.lens ≡ length kvs.vals))

  -- What `DefaultSlicer` cuts for the servers: ascending keys, repetitions allowed, below the end
  -- of the last range.
  abbrev pub IsSliceable : Postoffice → KvPairs V → Type 0
  IsSliceable po kvs =
      IsSorted kvs.keys
      × All (λ x. x < k_max_key / po.num_servers * po.num_servers) kvs.keys
      × HasSizes kvs

  pub default_slicer-Partitions :
      (ranges : List Range) (to : ℕ) (keys : List ℕ) (vals : List V) (lens : List ℕ)
      → AreAdjacent 0 ranges to
      → IsSorted keys
      → All (λ x. x < to) keys
      → HasSizes (record { keys = keys; vals = vals; lens = lens })
      → let kvs : KvPairs V = record { keys = keys; vals = vals; lens = lens } in
        (sliced : SlicedKvs V) × (default_slicer kvs ranges ≡ ok sliced)
        × Partitions kvs ranges 0 0 sliced
  default_slicer-Partitions ranges to keys vals [] adj up below (inl (none_there, k, sized)) =
      default_slicer-plain keys vals k sized ranges 0 to adj
        (All-mono (λ x. x < to) (λ x. 0 ≤ x) keys (λ x lt. omega arith) below) up below
  default_slicer-Partitions ranges to keys vals [] adj up below (inr (some_lens, each, sized)) =
      absurd (omega arith)
  default_slicer-Partitions ranges to keys vals (l ∷ ls) adj up below (inl (none_there, k, sized)) =
      absurd (ground (arith, ap length none_there))
  default_slicer-Partitions ranges to keys vals (l ∷ ls) adj up below
        (inr (some_lens, each, sized)) =
      default_slicer-lens keys vals l ls each sized ranges 0 to adj
        (All-mono (λ x. x < to) (λ x. 0 ≤ x) keys (λ x lt. omega arith) below) up below

  pub length-FitRanges :
      (sliced : SlicedKvs V) (ranges : List Range)
      → FitRanges sliced ranges
      → length sliced ≡ length ranges
  length-FitRanges [] [] fit = refl
  length-FitRanges [] (r ∷ rs) fit = absurd fit
  length-FitRanges (s ∷ ss) [] fit = absurd fit
  length-FitRanges (s ∷ ss) (r ∷ rs) fit = ap suc (length-FitRanges ss rs fit.4)

  skipped-le : (sliced : SlicedKvs V) → skipped sliced ≤ length sliced
  unfolding skipped
  skipped-le [] = omega arith
  skipped-le ((true, kvs) ∷ ss) = omega (arith, skipped-le ss)
  skipped-le ((false, kvs) ∷ ss) = omega (arith, skipped-le ss)

  -- Something is sent if there are keys.
  pub skipped-lt :
      (sliced : SlicedKvs V) (ranges : List Range)
      → FitRanges sliced ranges
      → 0 < length (join (λ s. s.keys) sliced)
      → skipped sliced < length sliced
  unfolding skipped
  skipped-lt [] [] fit some_key = absurd (omega arith)
  skipped-lt [] (r ∷ rs) fit some_key = absurd fit
  skipped-lt (s ∷ ss) [] fit some_key = absurd fit
  skipped-lt ((true, kvs) ∷ ss) (r ∷ rs) fit some_key = omega (arith, skipped-le ss)
  skipped-lt ((false, kvs) ∷ ss) (r ∷ rs) fit some_key =
      let rest : 0 < length (join (λ s. s.keys) ss) =
        ground (arith, fit.1, length-append kvs.keys (join (λ s. s.keys) ss)) in
      omega (arith, skipped-lt ss rs fit.4 rest)
