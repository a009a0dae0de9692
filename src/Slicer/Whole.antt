-- ===== src/Slicer/Whole.antt =====
-- `DefaultSlicer` as a whole: with values of one length, and with a list of their lengths.
use mathlib.Core.Path.{subst}
use native.Mathlib.Decide.{dec_lt}
use native.Mathlib.Nat.{mul-le-mul_right, mul-div_cancel}
use step_mesh.Prelude.{
  inl, inr, All, ℕ, zero, suc, ◌+◌, ◌-◌, ◌*◌, ◌/◌, ◌≤◌, ◌<◌, ◌≡◌, refl, sym, ap, ◌∙◌, true, false,
  List, [], ◌∷◌, map, arith, ◌==◌, length, take, drop,
}
use step_mesh.Prelude.Result.{ok, ◌>>=◌}
use step_mesh.Postoffice.{Range}
use step_mesh.Postoffice.KeyRanges.{AreAdjacent}
use step_mesh.Slicer.{
  KvPairs, no_pairs, sum, last_position, SlicedKvs, value_length, slice, slice_loop, default_slicer,
}
use step_mesh.Slicer.Positions.{IsSorted, Cuts, positions-Cuts}
use step_mesh.Slicer.Partition.{segment-ok, Partitions, piece, slice_loop-Partitions}

last_position-Cuts :
    (keys : List ℕ) (pos : ℕ) (ps : List ℕ) (ranges : List Range)
    → Cuts keys pos ps ranges
    → last_position pos ps ≡ length keys
last_position-Cuts keys pos [] [] cuts = cuts
last_position-Cuts keys pos [] (r ∷ rs) cuts = absurd cuts
last_position-Cuts keys pos (p ∷ ps) [] cuts = absurd cuts
last_position-Cuts keys pos (p ∷ ps) (r ∷ rs) cuts = last_position-Cuts keys p ps rs cuts.3

sum-take_mono : (i j : ℕ) (xs : List ℕ) → i ≤ j → sum (take i xs) ≤ sum (take j xs)
unfolding sum
sum-take_mono zero j xs le = omega arith
sum-take_mono (suc i) zero xs le = absurd (omega arith)
sum-take_mono (suc i) (suc j) [] le = omega arith
sum-take_mono (suc i) (suc j) (x ∷ xs) le = omega (arith, sum-take_mono i j xs (omega arith))

take-nil : (n : ℕ) → take {A = ℕ} n [] ≡ []
take-nil zero = refl
take-nil (suc n) = refl

take-drop-nil : (n i : ℕ) → take {A = ℕ} n (drop i []) ≡ []
take-drop-nil n zero = take-nil n
take-drop-nil n (suc i) = take-nil n

sum-take-split :
    (i j : ℕ) (xs : List ℕ)
    → i ≤ j
    → sum (take i xs) + sum (take (j - i) (drop i xs)) ≡ sum (take j xs)
unfolding sum
sum-take-split zero j xs le =
    ap (λ n. 0 + sum (take n xs)) {x = j - 0} {y = j} (omega arith) ∙ omega arith
sum-take-split (suc i) zero xs le = absurd (omega arith)
sum-take-split (suc i) (suc j) [] le = omega (arith, ap sum (take-nil (suc j - suc i)))
sum-take-split (suc i) (suc j) (x ∷ xs) le = omega (
  arith,
  sum-take-split i j xs (omega arith),
  ap (λ n. sum (take n (drop i xs))) {x = suc j - suc i} {y = j - i} (omega arith),
)

take-all : {A : Type 0} (xs : List A) → take (length xs) xs ≡ xs
take-all [] = refl
take-all (x ∷ xs) = ap (λ l. x ∷ l) (take-all xs)

keys_given :
    {R : Type 0} (keys : List ℕ) (a b : R) → 0 < length keys → elim keys [ [] ↦ a | _ ∷ _ ↦ b ] ≡ b
keys_given [] a b h = absurd (omega arith)
keys_given (x ∷ xs) a b h = refl

keys_absent :
    {R : Type 0} (keys : List ℕ) (a b : R) → length keys ≡ 0 → elim keys [ [] ↦ a | _ ∷ _ ↦ b ] ≡ a
keys_absent [] a b h = refl
keys_absent (x ∷ xs) a b h = absurd (omega arith)

length-zero : {A : Type 0} (xs : List A) → length xs ≡ 0 → xs ≡ []
length-zero [] none_in = refl
length-zero (x ∷ xs) none_in = absurd (omega arith)

module _ {V : Type 0} where
  default_slicer-first_loop :
      (send : KvPairs V) (ranges : List Range) (from to : ℕ)
      → AreAdjacent from ranges to
      → All (λ x. from ≤ x) send.keys
      → IsSorted send.keys
      → All (λ x. x < to) send.keys
      → (ps : List ℕ) × Cuts send.keys 0 ps ranges
        × (default_slicer send ranges ≡ elim send.keys [
          | [] ↦ ok (map (λ _. (false, no_pairs V)) ranges)
          | _ ∷ _ ↦ value_length send >>= (λ k. slice_loop send k 0 0 ps)
        ])
  unfolding default_slicer
  default_slicer-first_loop send ranges from to adj low sorted high =
      let (ps, found, cuts) = positions-Cuts send.keys to ranges from adj low sorted high in
      let all_used : (last_position 0 ps == length send.keys) ≡ true =
        ground (arith, last_position-Cuts send.keys 0 ps ranges cuts) in
      (ps, cuts, rw (found, all_used))

  Partitions-none :
      (send : KvPairs V) (ranges : List Range)
      → length send.keys ≡ 0
      → length send.vals ≡ 0
      → length send.lens ≡ 0
      → Partitions send ranges 0 0 (map (λ _. (false, no_pairs V)) ranges)
  Partitions-none send [] k v l = record {
    fit = tt;
    keys = sym (length-zero send.keys k);
    vals = sym (length-zero send.vals v);
    lens = sym (length-zero send.lens l);
  }
  Partitions-none send (r ∷ rs) k v l =
      let rest = Partitions-none send rs k v l in
      record {
        fit = (tt, refl, inr refl, inl refl, rest.fit);
        keys = rest.keys;
        vals = rest.vals;
        lens = rest.lens;
      }

  -- With values of length `k`.
  module _ (keys : List ℕ) (vals : List V) (k : ℕ) (sized : length vals ≡ k * length keys) where
    abbrev plain : KvPairs V
    plain = record { keys = keys; vals = vals; lens = [] }

    slice-plain :
        (i j : ℕ)
        → i ≤ j
        → j ≤ length keys
        → slice plain k i j 0 ≡ ok (piece plain (λ p. p * k) i j, 0)
    unfolding slice
    slice-plain i j le fits =
        let low : i * k ≤ j * k = mul-le-mul_right k le in
        let high : j * k ≤ length vals = omega (arith, mul-le-mul_right k fits) in
        rw (
          segment-ok keys i j le fits,
          segment-ok vals (i * k) (j * k) low high,
          take-drop-nil (j - i) i,
        )

    value_length-plain : 0 < length keys → value_length plain ≡ ok k
    unfolding value_length
    value_length-plain some_key =
        let is_k : length vals / length keys ≡ k =
          ap (λ n. n / length keys) sized ∙ mul-div_cancel k some_key in
        let even : ((k * length keys) == length vals) ≡ true = ground (arith, sized) in
        rw (is_k, even)

    -- For sorted keys within adjacent ranges, and `k` values for each key and no `lens`,
    -- `DefaultSlicer` returns, with one slice for each range: the slice has keys of its range only,
    -- is marked for sending exactly if it has keys, and is empty otherwise; and the slices' keys
    -- and values, one slice after the other, are those that were sent.
    pub default_slicer-plain :
        (ranges : List Range) (from to : ℕ)
        → AreAdjacent from ranges to
        → All (λ x. from ≤ x) keys
        → IsSorted keys
        → All (λ x. x < to) keys
        → (sliced : SlicedKvs V) × (default_slicer plain ranges ≡ ok sliced)
          × Partitions plain ranges 0 0 sliced
    default_slicer-plain ranges from to adj low sorted high =
        let (ps, cuts, second) =
          default_slicer-first_loop plain ranges from to adj low sorted high in
        let (sliced, made, parts) =
          slice_loop-Partitions plain k (λ i. i * k) (λ _. 0) (λ i j le _. mul-le-mul_right k le)
            (omega arith) (inl refl) slice-plain ps ranges 0 cuts in
        elim (dec_lt 0 (length keys)) [
          | yes some_key ↦ (
            sliced,
            second ∙ keys_given keys _ _ some_key ∙ rw (value_length-plain some_key, made),
            subst (λ v. Partitions plain ranges 0 v sliced) {x = 0 * k} (omega arith) parts,
          )
          | no none_there ↦ (
            map (λ _. (false, no_pairs V)) ranges,
            second ∙ keys_absent keys _ _ (omega arith),
            Partitions-none plain ranges (omega arith) (ground arith) refl,
          )
        ]

  -- With the length of each value in `lens`.
  module _ (keys : List ℕ) (vals : List V) (l : ℕ) (ls : List ℕ)
      (one_each : length keys ≡ length (l ∷ ls)) (sized : sum (l ∷ ls) ≡ length vals) where
    abbrev with_lens : KvPairs V
    with_lens = record { keys = keys; vals = vals; lens = l ∷ ls }

    abbrev starts : ℕ → ℕ
    starts i = sum (take i (l ∷ ls))

    starts-high : (i : ℕ) → i ≤ length keys → starts i ≤ length vals
    starts-high i fits = omega (
      arith,
      sum-take_mono i (length keys) (l ∷ ls) fits,
      ap starts one_each,
      ap sum (take-all (l ∷ ls)),
    )

    slice-lens :
        (i j : ℕ)
        → i ≤ j
        → j ≤ length keys
        → slice with_lens 0 i j (starts i) ≡ ok (piece with_lens starts i j, starts j)
    unfolding slice
    slice-lens i j le fits =
        let next : starts i + sum (take (j - i) (drop i (l ∷ ls))) ≡ starts j =
          sum-take-split i j (l ∷ ls) le in
        rw (
          segment-ok keys i j le fits,
          segment-ok (l ∷ ls) i j le (omega arith),
          next,
          segment-ok vals (starts i) (starts j) (sum-take_mono i j (l ∷ ls) le)
              (starts-high j fits),
        )

    -- With `lens`, for sorted keys within adjacent ranges, one length for each key and lengths that
    -- add up to the values, `DefaultSlicer` returns one slice for each range, with keys of its
    -- range only, marked for sending exactly if it has keys and empty otherwise; and the slices'
    -- keys, values and lengths, one slice after the other, are those that were sent.
    pub default_slicer-lens :
        (ranges : List Range) (from to : ℕ)
        → AreAdjacent from ranges to
        → All (λ x. from ≤ x) keys
        → IsSorted keys
        → All (λ x. x < to) keys
        → (sliced : SlicedKvs V) × (default_slicer with_lens ranges ≡ ok sliced)
          × Partitions with_lens ranges 0 0 sliced
    unfolding value_length sum
    default_slicer-lens ranges from to adj low sorted high =
        let (ps, cuts, second) =
          default_slicer-first_loop with_lens ranges from to adj low sorted high in
        let (sliced, made, parts) =
          slice_loop-Partitions with_lens 0 starts starts
            (λ i j le _. sum-take_mono i j (l ∷ ls) le)
            (ap starts one_each ∙ ap sum (take-all (l ∷ ls)) ∙ sized) (inr (sym one_each))
            slice-lens ps ranges 0 cuts in
        let same : (length keys == length (l ∷ ls)) ≡ true = ground arith in
        (sliced, second ∙ keys_given keys _ _ (omega arith) ∙ rw (same, made), parts)
