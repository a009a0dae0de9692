-- ===== src/KvWorker/Ranges.antt =====
-- `FindRange` on ascending keys: the check on what one server sent.
use mathlib.Core.List.{append_assoc}
use step_mesh.Prelude.{
  ◌∙◌, ℕ, ◌+◌, ◌-◌, ◌%◌, ◌^◌, ◌≤◌, ◌<◌, ◌≡◌, refl, ap, false, List, [], ◌∷◌, ◌++◌, arith, leb,
  length, length-append, All, All-mono, All-append, All-append_both,
}
use step_mesh.Prelude.Sort.{AreAscending}
use step_mesh.Postoffice.{range_size}
use step_mesh.Slicer.{lower_bound}
use step_mesh.KvWorker.{find_range, last_of}

lower_bound-append :
    (xs ys : List ℕ) (v : ℕ)
    → All (λ x. x < v) xs
    → All (λ y. v ≤ y) ys
    → lower_bound (xs ++ ys) v ≡ length xs
unfolding lower_bound
lower_bound-append [] [] v below above = refl
lower_bound-append [] (y ∷ ys) v below above = ground arith
lower_bound-append (x ∷ xs) ys v below above =
    ground (arith, lower_bound-append xs ys v below.1 above)

pub AreAscending-append :
    {A : Type 0} (f : A → ℕ) (xs ys : List A)
    → AreAscending f (xs ++ ys)
    → AreAscending f xs × AreAscending f ys × All (λ x. All (λ y. f x < f y) ys) xs
AreAscending-append f [] ys h = (tt, h, tt)
AreAscending-append f (x ∷ xs) ys h =
    let (first, second, across) = AreAscending-append f xs ys h.1 in
    let (near, far) = All-append (λ y. f x < f y) xs ys h.0 in
    ((near, first), second, (far, across))

last_of-All : (P : ℕ → Type 0) (k : ℕ) (ks : List ℕ) → All P (k ∷ ks) → P (last_of k ks)
last_of-All P k [] h = h.0
last_of-All P k (j ∷ js) h = last_of-All P j js h.1

last_of-max :
    (k : ℕ) (ks : List ℕ)
    → AreAscending (λ x. x) (k ∷ ks)
    → All (λ x. x < last_of k ks + 1) (k ∷ ks)
last_of-max k [] h = (omega arith, tt)
last_of-max k (j ∷ js) h = (omega (arith, (last_of-max j js h.1).0, h.0.0), last_of-max j js h.1)

-- Ascending numbers below a bound are no more than the bound.
length-ascending :
    (xs : List ℕ) (low high : ℕ)
    → AreAscending (λ x. x) xs
    → All (λ x. low ≤ x) xs
    → All (λ x. x < high) xs
    → length xs ≤ high - low
length-ascending [] low high up from to = omega arith
length-ascending (x ∷ xs) low high up from to = omega (
  arith,
  length-ascending xs (x + 1) high up.1
      (All-mono (λ y. x < y) (λ y. x + 1 ≤ y) xs (λ y lt. omega arith) up.0) to.1,
)

-- For a run of keys within ascending keys below the largest 64-bit number, the range found from its
-- first key to past its last has the run's size.
pub find_range-size :
    (before : List ℕ) (k : ℕ) (ks after : List ℕ)
    → AreAscending (λ x. x) (before ++ (k ∷ ks) ++ after)
    → All (λ x. x < 2 ^ 64 - 1) (before ++ (k ∷ ks) ++ after)
    → range_size (find_range (before ++ (k ∷ ks) ++ after) k ((last_of k ks + 1) % 2 ^ 64))
      ≡ length (k ∷ ks)
unfolding find_range
find_range-size before k ks after up small =
    let run = k ∷ ks in
    let keys = before ++ run ++ after in
    let (up_first, up_after, across) = AreAscending-append (λ x. x) (before ++ run) after up in
    let (up_before, up_run, below) = AreAscending-append (λ x. x) before run up_first in
    let (small_first, small_after) = All-append (λ x. x < 2 ^ 64 - 1) (before ++ run) after small in
    let (small_before, small_run) = All-append (λ x. x < 2 ^ 64 - 1) before run small_first in
    let (across_before, across_run) = All-append (λ x. All (λ y. x < y) after) before run across in
    let last = last_of k ks in
    let high : last < 2 ^ 64 - 1 = last_of-All (λ x. x < 2 ^ 64 - 1) k ks small_run in
    let wrap : (last + 1) % 2 ^ 64 ≡ last + 1 = omega arith in
    let top = last_of-max k ks up_run in
    let past : leb (last + 1) k ≡ false = ground (arith, top.0) in
    let begins : lower_bound keys k ≡ length before =
      ap (λ l. lower_bound l k) (append_assoc before run after)
      ∙ lower_bound-append before (run ++ after) k
          (All-mono (λ x. All (λ y. x < y) run) (λ x. x < k) before (λ x a. a.0) below)
          (
            omega arith,
            All-append_both (λ y. k ≤ y) ks after
                (All-mono (λ y. k < y) (λ y. k ≤ y) ks (λ y lt. omega arith) up_run.0)
                (All-mono (λ y. k < y) (λ y. k ≤ y) after (λ y lt. omega arith) across_run.0),
          ) in
    let ends : lower_bound keys (last + 1) ≡ length (before ++ run) =
      lower_bound-append (before ++ run) after (last + 1)
        (All-append_both (λ x. x < last + 1) before run
          (All-mono (λ x. All (λ y. x < y) run) (λ x. x < last + 1) before
            (λ x a. omega (arith, a.0, top.0)) below)
          top)
        (All-mono (λ y. last < y) (λ y. last + 1 ≤ y) after (λ y lt. omega arith)
          (last_of-All (λ x. All (λ y. x < y) after) k ks across_run)) in
    let few : length run ≤ 2 ^ 64 - 1 - 0 =
      length-ascending run 0 (2 ^ 64 - 1) up_run
        (All-mono (λ x. x < 2 ^ 64 - 1) (λ x. 0 ≤ x) run (λ x lt. omega arith) small_run)
        small_run in
    rw (wrap, past, begins, ends, length-append before run) (omega arith)
