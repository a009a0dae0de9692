-- ===== src/Slicer/Positions.antt =====
-- The first loop of `DefaultSlicer`: where it cuts a sorted list of keys.
use mathlib.Core.Path.{subst}
use step_mesh.Prelude.{
  All, length-drop, ℕ, zero, suc, ◌+◌, ◌-◌, ◌≤◌, ◌<◌, ◌≡◌, refl, sym, ap, ◌∙◌, inl, inr, true, List,
  [], ◌∷◌, arith, ltb, ◌==◌, Bool-cases, length, take, drop,
}
use step_mesh.Prelude.Result.{ok}
use step_mesh.Postoffice.{Range}
use step_mesh.Postoffice.KeyRanges.{AreAdjacent}
use step_mesh.Slicer.{lower_bound, position_loop, positions}

-- Each key is at least the one before it.
abbrev pub IsSorted : List ℕ → Type 0
IsSorted [] = Unit
IsSorted (x ∷ xs) = All (λ y. x ≤ y) xs × IsSorted xs

abbrev pub IsIn : Range → ℕ → Type 0
IsIn r k = (r.begin ≤ k) × (k < r.end)

-- The positions `ps` after `pos` cut `keys` into one piece for each range, in the range.
abbrev pub Cuts : List ℕ → ℕ → List ℕ → List Range → Type 0
Cuts keys pos [] [] = pos ≡ length keys
Cuts keys pos (p ∷ ps) (r ∷ rs) =
    (pos ≤ p)
    × (p ≤ length keys)
    × All (IsIn r) (take (p - pos) (drop pos keys))
    × Cuts keys p ps rs
Cuts keys pos _ _ = ⊥

lower_bound-le : (xs : List ℕ) (v : ℕ) → lower_bound xs v ≤ length xs
unfolding lower_bound
lower_bound-le [] v = omega arith
lower_bound-le (x ∷ xs) v = ground (arith, lower_bound-le xs v)

-- The entries before the bound are below `v`, and from `lo` on if the list is.
take-lower_bound :
    (xs : List ℕ) (r : Range)
    → All (λ x. r.begin ≤ x) xs
    → All (IsIn r) (take (lower_bound xs r.end) xs)
unfolding lower_bound
take-lower_bound [] r h = tt
take-lower_bound (x ∷ xs) r h = elim (Bool-cases (ltb x r.end)) [
  | inl e ↦ rw e ((h.0, ground arith), take-lower_bound xs r h.1)
  | inr e ↦ rw e tt
]

All-from : (lo hi : ℕ) (xs : List ℕ) → lo ≤ hi → All (λ x. hi ≤ x) xs → All (λ x. lo ≤ x) xs
All-from lo hi [] le h = tt
All-from lo hi (x ∷ xs) le h = (omega arith, All-from lo hi xs le h.1)

-- The entries after the bound of a sorted list are not below `v`.
drop-lower_bound :
    (xs : List ℕ) (v : ℕ)
    → IsSorted xs
    → All (λ x. v ≤ x) (drop (lower_bound xs v) xs) × IsSorted (drop (lower_bound xs v) xs)
unfolding lower_bound
drop-lower_bound [] v s = (tt, tt)
drop-lower_bound (x ∷ xs) v s = elim (Bool-cases (ltb x v)) [
  | inl e ↦ rw e (drop-lower_bound xs v s.1)
  | inr e ↦ rw e ((ground arith, All-from v x xs (ground arith) s.0), s)
]

All-drop {ℓ κ} : {A : Type ℓ} (P : A → Type κ) (n : ℕ) (xs : List A) → All P xs → All P (drop n xs)
All-drop P zero xs h = h
All-drop P (suc n) [] h = tt
All-drop P (suc n) (x ∷ xs) h = All-drop P n xs h.1

drop-nil {ℓ} : (A : Type ℓ) (n : ℕ) → drop {A = A} n [] ≡ []
drop-nil A zero = refl
drop-nil A (suc n) = refl

pub drop-drop {ℓ} : {A : Type ℓ} (m n : ℕ) (xs : List A) → drop n (drop m xs) ≡ drop (m + n) xs
drop-drop {A} m n [] = rw (drop-nil A m, drop-nil A n, drop-nil A (m + n))
drop-drop zero n (x ∷ xs) = ap (λ k. drop k (x ∷ xs)) (omega arith)
drop-drop (suc m) n (x ∷ xs) =
    drop-drop m n xs ∙ ap (λ k. drop k (x ∷ xs)) {x = suc (m + n)} (omega arith)

lower_bound-eq-zero : (xs : List ℕ) (v : ℕ) → All (λ x. v ≤ x) xs → lower_bound xs v ≡ 0
unfolding lower_bound
lower_bound-eq-zero [] v h = refl
lower_bound-eq-zero (x ∷ xs) v h = ground arith

-- Nothing is both from `to` on and below `to`.
nothing_left : (xs : List ℕ) (to : ℕ) → All (λ x. to ≤ x) xs → All (λ x. x < to) xs → xs ≡ []
nothing_left [] to h l = refl
nothing_left (x ∷ xs) to h l = absurd (omega arith)

module _ (keys : List ℕ) (to : ℕ) where
  pub position_loop-Cuts :
      (ranges : List Range) (pos last_end : ℕ)
      → AreAdjacent last_end ranges to
      → pos ≤ length keys
      → All (λ x. last_end ≤ x) (drop pos keys)
      → IsSorted (drop pos keys)
      → All (λ x. x < to) (drop pos keys)
      → (ps : List ℕ) × (position_loop pos (drop pos keys) last_end ranges ≡ ok ps)
        × Cuts keys pos ps ranges
  unfolding position_loop
  position_loop-Cuts [] pos last_end adj le low sorted high =
      let none_left : drop pos keys ≡ [] =
        nothing_left (drop pos keys) to (subst (λ t. All (λ x. t ≤ x) (drop pos keys)) adj low)
          high in
      ([], refl, omega (arith, length-drop pos keys, ap length none_left))
  position_loop-Cuts (r ∷ rs) pos last_end adj le low sorted high =
      let rest : List ℕ = drop pos keys in
      let len : ℕ = lower_bound rest r.end in
      let moved : drop len rest ≡ drop (pos + len) keys = drop-drop pos len keys in
      let begins : All (λ x. r.begin ≤ x) rest =
        subst (λ t. All (λ x. t ≤ x) rest) (sym adj.0) low in
      let same : (last_end == r.begin) ≡ true = ground arith in
      let after = drop-lower_bound rest r.end sorted in
      let (ps, found, cuts) =
        position_loop-Cuts rs (pos + len) r.end adj.2
          (omega (arith, lower_bound-le rest r.end, length-drop pos keys))
          (subst (λ l. All (λ x. r.end ≤ x) l) moved after.0) (subst IsSorted moved after.1)
          (subst (λ l. All (λ x. x < to) l) moved (All-drop (λ x. x < to) len rest high)) in
      (
        (pos + len) ∷ ps,
        rw (same, moved, found),
        (
          omega arith,
          omega (arith, lower_bound-le rest r.end, length-drop pos keys),
          subst (λ n. All (IsIn r) (take n rest)) {x = len} (omega arith)
              (take-lower_bound rest r begins),
          cuts,
        ),
      )

  -- The first loop succeeds on sorted keys that lie within the adjacent ranges, and cuts the keys
  -- into one piece for each range.
  pub positions-Cuts :
      (ranges : List Range) (from : ℕ)
      → AreAdjacent from ranges to
      → All (λ x. from ≤ x) keys
      → IsSorted keys
      → All (λ x. x < to) keys
      → (ps : List ℕ) × (positions keys ranges ≡ ok (0, ps)) × Cuts keys 0 ps ranges
  unfolding positions position_loop
  positions-Cuts [] from adj low sorted high =
      let none_left : keys ≡ [] =
        nothing_left keys to (subst (λ t. All (λ x. t ≤ x) keys) adj low) high in
      ([], refl, omega (arith, ap length none_left))
  positions-Cuts (r ∷ rs) from adj low sorted high =
      let (ps, found, cuts) =
        position_loop-Cuts (r ∷ rs) 0 from adj (omega arith) low sorted high in
      let same : (from == r.begin) ≡ true = ground arith in
      let first : lower_bound keys r.begin ≡ 0 =
        lower_bound-eq-zero keys r.begin (subst (λ t. All (λ x. t ≤ x) keys) (sym adj.0) low) in
      (ps, rw first (ground (arith, found)), cuts)
