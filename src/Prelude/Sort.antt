-- ===== src/Prelude/Sort.antt =====
-- std::sort as an insertion sort, and sorting by a number: entries with distinct numbers come out
-- in one order, whatever order they came in.
use step_mesh.Prelude.{
  false, true, inr, inl, Bool-cases, refl, All-mono, ◌∙◌, arith, ◌+◌, if◌then◌else◌, sym, ◌≢◌, ltb,
  ap, All, ◌∷◌, [], Bool, List, ℕ, ◌<◌, ◌≡◌,
}

-- The same entries in another order: a derivation, so that lists of any type can be compared by
-- recursion on it.
pub data Permutes {ℓ} {A : Type ℓ} : List A → List A → Type ℓ where
  done : Permutes [] []
  keep : (x : A) {xs ys : List A} → Permutes xs ys → Permutes (x ∷ xs) (x ∷ ys)
  swap : (x y : A) (xs : List A) → Permutes (x ∷ y ∷ xs) (y ∷ x ∷ xs)
  after : {xs ys zs : List A} → Permutes xs ys → Permutes ys zs → Permutes xs zs

module _ {ℓ} {A : Type ℓ} where
  pub Permutes-same : (xs : List A) → Permutes xs xs
  Permutes-same [] = done
  Permutes-same (x ∷ xs) = keep x (Permutes-same xs)

  pub insert_by : (A → A → Bool) → A → List A → List A
  insert_by less x [] = x ∷ []
  insert_by less x (y ∷ ys) = if less y x then y ∷ insert_by less x ys else x ∷ y ∷ ys

  unfoldable pub sort_by : (A → A → Bool) → List A → List A
  unfolding insert_by
  sort_by less [] = []
  sort_by less (x ∷ xs) = insert_by less x (sort_by less xs)

  insert_by-Permutes :
      (less : A → A → Bool) (x : A) (xs : List A) → Permutes (insert_by less x xs) (x ∷ xs)
  unfolding insert_by
  insert_by-Permutes less x [] = Permutes-same (x ∷ [])
  insert_by-Permutes less x (y ∷ ys) = elim (Bool-cases (less y x)) [
    | inl e ↦ rw e (after (keep y (insert_by-Permutes less x ys)) (swap y x ys))
    | inr e ↦ rw e (Permutes-same (x ∷ y ∷ ys))
  ]

  pub sort_by-Permutes : (less : A → A → Bool) (xs : List A) → Permutes (sort_by less xs) xs
  unfolding sort_by
  sort_by-Permutes less [] = done
  sort_by-Permutes less (x ∷ xs) =
      after (insert_by-Permutes less x (sort_by less xs)) (keep x (sort_by-Permutes less xs))

  pub All-Permutes {κ} : (P : A → Type κ) {xs ys : List A} → Permutes xs ys → All P xs → All P ys
  All-Permutes P done h = tt
  All-Permutes P (keep x p) h = (h.0, All-Permutes P p h.1)
  All-Permutes P (swap x y xs) h = (h.1.0, (h.0, h.1.1))
  All-Permutes P (after p q) h = All-Permutes P q (All-Permutes P p h)

  -- The sum of a number of each entry.
  abbrev pub total : (A → ℕ) → List A → ℕ
  total f [] = 0
  total f (x ∷ xs) = f x + total f xs

  pub total-Permutes : (f : A → ℕ) {xs ys : List A} → Permutes xs ys → total f xs ≡ total f ys
  total-Permutes f done = refl
  total-Permutes f (keep x p) = ap (λ n. f x + n) (total-Permutes f p)
  total-Permutes f (swap x y xs) = omega arith
  total-Permutes f (after p q) = total-Permutes f p ∙ total-Permutes f q

  abbrev pub less_by : (A → ℕ) → A → A → Bool
  less_by f a b = ltb (f a) (f b)

  -- No two entries have the same number.
  abbrev pub AreDistinct : (A → ℕ) → List A → Type ℓ
  AreDistinct f [] = Unit
  AreDistinct f (x ∷ xs) = All (λ y. f x ≢ f y) xs × AreDistinct f xs

  AreDistinct-Permutes :
      (f : A → ℕ) {xs ys : List A} → Permutes xs ys → AreDistinct f xs → AreDistinct f ys
  AreDistinct-Permutes f done h = tt
  AreDistinct-Permutes f (keep x p) h =
      (All-Permutes (λ y. f x ≢ f y) p h.0, AreDistinct-Permutes f p h.1)
  AreDistinct-Permutes f (swap x y xs) h = ((λ e. h.0.0 (sym e), h.1.0), (h.0.1, h.1.1))
  AreDistinct-Permutes f (after p q) h = AreDistinct-Permutes f q (AreDistinct-Permutes f p h)

  insert_by_comm :
      (f : A → ℕ) (x y : A) (xs : List A)
      → f x ≢ f y
      → insert_by (less_by f) x (insert_by (less_by f) y xs)
        ≡ insert_by (less_by f) y (insert_by (less_by f) x xs)
  unfolding insert_by
  insert_by_comm f x y [] h = ground arith
  insert_by_comm f x y (z ∷ xs) h = ground (arith, insert_by_comm f x y xs h)

  -- The order of arrival does not matter.
  sort_by-order :
      (f : A → ℕ) {xs ys : List A}
      → Permutes xs ys
      → AreDistinct f xs
      → sort_by (less_by f) xs ≡ sort_by (less_by f) ys
  unfolding sort_by
  sort_by-order f done h = refl
  sort_by-order f (keep x p) h = ap (insert_by (less_by f) x) (sort_by-order f p h.1)
  sort_by-order f (swap x y xs) h = insert_by_comm f x y (sort_by (less_by f) xs) h.0.0
  sort_by-order f (after p q) h =
      sort_by-order f p h ∙ sort_by-order f q (AreDistinct-Permutes f p h)

  -- In strictly ascending order.
  abbrev pub AreAscending : (A → ℕ) → List A → Type ℓ
  AreAscending f [] = Unit
  AreAscending f (x ∷ xs) = All (λ y. f x < f y) xs × AreAscending f xs

  insert_by-first :
      (f : A → ℕ) (x : A) (xs : List A)
      → All (λ y. f x < f y) xs
      → insert_by (less_by f) x xs ≡ x ∷ xs
  unfolding insert_by
  insert_by-first f x [] h = refl
  insert_by-first f x (y ∷ ys) h = ground arith

  sort_by-same : (f : A → ℕ) (xs : List A) → AreAscending f xs → sort_by (less_by f) xs ≡ xs
  unfolding sort_by
  sort_by-same f [] h = refl
  sort_by-same f (x ∷ xs) h =
      ap (insert_by (less_by f) x) (sort_by-same f xs h.1) ∙ insert_by-first f x xs h.0

  AreDistinct-ascending : (f : A → ℕ) (xs : List A) → AreAscending f xs → AreDistinct f xs
  AreDistinct-ascending f [] h = tt
  AreDistinct-ascending f (x ∷ xs) h = (
    All-mono (λ y. f x < f y) (λ y. f x ≢ f y) xs (λ y lt e. absurd (omega arith)) h.0,
    AreDistinct-ascending f xs h.1,
  )

  -- Whatever order ascending entries came in, they are sorted back.
  pub sort_by-Permutes_ascending :
      (f : A → ℕ) {xs ys : List A}
      → Permutes ys xs
      → AreAscending f ys
      → sort_by (less_by f) xs ≡ ys
  sort_by-Permutes_ascending f {xs} {ys} p h =
      sym (sort_by-order f p (AreDistinct-ascending f ys h)) ∙ sort_by-same f ys h

  -- Each entry stands in the relation `R` to the next one.
  abbrev pub IsChainFrom {κ} : (R : A → A → Type κ) → A → List A → Type κ
  IsChainFrom R x [] = Unit
  IsChainFrom R x (y ∷ ys) = R x y × IsChainFrom R y ys

  abbrev pub IsChain {κ} : (R : A → A → Type κ) → List A → Type κ
  IsChain R [] = Unit
  IsChain R (x ∷ xs) = IsChainFrom R x xs

  module _ {κ} (R : A → A → Type κ) (less : A → A → Bool)
      (before : (a b : A) → less a b ≡ true → R a b)
      (otherwise : (a b : A) → less b a ≡ false → R a b) where
    insert_by-IsChainFrom :
        (x y : A) (ys : List A) → R y x → IsChainFrom R y ys → IsChainFrom R y (insert_by less x ys)
    unfolding insert_by
    insert_by-IsChainFrom x y [] first chain = (first, tt)
    insert_by-IsChainFrom x y (z ∷ zs) first chain = elim (Bool-cases (less z x)) [
      | inl e ↦ rw e (chain.0, insert_by-IsChainFrom x z zs (before z x e) chain.1)
      | inr e ↦ rw e (first, (otherwise x z e, chain.1))
    ]

    insert_by-IsChain : (x : A) (ys : List A) → IsChain R ys → IsChain R (insert_by less x ys)
    unfolding insert_by
    insert_by-IsChain x [] chain = tt
    insert_by-IsChain x (y ∷ ys) chain = elim (Bool-cases (less y x)) [
      | inl e ↦ rw e (insert_by-IsChainFrom x y ys (before y x e) chain)
      | inr e ↦ rw e (otherwise x y e, chain)
    ]

    pub sort_by-IsChain : (xs : List A) → IsChain R (sort_by less xs)
    unfolding sort_by
    sort_by-IsChain [] = tt
    sort_by-IsChain (x ∷ xs) = insert_by-IsChain x (sort_by less xs) (sort_by-IsChain xs)
