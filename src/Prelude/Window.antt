-- ===== src/Prelude/Window.antt =====
-- The occupied slots of a circular buffer of `size` slots, indexed by a function.
use step_mesh.Prelude.{
  ℕ, zero, suc, ◌+◌, ◌-◌, ◌≤◌, ◌<◌, ◌≡◌, refl, ap, List, [], ◌∷◌, ◌++◌, arith, leb, ◌==◌,
  if◌then◌else◌, length,
}

-- The slot after `i`.
abbrev pub next : ℕ → ℕ → ℕ
next size i = if (i + 1) == size then 0 else i + 1

-- How many slots lie from `h` up to, not including, `t`.
abbrev pub distance : ℕ → ℕ → ℕ → ℕ
distance size h t = if leb h t then t - h else size - (h - t)

module _ {A : Type 0} where
  -- buffer[i] = v
  abbrev pub update : (ℕ → A) → ℕ → A → ℕ → A
  update f i v j = if i == j then v else f j

  -- The `n` entries from slot `h` on.
  unfoldable pub window : (ℕ → A) → ℕ → ℕ → ℕ → List A
  window f size h zero = []
  window f size h (suc n) = f h ∷ window f size (next size h) n

  pub length-window : (f : ℕ → A) (size h n : ℕ) → length (window f size h n) ≡ n
  unfolding window
  length-window f size h zero = refl
  length-window f size h (suc n) = ap suc (length-window f size (next size h) n)

  -- A write at or past the end of the window leaves it alone.
  pub window-update :
      (f : ℕ → A) (size h n i : ℕ) (v : A)
      → h < size
      → i < size
      → n ≤ distance size h i
      → window (update f i v) size h n ≡ window f size h n
  unfolding window
  window-update f size h zero i v hh hi le = refl
  window-update f size h (suc n) i v hh hi le =
      ground (arith, window-update f size (next size h) n i v)

  -- The slot at the end joins the window.
  pub window-snoc :
      (f : ℕ → A) (size h n t : ℕ)
      → h < size
      → t < size
      → distance size h t ≡ n
      → window f size h (suc n) ≡ window f size h n ++ f t ∷ []
  unfolding window
  window-snoc f size h zero t hh ht e = ground arith
  window-snoc f size h (suc n) t hh ht e =
      ap (λ l. f h ∷ l) (window-snoc f size (next size h) n t (ground arith) ht (ground arith))

  pub window_of_pos :
      (f : ℕ → A) (size h n : ℕ)
      → 0 < n
      → window f size h n ≡ f h ∷ window f size (next size h) (n - 1)
  unfolding window
  window_of_pos f size h zero p = elim p [ ]
  window_of_pos f size h (suc n) p = ap (λ k. f h ∷ window f size (next size h) k) (omega arith)

  pub window_of_zero : (f : ℕ → A) (size h n : ℕ) → n ≡ 0 → window f size h n ≡ []
  unfolding window
  window_of_zero f size h zero e = refl
  window_of_zero f size h (suc n) e = absurd (omega arith)
