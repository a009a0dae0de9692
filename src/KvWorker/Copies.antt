-- ===== src/KvWorker/Copies.antt =====
-- The copies of the callback of `Pull_`, into a new array or into one with room.
use mathlib.Core.List.{append-nil, append_assoc}
use step_mesh.Slicer.Positions.{drop-drop}
use step_mesh.Prelude.Sort.{total}
use step_mesh.Prelude.{
  length-replicate, drop-all, ℕ, ◌+◌, ◌≤◌, ◌≡◌, ◌∙◌, ◌⊎◌, refl, sym, ap, inl, inr, true, List, [],
  ◌∷◌, ◌++◌, arith, leb, ◌==◌, length, length-append, drop, replicate,
}
use step_mesh.Prelude.Result.{ok}
use step_mesh.Slicer.{KvPairs}
use step_mesh.KvWorker.{sized_vals, sized_lens, copy_all}

module _ {V : Type 0} where
  -- One field of all answers, one after the other.
  abbrev pub joined : {A : Type 0} → (KvPairs V → List A) → List (KvPairs V) → List A
  joined part [] = []
  joined part (s ∷ ss) = part s ++ joined part ss

  copy_all-joined :
      {A : Type 0} (part : KvPairs V → List A) (to : List A) (ss : List (KvPairs V))
      → copy_all part to ss ≡ joined part ss ++ drop (length (joined part ss)) to
  unfolding copy_all
  copy_all-joined part to [] = refl
  copy_all-joined part to (s ∷ ss) =
      ap (λ l. part s ++ l)
        (copy_all-joined part (drop (length (part s)) to) ss
          ∙ ap (λ l. joined part ss ++ l)
              (drop-drop (length (part s)) (length (joined part ss)) to
                ∙ ap (λ n. drop n to) (sym (length-append (part s) (joined part ss)))))
      ∙ sym (append_assoc (part s) (joined part ss) (drop (length (part s ++ joined part ss)) to))

  pub length-joined :
      {A : Type 0} (part : KvPairs V → List A) (ss : List (KvPairs V))
      → length (joined part ss) ≡ total (λ s. length (part s)) ss
  length-joined part [] = refl
  length-joined part (s ∷ ss) =
      length-append (part s) (joined part ss)
      ∙ ap (λ n. length (part s) + n) (length-joined part ss)

  -- A new array is just filled.
  copy_all-fresh :
      {A : Type 0} (part : KvPairs V → List A) (to : List A) (ss : List (KvPairs V))
      → length to ≤ length (joined part ss)
      → copy_all part to ss ≡ joined part ss
  copy_all-fresh part to ss fits =
      copy_all-joined part to ss
      ∙ ap (λ l. joined part ss ++ l) (drop-all to (length (joined part ss)) fits)
      ∙ append-nil (joined part ss)

  -- The user's array of values, which is empty and gets its size, or has room.
  pub sized_vals-copied :
      (default_val : V) (vals : List V) (parts : List (KvPairs V)) (size : ℕ)
      → size ≡ length (joined (λ s. s.vals) parts)
      → (length vals ≡ 0) ⊎ (size ≤ length vals)
      → (vals' : List V) × (sized_vals default_val size vals ≡ ok vals')
        × (copy_all (λ s. s.vals) vals' parts
            ≡ joined (λ s. s.vals) parts ++ drop (length (joined (λ s. s.vals) parts)) vals)
  unfolding sized_vals
  sized_vals-copied default_val [] parts size is room = (
    replicate size default_val,
    refl,
    copy_all-fresh (λ s. s.vals) (replicate size default_val) parts
          (omega (arith, length-replicate size default_val))
        ∙ sym (append-nil (joined (λ s. s.vals) parts))
        ∙ ap (λ l. joined (λ s. s.vals) parts ++ l)
            (sym (drop-all [] (length (joined (λ s. s.vals) parts)) (omega arith))),
  )
  sized_vals-copied default_val (v ∷ vs) parts size is (inl none_there) = absurd (omega arith)
  sized_vals-copied default_val (v ∷ vs) parts size is (inr room) =
      let fits : leb size (length (v ∷ vs)) ≡ true = ground arith in
      (v ∷ vs, rw fits refl, copy_all-joined (λ s. s.vals) (v ∷ vs) parts)

  -- The user's array of lengths, which is empty or has one for each key.
  pub sized_lens-copied :
      (lens : List ℕ) (parts : List (KvPairs V)) (size : ℕ)
      → size ≡ length (joined (λ s. s.lens) parts)
      → (length lens ≡ 0) ⊎ (length lens ≡ size)
      → (lens' : List ℕ) × (sized_lens size lens ≡ ok lens')
        × (copy_all (λ s. s.lens) lens' parts ≡ joined (λ s. s.lens) parts)
  unfolding sized_lens
  sized_lens-copied [] parts size is room = (
    replicate size 0,
    refl,
    copy_all-fresh (λ s. s.lens) (replicate size 0) parts
        (omega (arith, length-replicate {A = ℕ} size 0)),
  )
  sized_lens-copied (l ∷ ls) parts size is (inl none_there) = absurd (omega arith)
  sized_lens-copied (l ∷ ls) parts size is (inr each) =
      let fits : (length (l ∷ ls) == size) ≡ true = ground arith in
      (l ∷ ls, rw fits refl, copy_all-fresh (λ s. s.lens) (l ∷ ls) parts (omega arith))
