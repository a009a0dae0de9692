-- ===== src/SArray/Contents.antt =====
-- The operations of `SArray` do to its values what those of a list do.
use mathlib.Core.List.{append_assoc, append-nil}
use step_mesh.Prelude.{
  ℕ, zero, suc, ◌+◌, ◌-◌, ◌*◌, ◌≤◌, ◌<◌, ◌≡◌, refl, sym, ap, ◌∙◌, inl, inr, Bool, true, false, List,
  [], ◌∷◌, ◌++◌, arith, leb, ◌==◌, if◌then◌else◌, Bool-cases, length, set, take, drop, replicate,
  length-append, length-take, length-drop, length-replicate, length-set,
}
use step_mesh.SArray.{
  SArray, overwrite, fill_new, resize, reserve, push_back, pop_back, append, copy_from, clear,
}

module _ {V : Type 0} where
  -- The values in use.
  abbrev pub contents : SArray V → List V
  contents a = take a.size a.memory

  abbrev pub IsValid : SArray V → Type 0
  IsValid a = a.size ≤ length a.memory

  take-exact : (n : ℕ) (xs ys : List V) → n ≡ length xs → take n (xs ++ ys) ≡ xs
  take-exact zero [] ys e = refl
  take-exact zero (x ∷ xs) ys e = absurd (omega arith)
  take-exact (suc n) [] ys e = absurd (omega arith)
  take-exact (suc n) (x ∷ xs) ys e = ap (λ l. x ∷ l) (take-exact n xs ys (omega arith))

  take-take : (n m : ℕ) (xs : List V) → n ≤ m → take n (take m xs) ≡ take n xs
  take-take zero m xs le = refl
  take-take (suc n) zero xs le = absurd (omega arith)
  take-take (suc n) (suc m) [] le = refl
  take-take (suc n) (suc m) (x ∷ xs) le = ap (λ l. x ∷ l) (take-take n m xs (omega arith))

  take-set :
      (n : ℕ) (xs : List V) (v : V)
      → n < length xs
      → take (suc n) (set xs n v) ≡ take n xs ++ v ∷ []
  take-set n [] v lt = absurd (omega arith)
  take-set zero (x ∷ xs) v lt = refl
  take-set (suc n) (x ∷ xs) v lt = ap (λ l. x ∷ l) (take-set n xs v (omega arith))

  set-contents :
      (a : SArray V) (v : V)
      → a.size < length a.memory
      → take (a.size + 1) (set a.memory a.size v) ≡ contents a ++ v ∷ []
  set-contents a v lt =
      ap (λ k. take k (set a.memory a.size v)) {x = a.size + 1} {y = suc a.size} (omega arith)
      ∙ take-set a.size a.memory v lt

  take-overwrite :
      (memory : List V) (start : ℕ) (data_ : List V)
      → start ≤ length memory
      → take (start + length data_) (overwrite memory start data_) ≡ take start memory ++ data_
  unfolding overwrite
  take-overwrite memory start data_ le =
      ap (take (start + length data_)) (sym (append_assoc (take start memory) data_ _))
      ∙ take-exact (start + length data_) (take start memory ++ data_) _
          (omega (arith, length-append (take start memory) data_, length-take start memory))

  length-overwrite :
      (memory : List V) (start : ℕ) (data_ : List V)
      → start + length data_ ≤ length memory
      → length (overwrite memory start data_) ≡ length memory
  unfolding overwrite
  length-overwrite memory start data_ le =
      let rest = drop (start + length data_) memory in
      omega (
        arith,
        length-append (take start memory) (data_ ++ rest),
        length-append data_ rest,
        length-take start memory,
        length-drop (start + length data_) memory,
      )

  -- A list that is made `n` long.
  abbrev pub resized : (n : ℕ) → V → List V → List V
  resized n val l = if leb n (length l) then take n l else l ++ replicate (n - length l) val

  pub contents-resize :
      (n : ℕ) (val : V) (a : SArray V)
      → IsValid a
      → IsValid (resize n val a)
        × (contents (resize n val a) ≡ resized n val (contents a))
        × ((resize n val a).size ≡ n)
  unfolding resize fill_new
  contents-resize n val a valid =
      let len : length (contents a) ≡ a.size = omega (arith, length-take a.size a.memory) in
      let new = replicate (n - a.size) val in
      let count : length new ≡ n - a.size = length-replicate (n - a.size) val in
      let same : contents a ++ new ≡ contents a ++ replicate (n - length (contents a)) val =
        ap (λ k. contents a ++ replicate (n - k) val) (sym len) in
      elim (Bool-cases (leb n (length a.memory))) [
        | inl fits ↦ elim (Bool-cases (leb n a.size)) [
          | inl less ↦
              let below : leb n (length (contents a)) ≡ true = ground arith in
              rw (fits, less, below)
                (ground arith, sym (take-take n a.size a.memory (ground arith)), refl)
          | inr more ↦
              let above : leb n (length (contents a)) ≡ false = ground arith in
              let end : n ≡ a.size + length new = ground arith in
              rw (fits, more, above)
                (
                  ground (arith, length-overwrite a.memory a.size new (ground arith)),
                  ap (λ k. take k (overwrite a.memory a.size new)) end
                      ∙ take-overwrite a.memory a.size new valid
                      ∙ same,
                  refl,
                )
        ]
        | inr grows ↦
            let above : leb n (length (contents a)) ≡ false = ground arith in
            let whole : n ≡ length (contents a ++ new) =
              ground (arith, length-append (contents a) new) in
            rw (grows, above)
              (
                omega arith,
                ap (take n) (sym (append-nil (contents a ++ new)))
                    ∙ take-exact n (contents a ++ new) [] whole
                    ∙ same,
                refl,
              )
      ]

  resize-memory : (n : ℕ) (val : V) (a : SArray V) → IsValid a → n ≤ length (resize n val a).memory
  resize-memory n val a valid = let (fits, is, size) = contents-resize n val a valid in omega arith

  -- Growing keeps the values in front.
  contents-grown :
      (n : ℕ) (val : V) (a : SArray V)
      → IsValid a
      → a.size ≤ n
      → take a.size (resize n val a).memory ≡ contents a
  contents-grown n val a valid le =
      let (fits, is, size) = contents-resize n val a valid in
      let memory = (resize n val a).memory in
      let len : length (contents a) ≡ a.size = omega (arith, length-take a.size a.memory) in
      let front : take a.size (resized n val (contents a)) ≡ contents a =
        elim (Bool-cases (leb n (length (contents a)))) [
          | inl less ↦
              rw less (
                take-take a.size n (contents a) le ∙ take-take a.size a.size a.memory (omega arith))
          | inr more ↦ rw more (take-exact a.size (contents a) _ (sym len))
        ] in
      sym (take-take a.size n memory le)
      ∙ ap (λ k. take a.size (take k memory)) (sym size)
      ∙ ap (take a.size) is
      ∙ front

  either :
      (P : SArray V → Type 0) (test : Bool) (a b : SArray V)
      → (test ≡ true → P a)
      → (test ≡ false → P b)
      → P (if test then a else b)
  either P true a b first second = first refl
  either P false a b first second = second refl

  pub contents-reserve :
      (zero_value : V) (n : ℕ) (a : SArray V)
      → IsValid a
      → a.size ≤ n
      → IsValid (reserve zero_value n a)
        × (contents (reserve zero_value n a) ≡ contents a)
        × ((reserve zero_value n a).size ≡ a.size)
        × (n ≤ length (reserve zero_value n a).memory)
  unfolding reserve
  contents-reserve zero_value n a valid le =
      either
        (λ b. IsValid b × (contents b ≡ contents a) × (b.size ≡ a.size) × (n ≤ length b.memory))
        (leb n (length a.memory)) a (record (resize n zero_value a) { size = a.size })
        (λ fits. (valid, refl, refl, ground arith))
        (λ grows.
          let enough = resize-memory n zero_value a valid in
          (omega arith, contents-grown n zero_value a valid le, refl, enough))

  pub contents-push_back :
      (zero_value v : V) (a : SArray V)
      → IsValid a
      → IsValid (push_back zero_value v a)
        × (contents (push_back zero_value v a) ≡ contents a ++ v ∷ [])
  unfolding push_back
  contents-push_back zero_value v a valid = elim (Bool-cases (a.size == length a.memory)) [
    | inl full ↦
        let b = reserve zero_value (a.size * 2 + 5) a in
        let (fits, is, size, enough) =
          contents-reserve zero_value (a.size * 2 + 5) a valid (omega arith) in
        rw full (
          omega (arith, length-set b.memory b.size v),
          set-contents b v (omega arith) ∙ ap (λ l. l ++ v ∷ []) is,
        )
    | inr room ↦
        rw room (ground (arith, length-set a.memory a.size v), set-contents a v (ground arith))
  ]

  pub contents-pop_back :
      (a : SArray V)
      → IsValid a
      → IsValid (pop_back a) × (contents (pop_back a) ≡ take (length (contents a) - 1) (contents a))
  unfolding pop_back
  contents-pop_back a valid =
      let len : length (contents a) ≡ a.size = omega (arith, length-take a.size a.memory) in
      let less : take (length (contents a) - 1) (contents a) ≡ take (a.size - 1) a.memory =
        ap (λ k. take (k - 1) (contents a)) len
        ∙ take-take (a.size - 1) a.size a.memory (omega arith) in
      elim (Bool-cases (a.size == 0)) [
        | inl none_left ↦
            let same : a.size ≡ a.size - 1 = ground arith in
            rw none_left (valid, ap (λ k. take k a.memory) same ∙ sym less)
        | inr some_left ↦ rw some_left (omega arith, sym less)
      ]

  pub contents-append :
      (zero_value : V) (data_ : List V) (a : SArray V)
      → IsValid a
      → IsValid (append zero_value data_ a)
        × (contents (append zero_value data_ a) ≡ contents a ++ data_)
  unfolding append
  contents-append zero_value [] a valid = (valid, sym (append-nil (contents a)))
  contents-append zero_value (v ∷ vs) a valid =
      let n = a.size + length (v ∷ vs) in
      let b = resize n zero_value a in
      let (fits, is, size) = contents-resize n zero_value a valid in
      let some_more : (length (v ∷ vs) == 0) ≡ false = ground arith in
      rw some_more (
        omega (arith, length-overwrite b.memory a.size (v ∷ vs) (omega arith)),
        ap (λ k. take k (overwrite b.memory a.size (v ∷ vs))) size
            ∙ take-overwrite b.memory a.size (v ∷ vs) (omega arith)
            ∙ ap (λ l. l ++ v ∷ vs) (contents-grown n zero_value a valid (omega arith)),
      )

  pub contents-copy_from :
      (zero_value : V) (data_ : List V) (a : SArray V)
      → IsValid a
      → IsValid (copy_from zero_value data_ a) × (contents (copy_from zero_value data_ a) ≡ data_)
  unfolding copy_from
  contents-copy_from zero_value data_ a valid =
      let b = resize (length data_) zero_value a in
      let (fits, is, size) = contents-resize (length data_) zero_value a valid in
      (
        omega (arith, length-overwrite b.memory 0 data_ (omega arith)),
        ap (λ k. take k (overwrite b.memory 0 data_))
              (size ∙ sym {a = 0 + length data_} (omega arith))
            ∙ take-overwrite b.memory 0 data_ (omega arith),
      )

  pub contents-clear : (a : SArray V) → IsValid (clear a) × (contents (clear a) ≡ [])
  unfolding clear
  contents-clear a = (omega arith, refl)
