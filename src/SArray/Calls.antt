-- ===== src/SArray/Calls.antt =====
-- Any calls on an `SArray` do to its values what those on a list do.
use step_mesh.Prelude.{ℕ, ◌+◌, ◌-◌, List, [], ◌∷◌, ◌++◌, length, take}
use step_mesh.SArray.{SArray, resize, reserve, push_back, pop_back, append, copy_from, clear}
use step_mesh.SArray.Contents.{resized}

-- A call on an array.
pub data Call (V : Type 0) : Type 0 where
  push : V → Call V
  pop : Call V
  add : List V → Call V
  copy : List V → Call V
  resize_to : ℕ → V → Call V
  reserve_more : ℕ → Call V
  clear_all : Call V

module _ {V : Type 0} where
  pub run : (zero_value : V) → Call V → SArray V → SArray V
  unfolding push_back pop_back append copy_from resize reserve clear
  run zero_value (push v) a = push_back zero_value v a
  run zero_value pop a = pop_back a
  run zero_value (add l) a = append zero_value l a
  run zero_value (copy l) a = copy_from zero_value l a
  run zero_value (resize_to n v) a = resize n v a
  run zero_value (reserve_more n) a = reserve zero_value (a.size + n) a
  run zero_value clear_all a = clear a

  -- What the call means for a list.
  abbrev pub meaning : Call V → List V → List V
  meaning (push v) l = l ++ v ∷ []
  meaning pop l = take (length l - 1) l
  meaning (add k) l = l ++ k
  meaning (copy k) l = k
  meaning (resize_to n v) l = resized n v l
  meaning (reserve_more n) l = l
  meaning clear_all l = []

  pub run_all : (zero_value : V) → List (Call V) → SArray V → SArray V
  unfolding run
  run_all zero_value [] a = a
  run_all zero_value (c ∷ cs) a = run_all zero_value cs (run zero_value c a)

  abbrev pub meanings : List (Call V) → List V → List V
  meanings [] l = l
  meanings (c ∷ cs) l = meanings cs (meaning c l)
