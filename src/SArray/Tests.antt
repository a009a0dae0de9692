-- ===== src/SArray/Tests.antt =====
-- An array of two numbers in three cells.
use step_mesh.Prelude.{ℕ, List, [], ◌∷◌}
use step_mesh.SArray.{SArray}
use step_mesh.SArray.Calls.{Call, push, pop, add, resize_to, reserve_more}

abbrev numbers : SArray ℕ
numbers = record { memory = 4 ∷ 5 ∷ 9 ∷ []; size = 2 }

-- The memory grows at the second push.
abbrev calls : List (Call ℕ)
calls = push 6 ∷ push 7 ∷ pop ∷ add (8 ∷ 8 ∷ []) ∷ resize_to 6 1 ∷ reserve_more 9 ∷ []
