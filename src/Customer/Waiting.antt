-- ===== src/Customer/Waiting.antt =====
-- `WaitRequest` (src/customer.cc) returns.
use step_mesh.Prelude.{
  ℕ, ◌+◌, ◌-◌, ◌^◌, ◌≤◌, ◌<◌, ◌≡◌, ◌∙◌, ap, false, ltb, some, List, [], ◌∷◌, ◌++◌, arith,
}
use step_mesh.Prelude.Result.{ok}
use step_mesh.Customer.{elapsed, wait_loop}

-- Every reading of the list was made after `start_time`, and in time.
abbrev pub AreInTime : (start_time timeout_ns : ℕ) → List (ℕ × ℕ) → Type 0
AreInTime start_time timeout_ns [] = Unit
AreInTime start_time timeout_ns ((responses, now) ∷ rounds) =
    (start_time ≤ now)
    × (now ≤ start_time + timeout_ns)
    × (now < 2 ^ 64)
    × AreInTime start_time timeout_ns rounds

elapsed-after :
    (now start_time : ℕ)
    → start_time ≤ now
    → now < 2 ^ 64
    → elapsed now start_time ≡ now - start_time
elapsed-after now start_time later fits = omega arith

-- The wait returns at the latest in the first round that reads all responses, if the rounds before
-- it read times from the start on, below 2 ^ 64 and in time, however many they are.
pub wait_loop-returns :
    (count start_time timeout_ns spin_count : ℕ) (rounds : List (ℕ × ℕ)) (now : ℕ)
    (rest : List (ℕ × ℕ))
    → AreInTime start_time timeout_ns rounds
    → wait_loop count start_time timeout_ns spin_count (rounds ++ (count, now) ∷ rest)
      ≡ some (ok tt)
unfolding wait_loop
wait_loop-returns count start_time timeout_ns spin_count [] now rest in_time = ground arith
wait_loop-returns count start_time timeout_ns spin_count ((r, at) ∷ rounds) now rest in_time =
    let no_timeout : ltb timeout_ns (elapsed at start_time) ≡ false =
      ap (ltb timeout_ns) (elapsed-after at start_time in_time.0 in_time.2) ∙ ground arith in
    rw no_timeout (
      ground (
        arith,
        wait_loop-returns count start_time timeout_ns (spin_count + 1) rounds now rest in_time.3,
        wait_loop-returns count start_time timeout_ns spin_count rounds now rest in_time.3,
      ))
