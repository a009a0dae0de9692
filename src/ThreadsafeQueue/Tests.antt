-- ===== src/ThreadsafeQueue/Tests.antt =====
-- Runs of `ThreadsafeQueue`.
use step_mesh.Prelude.{ℕ, ◌+◌, ◌<◌, ◌≡◌, refl, List, [], ◌∷◌, ◌++◌, arith, length}
use step_mesh.Prelude.Window.{window}
use step_mesh.ThreadsafeQueue.{
  capacity, Ring, Push, Pop, Actor, producer, consumer, push_start, pop_start, pop_step,
  size_atomic, run, start,
}
use step_mesh.ThreadsafeQueue.Invariant.{contents, line, RingIsValid}
use step_mesh.ThreadsafeQueue.Fifo.{run-fifo, run-size_atomic}
use step_mesh.ThreadsafeQueue.Progress.{push_steps, pop_steps, push_completes, pop_completes}
use step_mesh.ThreadsafeQueue.Race.{push_together, push_together-loses}

abbrev zeros : ℕ → ℕ
zeros i = 0

-- Three pushes, the last one under way, and two pops.
abbrev schedule : List Actor
schedule =
    producer ∷ consumer ∷ producer ∷ producer ∷ consumer ∷ producer ∷ consumer ∷ consumer ∷ producer
    ∷ consumer ∷ producer ∷ consumer ∷ producer ∷ producer ∷ consumer ∷ consumer ∷ consumer
    ∷ producer ∷ producer ∷ []

run-received : (run schedule (start zeros (4 ∷ 5 ∷ 6 ∷ []))).received ≡ 4 ∷ 5 ∷ []
unfolding run start
run-received = refl

run-fifo_example : line (run schedule (start zeros (4 ∷ 5 ∷ 6 ∷ []))) ≡ 4 ∷ 5 ∷ 6 ∷ []
run-fifo_example = run-fifo zeros (4 ∷ 5 ∷ 6 ∷ []) schedule

run-size_atomic_example :
    let s = run schedule (start zeros (4 ∷ 5 ∷ 6 ∷ [])) in
    (size_atomic s.ring ≡ length (contents s.ring)) × (size_atomic s.ring < capacity)
run-size_atomic_example = run-size_atomic zeros (4 ∷ 5 ∷ 6 ∷ []) schedule

-- Two values, across the end of the buffer.
abbrev two : Ring ℕ
two = record { buffer = λ i. i; head = 32767; tail = 1 }

two-RingIsValid : RingIsValid two
two-RingIsValid = record { head_in = omega arith; tail_in = omega arith }

two-room : size_atomic two + 1 < capacity
unfolding size_atomic
two-room = omega arith

two-contents : contents two ≡ 32767 ∷ 0 ∷ []
unfolding window
two-contents = refl

push_completes_example :
    (r' : Ring ℕ) × (push_steps 3 two (push_start two 9) ≡ (r', Push.idle))
    × RingIsValid r'
    × (r'.head ≡ 32767)
    × (contents r' ≡ contents two ++ 9 ∷ [])
push_completes_example = push_completes two 9 two-RingIsValid two-room

pop_completes_example :
    let (r', p) = pop_steps 2 two (pop_start two) in
    let (r'', p') = pop_step r' p in
    (p ≡ Pop.taken 32767 32767)
    × (p' ≡ Pop.idle)
    × RingIsValid r''
    × (r''.tail ≡ 1)
    × (contents r'' ≡ 0 ∷ [])
pop_completes_example = pop_completes two 32767 (0 ∷ []) two-RingIsValid two-contents

push_together-loses_example :
    let (r', p, q) = push_together two 8 9 in
    (p ≡ Push.idle) × (q ≡ Push.idle) × (contents r' ≡ contents two ++ 9 ∷ [])
push_together-loses_example = push_together-loses two 8 9 two-RingIsValid two-room

abbrev full : Ring ℕ
full = record { buffer = λ i. i; head = 3; tail = 2 }

full-full : size_atomic full + 1 ≡ capacity
unfolding size_atomic
full-full = refl
