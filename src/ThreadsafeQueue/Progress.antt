-- ===== src/ThreadsafeQueue/Progress.antt =====
-- `PushAtomic` and `WaitAndPopAtomic` run alone: when a call completes, with what, and when it
-- waits.
use step_mesh.Prelude.{
  false, ℕ, zero, suc, ◌+◌, ◌%◌, ◌<◌, ◌≡◌, ◌≢◌, refl, List, ◌∷◌, [], ◌++◌, arith, ◌==◌,
}
use step_mesh.Prelude.Window.{window}
use step_mesh.ThreadsafeQueue.{
  capacity, Ring, Push, Pop, push_start, push_step, pop_start, pop_step, size_atomic,
}
use step_mesh.ThreadsafeQueue.Invariant.{
  contents, publish, contents-publish, pop_step-loaded, RingIsValid, contents-pop,
}

module _ {A : Type 0} where
  -- `n` steps of a call of `Push`, with no step of another thread between them.
  pub push_steps : ℕ → Ring A → Push A → Ring A × Push A
  unfolding push_step
  push_steps zero r p = (r, p)
  push_steps (suc n) r p = let (r', p') = push_step r p in push_steps n r' p'

  -- `n` steps of a call of `WaitAndPop`.
  pub pop_steps : ℕ → Ring A → Pop A → Ring A × Pop A
  unfolding pop_step
  pop_steps zero r p = (r, p)
  pop_steps (suc n) r p = let (r', p') = pop_step r p in pop_steps n r' p'

  -- With a free slot `Push` completes in three accesses: it keeps the ring valid, leaves `head_`
  -- alone and appends its value to the queue.
  pub push_completes :
      (r : Ring A) (v : A)
      → RingIsValid r
      → size_atomic r + 1 < capacity
      → (r' : Ring A) × (push_steps 3 r (push_start r v) ≡ (r', Push.idle))
        × RingIsValid r'
        × (r'.head ≡ r.head)
        × (contents r' ≡ contents r ++ v ∷ [])
  unfolding push_steps push_start push_step size_atomic
  push_completes r v ok room =
      let ne : (r.tail + 1) % capacity ≢ r.head = ground arith in
      let free : (((r.tail + 1) % capacity) == r.head) ≡ false = ground arith in
      (
        publish r v,
        rw free,
        record { head_in = ok.head_in; tail_in = omega arith },
        refl,
        contents-publish r v ok ne,
      )

  -- In a full queue `Push` waits: no number of its own steps changes the ring or ends the call.
  pub push_waits :
      (n : ℕ) (r : Ring A) (v : A)
      → RingIsValid r
      → size_atomic r + 1 ≡ capacity
      → push_steps n r (push_start r v) ≡ (r, push_start r v)
  unfolding push_steps push_start size_atomic
  push_waits zero r v ok full = refl
  push_waits (suc n) r v ok full = ground (arith, push_waits n r v)

  -- On a queue that holds a value `WaitAndPop` completes in three accesses: it takes the oldest
  -- value, leaves the others in order and `tail_` alone.
  pub pop_completes :
      (r : Ring A) (v : A) (rest : List A)
      → RingIsValid r
      → contents r ≡ v ∷ rest
      → let (r', p) = pop_steps 2 r (pop_start r) in
        let (r'', p') = pop_step r' p in
        (p ≡ Pop.taken v r.head)
        × (p' ≡ Pop.idle)
        × RingIsValid r''
        × (r''.tail ≡ r.tail)
        × (contents r'' ≡ rest)
  unfolding pop_steps pop_start pop_step window
  pop_completes r v rest ok e =
      let ne : r.head ≢ r.tail = λ same. absurd (ground arith) in
      rw (pop_step-loaded r 0 ne) (
        cc (contents-pop ok ne),
        refl,
        record { head_in = omega arith; tail_in = ok.tail_in },
        refl,
        cc (contents-pop ok ne),
      )
