-- ===== src/ThreadsafeQueue/Race.antt =====
-- Two producers at once. `Push` takes no lock on the lock-free path.
use step_mesh.Prelude.{false, ◌==◌, ap, ◌∙◌, ◌%◌, ◌≢◌, refl, ◌+◌, ◌≡◌, ◌<◌, [], ◌∷◌, ◌++◌, arith}
use step_mesh.Prelude.Window.{update}
use step_mesh.ThreadsafeQueue.{capacity, Ring, Push, push_start, push_step, size_atomic}
use step_mesh.ThreadsafeQueue.Invariant.{contents, RingIsValid, contents-publish, contents-write}

module _ {A : Type 0} where
  -- Two calls of `Push`, of `v` and of `w`, that take their steps in turn.
  pub push_together : Ring A → A → A → Ring A × Push A × Push A
  unfolding push_start push_step
  push_together r v w =
      let (r1, p1) = push_step r (push_start r v) in
      let (r2, q1) = push_step r1 (push_start r w) in
      let (r3, p2) = push_step r2 p1 in
      let (r4, q2) = push_step r3 q1 in
      let (r5, p3) = push_step r4 p2 in let (r6, q3) = push_step r5 q2 in (r6, p3, q3)

  -- Whatever the queue and the values, if there is a free slot then two calls of `Push` that take
  -- their steps in turn both return, and only the second value is in the queue.
  pub push_together-loses :
      (r : Ring A) (v w : A)
      → RingIsValid r
      → size_atomic r + 1 < capacity
      → let (r', p, q) = push_together r v w in
        (p ≡ Push.idle) × (q ≡ Push.idle) × (contents r' ≡ contents r ++ w ∷ [])
  unfolding push_together push_start push_step size_atomic
  push_together-loses r v w ok room =
      let ne : (r.tail + 1) % capacity ≢ r.head = ground arith in
      let free : (((r.tail + 1) % capacity) == r.head) ≡ false = ground arith in
      rw free (
        refl,
        refl,
        contents-publish (record r { buffer = update r.buffer r.tail v }) w
              (record { head_in = ok.head_in; tail_in = ok.tail_in }) ne
            ∙ ap (λ l. l ++ w ∷ []) (contents-write v ok),
      )
