-- ===== src/ThreadsafeQueue/Invariant.antt =====
-- What holds of the ring and of the two threads' locals between any two shared accesses.
use step_mesh.Prelude.{refl, ap, ◌∙◌, ℕ, ◌+◌, ◌%◌, ◌<◌, ◌≡◌, ◌≢◌, List, [], ◌∷◌, ◌++◌, arith}
use step_mesh.Prelude.Window.{window, update, distance, window-update, window-snoc, window_of_pos}
use step_mesh.ThreadsafeQueue.{pop_step, push_step, capacity, Ring, Push, Pop, System}

module _ {A : Type 0} where
  -- The values pushed and not yet popped, oldest first.
  abbrev pub contents : Ring A → List A
  contents r = window r.buffer capacity r.head (distance capacity r.head r.tail)

  -- The value of a push that has not been published.
  abbrev pub pending : Push A → List A
  pending Push.idle = []
  pending (Push.loaded v _) = v ∷ []
  pending (Push.ready v _ _) = v ∷ []
  pending (Push.written v _) = v ∷ []

  abbrev pub PushIsFresh : Ring A → Push A → Type 0
  PushIsFresh r Push.idle = Unit
  PushIsFresh r (Push.loaded v t) = t ≡ r.tail
  PushIsFresh r (Push.ready v t n) = (t ≡ r.tail) × (n ≡ (r.tail + 1) % capacity) × (n ≢ r.head)
  PushIsFresh r (Push.written v n) =
      (n ≡ (r.tail + 1) % capacity) × (n ≢ r.head) × (r.buffer r.tail ≡ v)

  abbrev pub PopIsFresh : Ring A → Pop A → Type 0
  PopIsFresh r Pop.idle = Unit
  PopIsFresh r (Pop.loaded h count) = h ≡ r.head
  PopIsFresh r (Pop.ready h) = (h ≡ r.head) × (h ≢ r.tail)
  PopIsFresh r (Pop.taken v h) = (h ≡ r.head) × (h ≢ r.tail) × (r.buffer h ≡ v)

  pub record RingIsValid (r : Ring A) : Type 0 where
    pub head_in : r.head < capacity
    pub tail_in : r.tail < capacity

  -- A push of `v` writes the slot past the window.
  pub contents-push :
      {r : Ring A} (v : A) (n : ℕ)
      → RingIsValid r
      → n ≡ (r.tail + 1) % capacity
      → n ≢ r.head
      → r.buffer r.tail ≡ v
      → contents (record r { tail = n }) ≡ contents r ++ v ∷ []
  contents-push {r} v n ok e ne at =
      ground (arith, window-snoc r.buffer capacity r.head (distance capacity r.head r.tail) r.tail)

  pub contents-write :
      {r : Ring A} (v : A)
      → RingIsValid r
      → contents (record r { buffer = update r.buffer r.tail v }) ≡ contents r
  contents-write {r} v ok =
      window-update r.buffer capacity r.head (distance capacity r.head r.tail) r.tail v
        (omega arith) (omega arith) (omega arith)

  -- `PushAtomic`'s write and store together.
  abbrev pub publish : Ring A → A → Ring A
  publish r v = record r { buffer = update r.buffer r.tail v; tail = (r.tail + 1) % capacity }

  pub contents-publish :
      (r : Ring A) (v : A)
      → RingIsValid r
      → (r.tail + 1) % capacity ≢ r.head
      → contents (publish r v) ≡ contents r ++ v ∷ []
  contents-publish r v ok ne =
      contents-push {r = record r { buffer = update r.buffer r.tail v }} v ((r.tail + 1) % capacity)
        (record { head_in = ok.head_in; tail_in = ok.tail_in }) refl ne (ground arith)
      ∙ ap (λ l. l ++ v ∷ []) (contents-write v ok)

  -- The test of the loop of `PushAtomic` passes on a ring that is not full.
  pub push_step-loaded :
      (r : Ring A) (v : A) (t : ℕ)
      → (t + 1) % capacity ≢ r.head
      → push_step r (Push.loaded v t) ≡ (r, Push.ready v t ((t + 1) % capacity))
  unfolding push_step
  push_step-loaded r v t ne = ground arith

  pub contents-pop :
      {r : Ring A}
      → RingIsValid r
      → r.head ≢ r.tail
      → contents r ≡ r.buffer r.head ∷ contents (record r { head = (r.head + 1) % capacity })
  contents-pop {r} ok ne =
      ground (arith, window_of_pos r.buffer capacity r.head (distance capacity r.head r.tail))

  -- The test of the loop of `WaitAndPopAtomic` passes on a ring that is not empty.
  pub pop_step-loaded :
      (r : Ring A) (count : ℕ)
      → r.head ≢ r.tail
      → pop_step r (Pop.loaded r.head count) ≡ (r, Pop.ready r.head)
  unfolding pop_step
  pop_step-loaded r count ne = ground arith

-- The values of one run in order: received, queued, being pushed, still to be pushed.
abbrev pub line : {A : Type 0} → System A → List A
line s = s.received ++ (contents s.ring ++ (pending s.push ++ s.todo))

pub record Inv {A : Type 0} (all : List A) (s : System A) : Type 0 where
  pub ring_ok : RingIsValid s.ring
  pub push_ok : PushIsFresh s.ring s.push
  pub pop_ok : PopIsFresh s.ring s.pop
  pub in_order : line s ≡ all
