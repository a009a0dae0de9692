-- ===== src/ThreadsafeQueue/Fifo.antt =====
-- `PushAtomic` against `WaitAndPopAtomic`: one producer and one consumer in any interleaving.
use mathlib.Core.List.{append_assoc}
use step_mesh.Prelude.{ℕ, ◌+◌, ◌%◌, ◌<◌, ◌≡◌, List, [], ◌∷◌, ◌++◌, arith, length, sym}
use step_mesh.Prelude.Window.{window, distance, length-window}
use step_mesh.ThreadsafeQueue.{
  capacity, Ring, Push, Pop, System, Actor, producer, consumer, step, produce, consume, run, start,
  start_next, size_atomic,
}
use step_mesh.ThreadsafeQueue.Invariant.{
  contents, pending, Inv, line, contents-push, contents-write, contents-pop,
}

abbrev system : {A : Type 0} → Ring A → Push A → Pop A → List A → List A → System A
system r p q todo received = record {
  ring = r;
  push = p;
  pop = q;
  todo = todo;
  received = received;
}

start_next-Inv :
    {A : Type 0} {all : List A} {r : Ring A} {received : List A} (todo : List A) (q : Pop A)
    → Inv all (system r Push.idle q todo received)
    → Inv all (start_next todo (system r Push.idle q todo received))
unfolding start_next
start_next-Inv [] q i = i
start_next-Inv (v ∷ vs) q i = ground arith

module _ {A : Type 0} {all : List A} (r : Ring A) (todo received : List A) where
  produce-Inv :
      (p : Push A) (q : Pop A)
      → Inv all (system r p q todo received)
      → Inv all (produce p (system r p q todo received))
  unfolding produce
  produce-Inv Push.idle q i = start_next-Inv todo q i
  produce-Inv (Push.loaded v t) q i = ground arith
  produce-Inv (Push.ready v t n) q i = ground (arith, contents-write {r = r} v i.ring_ok)
  produce-Inv (Push.written v n) q i =
      ground (arith, contents-push v n i.ring_ok, append_assoc (contents r) (v ∷ []) todo)

  consume-Inv :
      (p : Push A) (q : Pop A)
      → Inv all (system r p q todo received)
      → Inv all (consume q (system r p q todo received))
  unfolding consume
  consume-Inv p Pop.idle i = ground arith
  consume-Inv p (Pop.loaded h count) i = ground arith
  consume-Inv p (Pop.ready h) i = ground arith
  consume-Inv p (Pop.taken v h) i = ground (
    arith,
    contents-pop i.ring_ok,
    append_assoc received (v ∷ [])
        (contents (record r { head = (r.head + 1) % capacity }) ++ (pending p ++ todo)),
  )

step-Inv : {A : Type 0} {all : List A} (a : Actor) (s : System A) → Inv all s → Inv all (step a s)
unfolding step
step-Inv producer s i = produce-Inv s.ring s.todo s.received s.push s.pop i
step-Inv consumer s i = consume-Inv s.ring s.todo s.received s.push s.pop i

-- Every schedule keeps the invariant.
pub run-Inv :
    {A : Type 0} {all : List A} (schedule : List Actor) (s : System A)
    → Inv all s
    → Inv all (run schedule s)
unfolding run
run-Inv [] s i = i
run-Inv (a ∷ rest) s i = run-Inv rest (step a s) (step-Inv a s i)

pub start-Inv : {A : Type 0} (b : ℕ → A) (todo : List A) → Inv todo (start b todo)
unfolding start window
start-Inv b todo = ground arith

-- In every interleaving of one producer and one consumer, the values received so far, the values
-- in the queue, the value being pushed and the values still to be pushed are, in this order, the
-- values that the producer was given: nothing is lost, doubled or overtaken.
pub run-fifo :
    {A : Type 0} (b : ℕ → A) (todo : List A) (schedule : List Actor)
    → line (run schedule (start b todo)) ≡ todo
run-fifo b todo schedule = (run-Inv schedule (start b todo) (start-Inv b todo)).in_order

-- `SizeAtomic`, read between steps, is the number of values in the queue, and less than the
-- capacity.
pub run-size_atomic :
    {A : Type 0} (b : ℕ → A) (todo : List A) (schedule : List Actor)
    → let s = run schedule (start b todo) in
      (size_atomic s.ring ≡ length (contents s.ring)) × (size_atomic s.ring < capacity)
unfolding size_atomic
run-size_atomic b todo schedule =
    let s = run schedule (start b todo) in
    let i = run-Inv schedule (start b todo) (start-Inv b todo) in
    let ok = i.ring_ok in
    (
      sym (
          length-window s.ring.buffer capacity s.ring.head
            (distance capacity s.ring.head s.ring.tail)),
      ground (arith, ok.head_in, ok.tail_in),
    )
