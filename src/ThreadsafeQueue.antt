-- ===== src/ThreadsafeQueue.antt =====
-- The lock-free path of `ThreadsafeQueue` (include/ps/internal/threadsafe_queue.h), which is the
-- default: `PushAtomic`, `WaitAndPopAtomic` and `SizeAtomic`, one shared access at a time. Atomic
-- loads and stores are sequentially consistent here: the code's acquire and release orders give
-- that for one producer and one consumer. The path through `mu_` and the unused `*Lockless`
-- wrappers are not modelled.
pub mod Invariant
pub mod Fifo
pub mod Progress
pub mod Race
mod Tests
use step_mesh.Prelude.{
  ℕ, suc, ◌+◌, ◌-◌, ◌%◌, Bool, List, [], ◌∷◌, ◌++◌, leb, ltb, ◌==◌, if◌then◌else◌,
}
use step_mesh.Prelude.Window.{update}

abbrev pub capacity : ℕ
capacity = 32768

-- `max_count` of `WaitAndPopAtomic`
abbrev pub max_count : ℕ
max_count = 5000

-- The shared fields: `buffer_`, `head_` (the consumer's) and `tail_` (the producer's).
pub record Ring (A : Type 0) : Type 0 where
  pub buffer : ℕ → A
  pub head : ℕ
  pub tail : ℕ

-- Where a call of `PushAtomic` stands, with its locals.
pub data Push (A : Type 0) : Type 0 where
  idle : Push A
  loaded : (new_value : A) (current_tail : ℕ) → Push A  -- at the test of the loop
  ready : (new_value : A) (current_tail next_tail : ℕ) → Push A  -- before the write
  written : (new_value : A) (next_tail : ℕ) → Push A  -- before the store of `tail_`

-- Where a call of `WaitAndPopAtomic` stands, with its locals.
pub data Pop (A : Type 0) : Type 0 where
  idle : Pop A
  loaded : (current_head count : ℕ) → Pop A  -- at the test of the loop
  ready : (current_head : ℕ) → Pop A  -- before the read
  taken : (value : A) (current_head : ℕ) → Pop A  -- before the store of `head_`

module _ {A : Type 0} where
  pub push_start : Ring A → A → Push A
  push_start r v = Push.loaded v r.tail

  pub push_step : Ring A → Push A → Ring A × Push A
  push_step r Push.idle = (r, Push.idle)
  push_step r (Push.loaded v t) =
      let next_tail = (t + 1) % capacity in
      (r, if next_tail == r.head then Push.loaded v t else Push.ready v t next_tail)
  push_step r (Push.ready v t n) = (record r { buffer = update r.buffer t v }, Push.written v n)
  push_step r (Push.written v n) = (record r { tail = n }, Push.idle)

  pub pop_start : Ring A → Pop A
  pop_start r = Pop.loaded r.head 0

  -- The consumer reloads `head_` after `max_count` rounds of the loop.
  pub pop_step : Ring A → Pop A → Ring A × Pop A
  pop_step r Pop.idle = (r, Pop.idle)
  pop_step r (Pop.loaded h count) =
      if h == r.tail
      then (r, if ltb max_count (count + 1) then Pop.loaded r.head 0 else Pop.loaded h (count + 1))
      else (r, Pop.ready h)
  pop_step r (Pop.ready h) = (r, Pop.taken (r.buffer h) h)
  pop_step r (Pop.taken v h) = (record r { head = (h + 1) % capacity }, Pop.idle)

  -- The constructor's stores; `buffer_` holds what default construction leaves there.
  pub init : (ℕ → A) → Ring A
  init b = record { buffer = b; head = 0; tail = 0 }

  pub size_atomic : Ring A → ℕ
  size_atomic r = if leb r.head r.tail then r.tail - r.head else capacity - (r.head - r.tail)

-- One producer, which pushes the values of `todo` in turn, and one consumer, which pops for ever
-- into `received`.
pub record System (A : Type 0) : Type 0 where
  pub ring : Ring A
  pub push : Push A
  pub pop : Pop A
  pub todo : List A
  pub received : List A

pub data Actor : Type 0 where
  producer consumer : Actor

module _ {A : Type 0} where
  start_next : List A → System A → System A
  unfolding push_start
  start_next [] s = s
  start_next (v ∷ vs) s = record s { push = push_start s.ring v; todo = vs }

  produce : Push A → System A → System A
  unfolding start_next push_step
  produce Push.idle s = start_next s.todo s
  produce p s = let (r, p') = push_step s.ring p in record s { ring = r; push = p' }

  consume : Pop A → System A → System A
  unfolding pop_start pop_step
  consume Pop.idle s = record s { pop = pop_start s.ring }
  consume (Pop.taken v h) s =
      let (r, p') = pop_step s.ring (Pop.taken v h) in
      record s { ring = r; pop = p'; received = s.received ++ v ∷ [] }
  consume p s = let (r, p') = pop_step s.ring p in record s { ring = r; pop = p' }

  pub step : Actor → System A → System A
  unfolding produce consume
  step producer s = produce s.push s
  step consumer s = consume s.pop s

  -- The threads take their steps in the order of the schedule.
  pub run : List Actor → System A → System A
  unfolding step
  run [] s = s
  run (a ∷ rest) s = run rest (step a s)

  pub start : (ℕ → A) → List A → System A
  unfolding init
  start b todo = record {
    ring = init b;
    push = Push.idle;
    pop = Pop.idle;
    todo = todo;
    received = [];
  }
