-- ===== src/Tensor.antt =====
-- `AFTensorWorker` and `AFTensorServer` (include/ps/af_tensor_app.h): a batch of tensors to push
-- and to pull, from `ZBatchPushPull` to the server's request handle. A tensor is a value of a type
-- `T`: its address, length, element type and shape travel with it. The device's events, and the
-- threads and queues between the calls, are not modelled. In a `Result`, `fatal` is a failed check
-- and also an index out of range or a null pointer, which the code does not check.
pub mod Server
pub mod Flags
pub mod Timestamps
pub mod Sending
pub mod Batch
pub mod Whole
pub mod Reorder
pub mod Response
pub mod Handlers
pub mod Parts
pub mod Arrival
pub mod Register
mod Tests
mod HandlerTests
use step_mesh.Prelude.{
  ℕ, zero, suc, ◌+◌, ◌-◌, ◌*◌, ◌/◌, ◌%◌, ◌^◌, ◌≤◌, ◌<◌, ◌≡◌, refl, sym, ap, ◌∙◌, ◌≢◌, ◌↔◌, ◌⊎◌, inl,
  inr, Bool, true, false, not, ◌&&◌, ◌||◌, Option, none, some, List, [], ◌∷◌, ◌++◌, map, arith, ltb,
  leb, ◌==◌, if◌then◌else◌, Bool-cases, Option-cases, length, get_elem?, set, take, drop, replicate,
  get_or, length-append, length-set, length-drop, length-take, take-append-drop, length-map,
  length-replicate, ==_iff,
}
use step_mesh.Prelude.Result.{Result, ok, fatal, check, ◌>>◌, ◌>>=◌}

abbrev pub af_flag_batch_start : ℕ
af_flag_batch_start = 1

abbrev pub af_flag_batch_middle : ℕ
af_flag_batch_middle = 2

abbrev pub af_flag_batch_end : ℕ
af_flag_batch_end = 3

pub record KeyTensor (T : Type 0) : Type 0 where
  pub key : ℕ
  pub val : T

pub record AfTensorRequest (T : Type 0) : Type 0 where
  pub push : List (KeyTensor T)
  pub pull : List (KeyTensor T)
  pub push_timestamps : List ℕ
  pub pull_timestamps : List ℕ

-- A request message to the server group `server`.
pub record Sent (T : Type 0) : Type 0 where
  pub server : ℕ
  pub head : ℕ
  pub push : Bool
  pub timestamp : ℕ
  pub key : ℕ
  pub tensor : T

-- The variables of the loops that allocate timestamps.
pub record Stamps : Type 0 where
  pub first : Bool
  pub start_ts : ℕ
  pub timestamps : List ℕ

-- The loop over the pushes, from number `i` on, when `next` requests were made before and no other
-- thread makes any, and `push_timestamps`.
pub push_stamps : (rounds i next : ℕ) → Stamps → Stamps × List ℕ
push_stamps zero i next s = (s, [])
push_stamps (suc rounds) i next s =
    let later = push_stamps rounds (i + 1) (next + 1) (
      if i == 0
      then record s { first = false; start_ts = next }
      else record s { timestamps = s.timestamps ++ next ∷ [] }) in
    (later.0, next ∷ later.1)

-- The loop over the pulls, and `pull_timestamps`.
pub pull_stamps : (rounds i next : ℕ) → Stamps → Stamps × List ℕ
pull_stamps zero i next s = (s, [])
pull_stamps (suc rounds) i next s =
    let later = pull_stamps rounds (i + 1) (next + 1) (
      if s.first && (i == 0)
      then record s { start_ts = next }
      else record s { timestamps = s.timestamps ++ next ∷ [] }) in
    (later.0, next ∷ later.1)

-- The flag of push number `i` of `n`.
pub push_flag : (no_pull : Bool) → (n i : ℕ) → ℕ
push_flag no_pull n i =
    if i == 0
    then af_flag_batch_start
    else (if no_pull && (i == (n - 1)) then af_flag_batch_end else af_flag_batch_middle)

-- The flag of pull number `i` of `n`; `first` says that there was no push.
pub pull_flag : (first : Bool) → (n i : ℕ) → ℕ
pull_flag first n i =
    if first && (i == 0)
    then af_flag_batch_start
    else (if (i + 1) == n then af_flag_batch_end else af_flag_batch_middle)

-- `push_tensors.empty()` and `pull_tensors.empty()`
abbrev pub is_nil {ℓ} : {A : Type ℓ} → List A → Bool
is_nil [] = true
is_nil (x ∷ xs) = false

module _ {T : Type 0} where
  -- The request for the queue, the handle that is returned, and what `batch_timestamps_` gets for
  -- it.
  pub z_batch_push_pull :
      (server_count next : ℕ)
      → (push_tensors pull_tensors : List (KeyTensor T)) → Result (AfTensorRequest T × ℕ × List ℕ)
  unfolding push_stamps pull_stamps
  z_batch_push_pull server_count next push_tensors pull_tensors =
      check (ltb 0 server_count)
      >> (let pushes =
            push_stamps (length push_tensors) 0 next
              (record { first = true; start_ts = 0; timestamps = [] }) in
          let pull_batch_size = length pull_tensors / server_count in
          let pulls = pull_stamps pull_batch_size 0 (next + length push_tensors) pushes.0 in
          ok (
            record {
              push = push_tensors;
              pull = pull_tensors;
              push_timestamps = pushes.1;
              pull_timestamps = pulls.1;
            },
            pulls.0.start_ts,
            pulls.0.timestamps,
          ))

  -- The broadcast; `rounds` servers are left, from `i` on.
  pub z_push : (rounds i ts key : ℕ) → T → (cmd : ℕ) → List (Sent T)
  z_push zero i ts key tensor cmd = []
  z_push (suc rounds) i ts key tensor cmd =
      record { server = i; head = cmd; push = true; timestamp = ts; key = key; tensor = tensor }
      ∷ z_push rounds (i + 1) ts key tensor cmd

  -- `pull_tensors[n]`
  abbrev pub or_fatal : Option (KeyTensor T) → Result (KeyTensor T)
  or_fatal none = fatal
  or_fatal (some t) = ok t

  abbrev pub at : List (KeyTensor T) → ℕ → Result (KeyTensor T)
  at l n = or_fatal (get_elem? l n)

  -- A pull goes to each server with a tensor of its own.
  pub z_pull :
      (pull_batch_size rounds i ts : ℕ)
      → List (KeyTensor T)
      → (index cmd : ℕ) → Result (List (Sent T))
  z_pull pull_batch_size zero i ts pull_tensors index cmd = ok []
  z_pull pull_batch_size (suc rounds) i ts pull_tensors index cmd =
      at pull_tensors (i * pull_batch_size + index) >>= (λ t.
        z_pull pull_batch_size rounds (i + 1) ts pull_tensors index cmd >>= (λ rest. ok (
          record {
            server = i;
            head = cmd;
            push = false;
            timestamp = ts;
            key = t.key;
            tensor = t.val;
          }
          ∷ rest)))

  -- The loop over the pushes from number `i` on.
  pub push_loop :
      (server_count : ℕ)
      → (no_pull : Bool) → (n i : ℕ) → List (KeyTensor T)
      → List ℕ
      → Result (List (Sent T))
  unfolding z_push push_flag
  push_loop server_count no_pull n i [] push_timestamps = ok []
  push_loop server_count no_pull n i (t ∷ ts) [] = fatal
  push_loop server_count no_pull n i (t ∷ ts) (stamp ∷ stamps) =
      push_loop server_count no_pull n (i + 1) ts stamps
      >>= (λ rest. ok (z_push server_count 0 stamp t.key t.val (push_flag no_pull n i) ++ rest))

  -- The loop over the pulls; `rounds` are left, from number `i` on.
  pub pull_loop :
      (server_count : ℕ)
      → (first : Bool) → (n rounds i : ℕ) → List (KeyTensor T)
      → List ℕ
      → Result (List (Sent T))
  unfolding z_pull pull_flag
  pull_loop server_count first n zero i pull_tensors pull_timestamps = ok []
  pull_loop server_count first n (suc rounds) i pull_tensors [] = fatal
  pull_loop server_count first n (suc rounds) i pull_tensors (stamp ∷ stamps) =
      z_pull n server_count 0 stamp pull_tensors i (pull_flag first n i) >>= (λ now.
        pull_loop server_count first n rounds (i + 1) pull_tensors stamps
        >>= (λ rest. ok (now ++ rest)))

  -- A batch of one tensor is sent with flag 0.
  abbrev pub send_single : (server_count : ℕ) → AfTensorRequest T → Result (List (Sent T))
  send_single server_count req = elim req.push [
    | t ∷ _ ↦ elim req.push_timestamps [
      | [] ↦ fatal
      | stamp ∷ _ ↦ ok (z_push server_count 0 stamp t.key t.val 0)
    ]
    | [] ↦ elim req.pull_timestamps [
      | [] ↦ fatal
      | stamp ∷ _ ↦ z_pull (length req.pull / server_count) server_count 0 stamp req.pull 0 0
    ]
  ]

  -- `ZBatchPushPull_`
  pub send_batch : (server_count : ℕ) → AfTensorRequest T → Result (List (Sent T))
  unfolding push_loop pull_loop
  send_batch server_count req =
      let pull_batch_size = length req.pull / server_count in
      check (leb 1 (length req.push + length req.pull))
      >> (check (ltb 0 server_count)
          >> (if (length req.push + length req.pull) == 1
              then send_single server_count req
              else (push_loop server_count (is_nil req.pull) (length req.push) 0 req.push
                    req.push_timestamps
                  >>= (λ pushes.
                      pull_loop server_count (is_nil req.push) pull_batch_size pull_batch_size 0
                        req.pull req.pull_timestamps
                      >>= (λ pulls. ok (pushes ++ pulls))))))
