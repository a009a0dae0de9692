-- ===== src/Customer.antt =====
-- `Customer` (src/customer.cc): the tracker of requests and responses. Traces and the unused queue
-- and thread are left out. `fatal` is a failed check, and also a timestamp that is no request's,
-- which the code does not check.
pub mod Tracking
pub mod Requests
pub mod Waiting
mod Tests
use step_mesh.Prelude.{
  ℕ, zero, suc, ◌+◌, ◌-◌, ◌*◌, ◌/◌, ◌%◌, ◌^◌, ◌≤◌, ◌<◌, ◌≡◌, refl, sym, ap, ◌∙◌, ◌≢◌, ◌↔◌, ◌⊎◌, inl,
  inr, Bool, true, false, not, ◌&&◌, ◌||◌, Option, none, some, List, [], ◌∷◌, ◌++◌, map, arith, ltb,
  leb, ◌==◌, if◌then◌else◌, Bool-cases, Option-cases, length, get_elem?, set, take, drop, replicate,
  get_or, length-append, length-set, length-drop, length-take, take-append-drop, length-map,
  length-replicate, ==_iff,
}
use step_mesh.Prelude.Result.{Result, ok, fatal, check, ◌>>◌, ◌>>=◌}
use step_mesh.Message.{Meta, terminate, is_cmd, control_empty}
use step_mesh.Postoffice.{Postoffice, k_server_group, get_node_ids}

pub record CustomerTracker : Type 0 where
  pub count : ℕ
  pub response_count : ℕ
  pub response_count_cache : ℕ
  pub start_time : ℕ

abbrev pub Tracker : Type 0
Tracker = List CustomerTracker

-- `num` servers will respond.
abbrev pub push_tracker : (num now : ℕ) → Tracker → Tracker
push_tracker num now tracker =
    tracker
    ++ record { count = num; response_count = 0; response_count_cache = 0; start_time = now } ∷ []

-- The tracker with the new request, and its timestamp. With a group size of 0 the division stops
-- the process.
unfoldable pub new_request : Postoffice → (recver now : ℕ) → Tracker → Result (Tracker × ℕ)
unfolding get_node_ids
new_request po recver now tracker =
    check (recver == k_server_group)
    >> (get_node_ids po recver >>= (λ ids.
        check (not (po.group_size == 0))
        >> (let tracker' = push_tracker (length ids / po.group_size) now tracker in
            ok (tracker', length tracker' - 1))))

unfoldable pub num_response : ℕ → Tracker → Result ℕ
num_response timestamp tracker = elim (get_elem? tracker timestamp) [
  | none ↦ fatal
  | some t ↦ ok t.count
]

abbrev pub bump : Tracker → (timestamp num : ℕ) → Option CustomerTracker → Result Tracker
bump tracker timestamp num none = fatal
bump tracker timestamp num (some t) =
    ok (set tracker timestamp (record t { response_count = t.response_count + num }))

unfoldable pub add_response : (timestamp num : ℕ) → Tracker → Result Tracker
add_response timestamp num tracker = bump tracker timestamp num (get_elem? tracker timestamp)

abbrev pub bump_both : Tracker → (timestamp : ℕ) → Option CustomerTracker → Result Tracker
bump_both tracker timestamp none = fatal
bump_both tracker timestamp (some t) = ok (
    set tracker timestamp (record t {
      response_count = t.response_count + 1;
      response_count_cache = t.response_count_cache + 1;
    }))

-- A message is handed to the handle, which may use the tracker, and a response is then counted.
pub direct_process :
    (recv_handle : Meta → Tracker → Result Tracker) → Meta → Tracker → Result Tracker
direct_process recv_handle recv tracker =
    if not (control_empty recv.control) && is_cmd recv.control.cmd terminate
    then ok tracker
    else (recv_handle recv tracker >>= (λ tracker'.
        if recv.request
        then ok tracker'
        else bump_both tracker' recv.timestamp (get_elem? tracker' recv.timestamp)))

abbrev pub k_max_spin_count : ℕ
k_max_spin_count = 10000

-- The loop of `WaitRequest` for a request of `count` responses that started at `start_time`. The
-- list has what successive rounds read: the response count, and the time. `none`: it still waits.
-- `now - start_time` on uint64_t.
abbrev pub elapsed : (now start_time : ℕ) → ℕ
elapsed now start_time = (now + (2 ^ 64 - start_time)) % 2 ^ 64

unfoldable pub wait_loop :
    (count start_time timeout_ns spin_count : ℕ) → List (ℕ × ℕ) → Option (Result (Unit {0}))
wait_loop count start_time timeout_ns spin_count [] = none
wait_loop count start_time timeout_ns spin_count ((responses, now) ∷ rounds) =
    let spun = wait_loop count start_time timeout_ns (spin_count + 1) rounds in
    let paused = wait_loop count start_time timeout_ns spin_count rounds in
    if count == responses
    then some (ok tt)
    else (if ltb spin_count k_max_spin_count
        then spun
        else (if ltb timeout_ns (elapsed now start_time) then some fatal else paused))

unfoldable pub wait_request :
    (timestamp timeout_ms : ℕ) → Tracker → List (ℕ × ℕ) → Option (Result (Unit {0}))
unfolding wait_loop
wait_request timestamp timeout_ms tracker rounds = elim (get_elem? tracker timestamp) [
  | none ↦ some fatal
  | some t ↦ wait_loop t.count t.start_time (timeout_ms * 1000000 % 2 ^ 64) 0 rounds
]
