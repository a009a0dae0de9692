-- ===== src/Van.antt =====
-- `Van`'s part in barriers (src/van.cc): `ProcessInstanceBarrierCommand` and
-- `ProcessBarrierCommand`, with `Postoffice::Manage` for the answers. The transport sends what it is
-- given; `shared` says which ids `shared_node_mapping_` has.
pub mod Answers
pub mod Instance
pub mod Group
pub mod Order
pub mod Registration
pub mod AddNode
pub mod Ranks
pub mod Complete
pub mod Recovery
pub mod Dispatch
pub mod Once
mod Tests
mod NodeTests
use step_mesh.Prelude.{
  or_nil, ℕ, zero, suc, ◌+◌, ◌-◌, ◌*◌, ◌/◌, ◌%◌, ◌^◌, ◌≤◌, ◌<◌, ◌≡◌, refl, sym, ap, ◌∙◌, ◌≢◌, ◌↔◌,
  ◌⊎◌, inl, inr, Bool, true, false, not, ◌&&◌, ◌||◌, Option, none, some, List, [], ◌∷◌, ◌++◌, map,
  arith, ltb, leb, ◌==◌, if◌then◌else◌, Bool-cases, Option-cases, length, get_elem?, set, take,
  drop, replicate, get_or, length-append, length-set, length-drop, length-take, take-append-drop,
  length-map, length-replicate, ==_iff,
}
use step_mesh.Prelude.Map.{Map, find, insert}
use step_mesh.Prelude.Result.{Result, ok, fatal, check, ◌>>◌, ◌>>=◌}
use step_mesh.Message.{Meta, Command, new_meta, barrier, instance_barrier}
use step_mesh.Postoffice.{Postoffice, k_scheduler, get_node_ids, has_scheduler}
use step_mesh.Postoffice.Barrier.{manage}

pub record Van : Type 0 where
  pub barrier_count : List ℕ
  pub group_barrier_requests : Map (List ℕ)
  pub timestamp : ℕ

-- The answer to node `recver`.
abbrev pub answer : Command → Meta → (recver timestamp : ℕ) → Meta
answer cmd msg recver timestamp = record new_meta {
  request = false;
  app_id = msg.app_id;
  customer_id = msg.customer_id;
  recver = recver;
  timestamp = timestamp;
  control = record { cmd = cmd; node = []; barrier_group = 0; msg_sig = 0 };
}

-- The loop over the receivers; each answer takes a timestamp.
pub answers : (ℕ → Bool) → Command → Meta → (timestamp : ℕ) → List ℕ → List Meta
answers shared cmd msg timestamp [] = []
answers shared cmd msg timestamp (r ∷ ids) =
    if shared r
    then answers shared cmd msg timestamp ids
    else answer cmd msg r timestamp ∷ answers shared cmd msg (timestamp + 1) ids

-- The counts, made at the first request.
abbrev pub counts : List ℕ → List ℕ
counts [] = replicate 8 0
counts (c ∷ cs) = c ∷ cs

-- ++barrier_count_[group], and the test of the new count against the number of nodes; an index past
-- the counts is `fatal`.
pub count_request : (ℕ → Bool) → Van → Meta → (ids : List ℕ) → Option ℕ → Result (Van × List Meta)
count_request shared van msg ids none = fatal
count_request shared van msg ids (some c) =
    let group = msg.control.barrier_group in
    let all = counts van.barrier_count in
    if (c + 1) == length ids
    then (let sent = answers shared instance_barrier msg van.timestamp ids in
        ok (
          record van { barrier_count = set all group 0; timestamp = van.timestamp + length sent },
          sent,
        ))
    else ok (record van { barrier_count = set all group (c + 1) }, [])

-- An answer goes to the postoffice and leaves the van alone.
pub process_instance_barrier :
    (ℕ → Bool) → Postoffice → Van → Meta → Result (Postoffice × Van × List Meta)
unfolding answers count_request get_node_ids manage
process_instance_barrier shared po van msg =
    if msg.request
    then (get_node_ids po msg.control.barrier_group >>= (λ ids.
        count_request shared van msg ids
          (get_elem? (counts van.barrier_count) msg.control.barrier_group)
        >>= (λ r. ok (po, r.0, r.1))))
    else (manage msg po >>= (λ po'. ok (po', van, [])))

-- How many requests complete a barrier of the groups.
pub num_expected_requests : (node_group num_instances group_size : ℕ) → ℕ
num_expected_requests node_group num_instances group_size =
    if node_group == k_scheduler
    then 1
    else (if has_scheduler node_group
        then (num_instances - 1) / group_size + 1
        else num_instances / group_size)

-- `group_barrier_requests_[node_group]`
abbrev pub requests_of : Van → ℕ → List ℕ
requests_of van node_group = or_nil (find node_group van.group_barrier_requests)

pub group_request : (ℕ → Bool) → (group_size : ℕ) → Van → Meta → (ids : List ℕ) → Van × List Meta
unfolding answers num_expected_requests
group_request shared group_size van msg ids =
    let node_group = msg.control.barrier_group in
    let requests = requests_of van node_group ++ msg.sender ∷ [] in
    if length requests == num_expected_requests node_group (length ids) group_size
    then (let sent = answers shared barrier msg van.timestamp requests in
        (
          record van {
            group_barrier_requests = insert node_group [] van.group_barrier_requests;
            timestamp = van.timestamp + length sent;
          },
          sent,
        ))
    else (
      record van { group_barrier_requests = insert node_group requests van.group_barrier_requests },
      [],
    )

-- With a group size of 0 the divisions stop the process.
pub process_barrier : (ℕ → Bool) → Postoffice → Van → Meta → Result (Postoffice × Van × List Meta)
unfolding group_request get_node_ids manage
process_barrier shared po van msg =
    if msg.request
    then (get_node_ids po msg.control.barrier_group >>= (λ ids.
        check (not (po.group_size == 0) || (msg.control.barrier_group == k_scheduler))
        >> (let r = group_request shared po.group_size van msg ids in ok (po, r.0, r.1))))
    else (manage msg po >>= (λ po'. ok (po', van, [])))

-- Several requests one after the other.
pub process_all :
    (Van → Meta → Result (Postoffice × Van × List Meta))
    → Van
    → List Meta
    → Result (Van × List Meta)
process_all handler van [] = ok (van, [])
process_all handler van (m ∷ ms) =
    handler van m
    >>= (λ now. process_all handler now.1 ms >>= (λ later. ok (later.0, now.2 ++ later.1)))
