-- ===== src/Postoffice.antt =====
-- `Postoffice` (include/ps/internal/postoffice.h and src/postoffice.cc): the ids of nodes and
-- groups, the node table that `Start` builds, customers, barriers, key ranges and heartbeats. A
-- customer is known by its address, a number. Maps that the code only looks up are functions.
pub mod Rank
pub mod Start
pub mod GroupLoops
pub mod Groups
pub mod Restart
pub mod Customers
pub mod Barrier
pub mod KeyRanges
pub mod DeadNodes
mod Tests
use step_mesh.Prelude.{
  ℕ, zero, suc, ◌+◌, ◌-◌, ◌*◌, ◌/◌, ◌%◌, ◌^◌, ◌≤◌, ◌<◌, ◌≡◌, refl, sym, ap, ◌∙◌, ◌≢◌, ◌↔◌, ◌⊎◌, inl,
  inr, Bool, true, false, not, ◌&&◌, ◌||◌, Option, none, some, List, [], ◌∷◌, ◌++◌, map, arith, ltb,
  leb, ◌==◌, if◌then◌else◌, Bool-cases, Option-cases, length, get_elem?, set, take, drop, replicate,
  get_or, length-append, length-set,
}
use step_mesh.Prelude.Int.{ℤ}
use step_mesh.Prelude.Map.{Map}
use step_mesh.Prelude.Result.{Result, ok, fatal}

-- include/ps/base.h
abbrev pub k_scheduler : ℕ
k_scheduler = 1

abbrev pub k_server_group : ℕ
k_server_group = 2

abbrev pub k_worker_group : ℕ
k_worker_group = 4

abbrev pub k_max_key : ℕ
k_max_key = 2 ^ 64 - 1

-- include/ps/range.h; `size` wraps in `uint64_t`.
pub record Range : Type 0 where
  pub begin : ℕ
  pub end : ℕ

abbrev pub range_size : Range → ℕ
range_size r = (r.end + 2 ^ 64 - r.begin) % 2 ^ 64

pub record Postoffice : Type 0 where
  pub started : Bool
  pub is_worker : Bool
  pub is_server : Bool
  pub is_scheduler : Bool
  pub num_servers : ℕ
  pub num_workers : ℕ
  pub group_size : ℕ
  pub preferred_rank : ℤ
  pub init_stage : ℕ
  pub node_ids : ℕ → Option (List ℕ)
  pub customers : Map (Map ℕ)
  pub barrier_done : Map (Map Bool)
  pub server_key_ranges : List Range
  pub heartbeats : Map ℕ
  pub start_time : ℕ

-- The rank and id conversions. Ranks and ids are small: no `int` overflows.
unfoldable pub worker_rank_to_id : ℕ → ℕ
worker_rank_to_id rank = rank * 2 + 9

unfoldable pub server_rank_to_id : ℕ → ℕ
server_rank_to_id rank = rank * 2 + 8

-- `max((id - 8) / 2, 0)`: below 8 the quotient is at most 0, as with truncated subtraction.
unfoldable pub id_to_rank : ℕ → ℕ
id_to_rank id = (id - 8) / 2

unfoldable pub group_worker_rank_to_instance_id : Postoffice → ℕ → ℕ → ℕ
unfolding worker_rank_to_id
group_worker_rank_to_instance_id po rank instance_idx =
    worker_rank_to_id (rank * po.group_size + instance_idx)

unfoldable pub group_server_rank_to_instance_id : Postoffice → ℕ → ℕ → ℕ
unfolding server_rank_to_id
group_server_rank_to_instance_id po rank instance_idx =
    server_rank_to_id (rank * po.group_size + instance_idx)

-- Start has seen to it that `group_size_` is not 0; a division by 0 stops the process.
unfoldable pub instance_id_to_group_rank : Postoffice → ℕ → Result ℕ
unfolding id_to_rank
instance_id_to_group_rank po id =
    if po.group_size == 0 then fatal else ok (id_to_rank id / po.group_size)

unfoldable pub get_node_ids : Postoffice → ℕ → Result (List ℕ)
get_node_ids po node_id = elim (po.node_ids node_id) [ none ↦ fatal | some ids ↦ ok ids ]

-- `node_group & kScheduler` and the like, for a group below 8.
abbrev pub has_scheduler : ℕ → Bool
has_scheduler group = (group % 2) == 1

abbrev pub has_servers : ℕ → Bool
has_servers group = (group / 2 % 2) == 1

abbrev pub has_workers : ℕ → Bool
has_workers group = (group / 4 % 2) == 1
