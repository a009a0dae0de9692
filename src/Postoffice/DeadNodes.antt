-- ===== src/Postoffice/DeadNodes.antt =====
-- `UpdateHeartbeat` and `GetDeadNodes`. Times are in seconds and do not overflow `time_t`.
use step_mesh.Prelude.{
  ℕ, ◌+◌, ◌≤◌, ◌<◌, ◌≡◌, refl, ap, inl, inr, Bool, true, false, not, ◌&&◌, ◌||◌, Option, none, some,
  List, [], ◌∷◌, arith, ltb, ◌==◌, if◌then◌else◌, Bool-cases, ==_iff,
}
use step_mesh.Prelude.Map.{Map, find, insert, find-insert}
use step_mesh.Prelude.Result.{Result, ok, fatal, ◌>>=◌}
use step_mesh.Postoffice.{Postoffice, k_scheduler, k_server_group, k_worker_group, get_node_ids}
use step_mesh.Postoffice.GroupLoops.{mentions}

unfoldable pub update_heartbeat : (node_id t : ℕ) → Postoffice → Postoffice
update_heartbeat node_id t po = record po { heartbeats = insert node_id t po.heartbeats }

-- it == heartbeats_.end() || it->second + t < curr_time
abbrev pub is_late : (t curr_time : ℕ) → Option ℕ → Bool
is_late t curr_time none = true
is_late t curr_time (some last) = ltb (last + t) curr_time

pub dead_loop : (t curr_time start_time : ℕ) → Map ℕ → List ℕ → List ℕ
dead_loop t curr_time start_time heartbeats [] = []
dead_loop t curr_time start_time heartbeats (r ∷ nodes) =
    let rest = dead_loop t curr_time start_time heartbeats nodes in
    if is_late t curr_time (find r heartbeats) && ltb (start_time + t) curr_time
    then r ∷ rest
    else rest

unfoldable pub get_dead_nodes : (is_ready : Bool) (t curr_time : ℕ) → Postoffice → Result (List ℕ)
unfolding get_node_ids dead_loop
get_dead_nodes is_ready t curr_time po =
    if not is_ready || (t == 0)
    then ok []
    else (get_node_ids po (if po.is_scheduler then k_worker_group + k_server_group else k_scheduler)
        >>= (λ nodes. ok (dead_loop t curr_time po.start_time po.heartbeats nodes)))

-- The loop keeps exactly the nodes that are late, once the system has run for longer than `t`.
pub mentions-dead_loop :
    (t curr_time start_time : ℕ) (heartbeats : Map ℕ) (nodes : List ℕ) (r : ℕ)
    → mentions (dead_loop t curr_time start_time heartbeats nodes) r ≡ (
        mentions nodes r
        && (is_late t curr_time (find r heartbeats) && ltb (start_time + t) curr_time))
unfolding dead_loop
mentions-dead_loop t curr_time start_time heartbeats [] r = refl
mentions-dead_loop t curr_time start_time heartbeats (n ∷ nodes) r =
    let ih = mentions-dead_loop t curr_time start_time heartbeats nodes r in
    elim (Bool-cases (n == r)) [
      | inl e ↦
          let same : find n heartbeats ≡ find r heartbeats =
            ap (λ k. find k heartbeats) ((==_iff n r).0 e) in
          ground (arith, ih, same)
      | inr e ↦ ground (arith, ih)
    ]

dead_loop-alive :
    (node now t curr_time start_time : ℕ) (heartbeats : Map ℕ) (nodes : Result (List ℕ))
    (dead : List ℕ)
    → (nodes >>= (λ ns. ok (dead_loop t curr_time start_time (insert node now heartbeats) ns)))
      ≡ ok dead
    → curr_time ≤ now + t
    → mentions dead node ≡ false
dead_loop-alive node now t curr_time start_time heartbeats (ok ns) dead e le = ground (
  arith,
  mentions-dead_loop t curr_time start_time (insert node now heartbeats) ns node,
  find-insert node node now heartbeats,
)
dead_loop-alive node now t curr_time start_time heartbeats fatal dead e le = cc

-- A node that reported at time `now` is not called dead before `t` seconds have passed, whatever
-- node the caller is.
pub get_dead_nodes-alive :
    (po : Postoffice) (node now t curr_time : ℕ) (dead : List ℕ)
    → get_dead_nodes true t curr_time (update_heartbeat node now po) ≡ ok dead
    → curr_time ≤ now + t
    → mentions dead node ≡ false
unfolding get_dead_nodes update_heartbeat
get_dead_nodes-alive po node now t curr_time dead e le = elim (Bool-cases (t == 0)) [
  | inl never ↦ ground arith
  | inr asked ↦
      let po' : Postoffice = update_heartbeat node now po in
      dead_loop-alive node now t curr_time po.start_time po.heartbeats
        (get_node_ids po'
          (if po.is_scheduler then k_worker_group + k_server_group else k_scheduler))
        dead (rw asked at e) le
]

-- When a node of the scheduler's table last reported more than `t` seconds before, and the system
-- has run for longer than `t`, the scheduler calls it dead.
pub get_dead_nodes-late :
    (po : Postoffice) (node now t curr_time : ℕ) (nodes : List ℕ)
    → po.is_scheduler ≡ true
    → po.node_ids (k_worker_group + k_server_group) ≡ some nodes
    → 0 < t
    → mentions nodes node ≡ true
    → now + t < curr_time
    → po.start_time + t < curr_time
    → (dead : List ℕ) × (get_dead_nodes true t curr_time (update_heartbeat node now po) ≡ ok dead)
      × (mentions dead node ≡ true)
unfolding get_dead_nodes update_heartbeat get_node_ids
get_dead_nodes-late po node now t curr_time nodes sched table pos listed late old = (
  dead_loop t curr_time po.start_time (insert node now po.heartbeats) nodes,
  ground (arith, table),
  ground (
    arith,
    mentions-dead_loop t curr_time po.start_time (insert node now po.heartbeats) nodes node,
    find-insert node node now po.heartbeats,
  ),
)
