-- ===== src/Postoffice/Groups.antt =====
-- The table of node groups that `Start` builds.
use mathlib.Core.List.{append_assoc, append-nil}
use step_mesh.Prelude.{
  or_nil, ℕ, ◌*◌, ◌<◌, ◌≡◌, ap, ◌∙◌, Bool, ◌||◌, none, some, List, [], ◌∷◌, ◌++◌, arith,
  if◌then◌else◌,
}
use step_mesh.Postoffice.{
  ok, get_node_ids, Postoffice, k_scheduler, has_scheduler, has_servers, has_workers,
}
use step_mesh.Postoffice.Start.{NodeIds, ids_at, worker_loop, server_loop, init_node_ids}
use step_mesh.Postoffice.GroupLoops.{
  worker_ids, server_ids, mentions, worker_loop-group, worker_loop-own, server_loop-group,
  server_loop-own, scheduler_groups-group, mentions-scheduler_groups, worker_ids-odd,
  server_ids-even,
}

abbrev pub only : Bool → List ℕ → List ℕ
only b l = if b then l else []

-- Every instance of the job.
abbrev pub all_workers : Postoffice → List ℕ
all_workers po = worker_ids 0 (po.num_workers * po.group_size)

abbrev pub all_servers : Postoffice → List ℕ
all_servers po = server_ids 0 (po.num_servers * po.group_size)

-- From an empty table, `Start` lists under each of the seven combinations of kScheduler,
-- kServerGroup and kWorkerGroup exactly the nodes of the roles whose bit is set: the workers'
-- instances by rank, then the servers', then the scheduler.
pub init_node_ids-group :
    (po : Postoffice) (g : ℕ)
    → ((k : ℕ) → po.node_ids k ≡ none)
    → 0 < g
    → g < 8
    → ids_at (init_node_ids po) g
      ≡ only (has_workers g) (all_workers po)
        ++ (only (has_servers g) (all_servers po) ++ only (has_scheduler g) (k_scheduler ∷ []))
unfolding init_node_ids
init_node_ids-group po g fresh pos lt =
    let m1 : NodeIds = worker_loop (po.num_workers * po.group_size) 0 po.node_ids in
    let m2 : NodeIds = server_loop (po.num_servers * po.group_size) 0 m1 in
    scheduler_groups-group m2 g
    ∙ ground (
      arith,
      mentions-scheduler_groups g lt,
      server_loop-group (po.num_servers * po.group_size) 0 m1 g lt,
      worker_loop-group (po.num_workers * po.group_size) 0 po.node_ids g lt,
      ap or_nil (fresh g),
      append_assoc (all_workers po) (all_servers po) (k_scheduler ∷ []),
      append-nil (all_workers po),
      append-nil (all_servers po),
    )

-- From an empty table, under the id of a single node `Start` lists that node alone: an instance of
-- the job, of either role; other ids from 8 on have no entry.
pub init_node_ids-own :
    (po : Postoffice) (k : ℕ)
    → ((j : ℕ) → po.node_ids j ≡ none)
    → 7 < k
    → ids_at (init_node_ids po) k
      ≡ only (mentions (all_workers po) k || mentions (all_servers po) k) (k ∷ [])
unfolding init_node_ids
init_node_ids-own po k fresh lt =
    let m1 : NodeIds = worker_loop (po.num_workers * po.group_size) 0 po.node_ids in
    let m2 : NodeIds = server_loop (po.num_servers * po.group_size) 0 m1 in
    scheduler_groups-group m2 k
    ∙ ground (
      arith,
      server_loop-own (po.num_servers * po.group_size) 0 k m1 lt,
      worker_loop-own (po.num_workers * po.group_size) 0 k po.node_ids lt,
      ap or_nil (fresh k),
      worker_ids-odd (po.num_workers * po.group_size) 0 k,
      server_ids-even (po.num_servers * po.group_size) 0 k,
    )

pub get_node_ids-found :
    (po : Postoffice) (g : ℕ) (ids : List ℕ) → po.node_ids g ≡ some ids → get_node_ids po g ≡ ok ids
unfolding get_node_ids
get_node_ids-found po g ids e = rw (e, get_node_ids)
