-- ===== src/Postoffice/Start.antt =====
-- `Postoffice::InitEnvironment`, `Start` and `Finalize`. The van's own start and stop, the logging
-- and the barrier are separate; `Barrier.antt` has the barrier. The choice of the van is not
-- modelled, the texts of the environment are read already, and an unset variable is `none`.
use step_mesh.Prelude.{
  or_nil, ℕ, zero, suc, ◌+◌, ◌*◌, Bool, true, false, not, Option, none, some, List, [], ◌∷◌, ◌++◌,
  ◌==◌, if◌then◌else◌,
}
use step_mesh.Prelude.Int.{ℤ, negsuc, ltb_ℤ}
use step_mesh.Prelude.Result.{Result, ok, fatal, check, ◌>>◌, ◌>>=◌}
use step_mesh.Message.{is_role, Role, server, worker, scheduler, joint}
use step_mesh.Postoffice.{
  Postoffice, k_scheduler, k_server_group, k_worker_group, worker_rank_to_id, server_rank_to_id,
}

pub record Env : Type 0 where
  pub dmlc_group_size : Option ℕ
  pub dmlc_num_worker : Option ℕ
  pub dmlc_num_server : Option ℕ
  pub dmlc_role : Option Role  -- `joint` for any other text

unfoldable pub init_environment : Env → Postoffice → Result Postoffice
init_environment env po = elim env.dmlc_num_worker [
  | none ↦ fatal
  | some workers ↦ elim env.dmlc_num_server [
    | none ↦ fatal
    | some servers ↦ elim env.dmlc_role [
      | none ↦ fatal
      | some role ↦ ok (record po {
        group_size = elim env.dmlc_group_size [ none ↦ 1 | some n ↦ n ];
        num_workers = workers;
        num_servers = servers;
        is_worker = is_role role worker;
        is_server = is_role role server;
        is_scheduler = is_role role scheduler;
      })
    ]
  ]
]

unfoldable pub set_role : Role → Postoffice → Result Postoffice
set_role worker po = ok (record po { is_worker = true; is_server = false; is_scheduler = false })
set_role server po = ok (record po { is_worker = false; is_server = true; is_scheduler = false })
set_role scheduler po = ok (record po { is_worker = false; is_server = false; is_scheduler = true })
set_role joint po = fatal

abbrev pub NodeIds : Type 0
NodeIds = ℕ → Option (List ℕ)

abbrev pub ids_at : NodeIds → ℕ → List ℕ
ids_at m g = or_nil (m g)

-- node_ids_[g].push_back(id)
unfoldable pub push_id : NodeIds → ℕ → ℕ → NodeIds
push_id m g id j = if g == j then some (ids_at m g ++ id ∷ []) else m j

unfoldable pub push_groups : List ℕ → ℕ → NodeIds → NodeIds
unfolding push_id
push_groups [] id m = m
push_groups (g ∷ gs) id m = push_groups gs id (push_id m g id)

-- The loops over the workers' and the servers' instances; `rounds` are left, from rank `i` on.
unfoldable pub worker_loop : ℕ → ℕ → NodeIds → NodeIds
worker_loop zero i m = m
worker_loop (suc rounds) i m =
    let id = worker_rank_to_id i in
    worker_loop rounds (i + 1) (
      push_groups
        (id
          ∷ k_worker_group
          ∷ (k_worker_group + k_server_group)
          ∷ (k_worker_group + k_scheduler)
          ∷ (k_worker_group + k_server_group + k_scheduler)
          ∷ [])
        id m)

unfoldable pub server_loop : ℕ → ℕ → NodeIds → NodeIds
server_loop zero i m = m
server_loop (suc rounds) i m =
    let id = server_rank_to_id i in
    server_loop rounds (i + 1) (
      push_groups
        (id
          ∷ k_server_group
          ∷ (k_worker_group + k_server_group)
          ∷ (k_server_group + k_scheduler)
          ∷ (k_worker_group + k_server_group + k_scheduler)
          ∷ [])
        id m)

unfoldable pub scheduler_groups : NodeIds → NodeIds
scheduler_groups m =
    push_groups
      (k_scheduler
        ∷ (k_scheduler + k_server_group + k_worker_group)
        ∷ (k_scheduler + k_worker_group)
        ∷ (k_scheduler + k_server_group)
        ∷ [])
      k_scheduler m

unfoldable pub init_node_ids : Postoffice → NodeIds
init_node_ids po = scheduler_groups (
    server_loop (po.num_servers * po.group_size) 0
      (worker_loop (po.num_workers * po.group_size) 0 po.node_ids))

-- The part of `Start` before the van starts; it is skipped at a later call.
unfoldable pub start_init : Env → Role → ℤ → Postoffice → Result Postoffice
unfolding init_environment set_role init_node_ids
start_init env role rank po =
    check (not (ltb_ℤ rank (negsuc 0)))
    >> (let po' = record po { started = true; preferred_rank = rank } in
        if po.init_stage == 0
        then init_environment env po' >>= (λ po1.
          set_role role po1
          >>= (λ po2. ok (record po2 { node_ids = init_node_ids po2; init_stage = 1 })))
        else ok po')

-- The part after the van has started, at time `now`.
unfoldable pub start_finish : ℕ → Postoffice → Postoffice
start_finish now po =
    if po.init_stage == 1 then record po { start_time = now; init_stage = 2 } else po

-- `Finalize` after its barrier and `van_->Stop()`; the result tells whether the van was stopped
-- and the exit callback ran.
unfoldable pub finalize : ℕ → Postoffice → Postoffice × Bool
finalize customer_id po =
    if po.started
    then (if customer_id == 0
        then (
          record po {
            num_workers = 0;
            num_servers = 0;
            init_stage = 0;
            customers = [];
            node_ids = λ _. none;
            barrier_done = [];
            server_key_ranges = [];
            heartbeats = [];
          },
          true,
        )
        else (po, false))
    else (po, false)
