-- ===== src/Postoffice/Tests.antt =====
-- A job of two workers and one server, each a group of two instances.
use step_mesh.Prelude.{
  ℕ, ◌*◌, ◌/◌, ◌≤◌, ◌≡◌, refl, true, false, Option, none, some, List, [], ◌∷◌, ◌++◌, arith, ltb,
  ◌==◌, if◌then◌else◌, length,
}
use step_mesh.Prelude.Int.{negsuc}
use step_mesh.Prelude.Map.{find, insert}
use step_mesh.Prelude.Result.{ok}
use step_mesh.Message.{worker, Meta, new_meta, barrier}
use step_mesh.Postoffice.{
  k_scheduler, k_max_key, Postoffice, has_scheduler, has_servers, has_workers,
}
use step_mesh.Postoffice.Start.{Env, ids_at, init_node_ids}
use step_mesh.Postoffice.GroupLoops.{mentions}
use step_mesh.Postoffice.Groups.{only, all_workers, all_servers, init_node_ids-group}
use step_mesh.Postoffice.Customers.{inner, add_customer}
use step_mesh.Postoffice.Barrier.{release_loop, is_done, manage, is_done-manage}
use step_mesh.Postoffice.KeyRanges.{AreAdjacent, get_server_key_ranges, get_server_key_ranges_lem}
use step_mesh.Postoffice.DeadNodes.{update_heartbeat, get_dead_nodes, get_dead_nodes-alive}

abbrev nowhere : ℕ → Option (List ℕ)
nowhere k = none

abbrev job : Postoffice
job = record {
  started = true;
  is_worker = false;
  is_server = false;
  is_scheduler = true;
  num_servers = 1;
  num_workers = 2;
  group_size = 2;
  preferred_rank = negsuc 0;
  init_stage = 2;
  node_ids = nowhere;
  customers = [];
  barrier_done = [];
  server_key_ranges = [];
  heartbeats = [];
  start_time = 100;
}

init_node_ids-group_example :
    ids_at (init_node_ids job) 5
    ≡ only (has_workers 5) (all_workers job)
      ++ (only (has_servers 5) (all_servers job) ++ only (has_scheduler 5) (k_scheduler ∷ []))
init_node_ids-group_example = init_node_ids-group job 5 (λ k. refl) (omega arith) (omega arith)

abbrev env : Env
env = record {
  dmlc_group_size = some 1;
  dmlc_num_worker = some 3;
  dmlc_num_server = some 2;
  dmlc_role = some worker;
}

-- Customer 0 of application 5.
abbrev with_customer : Postoffice
with_customer = record job {
  customers = (5, (0, 77) ∷ []) ∷ [];
  barrier_done = (5, (0, false) ∷ []) ∷ [];
}

add_customer-job : add_customer 77 5 0 job ≡ ok with_customer
unfolding add_customer find insert
add_customer-job = refl

-- Customer 3 alone waits, and the scheduler answers.
abbrev waiting : Postoffice
waiting = record job { barrier_done = (0, (3, false) ∷ []) ∷ [] }

abbrev released : Postoffice
released = record job { barrier_done = (0, (3, false) ∷ (0, true) ∷ []) ∷ [] }

abbrev reply : Meta
reply = record new_meta {
  app_id = 0;
  customer_id = 3;
  control = record { cmd = barrier; node = []; barrier_group = 7; msg_sig = 0 };
}

manage-reply : manage reply waiting ≡ ok released
unfolding manage find insert release_loop
manage-reply = refl

is_done-manage_example :
    is_done 3 released
    ≡ (if ltb 3 (length (inner 0 waiting.barrier_done)) then true else is_done 3 waiting)
is_done-manage_example = is_done-manage reply waiting released 3 refl refl refl manage-reply

-- The answer is for customer 3, which still waits.
is_done-released : is_done 3 released ≡ false
unfolding is_done find
is_done-released = refl

get_server_key_ranges_lem_example :
    let ranges = (get_server_key_ranges job).1 in
    (length ranges ≡ 1) × AreAdjacent 0 ranges (k_max_key / 1 * 1) × (k_max_key / 1 * 1 ≤ k_max_key)
get_server_key_ranges_lem_example = get_server_key_ranges_lem job refl

abbrev table : ℕ → Option (List ℕ)
table k = if k == 6 then some (9 ∷ 8 ∷ []) else none

abbrev running : Postoffice
running = record job { node_ids = table }

get_dead_nodes-running : get_dead_nodes true 10 200 (update_heartbeat 9 195 running) ≡ ok (8 ∷ [])
unfolding get_dead_nodes update_heartbeat find insert
get_dead_nodes-running = refl

get_dead_nodes-alive_example : mentions (8 ∷ []) 9 ≡ false
get_dead_nodes-alive_example =
    get_dead_nodes-alive running 9 195 10 200 (8 ∷ []) get_dead_nodes-running (omega arith)
