-- ===== src/Customer/Tests.antt =====
-- A request to two servers, of which one has nothing to do.
use step_mesh.Prelude.{
  ℕ, ◌≡◌, refl, true, false, Option, none, some, List, [], ◌∷◌, arith, ◌==◌, if◌then◌else◌,
}
use step_mesh.Prelude.Int.{negsuc}
use step_mesh.Prelude.Result.{ok}
use step_mesh.Message.{Meta, new_meta}
use step_mesh.Postoffice.{Postoffice, k_server_group}
use step_mesh.Customer.{
  Tracker, push_tracker, new_request, num_response, k_max_spin_count, wait_loop,
}
use step_mesh.Customer.Tracking.{Call, ask, credit, receive, run_calls, responses, IsTracked}
use step_mesh.Customer.Requests.{new_request-responses}
use step_mesh.Customer.Waiting.{wait_loop-returns}

abbrev table : ℕ → Option (List ℕ)
table k = if k == 2 then some (8 ∷ 10 ∷ []) else none

abbrev job : Postoffice
job = record {
  started = true;
  is_worker = true;
  is_server = false;
  is_scheduler = false;
  num_servers = 2;
  num_workers = 1;
  group_size = 1;
  preferred_rank = negsuc 0;
  init_stage = 2;
  node_ids = table;
  customers = [];
  barrier_done = [];
  server_key_ranges = [];
  heartbeats = [];
  start_time = 0;
}

abbrev reply : Meta
reply = record new_meta { timestamp = 0; request = false }

-- Another request is made in between.
abbrev calls : List Call
calls = credit 0 1 ∷ ask 2 60 ∷ receive reply ∷ []

asked : new_request job k_server_group 50 [] ≡ ok (push_tracker 2 50 [], 0)
unfolding new_request
asked = refl

abbrev finished : Tracker
finished =
    record { count = 2; response_count = 2; response_count_cache = 1; start_time = 50 }
    ∷ record { count = 2; response_count = 0; response_count_cache = 0; start_time = 60 }
    ∷ []

ran : run_calls calls (push_tracker 2 50 []) ≡ ok finished
unfolding run_calls
ran = refl

abbrev first : ℕ
first = 0

new_request-responses_example :
    (first ≡ 0) × IsTracked finished 0 2 (responses 0 calls) × (num_response 0 finished ≡ ok 2)
new_request-responses_example =
    new_request-responses job 50 2 0 calls [] (push_tracker 2 50 []) finished (8 ∷ 10 ∷ []) refl
      refl asked (refl, tt) ran

wait_loop-returns_example :
    wait_loop 2 50 1000 k_max_spin_count ((0, 60) ∷ (1, 70) ∷ (2, 80) ∷ []) ≡ some (ok tt)
wait_loop-returns_example =
    wait_loop-returns 2 50 1000 k_max_spin_count ((0, 60) ∷ (1, 70) ∷ []) 80 []
      (omega arith, omega arith, omega arith, (omega arith, omega arith, omega arith, tt))
