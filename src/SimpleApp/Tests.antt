-- ===== src/SimpleApp/Tests.antt =====
-- A job with one group of two server instances.
use step_mesh.Prelude.{
  ℕ, ◌≡◌, ◌≢◌, refl, true, false, Option, none, some, List, [], ◌∷◌, arith, ◌==◌, if◌then◌else◌,
  map,
}
use step_mesh.Prelude.Int.{pos, negsuc}
use step_mesh.Prelude.Result.{ok}
use step_mesh.Message.{Meta}
use step_mesh.Postoffice.{Postoffice}
use step_mesh.Customer.{Tracker, wait_request}
use step_mesh.Customer.Tracking.{IsTracked}
use step_mesh.SimpleApp.{request, request_message, process, default_answers, response}
use step_mesh.SimpleApp.Group.{request-overshoots}

abbrev table : ℕ → Option (List ℕ)
table group = if group == 2 then some (8 ∷ 10 ∷ []) else none

abbrev job : Postoffice
job = record {
  started = true;
  is_worker = true;
  is_server = false;
  is_scheduler = false;
  num_servers = 1;
  num_workers = 1;
  group_size = 2;
  preferred_rank = negsuc 0;
  init_stage = 2;
  node_ids = table;
  customers = [];
  barrier_done = [];
  server_key_ranges = [];
  heartbeats = [];
  start_time = 0;
}

abbrev tracker : Tracker
tracker = record { count = 1; response_count = 0; response_count_cache = 0; start_time = 3 } ∷ []

abbrev hello : ℕ → Meta
hello recver = request_message 0 0 0 (pos 1) (104 ∷ 105 ∷ []) recver

request-hello :
    request job 0 0 3 (pos 1) (104 ∷ 105 ∷ []) 2 [] ≡ ok (tracker, 0, hello 8 ∷ hello 10 ∷ [])
unfolding request
request-hello = refl

default_answers-hello :
    default_answers 0 (process (record (hello 8) { sender = 9 }))
    ≡ response 0 (process (record (hello 8) { sender = 9 })).1 [] ∷ []
unfolding default_answers process
default_answers-hello = refl

request-overshoots_example :
    (map (λ m. m.recver) (hello 8 ∷ hello 10 ∷ []) ≡ 8 ∷ 10 ∷ [])
    × IsTracked tracker 0 1 0
    × (wait_request 0 1 tracker ((2, 4) ∷ (2, 9000000) ∷ []) ≢ some (ok tt))
request-overshoots_example =
    request-overshoots job 0 0 3 (pos 1) (104 ∷ 105 ∷ []) [] tracker 0 (hello 8 ∷ hello 10 ∷ [])
      (8 ∷ 10 ∷ []) refl request-hello 1 ((2, 4) ∷ (2, 9000000) ∷ []) (omega arith) (omega arith)
      (omega arith, (omega arith, tt))
