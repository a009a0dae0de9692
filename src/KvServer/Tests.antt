-- ===== src/KvServer/Tests.antt =====
-- A pull of one key from the second instance of worker group 1.
use step_mesh.KvServer.Store.{default_handle_refines, sums, run_all, Agree}
use step_mesh.KvServer.Handle.{value_of, default_handle}
use step_mesh.Prelude.{◌+◌, Bool, ℕ, ◌≡◌, refl, true, false, Option, none, List, [], ◌∷◌, arith}
use step_mesh.Prelude.Int.{pos, negsuc}
use step_mesh.Prelude.Result.{ok}
use step_mesh.Message.{Meta, new_meta}
use step_mesh.Postoffice.{Postoffice, group_worker_rank_to_instance_id}
use step_mesh.Slicer.{KvPairs, no_pairs}
use step_mesh.KvServer.{KvMeta, process, response}
use step_mesh.KvServer.Reply.{response-process}

abbrev nowhere : ℕ → Option (List ℕ)
nowhere k = none

abbrev job : Postoffice
job = record {
  started = true;
  is_worker = false;
  is_server = true;
  is_scheduler = false;
  num_servers = 2;
  num_workers = 2;
  group_size = 2;
  preferred_rank = negsuc 0;
  init_stage = 2;
  node_ids = nowhere;
  customers = [];
  barrier_done = [];
  server_key_ranges = [];
  heartbeats = [];
  start_time = 0;
}

abbrev request : Meta
request = record new_meta { sender = 15; timestamp = 6; customer_id = 0; key = 40; request = true }

abbrev received : KvMeta
received = record {
  cmd = pos 32767;
  push = false;
  sender = 11;
  timestamp = 6;
  customer_id = 0;
  key = 40;
  addr = 0;
  val_len = pos 0;
  option = pos 0;
  is_tensor = 0;
  dtype = 0;
  shape = [];
}

from_worker : 15 ≡ group_worker_rank_to_instance_id job 1 1
unfolding group_worker_rank_to_instance_id
from_worker = refl

process-request : process {V = ℕ} job request [] ≡ ok (received, no_pairs ℕ)
unfolding process
process-request = refl

abbrev answer : KvPairs ℕ
answer = record { keys = 40 ∷ []; vals = 1 ∷ 2 ∷ []; lens = 2 ∷ [] }

response-process_example :
    let back = (response job 0 1 received answer).0 in
    (back.recver ≡ 15)
    × (back.request ≡ false)
    × (back.timestamp ≡ 6)
    × (back.customer_id ≡ 0)
    × (back.key ≡ 40)
    × (back.push ≡ false)
    × (back.head ≡ pos 32767)
response-process_example =
    response-process job request [] answer received (no_pairs ℕ) 0 1 1 (omega arith) from_worker
      process-request

abbrev push_of : Bool → KvMeta
push_of push = record received { push = push }

-- Two pushes to key 1, one of them twice, and a pull of it and of a key that was not pushed.
abbrev history : List (KvMeta × KvPairs ℕ)
history =
    (push_of true, record { keys = 1 ∷ 2 ∷ 1 ∷ []; vals = 10 ∷ 20 ∷ 5 ∷ []; lens = [] })
    ∷ (push_of true, record { keys = 1 ∷ []; vals = 100 ∷ []; lens = [] })
    ∷ (push_of false, record { keys = 1 ∷ 3 ∷ []; vals = []; lens = [] })
    ∷ []

history-answers :
    run_all (default_handle 0 (λ a b. a + b)) history []
    ≡ ok (
      (1, 115) ∷ (2, 20) ∷ (3, 0) ∷ [],
      no_pairs ℕ ∷ no_pairs ℕ ∷ record { keys = 1 ∷ 3 ∷ []; vals = 115 ∷ 0 ∷ []; lens = [] } ∷ [],
    )
unfolding default_handle
history-answers = refl

default_handle_refines_example :
    Agree 0
      (λ a b. a + b)
      (run_all (default_handle 0 (λ a b. a + b)) history [])
      (run_all (sums 0 (λ a b. a + b)) history (value_of 0 (λ a b. a + b) []))
default_handle_refines_example = default_handle_refines 0 (λ a b. a + b) history []
