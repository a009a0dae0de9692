-- ===== src/KvWorker/Tests.antt =====
-- A worker of a job with two servers.
use step_mesh.KvWorker.Answers.{receive_all-never_runs, receive_all}
use step_mesh.KvWorker.Lost.{fill-lost}
use step_mesh.KvWorker.Fill.{fill-joined}
use step_mesh.Customer.Tracking.{Call, run_calls, IsTracked}
use step_mesh.KvWorker.Slices.{IsSliceable}
use step_mesh.KvWorker.Push.{z_push-completes, z_push-delivers, IsPushed, IsConnected}
use step_mesh.Prelude.{
  ℕ, ◌==◌, ◌≡◌, refl, inl, inr, true, false, Option, none, some, List, [], ◌∷◌, arith,
  if◌then◌else◌,
}
use step_mesh.Prelude.Int.{pos, negsuc}
use step_mesh.Prelude.Result.{ok, fatal}
use step_mesh.Prelude.Sort.{Permutes}
use step_mesh.Message.{Meta, new_meta}
use step_mesh.Postoffice.{Postoffice}
use step_mesh.Slicer.{KvPairs}
use step_mesh.Customer.{Tracker}
use step_mesh.KvServer.{of_keys, of_vals, Array}
use step_mesh.KvWorker.{Callback, Setting, KvWorker, fill, find_range}
use step_mesh.KvWorker.Calls.{z_push}

abbrev ids_of : ℕ → Option (List ℕ)
ids_of group = if group == 2 then some (8 ∷ 10 ∷ []) else none

abbrev job : Postoffice
job = record {
  started = true;
  is_worker = true;
  is_server = false;
  is_scheduler = false;
  num_servers = 2;
  num_workers = 1;
  group_size = 1;
  preferred_rank = negsuc 0;
  init_stage = 2;
  node_ids = ids_of;
  customers = [];
  barrier_done = [];
  server_key_ranges = [];
  heartbeats = [];
  start_time = 0;
}

abbrev setting : Setting ℕ
setting = record {
  postoffice = job;
  app_id = 0;
  customer_id = 0;
  instance_idx = 0;
  default_val = 0;
  is_worker_zpull = false;
}

abbrev no_vals : ℕ → List ℕ
no_vals address = []

abbrev new_worker : KvWorker ℕ
new_worker = record {
  tracker = [];
  recv_kvs = [];
  callbacks = [];
  vals_at = no_vals;
  lens_at = no_vals;
  ran = [];
  sent = [];
}

abbrev two_keys : KvPairs ℕ
two_keys = record { keys = 3 ∷ 4 ∷ []; vals = 30 ∷ 40 ∷ []; lens = [] }

abbrev high_key : KvPairs ℕ
high_key = record { keys = 9223372036854775810 ∷ []; vals = 90 ∷ []; lens = [] }

abbrev one_message : List (Meta × List (Array ℕ))
one_message =
    (
      record new_meta {
        app_id = 0;
        customer_id = 0;
        request = true;
        push = true;
        head = pos 7;
        timestamp = 0;
        recver = 8;
        val_len = pos 2;
      },
      of_keys (3 ∷ 4 ∷ []) ∷ of_vals (30 ∷ 40 ∷ []) ∷ [],
    )
    ∷ []

abbrev tracked : (seen : ℕ) → Tracker
tracked seen =
    record { count = 2; response_count = seen; response_count_cache = 0; start_time = 5 } ∷ []

-- The server without keys is credited at once.
abbrev pushing : KvWorker ℕ
pushing = record new_worker { tracker = tracked 1; sent = one_message }

z_push-pushing : z_push setting 5 (pos 7) none two_keys new_worker ≡ ok (pushing, 0)
unfolding z_push
z_push-pushing = refl

find_range_doc : find_range (1 ∷ 3 ∷ 5 ∷ 7 ∷ 9 ∷ []) 2 7 ≡ record { begin = 1; end = 3 }
unfolding find_range
find_range_doc = refl

net : IsConnected job
net = record { ids = 8 ∷ 10 ∷ []; table = refl; groups = refl; sized = omega arith; fresh = refl }

two_keys-IsSliceable : IsSliceable job two_keys
two_keys-IsSliceable =
    (((omega arith, tt), (tt, tt)), (omega arith, (omega arith, tt)), inl (refl, 1, refl))

z_push-delivers_example :
    (w' : KvWorker ℕ) × (z_push setting 5 (pos 7) none two_keys new_worker ≡ ok (w', 0))
    × (messages : List (Meta × List (Array ℕ))) × IsPushed setting
        (pos 7)
        two_keys
        new_worker
        w'
        messages
z_push-delivers_example =
    z_push-delivers setting 5 (pos 7) none two_keys new_worker net two_keys-IsSliceable
      (omega arith)

abbrev answer : Meta
answer = record new_meta { timestamp = 0; request = false; push = true; sender = 8 }

answered :
    run_calls (Call.receive answer ∷ []) pushing.tracker
    ≡ ok (record { count = 2; response_count = 2; response_count_cache = 1; start_time = 5 } ∷ [])
unfolding run_calls
answered = refl

z_push-completes_example :
    IsTracked
      (record { count = 2; response_count = 2; response_count_cache = 1; start_time = 5 } ∷ [])
      0
      2
      2
z_push-completes_example =
    z_push-completes setting 5 (pos 7) none two_keys new_worker net two_keys-IsSliceable
      (omega arith) pushing 0 one_message (Call.receive answer ∷ [])
      (record { count = 2; response_count = 2; response_count_cache = 1; start_time = 5 } ∷ [])
      z_push-pushing refl (refl, tt) refl answered

fill-joined_example :
    fill setting
      (3 ∷ 4 ∷ 9223372036854775810 ∷ [])
      (1 ∷ 1 ∷ 1 ∷ 1 ∷ [])
      none
      (high_key ∷ two_keys ∷ [])
    ≡ ok (30 ∷ 40 ∷ 90 ∷ 1 ∷ [], none)
fill-joined_example =
    fill-joined setting (two_keys ∷ high_key ∷ []) (high_key ∷ two_keys ∷ []) (1 ∷ 1 ∷ 1 ∷ 1 ∷ [])
      (Permutes.swap two_keys high_key [])
      ((omega arith, (omega arith, tt)), ((omega arith, tt), (tt, tt)))
      (omega arith, (omega arith, (omega arith, tt))) refl (inr (omega arith)) none
      ((omega arith, inl refl), ((omega arith, inl refl), tt))

fill-lost_example : fill setting (3 ∷ 4 ∷ 9223372036854775810 ∷ []) [] none (two_keys ∷ []) ≡ fatal
fill-lost_example =
    fill-lost setting (3 ∷ 4 ∷ 9223372036854775810 ∷ []) [] none (two_keys ∷ [])
      (λ e. absurd (omega arith))

abbrev pull_answer : List (Array ℕ)
pull_answer = of_keys (3 ∷ 4 ∷ []) ∷ of_vals (30 ∷ 40 ∷ []) ∷ []

abbrev pulling : KvWorker ℕ
pulling = record new_worker {
  tracker = tracked 1;
  callbacks = (0, Callback.pull 0 (3 ∷ 4 ∷ []) 100 none (some 1)) ∷ [];
}

abbrev pulled : KvWorker ℕ
pulled = record pulling {
  tracker = record { count = 2; response_count = 2; response_count_cache = 1; start_time = 5 } ∷ [];
  recv_kvs = (0, two_keys ∷ []) ∷ [];
}

abbrev of_pull : Meta
of_pull = record new_meta { timestamp = 0; request = false; sender = 8 }

pulled_all : receive_all setting ((of_pull, pull_answer) ∷ []) pulling ≡ ok pulled
unfolding receive_all
pulled_all = refl

receive_all-never_runs_example :
    IsTracked pulled.tracker 0 2 2 × (pulled.ran ≡ []) × (pulled.vals_at ≡ no_vals)
receive_all-never_runs_example =
    receive_all-never_runs setting 0 ((of_pull, pull_answer) ∷ []) pulling pulled 1 (refl, tt)
      (
        record { count = 2; response_count = 1; response_count_cache = 0; start_time = 5 },
        refl,
        refl,
        refl,
      )
      pulled_all
