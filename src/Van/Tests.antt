-- ===== src/Van/Tests.antt =====
-- Barriers of the scheduler, one server and two workers.
use step_mesh.Prelude.{
  ℕ, ◌+◌, ◌≡◌, refl, ap, inl, inr, Bool, true, false, Option, none, some, List, [], ◌∷◌, ◌++◌,
  arith, ◌==◌, if◌then◌else◌, length, get_elem?,
}
use step_mesh.Prelude.Int.{negsuc}
use step_mesh.Prelude.Map.{find}
use step_mesh.Prelude.Result.{ok}
use step_mesh.Message.{Meta, new_meta, barrier, instance_barrier}
use step_mesh.Postoffice.{Postoffice, has_scheduler}
use step_mesh.Van.Answers.{AreAnswers}
use step_mesh.Van.{Van, counts, requests_of, process_instance_barrier, process_barrier, process_all}
use step_mesh.Van.Instance.{process_all-releases}
use step_mesh.Van.Group.{process_all-answers}

abbrev table : ℕ → Option (List ℕ)
table k = if k == 7 then some (9 ∷ 11 ∷ 8 ∷ 1 ∷ []) else none

abbrev job : Postoffice
job = record {
  started = true;
  is_worker = false;
  is_server = false;
  is_scheduler = true;
  num_servers = 1;
  num_workers = 2;
  group_size = 1;
  preferred_rank = negsuc 0;
  init_stage = 2;
  node_ids = table;
  customers = [];
  barrier_done = [];
  server_key_ranges = [];
  heartbeats = [];
  start_time = 0;
}

abbrev van : Van
van = record { barrier_count = []; group_barrier_requests = []; timestamp = 5 }

abbrev not_shared : ℕ → Bool
not_shared k = false

abbrev request : ℕ → Meta
request from = record new_meta {
  request = true;
  app_id = 0;
  customer_id = 0;
  sender = from;
  control = record { cmd = barrier; node = []; barrier_group = 7; msg_sig = 0 };
}

abbrev three : List Meta
three = request 9 ∷ request 8 ∷ request 1 ∷ []

process_all-releases_example :
    (van' : Van) × (sent : List Meta) × (process_all
        (process_instance_barrier not_shared job)
        van
        (three ++ request 11 ∷ [])
      ≡ ok (van', sent))
    × AreAnswers not_shared instance_barrier (request 11) 5 (9 ∷ 11 ∷ 8 ∷ 1 ∷ []) sent
    × (get_elem? (counts van'.barrier_count) 7 ≡ some 0)
    × (van'.timestamp ≡ 5 + length sent)
process_all-releases_example =
    process_all-releases not_shared job 7 (9 ∷ 11 ∷ 8 ∷ 1 ∷ []) refl three (request 11) van 0
      ((refl, refl, (refl, refl, (refl, refl, tt)))) refl refl refl (omega arith)

none_asked : requests_of van 7 ≡ []
unfolding find
none_asked = refl

process_all-answers_example :
    (van' : Van) × (sent : List Meta) × (process_all
        (process_barrier not_shared job)
        van
        (three ++ request 11 ∷ [])
      ≡ ok (van', sent))
    × AreAnswers not_shared barrier (request 11) 5 (requests_of van 7 ++ (9 ∷ 8 ∷ 1 ∷ 11 ∷ [])) sent
    × (requests_of van' 7 ≡ [])
    × (van'.timestamp ≡ 5 + length sent)
unfolding has_scheduler
process_all-answers_example =
    process_all-answers not_shared job 7 (9 ∷ 11 ∷ 8 ∷ 1 ∷ []) refl (omega arith) three (request 11)
      van 4 ((refl, refl, (refl, refl, (refl, refl, tt)))) refl refl
      (inr (inl (omega arith, refl, 3, refl, refl))) (ap (λ l. length l + 3 + 1) none_asked)
