-- ===== src/Tensor/HandlerTests.antt =====
-- A batch of two pushes and two pulls in a job with one server, and a tensor for two workers.
use step_mesh.Prelude.{
  ◌++◌, ℕ, ◌+◌, ◌≡◌, refl, true, false, Option, none, some, List, [], ◌∷◌, arith,
}
use step_mesh.Prelude.Int.{negsuc}
use step_mesh.Prelude.Map.{Map, find, insert, erase, find-insert, find-erase}
use step_mesh.Prelude.Result.{ok}
use step_mesh.Message.{Meta}
use step_mesh.Postoffice.{Postoffice}
use step_mesh.KvServer.{Array}
use step_mesh.Tensor.{KeyTensor, AfTensorRequest, z_batch_push_pull}
use step_mesh.Tensor.Handlers.{HashMap, get_all_handlers, wait_all, wait_all-batch}
use step_mesh.Tensor.Register.{
  register_recv_tensor, AreChunks, concat, register_recv_tensor-AreChunks,
}

find-insert_same : (k : ℕ) (v : List ℕ) (m : Map (List ℕ)) → find k (insert k v m) ≡ some v
find-insert_same k v m = ground (arith, find-insert k k v m)

find-erase_same : (k : ℕ) (m : Map (List ℕ)) → find k (erase k m) ≡ none
find-erase_same k m = ground (arith, find-erase k k m)

abbrev assoc : HashMap (Map (List ℕ))
assoc = record {
  try_get = λ k m. find k m;
  emplace_unique = λ k v m. insert k v m;
  erase = λ k m. erase k m;
  get_emplaced = λ k v m absent. find-insert_same k v m;
  get_erased = find-erase_same;
}

abbrev tensor : ℕ → KeyTensor ℕ
tensor key = record { key = key; val = 100 + key }

abbrev pushes : List (KeyTensor ℕ)
pushes = tensor 1 ∷ tensor 2 ∷ []

abbrev pulls : List (KeyTensor ℕ)
pulls = tensor 3 ∷ tensor 4 ∷ []

find-nothing : find {V = List ℕ} 7 [] ≡ none
unfolding find
find-nothing = refl

wait_all-batch_example :
    (req : AfTensorRequest ℕ) × (timestamps : List ℕ) × (z_batch_push_pull 1 7 pushes pulls
      ≡ ok (req, 7, timestamps))
    × (let known = insert 7 timestamps [] in
        (req.push_timestamps ++ req.pull_timestamps ≡ 7 ∷ 8 ∷ 9 ∷ 10 ∷ [])
        × (get_all_handlers assoc 7 known ≡ 7 ∷ 8 ∷ 9 ∷ 10 ∷ [])
        × ((wait_all assoc 7 known).0 ≡ 7 ∷ 8 ∷ 9 ∷ 10 ∷ [])
        × (get_all_handlers assoc 7 (wait_all assoc 7 known).1 ≡ 7 ∷ []))
wait_all-batch_example =
    wait_all-batch assoc 1 7 2 pushes pulls [] (omega arith) refl (omega arith) find-nothing

abbrev nowhere : ℕ → Option (List ℕ)
nowhere group = none

abbrev job : Postoffice
job = record {
  started = true;
  is_worker = false;
  is_server = true;
  is_scheduler = false;
  num_servers = 1;
  num_workers = 2;
  group_size = 1;
  preferred_rank = negsuc 0;
  init_stage = 2;
  node_ids = nowhere;
  customers = [];
  barrier_done = [];
  server_key_ranges = [];
  heartbeats = [];
  start_time = 0;
}

register_recv_tensor-AreChunks_example :
    (ms : List (Meta × List (Array ℕ))) × (chunks : List (List ℕ)) × (register_recv_tensor job 0
        (1 ∷ 2 ∷ 3 ∷ 4 ∷ [])
        (0 ∷ 1 ∷ [])
        (70 ∷ 71 ∷ [])
      ≡ ok ms)
    × AreChunks job 0 (0 ∷ 1 ∷ []) (70 ∷ 71 ∷ []) chunks ms
    × (concat chunks ≡ 1 ∷ 2 ∷ 3 ∷ 4 ∷ [])
register_recv_tensor-AreChunks_example =
    register_recv_tensor-AreChunks job 0 (1 ∷ 2 ∷ 3 ∷ 4 ∷ []) (0 ∷ 1 ∷ []) (70 ∷ 71 ∷ [])
      (omega arith) refl (omega arith)
