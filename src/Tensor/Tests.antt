-- ===== src/Tensor/Tests.antt =====
-- Batches between a worker and two servers.
use step_mesh.Prelude.{
  ℕ, ◌+◌, ◌≡◌, refl, Bool, true, false, Option, none, some, List, [], ◌∷◌, ◌++◌, arith,
}
use step_mesh.Prelude.Map.{Map, find}
use step_mesh.Prelude.Result.{ok}
use step_mesh.Tensor.{KeyTensor, AfTensorRequest, Sent, z_batch_push_pull, send_batch}
use step_mesh.Tensor.Sending.{heads, send_batch-never_ends}
use step_mesh.Tensor.Server.{Request, AfTensorMeta, request, new_af_meta, current, handle_all}
use step_mesh.Tensor.Batch.{Stream, in_order, responses, IsDone}
use step_mesh.Tensor.Whole.{IsWhole, handle_all-IsWhole}
use step_mesh.Tensor.Parts.{to_server}
use step_mesh.Tensor.Arrival.{arrive, send_batch-arrives}
use step_mesh.Tensor.Reorder.{handle_all-reordered}

abbrev tensor : ℕ → KeyTensor ℕ
tensor k = record { key = k; val = k + 100 }

-- One push, and two pulls from each of two servers.
abbrev push : List (KeyTensor ℕ)
push = tensor 1 ∷ []

abbrev pull : List (KeyTensor ℕ)
pull = tensor 2 ∷ tensor 3 ∷ tensor 4 ∷ tensor 5 ∷ []

send_batch-never_ends_example :
    (req : AfTensorRequest ℕ) × (start : ℕ) × (others : List ℕ) × (z_batch_push_pull 2 7 []
        (tensor 2 ∷ tensor 3 ∷ [])
      ≡ ok (req, start, others))
    × (sent : List (Sent ℕ)) × (send_batch 2 req ≡ ok sent)
    × (heads 0 sent ≡ 1 ∷ [])
send_batch-never_ends_example =
    send_batch-never_ends 2 7 0 (tensor 2 ∷ tensor 3 ∷ []) (omega arith) (omega arith) refl

-- A push and a pull of the worker with id 9.
abbrev message : ℕ → Bool → ℕ → Request × KeyTensor ℕ
message cmd push_it stamp =
    (record { cmd = cmd; push = push_it; sender = 9; timestamp = stamp; key = stamp }, tensor stamp)

abbrev stream : Stream ℕ
stream = message 1 true 7 ∷ message 2 false 8 ∷ message 3 false 9 ∷ []

-- Worker 11 has an open batch.
abbrev batches : {T : Type 0} → Map (Option (AfTensorMeta T))
batches = (11, some (new_af_meta 11 false)) ∷ []

no_batch : {T : Type 0} → current {T = T} (in_order batches) 9 ≡ none
unfolding current find
no_batch = refl

-- What server 1 of two makes of the batch of worker 9.
send_batch-arrives_example :
    (req : AfTensorRequest ℕ) × (start : ℕ) × (others : List ℕ) × (z_batch_push_pull 2 7 push pull
      ≡ ok (req, start, others))
    × (sent : List (Sent ℕ)) × (send_batch 2 req ≡ ok sent)
    × (after : Map (Option (AfTensorMeta (Option ℕ)))) × (m : AfTensorMeta (Option ℕ)) × (handle_all
          (in_order batches)
          (arrive 9 (to_server 1 sent))
        ≡ ok (in_order after, responses (arrive 9 (to_server 1 sent)) ++ request m ∷ []))
    × (m.push_tensors ≡ record { key = 1; val = some 101 } ∷ [])
    × (m.pull_tensors ≡ record { key = 4; val = none } ∷ record { key = 5; val = none } ∷ [])
    × IsDone batches after 9
send_batch-arrives_example =
    send_batch-arrives 2 7 1 2 9 push pull batches (omega arith) refl (omega arith) no_batch

handle_all-IsWhole_example :
    (after : Map (Option (AfTensorMeta ℕ))) × (m : AfTensorMeta ℕ) × (handle_all
        (in_order batches)
        stream
      ≡ ok (in_order after, responses stream ++ request m ∷ []))
    × IsWhole 9 stream m
    × IsDone batches after 9
handle_all-IsWhole_example =
    handle_all-IsWhole 9 stream batches (refl, refl, (refl, refl, (refl, refl))) no_batch

-- The end of worker 9's batch, with timestamp 9, comes after the start of its next batch.
abbrev opening : Stream ℕ
opening = message 1 true 7 ∷ message 2 false 8 ∷ []

handle_all-reordered_example :
    (after : Map (Option (AfTensorMeta ℕ))) × (m : AfTensorMeta ℕ) × (n : AfTensorMeta ℕ)
    × (handle_all (in_order batches) (opening ++ message 1 true 10 ∷ message 3 false 9 ∷ [])
        ≡ ok (
          in_order after,
          responses opening
              ++ (responses (message 1 true 10 ∷ message 3 false 9 ∷ []) ++ request m ∷ []),
        ))
    × IsWhole 9 (opening ++ message 3 false 9 ∷ []) m
    × (current (in_order after) 9 ≡ some n)
    × IsWhole 9 (message 1 true 10 ∷ []) n
handle_all-reordered_example =
    handle_all-reordered batches 9 opening (message 1 true 10).0 (message 3 false 9).0 (tensor 10)
      (tensor 9) (refl, refl, (refl, refl, tt)) no_batch refl refl refl refl refl

-- The pulls of worker 9, answered with tensors in another order.
abbrev pulls : AfTensorMeta ℕ
pulls = record (new_af_meta 9 false) {
  pull_metas = (message 2 false 8).0 ∷ (message 3 false 9).0 ∷ [];
  pull_tensors = tensor 8 ∷ tensor 9 ∷ [];
}
