-- ===== src/Tensor/Handlers.antt =====
-- `Wait` and `GetAllHandlers` of `AFTensorWorker` (include/ps/af_tensor_app.h). The map
-- `batch_timestamps_` is a copy of another project's (emhash8): its calls are parameters.
use step_mesh.Prelude.{
  ◌+◌, ◌/◌, zero, suc, ℕ, ◌<◌, ◌≡◌, ◌∙◌, refl, ap, Option, none, some, List, [], ◌∷◌, ◌++◌, arith,
  length,
}
use step_mesh.Prelude.Result.{ok}
use step_mesh.Tensor.{KeyTensor, AfTensorRequest, z_batch_push_pull}
use step_mesh.Tensor.Timestamps.{
  count_from, count_from-append, split_first, made_batch, z_batch_push_pull-made,
}

-- The calls of the map, and what the code relies on: an entry that is put under a new key is found,
-- and one that is erased is not.
pub record HashMap (M : Type 0) : Type 0 where
  pub try_get : ℕ → M → Option (List ℕ)
  pub emplace_unique : ℕ → List ℕ → M → M
  pub erase : ℕ → M → M
  pub get_emplaced :
      (k : ℕ) (v : List ℕ) (m : M) → try_get k m ≡ none → try_get k (emplace_unique k v m) ≡ some v
  pub get_erased : (k : ℕ) (m : M) → try_get k (erase k m) ≡ none

abbrev pub handlers_of : (timestamp : ℕ) → Option (List ℕ) → List ℕ
handlers_of timestamp none = timestamp ∷ []
handlers_of timestamp (some v) = timestamp ∷ v

module _ {M : Type 0} (table : HashMap M) where
  -- `GetAllHandlers`
  pub get_all_handlers : (timestamp : ℕ) → M → List ℕ
  get_all_handlers timestamp batch_timestamps =
      handlers_of timestamp (table.try_get timestamp batch_timestamps)

  abbrev pub after_wait : (timestamp : ℕ) → M → Option (List ℕ) → M
  after_wait timestamp batch_timestamps none = batch_timestamps
  after_wait timestamp batch_timestamps (some v) = table.erase timestamp batch_timestamps

  -- `Wait`: the timestamps that it waits for, one after the other, and the map after it.
  pub wait_all : (timestamp : ℕ) → M → List ℕ × M
  wait_all timestamp batch_timestamps = (
    handlers_of timestamp (table.try_get timestamp batch_timestamps),
    after_wait timestamp batch_timestamps (table.try_get timestamp batch_timestamps),
  )

  handlers-split :
      (next n : ℕ)
      → 0 < n
      → handlers_of next (some (split_first (count_from next n)).1) ≡ count_from next n
  handlers-split next zero some_one = absurd (omega arith)
  handlers-split next (suc n) some_one = refl

  split-start : (next n : ℕ) → 0 < n → (split_first (count_from next n)).0 ≡ next
  split-start next zero some_one = absurd (omega arith)
  split-start next (suc n) some_one = refl

  -- A batch with at least one timestamp, for at least one server, when `next` timestamps were given
  -- out before and `next` is not in the map: `ZBatchPushPull` returns `next`. Once the entry is put
  -- in the map, `GetAllHandlers` of this handle returns all timestamps of the batch and nothing
  -- else, one for each push and then one for each server's pulls, in a row from `next` on; `Wait`
  -- waits for just these, in this order, and after it the handle stands for itself alone.
  pub wait_all-batch :
      {T : Type 0} (server_count next q : ℕ) (push_tensors pull_tensors : List (KeyTensor T))
      (batches : M)
      → 0 < server_count
      → length pull_tensors / server_count ≡ q
      → 0 < length push_tensors + q
      → table.try_get next batches ≡ none
      → (req : AfTensorRequest T) × (timestamps : List ℕ) × (z_batch_push_pull server_count next
            push_tensors pull_tensors
          ≡ ok (req, next, timestamps))
        × (let known = table.emplace_unique next timestamps batches in
            let all = count_from next (length push_tensors + q) in
            (req.push_timestamps ++ req.pull_timestamps ≡ all)
            × (get_all_handlers next known ≡ all)
            × ((wait_all next known).0 ≡ all)
            × (get_all_handlers next (wait_all next known).1 ≡ next ∷ []))
  unfolding get_all_handlers wait_all
  wait_all-batch server_count next q push_tensors pull_tensors batches some_server is_q some_one
        new =
      let n = length push_tensors + q in
      let made = made_batch next q push_tensors pull_tensors in
      let known = table.emplace_unique next made.2 batches in
      let found = table.get_emplaced next made.2 batches new in
      (
        made.0,
        made.2,
        z_batch_push_pull-made server_count next q push_tensors pull_tensors (ground arith) is_q
            ∙ ap (λ k. ok (made.0, k, made.2)) (split-start next n some_one),
        (
          count_from-append next (length push_tensors) q,
          ap (handlers_of next) found ∙ handlers-split next n some_one,
          ap (handlers_of next) found ∙ handlers-split next n some_one,
          ap (λ o. handlers_of next (table.try_get next (after_wait next known o))) found
              ∙ ap (handlers_of next) (table.get_erased next known),
        ),
      )
