-- ===== src/Tensor/Server.antt =====
-- `AFTensorMeta::Add` and `AFTensorServer::KVHandler`. Every `AFTensorMeta` is owned by
-- `batch_data_` or by `reorder_buffer_`, never by both, so the pointers are values here; `none`
-- in `batch_data` is a null pointer.
use step_mesh.Prelude.{
  ℕ, ◌+◌, Bool, true, false, ◌&&◌, Option, none, some, List, [], ◌∷◌, ◌++◌, ◌==◌, if◌then◌else◌,
}
use step_mesh.Prelude.Map.{Map, find, insert}
use step_mesh.Prelude.Result.{Result, ok, fatal, ◌>>=◌}
use step_mesh.Postoffice.{id_to_rank}
use step_mesh.Tensor.{af_flag_batch_start, af_flag_batch_end, KeyTensor}

-- The fields of `KVMeta` that the handler reads.
pub record Request : Type 0 where
  pub cmd : ℕ
  pub push : Bool
  pub sender : ℕ
  pub timestamp : ℕ
  pub key : ℕ

pub record AfTensorMeta (T : Type 0) : Type 0 where
  pub sender : ℕ
  pub sender_rank : ℕ
  pub single : Bool
  pub last_timestamp : ℕ
  pub push_metas : List Request
  pub push_tensors : List (KeyTensor T)
  pub pull_metas : List Request
  pub pull_tensors : List (KeyTensor T)

pub record AfTensorServer (T : Type 0) : Type 0 where
  pub batch_data : Map (Option (AfTensorMeta T))
  pub reorder_buffer : List (AfTensorMeta T)

-- What the handler does outside: it answers a push, or it calls the request handle.
pub data Event (T : Type 0) : Type 0 where
  respond : Request → Event T
  request : AfTensorMeta T → Event T

-- `FromBlob` on `req_data.keys[0]` and the tensor over `req_data.vals`: for a pull the value is left
-- undefined.
unfoldable pub from_blob : {T : Type 0} → Request → (key : ℕ) (data_ : T) → KeyTensor (Option T)
from_blob r key data_ = record { key = key; val = if r.push then some data_ else none }

-- The tensor that a request comes with is what `FromBlob` makes of it.
module _ {T : Type 0} where
  unfoldable pub add : AfTensorMeta T → Request → KeyTensor T → AfTensorMeta T
  add m r t =
      if r.push
      then record m {
        last_timestamp = r.timestamp;
        push_tensors = m.push_tensors ++ t ∷ [];
        push_metas = m.push_metas ++ r ∷ [];
      }
      else record m {
        last_timestamp = r.timestamp;
        pull_tensors = m.pull_tensors ++ t ∷ [];
        pull_metas = m.pull_metas ++ r ∷ [];
      }

  abbrev pub new_af_meta : (sender : ℕ) → (single : Bool) → AfTensorMeta T
  new_af_meta sender single = record {
    sender = sender;
    sender_rank = id_to_rank sender;
    single = single;
    last_timestamp = 0;
    push_metas = [];
    push_tensors = [];
    pull_metas = [];
    pull_tensors = [];
  }

  -- The entry of `batch_data_`, null if there is none.
  abbrev pub batch_of : Option (Option (AfTensorMeta T)) → Option (AfTensorMeta T)
  batch_of none = none
  batch_of (some m) = m

  unfoldable pub current : AfTensorServer T → (sender : ℕ) → Option (AfTensorMeta T)
  current s sender = batch_of (find sender s.batch_data)

  -- A message that opens a batch: an open batch of the same sender is put aside.
  abbrev pub put_aside : Option (AfTensorMeta T) → List (AfTensorMeta T) → List (AfTensorMeta T)
  put_aside none buffer = buffer
  put_aside (some m) buffer = buffer ++ m ∷ []

  -- The batch put aside that the message continues, what stands before it, and what after it.
  unfoldable pub find_reorder :
      Request
      → List (AfTensorMeta T)
      → Option (List (AfTensorMeta T) × AfTensorMeta T × List (AfTensorMeta T))
  find_reorder r [] = none
  find_reorder r (m ∷ ms) =
      let rest = find_reorder r ms in
      if (m.sender == r.sender) && (r.timestamp == (m.last_timestamp + 1))
      then some ([], m, ms)
      else elim rest [ none ↦ none | some (before, found, after) ↦ some (m ∷ before, found, after) ]

  -- The message is added to the sender's batch, which ends if it is the last.
  unfoldable pub to_current :
      AfTensorServer T → Request → AfTensorMeta T → AfTensorServer T × List (Event T)
  to_current s r m =
      if r.cmd == af_flag_batch_end
      then (record s { batch_data = insert r.sender none s.batch_data }, request m ∷ [])
      else (record s { batch_data = insert r.sender (some m) s.batch_data }, [])

  -- The same for a batch that was put aside.
  unfoldable pub to_reordered :
      AfTensorServer T
      → Request
      → (before after : List (AfTensorMeta T)) → AfTensorMeta T
      → AfTensorServer T × List (Event T)
  to_reordered s r before after m =
      if r.cmd == af_flag_batch_end
      then (record s { reorder_buffer = before ++ after }, request m ∷ [])
      else (record s { reorder_buffer = before ++ m ∷ after }, [])

  abbrev pub respond_push : Request → List (Event T)
  respond_push r = if r.push then respond r ∷ [] else []

  abbrev pub after_response :
      Request → AfTensorServer T × List (Event T) → AfTensorServer T × List (Event T)
  after_response r (s, events) = (s, respond_push r ++ events)

  -- A message that goes on with a batch.
  unfoldable pub continue :
      AfTensorServer T → Request → KeyTensor T → Result (AfTensorServer T × List (Event T))
  unfolding add current find_reorder to_current to_reordered
  continue s r t = elim (find_reorder r s.reorder_buffer) [
    | some (before, m, after) ↦ ok (after_response r (to_reordered s r before after (add m r t)))
    | none ↦ elim (current s r.sender) [
      | none ↦ fatal
      | some m ↦ ok (after_response r (to_current s r (add m r t)))
    ]
  ]

  unfoldable pub kv_handler :
      AfTensorServer T → Request → KeyTensor T → Result (AfTensorServer T × List (Event T))
  unfolding add current to_current continue
  kv_handler s r t =
      if r.cmd == 0
      then ok (s, request (add (new_af_meta r.sender true) r t) ∷ [])
      else (if r.cmd == af_flag_batch_start
          then ok (
              after_response r (
                to_current
                  (record s { reorder_buffer = put_aside (current s r.sender) s.reorder_buffer }) r
                  (add (new_af_meta r.sender false) r t)))
          else continue s r t)

  -- The messages of the list, in its order.
  unfoldable pub handle_all :
      AfTensorServer T → List (Request × KeyTensor T) → Result (AfTensorServer T × List (Event T))
  unfolding kv_handler
  handle_all s [] = ok (s, [])
  handle_all s ((r, t) ∷ rest) =
      kv_handler s r t
      >>= (λ now. handle_all now.0 rest >>= (λ later. ok (later.0, now.1 ++ later.1)))
