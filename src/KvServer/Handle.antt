-- ===== src/KvServer/Handle.antt =====
-- `KVServerDefaultHandle` and `RegisterRecvBufferWithRank` (include/ps/kv_app.h).
use step_mesh.Prelude.{true, ℕ, List, [], ◌∷◌, ◌==◌, ltb, if◌then◌else◌, length, Option, none, some}
use step_mesh.Prelude.Int.{pos}
use step_mesh.Prelude.Map.{Map, find, insert}
use step_mesh.Prelude.Result.{Result, ok, check, ◌>>◌}
use step_mesh.Message.{Meta, new_meta}
use step_mesh.Postoffice.{Postoffice, group_worker_rank_to_instance_id}
use step_mesh.Slicer.{KvPairs, no_pairs}
use step_mesh.KvServer.{fatal, ℤ, KvMeta, Array, of_keys, of_vals, of_lens}

-- A value type with `Val()` and `+=`.
module _ {V : Type 0} (zero_val : V) (plus : V → V → V) where
  abbrev pub or_zero : Option V → V
  or_zero none = zero_val
  or_zero (some v) = v

  -- store[key], as a value.
  abbrev pub value_of : Map V → ℕ → V
  value_of store key = or_zero (find key store)

  -- The loop for a push; there are as many values as keys.
  unfoldable pub push_values : List ℕ → List V → Map V → Map V
  unfolding find insert
  push_values (key ∷ keys) (val ∷ vals) store =
      push_values keys vals (insert key (plus (value_of store key) val) store)
  push_values _ _ store = store

  -- The loop for a pull; reading a key that is not there adds it.
  unfoldable pub pull_values : List ℕ → Map V → Map V × List V
  unfolding find insert
  pull_values [] store = (store, [])
  pull_values (key ∷ keys) store =
      let value = value_of store key in
      let rest = pull_values keys (insert key value store) in (rest.0, value ∷ rest.1)

  -- The store after a request, and what is passed to `Response`.
  unfoldable pub default_handle : KvMeta → KvPairs V → Map V → Result (Map V × KvPairs V)
  unfolding push_values pull_values
  default_handle req_meta req_data store =
      if req_meta.push
      then check (length req_data.keys == length req_data.vals)
        >> ok (push_values req_data.keys req_data.vals store, no_pairs V)
      else (let pulled = pull_values req_data.keys store in
          ok (pulled.0, record { keys = req_data.keys; vals = pulled.1; lens = [] }))

-- The message that registers a buffer. `cmd` of the caller is not passed on.
module _ {V : Type 0} where
  pub register_recv_buffer :
      (worker_id : ℕ) (keys : List ℕ) (vals : List V) (lens : List ℕ) (cmd : ℤ)
      → Result (Meta × List (Array V))
  register_recv_buffer worker_id [] vals lens cmd = fatal
  register_recv_buffer worker_id (key ∷ keys) vals lens cmd =
      check (ltb 0 (length lens))
      >> ok (
        record new_meta { request = true; push = true; head = cmd; sender = worker_id; key = key },
        of_keys (key ∷ keys) ∷ of_vals vals ∷ of_lens lens ∷ [],
      )

  unfoldable pub register_recv_buffer_with_rank :
      Postoffice
      → (instance_idx worker_rank : ℕ) (keys : List ℕ) (vals : List V) (lens : List ℕ) (cmd : ℤ)
      → Result (Meta × List (Array V))
  unfolding register_recv_buffer group_worker_rank_to_instance_id
  register_recv_buffer_with_rank po instance_idx worker_rank keys vals lens cmd =
      register_recv_buffer (group_worker_rank_to_instance_id po worker_rank instance_idx) keys vals
        lens (pos 0)
