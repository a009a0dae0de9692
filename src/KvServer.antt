-- ===== src/KvServer.antt =====
-- `KVServer::Process` and `KVServer::Response` (include/ps/kv_app.h): what the server's request
-- handle is given, and what is sent back. The traces, the event of a device tensor and the
-- `simple_app` messages, which `SimpleApp` takes, are not modelled. A request
-- handle has been set.
pub mod Reply
pub mod Handle
pub mod Store
mod Tests
use step_mesh.Prelude.{
  ℕ, zero, suc, ◌+◌, ◌-◌, ◌*◌, ◌/◌, ◌%◌, ◌^◌, ◌≤◌, ◌<◌, ◌≡◌, refl, sym, ap, ◌∙◌, ◌≢◌, ◌↔◌, ◌⊎◌, inl,
  inr, Bool, true, false, not, ◌&&◌, ◌||◌, Option, none, some, List, [], ◌∷◌, ◌++◌, map, arith, ltb,
  leb, ◌==◌, if◌then◌else◌, Bool-cases, Option-cases, length, get_elem?, set, take, drop, replicate,
  get_or, length-append, length-set, length-drop, length-take, take-append-drop, length-map,
  length-replicate, ==_iff,
}
use step_mesh.Prelude.Int.{ℤ}
use step_mesh.Prelude.Result.{Result, ok, fatal, check, ◌>>◌, ◌>>=◌}
use step_mesh.Message.{Meta, new_meta}
use step_mesh.Postoffice.{
  Postoffice, worker_rank_to_id, id_to_rank, instance_id_to_group_rank,
  group_worker_rank_to_instance_id,
}
use step_mesh.Slicer.{KvPairs, no_pairs}

pub record KvMeta : Type 0 where
  pub cmd : ℤ
  pub push : Bool
  pub sender : ℕ
  pub timestamp : ℕ
  pub customer_id : ℕ
  pub key : ℕ
  pub addr : ℕ
  pub val_len : ℤ
  pub option : ℤ
  pub is_tensor : ℕ
  pub dtype : ℕ
  pub shape : List ℤ

-- An entry of `Message::data`: an array of bytes, with the type of what was put in.
pub data Array (V : Type 0) : Type 0 where
  of_keys : List ℕ → Array V
  of_vals : List V → Array V
  of_lens : List ℕ → Array V

-- `msg.data` as keys, values and lengths, with the checks on their number; reading an array as
-- another type than that of its contents is `fatal` too.
module _ {V : Type 0} where
  pub unpack_data : List (Array V) → Result (KvPairs V)
  unpack_data [] = ok (no_pairs V)
  unpack_data (of_keys keys ∷ of_vals vals ∷ []) =
      ok (record { keys = keys; vals = vals; lens = [] })
  unpack_data (of_keys keys ∷ of_vals vals ∷ of_lens lens ∷ []) =
      check (length lens == length keys) >> ok (record { keys = keys; vals = vals; lens = lens })
  unpack_data _ = fatal

  -- What `Process` passes to the request handle.
  pub process : Postoffice → Meta → List (Array V) → Result (KvMeta × KvPairs V)
  unfolding unpack_data instance_id_to_group_rank worker_rank_to_id
  process po msg data_ = instance_id_to_group_rank po msg.sender >>= (λ group_worker_rank.
      unpack_data data_ >>= (λ pairs. ok (
        record {
          cmd = msg.head;
          push = msg.push;
          sender = worker_rank_to_id group_worker_rank;
          timestamp = msg.timestamp;
          customer_id = msg.customer_id;
          key = msg.key;
          addr = msg.addr;
          val_len = msg.val_len;
          option = msg.option;
          is_tensor = msg.is_tensor;
          dtype = msg.dtype;
          shape = msg.shape;
        },
        pairs,
      )))

  -- The three calls of AddData; the data types and sizes that they add to the meta are left out.
  unfoldable pub pack_data : KvPairs V → List (Array V)
  pack_data res = elim res.keys [
    | [] ↦ []
    | k ∷ ks ↦ elim res.lens [
      | [] ↦ of_keys (k ∷ ks) ∷ of_vals res.vals ∷ []
      | l ∷ ls ↦ of_keys (k ∷ ks) ∷ of_vals res.vals ∷ of_lens (l ∷ ls) ∷ []
    ]
  ]

  -- The message that `Response` sends, from the server at `instance_idx` of its group.
  pub response : Postoffice → (app_id instance_idx : ℕ) → KvMeta → KvPairs V → Meta × List (Array V)
  unfolding id_to_rank group_worker_rank_to_instance_id pack_data
  response po app_id instance_idx req res =
      let group_worker_rank = id_to_rank req.sender in
      (
        record new_meta {
          app_id = app_id;
          customer_id = req.customer_id;
          request = false;
          push = req.push;
          head = req.cmd;
          timestamp = req.timestamp;
          recver = group_worker_rank_to_instance_id po group_worker_rank instance_idx;
          key = req.key;
          addr = req.addr;
          val_len = req.val_len;
          option = req.option;
        },
        pack_data res,
      )
