-- ===== src/KvServer/Reply.antt =====
-- A response goes back where its request came from.
use step_mesh.Prelude.{
  ℕ, ◌<◌, ◌≡◌, refl, ◌⊎◌, inl, inr, true, false, List, [], ◌∷◌, arith, ◌==◌, length,
}
use step_mesh.Prelude.Result.{ok}
use step_mesh.Message.{Meta}
use step_mesh.Postoffice.{Postoffice, group_worker_rank_to_instance_id}
use step_mesh.Postoffice.Rank.{id_to_rank_inverse, group_rank_inverse}
use step_mesh.Slicer.{KvPairs}
use step_mesh.KvServer.{KvMeta, Array, process, response, pack_data, unpack_data}

module _ {V : Type 0} where
  -- For a request from a worker of the same index in its group as the server, whatever the group
  -- size above the index: the server's response to what `Process` hands to the request handle goes
  -- to the very instance that sent it, as an answer with the timestamp, customer, key, kind and
  -- command of the request.
  pub response-process :
      (po : Postoffice) (msg : Meta) (sent : List (Array V)) (res : KvPairs V) (meta : KvMeta)
      (pairs : KvPairs V) (app_id rank instance_idx : ℕ)
      → instance_idx < po.group_size
      → msg.sender ≡ group_worker_rank_to_instance_id po rank instance_idx
      → process po msg sent ≡ ok (meta, pairs)
      → let back = (response po app_id instance_idx meta res).0 in
        (back.recver ≡ msg.sender)
        × (back.request ≡ false)
        × (back.timestamp ≡ msg.timestamp)
        × (back.customer_id ≡ msg.customer_id)
        × (back.key ≡ msg.key)
        × (back.push ≡ msg.push)
        × (back.head ≡ msg.head)
  unfolding process response
  response-process po msg sent res meta pairs app_id rank instance_idx lt from e = ground (
    arith,
    (group_rank_inverse po rank instance_idx lt).0,
    from,
    (id_to_rank_inverse rank rank).0,
  )

  unpack-pack_parts :
      (keys : List ℕ) (vals : List V) (lens : List ℕ)
      → 0 < length keys
      → (length lens ≡ 0) ⊎ (length lens ≡ length keys)
      → unpack_data (pack_data (record { keys = keys; vals = vals; lens = lens }))
        ≡ ok (record { keys = keys; vals = vals; lens = lens })
  unfolding unpack_data pack_data
  unpack-pack_parts [] vals lens some_keys sized = absurd (omega arith)
  unpack-pack_parts (k ∷ ks) vals [] some_keys sized = refl
  unpack-pack_parts (k ∷ ks) vals (l ∷ ls) some_keys (inl none_there) = absurd (omega arith)
  unpack-pack_parts (k ∷ ks) vals (l ∷ ls) some_keys (inr same) =
      let matched : (length (l ∷ ls) == length (k ∷ ks)) ≡ true = ground arith in rw matched

  pub unpack_data-pack_data :
      (res : KvPairs V)
      → 0 < length res.keys
      → (length res.lens ≡ 0) ⊎ (length res.lens ≡ length res.keys)
      → unpack_data (pack_data res) ≡ ok res
  unpack_data-pack_data res some_keys sized =
      unpack-pack_parts res.keys res.vals res.lens some_keys sized
