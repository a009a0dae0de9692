-- ===== src/Postoffice/Rank.antt =====
-- Ids and ranks determine one another.
use step_mesh.Prelude.{ℕ, ◌+◌, ◌-◌, ◌*◌, ◌/◌, ◌<◌, ◌≡◌, ◌≢◌, false, arith, ◌==◌}
use step_mesh.Prelude.Result.{ok}
use step_mesh.Postoffice.{
  Postoffice, worker_rank_to_id, server_rank_to_id, id_to_rank, group_worker_rank_to_instance_id,
  group_server_rank_to_instance_id, instance_id_to_group_rank,
}

-- An id gives back the rank that it was made from, for workers and servers; ids are unique over
-- both roles, and none is the id of a group of nodes.
pub id_to_rank_inverse :
    (a b : ℕ)
    → (id_to_rank (worker_rank_to_id a) ≡ a)
      × (id_to_rank (server_rank_to_id b) ≡ b)
      × (worker_rank_to_id a ≢ server_rank_to_id b)
      × (7 < worker_rank_to_id a)
      × (7 < server_rank_to_id b)
unfolding id_to_rank worker_rank_to_id server_rank_to_id
id_to_rank_inverse a b = omega arith

div-group : (rank index size : ℕ) → index < size → (rank * size + index) / size ≡ rank
div-group rank index size lt = grind arith

-- Every instance of a group leads back to the rank of its group.
pub group_rank_inverse :
    (po : Postoffice) (rank index : ℕ)
    → index < po.group_size
    → (instance_id_to_group_rank po (group_worker_rank_to_instance_id po rank index) ≡ ok rank)
      × (instance_id_to_group_rank po (group_server_rank_to_instance_id po rank index) ≡ ok rank)
unfolding instance_id_to_group_rank group_worker_rank_to_instance_id
    group_server_rank_to_instance_id id_to_rank worker_rank_to_id server_rank_to_id
group_rank_inverse po rank index lt =
    let x : ℕ = rank * po.group_size + index in
    let odd : (x * 2 + 9 - 8) / 2 ≡ x = omega arith in
    let even : (x * 2 + 8 - 8) / 2 ≡ x = omega arith in
    let back : x / po.group_size ≡ rank = div-group rank index po.group_size lt in
    let some_size : (po.group_size == 0) ≡ false = ground arith in
    (rw (some_size, odd, back), rw (some_size, even, back))
