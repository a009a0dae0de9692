-- ===== src/Postoffice/Barrier.antt =====
-- `DoBarrier` up to its wait, and `Manage`.
use step_mesh.Prelude.{
  ℕ, zero, suc, ◌+◌, ◌≡◌, Bool, true, false, not, ◌&&◌, ◌||◌, Option, none, some, [], arith, ltb,
  leb, if◌then◌else◌, length,
}
use step_mesh.Prelude.Map.{Map, find, insert, find-insert}
use step_mesh.Prelude.Result.{Result, ok, check, ◌>>◌, ◌>>=◌}
use step_mesh.Message.{
  Meta, Role, server, worker, scheduler, joint, new_meta, barrier, instance_barrier, is_cmd,
  control_empty,
}
use step_mesh.Postoffice.{
  Postoffice, k_scheduler, get_node_ids, has_scheduler, has_servers, has_workers,
}
use step_mesh.Postoffice.Customers.{inner-insert, inner}

-- The check that the caller's role belongs to the group.
pub role_in_group : Role → ℕ → Bool
role_in_group scheduler group = has_scheduler group
role_in_group worker group = has_workers group
role_in_group server group = has_servers group
role_in_group joint group = true

-- barrier_done_[app_id][customer_id] = done
abbrev pub set_done : ℕ → ℕ → Bool → Map (Map Bool) → Map (Map Bool)
set_done app_id customer_id done m = insert app_id (insert customer_id done (inner app_id m)) m

-- The message that `DoBarrier` sends, if the group has someone to wait for; then it waits until
-- `barrier_done_[0][customer_id]` holds.
pub do_barrier :
    (role : Role) (timestamp customer_id node_group : ℕ) (is_instance : Bool)
    → Postoffice
    → Result (Option Meta × Postoffice)
unfolding role_in_group get_node_ids
do_barrier role timestamp customer_id node_group is_instance po =
    get_node_ids po node_group >>= (λ ids.
      if leb (length ids) (if is_instance then 1 else po.group_size)
      then ok (none, po)
      else (check (role_in_group role node_group)
          >> ok (
            some (record new_meta {
              recver = k_scheduler;
              request = true;
              app_id = 0;
              customer_id = customer_id;
              timestamp = timestamp;
              control = record {
                cmd = if is_instance then instance_barrier else barrier;
                node = [];
                barrier_group = node_group;
                msg_sig = 0;
              };
            }),
            record po { barrier_done = set_done 0 customer_id false po.barrier_done },
          )))

-- The condition that `DoBarrier` waits for.
unfoldable pub is_done : ℕ → Postoffice → Bool
is_done customer_id po = elim (find customer_id (inner 0 po.barrier_done)) [
  | none ↦ false
  | some b ↦ b
]

-- The loop of `Manage`: `rounds` are left, from `customer_id` on.
unfoldable pub release_loop : ℕ → ℕ → Map Bool → Map Bool
release_loop zero customer_id m = m
release_loop (suc rounds) customer_id m =
    release_loop rounds (customer_id + 1) (insert customer_id true m)

unfoldable pub manage : Meta → Postoffice → Result Postoffice
manage recv po =
    check (not (control_empty recv.control))
    >> (let is_barrier =
          is_cmd recv.control.cmd barrier || is_cmd recv.control.cmd instance_barrier in
        if is_barrier && not recv.request
        then (let done = inner recv.app_id po.barrier_done in
            ok (record po {
              barrier_done = insert recv.app_id (release_loop (length done) 0 done) po.barrier_done;
            }))
        else ok po)

find-release_loop :
    (rounds from k : ℕ) (m : Map Bool)
    → find k (release_loop rounds from m)
      ≡ (if leb from k && ltb k (from + rounds) then some true else find k m)
unfolding release_loop
find-release_loop zero from k m = ground arith
find-release_loop (suc rounds) from k m =
    ground
      (arith, find-release_loop rounds (from + 1) k (insert from true m), find-insert from k true m)

-- The reply to a barrier of application 0 releases exactly the customers whose id is below the
-- number of customers that `barrier_done_[0]` knows; every other customer keeps its state.
pub is_done-manage :
    (recv : Meta) (po po' : Postoffice) (k : ℕ)
    → is_cmd recv.control.cmd barrier || is_cmd recv.control.cmd instance_barrier ≡ true
    → recv.request ≡ false
    → recv.app_id ≡ 0
    → manage recv po ≡ ok po'
    → is_done k po' ≡ (if ltb k (length (inner 0 po.barrier_done)) then true else is_done k po)
unfolding manage is_done
is_done-manage recv po po' k cmd reply app e = ground (
  arith,
  inner-insert 0 0 (release_loop (length (inner 0 po.barrier_done)) 0 (inner 0 po.barrier_done))
      po.barrier_done,
  find-release_loop (length (inner 0 po.barrier_done)) 0 k (inner 0 po.barrier_done),
)
