-- ===== src/Van/AddNode.antt =====
-- `UpdateLocalID` and `ProcessAddNodeCommand` (src/van.cc), at the scheduler and at the other nodes.
use step_mesh.Prelude.{
  ℕ, ◌+◌, ◌*◌, Bool, true, not, ◌&&◌, ◌||◌, Option, none, some, List, [], ◌∷◌, ◌++◌, ltb, ◌==◌,
  if◌then◌else◌, length,
}
use step_mesh.Prelude.Result.{Result, ok, fatal, check, ◌>>◌, ◌>>=◌}
use step_mesh.Message.{Meta, Node, role_code, k_empty}
use step_mesh.Postoffice.{Postoffice}
use step_mesh.Postoffice.DeadNodes.{get_dead_nodes}
use step_mesh.Van.Order.{Order, same_text}
use step_mesh.Van.Registration.{
  Registry, find_address, address_of, counted, is_in, add_node_at_scheduler,
}

-- The node that takes the place of a dead one, with its id.
abbrev pub recovering : (dead new : Node) → Node
recovering dead new = record new { id = dead.id; is_recovery = true }

-- The search for a dead node of the same role, and the list with its place taken. The last of
-- the nodes, which is the scheduler, is not looked at.
unfoldable pub replace_dead : (deadnodes : List ℕ) → Node → List Node → Option (Node × List Node)
replace_dead deadnodes new [] = none
replace_dead deadnodes new (n ∷ []) = none
replace_dead deadnodes new (n ∷ m ∷ nodes) =
    let later = replace_dead deadnodes new (m ∷ nodes) in
    if is_in deadnodes n.id && (role_code n.role == role_code new.role)
    then some (recovering n new, recovering n new ∷ m ∷ nodes)
    else elim later [ none ↦ none | some found ↦ some (found.0, n ∷ found.1) ]

-- What the node that asks to join makes of the lists, and what it is known as from then on.
unfoldable pub join_lists : Registry → Node → Option (Node × List Node) → List Node × Registry
join_lists reg new none = (new ∷ [], reg)
join_lists reg new (some (recovered, nodes)) = (
  recovered ∷ [],
  record reg { nodes = nodes; recovery_nodes = reg.recovery_nodes ++ recovered ∷ [] },
)

-- A request for an id.
unfoldable pub register :
    Postoffice → (deadnodes : List ℕ) → List Node → Registry → Result (List Node × Registry)
unfolding replace_dead join_lists
register po deadnodes (new ∷ []) reg =
    if ltb (length reg.nodes) (po.num_servers * po.group_size + po.num_workers * po.group_size)
    then ok (new ∷ [], record reg { nodes = reg.nodes ++ new ∷ [] })
    else (check reg.ready >> ok (join_lists reg new (replace_dead deadnodes new reg.nodes)))
register po deadnodes _ reg = fatal

-- The loop that finds the node itself in the message; `rank_set` says whether DMLC_RANK is set.
pub update_my_node : (rank_set : Bool) → List Node → (my_node : Node) → Node
unfolding same_text
update_my_node rank_set [] my_node = my_node
update_my_node rank_set (node ∷ nodes) my_node = update_my_node rank_set nodes (
    if same_text my_node.hostname node.hostname
      && ((my_node.port == node.port) && (not rank_set || (my_node.id == k_empty)))
    then node
    else my_node)

-- The nodes of the message after it, and the lists.
pub update_local_id :
    (rank_set : Bool)
    → Postoffice
    → (deadnodes : List ℕ) → Meta
    → Registry
    → Result (List Node × Registry)
unfolding register update_my_node
update_local_id rank_set po deadnodes msg reg =
    (if msg.sender == k_empty
      then check po.is_scheduler >> register po deadnodes msg.control.node reg
      else ok (msg.control.node, reg))
    >>= (λ (nodes, reg').
        ok (nodes, record reg' { my_node = update_my_node rank_set nodes reg'.my_node }))

-- The loop of a node that is not the scheduler.
pub join_loop : List Node → Registry → Registry
unfolding find_address
join_loop [] reg = reg
join_loop (node ∷ nodes) reg =
    let known : Registry = elim (find_address (address_of node) reg.connected_nodes) [
      | none ↦ record reg { connected_nodes = (address_of node, node.id) ∷ reg.connected_nodes }
      | some _ ↦ reg
    ] in
    join_loop nodes (if node.is_recovery then known else counted node.role known)

-- `ProcessAddNodeCommand` at time `t`.
unfoldable pub process_add_node :
    (rank_set : Bool)
    → Order
    → (t heartbeat_timeout : ℕ) → Meta
    → Postoffice
    → Registry
    → Result (Postoffice × Registry × List Meta)
unfolding get_dead_nodes update_local_id add_node_at_scheduler join_loop
process_add_node rank_set order t heartbeat_timeout msg po reg =
    get_dead_nodes reg.ready heartbeat_timeout t po >>= (λ dead.
      update_local_id rank_set po dead msg reg >>= (λ (nodes, reg1).
        let at_scheduler = add_node_at_scheduler order t heartbeat_timeout po reg1 in
        let joined = join_loop nodes reg1 in
        if po.is_scheduler then at_scheduler else ok (po, record joined { ready = true }, [])))
