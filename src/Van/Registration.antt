-- ===== src/Van/Registration.antt =====
-- The registration of nodes (src/van.cc): `UpdateLocalID`, `ProcessAddNodeCommandAtScheduler` and
-- `ProcessAddNodeCommand`. The text "host:port" that nodes are known by is the pair of both. A
-- transport connects where it is told to; environment variables are arguments.
use step_mesh.Van.Order.{Order, same_text, order_nodes, check_ranks, with_preferred_rank}
use step_mesh.Postoffice.DeadNodes.{get_dead_nodes}
use step_mesh.Prelude.{
  ℕ, suc, ◌+◌, ◌*◌, Bool, true, false, not, ◌&&◌, ◌||◌, Option, none, some, List, [], ◌∷◌, ◌++◌,
  ◌==◌, if◌then◌else◌, length,
}
use step_mesh.Prelude.Int.{ℤ, pos, negsuc}
use step_mesh.Prelude.Map.{Map, find, insert}
use step_mesh.Prelude.Result.{Result, ok, fatal, check, ◌>>◌, ◌>>=◌}
use step_mesh.Message.{
  Meta, Node, Role, server, worker, new_meta, no_control, add_node, is_role, k_empty,
}
use step_mesh.Postoffice.{
  Postoffice, k_server_group, k_worker_group, server_rank_to_id, worker_rank_to_id, get_node_ids,
}
use step_mesh.Postoffice.DeadNodes.{update_heartbeat}

-- `nodes` and `recovery_nodes` are the lists of nodes that `Receiving` keeps.
pub record Registry : Type 0 where
  pub my_node : Node
  pub nodes : List Node
  pub recovery_nodes : List Node
  pub connected_nodes : List ((List ℕ × ℕ) × ℕ)
  pub shared_node_mapping : Map ℕ
  pub num_servers : ℕ
  pub num_workers : ℕ
  pub timestamp : ℕ
  pub ready : Bool

-- `Node::id` of a rank; a negative rank has not passed the checks.
unfoldable pub id_of :
    Role → (preferred : Bool) (aux_id : ℤ) (num_servers num_workers : ℕ) → Result ℕ
unfolding server_rank_to_id worker_rank_to_id
id_of role false aux_id num_servers num_workers =
    ok
      (if is_role role server then server_rank_to_id num_servers else worker_rank_to_id num_workers)
id_of role true (pos rank) num_servers num_workers =
    ok (if is_role role server then server_rank_to_id rank else worker_rank_to_id rank)
id_of role true (negsuc n) num_servers num_workers = fatal

-- connected_nodes_.find("host:port")
unfoldable pub find_address : (List ℕ × ℕ) → List ((List ℕ × ℕ) × ℕ) → Option ℕ
unfolding same_text
find_address address [] = none
find_address address ((known, id) ∷ rest) =
    if same_text known.0 address.0 && (known.1 == address.1)
    then some id
    else find_address address rest

abbrev pub address_of : Node → List ℕ × ℕ
address_of node = (node.hostname, node.port)

abbrev pub counted : Role → Registry → Registry
counted role reg =
    let reg1 = record reg {
      num_servers = if is_role role server then suc reg.num_servers else reg.num_servers;
    } in
    record reg1 {
      num_workers = if is_role role worker then suc reg.num_workers else reg.num_workers;
    }

-- One node gets its id: a new address is connected and has a heartbeat, and a known one shares the
-- id of the node that was there first.
unfoldable pub assign_one :
    (t id : ℕ) → Node → Option ℕ → Postoffice → Registry → Result (Postoffice × Registry × Node)
unfolding update_heartbeat
assign_one t id node none po reg =
    check (node.id == k_empty)
    >> ok (
      update_heartbeat id t po,
      counted node.role
          (record reg { connected_nodes = (address_of node, id) ∷ reg.connected_nodes }),
      record node { id = id },
    )
assign_one t id node (some known) po reg = ok (
  po,
  counted node.role (record reg { shared_node_mapping = insert id known reg.shared_node_mapping }),
  record node { id = known },
)

-- The loop that assigns the ids; `nodes` is left to the caller.
unfoldable pub assign_ids :
    (t : ℕ) (preferred : Bool)
    → List Node
    → Postoffice
    → Registry
    → Result (Postoffice × Registry × List Node)
unfolding id_of assign_one find_address
assign_ids t preferred [] po reg = ok (po, reg, [])
assign_ids t preferred (node ∷ nodes) po reg =
    id_of node.role preferred node.aux_id reg.num_servers reg.num_workers >>= (λ id.
      assign_one t id node (find_address (address_of node) reg.connected_nodes) po reg >>= (λ now.
        assign_ids t preferred nodes now.0 now.1
        >>= (λ later. ok (later.0, later.1, now.2 ∷ later.2))))

-- The message with the list of nodes.
abbrev pub node_list : List Node → (recver timestamp : ℕ) → Meta
node_list nodes recver timestamp = record new_meta {
  recver = recver;
  timestamp = timestamp;
  control = record no_control { cmd = add_node; node = nodes };
}

-- The list goes to all but the ids that share another's node.
unfoldable pub send_lists : List Node → Map ℕ → (timestamp : ℕ) → List ℕ → List Meta
unfolding find
send_lists nodes shared timestamp [] = []
send_lists nodes shared timestamp (r ∷ ids) = elim (find r shared) [
  | none ↦ node_list nodes r timestamp ∷ send_lists nodes shared (timestamp + 1) ids
  | some _ ↦ send_lists nodes shared timestamp ids
]

-- When the last node has registered.
unfoldable pub complete :
    Order → (t : ℕ) → Postoffice → Registry → Result (Postoffice × Registry × List Meta)
unfolding order_nodes check_ranks with_preferred_rank assign_ids send_lists get_node_ids
complete order t po reg = order_nodes order reg.nodes >>= (λ ordered.
    check_ranks po ordered
    >> (assign_ids t (with_preferred_rank ordered) ordered po reg >>= (λ (po', reg', nodes).
        get_node_ids po (k_worker_group + k_server_group) >>= (λ ids.
          let all = nodes ++ reg'.my_node ∷ [] in
          let sent = send_lists all reg'.shared_node_mapping reg'.timestamp ids in
          ok (
            po',
            record reg' { nodes = all; timestamp = reg'.timestamp + length sent; ready = true },
            sent,
          )))))

abbrev pub is_in : List ℕ → ℕ → Bool
is_in [] id = false
is_in (i ∷ ids) id = (i == id) || is_in ids id

-- A recovered node: all nodes go to it, and it goes to the others that are not dead.
pub send_recovery :
    (recovered nodes : List Node) (id : ℕ) (dead : List ℕ) (timestamp : ℕ) → List ℕ → List Meta
send_recovery recovered nodes id dead timestamp [] = []
send_recovery recovered nodes id dead timestamp (r ∷ ids) =
    if not (r == id) && is_in dead r
    then send_recovery recovered nodes id dead timestamp ids
    else node_list (if r == id then nodes else recovered) r timestamp
      ∷ send_recovery recovered nodes id dead (timestamp + 1) ids

-- There is exactly one recovery node.
unfoldable pub recover :
    (t heartbeat_timeout : ℕ) → Postoffice → Registry → Result (Postoffice × Registry × List Meta)
unfolding get_dead_nodes update_heartbeat send_recovery get_node_ids
recover t heartbeat_timeout po reg = get_dead_nodes reg.ready heartbeat_timeout t po >>= (λ dead.
    elim reg.recovery_nodes [
      | [] ↦ fatal
      | node ∷ [] ↦ get_node_ids po (k_worker_group + k_server_group) >>= (λ ids.
          let sent = send_recovery (node ∷ []) reg.nodes node.id dead reg.timestamp ids in
          ok (
            update_heartbeat node.id t po,
            record reg { timestamp = reg.timestamp + length sent },
            sent,
          ))
      | _ ∷ _ ∷ _ ↦ fatal
    ])

-- `ProcessAddNodeCommandAtScheduler`
unfoldable pub add_node_at_scheduler :
    Order
    → (t heartbeat_timeout : ℕ) → Postoffice
    → Registry
    → Result (Postoffice × Registry × List Meta)
unfolding complete recover
add_node_at_scheduler order t heartbeat_timeout po reg =
    let completed = complete order t po reg in
    let recovered = recover t heartbeat_timeout po reg in
    if length reg.nodes == (po.num_servers * po.group_size + po.num_workers * po.group_size)
    then completed
    else elim reg.recovery_nodes [ [] ↦ ok (po, reg, []) | _ ∷ _ ↦ recovered ]
