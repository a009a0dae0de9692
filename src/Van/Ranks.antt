-- ===== src/Van/Ranks.antt =====
-- The ids that the scheduler assigns: as many of each role as there are nodes of it, and none twice.
use step_mesh.Prelude.Sort.{AreDistinct}
use step_mesh.Postoffice.DeadNodes.{update_heartbeat}
use step_mesh.Van.Order.{same_text}
use step_mesh.Prelude.{
  All-mono, ◌≢◌, Bool-cases, ◌≤◌, ◌&&◌, ◌⊎◌, ℕ, suc, ◌≡◌, refl, inl, inr, Bool, true, false, none,
  List, [], ◌∷◌, arith, ◌==◌, if◌then◌else◌, All,
}
use step_mesh.Prelude.Result.{ok}
use step_mesh.Message.{Node, server, worker, is_role, k_empty}
use step_mesh.Postoffice.{Postoffice, server_rank_to_id, worker_rank_to_id}
use step_mesh.Van.Registration.{Registry, find_address, address_of, assign_one, assign_ids, id_of}

-- The reference: servers and workers are numbered in their order, from `s` and `w` on.
abbrev pub numbered : (s w : ℕ) → List Node → List Node
numbered s w [] = []
numbered s w (n ∷ nodes) =
    if is_role n.role server
    then record n { id = server_rank_to_id s } ∷ numbered (suc s) w nodes
    else record n { id = worker_rank_to_id w } ∷ numbered s (suc w) nodes

-- Each node is a server or a worker that has no id yet.
abbrev pub IsNew : Node → Type 0
IsNew n = ((n.role ≡ server) ⊎ (n.role ≡ worker)) × (n.id ≡ k_empty)

abbrev pub same_address : Node → Node → Bool
same_address n m = same_text n.hostname m.hostname && (n.port == m.port)

-- No two nodes have the same address.
abbrev pub AreApart : List Node → Type 0
AreApart [] = Unit
AreApart (n ∷ nodes) = All (λ m. same_address n m ≡ false) nodes × AreApart nodes

-- No node is connected.
abbrev pub AreStrangers : List ((List ℕ × ℕ) × ℕ) → List Node → Type 0
AreStrangers known nodes = All (λ n. find_address (address_of n) known ≡ none) nodes

AreStrangers-cons :
    (known : List ((List ℕ × ℕ) × ℕ)) (n : Node) (id : ℕ) (nodes : List Node)
    → AreStrangers known nodes
    → All (λ m. same_address n m ≡ false) nodes
    → AreStrangers ((address_of n, id) ∷ known) nodes
unfolding find_address
AreStrangers-cons known n id [] strange apart = tt
AreStrangers-cons known n id (m ∷ nodes) strange apart =
    (rw apart.0 strange.0, AreStrangers-cons known n id nodes strange.1 apart.1)

-- Where each node is a server or a worker without an id, at an address of its own that is not
-- connected, and no rank is preferred: the loop succeeds, and numbers the servers and the workers
-- each from the number of those that there are already; no id is shared.
pub assign_ids-numbered :
    (t : ℕ) (nodes : List Node) (po : Postoffice) (reg : Registry)
    → All IsNew nodes
    → AreApart nodes
    → AreStrangers reg.connected_nodes nodes
    → (po' : Postoffice) × (reg' : Registry) × (assign_ids t false nodes po reg
        ≡ ok (po', reg', numbered reg.num_servers reg.num_workers nodes))
      × (reg'.shared_node_mapping ≡ reg.shared_node_mapping)
      × (reg'.my_node ≡ reg.my_node)
unfolding assign_ids assign_one id_of
assign_ids-numbered t [] po reg new apart strangers = (po, reg, refl, refl, refl)
assign_ids-numbered t (n ∷ nodes) po reg new apart strangers =
    let no_id : (n.id == k_empty) ≡ true = ground (arith, new.0.1) in
    elim new.0.0 [
      | inl is ↦
          let s : is_role n.role server ≡ true = rw is refl in
          let w : is_role n.role worker ≡ false = rw is refl in
          let id = server_rank_to_id reg.num_servers in
          let reg1 : Registry = record reg {
            connected_nodes = (address_of n, id) ∷ reg.connected_nodes;
            num_servers = suc reg.num_servers;
          } in
          let (po', reg', made, shared, mine) =
            assign_ids-numbered t nodes (update_heartbeat id t po) reg1 new.1 apart.1
              (AreStrangers-cons reg.connected_nodes n id nodes strangers.1 apart.0) in
          (po', reg', rw (s, strangers.0, no_id, s, w, made) refl, shared, mine)
      | inr is ↦
          let s : is_role n.role server ≡ false = rw is refl in
          let w : is_role n.role worker ≡ true = rw is refl in
          let id = worker_rank_to_id reg.num_workers in
          let reg1 : Registry = record reg {
            connected_nodes = (address_of n, id) ∷ reg.connected_nodes;
            num_workers = suc reg.num_workers;
          } in
          let (po', reg', made, shared, mine) =
            assign_ids-numbered t nodes (update_heartbeat id t po) reg1 new.1 apart.1
              (AreStrangers-cons reg.connected_nodes n id nodes strangers.1 apart.0) in
          (po', reg', rw (s, strangers.0, no_id, s, w, made) refl, shared, mine)
    ]

-- An id of the numbering from `s` and `w` on.
abbrev IsFrom : (s w : ℕ) → Node → Type 0
IsFrom s w m =
    (k : ℕ) × (((m.id ≡ server_rank_to_id k) × (s ≤ k)) ⊎ ((m.id ≡ worker_rank_to_id k) × (w ≤ k)))

numbered-IsFrom : (s w : ℕ) (nodes : List Node) → All (IsFrom s w) (numbered s w nodes)
numbered-IsFrom s w [] = tt
numbered-IsFrom s w (n ∷ nodes) = elim (Bool-cases (is_role n.role server)) [
  | inl e ↦ rw e (
    (s, inl (refl, omega arith)),
    All-mono (IsFrom (suc s) w) (IsFrom s w) (numbered (suc s) w nodes)
        (λ m (k, from). (k, elim from [ inl h ↦ inl (h.0, omega arith) | inr h ↦ inr h ]))
        (numbered-IsFrom (suc s) w nodes),
  )
  | inr e ↦ rw e (
    (w, inr (refl, omega arith)),
    All-mono (IsFrom s (suc w)) (IsFrom s w) (numbered s (suc w) nodes)
        (λ m (k, from). (k, elim from [ inl h ↦ inl h | inr h ↦ inr (h.0, omega arith) ]))
        (numbered-IsFrom s (suc w) nodes),
  )
]

-- Ids of the two roles are even and odd.
server-IsFrom : (s w : ℕ) (m : Node) → IsFrom (suc s) w m → server_rank_to_id s ≢ m.id
unfolding server_rank_to_id worker_rank_to_id
server-IsFrom s w m (k, inl h) e = absurd (omega arith)
server-IsFrom s w m (k, inr h) e = absurd (omega arith)

worker-IsFrom : (s w : ℕ) (m : Node) → IsFrom s (suc w) m → worker_rank_to_id w ≢ m.id
unfolding server_rank_to_id worker_rank_to_id
worker-IsFrom s w m (k, inl h) e = absurd (omega arith)
worker-IsFrom s w m (k, inr h) e = absurd (omega arith)

pub AreDistinct-numbered :
    (s w : ℕ) (nodes : List Node) → AreDistinct (λ n. n.id) (numbered s w nodes)
AreDistinct-numbered s w [] = tt
AreDistinct-numbered s w (n ∷ nodes) = elim (Bool-cases (is_role n.role server)) [
  | inl e ↦ rw e (
    All-mono (IsFrom (suc s) w) (λ m. server_rank_to_id s ≢ m.id) (numbered (suc s) w nodes)
        (λ m from. server-IsFrom s w m from) (numbered-IsFrom (suc s) w nodes),
    AreDistinct-numbered (suc s) w nodes,
  )
  | inr e ↦ rw e (
    All-mono (IsFrom s (suc w)) (λ m. worker_rank_to_id w ≢ m.id) (numbered s (suc w) nodes)
        (λ m from. worker-IsFrom s w m from) (numbered-IsFrom s (suc w) nodes),
    AreDistinct-numbered s (suc w) nodes,
  )
]
