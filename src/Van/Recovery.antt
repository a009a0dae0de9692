-- ===== src/Van/Recovery.antt =====
-- A node that dies and comes back.
use mathlib.Core.Path.{subst}
use step_mesh.Prelude.{
  some-injective, length-map, ==_iff, ℕ, ◌+◌, ◌*◌, ◌≤◌, ◌<◌, ◌≡◌, ◌∙◌, refl, sym, ap, inl, inr,
  Bool, true, false, Option, none, some, List, [], ◌∷◌, ◌++◌, map, arith, ltb, ◌==◌, ◌&&◌,
  Bool-cases, length,
}
use step_mesh.Prelude.Result.{check, Result, ok, fatal, ◌>>=◌, ok-injective, bind-ok}
use step_mesh.Message.{Node, Meta, role_code}
use step_mesh.Postoffice.{Postoffice, get_node_ids}
use step_mesh.Postoffice.DeadNodes.{get_dead_nodes, update_heartbeat}
use step_mesh.Van.Order.{Order}
use step_mesh.Van.Registration.{Registry, is_in, add_node_at_scheduler, recover}
use step_mesh.Van.AddNode.{replace_dead, join_lists, register, recovering}

-- What stays of the table when a node takes the place of another.
abbrev pub place_of : Node → ℕ × ℕ
place_of n = (n.id, role_code n.role)

-- A place was found for `new`: it has the id of a dead node.
abbrev pub Takes : List ℕ → List Node → Node → Node × List Node → Type 0
Takes deadnodes nodes new found =
    (is_in deadnodes found.0.id ≡ true)
    × (found.0.is_recovery ≡ true)
    × (found.0.hostname ≡ new.hostname)
    × (map place_of found.1 ≡ map place_of nodes)

pub and_true : (a b : Bool) → (a && b) ≡ true → (a ≡ true) × (b ≡ true)
and_true true true e = (refl, refl)
and_true true false e = absurd (ground arith)
and_true false b e = absurd (ground arith)

later_found :
    (n : Node) (o : Option (Node × List Node)) (found : Node × List Node)
    → elim o [ none ↦ none | some f ↦ some (f.0, n ∷ f.1) ] ≡ some found
    → (f : Node × List Node) × (o ≡ some f) × (found ≡ (f.0, n ∷ f.1))
later_found n none found e = absurd (ground arith)
later_found n (some f) found e = (f, refl, ground (arith, e))

replace_dead-Takes :
    (deadnodes : List ℕ) (new : Node) (nodes : List Node) (found : Node × List Node)
    → replace_dead deadnodes new nodes ≡ some found
    → Takes deadnodes nodes new found
unfolding replace_dead
replace_dead-Takes deadnodes new [] found e = absurd (ground arith)
replace_dead-Takes deadnodes new (n ∷ []) found e = absurd (ground arith)
replace_dead-Takes deadnodes new (n ∷ m ∷ nodes) found e =
    elim (Bool-cases (is_in deadnodes n.id && (role_code n.role == role_code new.role))) [
      | inl here ↦
          let is : (recovering n new, recovering n new ∷ m ∷ nodes) ≡ found =
            some-injective (rw here at e) in
          let both =
            and_true (is_in deadnodes n.id) (role_code n.role == role_code new.role) here in
          subst (Takes deadnodes (n ∷ m ∷ nodes) new) is (
            both.0,
            refl,
            refl,
            ap (λ r. (n.id, r) ∷ place_of m ∷ map place_of nodes) {x = role_code new.role}
                {y = role_code n.role}
                (sym ((==_iff (role_code n.role) (role_code new.role)).0 both.1)),
          )
      | inr there ↦
          let (f, later, is) =
            later_found n (replace_dead deadnodes new (m ∷ nodes)) found (rw there at e) in
          let (dead, recovered, host, places) =
            replace_dead-Takes deadnodes new (m ∷ nodes) f later in
          subst (Takes deadnodes (n ∷ m ∷ nodes) new) (sym is)
            (dead, recovered, host, ap (λ l. place_of n ∷ l) places)
    ]

register-joined :
    (po : Postoffice) (deadnodes : List ℕ) (new : Node) (reg reg1 : Registry) (nodes : List Node)
    → po.num_servers * po.group_size + po.num_workers * po.group_size ≤ length reg.nodes
    → register po deadnodes (new ∷ []) reg ≡ ok (nodes, reg1)
    → join_lists reg new (replace_dead deadnodes new reg.nodes) ≡ (nodes, reg1)
unfolding register
register-joined po deadnodes new reg reg1 nodes all_there joined =
    let full : ltb (length reg.nodes)
          (po.num_servers * po.group_size + po.num_workers * po.group_size)
        ≡ false =
      ground arith in
    let (u, ready, made) = bind-ok (check reg.ready) _ (nodes, reg1) (rw full at joined) in
    ok-injective made

join_lists-places :
    (reg reg1 : Registry) (deadnodes : List ℕ) (new : Node) (nodes : List Node)
    (o : Option (Node × List Node))
    → ((found : Node × List Node) → o ≡ some found → Takes deadnodes reg.nodes new found)
    → join_lists reg new o ≡ (nodes, reg1)
    → map place_of reg1.nodes ≡ map place_of reg.nodes
unfolding join_lists
join_lists-places reg reg1 deadnodes new nodes none takes e =
    sym (ap (λ p. map place_of p.1.nodes) e)
join_lists-places reg reg1 deadnodes new nodes (some found) takes e =
    sym (ap (λ p. map place_of p.1.nodes) e) ∙ (takes found refl).3

-- A node that asks for an id when all nodes have registered: if the scheduler goes on, then whether
-- or not the node takes the place of a dead one, the ids and roles in its table stay what they
-- were, in their order.
pub register-keeps_places :
    (po : Postoffice) (deadnodes : List ℕ) (new : Node) (reg reg1 : Registry) (nodes : List Node)
    → po.num_servers * po.group_size + po.num_workers * po.group_size ≤ length reg.nodes
    → register po deadnodes (new ∷ []) reg ≡ ok (nodes, reg1)
    → map place_of reg1.nodes ≡ map place_of reg.nodes
register-keeps_places po deadnodes new reg reg1 nodes all_there joined =
    join_lists-places reg reg1 deadnodes new nodes (replace_dead deadnodes new reg.nodes)
      (λ found e. replace_dead-Takes deadnodes new reg.nodes found e)
      (register-joined po deadnodes new reg reg1 nodes all_there joined)

abbrev no_result : {A B : Type 0} → A → Result B
no_result a = fatal

bind-fatal : {A B : Type 0} (m : Result A) → (m >>= no_result {B = B}) ≡ fatal
bind-fatal (ok a) = refl
bind-fatal fatal = refl

-- Two recovery nodes or more.
recover-several :
    (t heartbeat_timeout : ℕ) (po : Postoffice) (reg : Registry) (a b : Node) (rest : List Node)
    → reg.recovery_nodes ≡ a ∷ b ∷ rest
    → recover t heartbeat_timeout po reg ≡ fatal
unfolding recover
recover-several t heartbeat_timeout po reg a b rest is =
    rw is (bind-fatal (get_dead_nodes reg.ready heartbeat_timeout t po))

add_node_at_scheduler-several :
    (order : Order) (t heartbeat_timeout : ℕ) (po : Postoffice) (reg : Registry) (a b : Node)
    (rest : List Node)
    → (length reg.nodes == (po.num_servers * po.group_size + po.num_workers * po.group_size))
      ≡ false
    → reg.recovery_nodes ≡ a ∷ b ∷ rest
    → add_node_at_scheduler order t heartbeat_timeout po reg ≡ fatal
unfolding add_node_at_scheduler
add_node_at_scheduler-several order t heartbeat_timeout po reg a b rest differ is = rw differ (
    ap (λ l. elim l [ [] ↦ ok (po, reg, []) | _ ∷ _ ↦ recover t heartbeat_timeout po reg ]) is
    ∙ recover-several t heartbeat_timeout po reg a b rest is)

second_entry :
    (others : List Node) (x : Node)
    → (b : Node) × (rest : List Node) × (others ++ x ∷ [] ≡ b ∷ rest)
second_entry [] x = (x, [], refl)
second_entry (b ∷ others) x = (b, others ++ x ∷ [], refl)

-- A recovery node that is not the first.
add_node_at_scheduler-another :
    (order : Order) (t heartbeat_timeout : ℕ) (po : Postoffice) (deadnodes : List ℕ)
    (new first : Node) (others : List Node) (reg reg1 : Registry) (nodes : List Node)
    (found : Node × List Node)
    → po.num_servers * po.group_size + po.num_workers * po.group_size < length reg.nodes
    → reg.recovery_nodes ≡ first ∷ others
    → replace_dead deadnodes new reg.nodes ≡ some found
    → register po deadnodes (new ∷ []) reg ≡ ok (nodes, reg1)
    → add_node_at_scheduler order t heartbeat_timeout po reg1 ≡ fatal
unfolding join_lists
add_node_at_scheduler-another order t heartbeat_timeout po deadnodes new first others reg reg1 nodes
      found all_there before finds joined =
    let is = register-joined po deadnodes new reg reg1 nodes (omega arith) joined in
    let (b, rest, two) = second_entry others found.0 in
    let several : reg1.recovery_nodes ≡ first ∷ b ∷ rest =
      sym (ap (λ p. p.1.recovery_nodes) is)
      ∙ ap (λ o. (join_lists reg new o).1.recovery_nodes) finds
      ∙ ap (λ l. l ++ found.0 ∷ []) before
      ∙ ap (λ l. first ∷ l) two in
    let kept = register-keeps_places po deadnodes new reg reg1 nodes (omega arith) joined in
    let differ : (length reg1.nodes
          == (po.num_servers * po.group_size + po.num_workers * po.group_size))
        ≡ false =
      ground
        (arith, length-map reg1.nodes place_of, length-map reg.nodes place_of, ap length kept) in
    add_node_at_scheduler-several order t heartbeat_timeout po reg1 first b rest differ several

-- What one recovery leaves as it was.
pub record KeepsRecovery (po po' : Postoffice) (reg reg' : Registry) : Type 0 where
  pub nodes : reg'.nodes ≡ reg.nodes
  pub recovery_nodes : reg'.recovery_nodes ≡ reg.recovery_nodes
  pub num_servers : po'.num_servers ≡ po.num_servers
  pub num_workers : po'.num_workers ≡ po.num_workers
  pub group_size : po'.group_size ≡ po.group_size

recover-KeepsRecovery :
    (t heartbeat_timeout : ℕ) (po po' : Postoffice) (reg reg' : Registry) (node : Node)
    (sent : List Meta)
    → reg.recovery_nodes ≡ node ∷ []
    → recover t heartbeat_timeout po reg ≡ ok (po', reg', sent)
    → KeepsRecovery po po' reg reg'
unfolding recover update_heartbeat
recover-KeepsRecovery t heartbeat_timeout po po' reg reg' node sent is e =
    let (dead, found, later) =
      bind-ok (get_dead_nodes reg.ready heartbeat_timeout t po) _ (po', reg', sent) e in
    let (ids, table, made) = bind-ok (get_node_ids po 6) _ (po', reg', sent) (rw is at later) in
    let all = ok-injective made in
    record {
      nodes = sym (ap (λ r. r.1.nodes) all);
      recovery_nodes = sym (ap (λ r. r.1.recovery_nodes) all);
      num_servers = sym (ap (λ r. r.0.num_servers) all);
      num_workers = sym (ap (λ r. r.0.num_workers) all);
      group_size = sym (ap (λ r. r.0.group_size) all);
    }

-- A scheduler with no recovery node yet recovers a dead node: a node takes its place, and the
-- handling of its registration goes on. When a second node takes the place of a dead one, then the
-- scheduler stops, at the check that there is one recovery node.
pub add_node_at_scheduler-second :
    (order : Order) (t t2 heartbeat_timeout : ℕ) (po po1 : Postoffice) (dead dead2 : List ℕ)
    (new new2 : Node) (reg reg1 reg2 reg3 : Registry) (nodes nodes2 : List Node)
    (found found2 : Node × List Node) (sent : List Meta)
    → po.num_servers * po.group_size + po.num_workers * po.group_size < length reg.nodes
    → reg.recovery_nodes ≡ []
    → replace_dead dead new reg.nodes ≡ some found
    → register po dead (new ∷ []) reg ≡ ok (nodes, reg1)
    → add_node_at_scheduler order t heartbeat_timeout po reg1 ≡ ok (po1, reg2, sent)
    → replace_dead dead2 new2 reg2.nodes ≡ some found2
    → register po1 dead2 (new2 ∷ []) reg2 ≡ ok (nodes2, reg3)
    → add_node_at_scheduler order t2 heartbeat_timeout po1 reg3 ≡ fatal
unfolding join_lists add_node_at_scheduler
add_node_at_scheduler-second order t t2 heartbeat_timeout po po1 dead dead2 new new2 reg reg1 reg2
      reg3 nodes nodes2 found found2 sent all_there none_yet finds joined went_on finds2 joined2 =
    let is = register-joined po dead new reg reg1 nodes (omega arith) joined in
    let one : reg1.recovery_nodes ≡ found.0 ∷ [] =
      sym (ap (λ p. p.1.recovery_nodes) is)
      ∙ ap (λ o. (join_lists reg new o).1.recovery_nodes) finds
      ∙ ap (λ l. l ++ found.0 ∷ []) none_yet in
    let kept = register-keeps_places po dead new reg reg1 nodes (omega arith) joined in
    let same : length reg1.nodes ≡ length reg.nodes =
      omega
        (arith, length-map reg1.nodes place_of, length-map reg.nodes place_of, ap length kept) in
    let differ : (length reg1.nodes
          == (po.num_servers * po.group_size + po.num_workers * po.group_size))
        ≡ false =
      ground (arith, same) in
    let recovered : recover t heartbeat_timeout po reg1 ≡ ok (po1, reg2, sent) =
      ap (λ l. elim l [ [] ↦ ok (po, reg1, []) | _ ∷ _ ↦ recover t heartbeat_timeout po reg1 ])
        (sym one)
      ∙ (rw differ at went_on) in
    let keeps =
      recover-KeepsRecovery t heartbeat_timeout po po1 reg1 reg2 found.0 sent one recovered in
    let total : po1.num_servers * po1.group_size + po1.num_workers * po1.group_size
        ≡ po.num_servers * po.group_size + po.num_workers * po.group_size =
      rw (keeps.num_servers, keeps.num_workers, keeps.group_size) refl in
    add_node_at_scheduler-another order t2 heartbeat_timeout po1 dead2 new2 found.0 [] reg2 reg3
      nodes2 found2 (omega (arith, total, same, ap length keeps.nodes)) (keeps.recovery_nodes ∙ one)
      finds2 joined2
