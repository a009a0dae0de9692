-- ===== src/Van/Dispatch.antt =====
-- One round of `Van::Receiving` (src/van.cc) with what it calls: `ProcessHearbeat`,
-- `ProcessTerminateCommand`, `ProcessDataMsg` and `Send`. The rate of messages that are dropped for
-- a test is 0. The customer's handle is not run here: `delivered` has the customers whose
-- `DirectProcess` is called, with the message.
use step_mesh.Prelude.{
  ℕ, ◌+◌, Bool, true, false, not, Option, none, some, List, [], ◌∷◌, ◌++◌, ◌==◌, if◌then◌else◌,
  length,
}
use step_mesh.Prelude.Map.{Map, find}
use step_mesh.Prelude.Result.{Result, ok, fatal, check, ◌>>◌, ◌>>=◌}
use step_mesh.Message.{
  Meta, Node, new_meta, no_control, terminate, add_node, barrier, instance_barrier, heartbeat,
  is_cmd, control_empty, k_empty,
}
use step_mesh.Postoffice.{Postoffice}
use step_mesh.Postoffice.Customers.{get_customer}
use step_mesh.Postoffice.DeadNodes.{update_heartbeat}
use step_mesh.Resender.{Resender, add_outgoing, add_incomming}
use step_mesh.Van.{Van, process_barrier, process_instance_barrier}
use step_mesh.Van.Order.{Order}
use step_mesh.Van.Registration.{Registry}
use step_mesh.Van.AddNode.{process_add_node}

-- The timestamp of the van is that of `van`.
pub record NodeState : Type 0 where
  pub postoffice : Postoffice
  pub van : Van
  pub registry : Registry
  pub resender : Option Resender

-- The environment, the times in seconds and milliseconds, and what `customers_` holds at the rounds
-- of `GetCustomer`.
pub record Surroundings : Type 0 where
  pub rank_set : Bool
  pub order : Order
  pub heartbeat_timeout : ℕ
  pub seconds : ℕ
  pub milliseconds : ℕ
  pub tries : List (Map (Map ℕ))

-- What a message leads to; without `goes_on` the receiving thread ends.
pub record Handled : Type 0 where
  pub state : NodeState
  pub sent : List Meta
  pub delivered : List (ℕ × Meta)
  pub goes_on : Bool

-- The answer of the scheduler to a heartbeat.
abbrev pub heartbeat_ack : (my_node node : Node) (timestamp : ℕ) → Meta
heartbeat_ack my_node node timestamp = record new_meta {
  recver = node.id;
  timestamp = timestamp;
  control = record no_control { cmd = heartbeat; node = my_node ∷ [] };
}

pub heartbeat_loop :
    (t : ℕ) (my_node : Node) (timestamp : ℕ) → List Node → Postoffice → Postoffice × List Meta
unfolding update_heartbeat
heartbeat_loop t my_node timestamp [] po = (po, [])
heartbeat_loop t my_node timestamp (node ∷ nodes) po =
    let po' = update_heartbeat node.id t po in
    if po.is_scheduler
    then (let later = heartbeat_loop t my_node (timestamp + 1) nodes po' in
        (later.0, heartbeat_ack my_node node timestamp ∷ later.1))
    else heartbeat_loop t my_node timestamp nodes po'

-- The customer that a data message is for.
pub process_data : List (Map (Map ℕ)) → Postoffice → Meta → Result ℕ
unfolding get_customer
process_data tries po msg =
    check (not (msg.sender == k_empty))
    >> (check (not (msg.recver == k_empty))
        >> (check (not (msg.app_id == k_empty))
            >> elim (get_customer tries msg.app_id
                (if po.is_worker then msg.customer_id else msg.app_id)) [
                  | none ↦ fatal
                  | some customer ↦ ok customer
                ]))

abbrev pub is_shared : Registry → ℕ → Bool
is_shared registry id = elim (find id registry.shared_node_mapping) [ none ↦ false | some _ ↦ true ]

-- The state with what a handler of the van returns.
abbrev pub with_van : NodeState → Postoffice × Van × List Meta → Handled
with_van node (po, van, sent) = record {
  state = record node { postoffice = po; van = van };
  sent = sent;
  delivered = [];
  goes_on = true;
}

abbrev pub with_registry : NodeState → Postoffice × Registry × List Meta → Handled
with_registry node (po, registry, sent) = record {
  state = record node {
    postoffice = po;
    van = record node.van { timestamp = registry.timestamp };
    registry = registry;
  };
  sent = sent;
  delivered = [];
  goes_on = true;
}

abbrev pub unchanged : NodeState → List Meta → Handled
unchanged node sent = record { state = node; sent = sent; delivered = []; goes_on = true }

pub process_heartbeat : (t : ℕ) → Meta → NodeState → Handled
unfolding heartbeat_loop
process_heartbeat t msg node =
    let timestamp = node.van.timestamp in
    let answers =
      heartbeat_loop t node.registry.my_node timestamp msg.control.node node.postoffice in
    record {
      state = record node {
        postoffice = answers.0;
        van = record node.van { timestamp = timestamp + length answers.1 };
      };
      sent = answers.1;
      delivered = [];
      goes_on = true;
    }

-- The branches of `Receiving`; an unknown command is dropped.
pub handle : Surroundings → Meta → NodeState → Result Handled
unfolding process_data process_heartbeat process_add_node process_barrier process_instance_barrier
handle around msg node =
    let cmd = msg.control.cmd in
    let registry = record node.registry { timestamp = node.van.timestamp } in
    let added =
      process_add_node around.rank_set around.order around.seconds around.heartbeat_timeout msg
        node.postoffice registry
      >>= (λ r. ok (with_registry node r)) in
    let at_barrier =
      process_barrier (is_shared registry) node.postoffice node.van msg
      >>= (λ r. ok (with_van node r)) in
    let at_instance_barrier =
      process_instance_barrier (is_shared registry) node.postoffice node.van msg
      >>= (λ r. ok (with_van node r)) in
    let given =
      process_data around.tries node.postoffice msg
      >>= (λ customer. ok (record (unchanged node []) { delivered = (customer, msg) ∷ [] })) in
    if control_empty msg.control
    then given
    else if is_cmd cmd terminate
    then ok
        (record (unchanged (record node { registry = record node.registry { ready = false } }) []) {
          goes_on = false;
        })
    else if is_cmd cmd add_node
    then added
    else if is_cmd cmd barrier
    then at_barrier
    else if is_cmd cmd instance_barrier
    then at_instance_barrier
    else if is_cmd cmd heartbeat
    then ok (process_heartbeat around.seconds msg node)
    else ok (unchanged node [])

-- `Send` of each message: with a resender it is kept until it is acknowledged.
unfoldable pub keep_sent : (my_node_id now : ℕ) → List Meta → Resender → Result Resender
unfolding add_outgoing
keep_sent my_node_id now [] s = ok s
keep_sent my_node_id now (m ∷ sent) s =
    add_outgoing my_node_id s m now >>= keep_sent my_node_id now sent

-- The round for a message that is new: `acks` have been sent.
unfoldable pub receive_new :
    Surroundings → Meta → NodeState → Resender → (acks : List Meta) → Result Handled
unfolding handle keep_sent
receive_new around msg node s acks = handle around msg node >>= (λ h.
    keep_sent h.state.registry.my_node.id around.milliseconds h.sent s >>= (λ s'.
      ok (record h { state = record h.state { resender = some s' }; sent = acks ++ h.sent })))

unfoldable pub receive_checked :
    Surroundings → Meta → NodeState → Resender × Bool × List Meta → Result Handled
unfolding receive_new
receive_checked around msg node (s, true, acks) =
    ok (unchanged (record node { resender = some s }) acks)
receive_checked around msg node (s, false, acks) = receive_new around msg node s acks

unfoldable pub receive_with : Surroundings → Meta → NodeState → Option Resender → Result Handled
unfolding handle receive_checked add_incomming
receive_with around msg node none = handle around msg node
receive_with around msg node (some s) =
    add_incomming node.registry.my_node.id s msg >>= (λ r. receive_checked around msg node r)

unfoldable pub receive_msg : Surroundings → Meta → NodeState → Result Handled
unfolding receive_with
receive_msg around msg node = receive_with around msg node node.resender
