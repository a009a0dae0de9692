-- ===== src/Van/NodeTests.antt =====
-- A job of one server and one worker: their registration, a server that dies and comes back, and a
-- message that comes twice.
use step_mesh.Van.Ranks.{AreApart}
use step_mesh.Resender.{get_key, ack_of, Resender}
use step_mesh.Prelude.{
  ℕ, ◌+◌, ◌*◌, ◌^◌, ◌≡◌, refl, inl, inr, true, false, Option, none, some, List, [], ◌∷◌, arith,
  ◌==◌, if◌then◌else◌, map,
}
use step_mesh.Prelude.Int.{negsuc}
use step_mesh.Prelude.Map.{insert}
use step_mesh.Prelude.Result.{ok, fatal}
use step_mesh.Message.{Meta, Node, Role, server, worker, scheduler, new_meta, k_empty}
use step_mesh.Postoffice.{Postoffice}
use step_mesh.Van.{insert}
use step_mesh.Van.Order.{same_text, by_address}
use step_mesh.Van.Registration.{node_list, Registry, complete, add_node_at_scheduler}
use step_mesh.Van.AddNode.{register, recovering, replace_dead}
use step_mesh.Van.Complete.{IsComplete, complete-IsComplete}
use step_mesh.Van.Recovery.{place_of, register-keeps_places, add_node_at_scheduler-second}
use step_mesh.Van.Dispatch.{NodeState, Surroundings, Handled, receive_msg}
use step_mesh.Van.Once.{IsAck, receive_all, receive_msg-once}

abbrev table : ℕ → Option (List ℕ)
table group = if group == 6 then some (9 ∷ 8 ∷ []) else none

abbrev job : Postoffice
job = record {
  started = true;
  is_worker = false;
  is_server = false;
  is_scheduler = true;
  num_servers = 1;
  num_workers = 1;
  group_size = 1;
  preferred_rank = negsuc 0;
  init_stage = 2;
  node_ids = table;
  customers = [];
  barrier_done = [];
  server_key_ranges = [];
  heartbeats = [];
  start_time = 0;
}

abbrev node_at : Role → (id host : ℕ) → Node
node_at role id host = record {
  role = role;
  id = id;
  customer_id = 0;
  hostname = host ∷ [];
  num_ports = 1;
  ports = 40 ∷ [];
  dev_types = [];
  dev_ids = [];
  port = 40;
  is_recovery = false;
  endpoint_name = [];
  endpoint_name_len = 0;
  aux_id = negsuc 0;
}

abbrev asked : Registry
asked = record {
  my_node = node_at scheduler 1 50;
  nodes = node_at server k_empty 51 ∷ node_at worker k_empty 52 ∷ [];
  recovery_nodes = [];
  connected_nodes = [];
  shared_node_mapping = [];
  num_servers = 0;
  num_workers = 0;
  timestamp = 0;
  ready = false;
}

asked-AreApart : AreApart asked.nodes
unfolding same_text
asked-AreApart = ((refl, tt), (tt, tt))

complete-IsComplete_example :
    (po' : Postoffice) × (reg' : Registry) × (sent : List Meta) × (complete by_address 7 job asked
      ≡ ok (po', reg', sent))
    × IsComplete asked reg' (9 ∷ 8 ∷ []) sent
complete-IsComplete_example =
    complete-IsComplete 7 job asked (9 ∷ 8 ∷ []) ((inl refl, refl), ((inr refl, refl), tt))
      (refl, (refl, tt)) asked-AreApart refl refl refl refl refl

abbrev running : Registry
running = record asked {
  nodes = node_at worker 9 52 ∷ node_at server 8 51 ∷ node_at scheduler 1 50 ∷ [];
  ready = true;
}

abbrev newcomer : Node
newcomer = node_at server k_empty 53

abbrev replaced : Node
replaced = recovering (node_at server 8 51) newcomer

abbrev recovered : Registry
recovered = record running {
  nodes = node_at worker 9 52 ∷ replaced ∷ node_at scheduler 1 50 ∷ [];
  recovery_nodes = replaced ∷ [];
}

register-recovered : register job (8 ∷ []) (newcomer ∷ []) running ≡ ok (replaced ∷ [], recovered)
unfolding register
register-recovered = refl

register-keeps_places_example : map place_of recovered.nodes ≡ map place_of running.nodes
register-keeps_places_example =
    register-keeps_places job (8 ∷ []) newcomer running recovered (replaced ∷ []) (omega arith)
      register-recovered

-- The recovery is handled at time 30; then the new server dies as well.
abbrev job_at_30 : Postoffice
job_at_30 = record job { heartbeats = (8, 30) ∷ [] }

abbrev told : Registry
told = record recovered { timestamp = 1 }

abbrev told_twice : Registry
told_twice = record told { recovery_nodes = replaced ∷ replaced ∷ [] }

replace_dead-running :
    replace_dead (8 ∷ []) newcomer running.nodes ≡ some (replaced, recovered.nodes)
unfolding replace_dead
replace_dead-running = refl

add_node_at_scheduler-first :
    add_node_at_scheduler by_address 30 10 job recovered
    ≡ ok (job_at_30, told, node_list recovered.nodes 8 0 ∷ [])
unfolding add_node_at_scheduler insert
add_node_at_scheduler-first = refl

register-again : register job_at_30 (8 ∷ []) (newcomer ∷ []) told ≡ ok (replaced ∷ [], told_twice)
unfolding register
register-again = refl

replace_dead-again : replace_dead (8 ∷ []) newcomer told.nodes ≡ some (replaced, told.nodes)
unfolding replace_dead
replace_dead-again = refl

add_node_at_scheduler-second_example :
    add_node_at_scheduler by_address 60 10 job_at_30 told_twice ≡ fatal
add_node_at_scheduler-second_example =
    add_node_at_scheduler-second by_address 30 60 10 job job_at_30 (8 ∷ []) (8 ∷ []) newcomer
      newcomer running recovered told told_twice (replaced ∷ []) (replaced ∷ [])
      (replaced, recovered.nodes) (replaced, told.nodes) (node_list recovered.nodes 8 0 ∷ [])
      (omega arith) refl replace_dead-running register-recovered add_node_at_scheduler-first
      replace_dead-again register-again

abbrev sent_by_worker : Meta
sent_by_worker = record new_meta {
  sender = 9;
  recver = 8;
  app_id = 0;
  customer_id = 0;
  timestamp = 3;
  request = true;
}

abbrev resender : Resender
resender = record { send_buff = []; acked = []; timeout = 1000; max_num_retry = 10 }

abbrev at_server : NodeState
at_server = record {
  postoffice = record job { is_scheduler = false; is_server = true };
  van = record { barrier_count = []; group_barrier_requests = []; timestamp = 4 };
  registry = running;
  resender = some resender;
}

abbrev around : Surroundings
around = record {
  rank_set = false;
  order = by_address;
  heartbeat_timeout = 0;
  seconds = 9;
  milliseconds = 9000;
  tries = ((0, (0, 77) ∷ []) ∷ []) ∷ [];
}

abbrev key_of_message : ℕ
key_of_message = 9 * 2 ^ 40 + 8 * 2 ^ 32 + 7

abbrev handled : Handled
handled = record {
  state = record at_server {
    resender = some (record resender { acked = (key_of_message, tt) ∷ [] });
  };
  sent = ack_of sent_by_worker key_of_message ∷ [];
  delivered = (77, sent_by_worker) ∷ [];
  goes_on = true;
}

receive_msg-handled : receive_msg around sent_by_worker at_server ≡ ok handled
unfolding receive_msg insert
receive_msg-handled = refl

get_key-message : get_key at_server.registry.my_node.id sent_by_worker ≡ ok key_of_message
unfolding get_key
get_key-message = refl

receive_all-nothing : receive_all [] handled.state ≡ ok handled.state
unfolding receive_all
receive_all-nothing = refl

receive_msg-once_example :
    (answer : Meta) × (receive_msg around sent_by_worker handled.state
      ≡ ok (record { state = handled.state; sent = answer ∷ []; delivered = []; goes_on = true }))
    × IsAck key_of_message sent_by_worker answer
receive_msg-once_example =
    receive_msg-once key_of_message sent_by_worker around around at_server handled.state handled
      resender [] refl refl refl refl get_key-message receive_msg-handled receive_all-nothing
