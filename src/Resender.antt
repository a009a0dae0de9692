-- ===== src/Resender.antt =====
-- `Resender` (src/resender.h). A message is known by what GetKey and the answers read of it; times
-- are in milliseconds. The retransmission thread is one call of `monitoring_round` for each round.
-- A timestamp is below 2 ^ 30, so that its shift does not overflow an `int`.
pub mod Key
pub mod Delivery
pub mod Acked
mod Tests
use step_mesh.Prelude.{
  ℕ, zero, suc, ◌+◌, ◌-◌, ◌*◌, ◌/◌, ◌%◌, ◌^◌, ◌≤◌, ◌<◌, ◌≡◌, refl, sym, ap, ◌∙◌, ◌≢◌, ◌↔◌, ◌⊎◌, inl,
  inr, Bool, true, false, not, ◌&&◌, ◌||◌, Option, none, some, List, [], ◌∷◌, ◌++◌, map, arith, ltb,
  leb, ◌==◌, if◌then◌else◌, Bool-cases, Option-cases, length, get_elem?, set, take, drop, replicate,
  get_or, length-append, length-set, length-drop, length-take, take-append-drop, length-map,
  length-replicate, ==_iff,
}
use step_mesh.Prelude.Map.{Map, find, insert, erase}
use step_mesh.Prelude.Result.{Result, ok, fatal, check, ◌>>◌, ◌>>=◌}
use step_mesh.Message.{Meta, Command, new_meta, no_control, terminate, ack, k_empty, is_cmd}

pub record Entry : Type 0 where
  pub msg : Meta
  pub send : ℕ
  pub num_retry : ℕ

pub record Resender : Type 0 where
  pub send_buff : Map Entry
  pub acked : Map (Unit {0})
  pub timeout : ℕ
  pub max_num_retry : ℕ

abbrev pub bit : Bool → ℕ
bit true = 1
bit false = 0

-- `my_node_id` is `van_->my_node().id` at the call. The fields are cut to 16, 8 and 8 bits; they
-- and the low 32 bits do not overlap, so `|` is a sum.
unfoldable pub get_key : (my_node_id : ℕ) → Meta → Result ℕ
get_key my_node_id msg =
    check (not (msg.timestamp == k_empty))
    >> (let id = msg.app_id % 2 ^ 16 in
        let sender = (if msg.sender == k_empty then my_node_id else msg.sender) % 2 ^ 8 in
        let recver = msg.recver % 2 ^ 8 in
        ok (id * 2 ^ 48 + sender * 2 ^ 40 + recver * 2 ^ 32 + msg.timestamp * 2 + bit msg.request))

pub buffer : Resender → Meta → (key now : ℕ) → Option Entry → Resender
buffer s msg key now (some e) = s
buffer s msg key now none = record s {
  send_buff = insert key (record { msg = msg; send = now; num_retry = 0 }) s.send_buff;
}

unfoldable pub add_outgoing : (my_node_id : ℕ) → Resender → Meta → (now : ℕ) → Result Resender
unfolding get_key buffer
add_outgoing my_node_id s msg now =
    if is_cmd msg.control.cmd ack
    then ok s
    else (get_key my_node_id msg >>= (λ key. ok (buffer s msg key now (find key s.send_buff))))

-- The acknowledgement of a message.
abbrev pub ack_of : Meta → (key : ℕ) → Meta
ack_of msg key = record new_meta {
  recver = msg.sender;
  sender = msg.recver;
  control = record no_control { cmd = ack; msg_sig = key };
}

-- Whether the message was seen before, with the state after it and what is sent back.
unfoldable pub accept :
    Resender → Meta → (key : ℕ) → Option (Unit {0}) → Resender × Bool × List Meta
accept s msg key none = (record s { acked = insert key tt s.acked }, false, ack_of msg key ∷ [])
accept s msg key (some _) = (s, true, ack_of msg key ∷ [])

unfoldable pub add_incomming :
    (my_node_id : ℕ) → Resender → Meta → Result (Resender × Bool × List Meta)
unfolding get_key accept
add_incomming my_node_id s msg =
    if is_cmd msg.control.cmd terminate
    then ok (s, false, [])
    else (if is_cmd msg.control.cmd ack
        then ok (record s { send_buff = erase msg.control.msg_sig s.send_buff }, true, [])
        else (get_key my_node_id msg >>= (λ key. ok (accept s msg key (find key s.acked)))))

-- The loop of `Monitoring` over the buffer: what is to be sent again, and the entries after it.
pub monitor_entries : (timeout max_num_retry now : ℕ) → Map Entry → Result (List Meta × Map Entry)
monitor_entries timeout max_num_retry now [] = ok ([], [])
monitor_entries timeout max_num_retry now ((key, e) ∷ entries) =
    let rest = monitor_entries timeout max_num_retry now entries in
    if ltb (e.send + timeout * (1 + e.num_retry)) now
    then (check (ltb (e.num_retry + 1) max_num_retry)
        >> (rest
            >>= (λ r. ok (e.msg ∷ r.0, (key, record e { num_retry = e.num_retry + 1 }) ∷ r.1))))
    else (rest >>= (λ r. ok (r.0, (key, e) ∷ r.1)))

pub monitoring_round : Resender → (now : ℕ) → Result (List Meta × Resender)
unfolding monitor_entries
monitoring_round s now =
    monitor_entries s.timeout s.max_num_retry now s.send_buff
    >>= (λ r. ok (r.0, record s { send_buff = r.1 }))
