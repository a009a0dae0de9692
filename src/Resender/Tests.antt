-- ===== src/Resender/Tests.antt =====
-- A message and its acknowledgement.
use step_mesh.Prelude.{
  ℕ, ◌+◌, ◌*◌, ◌%◌, ◌^◌, ◌≡◌, refl, ◌↔◌, true, none, some, List, [], ◌∷◌, ◌++◌, arith, ◌==◌,
  if◌then◌else◌,
}
use step_mesh.Prelude.Map.{find, insert}
use step_mesh.Prelude.Result.{ok}
use step_mesh.Message.{Meta, new_meta, no_control, ack}
use step_mesh.Resender.{Resender, get_key, add_outgoing, add_incomming, monitoring_round}
use step_mesh.Resender.Key.{sender_of, get_key-collides}
use step_mesh.Resender.Delivery.{add_incomming-ack}

abbrev fresh : Resender
fresh = record { send_buff = []; acked = []; timeout = 1000; max_num_retry = 10 }

-- Node 9 and node 265 to node 8.
abbrev from : ℕ → Meta
from k = record new_meta { app_id = 0; sender = k; recver = 8; timestamp = 3; request = true }

abbrev key : ℕ
key = 9 * 2 ^ 40 + 8 * 2 ^ 32 + 7

key-9 : get_key 8 (from 9) ≡ ok key
unfolding get_key
key-9 = refl

key-265 : get_key 8 (from 265) ≡ ok key
unfolding get_key
key-265 = refl

get_key-collides_example : (key ≡ key) ↔ (
    (0 % 2 ^ 16 ≡ 0 % 2 ^ 16)
    × (sender_of 8 (from 9) % 2 ^ 8 ≡ sender_of 8 (from 265) % 2 ^ 8)
    × (8 % 2 ^ 8 ≡ 8 % 2 ^ 8)
    × ((from 9).timestamp ≡ (from 265).timestamp)
    × (true ≡ true))
get_key-collides_example =
    get_key-collides 8 (from 9) (from 265) key key key-9 key-265 (omega arith) (omega arith)

abbrev sent : Resender
sent = record fresh { send_buff = (key, record { msg = from 9; send = 100; num_retry = 0 }) ∷ [] }

add_outgoing-fresh : add_outgoing 8 fresh (from 9) 100 ≡ ok sent
unfolding add_outgoing find insert
add_outgoing-fresh = refl

abbrev answer : Meta
answer = record new_meta { control = record no_control { cmd = ack; msg_sig = key } }

abbrev sent_again : Resender
sent_again = record fresh {
  send_buff = (key, record { msg = from 9; send = 100; num_retry = 1 }) ∷ [];
}

monitoring_round-sent : monitoring_round sent 1200 ≡ ok (from 9 ∷ [], sent_again)
unfolding monitoring_round
monitoring_round-sent = refl

nothing_sent : find key fresh.send_buff ≡ none
unfolding find
nothing_sent = refl

add_incomming-ack_example :
    (find key sent.send_buff ≡ some (record { msg = from 9; send = 100; num_retry = 0 }))
    × (before : List Meta) × (after : List Meta) × (from 9 ∷ [] ≡ before ++ from 9 ∷ after)
    × (s'' : Resender) × (add_incomming 8 sent answer ≡ ok (s'', true, []))
    × (find 5 s''.send_buff ≡ (if key == 5 then none else find 5 sent.send_buff))
add_incomming-ack_example =
    add_incomming-ack 8 fresh sent (from 9) answer key 100 1200 5 (from 9 ∷ [], sent_again) refl
      key-9 nothing_sent add_outgoing-fresh (omega arith) monitoring_round-sent refl refl refl
