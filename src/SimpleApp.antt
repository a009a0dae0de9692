-- ===== src/SimpleApp.antt =====
-- `SimpleApp` (include/ps/simple_app.h): requests and responses with a number and a text. A handle
-- is known by what it is called with: the request handle that the constructor sets answers with an
-- empty text, and the response handle does nothing. Handles are set.
pub mod Group
mod Tests
use step_mesh.Prelude.{
  ℕ, zero, suc, ◌+◌, ◌/◌, ◌<◌, ◌≡◌, ◌≢◌, refl, ap, ◌∙◌, Bool, true, false, List, [], ◌∷◌, ◌++◌, map,
  arith, length, ◌==◌, if◌then◌else◌,
}
use step_mesh.Prelude.Int.{ℤ}
use step_mesh.Prelude.Result.{Result, ok, fatal, ◌>>=◌}
use step_mesh.Message.{Meta, new_meta}
use step_mesh.Postoffice.{Postoffice, get_node_ids}
use step_mesh.Customer.{Tracker, new_request}

pub record SimpleData : Type 0 where
  pub head : ℤ
  pub body : List ℕ
  pub sender : ℕ
  pub timestamp : ℕ
  pub customer_id : ℕ

-- The message for one receiver. An empty text leaves the body, which is empty.
abbrev pub request_message :
    (app_id customer_id timestamp : ℕ) (req_head : ℤ) (req_body : List ℕ) (recver : ℕ) → Meta
request_message app_id customer_id timestamp req_head req_body recver = record new_meta {
  head = req_head;
  body = req_body;
  timestamp = timestamp;
  request = true;
  simple_app = true;
  app_id = app_id;
  customer_id = customer_id;
  recver = recver;
}

-- `Request` at time `now`: the tracker, the timestamp and the messages.
unfoldable pub request :
    Postoffice
    → (app_id customer_id now : ℕ) (req_head : ℤ) (req_body : List ℕ) (recv_id : ℕ) → Tracker
    → Result (Tracker × ℕ × List Meta)
unfolding new_request get_node_ids
request po app_id customer_id now req_head req_body recv_id tracker =
    new_request po recv_id now tracker >>= (λ (tracker', ts). get_node_ids po recv_id >>= (λ ids.
      ok (tracker', ts, map (request_message app_id customer_id ts req_head req_body) ids)))

-- `Response`
unfoldable pub response : (app_id : ℕ) → SimpleData → (res_body : List ℕ) → Meta
response app_id req res_body = record new_meta {
  head = req.head;
  body = res_body;
  timestamp = req.timestamp;
  request = false;
  simple_app = true;
  app_id = app_id;
  customer_id = req.customer_id;
  recver = req.sender;
}

-- `Process`: whether the request handle is called, and with what.
unfoldable pub process : Meta → Bool × SimpleData
process msg = (
  msg.request,
  record {
    head = msg.head;
    body = msg.body;
    sender = msg.sender;
    timestamp = msg.timestamp;
    customer_id = msg.customer_id;
  },
)

-- The answers of the request handle that the constructor sets.
pub default_answers : (app_id : ℕ) → Bool × SimpleData → List Meta
unfolding response
default_answers app_id (true, recved) = response app_id recved [] ∷ []
default_answers app_id (false, recved) = []
