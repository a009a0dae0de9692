-- ===== src/Customer/Requests.antt =====
-- What a request that `NewRequest` makes waits for, and what is counted of it.
use step_mesh.Postoffice.Groups.{get_node_ids-found}
use step_mesh.Prelude.{
  get_elem?-last, ℕ, ◌/◌, ◌≡◌, refl, ap, ◌∙◌, inl, inr, Option, none, some, List, [], ◌∷◌, arith,
  ◌==◌, Bool-cases, length, get_elem?, length-append,
}
use step_mesh.Prelude.Result.{Result, ok, fatal}
use step_mesh.Customer.{
  k_server_group, Postoffice, new_request, CustomerTracker, Tracker, push_tracker, num_response,
}
use step_mesh.Customer.Tracking.{
  Call, run_calls, responses, AreData, IsTracked, run_calls-responses,
}

pub new_request-ok :
    (po : Postoffice) (now ts : ℕ) (tracker tracker1 : Tracker) (ids : List ℕ)
    → po.node_ids k_server_group ≡ some ids
    → new_request po k_server_group now tracker ≡ ok (tracker1, ts)
    → (tracker1 ≡ push_tracker (length ids / po.group_size) now tracker) × (ts ≡ length tracker)
unfolding new_request
new_request-ok po now ts tracker tracker1 ids table made =
    let e = rw (get_node_ids-found po k_server_group ids table) at made in
    elim (Bool-cases (po.group_size == 0)) [
      | inl z ↦ absurd (ground arith)
      | inr pos ↦
          let num = length ids / po.group_size in
          ground (
            arith,
            length-append tracker (
                record {
                  count = num;
                  response_count = 0;
                  response_count_cache = 0;
                  start_time = now;
                }
                ∷ []),
          )
    ]

abbrev count_of : Option CustomerTracker → Result ℕ
count_of none = fatal
count_of (some t) = ok t.count

pub num_response-tracked :
    (tracker : Tracker) (ts n seen : ℕ)
    → IsTracked tracker ts n seen
    → num_response ts tracker ≡ ok n
unfolding num_response
num_response-tracked tracker ts n seen (t, found, c, r) = ap count_of found ∙ ap ok c

-- A new request to the servers, of which there are `n` groups, and then any calls: the tracker has
-- counted exactly the responses and credits for this request, and `NumResponse` is `n` throughout,
-- however many responses have come.
pub new_request-responses :
    (po : Postoffice) (now n ts : ℕ) (calls : List Call) (tracker tracker1 tracker2 : Tracker)
    (ids : List ℕ)
    → po.node_ids k_server_group ≡ some ids
    → length ids / po.group_size ≡ n
    → new_request po k_server_group now tracker ≡ ok (tracker1, ts)
    → AreData calls
    → run_calls calls tracker1 ≡ ok tracker2
    → (ts ≡ length tracker)
      × IsTracked tracker2 ts n (responses ts calls)
      × (num_response ts tracker2 ≡ ok n)
unfolding num_response
new_request-responses po now n ts calls tracker tracker1 tracker2 ids table groups made data_ok
      ran =
    let num = length ids / po.group_size in
    let (pushed, stamp) = new_request-ok po now ts tracker tracker1 ids table made in
    let (t, found, c, r) =
      run_calls-responses calls tracker1 tracker2 ts n 0 data_ok
        (
          record { count = num; response_count = 0; response_count_cache = 0; start_time = now },
          ap (λ l. get_elem? l ts) pushed
              ∙ ap (get_elem? (push_tracker num now tracker)) stamp
              ∙ get_elem?-last tracker _,
          groups,
          refl,
        )
        ran in
    (stamp, (t, found, c, omega arith), ap count_of found ∙ ap ok c)
