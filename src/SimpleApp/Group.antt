-- ===== src/SimpleApp/Group.antt =====
-- A request to all servers: who answers it, and how many answers it waits for.
use step_mesh.Prelude.{
  ◌^◌, ◌%◌, All-mono, get_elem?-last, ◌*◌, inr, get_elem?, inl, ltb, Bool-cases, ℕ, ◌+◌, ◌/◌, ◌≤◌,
  ◌<◌, ◌≡◌, ◌≢◌, ◌∙◌, refl, ap, sym, false, Option, none, some, List, [], ◌∷◌, map, arith, length,
  ◌==◌, All, length-map,
}
use step_mesh.Prelude.Result.{ok-injective, bind-ok, Result, ok, fatal}
use step_mesh.Message.{Meta}
use step_mesh.Postoffice.{Postoffice, k_server_group}
use step_mesh.Postoffice.Groups.{get_node_ids-found}
use step_mesh.Customer.{
  CustomerTracker, elapsed, k_max_spin_count, new_request, wait_request, Tracker, wait_loop,
  push_tracker,
}
use step_mesh.Customer.Requests.{new_request-ok}
use step_mesh.Customer.Tracking.{IsTracked}
use step_mesh.SimpleApp.{ℤ, request, request_message}

-- A wait that reads more responses than it waits for never ends well, whatever it reads next, since
-- the count only grows.
wait_loop-over :
    (count start_time timeout_ns spin_count : ℕ) (rounds : List (ℕ × ℕ))
    → All (λ r. count < r.0) rounds
    → wait_loop count start_time timeout_ns spin_count rounds ≢ some (ok tt)
unfolding wait_loop
wait_loop-over count start_time timeout_ns spin_count [] over e = ground arith
wait_loop-over count start_time timeout_ns spin_count ((responses, now) ∷ rounds) over e =
    let more : (count == responses) ≡ false = ground (arith, over.0) in
    elim (Bool-cases (ltb spin_count k_max_spin_count)) [
      | inl spins ↦
          wait_loop-over count start_time timeout_ns (spin_count + 1) rounds over.1
            (rw (more, spins) at e)
      | inr pauses ↦ elim (Bool-cases (ltb timeout_ns (elapsed now start_time))) [
        | inl late ↦ absurd (ground (arith, rw (more, pauses, late) at e))
        | inr in_time ↦
            wait_loop-over count start_time timeout_ns spin_count rounds over.1
              (rw (more, pauses, in_time) at e)
      ]
    ]

div-lt : (n g : ℕ) → 0 < n → 1 < g → n / g < n
div-lt n g some_n several = grind arith

-- What a wait makes of a request that is tracked.
wait_request-tracked :
    (ts timeout_ms : ℕ) (tracker : Tracker) (rounds : List (ℕ × ℕ)) (t : CustomerTracker)
    → get_elem? tracker ts ≡ some t
    → wait_request ts timeout_ms tracker rounds
      ≡ wait_loop t.count t.start_time (timeout_ms * 1000000 % 2 ^ 64) 0 rounds
unfolding wait_request
wait_request-tracked ts timeout_ms tracker rounds t found =
    ap
      (λ o. elim o as (λ _. Option (Result (Unit {0}))) [
        | none ↦ some fatal
        | some u ↦ wait_loop u.count u.start_time (timeout_ms * 1000000 % 2 ^ 64) 0 rounds
      ])
      found

map-recver :
    (app_id customer_id ts : ℕ) (req_head : ℤ) (req_body ids : List ℕ)
    → map (λ m. m.recver) (map (request_message app_id customer_id ts req_head req_body) ids) ≡ ids
map-recver app_id customer_id ts req_head req_body [] = refl
map-recver app_id customer_id ts req_head req_body (i ∷ ids) =
    ap (λ l. i ∷ l) (map-recver app_id customer_id ts req_head req_body ids)

module _ (po : Postoffice) (app_id customer_id now : ℕ) (req_head : ℤ) (req_body : List ℕ)
    (tracker tracker' : Tracker) (ts : ℕ) (messages : List Meta) (ids : List ℕ)
    (table : po.node_ids k_server_group ≡ some ids)
    (asked : request po app_id customer_id now req_head req_body k_server_group tracker
      ≡ ok (tracker', ts, messages)) where
  request-parts :
      (new_request po k_server_group now tracker ≡ ok (tracker', ts))
      × (messages ≡ map (request_message app_id customer_id ts req_head req_body) ids)
  unfolding request
  request-parts =
      let (made, first, later) =
        bind-ok (new_request po k_server_group now tracker) _ (tracker', ts, messages) asked in
      let sent : ok
            (made.0, made.1, map (request_message app_id customer_id made.1 req_head req_body) ids)
          ≡ ok (tracker', ts, messages) =
        rw (get_node_ids-found po k_server_group ids table) at later in
      let is = ok-injective sent in
      let stamp : made.1 ≡ ts = ap (λ r. r.1) is in
      (
        first ∙ ap (λ r. ok (r.0, r.1)) is,
        sym (ap (λ r. r.2) is)
            ∙ ap (λ s. map (request_message app_id customer_id s req_head req_body) ids) stamp,
      )

  -- A request to all servers goes to each instance of them, and waits for as many answers as there
  -- are groups. With more than one instance in a group, and once every instance has answered, no
  -- wait for it ends well, whatever it goes on to read.
  pub request-overshoots :
      (timeout_ms : ℕ) (rounds : List (ℕ × ℕ))
      → 1 < po.group_size
      → 0 < length ids
      → All (λ r. length messages ≤ r.0) rounds
      → (map (λ m. m.recver) messages ≡ ids)
        × IsTracked tracker' ts (length ids / po.group_size) 0
        × (wait_request ts timeout_ms tracker' rounds ≢ some (ok tt))
  request-overshoots timeout_ms rounds several some_ids answered =
      let n = length ids / po.group_size in
      let (made, sent) = request-parts in
      let (pushed, stamp) = new_request-ok po now ts tracker tracker' ids table made in
      let t : CustomerTracker = record {
        count = n;
        response_count = 0;
        response_count_cache = 0;
        start_time = now;
      } in
      let found : get_elem? tracker' ts ≡ some t =
        ap (λ l. get_elem? l ts) pushed
        ∙ ap (get_elem? (push_tracker n now tracker)) stamp
        ∙ get_elem?-last tracker t in
      let more : n < length messages = omega (
        arith,
        div-lt (length ids) po.group_size some_ids several,
        ap length sent,
        length-map ids (request_message app_id customer_id ts req_head req_body),
      ) in
      (
        ap (map (λ m. m.recver)) sent ∙ map-recver app_id customer_id ts req_head req_body ids,
        (t, found, refl, refl),
        λ e.
            wait_loop-over n now (timeout_ms * 1000000 % 2 ^ 64) 0 rounds
              (All-mono (λ r. length messages ≤ r.0) (λ r. n < r.0) rounds (λ r le. omega arith)
                answered)
              (sym (wait_request-tracked ts timeout_ms tracker' rounds t found) ∙ e),
      )
