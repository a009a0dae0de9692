-- ===== src/KvWorker/Push.antt =====
-- A push from `ZPush` to the servers and back.
use step_mesh.KvWorker.Slices.{length-FitRanges, skipped-lt, default_slicer-Partitions, IsSliceable}
use mathlib.Core.Path.{subst}
use step_mesh.Postoffice.Groups.{get_node_ids-found}
use step_mesh.Prelude.Result.{fatal}
use step_mesh.Prelude.{
  get_elem?-set_self, get_elem?-last, ℕ, ◌+◌, ◌*◌, ◌/◌, ◌<◌, ◌≡◌, ◌∙◌, refl, sym, ap, true, false,
  Option, none, some, List, [], ◌∷◌, ◌++◌, arith, ◌==◌, length, length-append, set,
}
use step_mesh.Slicer.{KvPairs, SlicedKvs, default_slicer}
use step_mesh.Postoffice.{Postoffice, k_server_group, k_max_key}
use step_mesh.Postoffice.KeyRanges.{get_server_key_ranges, get_server_key_ranges_lem}
use step_mesh.Customer.{CustomerTracker, bump, new_request, add_response, push_tracker, Tracker}
use step_mesh.Customer.Tracking.{
  run_calls-responses, IsTracked, Call, AreData, responses, run_calls,
}
use step_mesh.KvWorker.{Result, user, Array, Meta, ℤ, ok, Setting, KvWorker, map_option}
use step_mesh.KvWorker.Calls.{send_slices, skipped, send, z_push, add_callback}
use step_mesh.KvWorker.Copies.{joined}
use step_mesh.KvWorker.Sending.{
  length-send_slices, marked, marked-joined, AreDeliveries, send_slices-AreDeliveries,
}

-- A request to `n` servers can be made.
pub record IsConnected (po : Postoffice) : Type 0 where
  pub ids : List ℕ
  pub table : po.node_ids k_server_group ≡ some ids
  pub groups : length ids / po.group_size ≡ po.num_servers
  pub sized : 0 < po.group_size
  pub fresh : po.server_key_ranges ≡ []

new_request-connected :
    (po : Postoffice) (now : ℕ) (tracker : Tracker)
    → IsConnected po
    → new_request po k_server_group now tracker
      ≡ ok (push_tracker po.num_servers now tracker, length tracker)
unfolding new_request
new_request-connected po now tracker net =
    let nonzero : (po.group_size == 0) ≡ false = ground (arith, net.sized) in
    rw (get_node_ids-found po k_server_group net.ids net.table, nonzero, net.groups)
      (ap (λ n. ok (push_tracker po.num_servers now tracker, n))
        (omega (
          arith,
          length-append tracker (
              record {
                count = po.num_servers;
                response_count = 0;
                response_count_cache = 0;
                start_time = now;
              }
              ∷ []),
        )))

abbrev map_ok : {A B : Type 0} → (A → B) → Result A → Result B
map_ok f (ok a) = ok (f a)
map_ok f fatal = fatal

abbrev or_else : {A : Type 0} → A → Result A → A
or_else d (ok a) = a
or_else d fatal = d

-- What `AddResponse` makes of a new request.
add_response-pushed :
    (n now num : ℕ) (tracker : Tracker)
    → (tracker' : Tracker) × (add_response (length tracker) num (push_tracker n now tracker)
        ≡ ok tracker')
      × IsTracked tracker' (length tracker) n num
unfolding add_response
add_response-pushed n now num tracker =
    let t : CustomerTracker = record {
      count = n;
      response_count = 0;
      response_count_cache = 0;
      start_time = now;
    } in
    let t' : CustomerTracker = record {
      count = n;
      response_count = 0 + num;
      response_count_cache = 0;
      start_time = now;
    } in
    (
      set (push_tracker n now tracker) (length tracker) t',
      ap (bump (push_tracker n now tracker) (length tracker) num) (get_elem?-last tracker t),
      (
        t',
        get_elem?-set_self (push_tracker n now tracker) (length tracker) t'
            (omega (arith, length-append tracker (t ∷ []))),
        refl,
        omega arith,
      ),
    )

module _ {V : Type 0} where
  -- What a push has sent: `messages` that arrive as `pairs`, which are together what was pushed; and
  -- the responses that are already credited.
  pub record IsPushed (setting : Setting V) (cmd : ℤ) (kvs : KvPairs V) (w w' : KvWorker V)
      (messages : List (Meta × List (Array V))) : Type 0 where
    pub pairs : List (KvPairs V)
    pub credited : ℕ
    pub sent : w'.sent ≡ w.sent ++ messages
    pub deliveries :
        AreDeliveries setting
          (get_server_key_ranges setting.postoffice).1
          (length w.tracker)
          cmd
          messages
          pairs
    pub keys : joined (λ s. s.keys) pairs ≡ kvs.keys
    pub vals : joined (λ s. s.vals) pairs ≡ kvs.vals
    pub lens : joined (λ s. s.lens) pairs ≡ kvs.lens
    pub tracked : IsTracked w'.tracker (length w.tracker) setting.postoffice.num_servers credited
    pub all_credited : credited + length messages ≡ setting.postoffice.num_servers

  -- Sending slices of which some are marked.
  send-some :
      (setting : Setting V) (ts : ℕ) (cmd : ℤ) (kvs : KvPairs V) (w : KvWorker V)
      (sliced : SlicedKvs V) (tracker' : Tracker)
      → default_slicer kvs (get_server_key_ranges setting.postoffice).1 ≡ ok sliced
      → add_response ts (skipped sliced) w.tracker ≡ ok tracker'
      → skipped sliced < length sliced
      → send setting ts true cmd kvs w
        ≡ ok (record w {
          tracker = tracker';
          sent = w.sent ++ send_slices setting ts true cmd 0 sliced;
        })
  unfolding send
  send-some setting ts cmd kvs w sliced tracker' cut added some_sent =
      let differ : (skipped sliced == length sliced) ≡ false = ground arith in
      rw (cut, added, differ) refl

  z_push-some :
      (setting : Setting V) (now : ℕ) (cmd : ℤ) (cb : Option ℕ) (kvs : KvPairs V) (w : KvWorker V)
      (sliced : SlicedKvs V) (tracker' : Tracker)
      → IsConnected setting.postoffice
      → default_slicer kvs (get_server_key_ranges setting.postoffice).1 ≡ ok sliced
      → add_response
          (length w.tracker)
          (skipped sliced)
          (push_tracker setting.postoffice.num_servers now w.tracker)
        ≡ ok tracker'
      → skipped sliced < length sliced
      → (w' : KvWorker V) × (z_push setting now cmd cb kvs w ≡ ok (w', length w.tracker))
        × (w'.sent ≡ w.sent ++ send_slices setting (length w.tracker) true cmd 0 sliced)
        × (w'.tracker ≡ tracker')
  unfolding z_push add_callback
  z_push-some setting now cmd none kvs w sliced tracker' net cut added some_sent =
      let w1 =
        add_callback (length w.tracker) (map_option user none)
          (record w { tracker = push_tracker setting.postoffice.num_servers now w.tracker }) in
      let sends =
        send-some setting (length w.tracker) cmd kvs w1 sliced tracker' cut added some_sent in
      (
        record w1 {
          tracker = tracker';
          sent = w1.sent ++ send_slices setting (length w.tracker) true cmd 0 sliced;
        },
        rw (new_request-connected setting.postoffice now w.tracker net, sends) refl,
        refl,
        refl,
      )
  z_push-some setting now cmd (some f) kvs w sliced tracker' net cut added some_sent =
      let w1 =
        add_callback (length w.tracker) (map_option user (some f))
          (record w { tracker = push_tracker setting.postoffice.num_servers now w.tracker }) in
      let sends =
        send-some setting (length w.tracker) cmd kvs w1 sliced tracker' cut added some_sent in
      (
        record w1 {
          tracker = tracker';
          sent = w1.sent ++ send_slices setting (length w.tracker) true cmd 0 sliced;
        },
        rw (new_request-connected setting.postoffice now w.tracker net, sends) refl,
        refl,
        refl,
      )

  module _ (setting : Setting V) (now : ℕ) (cmd : ℤ) (cb : Option ℕ) (kvs : KvPairs V)
      (w : KvWorker V) (net : IsConnected setting.postoffice)
      (sliceable : IsSliceable setting.postoffice kvs) (some_key : 0 < length kvs.keys) where
    -- A worker that is connected pushes keys and values that can be sliced. The push returns, with
    -- the next timestamp; its messages can be read by the servers with the ranges of their keys, and
    -- are together what was pushed, in order; and the responses that are credited at once, for the
    -- servers that get no message, are as many as make the number of servers with the messages.
    pub z_push-delivers :
        (w' : KvWorker V) × (z_push setting now cmd cb kvs w ≡ ok (w', length w.tracker))
        × (messages : List (Meta × List (Array V))) × IsPushed setting cmd kvs w w' messages
    z_push-delivers =
        let po = setting.postoffice in
        let ranges = (get_server_key_ranges po).1 in
        let (number, adjacent, bound) = get_server_key_ranges_lem po net.fresh in
        let (sliced, cut, parts) =
          default_slicer-Partitions ranges (k_max_key / po.num_servers * po.num_servers) kvs.keys
            kvs.vals kvs.lens adjacent sliceable.0 sliceable.1 sliceable.2 in
        let some_sent = skipped-lt sliced ranges parts.fit (omega (arith, ap length parts.keys)) in
        let (tracker', added, tracked) =
          add_response-pushed po.num_servers now (skipped sliced) w.tracker in
        let (w', pushes, sent, trackers) =
          z_push-some setting now cmd cb kvs w sliced tracker' net cut added some_sent in
        let messages = send_slices setting (length w.tracker) true cmd 0 sliced in
        (
          w',
          pushes,
          messages,
          record {
            pairs = marked sliced;
            credited = skipped sliced;
            sent = sent;
            deliveries =
                send_slices-AreDeliveries setting (length w.tracker) cmd [] ranges sliced parts.fit;
            keys = marked-joined (λ s. s.keys) sliced ranges refl parts.fit ∙ parts.keys;
            vals = marked-joined (λ s. s.vals) sliced ranges refl parts.fit ∙ parts.vals;
            lens = marked-joined (λ s. s.lens) sliced ranges refl parts.fit ∙ parts.lens;
            tracked =
                subst (λ t. IsTracked t (length w.tracker) po.num_servers (skipped sliced))
                  (sym trackers) tracked;
            all_credited =
                length-send_slices setting (length w.tracker) true cmd 0 sliced
                ∙ length-FitRanges sliced ranges parts.fit
                ∙ number;
          },
        )

    -- After such a push, and any calls of the customer that bring one response to it for each
    -- message that it sent: as many responses are counted as the request waits for.
    pub z_push-completes :
        (w' : KvWorker V) (ts : ℕ) (messages : List (Meta × List (Array V))) (calls : List Call)
        (tracker : Tracker)
        → z_push setting now cmd cb kvs w ≡ ok (w', ts)
        → w'.sent ≡ w.sent ++ messages
        → AreData calls
        → responses ts calls ≡ length messages
        → run_calls calls w'.tracker ≡ ok tracker
        → IsTracked tracker ts setting.postoffice.num_servers setting.postoffice.num_servers
    z_push-completes w' ts messages calls tracker pushes sent data_ok answered ran =
        let (w1, pushes1, messages1, p) = z_push-delivers in
        let both : ok (w1, length w.tracker) ≡ ok (w', ts) = sym pushes1 ∙ pushes in
        let same : w1 ≡ w' = ap (λ r. or_else w1 (map_ok (λ q. q.0) r)) both in
        let stamp : length w.tracker ≡ ts = ap (λ r. or_else 0 (map_ok (λ q. q.1) r)) both in
        let tracked : IsTracked w'.tracker ts setting.postoffice.num_servers p.credited =
          subst (λ v. IsTracked v.tracker ts setting.postoffice.num_servers p.credited) same
            (subst (λ s. IsTracked w1.tracker s setting.postoffice.num_servers p.credited) stamp
              p.tracked) in
        let counted : p.credited + responses ts calls ≡ setting.postoffice.num_servers = omega (
          arith,
          p.all_credited,
          ap (λ v. length v.sent) same,
          ap length p.sent,
          ap length sent,
          length-append w.sent messages,
          length-append w.sent messages1,
        ) in
        subst (λ n. IsTracked tracker ts setting.postoffice.num_servers n) counted
          (run_calls-responses calls w'.tracker tracker ts setting.postoffice.num_servers p.credited
            data_ok tracked ran)
