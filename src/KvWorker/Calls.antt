-- ===== src/KvWorker/Calls.antt =====
-- The calls of a `KVWorker`: requests, answers and callbacks.
use step_mesh.KvWorker.{
  to_list, update_some, pull, user, map_option, KvWorker, fill, Callback, Setting,
}
use step_mesh.Prelude.Window.{update}
use step_mesh.Postoffice.KeyRanges.{get_server_key_ranges}
use step_mesh.Prelude.Int.{pos, ℤ}
use step_mesh.Message.{new_meta, Meta}
use step_mesh.KvServer.{of_lens, of_vals, of_keys, pack_data, Array}
use step_mesh.Prelude.Result.{◌>>=◌, ok, fatal, Result}
use step_mesh.Prelude.Map.{insert, erase, find}
use step_mesh.Postoffice.{k_server_group, group_server_rank_to_instance_id}
use step_mesh.Customer.{add_response, new_request, num_response}
use step_mesh.Slicer.{default_slicer, SlicedKvs, KvPairs}
use step_mesh.Prelude.{
  ℕ, suc, ◌+◌, Bool, true, false, Option, none, some, List, [], ◌∷◌, ◌++◌, ◌==◌, if◌then◌else◌,
  length, or_nil,
}

module _ {V : Type 0} where
  -- What the callback that `Pull_` adds does.
  pub run_pull :
      Setting V
      → (timestamp : ℕ) (keys : List ℕ) (vals : ℕ) (lens user_callback : Option ℕ) → KvWorker V
      → Result (KvWorker V)
  unfolding fill find erase
  run_pull setting timestamp keys vals lens user_callback w =
      fill setting keys (w.vals_at vals) (map_option w.lens_at lens)
        (or_nil (find timestamp w.recv_kvs))
      >>= (λ filled. ok (record w {
        vals_at = update w.vals_at vals filled.0;
        lens_at = update_some w.lens_at lens filled.1;
        recv_kvs = erase timestamp w.recv_kvs;
        ran = w.ran ++ to_list user_callback;
      }))

  pub run_one : Setting V → (timestamp : ℕ) → Option Callback → KvWorker V → Result (KvWorker V)
  unfolding run_pull erase
  run_one setting timestamp none w = ok w
  run_one setting timestamp (some (user f)) w =
      ok (record w { ran = w.ran ++ f ∷ []; callbacks = erase timestamp w.callbacks })
  run_one setting timestamp (some (pull ts keys vals lens user_callback)) w =
      run_pull setting ts keys vals lens user_callback w
      >>= (λ w'. ok (record w' { callbacks = erase timestamp w'.callbacks }))

  -- `RunCallback`
  pub run_callback : Setting V → (timestamp : ℕ) → KvWorker V → Result (KvWorker V)
  unfolding run_one find
  run_callback setting timestamp w = run_one setting timestamp (find timestamp w.callbacks) w

  -- `AddCallback`; an empty function is `none`.
  unfoldable pub add_callback : (timestamp : ℕ) → Option Callback → KvWorker V → KvWorker V
  unfolding insert
  add_callback timestamp none w = w
  add_callback timestamp (some cb) w = record w { callbacks = insert timestamp cb w.callbacks }

  -- `msg.data` of an answer as keys, values and lengths; there are at least two arrays.
  pub received_pairs : List (Array V) → Result (KvPairs V)
  received_pairs (of_keys keys ∷ of_vals vals ∷ []) =
      ok (record { keys = keys; vals = vals; lens = [] })
  received_pairs (of_keys keys ∷ of_vals vals ∷ of_lens lens ∷ _) =
      ok (record { keys = keys; vals = vals; lens = lens })
  received_pairs _ = fatal

  -- The data of an answer to a pull are kept; an answer without data, or to a push, has none.
  unfoldable pub store_received : Meta → List (Array V) → KvWorker V → Result (KvWorker V)
  unfolding received_pairs find insert
  store_received msg [] w = ok w
  store_received msg (d ∷ ds) w =
      if msg.push
      then ok w
      else (received_pairs (d ∷ ds) >>= (λ kvs. ok (record w {
        recv_kvs =
            insert msg.timestamp (or_nil (find msg.timestamp w.recv_kvs) ++ kvs ∷ []) w.recv_kvs;
      })))

  -- `Process`; num_servers is positive where the comparison holds.
  unfoldable pub process_answer :
      Setting V → Meta → List (Array V) → KvWorker V → Result (KvWorker V)
  unfolding store_received run_callback num_response
  process_answer setting msg data_ w = store_received msg data_ w >>= (λ w'.
      num_response msg.timestamp w'.tracker >>= (λ n.
        let finished = run_callback setting msg.timestamp w' in
        if (n + 1) == setting.postoffice.num_servers then finished else ok w'))

  -- The message with slice `i`; a pull sends no values.
  unfoldable pub slice_message :
      Setting V
      → (timestamp : ℕ) (push : Bool) (cmd : ℤ) (i : ℕ) → KvPairs V
      → Meta × List (Array V)
  unfolding group_server_rank_to_instance_id pack_data
  slice_message setting timestamp push cmd i kvs = (
    record new_meta {
      app_id = setting.app_id;
      customer_id = setting.customer_id;
      request = true;
      push = push;
      head = cmd;
      timestamp = timestamp;
      recver = group_server_rank_to_instance_id setting.postoffice i setting.instance_idx;
      val_len = pos (length kvs.vals);
    },
    pack_data (if push then kvs else record kvs { vals = [] }),
  )

  -- The loop over the slices, from `i` on.
  unfoldable pub send_slices :
      Setting V
      → (timestamp : ℕ) (push : Bool) (cmd : ℤ) (i : ℕ) → SlicedKvs V
      → List (Meta × List (Array V))
  unfolding slice_message
  send_slices setting timestamp push cmd i [] = []
  send_slices setting timestamp push cmd i ((false, kvs) ∷ ss) =
      send_slices setting timestamp push cmd (i + 1) ss
  send_slices setting timestamp push cmd i ((true, kvs) ∷ ss) =
      slice_message setting timestamp push cmd i kvs
      ∷ send_slices setting timestamp push cmd (i + 1) ss

  unfoldable pub skipped : SlicedKvs V → ℕ
  skipped [] = 0
  skipped ((true, kvs) ∷ ss) = skipped ss
  skipped ((false, kvs) ∷ ss) = suc (skipped ss)

  -- `Send`, with the default slicer.
  unfoldable pub send :
      Setting V
      → (timestamp : ℕ) (push : Bool) (cmd : ℤ) → KvPairs V
      → KvWorker V
      → Result (KvWorker V)
  unfolding default_slicer get_server_key_ranges add_response run_callback send_slices skipped
  send setting timestamp push cmd kvs w =
      default_slicer kvs (get_server_key_ranges setting.postoffice).1 >>= (λ sliced.
        add_response timestamp (skipped sliced) w.tracker >>= (λ tracker.
          let w1 = record w { tracker = tracker } in
          let finished = run_callback setting timestamp w1 in
          (if skipped sliced == length sliced then finished else ok w1) >>= (λ w2.
            ok (record w2 { sent = w2.sent ++ send_slices setting timestamp push cmd 0 sliced }))))

  -- `ZPush` at time `now`, and the request's timestamp.
  unfoldable pub z_push :
      Setting V
      → (now : ℕ) (cmd : ℤ) (user_callback : Option ℕ) → KvPairs V
      → KvWorker V
      → Result (KvWorker V × ℕ)
  unfolding new_request add_callback send
  z_push setting now cmd user_callback kvs w =
      new_request setting.postoffice k_server_group now w.tracker >>= (λ (tracker, ts).
        send setting ts true cmd kvs
          (add_callback ts (map_option user user_callback) (record w { tracker = tracker }))
        >>= (λ w'. ok (w', ts)))

  -- `Pull_`; the values that are there are sliced with the keys, and not sent.
  pub z_pull :
      Setting V
      → (now : ℕ) (keys : List ℕ) (vals : ℕ) (lens : Option ℕ) (cmd : ℤ) (user_callback : Option ℕ)
      → KvWorker V
      → Result (KvWorker V × ℕ)
  unfolding new_request add_callback send
  z_pull setting now keys vals lens cmd user_callback w =
      new_request setting.postoffice k_server_group now w.tracker >>= (λ (tracker, ts).
        send setting ts false cmd (record { keys = keys; vals = w.vals_at vals; lens = [] })
          (add_callback ts (some (pull ts keys vals lens user_callback))
            (record w { tracker = tracker }))
        >>= (λ w'. ok (w', ts)))
