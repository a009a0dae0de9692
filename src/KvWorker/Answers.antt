-- ===== src/KvWorker/Answers.antt =====
-- What `Customer::DirectProcess` and `Process` make of the answers to a request to all servers.
use mathlib.Core.Path.{subst}
use step_mesh.Prelude.{
  get_elem?-some_lt, get_elem?-set_self, ℕ, ◌+◌, ◌≡◌, ◌∙◌, sym, ap, inl, inr, false, List, [], ◌∷◌,
  arith, ◌==◌, Bool-cases, length, All, get_elem?,
}
use step_mesh.Prelude.Result.{bind-ok, ok-injective, Result, ok, ◌>>=◌}
use step_mesh.Message.{Meta}
use step_mesh.KvServer.{Array}
use step_mesh.Customer.{bump_both, num_response, Tracker, CustomerTracker}
use step_mesh.Customer.Requests.{num_response-tracked}
use step_mesh.Customer.Tracking.{IsTracked}
use step_mesh.KvWorker.{Setting, KvWorker}
use step_mesh.KvWorker.Calls.{store_received, process_answer, received_pairs}

bump_both-IsTracked :
    (tracker tracker' : Tracker) (ts n seen : ℕ)
    → IsTracked tracker ts n seen
    → bump_both tracker ts (get_elem? tracker ts) ≡ ok tracker'
    → IsTracked tracker' ts n (seen + 1)
bump_both-IsTracked tracker tracker' ts n seen (t, found, c, r) e =
    let t' : CustomerTracker = record t {
      response_count = t.response_count + 1;
      response_count_cache = t.response_count_cache + 1;
    } in
    let is = ok-injective (rw found at e) in
    (
      t',
      ap (λ l. get_elem? l ts) (sym is)
          ∙ get_elem?-set_self tracker ts t' (get_elem?-some_lt tracker ts t found),
      c,
      omega arith,
    )

module _ {V : Type 0} where
  -- One answer: the worker's handle, then the count of the responses.
  unfoldable pub receive : Setting V → Meta → List (Array V) → KvWorker V → Result (KvWorker V)
  unfolding process_answer
  receive setting msg data_ w = process_answer setting msg data_ w >>= (λ w1.
      bump_both w1.tracker msg.timestamp (get_elem? w1.tracker msg.timestamp)
      >>= (λ tracker. ok (record w1 { tracker = tracker })))

  unfoldable pub receive_all :
      Setting V → List (Meta × List (Array V)) → KvWorker V → Result (KvWorker V)
  unfolding receive
  receive_all setting [] w = ok w
  receive_all setting ((msg, data_) ∷ answers) w =
      receive setting msg data_ w >>= receive_all setting answers

  -- Only the data that are kept may differ.
  abbrev pub IsSameBut : KvWorker V → KvWorker V → Type 0
  IsSameBut w w' = (w'.tracker ≡ w.tracker) × (w'.ran ≡ w.ran) × (w'.vals_at ≡ w.vals_at)

  IsSameBut-refl : (w w' : KvWorker V) → w ≡ w' → IsSameBut w w'
  IsSameBut-refl w w' e =
      (ap (λ v. v.tracker) (sym e), ap (λ v. v.ran) (sym e), ap (λ v. v.vals_at) (sym e))

  store_received-IsSameBut :
      (msg : Meta) (data_ : List (Array V)) (w w' : KvWorker V)
      → store_received msg data_ w ≡ ok w'
      → IsSameBut w w'
  unfolding store_received
  store_received-IsSameBut msg [] w w' e = IsSameBut-refl w w' (ok-injective e)
  store_received-IsSameBut msg (d ∷ ds) w w' e = elim (Bool-cases msg.push) [
    | inl pushed ↦ IsSameBut-refl w w' (ok-injective (rw pushed at e))
    | inr pulled ↦
        let (kvs, read, made) = bind-ok (received_pairs (d ∷ ds)) _ w' (rw pulled at e) in
        let is = ok-injective made in
        (ap (λ v. v.tracker) (sym is), ap (λ v. v.ran) (sym is), ap (λ v. v.vals_at) (sym is))
  ]

  -- The number that is waited for is that of all servers, not one less.
  process_answer-IsSameBut :
      (setting : Setting V) (msg : Meta) (data_ : List (Array V)) (w w' : KvWorker V) (seen : ℕ)
      → IsTracked w.tracker msg.timestamp setting.postoffice.num_servers seen
      → process_answer setting msg data_ w ≡ ok w'
      → IsSameBut w w'
  unfolding process_answer
  process_answer-IsSameBut setting msg data_ w w' seen tracked e =
      let ts = msg.timestamp in
      let n = setting.postoffice.num_servers in
      let (w1, stored, later) = bind-ok (store_received msg data_ w) _ w' e in
      let (same, ran, vals) = store_received-IsSameBut msg data_ w w1 stored in
      let (m, counted, last) = bind-ok (num_response ts w1.tracker) _ w' later in
      let number : m ≡ n = ok-injective (
        sym counted
        ∙ ap (num_response ts) same
        ∙ num_response-tracked w.tracker ts n seen tracked) in
      let differ : ((m + 1) == n) ≡ false = ground arith in
      let is : w1 ≡ w' = ok-injective (rw differ at last) in
      let (same', ran', vals') = IsSameBut-refl w1 w' is in (same' ∙ same, ran' ∙ ran, vals' ∙ vals)

  -- The answers to one request to all servers.
  module _ (setting : Setting V) (ts : ℕ) where
    receive-once :
        (msg : Meta) (data_ : List (Array V)) (w w' : KvWorker V) (seen : ℕ)
        → msg.timestamp ≡ ts
        → IsTracked w.tracker ts setting.postoffice.num_servers seen
        → receive setting msg data_ w ≡ ok w'
        → IsTracked w'.tracker ts setting.postoffice.num_servers (seen + 1)
          × (w'.ran ≡ w.ran)
          × (w'.vals_at ≡ w.vals_at)
    unfolding receive
    receive-once msg data_ w w' seen stamp tracked e =
        let n = setting.postoffice.num_servers in
        let (w1, processed, later) = bind-ok (process_answer setting msg data_ w) _ w' e in
        let (same, ran, vals) =
          process_answer-IsSameBut setting msg data_ w w1 seen
            (subst (λ s. IsTracked w.tracker s n seen) (sym stamp) tracked) processed in
        let (tracker, bumped, last) =
          bind-ok (bump_both w1.tracker msg.timestamp (get_elem? w1.tracker msg.timestamp)) _ w'
            later in
        let is = ok-injective last in
        let counted =
          bump_both-IsTracked w1.tracker tracker ts n seen
            (subst (λ t. IsTracked t ts n seen) (sym same) tracked)
            (subst (λ s. bump_both w1.tracker s (get_elem? w1.tracker s) ≡ ok tracker) stamp
              bumped) in
        (
          subst (λ t. IsTracked t ts n (seen + 1)) (ap (λ v. v.tracker) is) counted,
          ap (λ v. v.ran) (sym is) ∙ ran,
          ap (λ v. v.vals_at) (sym is) ∙ vals,
        )

    -- Any answers to a request for which the number of servers is expected: if they are received
    -- without a failed check, each is counted, but no function of the user has run and none of the
    -- user's arrays of values has changed, however many answers there were, all of them included.
    pub receive_all-never_runs :
        (answers : List (Meta × List (Array V))) (w w' : KvWorker V) (seen : ℕ)
        → All (λ a. a.0.timestamp ≡ ts) answers
        → IsTracked w.tracker ts setting.postoffice.num_servers seen
        → receive_all setting answers w ≡ ok w'
        → IsTracked w'.tracker ts setting.postoffice.num_servers (seen + length answers)
          × (w'.ran ≡ w.ran)
          × (w'.vals_at ≡ w.vals_at)
    unfolding receive_all
    receive_all-never_runs [] w w' seen stamps (t, found, c, r) e =
        let is = ok-injective e in
        let (same, ran, vals) = IsSameBut-refl w w' is in
        ((t, ap (λ l. get_elem? l ts) same ∙ found, c, omega arith), ran, vals)
    receive_all-never_runs ((msg, data_) ∷ answers) w w' seen stamps tracked e =
        let (w1, once, later) = bind-ok (receive setting msg data_ w) _ w' e in
        let (tracked1, ran1, vals1) = receive-once msg data_ w w1 seen stamps.0 tracked once in
        let (tracked2, ran2, vals2) =
          receive_all-never_runs answers w1 w' (seen + 1) stamps.1 tracked1 later in
        (
          subst (λ k. IsTracked w'.tracker ts setting.postoffice.num_servers k)
              {x = (seen + 1) + length answers} (omega arith) tracked2,
          ran2 ∙ ran1,
          vals2 ∙ vals1,
        )
