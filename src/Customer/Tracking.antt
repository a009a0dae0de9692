-- ===== src/Customer/Tracking.antt =====
-- Responses are counted for their request, whatever else is asked and answered meanwhile.
use step_mesh.Prelude.{
  get_elem?-append, get_elem?-some_lt, get_elem?-set_ne, get_elem?-set_self, ℕ, ◌+◌, ◌≡◌, refl, sym,
  ap, ◌∙◌, inl, inr, true, false, Option, none, some, List, [], ◌∷◌, arith, ◌==◌, if◌then◌else◌,
  Bool-cases, get_elem?, set, ==_iff,
}
use step_mesh.Prelude.Result.{Result, ok, ◌>>=◌}
use step_mesh.Message.{Meta, Command}
use step_mesh.Customer.{
  CustomerTracker, Tracker, push_tracker, bump, bump_both, add_response, direct_process,
}

-- What may happen to a customer: a request for `num` servers, responses credited for slices that
-- are not sent, or a message with an application's data.
pub data Call : Type 0 where
  ask : (num now : ℕ) → Call
  credit : (timestamp num : ℕ) → Call
  receive : Meta → Call

abbrev pub leave : Meta → Tracker → Result Tracker
leave recv tracker = ok tracker

-- The calls in turn, with a handle that leaves the tracker alone.
unfoldable pub run_calls : List Call → Tracker → Result Tracker
unfolding add_response direct_process
run_calls [] tracker = ok tracker
run_calls (ask num now ∷ calls) tracker = run_calls calls (push_tracker num now tracker)
run_calls (credit timestamp num ∷ calls) tracker =
    add_response timestamp num tracker >>= run_calls calls
run_calls (receive recv ∷ calls) tracker = direct_process leave recv tracker >>= run_calls calls

-- The responses that the calls bring for request `ts`.
abbrev pub responses : ℕ → List Call → ℕ
responses ts [] = 0
responses ts (ask num now ∷ calls) = responses ts calls
responses ts (credit timestamp num ∷ calls) =
    (if timestamp == ts then num else 0) + responses ts calls
responses ts (receive recv ∷ calls) =
    (if recv.request then 0 else (if recv.timestamp == ts then 1 else 0)) + responses ts calls

-- No call is a control message.
abbrev pub AreData : List Call → Type 0
AreData [] = Unit
AreData (receive recv ∷ calls) = (recv.control.cmd ≡ Command.empty) × AreData calls
AreData (c ∷ calls) = AreData calls

-- What is tracked of a request: how many responses it waits for, and how many have come.
abbrev pub IsTracked : Tracker → ℕ → (count response_count : ℕ) → Type 0
IsTracked tracker ts count response_count =
    (t : CustomerTracker) × (get_elem? tracker ts ≡ some t)
    × (t.count ≡ count)
    × (t.response_count ≡ response_count)

-- Counting `n` responses for `timestamp`.
IsTracked-set :
    (tracker : Tracker) (ts count seen timestamp n : ℕ) (u u' : CustomerTracker)
    → IsTracked tracker ts count seen
    → get_elem? tracker timestamp ≡ some u
    → u'.count ≡ u.count
    → u'.response_count ≡ u.response_count + n
    → IsTracked (set tracker timestamp u') ts count (seen + (if timestamp == ts then n else 0))
IsTracked-set tracker ts count seen timestamp n u u' (t, found, c, r) at same more =
    elim (Bool-cases (timestamp == ts)) [
      | inl e ↦
          let here : timestamp ≡ ts = (==_iff timestamp ts).0 e in
          let one : u ≡ t = ground (arith, ap (get_elem? tracker) here) in
          (
            u',
            ap (λ k. get_elem? (set tracker k u') ts) here
                ∙ get_elem?-set_self tracker ts u' (get_elem?-some_lt tracker ts t found),
            same ∙ ap (λ k. k.count) one ∙ c,
            rw e (omega (arith, ap (λ k. k.response_count) one)),
          )
      | inr e ↦ (
        t,
        get_elem?-set_ne tracker u' (λ k. absurd (ground arith)) ∙ found,
        c,
        rw e (omega arith),
      )
    ]

IsTracked-more :
    (tracker : Tracker) (ts count seen a b : ℕ)
    → IsTracked tracker ts count ((seen + a) + b)
    → IsTracked tracker ts count (seen + (a + b))
IsTracked-more tracker ts count seen a b (t, found, c, r) = (t, found, c, omega arith)

bump-ok :
    (tracker tracker' : Tracker) (timestamp num : ℕ) (o : Option CustomerTracker)
    (k : Tracker → Result Tracker)
    → (bump tracker timestamp num o >>= k) ≡ ok tracker'
    → (u : CustomerTracker) × (o ≡ some u)
      × (k (set tracker timestamp (record u { response_count = u.response_count + num }))
          ≡ ok tracker')
bump-ok tracker tracker' timestamp num none k e = absurd (ground arith)
bump-ok tracker tracker' timestamp num (some u) k e = (u, refl, e)

bump_both-ok :
    (tracker tracker' : Tracker) (timestamp : ℕ) (o : Option CustomerTracker)
    (k : Tracker → Result Tracker)
    → (bump_both tracker timestamp o >>= k) ≡ ok tracker'
    → (u : CustomerTracker) × (o ≡ some u)
      × (k (
            set tracker timestamp (record u {
              response_count = u.response_count + 1;
              response_count_cache = u.response_count_cache + 1;
            }))
          ≡ ok tracker')
bump_both-ok tracker tracker' timestamp none k e = absurd (ground arith)
bump_both-ok tracker tracker' timestamp (some u) k e = (u, refl, e)

-- A message with data: a request leaves the tracker alone, and a response is counted.
direct_process-request :
    (recv : Meta) (tracker : Tracker)
    → recv.control.cmd ≡ Command.empty
    → recv.request ≡ true
    → direct_process leave recv tracker ≡ ok tracker
unfolding direct_process
direct_process-request recv tracker plain asks = rw (plain, asks)

direct_process-response :
    (recv : Meta) (tracker : Tracker)
    → recv.control.cmd ≡ Command.empty
    → recv.request ≡ false
    → direct_process leave recv tracker
      ≡ bump_both tracker recv.timestamp (get_elem? tracker recv.timestamp)
unfolding direct_process
direct_process-response recv tracker plain answers = rw (plain, answers)

-- Whatever happens to a customer besides, in any order: the responses counted for request `ts`
-- grow by exactly the responses and credits for `ts`, and the number it waits for stays.
pub run_calls-responses :
    (calls : List Call) (tracker tracker' : Tracker) (ts count seen : ℕ)
    → AreData calls
    → IsTracked tracker ts count seen
    → run_calls calls tracker ≡ ok tracker'
    → IsTracked tracker' ts count (seen + responses ts calls)
unfolding run_calls add_response
run_calls-responses [] tracker tracker' ts count seen data_ok (t, found, c, r) e =
    let same : tracker ≡ tracker' = ground arith in
    (t, ap (λ l. get_elem? l ts) (sym same) ∙ found, c, omega arith)
run_calls-responses (ask num now ∷ calls) tracker tracker' ts count seen data_ok (t, found, c, r)
      e =
    run_calls-responses calls (push_tracker num now tracker) tracker' ts count seen data_ok
      (t, get_elem?-append tracker _ ts t found, c, r) e
run_calls-responses (credit timestamp num ∷ calls) tracker tracker' ts count seen data_ok tracked
      e =
    let (u, at, rest) =
      bump-ok tracker tracker' timestamp num (get_elem? tracker timestamp) (run_calls calls) e in
    let u' = record u { response_count = u.response_count + num } in
    let n = if timestamp == ts then num else 0 in
    IsTracked-more tracker' ts count seen n (responses ts calls) (
      run_calls-responses calls (set tracker timestamp u') tracker' ts count (seen + n) data_ok
        (IsTracked-set tracker ts count seen timestamp num u u' tracked at refl refl) rest)
run_calls-responses (receive recv ∷ calls) tracker tracker' ts count seen data_ok tracked e =
    elim (Bool-cases recv.request) [
      | inl asks ↦
          let rest = rw (direct_process-request recv tracker data_ok.0 asks) at e in
          let (t, found, c, r) =
            run_calls-responses calls tracker tracker' ts count seen data_ok.1 tracked rest in
          (t, found, c, rw asks (omega arith))
      | inr answers ↦
          let (u, at, rest) =
            bump_both-ok tracker tracker' recv.timestamp (get_elem? tracker recv.timestamp)
              (run_calls calls)
              (rw (direct_process-response recv tracker data_ok.0 answers) at e) in
          let n = if recv.timestamp == ts then 1 else 0 in
          let u' = record u {
            response_count = u.response_count + 1;
            response_count_cache = u.response_count_cache + 1;
          } in
          let (t, found, c, r) =
            run_calls-responses calls (set tracker recv.timestamp u') tracker' ts count (seen + n)
              data_ok.1
              (IsTracked-set tracker ts count seen recv.timestamp 1 u u' tracked at refl refl)
              rest in
          (t, found, c, rw answers (omega arith))
    ]
