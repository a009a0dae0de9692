-- ===== src/Van/Instance.antt =====
-- A barrier of instances.
use mathlib.Core.List.{append-nil}
use step_mesh.Prelude.{
  get_elem?-some_lt, get_elem?-set_self, ℕ, zero, suc, ◌+◌, ◌<◌, ◌≡◌, refl, ap, ◌∙◌, Bool, true,
  false, some, List, [], ◌∷◌, ◌++◌, arith, ◌==◌, length, get_elem?, set,
}
use step_mesh.Prelude.Result.{Result, ok, ◌>>=◌}
use step_mesh.Message.{Meta, instance_barrier}
use step_mesh.Postoffice.{Postoffice, get_node_ids}
use step_mesh.Postoffice.Groups.{get_node_ids-found}
use step_mesh.Van.Answers.{AreAnswers, answers-AreAnswers}
use step_mesh.Van.{Van, answers, counts, count_request, process_instance_barrier, process_all}

-- A list of requests for barriers of group `g`.
abbrev pub AreRequests : ℕ → List Meta → Type 0
AreRequests g [] = Unit
AreRequests g (m ∷ ms) = (m.request ≡ true) × (m.control.barrier_group ≡ g) × AreRequests g ms

-- The last message of the list, or `m`.
abbrev pub last_of : Meta → List Meta → Meta
last_of m [] = m
last_of m (n ∷ ns) = last_of n ns

-- The counts stand in the vector once there is one.
counts-set : (l : List ℕ) (g v : ℕ) → counts (set (counts l) g v) ≡ set (counts l) g v
counts-set [] zero v = refl
counts-set [] (suc g) v = refl
counts-set (c ∷ cs) zero v = refl
counts-set (c ∷ cs) (suc g) v = refl

module _ (shared : ℕ → Bool) (po : Postoffice) (g : ℕ) (ids : List ℕ)
    (group : po.node_ids g ≡ some ids) where
  abbrev pub handler : Van → Meta → Result (Postoffice × Van × List Meta)
  handler = process_instance_barrier shared po

  -- The count of the group.
  abbrev pub HasCount : Van → ℕ → Type 0
  HasCount van c = get_elem? (counts van.barrier_count) g ≡ some c

  HasCount-set :
      (van : Van) (c v : ℕ)
      → HasCount van c
      → get_elem? (counts (set (counts van.barrier_count) g v)) g ≡ some v
  HasCount-set van c v has =
      ap (λ l. get_elem? l g) (counts-set van.barrier_count g v)
      ∙ get_elem?-set_self (counts van.barrier_count) g v
          (get_elem?-some_lt (counts van.barrier_count) g c has)

  one_request :
      (van : Van) (m : Meta) (c : ℕ)
      → m.request ≡ true
      → m.control.barrier_group ≡ g
      → HasCount van c
      → handler van m ≡ (count_request shared van m ids (some c) >>= (λ r. ok (po, r.0, r.1)))
  unfolding process_instance_barrier
  one_request van m c is_request in_group has =
      let found : get_node_ids po m.control.barrier_group ≡ ok ids =
        ap (get_node_ids po) in_group ∙ get_node_ids-found po g ids group in
      rw (is_request, found)
        (ap (λ k. count_request shared van m ids k >>= (λ r. ok (po, r.0, r.1)))
          (ap (get_elem? (counts van.barrier_count)) in_group ∙ has))

  -- A request that does not complete the barrier, and one that does.
  request-early :
      (van : Van) (m : Meta) (c : ℕ)
      → m.request ≡ true
      → m.control.barrier_group ≡ g
      → HasCount van c
      → c + 1 < length ids
      → let van' = record van { barrier_count = set (counts van.barrier_count) g (c + 1) } in
        (handler van m ≡ ok (po, van', [])) × HasCount van' (c + 1)
  unfolding count_request
  request-early van m c is_request in_group has early =
      let not_all : ((c + 1) == length ids) ≡ false = ground arith in
      (
        one_request van m c is_request in_group has
            ∙ rw not_all (
                ap
                  (λ k. ok (
                    po,
                    record van { barrier_count = set (counts van.barrier_count) k (c + 1) },
                    [],
                  ))
                  in_group),
        HasCount-set van c (c + 1) has,
      )

  request-last :
      (van : Van) (m : Meta) (c : ℕ)
      → m.request ≡ true
      → m.control.barrier_group ≡ g
      → HasCount van c
      → c + 1 ≡ length ids
      → let sent = answers shared instance_barrier m van.timestamp ids in
        let van' = record van {
          barrier_count = set (counts van.barrier_count) g 0;
          timestamp = van.timestamp + length sent;
        } in
        (handler van m ≡ ok (po, van', sent)) × HasCount van' 0
  unfolding count_request
  request-last van m c is_request in_group has all =
      let is_all : ((c + 1) == length ids) ≡ true = ground arith in
      (
        one_request van m c is_request in_group has
            ∙ rw is_all (
                ap
                  (λ k. ok (
                    po,
                    record van {
                      barrier_count = set (counts van.barrier_count) k 0;
                      timestamp =
                          van.timestamp
                          + length (answers shared instance_barrier m van.timestamp ids);
                    },
                    answers shared instance_barrier m van.timestamp ids,
                  ))
                  in_group),
        HasCount-set van c 0 has,
      )

  -- In an instance barrier on which `c` requests have come: while fewer requests have come
  -- than the group has instances, nothing is sent and every request is counted.
  pub process_all-waits :
      (ms : List Meta) (van : Van) (c : ℕ)
      → AreRequests g ms
      → HasCount van c
      → c + length ms < length ids
      → (van' : Van) × (process_all handler van ms ≡ ok (van', []))
        × HasCount van' (c + length ms)
        × (van'.timestamp ≡ van.timestamp)
  unfolding process_all
  process_all-waits [] van c ok_ms has few = (van, refl, has ∙ ap some (omega arith), refl)
  process_all-waits (m ∷ ms) van c ok_ms has few =
      let (made, has') = request-early van m c ok_ms.0 ok_ms.1 has (omega arith) in
      let van1 = record van { barrier_count = set (counts van.barrier_count) g (c + 1) } in
      let (van', rest, count, stamp) =
        process_all-waits ms van1 (c + 1) ok_ms.2 has' (omega arith) in
      (van', rw (made, rest), count ∙ ap some (omega arith), stamp)

  -- The messages of a barrier that is released.
  process_all-last :
      (ms : List Meta) (last : Meta) (van : Van) (c : ℕ)
      → AreRequests g ms
      → last.request ≡ true
      → last.control.barrier_group ≡ g
      → HasCount van c
      → c + length ms + 1 ≡ length ids
      → (van' : Van) × (process_all handler van (ms ++ last ∷ [])
          ≡ ok (van', answers shared instance_barrier last van.timestamp ids))
        × HasCount van' 0
        × (van'.timestamp
            ≡ van.timestamp + length (answers shared instance_barrier last van.timestamp ids))
  unfolding process_all
  process_all-last [] last van c ok_ms is_request in_group has enough =
      let (made, has') = request-last van last c is_request in_group has (omega arith) in
      let sent = answers shared instance_barrier last van.timestamp ids in
      (
        record van {
          barrier_count = set (counts van.barrier_count) g 0;
          timestamp = van.timestamp + length sent;
        },
        rw (made, append-nil sent),
        has',
        refl,
      )
  process_all-last (m ∷ ms) last van c ok_ms is_request in_group has enough =
      let (made, has') = request-early van m c ok_ms.0 ok_ms.1 has (omega arith) in
      let van1 = record van { barrier_count = set (counts van.barrier_count) g (c + 1) } in
      let (van', rest, count, stamp) =
        process_all-last ms last van1 (c + 1) ok_ms.2 is_request in_group has' (omega arith) in
      (van', rw (made, rest), count, stamp)

  -- In an instance barrier on which `c` requests have come, the request that makes them as many as
  -- the group's instances releases it: every instance that is not a shared one gets one answer, in
  -- the order of the group, with the last requester's application and customer and a timestamp of
  -- its own, and these are all messages: the earlier requests got none. The timestamps go on after
  -- the answers, and the count is back at 0 for the next barrier.
  pub process_all-releases :
      (ms : List Meta) (last : Meta) (van : Van) (c : ℕ)
      → AreRequests g ms
      → last.request ≡ true
      → last.control.barrier_group ≡ g
      → HasCount van c
      → c + length ms + 1 ≡ length ids
      → (van' : Van) × (sent : List Meta) × (process_all handler van (ms ++ last ∷ [])
          ≡ ok (van', sent))
        × AreAnswers shared instance_barrier last van.timestamp ids sent
        × HasCount van' 0
        × (van'.timestamp ≡ van.timestamp + length sent)
  process_all-releases ms last van c ok_ms is_request in_group has enough =
      let (van', made, count, stamp) =
        process_all-last ms last van c ok_ms is_request in_group has enough in
      (
        van',
        answers shared instance_barrier last van.timestamp ids,
        made,
        answers-AreAnswers shared instance_barrier last van.timestamp ids,
        count,
        stamp,
      )
