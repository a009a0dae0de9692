-- ===== src/Van/Group.antt =====
-- A barrier of groups.
use mathlib.Core.List.{append_assoc, append-nil}
use step_mesh.Prelude.{
  ℕ, ◌+◌, ◌<◌, ◌≡◌, ap, ◌∙◌, Bool, true, false, some, List, [], ◌∷◌, ◌++◌, arith, ◌==◌, length,
  length-append, refl, sym, ◌-◌, ◌*◌, ◌/◌, ◌≢◌, ◌⊎◌, inl, inr,
}
use step_mesh.Prelude.Map.{insert, find-insert}
use step_mesh.Prelude.Result.{Result, ok}
use step_mesh.Message.{Meta, barrier}
use step_mesh.Postoffice.{Postoffice, k_scheduler, has_scheduler, get_node_ids}
use step_mesh.Postoffice.Groups.{get_node_ids-found}
use native.Mathlib.Nat.{mul-div_cancel}
use step_mesh.Van.Answers.{AreAnswers, answers-AreAnswers}
use step_mesh.Van.{
  Van, answers, or_nil, num_expected_requests, requests_of, group_request, process_barrier,
  process_all,
}
use step_mesh.Van.Instance.{AreRequests}

module _ (shared : ℕ → Bool) (po : Postoffice) (g : ℕ) (ids : List ℕ)
    (group : po.node_ids g ≡ some ids) (grouped : 0 < po.group_size) where
  abbrev pub handler : Van → Meta → Result (Postoffice × Van × List Meta)
  handler = process_barrier shared po

  abbrev pub expected : ℕ
  expected = num_expected_requests g (length ids) po.group_size

  requests_of-insert :
      (van : Van) (l : List ℕ)
      → requests_of
          (record van { group_barrier_requests = insert g l van.group_barrier_requests })
          g
        ≡ l
  requests_of-insert van l = ap or_nil (find-insert g g l van.group_barrier_requests) ∙ ground arith

  one_request :
      (van : Van) (m : Meta)
      → m.request ≡ true
      → m.control.barrier_group ≡ g
      → let r = group_request shared po.group_size van m ids in handler van m ≡ ok (po, r.0, r.1)
  unfolding process_barrier
  one_request van m is_request in_group =
      let found : get_node_ids po m.control.barrier_group ≡ ok ids =
        ap (get_node_ids po) in_group ∙ get_node_ids-found po g ids group in
      let some_size : (po.group_size == 0) ≡ false = ground arith in
      rw (is_request, found, some_size)

  -- While fewer groups have asked than the barrier expects, nothing is sent, and the requesters are
  -- kept in the order of their requests.
  request-early :
      (van : Van) (m : Meta)
      → m.request ≡ true
      → m.control.barrier_group ≡ g
      → length (requests_of van g) + 1 < expected
      → (handler van m
          ≡ ok (
            po,
            record van {
              group_barrier_requests =
                  insert g (requests_of van g ++ m.sender ∷ []) van.group_barrier_requests;
            },
            [],
          ))
  unfolding group_request
  request-early van m is_request in_group early =
      let not_all : (length (requests_of van g ++ m.sender ∷ [])
            == num_expected_requests g (length ids) po.group_size)
          ≡ false =
        ground (arith, length-append (requests_of van g) (m.sender ∷ [])) in
      one_request van m is_request in_group ∙ rw (in_group, not_all)

  request-last :
      (van : Van) (m : Meta)
      → m.request ≡ true
      → m.control.barrier_group ≡ g
      → length (requests_of van g) + 1 ≡ expected
      → let all = requests_of van g ++ m.sender ∷ [] in
        let sent = answers shared barrier m van.timestamp all in
        (handler van m
          ≡ ok (
            po,
            record van {
              group_barrier_requests = insert g [] van.group_barrier_requests;
              timestamp = van.timestamp + length sent;
            },
            sent,
          ))
  unfolding group_request
  request-last van m is_request in_group enough =
      let all : (length (requests_of van g ++ m.sender ∷ [])
            == num_expected_requests g (length ids) po.group_size)
          ≡ true =
        ground (arith, length-append (requests_of van g) (m.sender ∷ [])) in
      one_request van m is_request in_group ∙ rw (in_group, all)

  -- Those who asked, in order, after some requests.
  abbrev pub senders : List Meta → List ℕ
  senders [] = []
  senders (m ∷ ms) = m.sender ∷ senders ms

  -- The messages of a barrier that is complete.
  process_all-last :
      (ms : List Meta) (last : Meta) (van : Van)
      → AreRequests g ms
      → last.request ≡ true
      → last.control.barrier_group ≡ g
      → length (requests_of van g) + length ms + 1 ≡ expected
      → (van' : Van) × (process_all handler van (ms ++ last ∷ [])
          ≡ ok (
            van',
            answers shared barrier last van.timestamp
                (requests_of van g ++ (senders ms ++ last.sender ∷ [])),
          ))
        × (requests_of van' g ≡ [])
        × (van'.timestamp
            ≡ van.timestamp
              + length (
                  answers shared barrier last van.timestamp
                    (requests_of van g ++ (senders ms ++ last.sender ∷ []))))
  unfolding process_all
  process_all-last [] last van ok_ms is_request in_group enough =
      let all = requests_of van g ++ last.sender ∷ [] in
      let sent = answers shared barrier last van.timestamp all in
      (
        record van {
          group_barrier_requests = insert g [] van.group_barrier_requests;
          timestamp = van.timestamp + length sent;
        },
        rw (request-last van last is_request in_group (omega arith), append-nil sent),
        requests_of-insert van [],
        refl,
      )
  process_all-last (m ∷ ms) last van ok_ms is_request in_group enough =
      let kept = requests_of van g ++ m.sender ∷ [] in
      let van1 = record van { group_barrier_requests = insert g kept van.group_barrier_requests } in
      let (van', rest, none_kept, stamp) =
        process_all-last ms last van1 ok_ms.2 is_request in_group (
          omega (
            arith,
            ap length (requests_of-insert van kept),
            length-append (requests_of van g) (m.sender ∷ []),
          )) in
      let in_order =
        ap (λ l. l ++ (senders ms ++ last.sender ∷ [])) (requests_of-insert van kept)
        ∙ append_assoc (requests_of van g) (m.sender ∷ []) (senders ms ++ last.sender ∷ []) in
      (
        van',
        rw (request-early van m ok_ms.0 ok_ms.1 (omega arith), rest)
            (ap (λ l. ok (van', answers shared barrier last van.timestamp l)) in_order),
        none_kept,
        stamp
            ∙ ap (λ l. van.timestamp + length (answers shared barrier last van.timestamp l))
                in_order,
      )

  -- How many requests complete the barrier: one for the scheduler alone; otherwise one for each
  -- group of instances, and one for the scheduler if it takes part.
  abbrev pub IsExpected : ℕ → Type 0
  IsExpected n =
      ((g ≡ k_scheduler) × (n ≡ 1))
      ⊎ (((g ≢ k_scheduler)
            × (has_scheduler g ≡ true)
            × (groups : ℕ) × (length ids ≡ groups * po.group_size + 1)
            × (n ≡ groups + 1))
          ⊎ ((g ≢ k_scheduler) × (has_scheduler g ≡ false) × (length ids ≡ n * po.group_size)))

  expected-IsExpected : (n : ℕ) → IsExpected n → expected ≡ n
  unfolding num_expected_requests
  expected-IsExpected n (inl (alone, one)) =
      let is : (g == k_scheduler) ≡ true = ground arith in rw is (sym one)
  expected-IsExpected n (inr (inl (others, with_it, groups, all, is_n))) =
      let is : (g == k_scheduler) ≡ false = ground arith in
      let count : (length ids - 1) / po.group_size ≡ groups =
        ap (λ k. (k - 1) / po.group_size) all
        ∙ ap (λ k. k / po.group_size) {x = groups * po.group_size + 1 - 1}
            {y = groups * po.group_size} (omega arith)
        ∙ mul-div_cancel groups grouped in
      rw (is, with_it, count) (sym is_n)
  expected-IsExpected n (inr (inr (others, without_it, all))) =
      let is : (g == k_scheduler) ≡ false = ground arith in
      rw (is, without_it) (ap (λ k. k / po.group_size) all ∙ mul-div_cancel n grouped)

  -- The request that completes a barrier of groups, the last of as many as there are groups of
  -- instances, with the scheduler if it takes part, answers exactly the requesters, in the order in
  -- which they asked, leaving out shared nodes, each with a timestamp of its own; the earlier
  -- requests are answered by nothing, and nobody is kept for the next barrier.
  pub process_all-answers :
      (ms : List Meta) (last : Meta) (van : Van) (n : ℕ)
      → AreRequests g ms
      → last.request ≡ true
      → last.control.barrier_group ≡ g
      → IsExpected n
      → length (requests_of van g) + length ms + 1 ≡ n
      → (van' : Van) × (sent : List Meta) × (process_all handler van (ms ++ last ∷ [])
          ≡ ok (van', sent))
        × AreAnswers shared barrier last van.timestamp
            (requests_of van g ++ (senders ms ++ last.sender ∷ []))
            sent
        × (requests_of van' g ≡ [])
        × (van'.timestamp ≡ van.timestamp + length sent)
  process_all-answers ms last van n ok_ms is_request in_group is_n enough =
      let (van', made, none_kept, stamp) =
        process_all-last ms last van ok_ms is_request in_group
          (enough ∙ sym (expected-IsExpected n is_n)) in
      let all = requests_of van g ++ (senders ms ++ last.sender ∷ []) in
      (
        van',
        answers shared barrier last van.timestamp all,
        made,
        answers-AreAnswers shared barrier last van.timestamp all,
        none_kept,
        stamp,
      )
