-- ===== src/Tensor/Batch.antt =====
-- The server takes a batch apart from all others as one request.
use mathlib.Core.List.{append_assoc, append-nil}
use step_mesh.Prelude.{
  ℕ, ◌≡◌, refl, sym, ap, ◌∙◌, inl, inr, true, false, Option, none, some, List, [], ◌∷◌, ◌++◌, arith,
  ◌==◌, if◌then◌else◌, Bool-cases,
}
use step_mesh.Prelude.Map.{Map, insert, find-insert}
use step_mesh.Prelude.Result.{Result, ok, fatal}
use step_mesh.Tensor.{af_flag_batch_start, af_flag_batch_middle, af_flag_batch_end, KeyTensor}
use step_mesh.Tensor.Server.{
  Request, AfTensorMeta, AfTensorServer, Event, respond, request, add, new_af_meta, batch_of,
  current, put_aside, find_reorder, to_current, respond_push, after_response, continue, kv_handler,
  handle_all,
}

abbrev pub Stream : Type 0 → Type 0
Stream T = List (Request × KeyTensor T)

module _ {T : Type 0} where
  -- Messages of one sender that go on with a batch; the last one, and no other, ends it.
  abbrev pub IsRest : ℕ → Stream T → Type 0
  IsRest sender [] = ⊥
  IsRest sender ((r, t) ∷ []) = (r.cmd ≡ af_flag_batch_end) × (r.sender ≡ sender)
  IsRest sender ((r, t) ∷ m ∷ rest) =
      (r.cmd ≡ af_flag_batch_middle) × (r.sender ≡ sender) × IsRest sender (m ∷ rest)

  -- A whole batch of one sender.
  abbrev pub IsBatch : ℕ → Stream T → Type 0
  IsBatch sender [] = ⊥
  IsBatch sender ((r, t) ∷ rest) =
      (r.cmd ≡ af_flag_batch_start) × (r.sender ≡ sender) × IsRest sender rest

  abbrev pub add_all : AfTensorMeta T → Stream T → AfTensorMeta T
  add_all m [] = m
  add_all m ((r, t) ∷ rest) = add_all (add m r t) rest

  -- An answer to each push, in order.
  abbrev pub responses : Stream T → List (Event T)
  responses [] = []
  responses ((r, t) ∷ rest) = (if r.push then respond r ∷ [] else []) ++ responses rest

  -- A server with no batch put aside.
  abbrev pub in_order : Map (Option (AfTensorMeta T)) → AfTensorServer T
  in_order batches = record { batch_data = batches; reorder_buffer = [] }

  pub current-insert :
      (batches : Map (Option (AfTensorMeta T))) (k j : ℕ) (m : Option (AfTensorMeta T))
      → current (in_order (insert k m batches)) j
        ≡ (if k == j then m else current (in_order batches) j)
  unfolding current
  current-insert batches k j m = elim (Bool-cases (k == j)) [
    | inl e ↦ ap batch_of (find-insert k j m batches) ∙ rw e
    | inr e ↦ ap batch_of (find-insert k j m batches) ∙ rw e
  ]

  abbrev go_on :
      AfTensorServer T
      → Request
      → KeyTensor T
      → Option (AfTensorMeta T)
      → Result (AfTensorServer T × List (Event T))
  go_on s r t none = fatal
  go_on s r t (some m) = ok (after_response r (to_current s r (add m r t)))

  -- One more message of an open batch.
  continue-current :
      (batches : Map (Option (AfTensorMeta T))) (r : Request) (t : KeyTensor T) (m : AfTensorMeta T)
      → current (in_order batches) r.sender ≡ some m
      → continue (in_order batches) r t
        ≡ ok (after_response r (to_current (in_order batches) r (add m r t)))
  unfolding continue find_reorder
  continue-current batches r t m open_batch = ap (go_on (in_order batches) r t) open_batch

  -- The handler on the three kinds of message of a batch.
  kv_handler-end :
      (batches : Map (Option (AfTensorMeta T))) (r : Request) (t : KeyTensor T) (m : AfTensorMeta T)
      → r.cmd ≡ af_flag_batch_end
      → current (in_order batches) r.sender ≡ some m
      → kv_handler (in_order batches) r t
        ≡ ok (in_order (insert r.sender none batches), respond_push r ++ request (add m r t) ∷ [])
  unfolding kv_handler to_current
  kv_handler-end batches r t m is_end open_batch =
      let batched : (r.cmd == 0) ≡ false = ground arith in
      let not_start : (r.cmd == 1) ≡ false = ground arith in
      let last : (r.cmd == 3) ≡ true = ground arith in
      rw (batched, not_start, continue-current batches r t m open_batch, last)

  pub kv_handler-middle :
      (batches : Map (Option (AfTensorMeta T))) (r : Request) (t : KeyTensor T) (m : AfTensorMeta T)
      → r.cmd ≡ af_flag_batch_middle
      → current (in_order batches) r.sender ≡ some m
      → kv_handler (in_order batches) r t
        ≡ ok (in_order (insert r.sender (some (add m r t)) batches), respond_push r ++ [])
  unfolding kv_handler to_current
  kv_handler-middle batches r t m is_middle open_batch =
      let batched : (r.cmd == 0) ≡ false = ground arith in
      let not_start : (r.cmd == 1) ≡ false = ground arith in
      let not_last : (r.cmd == 3) ≡ false = ground arith in
      rw (batched, not_start, continue-current batches r t m open_batch, not_last)

  -- The first message of a batch: an open batch of its sender is put aside.
  pub kv_handler-start :
      (s : AfTensorServer T) (r : Request) (t : KeyTensor T) (old : Option (AfTensorMeta T))
      → r.cmd ≡ af_flag_batch_start
      → current s r.sender ≡ old
      → kv_handler s r t
        ≡ ok (
          record {
            batch_data = insert r.sender (some (add (new_af_meta r.sender false) r t)) s.batch_data;
            reorder_buffer = put_aside old s.reorder_buffer;
          },
          respond_push r ++ [],
        )
  unfolding kv_handler to_current
  kv_handler-start s r t old is_start open_batch =
      let batched : (r.cmd == 0) ≡ false = ground arith in
      let start : (r.cmd == 1) ≡ true = ground arith in
      let not_last : (r.cmd == 3) ≡ false = ground arith in
      rw (batched, start, not_last)
        (ap
          (λ l. ok (
            record {
              batch_data =
                  insert r.sender (some (add (new_af_meta r.sender false) r t)) s.batch_data;
              reorder_buffer = put_aside l s.reorder_buffer;
            },
            respond_push r ++ [],
          ))
          open_batch)

  pub handle_all-cons :
      (s s1 s2 : AfTensorServer T) (r : Request) (t : KeyTensor T) (rest : Stream T)
      (now later : List (Event T))
      → kv_handler s r t ≡ ok (s1, now)
      → handle_all s1 rest ≡ ok (s2, later)
      → handle_all s ((r, t) ∷ rest) ≡ ok (s2, now ++ later)
  unfolding handle_all
  handle_all-cons s s1 s2 r t rest now later h hs = rw (h, hs)

  handle_all-nil : (s : AfTensorServer T) → handle_all s [] ≡ ok (s, [])
  unfolding handle_all
  handle_all-nil s = refl

  -- The events of a message without an end, and of those after it.
  respond-more :
      (r : Request) (more : List (Event T)) (last : Event T)
      → (respond_push r ++ []) ++ (more ++ last ∷ []) ≡ (respond_push r ++ more) ++ last ∷ []
  respond-more r more last =
      rw (append-nil (respond_push r)) (sym (append_assoc (respond_push r) more (last ∷ [])))

  -- How the open batches stand after the batch of `sender`: that sender has none, and the others'
  -- are as before.
  abbrev pub IsDone : (before after : Map (Option (AfTensorMeta T))) → ℕ → Type 0
  IsDone before after sender =
      (k : ℕ)
      → current (in_order after) k ≡ (if sender == k then none else current (in_order before) k)

  handle_all-IsRest :
      (sender : ℕ) (stream : Stream T) (batches : Map (Option (AfTensorMeta T)))
      (m : AfTensorMeta T)
      → IsRest sender stream
      → current (in_order batches) sender ≡ some m
      → (after : Map (Option (AfTensorMeta T))) × (handle_all (in_order batches) stream
          ≡ ok (in_order after, responses stream ++ request (add_all m stream) ∷ []))
        × IsDone batches after sender
  handle_all-IsRest sender [] batches m stream_ok open_batch = absurd stream_ok
  handle_all-IsRest sender ((r, t) ∷ []) batches m stream_ok open_batch =
      let from : current (in_order batches) r.sender ≡ some m =
        ap (current (in_order batches)) stream_ok.1 ∙ open_batch in
      (
        insert r.sender none batches,
        handle_all-cons _ _ _ r t [] _ [] (kv_handler-end batches r t m stream_ok.0 from)
              (handle_all-nil _)
            ∙ ap (λ l. ok (in_order (insert r.sender none batches), l))
                (append-nil (respond_push r ++ request (add m r t) ∷ [])
                  ∙ ap (λ l. l ++ request (add m r t) ∷ []) (sym (append-nil (respond_push r)))),
        λ k.
            current-insert batches r.sender k none
            ∙ ap (λ j. if j == k then none else current (in_order batches) k) stream_ok.1,
      )
  handle_all-IsRest sender ((r, t) ∷ n ∷ rest) batches m stream_ok open_batch =
      let from : current (in_order batches) r.sender ≡ some m =
        ap (current (in_order batches)) stream_ok.1 ∙ open_batch in
      let more = insert r.sender (some (add m r t)) batches in
      let (after, made, done) =
        handle_all-IsRest sender (n ∷ rest) more (add m r t) stream_ok.2
          (ground (arith, current-insert batches r.sender sender (some (add m r t)))) in
      (
        after,
        handle_all-cons _ _ _ r t (n ∷ rest) _ _ (kv_handler-middle batches r t m stream_ok.0 from)
              made
            ∙ ap (λ l. ok (in_order after, l))
                (respond-more r (responses (n ∷ rest)) (request (add_all (add m r t) (n ∷ rest)))),
        λ k. done k ∙ ground (arith, current-insert batches r.sender k (some (add m r t))),
      )

  -- The whole batch: the request is made of it by `add_all`.
  pub handle_all-IsBatch :
      (sender : ℕ) (stream : Stream T) (batches : Map (Option (AfTensorMeta T)))
      → IsBatch sender stream
      → current (in_order batches) sender ≡ none
      → (after : Map (Option (AfTensorMeta T))) × (handle_all (in_order batches) stream
          ≡ ok (
            in_order after,
            responses stream ++ request (add_all (new_af_meta sender false) stream) ∷ [],
          ))
        × IsDone batches after sender
  handle_all-IsBatch sender [] batches stream_ok free = absurd stream_ok
  handle_all-IsBatch sender ((r, t) ∷ rest) batches stream_ok free =
      let m : AfTensorMeta T = add (new_af_meta r.sender false) r t in
      let more = insert r.sender (some m) batches in
      let (after, made, done) =
        handle_all-IsRest sender rest more m stream_ok.2
          (ground (arith, current-insert batches r.sender sender (some m))) in
      (
        after,
        handle_all-cons _ _ _ r t rest _ _
              (kv_handler-start (in_order batches) r t none stream_ok.0
                (ap (current (in_order batches)) stream_ok.1 ∙ free))
              made
            ∙ ap (λ l. ok (in_order after, l))
                (respond-more r (responses rest) (request (add_all m rest)))
            ∙ ap
                (λ k. ok (
                  in_order after,
                  responses ((r, t) ∷ rest)
                      ++ request (add_all (add (new_af_meta k false) r t) rest) ∷ [],
                ))
                stream_ok.1,
        λ k. done k ∙ ground (arith, current-insert batches r.sender k (some m)),
      )
