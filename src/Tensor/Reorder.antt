-- ===== src/Tensor/Reorder.antt =====
-- A batch that overtakes the end of the batch before it.
use mathlib.Core.List.{append_assoc, append-nil}
use mathlib.Core.Path.{subst}
use step_mesh.Prelude.{
  ℕ, ◌+◌, ◌≡◌, refl, sym, ap, ◌∙◌, true, false, Option, none, some, List, [], ◌∷◌, ◌++◌, arith,
  ◌==◌,
}
use step_mesh.Prelude.Map.{Map, insert}
use step_mesh.Prelude.Result.{Result, ok, fatal, bind-ok, ok-injective}
use step_mesh.Tensor.{af_flag_batch_start, af_flag_batch_middle, af_flag_batch_end, KeyTensor}
use step_mesh.Tensor.Server.{
  Request, AfTensorMeta, AfTensorServer, Event, request, add, new_af_meta, current, find_reorder,
  to_current, to_reordered, respond_push, after_response, continue, kv_handler, handle_all,
}
use step_mesh.Tensor.Whole.{IsWhole, add_all-IsWhole, last_stamp}
use step_mesh.Tensor.Batch.{
  Stream, responses, add_all, kv_handler-middle, in_order, kv_handler-start, handle_all-cons,
  current-insert,
}

module _ {T : Type 0} where
  find_reorder-found :
      (r : Request) (m : AfTensorMeta T)
      → m.sender ≡ r.sender
      → r.timestamp ≡ m.last_timestamp + 1
      → find_reorder r (m ∷ []) ≡ some ([], m, [])
  unfolding find_reorder
  find_reorder-found r m same next =
      let same_sender : (m.sender == r.sender) ≡ true = ground arith in
      let is_next : (r.timestamp == (m.last_timestamp + 1)) ≡ true = ground arith in
      rw (same_sender, is_next)

  abbrev go_on :
      AfTensorServer T
      → Request
      → KeyTensor T
      → Option (List (AfTensorMeta T) × AfTensorMeta T × List (AfTensorMeta T))
      → Result (AfTensorServer T × List (Event T))
  go_on s r t none = elim (current s r.sender) [
    | none ↦ fatal
    | some m ↦ ok (after_response r (to_current s r (add m r t)))
  ]
  go_on s r t (some (before, m, after)) =
      ok (after_response r (to_reordered s r before after (add m r t)))

  continue-reordered :
      (s : AfTensorServer T) (r : Request) (t : KeyTensor T) (m : AfTensorMeta T)
      → s.reorder_buffer ≡ m ∷ []
      → m.sender ≡ r.sender
      → r.timestamp ≡ m.last_timestamp + 1
      → continue s r t ≡ ok (after_response r (to_reordered s r [] [] (add m r t)))
  unfolding continue
  continue-reordered s r t m aside same next =
      ap (go_on s r t) (ap (find_reorder r) aside ∙ find_reorder-found r m same next)

  -- The end of a batch that was put aside.
  kv_handler-reordered :
      (batches : Map (Option (AfTensorMeta T))) (r : Request) (t : KeyTensor T) (m : AfTensorMeta T)
      → r.cmd ≡ af_flag_batch_end
      → m.sender ≡ r.sender
      → r.timestamp ≡ m.last_timestamp + 1
      → kv_handler (record { batch_data = batches; reorder_buffer = m ∷ [] }) r t
        ≡ ok (in_order batches, respond_push r ++ request (add m r t) ∷ [])
  unfolding kv_handler continue find_reorder to_reordered
  kv_handler-reordered batches r t m is_end same next =
      let batched : (r.cmd == 0) ≡ false = ground arith in
      let not_start : (r.cmd == 1) ≡ false = ground arith in
      let last : (r.cmd == 3) ≡ true = ground arith in
      rw (
        batched,
        not_start,
        continue-reordered (record { batch_data = batches; reorder_buffer = m ∷ [] }) r t m refl
            same next,
        last,
      )

  -- The rest of the messages of a batch that has not ended, and all of them.
  abbrev pub AreMiddle : ℕ → Stream T → Type 0
  AreMiddle sender [] = Unit
  AreMiddle sender ((r, t) ∷ rest) =
      (r.cmd ≡ af_flag_batch_middle) × (r.sender ≡ sender) × AreMiddle sender rest

  abbrev pub IsOpening : ℕ → Stream T → Type 0
  IsOpening sender [] = ⊥
  IsOpening sender ((r, t) ∷ rest) =
      (r.cmd ≡ af_flag_batch_start) × (r.sender ≡ sender) × AreMiddle sender rest

  -- The messages `stream` open or go on with the batch of `sender`, which then is `m`.
  abbrev pub Opens :
      (before : Map (Option (AfTensorMeta T)))
      → (sender : ℕ) (stream : Stream T) (m : AfTensorMeta T) → Type 0
  Opens before sender stream m =
      (after : Map (Option (AfTensorMeta T))) × (handle_all (in_order before) stream
        ≡ ok (in_order after, responses stream))
      × (current (in_order after) sender ≡ some m)

  handle_all-AreMiddle :
      (sender : ℕ) (stream : Stream T) (batches : Map (Option (AfTensorMeta T)))
      (m : AfTensorMeta T)
      → AreMiddle sender stream
      → current (in_order batches) sender ≡ some m
      → Opens batches sender stream (add_all m stream)
  unfolding handle_all
  handle_all-AreMiddle sender [] batches m middle open_batch = (batches, refl, open_batch)
  handle_all-AreMiddle sender ((r, t) ∷ rest) batches m middle open_batch =
      let from : current (in_order batches) r.sender ≡ some m =
        ap (current (in_order batches)) middle.1 ∙ open_batch in
      let more = insert r.sender (some (add m r t)) batches in
      let (after, made, now) =
        handle_all-AreMiddle sender rest more (add m r t) middle.2
          (ground (arith, current-insert batches r.sender sender (some (add m r t)))) in
      (
        after,
        handle_all-cons _ _ _ r t rest _ _ (kv_handler-middle batches r t m middle.0 from) made
            ∙ ap (λ l. ok (in_order after, l ++ responses rest)) (append-nil (respond_push r)),
        now,
      )

  handle_all-IsOpening :
      (sender : ℕ) (stream : Stream T) (batches : Map (Option (AfTensorMeta T)))
      → IsOpening sender stream
      → current (in_order batches) sender ≡ none
      → Opens batches sender stream (add_all (new_af_meta sender false) stream)
  handle_all-IsOpening sender [] batches opening free = absurd opening
  handle_all-IsOpening sender ((r, t) ∷ rest) batches opening free =
      let m : AfTensorMeta T = add (new_af_meta r.sender false) r t in
      let more = insert r.sender (some m) batches in
      let (after, made, now) =
        handle_all-AreMiddle sender rest more m opening.2
          (ground (arith, current-insert batches r.sender sender (some m))) in
      (
        after,
        handle_all-cons _ _ _ r t rest _ _
              (kv_handler-start (in_order batches) r t none opening.0
                (ap (current (in_order batches)) opening.1 ∙ free))
              made
            ∙ ap (λ l. ok (in_order after, l ++ responses rest)) (append-nil (respond_push r)),
        now ∙ ap (λ k. some (add_all (add (new_af_meta k false) r t) rest)) opening.1,
      )

  handle_all-append :
      (a b : Stream T) (s s1 s2 : AfTensorServer T) (now later : List (Event T))
      → handle_all s a ≡ ok (s1, now)
      → handle_all s1 b ≡ ok (s2, later)
      → handle_all s (a ++ b) ≡ ok (s2, now ++ later)
  unfolding handle_all
  handle_all-append [] b s s1 s2 now later first second =
      let is = ok-injective first in
      ap (λ p. handle_all p.0 b) is
      ∙ second
      ∙ ap (λ p. ok (s2, p.1 ++ later)) {x = (s, [])} {y = (s1, now)} is
  handle_all-append ((r, t) ∷ a) b s s1 s2 now later first second =
      let (one, made, more) = bind-ok (kv_handler s r t) _ (s1, now) first in
      let (rest, made_rest, all) = bind-ok (handle_all one.0 a) _ (s1, now) more in
      let is = ok-injective all in
      rw
        (
          made,
          handle_all-append a b one.0 s1 s2 rest.1 later (made_rest ∙ ap (λ p. ok (p.0, rest.1)) is)
              second,
        )
        (ap (λ l. ok (s2, l)) (sym (append_assoc one.1 rest.1 later))
          ∙ ap (λ p. ok (s2, p.1 ++ later)) is)

  add_all-append :
      (a b : Stream T) (m : AfTensorMeta T) → add_all m (a ++ b) ≡ add_all (add_all m a) b
  add_all-append [] b m = refl
  add_all-append ((r, t) ∷ a) b m = add_all-append a b (add m r t)

  arranged :
      (a b : List (Event T)) (x : Event T)
      → (a ++ []) ++ ((b ++ x ∷ []) ++ []) ≡ (a ++ (b ++ [])) ++ x ∷ []
  arranged a b x =
      rw (append-nil a, append-nil (b ++ x ∷ []), append-nil b) (sym (append_assoc a b (x ∷ [])))

  -- While nothing is put aside and a sender has no open batch, all messages of its batch but the
  -- last come in order; then its next batch starts before that last message arrives. With the
  -- timestamp that follows the one before it, the message still completes the first batch, which
  -- the request handle gets whole, the late message included; the new batch is then the open one,
  -- with just its first message, and nothing is left put aside. All pushes are answered.
  pub handle_all-reordered :
      (batches : Map (Option (AfTensorMeta T))) (sender : ℕ) (opening : Stream T)
      (first last : Request) (t u : KeyTensor T)
      → IsOpening sender opening
      → current (in_order batches) sender ≡ none
      → first.sender ≡ sender
      → last.sender ≡ sender
      → first.cmd ≡ af_flag_batch_start
      → last.cmd ≡ af_flag_batch_end
      → last.timestamp ≡ last_stamp 0 opening + 1
      → (after : Map (Option (AfTensorMeta T))) × (m : AfTensorMeta T) × (n : AfTensorMeta T)
        × (handle_all (in_order batches) (opening ++ (first, t) ∷ (last, u) ∷ [])
            ≡ ok (
              in_order after,
              responses opening ++ (responses ((first, t) ∷ (last, u) ∷ []) ++ request m ∷ []),
            ))
        × IsWhole sender (opening ++ (last, u) ∷ []) m
        × (current (in_order after) sender ≡ some n)
        × IsWhole sender ((first, t) ∷ []) n
  unfolding handle_all
  handle_all-reordered batches sender opening first last t u is_opening free own same is_start
        is_end next =
      let m = add_all (new_af_meta sender false) opening in
      let is_m = add_all-IsWhole sender opening in
      let (middle, made, open_batch) =
        handle_all-IsOpening sender opening batches is_opening free in
      let n = add (new_af_meta first.sender false) first t in
      let after = insert first.sender (some n) middle in
      let ended =
        kv_handler-reordered after last u m is_end (is_m.sender_is ∙ sym same)
          (next ∙ ap (λ k. k + 1) (sym is_m.last_timestamp)) in
      let two =
        handle_all-cons (in_order middle) (record { batch_data = after; reorder_buffer = m ∷ [] })
          (in_order after) first t ((last, u) ∷ []) (respond_push first ++ [])
          ((respond_push last ++ request (add m last u) ∷ []) ++ [])
          (kv_handler-start (in_order middle) first t (some m) is_start
            (ap (current (in_order middle)) own ∙ open_batch))
          (handle_all-cons (record { batch_data = after; reorder_buffer = m ∷ [] }) (in_order after)
            (in_order after) last u [] (respond_push last ++ request (add m last u) ∷ []) [] ended
            refl) in
      let all = add_all-append opening ((last, u) ∷ []) (new_af_meta sender false) in
      (
        after,
        add m last u,
        n,
        handle_all-append opening ((first, t) ∷ (last, u) ∷ []) (in_order batches) (in_order middle)
              (in_order after) (responses opening) _ made two
            ∙ ap (λ l. ok (in_order after, responses opening ++ l))
                (arranged (respond_push first) (respond_push last) (request (add m last u))),
        subst (IsWhole sender (opening ++ (last, u) ∷ [])) all
            (add_all-IsWhole sender (opening ++ (last, u) ∷ [])),
        ground (arith, current-insert middle first.sender sender (some n)),
        subst (λ k. IsWhole sender ((first, t) ∷ []) (add (new_af_meta k false) first t)) (sym own)
            (add_all-IsWhole sender ((first, t) ∷ [])),
      )
