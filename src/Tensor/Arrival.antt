-- ===== src/Tensor/Arrival.antt =====
-- The messages of `ZBatchPushPull_` at one server's `KVHandler` (include/ps/af_tensor_app.h): which
-- tensors the server's request handle gets.
use mathlib.Core.Path.{subst}
use step_mesh.Prelude.{
  ℕ, ◌+◌, ◌*◌, ◌≤◌, ◌<◌, ◌≡◌, refl, sym, ap, ◌∙◌, true, false, Option, none, some, List, [], ◌∷◌,
  ◌++◌, arith, ltb, ◌==◌, length, take, drop, Bool-cases, inl, inr,
}
use step_mesh.Prelude.Result.{ok, check, bind-ok, ok-injective}
use step_mesh.Prelude.Map.{Map}
use step_mesh.Tensor.{KeyTensor, AfTensorRequest, Sent, z_batch_push_pull, send_batch}
use step_mesh.Tensor.Flags.{IsEnding, IsFlags}
use step_mesh.Tensor.Sending.{heads, pulls_each, send_batch-IsFlags}
use step_mesh.Tensor.Server.{Request, AfTensorMeta, request, from_blob, current, handle_all}
use step_mesh.Tensor.Batch.{Stream, IsRest, IsBatch, IsDone, in_order, responses}
use step_mesh.Tensor.Whole.{pushed_tensors, pulled_tensors, handle_all-IsWhole}
use step_mesh.Tensor.Parts.{to_server, seen, tagged, only, seen-send_batch}

module _ {T : Type 0} where
  -- The request that a message is at the server, from node `sender`.
  abbrev pub request_of : (sender : ℕ) → Sent T → Request
  request_of sender m = record {
    cmd = m.head;
    push = m.push;
    sender = sender;
    timestamp = m.timestamp;
    key = m.key;
  }

  -- The same messages, as the handler of the server gets them from node `sender`.
  abbrev pub arrive : (sender : ℕ) → List (Sent T) → Stream (Option T)
  arrive sender [] = []
  arrive sender (m ∷ ms) =
      (request_of sender m, from_blob (request_of sender m) m.key m.tensor) ∷ arrive sender ms

  -- Tensors with their values, and with undefined ones.
  abbrev pub with_value : List (KeyTensor T) → List (KeyTensor (Option T))
  with_value [] = []
  with_value (t ∷ ts) = record { key = t.key; val = some t.val } ∷ with_value ts

  abbrev pub without_value : List (KeyTensor T) → List (KeyTensor (Option T))
  without_value [] = []
  without_value (t ∷ ts) = record { key = t.key; val = none } ∷ without_value ts

  abbrev heads_of : List (Sent T) → List ℕ
  heads_of [] = []
  heads_of (m ∷ ms) = m.head ∷ heads_of ms

  heads-to_server : (s : ℕ) (sent : List (Sent T)) → heads s sent ≡ heads_of (to_server s sent)
  heads-to_server s [] = refl
  heads-to_server s (m ∷ ms) = ground (arith, heads-to_server s ms)

  arrive-IsRest :
      (sender : ℕ) (l : List (Sent T)) → IsEnding (heads_of l) → IsRest sender (arrive sender l)
  arrive-IsRest sender [] h = absurd h
  arrive-IsRest sender (m ∷ []) h = (h, refl)
  arrive-IsRest sender (m ∷ n ∷ l) h = (h.0, refl, arrive-IsRest sender (n ∷ l) h.1)

  pub arrive-IsBatch :
      (sender : ℕ) (l : List (Sent T)) → IsFlags (heads_of l) → IsBatch sender (arrive sender l)
  arrive-IsBatch sender [] h = absurd h
  arrive-IsBatch sender (m ∷ l) h = (h.0, refl, arrive-IsRest sender l h.1)

  -- The tensors that the server makes of messages.
  tensors-arrive :
      (sender : ℕ) (l : List (Sent T))
      → (pushed_tensors (arrive sender l) ≡ with_value (only true (seen l)))
        × (pulled_tensors (arrive sender l) ≡ without_value (only false (seen l)))
  unfolding from_blob
  tensors-arrive sender [] = (refl, refl)
  tensors-arrive sender (x ∷ l) =
      let (pushed, pulled) = tensors-arrive sender l in
      elim (Bool-cases x.push) [
        | inl e ↦ rw e (ap (λ k. record { key = x.key; val = some x.tensor } ∷ k) pushed, pulled)
        | inr e ↦ rw e (pushed, ap (λ k. record { key = x.key; val = none } ∷ k) pulled)
      ]

  only_pushed : (l k : List (KeyTensor T)) → only true (tagged true l ++ tagged false k) ≡ l
  only_pushed [] [] = refl
  only_pushed [] (t ∷ k) = only_pushed [] k
  only_pushed (t ∷ l) k = ap (λ r. t ∷ r) (only_pushed l k)

  only_pulled : (l k : List (KeyTensor T)) → only false (tagged true l ++ tagged false k) ≡ k
  only_pulled [] [] = refl
  only_pulled [] (t ∷ k) = ap (λ r. t ∷ r) (only_pulled [] k)
  only_pulled (t ∷ l) k = only_pulled l k

  -- From `ZBatchPushPull` to the request handle. A batch of at least two messages to each server,
  -- with as many pulls for each server, that reaches server `s` message by message, unchanged and
  -- in order, while no batch is put aside and the worker has none open there: the request handle of
  -- the server is called once, after an answer to every push, with all tensors that were pushed,
  -- and with the keys of the server's own part of those to pull, whose values are undefined there,
  -- both in their order; the worker then has no open batch, and the others' are as before.
  pub send_batch-arrives :
      (servers next s q sender : ℕ) (push pull : List (KeyTensor T))
      (batches : Map (Option (AfTensorMeta (Option T))))
      → s < servers
      → length pull ≡ q * servers
      → 2 ≤ length push + q
      → current (in_order batches) sender ≡ none
      → (req : AfTensorRequest T) × (start : ℕ) × (others : List ℕ) × (z_batch_push_pull servers
            next push pull
          ≡ ok (req, start, others))
        × (sent : List (Sent T)) × (send_batch servers req ≡ ok sent)
        × (after : Map (Option (AfTensorMeta (Option T)))) × (m : AfTensorMeta (Option T))
        × (handle_all (in_order batches) (arrive sender (to_server s sent))
            ≡ ok (in_order after, responses (arrive sender (to_server s sent)) ++ request m ∷ []))
        × (m.push_tensors ≡ with_value push)
        × (m.pull_tensors ≡ without_value (take q (drop (s * q) pull)))
        × IsDone batches after sender
  unfolding z_batch_push_pull
  send_batch-arrives servers next s q sender push pull batches lt full many free =
      let more : q ≤ length pull = pulls_each q servers (length pull) full (omega arith) in
      let (req, start, others, made, sent, done, flags_ok) =
        send_batch-IsFlags servers next s q push pull lt full many in
      let (u, positive, built) = bind-ok (check (ltb 0 servers)) _ (req, start, others) made in
      let pushes : req.push ≡ push = sym (ap (λ r. r.0.push) (ok-injective built)) in
      let pulls : req.pull ≡ pull = sym (ap (λ r. r.0.pull) (ok-injective built)) in
      let here = to_server s sent in
      let is_batch = arrive-IsBatch sender here (subst IsFlags (heads-to_server s sent) flags_ok) in
      let (after, m, handled, is_whole, is_done) =
        handle_all-IsWhole sender (arrive sender here) batches is_batch free in
      let whole : seen here ≡ tagged true push ++ tagged false (take q (drop (s * q) pull)) =
        seen-send_batch servers s q req sent lt (ap length pulls ∙ full)
          (ap (λ l. (length l + length req.pull) == 1) pushes
            ∙ ap (λ l. (length push + length l) == 1) pulls
            ∙ ground arith)
          done
        ∙ rw (pushes, pulls) refl in
      let got = tensors-arrive sender here in
      (
        req,
        start,
        others,
        made,
        sent,
        done,
        after,
        m,
        handled,
        is_whole.push_tensors
            ∙ got.0
            ∙ ap (λ l. with_value (only true l)) whole
            ∙ ap with_value (only_pushed push (take q (drop (s * q) pull))),
        is_whole.pull_tensors
            ∙ got.1
            ∙ ap (λ l. without_value (only false l)) whole
            ∙ ap without_value (only_pulled push (take q (drop (s * q) pull))),
        is_done,
      )
