-- ===== src/Tensor/Whole.antt =====
-- What the request handle gets of a batch.
use mathlib.Core.List.{append_assoc, append-nil}
use step_mesh.Prelude.{
  ℕ, ◌≡◌, refl, sym, ◌∙◌, inl, inr, false, Option, none, List, [], ◌∷◌, ◌++◌, if◌then◌else◌,
  Bool-cases,
}
use step_mesh.Prelude.Map.{Map}
use step_mesh.Prelude.Result.{ok}
use step_mesh.Postoffice.{id_to_rank}
use step_mesh.Tensor.{KeyTensor}
use step_mesh.Tensor.Server.{Request, AfTensorMeta, request, add, new_af_meta, current, handle_all}
use step_mesh.Tensor.Batch.{
  Stream, IsBatch, IsDone, in_order, responses, add_all, handle_all-IsBatch,
}

module _ {T : Type 0} where
  -- The tensors and the requests of the pushes and of the pulls among messages, in order.
  abbrev pub pushed_tensors : Stream T → List (KeyTensor T)
  pushed_tensors [] = []
  pushed_tensors ((r, t) ∷ rest) = if r.push then t ∷ pushed_tensors rest else pushed_tensors rest

  abbrev pub pulled_tensors : Stream T → List (KeyTensor T)
  pulled_tensors [] = []
  pulled_tensors ((r, t) ∷ rest) = if r.push then pulled_tensors rest else t ∷ pulled_tensors rest

  abbrev pub pushes : Stream T → List Request
  pushes [] = []
  pushes ((r, t) ∷ rest) = if r.push then r ∷ pushes rest else pushes rest

  abbrev pub pulls : Stream T → List Request
  pulls [] = []
  pulls ((r, t) ∷ rest) = if r.push then pulls rest else r ∷ pulls rest

  -- The timestamp of the last message, or `before`.
  abbrev pub last_stamp : (before : ℕ) → Stream T → ℕ
  last_stamp before [] = before
  last_stamp before ((r, t) ∷ rest) = last_stamp r.timestamp rest

  -- `m` has exactly the messages of the stream, on top of what `before` has.
  record IsMore (before : AfTensorMeta T) (stream : Stream T) (m : AfTensorMeta T) : Type 0 where
    sender : m.sender ≡ before.sender
    sender_rank : m.sender_rank ≡ before.sender_rank
    single : m.single ≡ before.single
    last_timestamp : m.last_timestamp ≡ last_stamp before.last_timestamp stream
    push_tensors : m.push_tensors ≡ before.push_tensors ++ pushed_tensors stream
    pull_tensors : m.pull_tensors ≡ before.pull_tensors ++ pulled_tensors stream
    push_metas : m.push_metas ≡ before.push_metas ++ pushes stream
    pull_metas : m.pull_metas ≡ before.pull_metas ++ pulls stream

  add_all-IsMore : (stream : Stream T) (m : AfTensorMeta T) → IsMore m stream (add_all m stream)
  unfolding add
  add_all-IsMore [] m = record {
    sender = refl;
    sender_rank = refl;
    single = refl;
    last_timestamp = refl;
    push_tensors = sym (append-nil m.push_tensors);
    pull_tensors = sym (append-nil m.pull_tensors);
    push_metas = sym (append-nil m.push_metas);
    pull_metas = sym (append-nil m.pull_metas);
  }
  add_all-IsMore ((r, t) ∷ rest) m = elim (Bool-cases r.push) [
    | inl e ↦ rw e (
        let more = add_all-IsMore rest _ in
        record {
          sender = more.sender;
          sender_rank = more.sender_rank;
          single = more.single;
          last_timestamp = more.last_timestamp;
          push_tensors =
              more.push_tensors ∙ append_assoc m.push_tensors (t ∷ []) (pushed_tensors rest);
          pull_tensors = more.pull_tensors;
          push_metas = more.push_metas ∙ append_assoc m.push_metas (_ ∷ []) (pushes rest);
          pull_metas = more.pull_metas;
        })
    | inr e ↦ rw e (
        let more = add_all-IsMore rest _ in
        record {
          sender = more.sender;
          sender_rank = more.sender_rank;
          single = more.single;
          last_timestamp = more.last_timestamp;
          push_tensors = more.push_tensors;
          pull_tensors =
              more.pull_tensors ∙ append_assoc m.pull_tensors (t ∷ []) (pulled_tensors rest);
          push_metas = more.push_metas;
          pull_metas = more.pull_metas ∙ append_assoc m.pull_metas (_ ∷ []) (pulls rest);
        })
  ]

  -- A request made of exactly the messages of the stream, in order.
  pub record IsWhole (sender : ℕ) (stream : Stream T) (m : AfTensorMeta T) : Type 0 where
    pub sender_is : m.sender ≡ sender
    pub sender_rank : m.sender_rank ≡ id_to_rank sender
    pub single : m.single ≡ false
    pub last_timestamp : m.last_timestamp ≡ last_stamp 0 stream
    pub push_tensors : m.push_tensors ≡ pushed_tensors stream
    pub pull_tensors : m.pull_tensors ≡ pulled_tensors stream
    pub push_metas : m.push_metas ≡ pushes stream
    pub pull_metas : m.pull_metas ≡ pulls stream

  pub add_all-IsWhole :
      (sender : ℕ) (stream : Stream T)
      → IsWhole sender stream (add_all (new_af_meta sender false) stream)
  add_all-IsWhole sender stream =
      let more = add_all-IsMore stream (new_af_meta sender false) in
      record {
        sender_is = more.sender;
        sender_rank = more.sender_rank;
        single = more.single;
        last_timestamp = more.last_timestamp;
        push_tensors = more.push_tensors;
        pull_tensors = more.pull_tensors;
        push_metas = more.push_metas;
        pull_metas = more.pull_metas;
      }

  -- A batch of any length of at least two messages, the messages in order and the last one, and no
  -- other, marked as its end, from a sender with no open batch, while no batch is put aside: every
  -- push is answered, and then the request handle is called once, with the requests and the tensors
  -- of all pushes and of all pulls of the batch, each in order, and with its last timestamp;
  -- afterwards the sender has no open batch and the others' are as before.
  pub handle_all-IsWhole :
      (sender : ℕ) (stream : Stream T) (batches : Map (Option (AfTensorMeta T)))
      → IsBatch sender stream
      → current (in_order batches) sender ≡ none
      → (after : Map (Option (AfTensorMeta T))) × (m : AfTensorMeta T) × (handle_all
            (in_order batches)
            stream
          ≡ ok (in_order after, responses stream ++ request m ∷ []))
        × IsWhole sender stream m
        × IsDone batches after sender
  handle_all-IsWhole sender stream batches is_batch free =
      let (after, made, done) = handle_all-IsBatch sender stream batches is_batch free in
      (after, add_all (new_af_meta sender false) stream, made, add_all-IsWhole sender stream, done)
