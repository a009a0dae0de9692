-- ===== src/Tensor/Register.antt =====
-- `AFTensorServer::RegisterRecvTensor` and `RegisterRecvBuffer_` (include/ps/af_tensor_app.h). A
-- tensor is the list of its bytes; the size of a chunk fits an `int`.
use step_mesh.Slicer.Positions.{drop-drop}
use step_mesh.Prelude.{
  ℕ, suc, ◌+◌, ◌*◌, ◌/◌, ◌%◌, ◌<◌, ◌≡◌, ◌∙◌, refl, sym, ap, true, List, [], ◌∷◌, ◌++◌, arith, ltb,
  ◌==◌, length, take, drop, take-append-drop, drop-all,
}
use step_mesh.Prelude.Int.{pos}
use step_mesh.Prelude.Result.{Result, ok, fatal, check, ◌>>◌, ◌>>=◌}
use step_mesh.Message.{new_meta, Meta}
use step_mesh.Postoffice.{Postoffice, group_worker_rank_to_instance_id}
use step_mesh.KvServer.{Array, of_keys, of_vals, of_lens}
use step_mesh.KvServer.Handle.{register_recv_buffer_with_rank}

module _ {V : Type 0} where
  -- `RegisterRecvBuffer_`
  pub register_chunk :
      Postoffice
      → (instance_idx worker_rank k : ℕ) (data_ : List V) → Result (Meta × List (Array V))
  unfolding register_recv_buffer_with_rank
  register_chunk po instance_idx worker_rank k data_ =
      register_recv_buffer_with_rank po instance_idx worker_rank (k ∷ []) data_ (length data_ ∷ [])
        (pos 0)

  -- The loop, from number `i` on.
  pub register_loop :
      Postoffice
      → (instance_idx chunk_size i : ℕ) (tensor : List V) (worker_ranks keys : List ℕ)
      → Result (List (Meta × List (Array V)))
  unfolding register_chunk
  register_loop po instance_idx chunk_size i tensor [] keys = ok []
  register_loop po instance_idx chunk_size i tensor (rank ∷ ranks) [] = fatal
  register_loop po instance_idx chunk_size i tensor (rank ∷ ranks) (key ∷ keys) =
      register_chunk po instance_idx rank key (take chunk_size (drop (chunk_size * i) tensor))
      >>= (λ m.
          register_loop po instance_idx chunk_size (i + 1) tensor ranks keys
          >>= (λ ms. ok (m ∷ ms)))

  pub register_recv_tensor :
      Postoffice
      → (instance_idx : ℕ) (tensor : List V) (worker_ranks keys : List ℕ)
      → Result (List (Meta × List (Array V)))
  unfolding register_loop
  register_recv_tensor po instance_idx tensor worker_ranks keys =
      check (ltb 0 (length worker_ranks))
      >> (check (length worker_ranks == length keys)
          >> (check ((length tensor % length worker_ranks) == 0)
              >> register_loop po instance_idx (length tensor / length worker_ranks) 0 tensor
                  worker_ranks keys))

  -- What the van is told for each rank and key: a chunk of the tensor.
  abbrev pub IsChunk :
      Postoffice → (instance_idx rank key : ℕ) → (chunk : List V) → Meta × List (Array V) → Type 0
  IsChunk po instance_idx rank key chunk m =
      (m.0.sender ≡ group_worker_rank_to_instance_id po rank instance_idx)
      × (m.0.key ≡ key)
      × (m.1 ≡ of_keys (key ∷ []) ∷ of_vals chunk ∷ of_lens (length chunk ∷ []) ∷ [])

  abbrev pub AreChunks :
      Postoffice
      → (instance_idx : ℕ) (ranks keys : List ℕ) (chunks : List (List V))
      → List (Meta × List (Array V))
      → Type 0
  AreChunks po instance_idx [] [] [] [] = Unit
  AreChunks po instance_idx (r ∷ rs) (k ∷ ks) (c ∷ cs) (m ∷ ms) =
      IsChunk po instance_idx r k c m × AreChunks po instance_idx rs ks cs ms
  AreChunks po instance_idx _ _ _ _ = ⊥

  abbrev pub concat : List (List V) → List V
  concat [] = []
  concat (c ∷ cs) = c ++ concat cs

  abbrev chunk_message : Postoffice → (instance_idx rank key : ℕ) → List V → Meta × List (Array V)
  chunk_message po instance_idx rank key chunk = (
    record new_meta {
      request = true;
      push = true;
      head = pos 0;
      sender = group_worker_rank_to_instance_id po rank instance_idx;
      key = key;
    },
    of_keys (key ∷ []) ∷ of_vals chunk ∷ of_lens (length chunk ∷ []) ∷ [],
  )

  register_loop-AreChunks :
      (po : Postoffice) (instance_idx chunk_size i : ℕ) (tensor : List V) (ranks keys : List ℕ)
      → length ranks ≡ length keys
      → length tensor ≡ chunk_size * (i + length ranks)
      → (ms : List (Meta × List (Array V))) × (chunks : List (List V)) × (register_loop po
            instance_idx chunk_size i tensor ranks keys
          ≡ ok ms)
        × AreChunks po instance_idx ranks keys chunks ms
        × (concat chunks ≡ drop (chunk_size * i) tensor)
  unfolding register_loop
  register_loop-AreChunks po instance_idx chunk_size i tensor [] [] each whole = (
    [],
    [],
    refl,
    tt,
    sym (
        drop-all tensor (chunk_size * i)
          (omega (arith, whole ∙ ap (λ n. chunk_size * n) {x = i + 0} {y = i} (omega arith)))),
  )
  register_loop-AreChunks po instance_idx chunk_size i tensor [] (k ∷ ks) each whole =
      absurd (omega arith)
  register_loop-AreChunks po instance_idx chunk_size i tensor (r ∷ rs) [] each whole =
      absurd (omega arith)
  register_loop-AreChunks po instance_idx chunk_size i tensor (r ∷ rs) (k ∷ ks) each whole =
      let chunk = take chunk_size (drop (chunk_size * i) tensor) in
      let (ms, chunks, made, are, rest) =
        register_loop-AreChunks po instance_idx chunk_size (i + 1) tensor rs ks (omega arith) (
          whole
          ∙ ap (λ n. chunk_size * n) {x = i + suc (length rs)} {y = i + 1 + length rs}
              (omega arith)) in
      let next : chunk_size * (i + 1) ≡ chunk_size * i + chunk_size = grind arith in
      (
        chunk_message po instance_idx r k chunk ∷ ms,
        chunk ∷ chunks,
        rw made refl,
        ((refl, refl, refl), are),
        ap (λ l. chunk ++ l)
              (rest
                ∙ ap (λ n. drop n tensor) next
                ∙ sym (drop-drop (chunk_size * i) chunk_size tensor))
            ∙ take-append-drop chunk_size (drop (chunk_size * i) tensor),
      )

  -- With as many keys as ranks, at least one, and a tensor whose size is a multiple of their
  -- number, the registration succeeds; each rank and key in turn gets one message, with a chunk of
  -- the tensor, and the chunks, one after the other, are the whole tensor.
  pub register_recv_tensor-AreChunks :
      (po : Postoffice) (instance_idx : ℕ) (tensor : List V) (ranks keys : List ℕ)
      → 0 < length ranks
      → length ranks ≡ length keys
      → length tensor % length ranks ≡ 0
      → (ms : List (Meta × List (Array V))) × (chunks : List (List V)) × (register_recv_tensor po
            instance_idx tensor ranks keys
          ≡ ok ms)
        × AreChunks po instance_idx ranks keys chunks ms
        × (concat chunks ≡ tensor)
  unfolding register_recv_tensor
  register_recv_tensor-AreChunks po instance_idx tensor ranks keys some_rank each even =
      let n = length ranks in
      let size = length tensor / n in
      let some_rank_test : ltb 0 n ≡ true = ground arith in
      let each_test : (n == length keys) ≡ true = ground arith in
      let even_test : ((length tensor % n) == 0) ≡ true = ground (arith, even) in
      let whole : length tensor ≡ size * (0 + n) = grind arith in
      let (ms, chunks, made, are, joined) =
        register_loop-AreChunks po instance_idx size 0 tensor ranks keys each whole in
      (
        ms,
        chunks,
        rw (some_rank_test, each_test, even_test) made,
        are,
        joined ∙ ap (λ k. drop k tensor) {x = size * 0} {y = 0} (omega arith),
      )
