-- ===== src/Tensor/Response.antt =====
-- `AFTensorServer::Response`: what is sent back for a request that the handle got. The response
-- thread sends what its queue has, in order; the device's events are left out.
use step_mesh.Prelude.{
  ℕ, ◌≡◌, Bool, true, false, Option, none, some, List, [], ◌∷◌, ◌==◌, if◌then◌else◌, length,
}
use step_mesh.Prelude.Result.{Result, ok, fatal}
use step_mesh.Tensor.{KeyTensor}
use step_mesh.Tensor.Server.{Request, AfTensorMeta}

module _ {T : Type 0} where
  -- The inner loop: the first tensor with the key.
  pub find_key : ℕ → List (KeyTensor T) → Option (KeyTensor T)
  find_key k [] = none
  find_key k (t ∷ ts) = let rest = find_key k ts in if t.key == k then some t else rest

  abbrev pub cons_found :
      Request
      → Option (KeyTensor T)
      → List (Request × Option (KeyTensor T))
      → List (Request × Option (KeyTensor T))
  cons_found r none rest = rest
  cons_found r (some t) rest = (r, some t) ∷ rest

  -- The loop over the pulls; a key that is not found is only logged.
  pub response_loop : List (KeyTensor T) → List Request → List (Request × Option (KeyTensor T))
  unfolding find_key
  response_loop tensors [] = []
  response_loop tensors (r ∷ metas) =
      cons_found r (find_key r.key tensors) (response_loop tensors metas)

  abbrev pub first_pull :
      List Request → List (KeyTensor T) → Result (List (Request × Option (KeyTensor T)))
  first_pull (r ∷ metas) (t ∷ tensors) = ok ((r, some t) ∷ [])
  first_pull _ _ = fatal

  abbrev pub first_push : List Request → List (Request × Option (KeyTensor T))
  first_push (r ∷ []) = (r, none) ∷ []
  first_push _ = []

  -- The answers, each with the tensor that it carries; `fatal` is an index out of range.
  pub response :
      AfTensorMeta T → List (KeyTensor T) → Result (List (Request × Option (KeyTensor T)))
  unfolding response_loop
  response m tensors =
      if m.single
      then (if length m.pull_tensors == 1
          then first_pull m.pull_metas tensors
          else ok (first_push m.push_metas))
      else ok (response_loop tensors m.pull_metas)

  abbrev pub has_key : ℕ → List (KeyTensor T) → Bool
  has_key k [] = false
  has_key k (t ∷ ts) = if t.key == k then true else has_key k ts

  -- Every pull has a tensor with its key.
  abbrev pub AreFound : List (KeyTensor T) → List Request → Type 0
  AreFound tensors [] = Unit
  AreFound tensors (r ∷ metas) = (has_key r.key tensors ≡ true) × AreFound tensors metas

  -- The answers are to these requests in order, each with a tensor of the request's key.
  abbrev pub Answers : List Request → List (Request × Option (KeyTensor T)) → Type 0
  Answers [] [] = Unit
  Answers (r ∷ metas) ((q, some t) ∷ sent) = (q ≡ r) × (t.key ≡ r.key) × Answers metas sent
  Answers _ _ = ⊥
