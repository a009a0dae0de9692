-- ===== src/Postoffice/GroupLoops.antt =====
-- The loops of `Start` (src/postoffice.cc): which ids they put under which groups.
use mathlib.Core.List.{append_assoc, append-nil}
use step_mesh.Prelude.{
  or_nil, ℕ, zero, suc, ◌+◌, ◌%◌, ◌<◌, ◌≡◌, refl, sym, ap, ◌∙◌, inl, inr, Bool, true, false, some,
  List, [], ◌∷◌, ◌++◌, arith, ◌==◌, if◌then◌else◌, Bool-cases,
}
use step_mesh.Postoffice.{
  k_scheduler, worker_rank_to_id, server_rank_to_id, has_scheduler, has_servers, has_workers,
}
use step_mesh.Postoffice.Start.{
  NodeIds, ids_at, push_id, push_groups, worker_loop, server_loop, scheduler_groups,
}

-- The ids of the `n` instances from rank `i` on.
abbrev pub worker_ids : ℕ → ℕ → List ℕ
worker_ids i zero = []
worker_ids i (suc n) = worker_rank_to_id i ∷ worker_ids (i + 1) n

abbrev pub server_ids : ℕ → ℕ → List ℕ
server_ids i zero = []
server_ids i (suc n) = server_rank_to_id i ∷ server_ids (i + 1) n

push_id_at :
    (m : NodeIds) (g id j : ℕ)
    → push_id m g id j ≡ (if g == j then some (ids_at m g ++ id ∷ []) else m j)
unfolding push_id
push_id_at m g id j = refl

ids_at-push_id :
    (m : NodeIds) (g id j : ℕ)
    → ids_at (push_id m g id) j ≡ (if g == j then ids_at m j ++ id ∷ [] else ids_at m j)
ids_at-push_id m g id j = elim (Bool-cases (g == j)) [
  | inl e ↦ ap or_nil (push_id_at m g id j) ∙ rw e (ap (λ k. ids_at m k ++ id ∷ []) (ground arith))
  | inr e ↦ ap or_nil (push_id_at m g id j) ∙ rw e
]

-- The groups of a list that names no group twice.
abbrev pub mentions : List ℕ → ℕ → Bool
mentions [] j = false
mentions (g ∷ gs) j = if g == j then true else mentions gs j

abbrev IsDistinct : List ℕ → Type 0
IsDistinct [] = Unit
IsDistinct (g ∷ gs) = (mentions gs g ≡ false) × IsDistinct gs

ids_at-push_groups :
    (gs : List ℕ) (id : ℕ) (m : NodeIds) (j : ℕ)
    → IsDistinct gs
    → ids_at (push_groups gs id m) j ≡ (if mentions gs j then ids_at m j ++ id ∷ [] else ids_at m j)
unfolding push_groups
ids_at-push_groups [] id m j d = refl
ids_at-push_groups (g ∷ gs) id m j d = elim (Bool-cases (g == j)) [
  | inl e ↦
      let same : g ≡ j = ground arith in
      rw (e, ids_at-push_groups gs id (push_id m g id) j d.1, ids_at-push_id, e)
        (rw (ap (mentions gs) (sym same) ∙ d.0))
  | inr e ↦ rw (e, ids_at-push_groups gs id (push_id m g id) j d.1, ids_at-push_id, e)
]

abbrev worker_groups : ℕ → List ℕ
worker_groups i = worker_rank_to_id i ∷ 4 ∷ 6 ∷ 5 ∷ 7 ∷ []

worker_groups-IsDistinct : (i : ℕ) → IsDistinct (worker_groups i)
unfolding worker_rank_to_id
worker_groups-IsDistinct i = (ground arith, (refl, (refl, (refl, (refl, tt)))))

mentions-worker_groups : (i g : ℕ) → g < 8 → mentions (worker_groups i) g ≡ has_workers g
unfolding worker_rank_to_id
mentions-worker_groups i g lt = ground arith

pub worker_loop-group :
    (rounds i : ℕ) (m : NodeIds) (g : ℕ)
    → g < 8
    → ids_at (worker_loop rounds i m) g
      ≡ (if has_workers g then ids_at m g ++ worker_ids i rounds else ids_at m g)
unfolding worker_loop
worker_loop-group zero i m g lt = ground (arith, append-nil (ids_at m g))
worker_loop-group (suc rounds) i m g lt =
    let id : ℕ = worker_rank_to_id i in
    worker_loop-group rounds (i + 1) (push_groups (worker_groups i) id m) g lt
    ∙ ground (
      arith,
      ids_at-push_groups (worker_groups i) id m g (worker_groups-IsDistinct i),
      mentions-worker_groups i g lt,
      append_assoc (ids_at m g) (id ∷ []) (worker_ids (i + 1) rounds),
    )

worker_ids-above :
    (rounds i k : ℕ) → k < worker_rank_to_id i → mentions (worker_ids i rounds) k ≡ false
unfolding worker_rank_to_id
worker_ids-above zero i k lt = refl
worker_ids-above (suc rounds) i k lt = ground (arith, worker_ids-above rounds (i + 1) k)

mentions-worker_groups_own :
    (i k : ℕ) → 7 < k → mentions (worker_groups i) k ≡ (worker_rank_to_id i == k)
unfolding worker_rank_to_id
mentions-worker_groups_own i k lt = ground arith

-- The lists under the ids of single nodes.
pub worker_loop-own :
    (rounds i k : ℕ) (m : NodeIds)
    → 7 < k
    → ids_at (worker_loop rounds i m) k
      ≡ (if mentions (worker_ids i rounds) k then ids_at m k ++ k ∷ [] else ids_at m k)
unfolding worker_loop worker_rank_to_id
worker_loop-own zero i k m lt = refl
worker_loop-own (suc rounds) i k m lt =
    let id : ℕ = worker_rank_to_id i in
    worker_loop-own rounds (i + 1) k (push_groups (worker_groups i) id m) lt ∙ own_round
  where
    own_round :
        (if mentions (worker_ids (i + 1) rounds) k
          then ids_at (push_groups (worker_groups i) (worker_rank_to_id i) m) k ++ k ∷ []
          else ids_at (push_groups (worker_groups i) (worker_rank_to_id i) m) k)
        ≡ (if mentions (worker_ids i (suc rounds)) k then ids_at m k ++ k ∷ [] else ids_at m k)
    own_round = ground (
      arith,
      ids_at-push_groups (worker_groups i) (worker_rank_to_id i) m k (worker_groups-IsDistinct i),
      mentions-worker_groups_own i k lt,
      worker_ids-above rounds (i + 1) k,
    )

abbrev server_groups : ℕ → List ℕ
server_groups i = server_rank_to_id i ∷ 2 ∷ 6 ∷ 3 ∷ 7 ∷ []

server_groups-IsDistinct : (i : ℕ) → IsDistinct (server_groups i)
unfolding server_rank_to_id
server_groups-IsDistinct i = (ground arith, (refl, (refl, (refl, (refl, tt)))))

mentions-server_groups : (i g : ℕ) → g < 8 → mentions (server_groups i) g ≡ has_servers g
unfolding server_rank_to_id
mentions-server_groups i g lt = ground arith

pub server_loop-group :
    (rounds i : ℕ) (m : NodeIds) (g : ℕ)
    → g < 8
    → ids_at (server_loop rounds i m) g
      ≡ (if has_servers g then ids_at m g ++ server_ids i rounds else ids_at m g)
unfolding server_loop
server_loop-group zero i m g lt = ground (arith, append-nil (ids_at m g))
server_loop-group (suc rounds) i m g lt =
    let id : ℕ = server_rank_to_id i in
    server_loop-group rounds (i + 1) (push_groups (server_groups i) id m) g lt
    ∙ ground (
      arith,
      ids_at-push_groups (server_groups i) id m g (server_groups-IsDistinct i),
      mentions-server_groups i g lt,
      append_assoc (ids_at m g) (id ∷ []) (server_ids (i + 1) rounds),
    )

server_ids-above :
    (rounds i k : ℕ) → k < server_rank_to_id i → mentions (server_ids i rounds) k ≡ false
unfolding server_rank_to_id
server_ids-above zero i k lt = refl
server_ids-above (suc rounds) i k lt = ground (arith, server_ids-above rounds (i + 1) k)

mentions-server_groups_own :
    (i k : ℕ) → 7 < k → mentions (server_groups i) k ≡ (server_rank_to_id i == k)
unfolding server_rank_to_id
mentions-server_groups_own i k lt = ground arith

-- The lists under the ids of single nodes.
pub server_loop-own :
    (rounds i k : ℕ) (m : NodeIds)
    → 7 < k
    → ids_at (server_loop rounds i m) k
      ≡ (if mentions (server_ids i rounds) k then ids_at m k ++ k ∷ [] else ids_at m k)
unfolding server_loop server_rank_to_id
server_loop-own zero i k m lt = refl
server_loop-own (suc rounds) i k m lt =
    let id : ℕ = server_rank_to_id i in
    server_loop-own rounds (i + 1) k (push_groups (server_groups i) id m) lt ∙ own_round
  where
    own_round :
        (if mentions (server_ids (i + 1) rounds) k
          then ids_at (push_groups (server_groups i) (server_rank_to_id i) m) k ++ k ∷ []
          else ids_at (push_groups (server_groups i) (server_rank_to_id i) m) k)
        ≡ (if mentions (server_ids i (suc rounds)) k then ids_at m k ++ k ∷ [] else ids_at m k)
    own_round = ground (
      arith,
      ids_at-push_groups (server_groups i) (server_rank_to_id i) m k (server_groups-IsDistinct i),
      mentions-server_groups_own i k lt,
      server_ids-above rounds (i + 1) k,
    )

pub scheduler_groups-group :
    (m : NodeIds) (g : ℕ)
    → ids_at (scheduler_groups m) g
      ≡ (if mentions (1 ∷ 7 ∷ 5 ∷ 3 ∷ []) g then ids_at m g ++ k_scheduler ∷ [] else ids_at m g)
unfolding scheduler_groups
scheduler_groups-group m g =
    ids_at-push_groups (1 ∷ 7 ∷ 5 ∷ 3 ∷ []) 1 m g (refl, (refl, (refl, (refl, tt))))

pub mentions-scheduler_groups : (g : ℕ) → g < 8 → mentions (1 ∷ 7 ∷ 5 ∷ 3 ∷ []) g ≡ has_scheduler g
mentions-scheduler_groups g lt = ground arith

pub worker_ids-odd : (n i k : ℕ) → mentions (worker_ids i n) k ≡ true → k % 2 ≡ 1
unfolding worker_rank_to_id
worker_ids-odd zero i k e = cc
worker_ids-odd (suc n) i k e = ground (arith, worker_ids-odd n (i + 1) k)

pub server_ids-even : (n i k : ℕ) → mentions (server_ids i n) k ≡ true → k % 2 ≡ 0
unfolding server_rank_to_id
server_ids-even zero i k e = cc
server_ids-even (suc n) i k e = ground (arith, server_ids-even n (i + 1) k)
