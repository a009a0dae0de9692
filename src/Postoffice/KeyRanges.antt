-- ===== src/Postoffice/KeyRanges.antt =====
-- `GetServerKeyRanges`.
use step_mesh.Prelude.{
  ℕ, zero, suc, ◌+◌, ◌*◌, ◌/◌, ◌≤◌, ◌<◌, ◌≡◌, refl, ap, ◌∙◌, some, List, [], ◌∷◌, arith, length,
  get_elem?,
}
use mathlib.Core.Path.{subst}
use step_mesh.Postoffice.{Postoffice, Range, k_max_key}

-- The loop: `rounds` are left, from server `i` on, of `n` servers.
pub range_loop : ℕ → ℕ → ℕ → List Range
range_loop n zero i = []
range_loop n (suc rounds) i =
    record { begin = k_max_key / n * i; end = k_max_key / n * (i + 1) }
    ∷ range_loop n rounds (i + 1)

-- The ranges are computed at the first call and kept.
unfoldable pub get_server_key_ranges : Postoffice → Postoffice × List Range
unfolding range_loop
get_server_key_ranges po = elim po.server_key_ranges [
  | [] ↦
      let ranges = range_loop po.num_servers po.num_servers 0 in
      (record po { server_key_ranges = ranges }, ranges)
  | r ∷ rs ↦ (po, r ∷ rs)
]

-- Ranges that follow one another without gap or overlap, from `from` to `to`.
abbrev pub AreAdjacent : ℕ → List Range → ℕ → Type 0
AreAdjacent from [] to = from ≡ to
AreAdjacent from (r ∷ rs) to = (r.begin ≡ from) × (r.begin ≤ r.end) × AreAdjacent r.end rs to

range_loop-AreAdjacent :
    (n rounds i : ℕ)
    → AreAdjacent (k_max_key / n * i) (range_loop n rounds i) (k_max_key / n * (i + rounds))
unfolding range_loop
range_loop-AreAdjacent n zero i = ap (λ k. k_max_key / n * k) (omega arith)
range_loop-AreAdjacent n (suc rounds) i = (
  refl,
  grind arith,
  subst
      (λ k. AreAdjacent (k_max_key / n * (i + 1)) (range_loop n rounds (i + 1)) (k_max_key / n * k))
      {x = i + 1 + rounds} (omega arith) (range_loop-AreAdjacent n rounds (i + 1)),
)

-- The quotient by the share `s` of a key below `s * n`.
quotient_bounds :
    (s n key : ℕ)
    → key < s * n
    → (key / s < n) × (s * (0 + key / s) ≤ key) × (key < s * (0 + key / s + 1))
quotient_bounds s n key lt = (grind arith, grind arith, grind arith)

length-range_loop : (n rounds i : ℕ) → length (range_loop n rounds i) ≡ rounds
unfolding range_loop
length-range_loop n zero i = refl
length-range_loop n (suc rounds) i = ap suc (length-range_loop n rounds (i + 1))

get_elem?-range_loop :
    (n rounds i j : ℕ)
    → j < rounds
    → get_elem? (range_loop n rounds i) j
      ≡ some (record { begin = k_max_key / n * (i + j); end = k_max_key / n * (i + j + 1) })
unfolding range_loop
get_elem?-range_loop n zero i j lt = absurd (omega arith)
get_elem?-range_loop n (suc rounds) i zero lt =
    ap (λ k. some (record { begin = k_max_key / n * k; end = k_max_key / n * (k + 1) }))
      (omega arith)
get_elem?-range_loop n (suc rounds) i (suc j) lt =
    get_elem?-range_loop n rounds (i + 1) j (omega arith)
    ∙ ap (λ k. some (record { begin = k_max_key / n * k; end = k_max_key / n * (k + 1) }))
        (omega arith)

-- Before the first call, with at least one server, there is one range for each server; the ranges
-- are adjacent, start at key 0, and end at the largest multiple of the number of servers'
-- share of the key space, which is at most kMaxKey.
pub get_server_key_ranges_lem :
    (po : Postoffice)
    → po.server_key_ranges ≡ []
    → let ranges = (get_server_key_ranges po).1 in
      (length ranges ≡ po.num_servers)
      × AreAdjacent 0 ranges (k_max_key / po.num_servers * po.num_servers)
      × (k_max_key / po.num_servers * po.num_servers ≤ k_max_key)
unfolding get_server_key_ranges
get_server_key_ranges_lem po fresh =
    let n : ℕ = po.num_servers in
    rw (fresh, get_server_key_ranges)
      (
        length-range_loop n n 0,
        subst (λ k. AreAdjacent k (range_loop n n 0) (k_max_key / n * n)) {x = k_max_key / n * 0}
            (omega arith)
            (subst (λ k. AreAdjacent (k_max_key / n * 0) (range_loop n n 0) (k_max_key / n * k))
              {x = 0 + n} (omega arith) (range_loop-AreAdjacent n n 0)),
        omega arith,
      )

-- Before the first call, a key below the number of servers times their share of the key space is in
-- the range of the server at its quotient by that share.
pub get_server_key_ranges-covers :
    (po : Postoffice) (key : ℕ)
    → po.server_key_ranges ≡ []
    → key < k_max_key / po.num_servers * po.num_servers
    → (r : Range) × (get_elem? (get_server_key_ranges po).1 (key / (k_max_key / po.num_servers))
        ≡ some r)
      × (r.begin ≤ key)
      × (key < r.end)
unfolding get_server_key_ranges
get_server_key_ranges-covers po key fresh lt =
    let n : ℕ = po.num_servers in
    let share : ℕ = k_max_key / n in
    let i : ℕ = key / share in
    let bounds = quotient_bounds share n key lt in
    (
      record { begin = share * (0 + i); end = share * (0 + i + 1) },
      rw (fresh, get_server_key_ranges) (get_elem?-range_loop n n 0 i bounds.0),
      bounds.1,
      bounds.2,
    )
