-- ===== src/Slicer.antt =====
-- `KVWorker::DefaultSlicer` (include/ps/kv_app.h), with `SArray::segment` (include/ps/sarray.h) and
-- std::lower_bound on a sorted range. An array is the list of its values: that slices share the
-- memory of what they are cut from is not modelled. A pointer that moves on is the rest of its
-- list. The entries of `lens` are not negative.
pub mod Positions
pub mod Partition
pub mod Whole
mod Tests
use step_mesh.Prelude.{
  ℕ, zero, suc, ◌+◌, ◌-◌, ◌*◌, ◌/◌, ◌%◌, ◌^◌, ◌≤◌, ◌<◌, ◌≡◌, refl, sym, ap, ◌∙◌, ◌≢◌, ◌↔◌, ◌⊎◌, inl,
  inr, Bool, true, false, not, ◌&&◌, ◌||◌, Option, none, some, List, [], ◌∷◌, ◌++◌, map, arith, ltb,
  leb, ◌==◌, if◌then◌else◌, Bool-cases, Option-cases, length, get_elem?, set, take, drop, replicate,
  get_or, length-append, length-set, ==_iff,
}
use step_mesh.Prelude.Result.{Result, ok, fatal, check, ◌>>◌, ◌>>=◌}
use step_mesh.Postoffice.{Range}

pub record KvPairs (V : Type 0) : Type 0 where
  pub keys : List ℕ
  pub vals : List V
  pub lens : List ℕ

abbrev pub no_pairs : (V : Type 0) → KvPairs V
no_pairs V = record { keys = []; vals = []; lens = [] }

-- How many entries at the start are below `v`.
unfoldable pub lower_bound : List ℕ → ℕ → ℕ
lower_bound [] v = 0
lower_bound (x ∷ xs) v = if ltb x v then suc (lower_bound xs v) else 0

pub segment {ℓ} : {A : Type ℓ} → List A → ℕ → ℕ → Result (List A)
segment xs begin end =
    check (leb begin end)
    >> (check (leb end (length xs)) >> ok (take (end - begin) (drop begin xs)))

pub sum : List ℕ → ℕ
sum [] = 0
sum (x ∷ xs) = x + sum xs

abbrev pub cons_ok {ℓ} : {A : Type ℓ} → A → Result (List A) → Result (List A)
cons_ok x (ok xs) = ok (x ∷ xs)
cons_ok x fatal = fatal

-- The first loop from its second round on: `pos` is `pos[i]`, `rest` the keys from `begin` on, and
-- `last_end` is `ranges[i - 1].end()`. The list is `pos[i + 1]` onwards.
pub position_loop : ℕ → List ℕ → ℕ → List Range → Result (List ℕ)
unfolding lower_bound
position_loop pos rest last_end [] = ok []
position_loop pos rest last_end (r ∷ rs) =
    let len = lower_bound rest r.end in
    check (last_end == r.begin)
    >> cons_ok (pos + len) (position_loop (pos + len) (drop len rest) r.end rs)

-- The whole first loop: `pos[0]` and `pos[1]` onwards.
pub positions : List ℕ → List Range → Result (ℕ × List ℕ)
unfolding position_loop
positions keys [] = ok (0, [])
positions keys (r ∷ rs) =
    let first = lower_bound keys r.begin in
    let rest = drop first keys in
    let len = lower_bound rest r.end in
    cons_ok (first + len) (position_loop (first + len) (drop len rest) r.end rs)
    >>= (λ ps. ok (first, ps))

-- `pos[n]`
abbrev pub last_position : ℕ → List ℕ → ℕ
last_position pos [] = pos
last_position pos (p ∷ ps) = last_position p ps

abbrev pub SlicedKvs : Type 0 → Type 0
SlicedKvs V = List (Bool × KvPairs V)

module _ {V : Type 0} where
  -- The length of a value; with `lens` it is not used.
  pub value_length : KvPairs V → Result ℕ
  value_length send = elim send.lens [
    | [] ↦
        let k = length send.vals / length send.keys in
        check ((k * length send.keys) == length send.vals) >> ok k
    | l ∷ ls ↦ check (length send.keys == length (l ∷ ls)) >> ok 0
  ]

  -- One slice, with the value of `val_begin` after it.
  pub slice : KvPairs V → ℕ → ℕ → ℕ → ℕ → Result (KvPairs V × ℕ)
  unfolding segment sum
  slice send k pos next val_begin = segment send.keys pos next >>= (λ keys. elim send.lens [
    | [] ↦
        segment send.vals (pos * k) (next * k)
        >>= (λ vals. ok (record { keys = keys; vals = vals; lens = [] }, val_begin))
    | l ∷ ls ↦ segment (l ∷ ls) pos next >>= (λ lens.
        let val_end = val_begin + sum lens in
        segment send.vals val_begin val_end
        >>= (λ vals. ok (record { keys = keys; vals = vals; lens = lens }, val_end)))
  ])

  -- The second loop.
  pub slice_loop : KvPairs V → ℕ → ℕ → ℕ → List ℕ → Result (SlicedKvs V)
  unfolding slice
  slice_loop send k pos val_begin [] = ok []
  slice_loop send k pos val_begin (next ∷ ps) =
      if next == pos
      then cons_ok (false, no_pairs V) (slice_loop send k next val_begin ps)
      else (slice send k pos next val_begin
          >>= (λ s. cons_ok (true, s.0) (slice_loop send k next s.1 ps)))

  unfoldable pub default_slicer : KvPairs V → List Range → Result (SlicedKvs V)
  unfolding positions value_length slice_loop
  default_slicer send ranges = positions send.keys ranges >>= (λ pos.
      check (last_position pos.0 pos.1 == length send.keys) >> elim send.keys [
        | [] ↦ ok (map (λ _. (false, no_pairs V)) ranges)
        | _ ∷ _ ↦ value_length send >>= (λ k. slice_loop send k pos.0 0 pos.1)
      ])
