-- ===== src/KvWorker.antt =====
-- `KVWorker` (include/ps/kv_app.h): `ZPush`, `ZPull` with `Pull_`, `Send`, `Process` and
-- `RunCallback`, and `FindRange` (include/ps/sarray.h). The key ranges are those that the slices are
-- cut by: `GetServerKeyRanges` computes them once and returns them at each call. Addresses, data
-- types and devices of the values are left out of a message, and a callback of the user leaves the
-- worker alone. `simple_app` messages, which `SimpleApp` takes, are not modelled.
use step_mesh.Prelude.Window.{update}
use step_mesh.Postoffice.KeyRanges.{get_server_key_ranges}
use step_mesh.Prelude.Int.{pos, ℤ}
use step_mesh.Message.{new_meta, Meta}
use step_mesh.KvServer.{of_lens, of_vals, of_keys, pack_data, Array}
use step_mesh.Prelude.Result.{check, ◌>>◌, ◌>>=◌, ok, fatal, Result}
use step_mesh.Prelude.Map.{Map, insert, erase, find}
use step_mesh.Prelude.Sort.{less_by, sort_by}
use step_mesh.Postoffice.{
  range_size, k_server_group, Range, group_server_rank_to_instance_id, Postoffice,
}
use step_mesh.Customer.{add_response, new_request, num_response, Tracker}
use step_mesh.Slicer.{default_slicer, SlicedKvs, KvPairs, lower_bound}
pub mod Copies
pub mod Checks
pub mod Fill
pub mod Lost
pub mod Calls
pub mod Sending
pub mod Slices
pub mod Push
pub mod Answers
mod Tests
pub mod Ranges
use step_mesh.Prelude.{
  ℕ, suc, ◌+◌, ◌%◌, ◌^◌, Bool, true, false, not, ◌||◌, Option, none, some, List, [], ◌∷◌, ◌++◌, leb,
  ◌==◌, if◌then◌else◌, length, get_or, drop, replicate, or_nil,
}

-- `FindRange`
pub find_range : List ℕ → (lower upper : ℕ) → Range
unfolding lower_bound
find_range arr lower upper =
    if leb upper lower
    then record { begin = 0; end = 0 }
    else record { begin = lower_bound arr lower; end = lower_bound arr upper }

-- A callback for a request: a function of the user, known by a number, or what `Pull_` adds, with
-- the addresses of the arrays to fill and the user's function.
pub data Callback : Type 0 where
  user : ℕ → Callback
  pull : (timestamp : ℕ) (keys : List ℕ) (vals : ℕ) (lens user_callback : Option ℕ) → Callback

-- `vals_at` and `lens_at` have the user's arrays by address; `ran` the user's functions that have
-- run, and `sent` what the van was given, oldest first.
pub record KvWorker (V : Type 0) : Type 0 where
  pub tracker : Tracker
  pub recv_kvs : Map (List (KvPairs V))
  pub callbacks : Map Callback
  pub vals_at : ℕ → List V
  pub lens_at : ℕ → List ℕ
  pub ran : List ℕ
  pub sent : List (Meta × List (Array V))

-- What does not change: the ids of the customer and the postoffice, `Val()`, and whether
-- the transport writes pulled values itself.
pub record Setting (V : Type 0) : Type 0 where
  pub postoffice : Postoffice
  pub app_id : ℕ
  pub customer_id : ℕ
  pub instance_idx : ℕ
  pub default_val : V
  pub is_worker_zpull : Bool

abbrev pub last_of : ℕ → List ℕ → ℕ
last_of k [] = k
last_of k (j ∷ js) = last_of j js

pub sized_lens : (num_keys : ℕ) → List ℕ → Result (List ℕ)
sized_lens num_keys [] = ok (replicate num_keys 0)
sized_lens num_keys (l ∷ ls) = check (length (l ∷ ls) == num_keys) >> ok (l ∷ ls)

abbrev pub has_value {ℓ} : {A : Type ℓ} → Option A → Bool
has_value none = false
has_value (some a) = true

abbrev pub map_option {ℓ κ} : {A : Type ℓ} {B : Type κ} → (A → B) → Option A → Option B
map_option f none = none
map_option f (some a) = some (f a)

abbrev pub to_list {ℓ} : {A : Type ℓ} → Option A → List A
to_list none = []
to_list (some a) = a ∷ []

-- The array at `address`, if there is one, is now `value`.
abbrev pub update_some : {A : Type 0} → (ℕ → A) → (address : Option ℕ) → (value : Option A) → ℕ → A
update_some f (some a) (some v) = update f a v
update_some f _ _ = f

-- `keys.front()` of keys that are there.
abbrev pub front : {V : Type 0} → KvPairs V → ℕ
front s = get_or s.keys 0 0

module _ {V : Type 0} where
  -- The checks on what one server sent; `front` of no keys is `fatal`, and `Key` is 64 bits wide.
  pub check_server : (keys : List ℕ) (with_lens : Bool) → KvPairs V → Result (Unit {0})
  unfolding find_range
  check_server keys with_lens s = elim s.keys [
    | [] ↦ fatal
    | k ∷ ks ↦
        let range = find_range keys k ((last_of k ks + 1) % 2 ^ 64) in
        check (range_size range == length (k ∷ ks))
        >> check (not with_lens || (length s.lens == length (k ∷ ks)))
  ]

  -- The loop over the servers, with `total_key` and `total_val` after it.
  pub check_servers :
      (keys : List ℕ) (with_lens : Bool) (total_key total_val : ℕ)
      → List (KvPairs V)
      → Result (ℕ × ℕ)
  unfolding check_server
  check_servers keys with_lens total_key total_val [] = ok (total_key, total_val)
  check_servers keys with_lens total_key total_val (s ∷ ss) =
      check_server keys with_lens s
      >> check_servers keys with_lens (total_key + length s.keys) (total_val + length s.vals) ss

  -- `resize` of an empty array, or the check of its size.
  pub sized_vals : V → (total_val : ℕ) → List V → Result (List V)
  sized_vals default_val total_val [] = ok (replicate total_val default_val)
  sized_vals default_val total_val (v ∷ vs) = check (leb total_val (length (v ∷ vs))) >> ok (v ∷ vs)

  -- The copies, each to where the one before it ended.
  pub copy_all : {A : Type 0} → (KvPairs V → List A) → List A → List (KvPairs V) → List A
  copy_all part to [] = to
  copy_all part to (s ∷ ss) = part s ++ copy_all part (drop (length (part s)) to) ss

  -- What the callback of `Pull_` makes of the user's two arrays.
  pub fill :
      Setting V
      → (keys : List ℕ) (vals : List V) (lens : Option (List ℕ)) → List (KvPairs V)
      → Result (List V × Option (List ℕ))
  unfolding check_servers sized_vals sized_lens copy_all sort_by
  fill setting keys vals lens kvs = check_servers keys (has_value lens) 0 0 kvs >>= (λ total.
      check (total.0 == length keys)
      >> (sized_vals setting.default_val total.1 vals >>= (λ vals'.
          let sorted = sort_by (less_by front) kvs in
          if setting.is_worker_zpull then ok (vals', lens) else elim lens [
            | none ↦ ok (copy_all (λ s. s.vals) vals' sorted, none)
            | some l ↦ sized_lens (length keys) l >>= (λ lens'.
                ok
                  (copy_all (λ s. s.vals) vals' sorted, some (copy_all (λ s. s.lens) lens' sorted)))
          ])))
