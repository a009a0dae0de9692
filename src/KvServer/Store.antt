-- ===== src/KvServer/Store.antt =====
-- The default handle keeps, for each key, the sum of what was pushed.
use mathlib.Core.Path.{subst, fun_ext}
use step_mesh.Prelude.{
  ℕ, ◌≡◌, ◌∙◌, refl, ap, inl, inr, List, [], ◌∷◌, ◌==◌, Bool-cases, length, map, if◌then◌else◌,
  ==_iff,
}
use step_mesh.Prelude.Map.{Map, insert, find-insert}
use step_mesh.Prelude.Result.{Result, ok, fatal, ◌>>=◌}
use step_mesh.Slicer.{KvPairs, no_pairs}
use step_mesh.KvServer.{KvMeta}
use step_mesh.KvServer.Handle.{or_zero, value_of, push_values, pull_values, default_handle}

module _ {V : Type 0} where
  -- Several requests, with what is passed to `Response` for each.
  abbrev pub run_all :
      {S : Type 0}
      → (KvMeta → KvPairs V → S → Result (S × KvPairs V))
      → List (KvMeta × KvPairs V)
      → S
      → Result (S × List (KvPairs V))
  run_all handle [] s = ok (s, [])
  run_all handle ((m, d) ∷ requests) s =
      handle m d s
      >>= (λ now. run_all handle requests now.0 >>= (λ later. ok (later.0, now.1 ∷ later.1)))

module _ {V : Type 0} (zero_val : V) (plus : V → V → V) where
  -- The value of `key` after a push: what was there, and then each value that was pushed for it.
  abbrev pub pushed : (key : ℕ) → V → List ℕ → List V → V
  pushed key v (k ∷ ks) (val ∷ vals) = pushed key (if k == key then plus v val else v) ks vals
  pushed key v _ _ = v

  value_of-insert :
      (store : Map V) (k key : ℕ) (v : V)
      → value_of zero_val plus (insert k v store) key
        ≡ (if k == key then v else value_of zero_val plus store key)
  value_of-insert store k key v =
      ap (or_zero zero_val plus) (find-insert k key v store)
      ∙ elim (Bool-cases (k == key)) [ inl e ↦ rw e refl | inr e ↦ rw e refl ]

  value_of-add :
      (store : Map V) (k key : ℕ) (val : V)
      → value_of zero_val plus (insert k (plus (value_of zero_val plus store k) val) store) key ≡ (
          if k == key
          then plus (value_of zero_val plus store key) val
          else value_of zero_val plus store key)
  value_of-add store k key val =
      value_of-insert store k key (plus (value_of zero_val plus store k) val)
      ∙ elim (Bool-cases (k == key)) [
        | inl e ↦ rw e (
            ap (λ j. plus (value_of zero_val plus store j) val) {x = k} {y = key}
              ((==_iff k key).0 e))
        | inr e ↦ rw e refl
      ]

  value_of-read :
      (store : Map V) (k key : ℕ)
      → value_of zero_val plus (insert k (value_of zero_val plus store k) store) key
        ≡ value_of zero_val plus store key
  value_of-read store k key =
      value_of-insert store k key (value_of zero_val plus store k) ∙ elim (Bool-cases (k == key)) [
        | inl e ↦ rw e (ap (value_of zero_val plus store) {x = k} {y = key} ((==_iff k key).0 e))
        | inr e ↦ rw e refl
      ]

  value_of-push_values :
      (keys : List ℕ) (vals : List V) (store : Map V) (key : ℕ)
      → value_of zero_val plus (push_values zero_val plus keys vals store) key
        ≡ pushed key (value_of zero_val plus store key) keys vals
  unfolding push_values
  value_of-push_values [] vals store key = refl
  value_of-push_values (k ∷ ks) [] store key = refl
  value_of-push_values (k ∷ ks) (val ∷ vals) store key =
      value_of-push_values ks vals (insert k (plus (value_of zero_val plus store k) val) store) key
      ∙ ap (λ v. pushed key v ks vals) (value_of-add store k key val)

  value_of-pull_values :
      (keys : List ℕ) (store : Map V)
      → ((key : ℕ)
          → value_of zero_val plus (pull_values zero_val plus keys store).0 key
            ≡ value_of zero_val plus store key)
        × ((pull_values zero_val plus keys store).1 ≡ map (value_of zero_val plus store) keys)
  unfolding pull_values
  value_of-pull_values [] store = (λ key. refl, refl)
  value_of-pull_values (k ∷ ks) store =
      let store' = insert k (value_of zero_val plus store k) store in
      let (kept, read) = value_of-pull_values ks store' in
      let same : value_of zero_val plus store' ≡ value_of zero_val plus store =
        fun_ext (λ key. value_of-read store k key) in
      (
        λ key. kept key ∙ value_of-read store k key,
        ap (λ l. value_of zero_val plus store k ∷ l) (read ∙ ap (λ f. map f ks) same),
      )

  -- The specification: a store is the value of each key.
  abbrev pub sums : KvMeta → KvPairs V → (ℕ → V) → Result ((ℕ → V) × KvPairs V)
  sums req_meta req_data f =
      if req_meta.push
      then (if length req_data.keys == length req_data.vals
          then ok ((λ key. pushed key (f key) req_data.keys req_data.vals), no_pairs V)
          else fatal)
      else ok (f, record { keys = req_data.keys; vals = map f req_data.keys; lens = [] })

  -- A store and its values with the same answers, or both stopped.
  abbrev pub Agree : {R : Type 0} → Result (Map V × R) → Result ((ℕ → V) × R) → Type 0
  Agree (ok (store, r)) (ok (f, s)) = (value_of zero_val plus store ≡ f) × (r ≡ s)
  Agree fatal fatal = Unit
  Agree _ _ = ⊥

  default_handle-Agree :
      (req_meta : KvMeta) (req_data : KvPairs V) (store : Map V)
      → Agree
          (default_handle zero_val plus req_meta req_data store)
          (sums req_meta req_data (value_of zero_val plus store))
  unfolding default_handle
  default_handle-Agree req_meta req_data store = elim (Bool-cases req_meta.push) [
    | inl e ↦ rw e (elim (Bool-cases (length req_data.keys == length req_data.vals)) [
      | inl same ↦
          rw same
            (fun_ext (λ key. value_of-push_values req_data.keys req_data.vals store key), refl)
      | inr differ ↦ rw differ tt
    ])
    | inr e ↦
        let (kept, read) = value_of-pull_values req_data.keys store in
        rw (e, read) (fun_ext kept, refl)
  ]

  Agree-cons :
      (r q : KvPairs V) (m : Result (Map V × List (KvPairs V)))
      (s : Result ((ℕ → V) × List (KvPairs V)))
      → r ≡ q
      → Agree m s
      → Agree
          (m >>= (λ later. ok (later.0, r ∷ later.1)))
          (s >>= (λ later. ok (later.0, q ∷ later.1)))
  Agree-cons r q (ok m) (ok s) e (values, answers) =
      (values, ap (λ x. x ∷ m.1) e ∙ ap (λ l. q ∷ l) answers)
  Agree-cons r q (ok m) fatal e agree = absurd agree
  Agree-cons r q fatal (ok s) e agree = absurd agree
  Agree-cons r q fatal fatal e agree = tt

  Agree-run :
      (requests : List (KvMeta × KvPairs V)) (m : Result (Map V × KvPairs V))
      (s : Result ((ℕ → V) × KvPairs V))
      → ((store : Map V)
          → Agree
              (run_all (default_handle zero_val plus) requests store)
              (run_all sums requests (value_of zero_val plus store)))
      → Agree m s
      → Agree
          (m >>= (λ now.
            run_all (default_handle zero_val plus) requests now.0
            >>= (λ later. ok (later.0, now.1 ∷ later.1))))
          (s >>= (λ now. run_all sums requests now.0 >>= (λ later. ok (later.0, now.1 ∷ later.1))))
  Agree-run requests (ok m) (ok s) ih (values, answer) =
      Agree-cons m.1 s.1 (run_all (default_handle zero_val plus) requests m.0)
        (run_all sums requests s.0) answer
        (subst
          (λ f.
            Agree (run_all (default_handle zero_val plus) requests m.0) (run_all sums requests f))
          values (ih m.0))
  Agree-run requests (ok m) fatal ih agree = absurd agree
  Agree-run requests fatal (ok s) ih agree = absurd agree
  Agree-run requests fatal fatal ih agree = tt

  -- Whatever pushes and pulls are handled in turn, the default handle does what a table of the sums
  -- does: it stops at the same request, when a push has not as many values as keys, and otherwise
  -- has the same answers, where a pull returns for each key the sum of what was pushed for it so
  -- far, and keeps the same values.
  pub default_handle_refines :
      (requests : List (KvMeta × KvPairs V)) (store : Map V)
      → Agree
          (run_all (default_handle zero_val plus) requests store)
          (run_all sums requests (value_of zero_val plus store))
  default_handle_refines [] store = (refl, refl)
  default_handle_refines ((m, d) ∷ requests) store =
      Agree-run requests (default_handle zero_val plus m d store)
        (sums m d (value_of zero_val plus store)) (λ s. default_handle_refines requests s)
        (default_handle-Agree m d store)
