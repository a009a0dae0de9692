-- ===== src/KvWorker/Lost.antt =====
-- Answers that do not make up what was asked for.
use step_mesh.Prelude.Sort.{total}
use step_mesh.Prelude.{
  ℕ, ◌+◌, ◌≡◌, ◌≢◌, ◌∙◌, ◌⊎◌, refl, ap, inl, inr, Bool, false, Option, List, [], ◌∷◌, arith, ◌==◌,
  length,
}
use step_mesh.Prelude.Result.{Result, ok, fatal, ◌>>◌}
use step_mesh.Slicer.{KvPairs}
use step_mesh.KvWorker.{check_server, check_servers, fill, Setting, has_value}

-- A check before what comes out right or not at all.
after_check :
    (r : Result (Unit {0})) (k : Result (ℕ × ℕ)) (a b : ℕ)
    → a ≡ b
    → (k ≡ fatal) ⊎ ((n : ℕ) × (k ≡ ok (a, n)))
    → ((r >> k) ≡ fatal) ⊎ ((n : ℕ) × ((r >> k) ≡ ok (b, n)))
after_check fatal k a b same h = inl refl
after_check (ok u) k a b same (inl e) = inl e
after_check (ok u) k a b same (inr (n, e)) = inr (n, e ∙ ap (λ m. ok (m, n)) same)

module _ {V : Type 0} where
  check_servers-total :
      (keys : List ℕ) (with_lens : Bool) (kvs : List (KvPairs V)) (total_key total_val : ℕ)
      → (check_servers keys with_lens total_key total_val kvs ≡ fatal)
        ⊎ ((n : ℕ) × (check_servers keys with_lens total_key total_val kvs
              ≡ ok (total_key + total (λ s. length s.keys) kvs, n)))
  unfolding check_servers
  check_servers-total keys with_lens [] total_key total_val = inr (total_val, ground arith)
  check_servers-total keys with_lens (s ∷ ss) total_key total_val =
      after_check (check_server keys with_lens s)
        (check_servers keys with_lens (total_key + length s.keys) (total_val + length s.vals) ss)
        (total_key + length s.keys + total (λ t. length t.keys) ss)
        (total_key + total (λ t. length t.keys) (s ∷ ss)) (omega arith)
        (check_servers-total keys with_lens ss (total_key + length s.keys)
          (total_val + length s.vals))

  -- An answer is missing, or there is one too many: whatever was received, if it does not have as
  -- many keys as were asked for, the callback stops the process and fills nothing.
  pub fill-lost :
      (setting : Setting V) (keys : List ℕ) (vals : List V) (lens : Option (List ℕ))
      (received : List (KvPairs V))
      → total (λ s. length s.keys) received ≢ length keys
      → fill setting keys vals lens received ≡ fatal
  unfolding fill
  fill-lost setting keys vals lens received differ =
      elim (check_servers-total keys (has_value lens) received 0 0) [
        | inl e ↦ rw e refl
        | inr (n, e) ↦
            let other : ((0 + total (λ s. length s.keys) received) == length keys) ≡ false =
              ground arith in
            rw (e, other) refl
      ]
