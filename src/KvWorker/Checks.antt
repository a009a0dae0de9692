-- ===== src/KvWorker/Checks.antt =====
-- The checks of the callback of `Pull_` on what the servers sent.
use step_mesh.KvWorker.Copies.{joined}
use mathlib.Core.List.{append_assoc}
use mathlib.Core.Path.{subst}
use step_mesh.Prelude.Sort.{AreAscending, total}
use step_mesh.KvWorker.Ranges.{find_range-size, AreAscending-append}
use step_mesh.Prelude.{
  ◌⊎◌, false, ℕ, ◌+◌, ◌-◌, ◌^◌, ◌<◌, ◌≡◌, ◌∙◌, refl, sym, ap, inl, inr, Bool, true, not, ◌||◌, List,
  [], ◌∷◌, ◌++◌, arith, ◌==◌, Bool-cases, length, All, All-append, get_or,
}
use step_mesh.Prelude.Result.{ok}
use step_mesh.Slicer.{KvPairs}
use step_mesh.KvWorker.{check_server, check_servers, front}

front-All : (P : ℕ → Type 0) (keys : List ℕ) → 0 < length keys → All P keys → P (get_or keys 0 0)
front-All P [] some_key h = absurd (omega arith)
front-All P (k ∷ ks) some_key h = h.0

is_each : {m n : ℕ} → (true ≡ false) ⊎ (m ≡ n) → m ≡ n
is_each (inl e) = absurd (ground arith)
is_each (inr e) = e

module _ {V : Type 0} where
  -- A server's answer that passes the checks: a run of the keys, with a length for each if lengths
  -- are asked for.
  abbrev pub IsPart : (keys : List ℕ) (with_lens : Bool) → KvPairs V → Type 0
  IsPart keys with_lens s =
      (before after : List ℕ) × (keys ≡ before ++ s.keys ++ after)
      × (0 < length s.keys)
      × ((with_lens ≡ false) ⊎ (length s.lens ≡ length s.keys))

  check_server-keys :
      (before ks after : List ℕ) (with_lens : Bool) (s : KvPairs V)
      → s.keys ≡ ks
      → 0 < length ks
      → (with_lens ≡ false) ⊎ (length s.lens ≡ length ks)
      → AreAscending (λ x. x) (before ++ ks ++ after)
      → All (λ x. x < 2 ^ 64 - 1) (before ++ ks ++ after)
      → check_server (before ++ ks ++ after) with_lens s ≡ ok tt
  unfolding check_server
  check_server-keys before [] after with_lens s is some_key each up small = absurd (omega arith)
  check_server-keys before (k ∷ ks) after with_lens s is some_key each up small =
      let size = find_range-size before k ks after up small in
      let sized : (not with_lens || (length s.lens == length (k ∷ ks))) ≡ true = elim each [
        | inl e ↦ rw e refl
        | inr e ↦
            rw e (elim (Bool-cases with_lens) [ inl w ↦ rw w (ground arith) | inr w ↦ rw w refl ])
      ] in
      rw (is, size, sized) (ground arith)

  pub check_servers-ok :
      (keys : List ℕ) (with_lens : Bool) (kvs : List (KvPairs V)) (total_key total_val : ℕ)
      → AreAscending (λ x. x) keys
      → All (λ x. x < 2 ^ 64 - 1) keys
      → All (IsPart keys with_lens) kvs
      → check_servers keys with_lens total_key total_val kvs
        ≡ ok
            (total_key + total (λ s. length s.keys) kvs, total_val + total (λ s. length s.vals) kvs)
  unfolding check_servers
  check_servers-ok keys with_lens [] total_key total_val up small parts = ground arith
  check_servers-ok keys with_lens (s ∷ ss) total_key total_val up small parts =
      let (before, after, is, some_key, each) = parts.0 in
      let passes : check_server keys with_lens s ≡ ok tt =
        ap (λ l. check_server l with_lens s) is
        ∙ check_server-keys before s.keys after with_lens s refl some_key each
            (subst (AreAscending (λ x. x)) is up) (subst (All (λ x. x < 2 ^ 64 - 1)) is small) in
      rw
        (
          passes,
          check_servers-ok keys with_lens ss (total_key + length s.keys) (total_val + length s.vals)
              up small parts.1,
        )
        (ground arith)

  -- A run of the keys for each server, with the lengths that are asked for.
  abbrev pub AreRuns : (with_lens : Bool) → List (KvPairs V) → Type 0
  AreRuns with_lens parts =
      All (λ s. (0 < length s.keys) × ((with_lens ≡ false) ⊎ (length s.lens ≡ length s.keys))) parts

  pub AreRuns-IsPart :
      (with_lens : Bool) (keys before : List ℕ) (parts : List (KvPairs V))
      → keys ≡ before ++ joined (λ s. s.keys) parts
      → AreRuns with_lens parts
      → All (IsPart keys with_lens) parts
  AreRuns-IsPart with_lens keys before [] is runs = tt
  AreRuns-IsPart with_lens keys before (s ∷ ss) is runs =
      let split : keys ≡ before ++ s.keys ++ joined (λ s. s.keys) ss =
        is ∙ sym (append_assoc before s.keys (joined (λ s. s.keys) ss)) in
      (
        (before, joined (λ s. s.keys) ss, split, runs.0.0, runs.0.1),
        AreRuns-IsPart with_lens keys (before ++ s.keys) ss split runs.1,
      )

  joined-fronts :
      (P : ℕ → Type 0) (with_lens : Bool) (parts : List (KvPairs V))
      → AreRuns with_lens parts
      → All P (joined (λ s. s.keys) parts)
      → All (λ s. P (front s)) parts
  joined-fronts P with_lens [] runs h = tt
  joined-fronts P with_lens (s ∷ ss) runs h =
      let (here, there) = All-append P s.keys (joined (λ s. s.keys) ss) h in
      (front-All P s.keys runs.0.0 here, joined-fronts P with_lens ss runs.1 there)

  pub AreAscending-fronts :
      (with_lens : Bool) (parts : List (KvPairs V))
      → AreRuns with_lens parts
      → AreAscending (λ x. x) (joined (λ s. s.keys) parts)
      → AreAscending front parts
  AreAscending-fronts with_lens [] runs up = tt
  AreAscending-fronts with_lens (s ∷ ss) runs up =
      let rest = joined (λ s. s.keys) ss in
      let (here, there, across) = AreAscending-append (λ x. x) s.keys rest up in
      (
        joined-fronts (λ x. front s < x) with_lens ss runs.1
            (front-All (λ x. All (λ y. x < y) rest) s.keys runs.0.0 across),
        AreAscending-fronts with_lens ss runs.1 there,
      )

  pub total-lens :
      (parts : List (KvPairs V))
      → AreRuns true parts
      → total (λ s. length s.keys) parts ≡ total (λ s. length s.lens) parts
  total-lens [] runs = refl
  total-lens (s ∷ ss) runs = omega (arith, is_each runs.0.1, total-lens ss runs.1)
