-- ===== src/KvWorker/Fill.antt =====
-- The callback of `Pull_`: what the servers sent, in whatever order, is put together in the order of
-- the keys.
use step_mesh.KvWorker.Checks.{
  IsPart, total-lens, check_servers-ok, AreAscending-fronts, AreRuns-IsPart, AreRuns,
}
use step_mesh.KvWorker.Copies.{sized_lens-copied, length-joined, sized_vals-copied, joined}
use step_mesh.Prelude.Sort.{
  AreAscending, Permutes, total-Permutes, All-Permutes, sort_by, less_by,
  sort_by-Permutes_ascending,
}
use step_mesh.Prelude.{
  ℕ, ◌-◌, ◌^◌, ◌≤◌, ◌<◌, ◌≡◌, ◌∙◌, ◌⊎◌, refl, sym, Bool, true, false, Option, none, some, List, [],
  ◌++◌, arith, ◌==◌, length, All, drop,
}
use step_mesh.Prelude.Result.{ok}
use step_mesh.Slicer.{KvPairs}
use step_mesh.KvWorker.{check_servers, fill, Setting, front, map_option}

module _ {V : Type 0} where
  module _ (setting : Setting V) (parts received : List (KvPairs V)) (vals : List V)
      (arrived : Permutes parts received) (up : AreAscending (λ x. x) (joined (λ s. s.keys) parts))
      (small : All (λ x. x < 2 ^ 64 - 1) (joined (λ s. s.keys) parts))
      (copies : setting.is_worker_zpull ≡ false)
      (room : (length vals ≡ 0) ⊎ (length (joined (λ s. s.vals) parts) ≤ length vals)) where
    abbrev keys : List ℕ
    keys = joined (λ s. s.keys) parts

    abbrev all_vals : List V
    all_vals = joined (λ s. s.vals) parts

    checks-pass :
        (with_lens : Bool)
        → AreRuns with_lens parts
        → check_servers keys with_lens 0 0 received ≡ ok (length keys, length all_vals)
    checks-pass with_lens runs =
        let parts_in = AreRuns-IsPart with_lens keys [] parts refl runs in
        check_servers-ok keys with_lens received 0 0 up small
          (All-Permutes (IsPart keys with_lens) arrived parts_in)
        ∙ rw
            (
              sym (total-Permutes (λ s. length s.keys) arrived),
              sym (total-Permutes (λ s. length s.vals) arrived),
              length-joined (λ s. s.keys) parts,
              length-joined (λ s. s.vals) parts,
            )
            (ground arith)

    sorted-back :
        (with_lens : Bool) → AreRuns with_lens parts → sort_by (less_by front) received ≡ parts
    sorted-back with_lens runs =
        sort_by-Permutes_ascending front arrived (AreAscending-fronts with_lens parts runs up)

    -- What is asked for: no lengths, or a length for each key of each answer, in an array that is
    -- empty or has room for just those.
    abbrev pub HasLens : Option (List ℕ) → Type 0
    HasLens none = AreRuns false parts
    HasLens (some lens) = AreRuns true parts × ((length lens ≡ 0) ⊎ (length lens ≡ length keys))

    -- The servers' answers are runs of the ascending keys, below 2^64 - 1, in the order of the
    -- keys, and arrive in any order; the user's array of values is empty or has room; and the
    -- worker copies the values. Then the callback passes all its checks, and writes the values of
    -- the answers, in the order of the keys, to the start of the array, and the lengths where they
    -- are asked for.
    pub fill-joined :
        (lens : Option (List ℕ))
        → HasLens lens
        → fill setting keys vals lens received
          ≡ ok (
            all_vals ++ drop (length all_vals) vals,
            map_option (λ _. joined (λ s. s.lens) parts) lens,
          )
    unfolding fill
    fill-joined none runs =
        let (vals', sized, copied) =
          sized_vals-copied setting.default_val vals parts (length all_vals) refl room in
        let same : (length keys == length keys) ≡ true = ground arith in
        rw (checks-pass false runs, same, sized, copies, sorted-back false runs, copied) refl
    fill-joined (some lens) (runs, each) =
        let (vals', sized, copied) =
          sized_vals-copied setting.default_val vals parts (length all_vals) refl room in
        let number : length keys ≡ length (joined (λ s. s.lens) parts) =
          length-joined (λ s. s.keys) parts
          ∙ total-lens parts runs
          ∙ sym (length-joined (λ s. s.lens) parts) in
        let (lens', sized_l, copied_l) = sized_lens-copied lens parts (length keys) number each in
        let same : (length keys == length keys) ≡ true = ground arith in
        rw
          (
            checks-pass true runs,
            same,
            sized,
            copies,
            sized_l,
            sorted-back true runs,
            copied,
            copied_l,
          )
          refl
