-- ===== src/Tensor/Timestamps.antt =====
-- The timestamps of a batch (`ZBatchPushPull`, include/ps/af_tensor_app.h).
use mathlib.Core.List.{append_assoc, append-nil}
use step_mesh.Prelude.{
  ℕ, zero, suc, ◌+◌, ◌/◌, ◌<◌, ◌≡◌, refl, sym, ap, ◌∙◌, true, false, ◌&&◌, List, [], ◌∷◌, ◌++◌,
  arith, ltb, ◌==◌, length,
}
use step_mesh.Prelude.Result.{ok}
use step_mesh.Tensor.{
  KeyTensor, AfTensorRequest, Stamps, push_stamps, pull_stamps, z_batch_push_pull,
}

-- The `n` numbers from `next` on.
abbrev pub count_from : (next n : ℕ) → List ℕ
count_from next zero = []
count_from next (suc n) = next ∷ count_from (next + 1) n

pub length-count_from : (next n : ℕ) → length (count_from next n) ≡ n
length-count_from next zero = refl
length-count_from next (suc n) = ap suc (length-count_from (next + 1) n)

pub count_from-append :
    (next n m : ℕ) → count_from next n ++ count_from (next + n) m ≡ count_from next (n + m)
count_from-append next zero m =
    ap (λ k. count_from k m) {x = next + 0} {y = next} (omega arith)
    ∙ ap (count_from next) {x = m} {y = 0 + m} (omega arith)
count_from-append next (suc n) m =
    ap (λ k. next ∷ (count_from (next + 1) n ++ count_from k m)) {x = next + suc n}
      {y = next + 1 + n} (omega arith)
    ∙ ap (λ l. next ∷ l) (count_from-append (next + 1) n m)
    ∙ ap (count_from next) {x = suc (n + m)} {y = suc n + m} (omega arith)

push_stamps-later :
    (rounds i next : ℕ) (s : Stamps)
    → 0 < i
    → push_stamps rounds i next s
      ≡ (record s { timestamps = s.timestamps ++ count_from next rounds }, count_from next rounds)
unfolding push_stamps
push_stamps-later zero i next s pos =
    ap (λ l. (record s { timestamps = l }, [])) (sym (append-nil s.timestamps))
push_stamps-later (suc rounds) i next s pos =
    let no_first : (i == 0) ≡ false = ground arith in
    let rest =
      push_stamps-later rounds (i + 1) (next + 1)
        (record s { timestamps = s.timestamps ++ next ∷ [] }) (omega arith) in
    rw (no_first, rest)
      (ap (λ l. (record s { timestamps = l }, next ∷ count_from (next + 1) rounds))
        (append_assoc s.timestamps (next ∷ []) (count_from (next + 1) rounds)))

pull_stamps-later :
    (rounds i next : ℕ) (s : Stamps)
    → s.first && (i == 0) ≡ false
    → pull_stamps rounds i next s
      ≡ (record s { timestamps = s.timestamps ++ count_from next rounds }, count_from next rounds)
unfolding pull_stamps
pull_stamps-later zero i next s no_first =
    ap (λ l. (record s { timestamps = l }, [])) (sym (append-nil s.timestamps))
pull_stamps-later (suc rounds) i next s no_first =
    let rest =
      pull_stamps-later rounds (i + 1) (next + 1)
        (record s { timestamps = s.timestamps ++ next ∷ [] }) (ground arith) in
    rw (no_first, rest)
      (ap (λ l. (record s { timestamps = l }, next ∷ count_from (next + 1) rounds))
        (append_assoc s.timestamps (next ∷ []) (count_from (next + 1) rounds)))

abbrev start : Stamps
start = record { first = true; start_ts = 0; timestamps = [] }

-- The first of the timestamps, or 0, and the others.
abbrev pub split_first : List ℕ → ℕ × List ℕ
split_first [] = (0, [])
split_first (t ∷ ts) = (t, ts)

-- What both loops leave for `n` timestamps together: `start_ts` and `timestamps` are the first and
-- the others.
pub record AreSplit (next n : ℕ) (s : Stamps) : Type 0 where
  pub start_ts : s.start_ts ≡ (split_first (count_from next n)).0
  pub timestamps : s.timestamps ≡ (split_first (count_from next n)).1

abbrev pulled : (p q next : ℕ) → Stamps × List ℕ
pulled p q next = pull_stamps q 0 (next + p) (push_stamps p 0 next start).0

stamps-AreSplit :
    (p q n next : ℕ)
    → n ≡ p + q
    → ((push_stamps p 0 next start).1 ≡ count_from next p)
      × ((pulled p q next).1 ≡ count_from (next + p) q)
      × AreSplit next n (pulled p q next).0
unfolding push_stamps pull_stamps
stamps-AreSplit zero zero zero next e = (refl, refl, record { start_ts = refl; timestamps = refl })
stamps-AreSplit zero zero (suc n) next e = absurd (omega arith)
stamps-AreSplit zero (suc q) zero next e = absurd (omega arith)
stamps-AreSplit zero (suc q) (suc n) next e =
    let later =
      pull_stamps-later q (0 + 1) (next + 0 + 1) (record start { start_ts = next + 0 }) refl in
    (
      refl,
      ap (λ x. (next + 0) ∷ x.1) later,
      record {
        start_ts = ap (λ x. x.0.start_ts) later ∙ omega arith;
        timestamps =
            ap (λ x. x.0.timestamps) later
            ∙ ap (λ k. count_from k q) {x = next + 0 + 1} {y = next + 1} (omega arith)
            ∙ ap (count_from (next + 1)) {x = q} {y = n} (omega arith);
      },
    )
stamps-AreSplit (suc p) q zero next e = absurd (omega arith)
stamps-AreSplit (suc p) q (suc n) next e =
    let pushed : Stamps = record {
      first = false;
      start_ts = next;
      timestamps = count_from (next + 1) p;
    } in
    let first =
      push_stamps-later p (0 + 1) (next + 1)
        (record { first = false; start_ts = next; timestamps = [] }) (omega arith) in
    let later =
      ap (λ x. pull_stamps q 0 (next + suc p) x.0) first
      ∙ pull_stamps-later q 0 (next + suc p) pushed refl in
    (
      ap (λ x. next ∷ x.1) first,
      ap (λ x. x.1) later,
      record {
        start_ts = ap (λ x. x.0.start_ts) later;
        timestamps =
            ap (λ x. x.0.timestamps) later
            ∙ ap (λ k. count_from (next + 1) p ++ count_from k q) {x = next + suc p}
                {y = next + 1 + p} (omega arith)
            ∙ count_from-append (next + 1) p q
            ∙ ap (count_from (next + 1)) {x = p + q} {y = n} (omega arith);
      },
    )

-- The batch that the loops make.
abbrev pub made_batch :
    {T : Type 0} → (next q : ℕ) (push pull : List (KeyTensor T)) → AfTensorRequest T × ℕ × List ℕ
made_batch next q push pull =
    let all = count_from next (length push + q) in
    (
      record {
        push = push;
        pull = pull;
        push_timestamps = count_from next (length push);
        pull_timestamps = count_from (next + length push) q;
      },
      (split_first all).0,
      (split_first all).1,
    )

pub z_batch_push_pull-made :
    {T : Type 0} (servers next q : ℕ) (push pull : List (KeyTensor T))
    → ltb 0 servers ≡ true
    → length pull / servers ≡ q
    → z_batch_push_pull servers next push pull ≡ ok (made_batch next q push pull)
unfolding z_batch_push_pull
z_batch_push_pull-made servers next q push pull some_server is_q =
    let (pushes, pulls, split) = stamps-AreSplit (length push) q (length push + q) next refl in
    rw (some_server, is_q, pushes, pulls, split.start_ts, split.timestamps) refl
