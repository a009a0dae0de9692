-- ===== src/KvWorker/Sending.antt =====
-- What `Send` makes of its slices.
use mathlib.Core.List.{append_assoc}
use step_mesh.KvServer.Reply.{unpack_data-pack_data}
use mathlib.Core.Path.{subst}
use step_mesh.Slicer.Positions.{IsIn}
use step_mesh.KvServer.{unpack_data}
use step_mesh.Slicer.Partition.{join, FitRanges}
use step_mesh.Prelude.{
  length-append, ℕ, ◌+◌, ◌≡◌, ◌∙◌, refl, sym, ap, inl, inr, Bool, true, false, some, List, [], ◌∷◌,
  ◌++◌, arith, length, All, get_elem?,
}
use step_mesh.Slicer.{KvPairs, no_pairs, SlicedKvs}
use step_mesh.KvWorker.{ok, group_server_rank_to_instance_id, Array, Meta, Range, ℤ, Setting}
use step_mesh.KvWorker.Calls.{send_slices, slice_message, skipped}
use step_mesh.KvWorker.Copies.{joined}

get_elem?-length :
    {A : Type 0} (before : List A) (x : A) (after : List A)
    → get_elem? (before ++ x ∷ after) (length before) ≡ some x
get_elem?-length [] x after = refl
get_elem?-length (y ∷ before) x after = get_elem?-length before x after

module _ {V : Type 0} where
  pub length-send_slices :
      (setting : Setting V) (ts : ℕ) (push : Bool) (cmd : ℤ) (i : ℕ) (sliced : SlicedKvs V)
      → skipped sliced + length (send_slices setting ts push cmd i sliced) ≡ length sliced
  unfolding send_slices skipped
  length-send_slices setting ts push cmd i [] = refl
  length-send_slices setting ts push cmd i ((true, kvs) ∷ ss) =
      omega (arith, length-send_slices setting ts push cmd (i + 1) ss)
  length-send_slices setting ts push cmd i ((false, kvs) ∷ ss) =
      omega (arith, length-send_slices setting ts push cmd (i + 1) ss)

  -- The slices that are sent.
  abbrev pub marked : SlicedKvs V → List (KvPairs V)
  marked [] = []
  marked ((true, kvs) ∷ ss) = kvs ∷ marked ss
  marked ((false, kvs) ∷ ss) = marked ss

  -- A push that arrives as `pairs` at the server with the range of its keys: it can be read, and is
  -- a request with the timestamp `ts`.
  pub record IsDelivery (setting : Setting V) (ranges : List Range) (ts : ℕ) (cmd : ℤ)
      (m : Meta × List (Array V)) (pairs : KvPairs V) : Type 0 where
    pub rank : ℕ
    pub range : Range
    pub is_range : get_elem? ranges rank ≡ some range
    pub recver :
        m.0.recver ≡ group_server_rank_to_instance_id setting.postoffice rank setting.instance_idx
    pub request : m.0.request ≡ true
    pub push : m.0.push ≡ true
    pub timestamp : m.0.timestamp ≡ ts
    pub head : m.0.head ≡ cmd
    pub readable : unpack_data m.1 ≡ ok pairs
    pub inside : All (IsIn range) pairs.keys

  abbrev pub AreDeliveries :
      (setting : Setting V) (ranges : List Range) (ts : ℕ) (cmd : ℤ)
      → List (Meta × List (Array V))
      → List (KvPairs V)
      → Type 0
  AreDeliveries setting ranges ts cmd [] [] = Unit
  AreDeliveries setting ranges ts cmd (m ∷ ms) (p ∷ ps) =
      IsDelivery setting ranges ts cmd m p × AreDeliveries setting ranges ts cmd ms ps
  AreDeliveries setting ranges ts cmd _ _ = ⊥

  -- One range more before.
  AreDeliveries-shift :
      (setting : Setting V) (ts : ℕ) (cmd : ℤ) (before : List Range) (r : Range) (rs : List Range)
      (ss : SlicedKvs V)
      → AreDeliveries setting
          ((before ++ r ∷ []) ++ rs)
          ts
          cmd
          (send_slices setting ts true cmd (length (before ++ r ∷ [])) ss)
          (marked ss)
      → AreDeliveries setting
          (before ++ r ∷ rs)
          ts
          cmd
          (send_slices setting ts true cmd (length before + 1) ss)
          (marked ss)
  AreDeliveries-shift setting ts cmd before r rs ss h =
      subst
        (λ n.
          AreDeliveries setting (before ++ r ∷ rs) ts cmd (send_slices setting ts true cmd n ss)
            (marked ss))
        (length-append before (r ∷ []))
        (subst
          (λ l.
            AreDeliveries setting l ts cmd
              (send_slices setting ts true cmd (length (before ++ r ∷ [])) ss) (marked ss))
          (append_assoc before (r ∷ []) rs) h)

  -- Slices that fit the ranges from `before` on arrive there.
  pub send_slices-AreDeliveries :
      (setting : Setting V) (ts : ℕ) (cmd : ℤ) (before ranges : List Range) (sliced : SlicedKvs V)
      → FitRanges sliced ranges
      → AreDeliveries setting
          (before ++ ranges)
          ts
          cmd
          (send_slices setting ts true cmd (length before) sliced)
          (marked sliced)
  unfolding send_slices slice_message
  send_slices-AreDeliveries setting ts cmd before [] [] fit = tt
  send_slices-AreDeliveries setting ts cmd before (r ∷ rs) [] fit = absurd fit
  send_slices-AreDeliveries setting ts cmd before [] (s ∷ ss) fit = absurd fit
  send_slices-AreDeliveries setting ts cmd before (r ∷ rs) ((false, kvs) ∷ ss) fit =
      AreDeliveries-shift setting ts cmd before r rs ss
        (send_slices-AreDeliveries setting ts cmd (before ++ r ∷ []) rs ss fit.4)
  send_slices-AreDeliveries setting ts cmd before (r ∷ rs) ((true, kvs) ∷ ss) fit = (
    record {
      rank = length before;
      range = r;
      is_range = get_elem?-length before r rs;
      recver = refl;
      request = refl;
      push = refl;
      timestamp = refl;
      head = refl;
      readable = unpack_data-pack_data kvs (ground (arith, fit.1)) fit.3;
      inside = fit.0;
    },
    AreDeliveries-shift setting ts cmd before r rs ss
        (send_slices-AreDeliveries setting ts cmd (before ++ r ∷ []) rs ss fit.4),
  )

  -- What is not sent is empty.
  pub marked-joined :
      {A : Type 0} (part : KvPairs V → List A) (sliced : SlicedKvs V) (ranges : List Range)
      → part (no_pairs V) ≡ []
      → FitRanges sliced ranges
      → joined part (marked sliced) ≡ join part sliced
  marked-joined part [] [] none_there fit = refl
  marked-joined part [] (r ∷ rs) none_there fit = absurd fit
  marked-joined part (s ∷ ss) [] none_there fit = absurd fit
  marked-joined part ((true, kvs) ∷ ss) (r ∷ rs) none_there fit =
      ap (λ l. part kvs ++ l) (marked-joined part ss rs none_there fit.4)
  marked-joined part ((false, kvs) ∷ ss) (r ∷ rs) none_there fit = elim fit.2 [
    | inl e ↦ absurd (ground arith)
    | inr e ↦
        marked-joined part ss rs none_there fit.4
        ∙ sym (ap (λ s. part s ++ join part ss) e ∙ ap (λ l. l ++ join part ss) none_there)
  ]
