-- ===== src/Slicer/Partition.antt =====
-- The slices of `DefaultSlicer` make up what was sent.
use step_mesh.Prelude.{
  ◌⊎◌, drop-all, All, ℕ, ◌+◌, ◌-◌, ◌≤◌, ◌≡◌, refl, sym, ap, ◌∙◌, inl, inr, true, false, List, [],
  ◌∷◌, ◌++◌, arith, ltb, leb, ◌==◌, Bool-cases, length, take, drop, length-drop, length-take,
  take-append-drop, ==_iff,
}
use step_mesh.Prelude.Result.{ok}
use step_mesh.Postoffice.{Range}
use step_mesh.Slicer.{KvPairs, no_pairs, segment, SlicedKvs, slice, slice_loop}
use step_mesh.Slicer.Positions.{IsIn, Cuts, drop-drop}

pub segment-ok :
    {A : Type 0} (xs : List A) (begin end : ℕ)
    → begin ≤ end
    → end ≤ length xs
    → segment xs begin end ≡ ok (take (end - begin) (drop begin xs))
unfolding segment
segment-ok xs begin end h l =
    let first : leb begin end ≡ true = ground arith in
    let second : leb end (length xs) ≡ true = ground arith in rw (first, second)

-- A piece and what follows it.
take-append-drop_at :
    {A : Type 0} (xs : List A) (pos next : ℕ)
    → pos ≤ next
    → take (next - pos) (drop pos xs) ++ drop next xs ≡ drop pos xs
take-append-drop_at xs pos next le =
    ap (λ l. take (next - pos) (drop pos xs) ++ l)
      (ap (λ k. drop k xs) {y = pos + (next - pos)} (omega arith)
        ∙ sym (drop-drop pos (next - pos) xs))
    ∙ take-append-drop (next - pos) (drop pos xs)

module _ {V : Type 0} where
  -- All slices one after the other.
  abbrev pub join : {A : Type 0} → (KvPairs V → List A) → SlicedKvs V → List A
  join f [] = []
  join f (s ∷ ss) = f s.1 ++ join f ss

  -- A length for each key, or none.
  abbrev pub HasSomeLens : KvPairs V → Type 0
  HasSomeLens s = (length s.lens ≡ 0) ⊎ (length s.lens ≡ length s.keys)

  -- Slice `i` has keys of range `i` only, is marked for sending exactly if it has any, and is empty
  -- if it is not marked.
  abbrev pub FitRanges : SlicedKvs V → List Range → Type 0
  FitRanges [] [] = Unit
  FitRanges (s ∷ ss) (r ∷ rs) =
      All (IsIn r) s.1.keys
      × (s.0 ≡ ltb 0 (length s.1.keys))
      × ((s.0 ≡ true) ⊎ (s.1 ≡ no_pairs V))
      × HasSomeLens s.1
      × FitRanges ss rs
  FitRanges _ _ = ⊥

  -- What the slices amount to from position `pos` and value `val_pos` on.
  pub record Partitions (send : KvPairs V) (ranges : List Range) (pos val_pos : ℕ)
      (sliced : SlicedKvs V) : Type 0 where
    pub fit : FitRanges sliced ranges
    pub keys : join (λ s. s.keys) sliced ≡ drop pos send.keys
    pub vals : join (λ s. s.vals) sliced ≡ drop val_pos send.vals
    pub lens : join (λ s. s.lens) sliced ≡ drop pos send.lens

  -- The slice between two positions, when the values of position `i` start at `val_pos i`.
  abbrev pub piece : KvPairs V → (ℕ → ℕ) → ℕ → ℕ → KvPairs V
  piece send val_pos pos next = record {
    keys = take (next - pos) (drop pos send.keys);
    vals = take (val_pos next - val_pos pos) (drop (val_pos pos) send.vals);
    lens = take (next - pos) (drop pos send.lens);
  }

  module _ (send : KvPairs V) (k : ℕ) (val_pos begin : ℕ → ℕ)
      (mono : (i j : ℕ) → i ≤ j → j ≤ length send.keys → val_pos i ≤ val_pos j)
      (all_vals : val_pos (length send.keys) ≡ length send.vals) (some_lens : HasSomeLens send)
      (cut : (i j : ℕ)
        → i ≤ j
        → j ≤ length send.keys
        → slice send k i j (begin i) ≡ ok (piece send val_pos i j, begin j)) where
    lens-short : {n : ℕ} → length send.keys ≤ n → length send.lens ≤ n
    lens-short h = elim some_lens [ inl e ↦ omega arith | inr e ↦ omega arith ]

    piece-HasSomeLens :
        (pos p : ℕ) → pos ≤ p → p ≤ length send.keys → HasSomeLens (piece send val_pos pos p)
    piece-HasSomeLens pos p le fits = elim some_lens [
      | inl e ↦
          inl (omega (arith, length-take (p - pos) (drop pos send.lens), length-drop pos send.lens))
      | inr e ↦ inr (
          omega (
            arith,
            length-take (p - pos) (drop pos send.lens),
            length-take (p - pos) (drop pos send.keys),
            length-drop pos send.lens,
            length-drop pos send.keys,
          ))
    ]

    -- One round more.
    Partitions-cons :
        (r : Range) (rs : List Range) (pos p : ℕ) (sliced : SlicedKvs V)
        → pos ≤ p
        → p ≤ length send.keys
        → All (IsIn r) (take (p - pos) (drop pos send.keys))
        → true ≡ ltb 0 (length (take (p - pos) (drop pos send.keys)))
        → Partitions send rs p (val_pos p) sliced
        → Partitions send (r ∷ rs) pos (val_pos pos) ((true, piece send val_pos pos p) ∷ sliced)
    Partitions-cons r rs pos p sliced le fits inside is_marked rest = record {
      fit = (inside, is_marked, inl refl, piece-HasSomeLens pos p le fits, rest.fit);
      keys = rw rest.keys (take-append-drop_at send.keys pos p le);
      vals =
          rw rest.vals
            (take-append-drop_at send.vals (val_pos pos) (val_pos p) (mono pos p le fits));
      lens = rw rest.lens (take-append-drop_at send.lens pos p le);
    }

    Partitions-same :
        (r : Range) (rs : List Range) (pos p : ℕ) (sliced : SlicedKvs V)
        → p ≡ pos
        → Partitions send rs p (val_pos p) sliced
        → Partitions send (r ∷ rs) pos (val_pos pos) ((false, no_pairs V) ∷ sliced)
    Partitions-same r rs pos p sliced same rest = record {
      fit = (tt, refl, inr refl, inl refl, rest.fit);
      keys = rest.keys ∙ ap (λ n. drop n send.keys) same;
      vals = rest.vals ∙ ap (λ n. drop (val_pos n) send.vals) same;
      lens = rest.lens ∙ ap (λ n. drop n send.lens) same;
    }

    pub slice_loop-Partitions :
        (ps : List ℕ) (ranges : List Range) (pos : ℕ)
        → Cuts send.keys pos ps ranges
        → (sliced : SlicedKvs V) × (slice_loop send k pos (begin pos) ps ≡ ok sliced)
          × Partitions send ranges pos (val_pos pos) sliced
    unfolding slice_loop
    slice_loop-Partitions [] [] pos cuts = (
      [],
      refl,
      record {
        fit = tt;
        keys = sym (drop-all send.keys pos (omega arith));
        vals = sym (drop-all send.vals (val_pos pos) (omega (arith, ap val_pos cuts, all_vals)));
        lens = sym (drop-all send.lens pos (lens-short (omega arith)));
      },
    )
    slice_loop-Partitions [] (r ∷ rs) pos cuts = absurd cuts
    slice_loop-Partitions (p ∷ ps) [] pos cuts = absurd cuts
    slice_loop-Partitions (p ∷ ps) (r ∷ rs) pos cuts =
        let (sliced, made, rest) = slice_loop-Partitions ps rs p cuts.3 in
        elim (Bool-cases (p == pos)) [
          | inl same ↦
              let is_same : p ≡ pos = omega (arith, (==_iff p pos).0 same) in
              (
                (false, no_pairs V) ∷ sliced,
                rw (same, sym (ap begin is_same), made),
                Partitions-same r rs pos p sliced is_same rest,
              )
          | inr more ↦ (
            (true, piece send val_pos pos p) ∷ sliced,
            rw (more, cut pos p cuts.0 cuts.1, made),
            Partitions-cons r rs pos p sliced cuts.0 cuts.1 cuts.2
                (ground
                  (arith, length-take (p - pos) (drop pos send.keys), length-drop pos send.keys))
                rest,
          )
        ]
