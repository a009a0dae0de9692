-- ===== src/Tensor/Flags.antt =====
-- The flags of a batch, in the order in which a server sees them.
use mathlib.Core.List.{append-nil}
use mathlib.Core.Path.{subst}
use step_mesh.Prelude.{
  ℕ, zero, suc, ◌+◌, ◌≤◌, ◌<◌, ◌≡◌, refl, sym, Bool, true, false, ◌&&◌, List, [], ◌∷◌, ◌++◌, arith,
  ◌==◌,
}
use step_mesh.Tensor.{push_flag, pull_flag}

-- The values of `f` from `i` on, `n` of them.
abbrev pub numbered : (ℕ → ℕ) → (n i : ℕ) → List ℕ
numbered f zero i = []
numbered f (suc n) i = f i ∷ numbered f n (i + 1)

-- Middle flags, and an end flag at the end and nowhere else.
abbrev pub IsEnding : List ℕ → Type 0
IsEnding [] = ⊥
IsEnding (c ∷ []) = c ≡ 3
IsEnding (c ∷ d ∷ cs) = (c ≡ 2) × IsEnding (d ∷ cs)

-- A start flag and then such an ending.
abbrev pub IsFlags : List ℕ → Type 0
IsFlags [] = ⊥
IsFlags (c ∷ cs) = (c ≡ 1) × IsEnding cs

-- The flags of a batch with `p` pushes and `q` pulls from each server.
abbrev pub flags : (p q : ℕ) → List ℕ
flags p q = numbered (push_flag (q == 0) p) p 0 ++ numbered (pull_flag (p == 0) q) q 0

numbered-pull_flag :
    (q rounds i : ℕ)
    → 0 < rounds
    → i + rounds ≡ q
    → (first : Bool) → first && (i == 0) ≡ false
    → IsEnding (numbered (pull_flag first q) rounds i)
unfolding pull_flag
numbered-pull_flag q zero i pos to first other = absurd (omega arith)
numbered-pull_flag q (suc zero) i pos to first other = ground arith
numbered-pull_flag q (suc (suc rounds)) i pos to first other = (
  ground arith,
  numbered-pull_flag q (suc rounds) (i + 1) (omega arith) (omega arith) first (ground arith),
)

numbered-push_flag :
    (p rounds i : ℕ)
    → 0 < i
    → i + rounds ≡ p
    → 0 < rounds
    → IsEnding (numbered (push_flag true p) rounds i)
unfolding push_flag
numbered-push_flag p zero i pos to some_left = absurd (omega arith)
numbered-push_flag p (suc zero) i pos to some_left = ground arith
numbered-push_flag p (suc (suc rounds)) i pos to some_left = (
  ground arith,
  numbered-push_flag p (suc rounds) (i + 1) (omega arith) (omega arith) (omega arith),
)

push_flag-then :
    (p rounds i : ℕ) (ending : List ℕ)
    → 0 < i
    → IsEnding ending
    → IsEnding (numbered (push_flag false p) rounds i ++ ending)
unfolding push_flag
push_flag-then p zero i ending pos h = h
push_flag-then p (suc zero) i [] pos h = absurd h
push_flag-then p (suc zero) i (c ∷ cs) pos h = (ground arith, h)
push_flag-then p (suc (suc rounds)) i ending pos h =
    (ground arith, push_flag-then p (suc rounds) (i + 1) ending (omega arith) h)

IsFlags-both :
    (p q : ℕ) (no_pull no_push : Bool)
    → no_pull ≡ false
    → no_push ≡ false
    → IsFlags (
        numbered (push_flag no_pull (suc p)) (suc p) 0
        ++ numbered (pull_flag no_push (suc q)) (suc q) 0)
unfolding push_flag
IsFlags-both p q true no_push e f = absurd (ground arith)
IsFlags-both p q false true e f = absurd (ground arith)
IsFlags-both p q false false e f = (
  refl,
  push_flag-then (suc p) p 1 (numbered (pull_flag false (suc q)) (suc q) 0) (omega arith)
      (numbered-pull_flag (suc q) (suc q) 0 (omega arith) (omega arith) false refl),
)

-- The flags of a batch of at least two messages are well formed.
pub flags-IsFlags : (p q : ℕ) → 2 ≤ p + q → IsFlags (flags p q)
unfolding push_flag pull_flag
flags-IsFlags zero zero many = absurd (omega arith)
flags-IsFlags zero (suc q) many =
    (refl, numbered-pull_flag (suc q) q 1 (omega arith) (omega arith) true refl)
flags-IsFlags (suc p) zero many = (
  refl,
  subst IsEnding (sym (append-nil (numbered (push_flag true (suc p)) p 1)))
      (numbered-push_flag (suc p) p 1 (omega arith) (omega arith) (omega arith)),
)
flags-IsFlags (suc p) (suc q) many =
    IsFlags-both p q (suc q == 0) (suc p == 0) (ground arith) (ground arith)
