-- ===== src/Van/Answers.antt =====
-- What the answers to a barrier are, whoever makes them.
use step_mesh.Prelude.{
  ℕ, ◌+◌, ◌≡◌, refl, ap, inl, inr, Bool, false, List, [], ◌∷◌, map, All, if◌then◌else◌, Bool-cases,
}
use step_mesh.Message.{Meta, Command}
use step_mesh.Van.{answers}

-- The ids that share no other node's id.
abbrev pub unshared : (ℕ → Bool) → List ℕ → List ℕ
unshared shared [] = []
unshared shared (id ∷ ids) = if shared id then unshared shared ids else id ∷ unshared shared ids

-- As many numbers as there are messages, from `timestamp` on.
abbrev pub stamps_from : (timestamp : ℕ) → List Meta → List ℕ
stamps_from timestamp [] = []
stamps_from timestamp (m ∷ ms) = timestamp ∷ stamps_from (timestamp + 1) ms

-- The answer to the application and customer of `msg`.
pub record IsAnswer (cmd : Command) (msg m : Meta) : Type 0 where
  pub no_request : m.request ≡ false
  pub app_id : m.app_id ≡ msg.app_id
  pub customer_id : m.customer_id ≡ msg.customer_id
  pub command : m.control.cmd ≡ cmd

-- One answer to each of the ids that is not shared, in order, each with a timestamp of its own.
pub record AreAnswers (shared : ℕ → Bool) (cmd : Command) (msg : Meta) (timestamp : ℕ)
    (ids : List ℕ) (sent : List Meta) : Type 0 where
  pub receivers : map (λ m. m.recver) sent ≡ unshared shared ids
  pub stamps : map (λ m. m.timestamp) sent ≡ stamps_from timestamp sent
  pub each : All (λ m. IsAnswer cmd msg m) sent

pub answers-AreAnswers :
    (shared : ℕ → Bool) (cmd : Command) (msg : Meta) (timestamp : ℕ) (ids : List ℕ)
    → AreAnswers shared cmd msg timestamp ids (answers shared cmd msg timestamp ids)
unfolding answers
answers-AreAnswers shared cmd msg timestamp [] = record {
  receivers = refl;
  stamps = refl;
  each = tt;
}
answers-AreAnswers shared cmd msg timestamp (id ∷ ids) = elim (Bool-cases (shared id)) [
  | inl e ↦ rw e (
      let rest = answers-AreAnswers shared cmd msg timestamp ids in
      record { receivers = rw e rest.receivers; stamps = rest.stamps; each = rest.each })
  | inr e ↦ rw e (
      let rest = answers-AreAnswers shared cmd msg (timestamp + 1) ids in
      record {
        receivers = rw e (ap (λ l. id ∷ l) rest.receivers);
        stamps = ap (λ l. timestamp ∷ l) rest.stamps;
        each = (
          record { no_request = refl; app_id = refl; customer_id = refl; command = refl },
          rest.each,
        );
      })
]
