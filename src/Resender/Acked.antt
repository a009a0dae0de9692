-- ===== src/Resender/Acked.antt =====
-- What `Resender` remembers of the messages that came is not forgotten.
use step_mesh.Prelude.{
  ℕ, ◌≡◌, ◌∙◌, refl, sym, ap, inl, inr, Bool, true, false, Option, none, some, List, ◌==◌,
  Bool-cases, if◌then◌else◌,
}
use step_mesh.Prelude.Map.{find, find-insert}
use step_mesh.Prelude.Result.{ok, bind-ok, ok-injective}
use step_mesh.Message.{Meta, terminate, ack, is_cmd, k_empty}
use step_mesh.Resender.{Resender, Entry, get_key, buffer, add_outgoing, accept, add_incomming}

-- What the resender reads to know a message again may only grow.
abbrev pub KeepsAcked : (key : ℕ) → Resender → Resender → Type 0
KeepsAcked key s s' = find key s.acked ≡ some tt → find key s'.acked ≡ some tt

pub KeepsAcked-refl : (key : ℕ) (s s' : Resender) → s ≡ s' → KeepsAcked key s s'
KeepsAcked-refl key s s' e h = ap (λ r. find key r.acked) (sym e) ∙ h

-- The key of a message that names its sender does not depend on the node's own id.
pub get_key-same :
    (id id' : ℕ) (msg : Meta) → (msg.sender == k_empty) ≡ false → get_key id' msg ≡ get_key id msg
unfolding get_key
get_key-same id id' msg e = rw e refl

buffer-KeepsAcked :
    (key : ℕ) (s s' : Resender) (msg : Meta) (k now : ℕ) (o : Option Entry)
    → buffer s msg k now o ≡ s'
    → KeepsAcked key s s'
unfolding buffer
buffer-KeepsAcked key s s' msg k now none e h = ap (λ r. find key r.acked) (sym e) ∙ h
buffer-KeepsAcked key s s' msg k now (some entry) e h = KeepsAcked-refl key s s' e h

pub add_outgoing-KeepsAcked :
    (key id now : ℕ) (m : Meta) (s s' : Resender)
    → add_outgoing id s m now ≡ ok s'
    → KeepsAcked key s s'
unfolding add_outgoing
add_outgoing-KeepsAcked key id now m s s' e = elim (Bool-cases (is_cmd m.control.cmd ack)) [
  | inl is ↦ KeepsAcked-refl key s s' (ok-injective (rw is at e))
  | inr is_not ↦
      let (k, has, made) = bind-ok (get_key id m) _ s' (rw is_not at e) in
      buffer-KeepsAcked key s s' m k now (find k s.send_buff) (ok-injective made)
]

known_anyway :
    (b : Bool) (o : Option (Unit {0})) → o ≡ some tt → (if b then some tt else o) ≡ some tt
known_anyway true o h = refl
known_anyway false o h = h

accept-KeepsAcked :
    (key k : ℕ) (s : Resender) (msg : Meta) (o : Option (Unit {0}))
    (r : Resender × Bool × List Meta)
    → accept s msg k o ≡ r
    → KeepsAcked key s r.0
unfolding accept
accept-KeepsAcked key k s msg none r e = λ h.
    ap (λ p. find key p.0.acked) (sym e)
    ∙ find-insert k key tt s.acked
    ∙ known_anyway (k == key) (find key s.acked) h
accept-KeepsAcked key k s msg (some u) r e = KeepsAcked-refl key s r.0 (ap (λ p. p.0) e)

pub add_incomming-KeepsAcked :
    (key id : ℕ) (s : Resender) (msg : Meta) (r : Resender × Bool × List Meta)
    → add_incomming id s msg ≡ ok r
    → KeepsAcked key s r.0
unfolding add_incomming
add_incomming-KeepsAcked key id s msg r e = elim (Bool-cases (is_cmd msg.control.cmd terminate)) [
  | inl ends ↦ KeepsAcked-refl key s r.0 (ap (λ p. p.0) (ok-injective (rw ends at e)))
  | inr goes_on ↦ elim (Bool-cases (is_cmd msg.control.cmd ack)) [
    | inl is ↦
        let made = ok-injective (rw (goes_on, is) at e) in
        (λ h. ap (λ p. find key p.0.acked) (sym made) ∙ h)
    | inr is_not ↦
        let (k, has, made) = bind-ok (get_key id msg) _ r (rw (goes_on, is_not) at e) in
        accept-KeepsAcked key k s msg (find k s.acked) r (ok-injective made)
  ]
]
