-- ===== src/Resender/Key.antt =====
-- Which messages share a key.
use step_mesh.Prelude.{
  ℕ, ◌+◌, ◌*◌, ◌%◌, ◌^◌, ◌<◌, ◌≡◌, refl, sym, ap, ◌∙◌, ◌↔◌, inl, inr, Bool, true, false, arith,
  ◌==◌, if◌then◌else◌, Bool-cases,
}
use step_mesh.Prelude.Result.{ok}
use step_mesh.Message.{Meta, k_empty}
use step_mesh.Resender.{bit, get_key}

-- The node id that a key has for the sender.
abbrev pub sender_of : (my_node_id : ℕ) → Meta → ℕ
sender_of my_node_id msg = if msg.sender == k_empty then my_node_id else msg.sender

digits :
    (i j a b c d t u : ℕ) (p q : Bool)
    → a < 256
    → b < 256
    → c < 256
    → d < 256
    → t < 2 ^ 30
    → u < 2 ^ 30
    → i * 2 ^ 48 + a * 2 ^ 40 + c * 2 ^ 32 + t * 2 + bit p
      ≡ j * 2 ^ 48 + b * 2 ^ 40 + d * 2 ^ 32 + u * 2 + bit q
    → (i ≡ j) × (a ≡ b) × (c ≡ d) × (t ≡ u) × (p ≡ q)
digits i j a b c d t u true true ha hb hc hd ht hu e =
    (omega arith, omega arith, omega arith, omega arith, refl)
digits i j a b c d t u false false ha hb hc hd ht hu e =
    (omega arith, omega arith, omega arith, omega arith, refl)
digits i j a b c d t u true false ha hb hc hd ht hu e = absurd (omega arith)
digits i j a b c d t u false true ha hb hc hd ht hu e = absurd (omega arith)

get_key-sum :
    (my_node_id : ℕ) (m : Meta) (key : ℕ)
    → get_key my_node_id m ≡ ok key
    → key
      ≡ m.app_id % 2 ^ 16 * 2 ^ 48
        + sender_of my_node_id m % 2 ^ 8 * 2 ^ 40
        + m.recver % 2 ^ 8 * 2 ^ 32
        + m.timestamp * 2
        + bit m.request
unfolding get_key
get_key-sum my_node_id m key e = elim (Bool-cases (m.timestamp == k_empty)) [
  | inl none_set ↦ absurd (ground arith)
  | inr stamped ↦ ground arith
]

-- Two messages with timestamps below 2 ^ 30 have the same key exactly if their application ids are
-- the same modulo 2 ^ 16, their senders and their receivers modulo 2 ^ 8, and their timestamps and
-- kinds are the same: node ids that differ by 256 are taken for one another.
pub get_key-collides :
    (my_node_id : ℕ) (m n : Meta) (key other : ℕ)
    → get_key my_node_id m ≡ ok key
    → get_key my_node_id n ≡ ok other
    → m.timestamp < 2 ^ 30
    → n.timestamp < 2 ^ 30
    → (key ≡ other) ↔ (
        (m.app_id % 2 ^ 16 ≡ n.app_id % 2 ^ 16)
        × (sender_of my_node_id m % 2 ^ 8 ≡ sender_of my_node_id n % 2 ^ 8)
        × (m.recver % 2 ^ 8 ≡ n.recver % 2 ^ 8)
        × (m.timestamp ≡ n.timestamp)
        × (m.request ≡ n.request))
get_key-collides my_node_id m n key other e f tm tn =
    let k = get_key-sum my_node_id m key e in
    let l = get_key-sum my_node_id n other f in
    (
      λ same.
          digits (m.app_id % 2 ^ 16) (n.app_id % 2 ^ 16) (sender_of my_node_id m % 2 ^ 8)
            (sender_of my_node_id n % 2 ^ 8) (m.recver % 2 ^ 8) (n.recver % 2 ^ 8) m.timestamp
            n.timestamp m.request n.request (omega arith) (omega arith) (omega arith) (omega arith)
            tm tn (sym k ∙ same ∙ l),
      λ (a, b, c, d, p). k ∙ omega (arith, ap bit p) ∙ sym l,
    )
