-- ===== src/Van/Once.antt =====
-- With a resender a message is handled once, however often it comes.
use step_mesh.Resender.Delivery.{accept-known, incoming-accept, accept-lem}
use mathlib.Core.Path.{subst}
use step_mesh.Resender.Acked.{
  KeepsAcked, KeepsAcked-refl, get_key-same, add_outgoing-KeepsAcked, add_incomming-KeepsAcked,
}
use step_mesh.Prelude.{
  inr, inl, Bool-cases, some-injective, ℕ, ◌≡◌, ◌∙◌, refl, sym, ap, Bool, true, false, some, List,
  [], ◌∷◌, ◌==◌,
}
use step_mesh.Prelude.Map.{find}
use step_mesh.Prelude.Result.{Result, ok, ◌>>=◌, bind-ok, ok-injective}
use step_mesh.Message.{ack, terminate, is_cmd, Meta, k_empty}
use step_mesh.Resender.{ack_of, accept, Resender, get_key, add_outgoing, add_incomming}
use step_mesh.Van.Dispatch.{
  unchanged, NodeState, Surroundings, Handled, handle, keep_sent, receive_new, receive_checked,
  receive_with, receive_msg,
}

keep_sent-KeepsAcked :
    (key id now : ℕ) (sent : List Meta) (s s' : Resender)
    → keep_sent id now sent s ≡ ok s'
    → KeepsAcked key s s'
unfolding keep_sent
keep_sent-KeepsAcked key id now [] s s' e h = KeepsAcked-refl key s s' (ok-injective e) h
keep_sent-KeepsAcked key id now (m ∷ sent) s s' e h =
    let (s1, one, later) = bind-ok (add_outgoing id s m now) _ s' e in
    keep_sent-KeepsAcked key id now sent s1 s' later
      (add_outgoing-KeepsAcked key id now m s s1 one h)

-- The resender of the node has met the message before.
abbrev pub HasSeen : (key : ℕ) → NodeState → Type 0
HasSeen key node = (s : Resender) × (node.resender ≡ some s) × (find key s.acked ≡ some tt)

-- Messages one after the other, each with its surroundings, until the thread ends.
unfoldable pub receive_all : List (Surroundings × Meta) → NodeState → Result NodeState
receive_all [] node = ok node
receive_all ((around, m) ∷ ms) node =
    receive_msg around m node
    >>= (λ h. elim h.goes_on [ true ↦ receive_all ms h.state | false ↦ ok h.state ])

-- The acknowledgement of `m`, with its key.
pub record IsAck (key : ℕ) (m answer : Meta) : Type 0 where
  pub to_sender : answer.recver ≡ m.sender
  pub from_receiver : answer.sender ≡ m.recver
  pub command : answer.control.cmd ≡ ack
  pub signature : answer.control.msg_sig ≡ key

module _ (key : ℕ) (msg : Meta) where
  HasSeen-keeps :
      (node node' : NodeState) (s s' : Resender)
      → node.resender ≡ some s
      → node'.resender ≡ some s'
      → KeepsAcked key s s'
      → HasSeen key node
      → HasSeen key node'
  HasSeen-keeps node node' s s' has has' keeps (s0, is, seen) =
      (s', has', keeps (ap (λ r. find key r.acked) (sym (some-injective (sym is ∙ has))) ∙ seen))

  receive_new-KeepsAcked :
      (around : Surroundings) (m : Meta) (node : NodeState) (s : Resender) (acks : List Meta)
      (h : Handled)
      → receive_new around m node s acks ≡ ok h
      → (s' : Resender) × (h.state.resender ≡ some s') × KeepsAcked key s s'
  unfolding receive_new
  receive_new-KeepsAcked around m node s acks h e =
      let (h1, handled, later) = bind-ok (handle around m node) _ h e in
      let (s', kept, made) =
        bind-ok (keep_sent h1.state.registry.my_node.id around.milliseconds h1.sent s) _ h later in
      (
        s',
        ap (λ r. r.state.resender) (sym (ok-injective made)),
        keep_sent-KeepsAcked key h1.state.registry.my_node.id around.milliseconds h1.sent s s' kept,
      )

  receive_checked-KeepsAcked :
      (around : Surroundings) (m : Meta) (node : NodeState) (r : Resender × Bool × List Meta)
      (h : Handled)
      → receive_checked around m node r ≡ ok h
      → (s' : Resender) × (h.state.resender ≡ some s') × KeepsAcked key r.0 s'
  unfolding receive_checked
  receive_checked-KeepsAcked around m node (s, true, acks) h e =
      (s, ap (λ x. x.state.resender) (sym (ok-injective e)), KeepsAcked-refl key s s refl)
  receive_checked-KeepsAcked around m node (s, false, acks) h e =
      receive_new-KeepsAcked around m node s acks h e

  receive_msg-with :
      (around : Surroundings) (m : Meta) (node : NodeState) (s : Resender)
      → node.resender ≡ some s
      → receive_msg around m node
        ≡ (add_incomming node.registry.my_node.id s m >>= (λ r. receive_checked around m node r))
  unfolding receive_msg receive_with
  receive_msg-with around m node s has = ap (λ o. receive_with around m node o) has

  receive_msg-HasSeen :
      (around : Surroundings) (m : Meta) (node : NodeState) (h : Handled)
      → HasSeen key node
      → receive_msg around m node ≡ ok h
      → HasSeen key h.state
  receive_msg-HasSeen around m node h (s, has, seen) e =
      let (r, came, later) =
        bind-ok (add_incomming node.registry.my_node.id s m) _ h
          (sym (receive_msg-with around m node s has) ∙ e) in
      let (s', has', keeps') = receive_checked-KeepsAcked around m node r h later in
      let keeps = add_incomming-KeepsAcked key node.registry.my_node.id s m r came in
      HasSeen-keeps node h.state s s' has has' (λ k. keeps' (keeps k)) (s, has, seen)

  receive_all-HasSeen :
      (ms : List (Surroundings × Meta)) (node node' : NodeState)
      → HasSeen key node
      → receive_all ms node ≡ ok node'
      → HasSeen key node'
  unfolding receive_all
  receive_all-HasSeen [] node node' seen e = subst (HasSeen key) (ok-injective e) seen
  receive_all-HasSeen ((around, m) ∷ ms) node node' seen e =
      let (h, one, later) = bind-ok (receive_msg around m node) _ node' e in
      let seen1 = receive_msg-HasSeen around m node h seen one in
      elim (Bool-cases h.goes_on) [
        | inl goes ↦ receive_all-HasSeen ms h.state node' seen1 (rw goes at later)
        | inr ends ↦ subst (HasSeen key) (ok-injective (rw ends at later)) seen1
      ]

  -- The message has been met.
  receive_msg-first :
      (around : Surroundings) (node : NodeState) (h : Handled) (s : Resender)
      → node.resender ≡ some s
      → is_cmd msg.control.cmd terminate ≡ false
      → is_cmd msg.control.cmd ack ≡ false
      → get_key node.registry.my_node.id msg ≡ ok key
      → receive_msg around msg node ≡ ok h
      → HasSeen key h.state
  receive_msg-first around node h s has goes_on no_ack keyed e =
      let (r, came, later) =
        bind-ok (add_incomming node.registry.my_node.id s msg) _ h
          (sym (receive_msg-with around msg node s has) ∙ e) in
      let (first, known) = accept-lem s msg key (find key s.acked) refl in
      let is : accept s msg key (find key s.acked) ≡ r =
        ok-injective
          (sym (incoming-accept node.registry.my_node.id s msg key goes_on no_ack keyed) ∙ came) in
      let (s', has', keeps') = receive_checked-KeepsAcked around msg node r h later in
      (s', has', keeps' (ap (λ p. find key p.0.acked) (sym is) ∙ known))

  -- A node with a resender receives a message that names its sender and is neither an
  -- acknowledgement nor the end, and then any others, which may also give the node another id. If
  -- it comes again, however much later, it is not handled again: the node's state stays as it is,
  -- no customer gets it, and only an acknowledgement is sent.
  pub receive_msg-once :
      (around again : Surroundings) (node node' : NodeState) (h : Handled) (s : Resender)
      (others : List (Surroundings × Meta))
      → node.resender ≡ some s
      → (msg.sender == k_empty) ≡ false
      → is_cmd msg.control.cmd terminate ≡ false
      → is_cmd msg.control.cmd ack ≡ false
      → get_key node.registry.my_node.id msg ≡ ok key
      → receive_msg around msg node ≡ ok h
      → receive_all others h.state ≡ ok node'
      → (answer : Meta) × (receive_msg again msg node'
          ≡ ok (record { state = node'; sent = answer ∷ []; delivered = []; goes_on = true }))
        × IsAck key msg answer
  unfolding receive_checked
  receive_msg-once around again node node' h s others has named goes_on no_ack keyed first later =
      let (s', has', seen) =
        receive_all-HasSeen others h.state node'
          (receive_msg-first around node h s has goes_on no_ack keyed first) later in
      (
        ack_of msg key,
        receive_msg-with again msg node' s' has'
            ∙ ap (λ m. m >>= (λ r. receive_checked again msg node' r))
                (incoming-accept node'.registry.my_node.id s' msg key goes_on no_ack (
                    get_key-same node.registry.my_node.id node'.registry.my_node.id msg named
                    ∙ keyed)
                  ∙ ap (λ o. ok (accept s' msg key o)) seen
                  ∙ accept-known s' msg key)
            ∙ ap (λ o. ok (unchanged (record node' { resender = o }) (ack_of msg key ∷ [])))
                (sym has'),
        record { to_sender = refl; from_receiver = refl; command = refl; signature = refl },
      )
