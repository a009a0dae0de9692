-- ===== src/Resender/Delivery.antt =====
-- A message is delivered once and sent again until it is acknowledged.
use step_mesh.Prelude.{
  inr, some-injective, inl, ◌<◌, Bool-cases, ◌++◌, ◌*◌, ◌+◌, ltb, List, ℕ, ◌≡◌, refl, sym, ap, ◌∙◌,
  Bool, true, false, Option, none, some, [], ◌∷◌, arith, ◌==◌, if◌then◌else◌,
}
use step_mesh.Prelude.Map.{Map, find, erase, find-insert, find-erase}
use step_mesh.Prelude.Result.{Result, ok, check, ◌>>◌, ◌>>=◌, bind-ok, ok-injective}
use step_mesh.Message.{Meta, terminate, ack, is_cmd}
use step_mesh.Resender.{
  monitor_entries, Resender, Entry, get_key, buffer, add_outgoing, ack_of, accept, add_incomming,
  monitor_entries, monitoring_round,
}

abbrev pub is_some {ℓ} : {A : Type ℓ} → Option A → Bool
is_some none = false
is_some (some _) = true

pub incoming-accept :
    (id : ℕ) (s : Resender) (msg : Meta) (key : ℕ)
    → is_cmd msg.control.cmd terminate ≡ false
    → is_cmd msg.control.cmd ack ≡ false
    → get_key id msg ≡ ok key
    → add_incomming id s msg ≡ ok (accept s msg key (find key s.acked))
unfolding add_incomming
incoming-accept id s msg key goes_on no_ack has_key = rw (goes_on, no_ack, has_key)

pub accept-lem :
    (s : Resender) (msg : Meta) (key : ℕ) (seen : Option (Unit {0}))
    → find key s.acked ≡ seen
    → let s' = (accept s msg key seen).0 in
      (accept s msg key seen ≡ (s', is_some seen, ack_of msg key ∷ []))
      × (find key s'.acked ≡ some tt)
unfolding accept
accept-lem s msg key none seen = (refl, ground (arith, find-insert key key tt s.acked))
accept-lem s msg key (some u) seen = (refl, seen)

pub accept-known :
    (s : Resender) (msg : Meta) (key : ℕ)
    → Result.ok (accept s msg key (some tt)) ≡ ok (s, true, ack_of msg key ∷ [])
unfolding accept
accept-known s msg key = refl

-- A message that is neither an acknowledgement nor the end is acknowledged when it comes, and taken
-- for a duplicate exactly if its key was met before; coming once more at once, it is acknowledged
-- again, it is a duplicate, and the state stays as it is.
pub add_incomming-twice :
    (id : ℕ) (s : Resender) (msg : Meta) (key : ℕ)
    → is_cmd msg.control.cmd terminate ≡ false
    → is_cmd msg.control.cmd ack ≡ false
    → get_key id msg ≡ ok key
    → (s' : Resender) × (add_incomming id s msg
        ≡ ok (s', is_some (find key s.acked), ack_of msg key ∷ []))
      × (add_incomming id s' msg ≡ ok (s', true, ack_of msg key ∷ []))
add_incomming-twice id s msg key goes_on no_ack has_key =
    let s' = (accept s msg key (find key s.acked)).0 in
    let (first, known) = accept-lem s msg key (find key s.acked) refl in
    (
      s',
      incoming-accept id s msg key goes_on no_ack has_key ∙ ap ok first,
      incoming-accept id s' msg key goes_on no_ack has_key
          ∙ ap (λ o. ok (accept s' msg key o)) known
          ∙ accept-known s' msg key,
    )

buffer-new :
    (s : Resender) (msg : Meta) (key now : ℕ)
    → find key (buffer s msg key now none).send_buff
      ≡ some (record { msg = msg; send = now; num_retry = 0 })
unfolding buffer
buffer-new s msg key now =
    ground
      (arith, find-insert key key (record { msg = msg; send = now; num_retry = 0 }) s.send_buff)

-- What a round does with an entry whose time is over, and with the entries after one.
abbrev late_entry :
    ℕ
    → Entry
    → (max_num_retry : ℕ) → Result (List Meta × Map Entry)
    → Result (List Meta × Map Entry)
late_entry key e max_num_retry rest =
    check (ltb (e.num_retry + 1) max_num_retry)
    >> (rest >>= (λ r. ok (e.msg ∷ r.0, (key, record e { num_retry = e.num_retry + 1 }) ∷ r.1)))

late_entry-ok :
    (key : ℕ) (e : Entry) (max_num_retry : ℕ) (rest : Result (List Meta × Map Entry))
    (r : List Meta × Map Entry)
    → late_entry key e max_num_retry rest ≡ ok r
    → (before : List Meta × Map Entry) × (rest ≡ ok before) × (r.0 ≡ e.msg ∷ before.0)
late_entry-ok key e max_num_retry rest r made =
    let (u, few, later) = bind-ok (check (ltb (e.num_retry + 1) max_num_retry)) _ r made in
    let (before, is, all) = bind-ok rest _ r later in
    (before, is, ap (λ p. p.0) (sym (ok-injective all)))

monitor_entries-sends :
    (timeout max_num_retry now key : ℕ) (entries : Map Entry) (e : Entry)
    (r : List Meta × Map Entry)
    → find key entries ≡ some e
    → ltb (e.send + timeout * (1 + e.num_retry)) now ≡ true
    → monitor_entries timeout max_num_retry now entries ≡ ok r
    → (before after : List Meta) × (r.0 ≡ before ++ e.msg ∷ after)
unfolding monitor_entries find
monitor_entries-sends timeout max_num_retry now key [] e r found late made = absurd (ground arith)
monitor_entries-sends timeout max_num_retry now key ((k, x) ∷ entries) e r found late made =
    let rest = monitor_entries timeout max_num_retry now entries in
    elim (Bool-cases (ltb (x.send + timeout * (1 + x.num_retry)) now)) [
      | inl here ↦
          let (more, is, all) = late_entry-ok k x max_num_retry rest r (rw here at made) in
          elim (Bool-cases (k == key)) [
            | inl same ↦
                let one : x ≡ e = some-injective (rw same at found) in
                ([], more.0, all ∙ ap (λ y. y.msg ∷ more.0) one)
            | inr differ ↦
                let (before, after, eq) =
                  monitor_entries-sends timeout max_num_retry now key entries e more
                    (rw differ at found) late is in
                (x.msg ∷ before, after, all ∙ ap (λ l. x.msg ∷ l) eq)
          ]
      | inr early ↦
          let (more, is, all) = bind-ok rest (λ p. ok (p.0, (k, x) ∷ p.1)) r (rw early at made) in
          elim (Bool-cases (k == key)) [
            | inl same ↦
                let one : x ≡ e = some-injective (rw same at found) in
                let late_too : ltb (x.send + timeout * (1 + x.num_retry)) now ≡ true =
                  ap (λ y. ltb (y.send + timeout * (1 + y.num_retry)) now) one ∙ late in
                absurd (ground arith)
            | inr differ ↦
                let (before, after, eq) =
                  monitor_entries-sends timeout max_num_retry now key entries e more
                    (rw differ at found) late is in
                (before, after, sym (ap (λ p. p.0) (ok-injective all)) ∙ eq)
          ]
    ]

-- A message that was not in the buffer under its key is sent: it stands there, and a round of the
-- monitor more than the timeout later, if it passes its check, sends it again. An acknowledgement
-- with its key takes it out of the buffer, and leaves the others as before.
pub add_incomming-ack :
    (id : ℕ) (s s' : Resender) (msg answer : Meta) (key now later other : ℕ)
    (round : List Meta × Resender)
    → is_cmd msg.control.cmd ack ≡ false
    → get_key id msg ≡ ok key
    → find key s.send_buff ≡ none
    → add_outgoing id s msg now ≡ ok s'
    → now + s.timeout < later
    → monitoring_round s' later ≡ ok round
    → is_cmd answer.control.cmd terminate ≡ false
    → is_cmd answer.control.cmd ack ≡ true
    → answer.control.msg_sig ≡ key
    → (find key s'.send_buff ≡ some (record { msg = msg; send = now; num_retry = 0 }))
      × (before : List Meta) × (after : List Meta) × (round.0 ≡ before ++ msg ∷ after)
      × (s'' : Resender) × (add_incomming id s' answer ≡ ok (s'', true, []))
      × (find other s''.send_buff ≡ (if key == other then none else find other s'.send_buff))
unfolding add_outgoing add_incomming monitoring_round buffer
add_incomming-ack id s s' msg answer key now later other round plain has_key new sent over made
      goes_on is_ack sig =
    let is : buffer s msg key now none ≡ s' =
      ok-injective
        (ap (λ o. ok (buffer s msg key now o)) (sym new) ∙ (rw (plain, has_key) at sent)) in
    let there : find key s'.send_buff ≡ some (record { msg = msg; send = now; num_retry = 0 }) =
      ap (λ r. find key r.send_buff) (sym is) ∙ buffer-new s msg key now in
    let (r, sends, all) =
      bind-ok (monitor_entries s'.timeout s'.max_num_retry later s'.send_buff) _ round made in
    let late : ltb (now + s'.timeout * (1 + 0)) later ≡ true =
      ap (λ q. ltb (now + q.timeout * (1 + 0)) later) (sym is) ∙ ground arith in
    let (before, after, eq) =
      monitor_entries-sends s'.timeout s'.max_num_retry later key s'.send_buff
        (record { msg = msg; send = now; num_retry = 0 }) r there late sends in
    (
      there,
      before,
      after,
      sym (ap (λ p. p.0) (ok-injective all)) ∙ eq,
      record s' { send_buff = erase answer.control.msg_sig s'.send_buff },
      rw (goes_on, is_ack),
      find-erase answer.control.msg_sig other s'.send_buff
          ∙ ap (λ k. if k == other then none else find other s'.send_buff) sig,
    )
