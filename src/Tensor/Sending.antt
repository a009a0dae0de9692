-- ===== src/Tensor/Sending.antt =====
-- `ZBatchPushPull` and `ZBatchPushPull_`: the flags with which each server sees a batch arrive.
use mathlib.Core.Path.{subst}
use native.Mathlib.Nat.{mul-le-mul_left, mul-div_cancel}
use step_mesh.Prelude.{
  ℕ, zero, suc, ◌+◌, ◌*◌, ◌/◌, ◌≤◌, ◌<◌, ◌≡◌, refl, sym, ap, ◌∙◌, Bool, true, false, ◌&&◌, some,
  List, [], ◌∷◌, ◌++◌, arith, ltb, leb, ◌==◌, if◌then◌else◌, length, get_elem?,
}
use step_mesh.Prelude.Result.{ok}
use step_mesh.Tensor.{
  KeyTensor, AfTensorRequest, Sent, z_batch_push_pull, z_push, z_pull, or_fatal, push_flag,
  pull_flag, push_loop, pull_loop, is_nil, send_batch,
}
use step_mesh.Tensor.Timestamps.{count_from, length-count_from, split_first, z_batch_push_pull-made}
use step_mesh.Tensor.Flags.{numbered, IsFlags, flags, flags-IsFlags}

found_at : {A : Type 0} (l : List A) (n : ℕ) → n < length l → (x : A) × (get_elem? l n ≡ some x)
found_at [] n lt = absurd (omega arith)
found_at (x ∷ l) zero lt = (x, refl)
found_at (x ∷ l) (suc n) lt = found_at l n (omega arith)

module _ {T : Type 0} where
  -- The flags of the messages to server `s`, in order.
  abbrev pub heads : ℕ → List (Sent T) → List ℕ
  heads s [] = []
  heads s (m ∷ ms) = if m.server == s then m.head ∷ heads s ms else heads s ms

  heads-append : (s : ℕ) (a b : List (Sent T)) → heads s (a ++ b) ≡ heads s a ++ heads s b
  heads-append s [] b = refl
  heads-append s (m ∷ a) b = ground (arith, heads-append s a b)

  heads-z_push :
      (s rounds i ts key : ℕ) (tensor : T) (cmd : ℕ)
      → heads s (z_push rounds i ts key tensor cmd)
        ≡ (if leb i s && ltb s (i + rounds) then cmd ∷ [] else [])
  unfolding z_push
  heads-z_push s zero i ts key tensor cmd = ground arith
  heads-z_push s (suc rounds) i ts key tensor cmd =
      ground (arith, heads-z_push s rounds (i + 1) ts key tensor cmd)

  heads-z_pull :
      (s pull_batch_size rounds i ts : ℕ) (pull : List (KeyTensor T)) (index cmd : ℕ)
      → index < pull_batch_size
      → (i + rounds) * pull_batch_size ≤ length pull
      → (sent : List (Sent T)) × (z_pull pull_batch_size rounds i ts pull index cmd ≡ ok sent)
        × (heads s sent ≡ (if leb i s && ltb s (i + rounds) then cmd ∷ [] else []))
  unfolding z_pull
  heads-z_pull s q zero i ts pull index cmd lt enough = ([], refl, ground arith)
  heads-z_pull s q (suc rounds) i ts pull index cmd lt enough =
      let (t, found) = found_at pull (i * q + index) (omega arith) in
      let (sent, made, seen) = heads-z_pull s q rounds (i + 1) ts pull index cmd lt (omega arith) in
      (
        record { server = i; head = cmd; push = false; timestamp = ts; key = t.key; tensor = t.val }
            ∷ sent,
        rw (ap or_fatal found, made),
        ground (arith, seen),
      )

  heads-push_loop :
      (s servers : ℕ) (no_pull : Bool) (n i : ℕ) (push : List (KeyTensor T)) (stamps : List ℕ)
      → s < servers
      → length stamps ≡ length push
      → (sent : List (Sent T)) × (push_loop servers no_pull n i push stamps ≡ ok sent)
        × (heads s sent ≡ numbered (push_flag no_pull n) (length push) i)
  unfolding push_loop
  heads-push_loop s servers no_pull n i [] stamps lt same = ([], refl, refl)
  heads-push_loop s servers no_pull n i (t ∷ ts) [] lt same = absurd (omega arith)
  heads-push_loop s servers no_pull n i (t ∷ ts) (stamp ∷ stamps) lt same =
      let flag = push_flag no_pull n i in
      let (sent, made, seen) =
        heads-push_loop s servers no_pull n (i + 1) ts stamps lt (omega arith) in
      let here : heads s (z_push servers 0 stamp t.key t.val flag) ≡ flag ∷ [] =
        ground (arith, heads-z_push s servers 0 stamp t.key t.val flag) in
      (z_push servers 0 stamp t.key t.val flag ++ sent, rw made, rw (heads-append, here, seen))

  heads-pull_loop :
      (s servers : ℕ) (first : Bool) (n rounds i : ℕ) (pull : List (KeyTensor T)) (stamps : List ℕ)
      → s < servers
      → length stamps ≡ rounds
      → i + rounds ≡ n
      → servers * n ≤ length pull
      → (sent : List (Sent T)) × (pull_loop servers first n rounds i pull stamps ≡ ok sent)
        × (heads s sent ≡ numbered (pull_flag first n) rounds i)
  unfolding pull_loop
  heads-pull_loop s servers first n zero i pull stamps lt same to enough = ([], refl, refl)
  heads-pull_loop s servers first n (suc rounds) i pull [] lt same to enough = absurd (omega arith)
  heads-pull_loop s servers first n (suc rounds) i pull (stamp ∷ stamps) lt same to enough =
      let flag = pull_flag first n i in
      let (now, made_now, seen_now) =
        heads-z_pull s n servers 0 stamp pull i flag (omega arith) (omega arith) in
      let (sent, made, seen) =
        heads-pull_loop s servers first n rounds (i + 1) pull stamps lt (omega arith) (omega arith)
          enough in
      let here : heads s now ≡ flag ∷ [] = ground (arith, seen_now) in
      (now ++ sent, rw (made_now, made), rw (heads-append, here, seen))

pub pulls_each : (q servers n : ℕ) → n ≡ q * servers → 1 ≤ servers → q ≤ n
pulls_each q servers n full some_server = omega (arith, mul-le-mul_left q some_server)

is_nil-length : {A : Type 0} (l : List A) (n : ℕ) → (length l == 0) ≡ (n == 0) → is_nil l ≡ (n == 0)
is_nil-length [] n e = e
is_nil-length (x ∷ l) n e = ground (arith, e)

module _ {T : Type 0} where
  send_batch-parts :
      (servers n : ℕ) (no_pull no_push : Bool) (req : AfTensorRequest T)
      (pushes pulls : List (Sent T))
      → ltb 0 servers ≡ true
      → leb 1 (length req.push + length req.pull) ≡ true
      → (length req.push + length req.pull == 1) ≡ false
      → is_nil req.pull ≡ no_pull
      → is_nil req.push ≡ no_push
      → length req.pull / servers ≡ n
      → push_loop servers no_pull (length req.push) 0 req.push req.push_timestamps ≡ ok pushes
      → pull_loop servers no_push n n 0 req.pull req.pull_timestamps ≡ ok pulls
      → send_batch servers req ≡ ok (pushes ++ pulls)
  unfolding send_batch
  send_batch-parts servers n no_pull no_push req pushes pulls a b c d e f g h =
      rw (a, b, c, d, e, f, g, h)

  -- What each server sees of a batch made by `z_batch_push_pull`.
  send_batch-flags :
      (servers next s q : ℕ) (push pull : List (KeyTensor T))
      → s < servers
      → length pull ≡ q * servers
      → (length push + length pull == 1) ≡ false
      → 1 ≤ length push + length pull
      → (req : AfTensorRequest T) × (start : ℕ) × (others : List ℕ) × (z_batch_push_pull servers
            next push pull
          ≡ ok (req, start, others))
        × (sent : List (Sent T)) × (send_batch servers req ≡ ok sent)
        × (heads s sent ≡ flags (length push) q)
  send_batch-flags servers next s q push pull lt full many some_tensor =
      let n : length pull / servers ≡ q =
        ap (λ l. l / servers) full ∙ mul-div_cancel q (omega arith) in
      let some_server : ltb 0 servers ≡ true = ground arith in
      let not_empty : leb 1 (length push + length pull) ≡ true = ground arith in
      let no_pull : is_nil pull ≡ (q == 0) = is_nil-length pull q (
        ground (
          arith,
          full,
          pulls_each q servers (length pull) full (omega arith),
          ap (λ k. k * servers) {x = q} {y = 0},
        )) in
      let no_push : is_nil push ≡ (length push == 0) = is_nil-length push (length push) refl in
      let push_ts : List ℕ = count_from next (length push) in
      let pull_ts : List ℕ = count_from (next + length push) q in
      let (pushes, made_push, seen_push) =
        heads-push_loop s servers (q == 0) (length push) 0 push push_ts lt
          (length-count_from next (length push)) in
      let (pulls, made_pull, seen_pull) =
        heads-pull_loop s servers (length push == 0) q q 0 pull pull_ts lt
          (length-count_from (next + length push) q) (omega arith) (omega arith) in
      (
        record { push = push; pull = pull; push_timestamps = push_ts; pull_timestamps = pull_ts },
        (split_first (count_from next (length push + q))).0,
        (split_first (count_from next (length push + q))).1,
        z_batch_push_pull-made servers next q push pull some_server n,
        pushes ++ pulls,
        send_batch-parts servers q (q == 0) (length push == 0) _ pushes pulls some_server not_empty
            many no_pull no_push n made_push made_pull,
        rw (heads-append, seen_push, seen_pull),
      )

  -- A batch of at least two messages to each server, with as many pulls for each server: the handle
  -- and the request are made, the request is sent without a fault, and every server sees one start
  -- flag first, then middle flags, and one end flag last.
  pub send_batch-IsFlags :
      (servers next s q : ℕ) (push pull : List (KeyTensor T))
      → s < servers
      → length pull ≡ q * servers
      → 2 ≤ length push + q
      → (req : AfTensorRequest T) × (start : ℕ) × (others : List ℕ) × (z_batch_push_pull servers
            next push pull
          ≡ ok (req, start, others))
        × (sent : List (Sent T)) × (send_batch servers req ≡ ok sent)
        × IsFlags (heads s sent)
  send_batch-IsFlags servers next s q push pull lt full many =
      let more : q ≤ length pull = pulls_each q servers (length pull) full (omega arith) in
      let (req, start, others, made, sent, done, seen) =
        send_batch-flags servers next s q push pull lt full (ground arith) (omega arith) in
      (
        req,
        start,
        others,
        made,
        sent,
        done,
        subst IsFlags (sym seen) (flags-IsFlags (length push) q many),
      )

  -- With at least two servers, no push and one pull from each server, every server sees only a start
  -- flag: the batch is never ended.
  pub send_batch-never_ends :
      (servers next s : ℕ) (pull : List (KeyTensor T))
      → s < servers
      → 2 ≤ servers
      → length pull ≡ servers
      → (req : AfTensorRequest T) × (start : ℕ) × (others : List ℕ) × (z_batch_push_pull servers
            next [] pull
          ≡ ok (req, start, others))
        × (sent : List (Sent T)) × (send_batch servers req ≡ ok sent)
        × (heads s sent ≡ 1 ∷ [])
  unfolding pull_flag
  send_batch-never_ends servers next s pull lt many full =
      send_batch-flags servers next s 1 [] pull lt (omega arith) (ground arith) (omega arith)
