-- ===== src/Tensor/Parts.antt =====
-- Which tensors `ZBatchPushPull_` sends to each server (include/ps/af_tensor_app.h).
use native.Mathlib.Nat.{mul-div_cancel}
use step_mesh.Prelude.{
  ℕ, zero, suc, ◌+◌, ◌*◌, ◌/◌, ◌<◌, ◌≡◌, refl, sym, ap, ◌∙◌, Bool, true, false, ◌&&◌, List, [], ◌∷◌,
  ◌++◌, arith, ltb, leb, ◌==◌, if◌then◌else◌, length, take, drop, Bool-cases, inl, inr,
}
use step_mesh.Prelude.Result.{Result, ok, check, bind-ok, ok-injective, ◌>>=◌}
use step_mesh.Tensor.{
  KeyTensor, AfTensorRequest, Sent, z_push, z_pull, at, push_flag, pull_flag, push_loop, pull_loop,
  is_nil, send_single, send_batch,
}

module _ {T : Type 0} where
  -- The messages to server `s`.
  abbrev pub to_server : ℕ → List (Sent T) → List (Sent T)
  to_server s [] = []
  to_server s (m ∷ ms) = if m.server == s then m ∷ to_server s ms else to_server s ms

  -- The tensors of messages, each with whether it is pushed.
  abbrev pub seen : List (Sent T) → List (Bool × KeyTensor T)
  seen [] = []
  seen (m ∷ ms) = (m.push, record { key = m.key; val = m.tensor }) ∷ seen ms

  abbrev pub tagged : Bool → List (KeyTensor T) → List (Bool × KeyTensor T)
  tagged b [] = []
  tagged b (t ∷ ts) = (b, t) ∷ tagged b ts

  abbrev pub only : Bool → List (Bool × KeyTensor T) → List (KeyTensor T)
  only b [] = []
  only true ((true, t) ∷ l) = t ∷ only true l
  only true ((false, t) ∷ l) = only true l
  only false ((true, t) ∷ l) = only false l
  only false ((false, t) ∷ l) = t ∷ only false l

  seen-append :
      (s : ℕ) (a b : List (Sent T))
      → seen (to_server s (a ++ b)) ≡ seen (to_server s a) ++ seen (to_server s b)
  seen-append s [] b = refl
  seen-append s (m ∷ a) b = ground (arith, seen-append s a b)

  tagged-append :
      (b : Bool) (l k : List (KeyTensor T)) → tagged b (l ++ k) ≡ tagged b l ++ tagged b k
  tagged-append b [] k = refl
  tagged-append b (t ∷ l) k = ap (λ r. (b, t) ∷ r) (tagged-append b l k)

  seen-z_push :
      (s rounds i ts key : ℕ) (tensor : T) (cmd : ℕ)
      → seen (to_server s (z_push rounds i ts key tensor cmd)) ≡ (
          if leb i s && ltb s (i + rounds)
          then (true, record { key = key; val = tensor }) ∷ []
          else [])
  unfolding z_push
  seen-z_push s zero i ts key tensor cmd = ground arith
  seen-z_push s (suc rounds) i ts key tensor cmd =
      ground (arith, seen-z_push s rounds (i + 1) ts key tensor cmd)

  take_none : (l : List (KeyTensor T)) → take 0 l ≡ []
  take_none [] = refl
  take_none (x ∷ l) = refl

  take_one-at :
      (l : List (KeyTensor T)) (n : ℕ) (t : KeyTensor T)
      → at l n ≡ ok t
      → take 1 (drop n l) ≡ t ∷ []
  take_one-at [] zero t e = absurd (ground arith)
  take_one-at [] (suc n) t e = absurd (ground arith)
  take_one-at (x ∷ l) zero t e = ap (λ y. y ∷ []) (ok-injective e)
  take_one-at (x ∷ l) (suc n) t e = take_one-at l n t e

  take-step :
      (l : List (KeyTensor T)) (n k : ℕ)
      → take 1 (drop n l) ++ take k (drop (suc n) l) ≡ take (suc k) (drop n l)
  take-step [] zero zero = refl
  take-step [] zero (suc k) = refl
  take-step [] (suc n) zero = refl
  take-step [] (suc n) (suc k) = refl
  take-step (x ∷ l) zero k = refl
  take-step (x ∷ l) (suc n) k = take-step l n k

  -- One more message in front, to server `i`.
  seen-next :
      (s i rounds ts cmd : ℕ) (t : KeyTensor T) (rest : List (Sent T)) (one : List (KeyTensor T))
      → (i ≡ s → one ≡ t ∷ [])
      → seen (to_server s rest)
        ≡ (if leb (i + 1) s && ltb s (i + 1 + rounds) then tagged false one else [])
      → seen (
          to_server s (
            record {
              server = i;
              head = cmd;
              push = false;
              timestamp = ts;
              key = t.key;
              tensor = t.val;
            }
            ∷ rest))
        ≡ (if leb i s && ltb s (i + suc rounds) then tagged false one else [])
  seen-next s i rounds ts cmd t rest one mine others = elim (Bool-cases (i == s)) [
    | inl e ↦
        let same : i ≡ s = ground arith in
        let after : leb (i + 1) s ≡ false = ground arith in
        let low : leb i s ≡ true = ground arith in
        let high : ltb s (i + suc rounds) ≡ true = ground arith in
        rw (e, low, high)
          (ap (λ l. (false, t) ∷ l) (others ∙ rw after refl) ∙ ap (tagged false) (sym (mine same)))
    | inr e ↦
        let low : leb (i + 1) s ≡ leb i s = ground arith in
        let high : ltb s (i + 1 + rounds) ≡ ltb s (i + suc rounds) = ground arith in
        rw e (others ∙ rw (low, high) refl)
  ]

  seen-z_pull :
      (s q rounds i ts : ℕ) (pull : List (KeyTensor T)) (index cmd : ℕ) (sent : List (Sent T))
      → z_pull q rounds i ts pull index cmd ≡ ok sent
      → seen (to_server s sent) ≡ (
          if leb i s && ltb s (i + rounds)
          then tagged false (take 1 (drop (s * q + index) pull))
          else [])
  unfolding z_pull
  seen-z_pull s q zero i ts pull index cmd sent e =
      ap (λ l. seen (to_server s l)) (sym (ok-injective e)) ∙ ground arith
  seen-z_pull s q (suc rounds) i ts pull index cmd sent e =
      let (t, found, e1) = bind-ok (at pull (i * q + index)) _ sent e in
      let (rest, made, e2) = bind-ok (z_pull q rounds (i + 1) ts pull index cmd) _ sent e1 in
      let one = take 1 (drop (s * q + index) pull) in
      let mine : i ≡ s → one ≡ t ∷ [] = λ same.
        ap (λ j. take 1 (drop (j * q + index) pull)) (sym same)
        ∙ take_one-at pull (i * q + index) t found in
      ap (λ l. seen (to_server s l)) (sym (ok-injective e2))
      ∙ seen-next s i rounds ts cmd t rest one mine
          (seen-z_pull s q rounds (i + 1) ts pull index cmd rest made)

  seen-push_loop :
      (s servers : ℕ) (no_pull : Bool) (n i : ℕ) (push : List (KeyTensor T)) (stamps : List ℕ)
      (sent : List (Sent T))
      → s < servers
      → push_loop servers no_pull n i push stamps ≡ ok sent
      → seen (to_server s sent) ≡ tagged true push
  unfolding push_loop
  seen-push_loop s servers no_pull n i [] stamps sent lt e =
      ap (λ l. seen (to_server s l)) (sym (ok-injective e))
  seen-push_loop s servers no_pull n i (t ∷ ts) [] sent lt e = absurd (ground arith)
  seen-push_loop s servers no_pull n i (t ∷ ts) (stamp ∷ stamps) sent lt e =
      let flag = push_flag no_pull n i in
      let (rest, made, e1) = bind-ok (push_loop servers no_pull n (i + 1) ts stamps) _ sent e in
      let here : seen (to_server s (z_push servers 0 stamp t.key t.val flag)) ≡ (true, t) ∷ [] =
        ground (arith, seen-z_push s servers 0 stamp t.key t.val flag) in
      ap (λ l. seen (to_server s l)) (sym (ok-injective e1))
      ∙ seen-append s _ rest
      ∙ ap (λ l. l ++ seen (to_server s rest)) here
      ∙ ap (λ l. (true, t) ∷ l) (seen-push_loop s servers no_pull n (i + 1) ts stamps rest lt made)

  seen-pull_loop :
      (s servers : ℕ) (first : Bool) (n rounds i : ℕ) (pull : List (KeyTensor T)) (stamps : List ℕ)
      (sent : List (Sent T))
      → s < servers
      → pull_loop servers first n rounds i pull stamps ≡ ok sent
      → seen (to_server s sent) ≡ tagged false (take rounds (drop (s * n + i) pull))
  unfolding pull_loop
  seen-pull_loop s servers first n zero i pull stamps sent lt e =
      ap (λ l. seen (to_server s l)) (sym (ok-injective e))
      ∙ ap (tagged false) (sym (take_none (drop (s * n + i) pull)))
  seen-pull_loop s servers first n (suc rounds) i pull [] sent lt e = absurd (ground arith)
  seen-pull_loop s servers first n (suc rounds) i pull (stamp ∷ stamps) sent lt e =
      let flag = pull_flag first n i in
      let (now, made_now, e1) = bind-ok (z_pull n servers 0 stamp pull i flag) _ sent e in
      let (rest, made, e2) =
        bind-ok (pull_loop servers first n rounds (i + 1) pull stamps) _ sent e1 in
      let one = take 1 (drop (s * n + i) pull) in
      let more = take rounds (drop (suc (s * n + i)) pull) in
      let here : seen (to_server s now) ≡ tagged false one =
        ground (arith, seen-z_pull s n servers 0 stamp pull i flag now made_now) in
      let there : seen (to_server s rest) ≡ tagged false more =
        seen-pull_loop s servers first n rounds (i + 1) pull stamps rest lt made
        ∙ ap (λ k. tagged false (take rounds (drop k pull))) {x = s * n + (i + 1)}
            {y = suc (s * n + i)} (omega arith) in
      ap (λ l. seen (to_server s l)) (sym (ok-injective e2))
      ∙ seen-append s now rest
      ∙ rw (here, there) (sym (tagged-append false one more))
      ∙ ap (tagged false) (take-step pull (s * n + i) rounds)

  -- The messages of a batch that is sent without a fault, at one server: all pushes in order, and
  -- then the server's own part of the pulls.
  pub seen-send_batch :
      (servers s q : ℕ) (req : AfTensorRequest T) (sent : List (Sent T))
      → s < servers
      → length req.pull ≡ q * servers
      → ((length req.push + length req.pull) == 1) ≡ false
      → send_batch servers req ≡ ok sent
      → seen (to_server s sent)
        ≡ tagged true req.push ++ tagged false (take q (drop (s * q) req.pull))
  unfolding send_batch
  seen-send_batch servers s q req sent lt full many e =
      let n : length req.pull / servers ≡ q =
        ap (λ l. l / servers) full ∙ mul-div_cancel q (omega arith) in
      let (u, some_tensor, e1) =
        bind-ok (check (leb 1 (length req.push + length req.pull))) _ sent e in
      let (v, some_server, e2) = bind-ok (check (ltb 0 servers)) _ sent e1 in
      let loops : Result (List (Sent T)) =
        push_loop servers (is_nil req.pull) (length req.push) 0 req.push req.push_timestamps
        >>= (λ pushes.
            pull_loop servers (is_nil req.push) (length req.pull / servers)
              (length req.pull / servers) 0 req.pull req.pull_timestamps
            >>= (λ pulls. ok (pushes ++ pulls))) in
      let e3 : loops ≡ ok sent =
        sym (ap (λ b. if b then send_single servers req else loops) many) ∙ e2 in
      let (pushes, made_push, e4) =
        bind-ok
          (push_loop servers (is_nil req.pull) (length req.push) 0 req.push req.push_timestamps) _
          sent e3 in
      let (pulls, made_pull, e5) =
        bind-ok
          (pull_loop servers (is_nil req.push) (length req.pull / servers)
            (length req.pull / servers) 0 req.pull req.pull_timestamps)
          _ sent e4 in
      ap (λ l. seen (to_server s l)) (sym (ok-injective e5))
      ∙ seen-append s pushes pulls
      ∙ rw
          (
            seen-push_loop s servers _ _ 0 req.push req.push_timestamps pushes lt made_push,
            seen-pull_loop s servers _ _ _ 0 req.pull req.pull_timestamps pulls lt made_pull,
            n,
          )
          (ap (λ k. tagged true req.push ++ tagged false (take q (drop k req.pull))) {x = s * q + 0}
            {y = s * q} (omega arith))
