-- ===== src/Van/Complete.antt =====
-- The registration that completes the job, at the scheduler.
use step_mesh.Postoffice.Groups.{get_node_ids-found}
use mathlib.Core.Path.{subst}
use step_mesh.Prelude.{
  ◌<◌, ℕ, ◌+◌, ◌≡◌, ◌∙◌, refl, sym, ap, true, false, some, List, [], ◌∷◌, ◌++◌, map, arith, All,
  length, ltb, ◌==◌, ==_iff, Bool-cases, inl, inr, ◌⊎◌, ◌≤◌,
}
use step_mesh.Prelude.Result.{ok}
use step_mesh.Prelude.Sort.{
  AreDistinct, Permutes, All-Permutes, sort_by, sort_by-Permutes, IsChain, sort_by-IsChain,
}
use step_mesh.Message.{Node, Meta}
use step_mesh.Postoffice.{Postoffice}
use step_mesh.Van.Order.{
  by_address, less_address, less_text, same_text, has_rank, with_preferred_rank, check_ranks,
}
use step_mesh.Van.Recovery.{and_true}
use step_mesh.Van.Registration.{assign_ids, Registry, complete, send_lists, find_address}
use step_mesh.Van.Ranks.{
  numbered, IsNew, AreApart, AreStrangers, same_address, assign_ids-numbered, AreDistinct-numbered,
}

same_text_comm : (a b : List ℕ) → same_text a b ≡ same_text b a
unfolding same_text
same_text_comm [] [] = refl
same_text_comm [] (y ∷ ys) = refl
same_text_comm (x ∷ xs) [] = refl
same_text_comm (x ∷ xs) (y ∷ ys) = ground (arith, same_text_comm xs ys)

same_address_comm : (n m : Node) → same_address n m ≡ false → same_address m n ≡ false
same_address_comm n m h = ground (arith, same_text_comm n.hostname m.hostname)

AreApart-Permutes : {xs ys : List Node} → Permutes xs ys → AreApart xs → AreApart ys
AreApart-Permutes Permutes.done h = tt
AreApart-Permutes (Permutes.keep x p) h =
    (All-Permutes (λ m. same_address x m ≡ false) p h.0, AreApart-Permutes p h.1)
AreApart-Permutes (Permutes.swap x y xs) h = ((same_address_comm x y h.0.0, h.1.0), (h.0.1, h.1.1))
AreApart-Permutes (Permutes.after p q) h = AreApart-Permutes q (AreApart-Permutes p h)

Permutes-sym : {A : Type 0} {xs ys : List A} → Permutes xs ys → Permutes ys xs
Permutes-sym Permutes.done = Permutes.done
Permutes-sym (Permutes.keep x p) = Permutes.keep x (Permutes-sym p)
Permutes-sym (Permutes.swap x y xs) = Permutes.swap y x xs
Permutes-sym (Permutes.after p q) = Permutes.after (Permutes-sym q) (Permutes-sym p)

with_preferred_rank-none :
    (nodes : List Node) → All (λ n. has_rank n ≡ false) nodes → with_preferred_rank nodes ≡ false
unfolding with_preferred_rank
with_preferred_rank-none [] h = refl
with_preferred_rank-none (n ∷ nodes) h = rw (h.0) (with_preferred_rank-none nodes h.1)

check_ranks-none :
    (po : Postoffice) (nodes : List Node)
    → with_preferred_rank nodes ≡ false
    → check_ranks po nodes ≡ ok tt
unfolding check_ranks
check_ranks-none po nodes h = rw h refl

AreStrangers-none : (nodes : List Node) → AreStrangers [] nodes
unfolding find_address
AreStrangers-none [] = tt
AreStrangers-none (n ∷ nodes) = (refl, AreStrangers-none nodes)

-- With no shared nodes all are sent to.
send_lists-All :
    (nodes : List Node) (timestamp : ℕ) (ids : List ℕ)
    → (map (λ m. m.recver) (send_lists nodes [] timestamp ids) ≡ ids)
      × All (λ m. m.control.node ≡ nodes) (send_lists nodes [] timestamp ids)
unfolding send_lists
send_lists-All nodes timestamp [] = (refl, tt)
send_lists-All nodes timestamp (r ∷ ids) =
    let (to, lists) = send_lists-All nodes (timestamp + 1) ids in
    (ap (λ l. r ∷ l) to, (refl, lists))

-- The lexicographic order of texts.
abbrev pub IsLess : List ℕ → List ℕ → Type 0
IsLess [] [] = ⊥
IsLess [] (y ∷ ys) = Unit
IsLess (x ∷ xs) [] = ⊥
IsLess (x ∷ xs) (y ∷ ys) = (x < y) ⊎ ((x ≡ y) × IsLess xs ys)

less_text-IsLess : (a b : List ℕ) → less_text a b ≡ true → IsLess a b
unfolding less_text
less_text-IsLess [] [] e = absurd (ground arith)
less_text-IsLess [] (y ∷ ys) e = tt
less_text-IsLess (x ∷ xs) [] e = absurd (ground arith)
less_text-IsLess (x ∷ xs) (y ∷ ys) e = elim (Bool-cases (x == y)) [
  | inl same ↦ inr ((==_iff x y).0 same, less_text-IsLess xs ys (rw same at e))
  | inr differ ↦ let first : ltb x y ≡ true = rw differ at e in inl (ground arith)
]

-- Descending hosts, as the sign of `compare` has it, and ascending ports at one host.
abbrev pub IsBefore : Node → Node → Type 0
IsBefore a b = IsLess b.hostname a.hostname ⊎ ((a.hostname ≡ b.hostname) × (a.port ≤ b.port))

same_text-same : (a b : List ℕ) → same_text a b ≡ true → a ≡ b
unfolding same_text
same_text-same [] [] e = refl
same_text-same [] (y ∷ ys) e = absurd (ground arith)
same_text-same (x ∷ xs) [] e = absurd (ground arith)
same_text-same (x ∷ xs) (y ∷ ys) e =
    let (first, others) = and_true (x == y) (same_text xs ys) e in
    ap (λ k. k ∷ xs) ((==_iff x y).0 first) ∙ ap (λ l. y ∷ l) (same_text-same xs ys others)

same_text_refl : (a : List ℕ) → same_text a a ≡ true
unfolding same_text
same_text_refl [] = refl
same_text_refl (x ∷ xs) = ground (arith, same_text_refl xs)

less_text-or : (a b : List ℕ) → less_text a b ≡ false → (less_text b a ≡ true) ⊎ (a ≡ b)
unfolding less_text
less_text-or [] [] e = inr refl
less_text-or [] (y ∷ ys) e = absurd (ground arith)
less_text-or (x ∷ xs) [] e = inl refl
less_text-or (x ∷ xs) (y ∷ ys) e = elim (Bool-cases (x == y)) [
  | inl same ↦
      let one : x ≡ y = (==_iff x y).0 same in
      let back : (y == x) ≡ true = ground arith in
      elim (less_text-or xs ys (rw same at e)) [
        | inl more ↦ inl (rw back more)
        | inr is ↦ inr (ap (λ k. k ∷ xs) one ∙ ap (λ l. y ∷ l) is)
      ]
  | inr differ ↦
      let later : ltb x y ≡ false = rw differ at e in
      let back : (y == x) ≡ false = ground arith in inl (rw back (ground arith))
]

less_address-before : (a b : Node) → less_address a b ≡ true → IsBefore a b
unfolding less_address
less_address-before a b e = elim (Bool-cases (less_text b.hostname a.hostname)) [
  | inl host ↦ inl (less_text-IsLess b.hostname a.hostname host)
  | inr no_host ↦
      let (same, port) =
        and_true (same_text a.hostname b.hostname) (ltb a.port b.port) (rw no_host at e) in
      inr (same_text-same a.hostname b.hostname same, ground arith)
]

less_address-otherwise : (a b : Node) → less_address b a ≡ false → IsBefore a b
unfolding less_address
less_address-otherwise a b e = elim (Bool-cases (less_text a.hostname b.hostname)) [
  | inl host ↦ absurd (ground arith)
  | inr no_host ↦ elim (less_text-or a.hostname b.hostname no_host) [
    | inl host ↦ inl (less_text-IsLess b.hostname a.hostname host)
    | inr same ↦
        let equal : same_text b.hostname a.hostname ≡ true =
          ap (λ h. same_text b.hostname h) same ∙ same_text_refl b.hostname in
        inr (same, ground arith)
  ]
]

-- What the scheduler has when the last node has registered.
pub record IsComplete (before reg : Registry) (ids : List ℕ) (sent : List Meta) : Type 0 where
  pub ordered : List Node
  pub same_nodes : Permutes ordered before.nodes
  pub in_order : IsChain IsBefore ordered
  pub nodes : reg.nodes ≡ numbered 0 0 ordered ++ before.my_node ∷ []
  pub distinct : AreDistinct (λ n. n.id) (numbered 0 0 ordered)
  pub receivers : map (λ m. m.recver) sent ≡ ids
  pub lists : All (λ m. m.control.node ≡ reg.nodes) sent
  pub ready : reg.ready ≡ true

-- The last node has registered: all have no id yet, are servers or workers at addresses of their
-- own, and prefer no rank, and the scheduler is new. Then, in the order of addresses, hosts
-- descending and ports ascending, it gives out ids that are all different, to servers and to
-- workers from rank 0 on, adds itself, and sends each id of the servers and workers one message
-- with the whole list.
pub complete-IsComplete :
    (t : ℕ) (po : Postoffice) (reg : Registry) (ids : List ℕ)
    → All IsNew reg.nodes
    → All (λ n. has_rank n ≡ false) reg.nodes
    → AreApart reg.nodes
    → reg.connected_nodes ≡ []
    → reg.shared_node_mapping ≡ []
    → reg.num_servers ≡ 0
    → reg.num_workers ≡ 0
    → po.node_ids 6 ≡ some ids
    → (po' : Postoffice) × (reg' : Registry) × (sent : List Meta) × (complete by_address t po reg
        ≡ ok (po', reg', sent))
      × IsComplete reg reg' ids sent
unfolding complete
complete-IsComplete t po reg ids new free apart fresh alone no_servers no_workers table =
    let ordered = sort_by less_address reg.nodes in
    let same = sort_by-Permutes less_address reg.nodes in
    let back = Permutes-sym same in
    let strangers =
      subst (λ known. AreStrangers known ordered) (sym fresh) (AreStrangers-none ordered) in
    let free_ordered =
      with_preferred_rank-none ordered (All-Permutes (λ n. has_rank n ≡ false) back free) in
    let (po1, reg1, made, shared, mine) =
      assign_ids-numbered t ordered po reg (All-Permutes IsNew back new)
        (AreApart-Permutes back apart) strangers in
    let all = numbered 0 0 ordered ++ reg.my_node ∷ [] in
    let sent = send_lists all [] reg1.timestamp ids in
    let from_zero : assign_ids t false ordered po reg ≡ ok (po1, reg1, numbered 0 0 ordered) =
      made
      ∙ ap (λ s. ok (po1, reg1, numbered s reg.num_workers ordered)) no_servers
      ∙ ap (λ w. ok (po1, reg1, numbered 0 w ordered)) no_workers in
    let (receivers, lists) = send_lists-All all reg1.timestamp ids in
    (
      po1,
      record reg1 { nodes = all; timestamp = reg1.timestamp + length sent; ready = true },
      sent,
      rw
          (
            check_ranks-none po ordered free_ordered,
            free_ordered,
            from_zero,
            get_node_ids-found po 6 ids table,
            mine,
            shared ∙ alone,
          )
          refl,
      record {
        ordered = ordered;
        same_nodes = same;
        in_order =
            sort_by-IsChain IsBefore less_address less_address-before less_address-otherwise
              reg.nodes;
        nodes = refl;
        distinct = AreDistinct-numbered 0 0 ordered;
        receivers = receivers;
        lists = lists;
        ready = refl;
      },
    )
