-- ===== src/Van/Order.antt =====
-- The order of the nodes that have registered, and the ranks that they prefer
-- (`ProcessAddNodeCommandAtScheduler`, src/van.cc). Strings are lists of bytes.
use step_mesh.Prelude.{
  Option, none, some, map, some, map, Option, ℕ, zero, suc, ◌+◌, ◌*◌, Bool, true, false, not, ◌&&◌,
  ◌||◌, List, [], ◌∷◌, ltb, leb, ◌==◌, if◌then◌else◌,
}
use step_mesh.Prelude.Int.{ℤ, pos, negsuc}
use step_mesh.Prelude.Result.{Result, ok, check, ◌>>◌}
use step_mesh.Prelude.Sort.{sort_by}
use step_mesh.Message.{Node, Role, server, worker, is_role}
use step_mesh.Postoffice.{Postoffice}

-- How the scheduler orders the nodes: by address, with BYTEPS_ENABLE_MIXED_MODE, or as the text
-- of BYTEPS_ORDERED_HOSTS.
pub data Order : Type 0 where
  by_address mixed : Order
  ordered_hosts : List ℕ → Order

-- With both variables set the process stops.
pub choose_order : (mixed_mode : Bool) (hosts : Option (List ℕ)) → Result Order
choose_order mixed_mode none = ok (if mixed_mode then mixed else by_address)
choose_order mixed_mode (some text) = check (not mixed_mode) >> ok (ordered_hosts text)

-- Strings.
unfoldable pub same_text : List ℕ → List ℕ → Bool
same_text [] [] = true
same_text (a ∷ xs) (b ∷ ys) = (a == b) && same_text xs ys
same_text _ _ = false

unfoldable pub less_text : List ℕ → List ℕ → Bool
less_text [] [] = false
less_text [] (b ∷ ys) = true
less_text (a ∷ xs) [] = false
less_text (a ∷ xs) (b ∷ ys) = if a == b then less_text xs ys else ltb a b

-- (a.hostname.compare(b.hostname) | (a.port < b.port)) > 0: a negative number stays negative.
unfoldable pub less_address : Node → Node → Bool
unfolding same_text less_text
less_address a b =
    less_text b.hostname a.hostname || (same_text a.hostname b.hostname && ltb a.port b.port)

pub count_host : List Node → List ℕ → ℕ
unfolding same_text
count_host [] host = 0
count_host (n ∷ nodes) host =
    if same_text n.hostname host then suc (count_host nodes host) else count_host nodes host

pub less_mixed : List Node → Node → Node → Bool
unfolding count_host less_address
less_mixed nodes a b =
    if count_host nodes a.hostname == count_host nodes b.hostname
    then less_address a b
    else ltb (count_host nodes a.hostname) (count_host nodes b.hostname)

pub all_of : (Node → Bool) → List Node → Bool
all_of test [] = true
all_of test (n ∷ nodes) = test n && all_of test nodes

abbrev pub cons_first : ℕ → List (List ℕ) → List (List ℕ)
cons_first c [] = (c ∷ []) ∷ []
cons_first c (word ∷ words) = (c ∷ word) ∷ words

-- The parts of a text between its commas.
pub split_commas : List ℕ → List (List ℕ)
split_commas [] = [] ∷ []
split_commas (c ∷ text) =
    let words = split_commas text in if c == 44 then [] ∷ words else cons_first c words

-- A part up to its first colon.
pub before_colon : List ℕ → List ℕ
before_colon [] = []
before_colon (c ∷ text) = let rest = before_colon text in if c == 58 then [] else c ∷ rest

-- ip_pos[host]; a host that is not in the list has position 0.
pub host_position : List (List ℕ) → (i : ℕ) → List ℕ → ℕ
unfolding same_text
host_position [] i host = 0
host_position (h ∷ hosts) i host = if same_text h host then i else host_position hosts (i + 1) host

pub is_host : List (List ℕ) → List ℕ → Bool
unfolding same_text
is_host [] host = false
is_host (h ∷ hosts) host = same_text h host || is_host hosts host

pub are_unique : List (List ℕ) → Bool
unfolding is_host
are_unique [] = true
are_unique (h ∷ hosts) = not (is_host hosts h) && are_unique hosts

-- The nodes in the order of their ranks, with the checks of the two special orders.
unfoldable pub order_nodes : Order → List Node → Result (List Node)
unfolding split_commas before_colon sort_by less_address less_mixed count_host all_of host_position
    are_unique
order_nodes by_address nodes = ok (sort_by less_address nodes)
order_nodes mixed nodes =
    check (all_of (λ n. leb (count_host nodes n.hostname) 2) nodes)
    >> (check (all_of (λ n. not (count_host nodes n.hostname == 1) || is_role n.role server) nodes)
        >> ok (sort_by (less_mixed nodes) nodes))
order_nodes (ordered_hosts text) nodes =
    let hosts = map before_colon (split_commas text) in
    check (are_unique hosts)
    >> ok (
        sort_by (λ a b. ltb (host_position hosts 0 a.hostname) (host_position hosts 0 b.hostname))
          nodes)

-- `node.aux_id != -1`
abbrev pub has_rank : Node → Bool
has_rank node = elim node.aux_id [ pos n ↦ true | negsuc n ↦ not (n == 0) ]

unfoldable pub with_preferred_rank : List Node → Bool
with_preferred_rank [] = false
with_preferred_rank (n ∷ nodes) = has_rank n || with_preferred_rank nodes

abbrev pub is_rank : ℤ → ℕ → Bool
is_rank (pos n) r = n == r
is_rank (negsuc n) r = false

-- Whether a node of the role prefers rank `r`.
pub is_taken : Role → List Node → ℕ → Bool
is_taken role [] r = false
is_taken role (n ∷ nodes) r = (is_role n.role role && is_rank n.aux_id r) || is_taken role nodes r

abbrev pub same_rank : ℤ → ℤ → Bool
same_rank (pos m) (pos n) = m == n
same_rank (negsuc m) (negsuc n) = m == n
same_rank _ _ = false

-- No two nodes of one role prefer the same rank, and each is a server or a worker.
pub are_ranks_unique : List Node → Bool
unfolding all_of
are_ranks_unique [] = true
are_ranks_unique (n ∷ nodes) =
    (is_role n.role server || is_role n.role worker)
    && (all_of (λ m. not (is_role n.role m.role && same_rank n.aux_id m.aux_id)) nodes
        && are_ranks_unique nodes)

pub count_role : Role → List Node → ℕ
count_role role [] = 0
count_role role (n ∷ nodes) =
    if is_role n.role role then suc (count_role role nodes) else count_role role nodes

-- Every rank below `n` is taken.
pub are_taken : Role → List Node → (n : ℕ) → Bool
unfolding is_taken
are_taken role nodes zero = true
are_taken role nodes (suc n) = is_taken role nodes n && are_taken role nodes n

-- The checks on preferred ranks; once the ranks are unique, the set of a role's ranks has as many
-- as the role has nodes.
unfoldable pub check_ranks : Postoffice → List Node → Result (Unit {0})
unfolding with_preferred_rank are_ranks_unique are_taken count_role
check_ranks po nodes =
    if with_preferred_rank nodes
    then check (are_ranks_unique nodes)
      >> (check (are_taken server nodes (po.num_servers * po.group_size))
          >> (check (count_role server nodes == (po.num_servers * po.group_size))
              >> (check (are_taken worker nodes (po.num_workers * po.group_size))
                  >> check (count_role worker nodes == (po.num_workers * po.group_size)))))
    else ok tt
