-- ===== src/Config/Topology/Valid.antt =====
-- What `ValidateNodes` accepts, as a predicate on topologies.
use yuliya_bachelorarbeit.Base.{
  >>=-eq-ok, suc, ◌<◌, pos, eqb_ℤ→eq, eq→eqb_ℤ, false, eq_iff, none, List, ◌∷◌, if◌then◌else◌, ok,
  arith, ◌≡◌, ◌≢◌, ◌⊎◌, All, AllPairs, count_if, All-map, All-zip, ◌↔◌, ◌>>=◌, ◌+◌, [], refl,
}
use yuliya_bachelorarbeit.Node.{Node}
use yuliya_bachelorarbeit.Config.Topology.{
  Seen, contains, owner_of, check_node, executors, nothing_seen, validate_nodes, check_nodes,
  check_counts,
}

-- A node on its own: a name and, unless it is the leader, addresses and a channel of a relay.
pub record Sound (n : Node) : Type 0 where
  pub named : n.id ≢ ""
  pub reachable : n.local ≡ false → (n.address ≢ "") × (n.manager_address ≢ "")
  pub switched : n.local ≡ false → (n.channel ≡ pos 0) ⊎ (n.channel ≡ pos 1)

-- Two nodes: other names and, unless one is the leader, other outlets.
pub record Apart (n m : Node) : Type 0 where
  pub names : n.id ≢ m.id
  pub outlets :
      n.local ≡ false → m.local ≡ false → n.relay_uid ≡ m.relay_uid → n.channel ≢ m.channel

pub record Valid (nodes : List Node) : Type 0 where
  pub sound : All Sound nodes
  pub apart : AllPairs Apart nodes
  pub leader : count_if (λ n. n.local) nodes ≡ 1
  pub executing : 0 < executors nodes

-- A node that what has been seen so far does not stand against.
record Clear (s : Seen) (n : Node) : Type 0 where
  name : contains n.id s.ids ≡ false
  outlet : n.local ≡ false → owner_of n.relay_uid n.channel s.claims ≡ none

abbrev add : Seen → Node → Seen
add s n = record s {
  ids = n.id ∷ s.ids;
  claims =
      if n.local
      then s.claims
      else record { uid = n.relay_uid; channel = n.channel; owner = n.id } ∷ s.claims;
  locals = if n.local then suc s.locals else s.locals;
}

check_node-ok :
    (s s' : Seen) (n : Node) → check_node s n ≡ ok s' → Sound n × Clear s n × (s' ≡ add s n)
unfolding check_node
check_node-ok s s' n e =
    ground (arith, eq_iff n.id "", eq_iff n.address "", eq_iff n.manager_address "")

ok-check_node : (s : Seen) (n : Node) → Sound n → Clear s n → check_node s n ≡ ok (add s n)
unfolding check_node
ok-check_node s n v c =
    ground (arith, eq_iff n.id "", eq_iff n.address "", eq_iff n.manager_address "")

Clear-add : (s : Seen) (n m : Node) → Clear (add s n) m → Clear s m × Apart n m
unfolding contains owner_of
Clear-add s n m c =
    ground (arith, eq_iff n.id m.id, eq_iff n.relay_uid m.relay_uid, eq→eqb_ℤ n.channel m.channel)

add-Clear : (s : Seen) (n m : Node) → Clear s m → Apart n m → Clear (add s n) m
unfolding contains owner_of
add-Clear s n m c a =
    ground (arith, eq_iff n.id m.id, eq_iff n.relay_uid m.relay_uid, eqb_ℤ→eq n.channel m.channel)

add_all : Seen → List Node → Seen
add_all s [] = s
add_all s (n ∷ ns) = add_all (add s n) ns

-- The loop accepts nodes that are sound, clear of what it has seen, and pairwise apart.
Admitted : Seen → List Node → Type 0
Admitted s ns = All Sound ns × All (Clear s) ns × AllPairs Apart ns

Admitted-cons :
    (s : Seen) (n : Node) (ns : List Node)
    → Sound n
    → Clear s n
    → Admitted (add s n) ns
    → Admitted s (n ∷ ns)
unfolding Admitted
Admitted-cons s n ns v c (vs, cs, apart) = (
  (v, vs),
  (c, All-map (Clear (add s n)) (Clear s) ns (λ m k. (Clear-add s n m k).0) cs),
  (All-map (Clear (add s n)) (Apart n) ns (λ m k. (Clear-add s n m k).1) cs, apart),
)

Admitted-tail : (s : Seen) (n : Node) (ns : List Node) → Admitted s (n ∷ ns) → Admitted (add s n) ns
unfolding Admitted
Admitted-tail s n ns ((v, vs), (c, cs), (a, apart)) =
    (vs, All-zip (Clear s) (Apart n) (Clear (add s n)) ns (add-Clear s n) cs a, apart)

check_nodes-ok :
    (s s' : Seen) (ns : List Node) → check_nodes s ns ≡ ok s' → Admitted s ns × (s' ≡ add_all s ns)
unfolding check_nodes add_all
check_nodes-ok s s' [] e = (unfold Admitted in (tt, tt, tt), ground arith)
check_nodes-ok s s' (n ∷ ns) e =
    let (t, first, rest) = >>=-eq-ok (check_node s n) (λ t. check_nodes t ns) e in
    let (v, c, same) = check_node-ok s t n first in
    let (admitted, end) = check_nodes-ok (add s n) s' ns (rw (← same) rest) in
    (Admitted-cons s n ns v c admitted, end)

ok-check_nodes : (s : Seen) (ns : List Node) → Admitted s ns → check_nodes s ns ≡ ok (add_all s ns)
unfolding check_nodes add_all
ok-check_nodes s [] a = refl
ok-check_nodes s (n ∷ ns) a =
    rw (ok-check_node s n (unfold Admitted in a.0.0) (unfold Admitted in a.1.0))
      (ok-check_nodes (add s n) ns (Admitted-tail s n ns a))

locals-add_all :
    (s : Seen) (ns : List Node) → (add_all s ns).locals ≡ s.locals + count_if (λ n. n.local) ns
unfolding add_all
locals-add_all s [] = omega arith
locals-add_all s (n ∷ ns) = ground (arith, locals-add_all (add s n) ns)

Clear-nothing_seen : (ns : List Node) → All (Clear nothing_seen) ns
unfolding contains owner_of
Clear-nothing_seen [] = tt
Clear-nothing_seen (n ∷ ns) = (record { name = refl; outlet = λ _. refl }, Clear-nothing_seen ns)

-- `ValidateNodes` accepts a topology exactly when every node is named, every worker has its
-- addresses and a channel 0 or 1, no two nodes share a name and no two workers an outlet as they
-- write it, exactly one node is local, and some node executes functions.
pub validate_nodes-Valid : (nodes : List Node) → (validate_nodes nodes ≡ ok tt) ↔ Valid nodes
unfolding validate_nodes check_counts
validate_nodes-Valid [] = (λ e. cc, λ v. absurd (omega (arith, v.leader)))
validate_nodes-Valid (n ∷ ns) = (accepted, accepts)
  where
    nodes : List Node
    nodes = n ∷ ns

    accepted : (check_nodes nothing_seen nodes >>= check_counts nodes) ≡ ok tt → Valid nodes
    accepted e =
        let (s, loop, counts) = >>=-eq-ok (check_nodes nothing_seen nodes) (check_counts nodes) e in
        let (admitted, end) = check_nodes-ok nothing_seen s nodes loop in
        record {
          sound = unfold Admitted in admitted.0;
          apart = unfold Admitted in admitted.2;
          leader = ground (arith, locals-add_all nothing_seen nodes);
          executing = ground arith;
        }

    accepts : Valid nodes → (check_nodes nothing_seen nodes >>= check_counts nodes) ≡ ok tt
    accepts v =
        rw
          (ok-check_nodes nothing_seen nodes
            (unfold Admitted in (v.sound, Clear-nothing_seen nodes, v.apart)))
          (ground (arith, locals-add_all nothing_seen nodes, v.leader, v.executing))
