-- ===== src/Admin/Startup.antt =====
-- The registry that the leader starts with, from a topology that `LoadNodes` accepts.
use yuliya_bachelorarbeit.Base.{
  In, All-In, some, str_eq, Bool-cases, inl, inr, String, eq_iff, List, [], ◌∷◌, ◌++◌, ok, Result,
  ◌≡◌, ◌≢◌, refl, sym, ◌∙◌, ap, arith, All, AllPairs, All-zip, All-map, map, >>=-eq-ok,
}
use yuliya_bachelorarbeit.Base.Dict.{Dict, insert, lookup}
use yuliya_bachelorarbeit.Node.{Node}
use yuliya_bachelorarbeit.Config.Topology.{load_nodes, validate_nodes, default_status, Invalid}
use yuliya_bachelorarbeit.Config.Topology.Valid.{Valid, Apart, validate_nodes-Valid}
use yuliya_bachelorarbeit.Registry.{Registry, new_registry, values, add_node}
use yuliya_bachelorarbeit.Registry.Snapshot.{WellFormed, Current-values, add_node-WellFormed}
use yuliya_bachelorarbeit.Admin.{add_nodes, start_registry}

abbrev AllNew : Dict Node → List Node → Type 0
AllNew m = All (λ n. All (λ e. e.0 ≢ n.id) m)

insert_new :
    (k : String) (v : Node) (m : Dict Node) → All (λ e. e.0 ≢ k) m → insert k v m ≡ m ++ (k, v) ∷ []
unfolding insert
insert_new k v [] new = refl
insert_new k v ((j, w) ∷ m) new = ground (arith, eq_iff j k, new.0, insert_new k v m new.1)

values_append :
    (k : String) (v : Node) (m : Dict Node) → values (m ++ (k, v) ∷ []) ≡ values m ++ v ∷ []
values_append k v [] = refl
values_append k v ((j, w) ∷ m) = ap (λ ns. w ∷ ns) (values_append k v m)

All-append_one :
    (m : Dict Node) (k x : String) (v : Node)
    → All (λ e. e.0 ≢ x) m
    → k ≢ x
    → All (λ e. e.0 ≢ x) (m ++ (k, v) ∷ [])
All-append_one [] k x v all ne = (ne, tt)
All-append_one (e ∷ m) k x v all ne = (all.0, All-append_one m k x v all.1 ne)

append_middle : (ns : List Node) (n : Node) (ms : List Node) → (ns ++ n ∷ []) ++ ms ≡ ns ++ n ∷ ms
append_middle [] n ms = refl
append_middle (x ∷ ns) n ms = ap (λ xs. x ∷ xs) (append_middle ns n ms)

append_nil : (ns : List Node) → ns ++ [] ≡ ns
append_nil [] = refl
append_nil (x ∷ ns) = ap (λ xs. x ∷ xs) (append_nil ns)

add_nodes-values :
    (ns : List Node) (r : Registry)
    → AllPairs (λ n k. n.id ≢ k.id) ns
    → AllNew r.nodes ns
    → values (add_nodes ns r).nodes ≡ values r.nodes ++ ns
unfolding add_nodes add_node
add_nodes-values [] r distinct new = sym (append_nil (values r.nodes))
add_nodes-values (n ∷ ns) r distinct new =
    let r' = add_node n r in
    let grown : r'.nodes ≡ r.nodes ++ (n.id, n) ∷ [] = insert_new n.id n r.nodes new.0 in
    let new' : AllNew r'.nodes ns = rw grown (
      All-zip (λ k. All (λ e. e.0 ≢ k.id) r.nodes) (λ k. n.id ≢ k.id)
        (λ k. All (λ e. e.0 ≢ k.id) (r.nodes ++ (n.id, n) ∷ [])) ns
        (λ k old ne. All-append_one r.nodes n.id k.id n old ne) new.1 distinct.0) in
    add_nodes-values ns r' distinct.1 new'
    ∙ rw grown
        (ap (λ xs. xs ++ ns) (values_append n.id n r.nodes) ∙ append_middle (values r.nodes) n ns)

AllNew-empty : (ns : List Node) → AllNew [] ns
AllNew-empty [] = tt
AllNew-empty (n ∷ ns) = (tt, AllNew-empty ns)

pub add_nodes-WellFormed :
    (ns : List Node) (r : Registry) → WellFormed r.nodes → WellFormed (add_nodes ns r).nodes
unfolding add_nodes
add_nodes-WellFormed [] r wf = wf
add_nodes-WellFormed (n ∷ ns) r wf =
    add_nodes-WellFormed ns (add_node n r) (add_node-WellFormed n r wf)

add_nodes-activations :
    (ns : List Node) (r : Registry) → (add_nodes ns r).activations ≡ r.activations
unfolding add_nodes add_node
add_nodes-activations [] r = refl
add_nodes-activations (n ∷ ns) r = add_nodes-activations ns (add_node n r)

AllPairs-names : (ns : List Node) → AllPairs Apart ns → AllPairs (λ n k. n.id ≢ k.id) ns
AllPairs-names [] apart = tt
AllPairs-names (n ∷ ns) apart =
    (All-map (Apart n) (λ k. n.id ≢ k.id) ns (λ k a. a.names) apart.0, AllPairs-names ns apart.1)

In-values :
    (id : String) (n : Node) (m : Dict Node)
    → WellFormed m
    → lookup id m ≡ some n
    → In n (values m) × (n.id ≡ id)
unfolding lookup
In-values id n [] wf found = absurd (ground (arith, found))
In-values id n ((k, v) ∷ m) wf found = elim (Bool-cases (str_eq k id)) [
  | inl same ↦
      let e : v ≡ n = ground (arith, same, found) in
      (inl (sym e), sym (ap (λ x. x.id) e) ∙ sym wf.keyed.0 ∙ (eq_iff k id).0 same)
  | inr other ↦
      let (there, own) =
        In-values id n m (record { keyed = wf.keyed.1; distinct = wf.distinct.1 })
          (rw other at found) in
      (inr there, own)
]

-- The registry holds exactly these nodes, each under its name.
pub record Registered (nodes : List Node) (r : Registry) : Type 0 where
  pub well_formed : WellFormed r.nodes
  pub holds : (n : Node) → In n nodes → lookup n.id r.nodes ≡ some n
  pub only : (id : String) (n : Node) → lookup id r.nodes ≡ some n → In n nodes × (n.id ≡ id)
  pub no_activations : r.activations ≡ []

-- From a topology that `LoadNodes` accepts, the leader starts with a well-formed registry that holds
-- exactly the nodes of the topology, each under its name, and no activation.
pub load_nodes-start_registry :
    (parsed nodes : List Node)
    → load_nodes parsed ≡ ok nodes
    → Registered nodes (start_registry nodes)
unfolding load_nodes
load_nodes-start_registry parsed nodes e =
    let loaded = map default_status parsed in
    let accept : Unit {0} → Result Invalid (List Node) = λ _. ok loaded in
    let (done, accepted, same) = >>=-eq-ok (validate_nodes loaded) accept e in
    let valid : Valid loaded = (validate_nodes-Valid loaded).0 accepted in
    let names = AllPairs-names loaded valid.apart in
    let empty = new_registry (record { funcs = [] }) in
    let kept : nodes ≡ loaded = ground (arith, same) in
    let wf = add_nodes-WellFormed loaded empty (record { keyed = tt; distinct = tt }) in
    let listed = add_nodes-values loaded empty names (AllNew-empty loaded) in
    rw kept (record {
      well_formed = wf;
      holds = λ n m.
          All-In (λ n. lookup n.id (start_registry loaded).nodes ≡ some n) n loaded
            (rw listed at (Current-values (start_registry loaded).nodes wf)) m;
      only = λ id n found.
          let (there, own) = In-values id n (start_registry loaded).nodes wf found in
          (rw listed at there, own);
      no_activations = add_nodes-activations loaded empty;
    })
