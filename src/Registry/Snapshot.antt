-- ===== src/Registry/Snapshot.antt =====
-- Well-formed registries, and what a snapshot of one says about it.
use yuliya_bachelorarbeit.Base.{
  Option-cases, String, str_eq, eq_iff, some, List, [], ◌∷◌, ◌≡◌, ◌≢◌, refl, sym, arith, All,
  AllPairs, Bool-cases, inl, inr, ◌∙◌, subst,
}
use yuliya_bachelorarbeit.Base.Dict.{Dict, lookup, insert}
use yuliya_bachelorarbeit.Node.{Node}
use yuliya_bachelorarbeit.Registry.{Registry, values, add_node, update_node}

-- Every node stands under its own id, and no id is there twice.
pub record WellFormed (m : Dict Node) : Type 0 where
  pub keyed : All (λ e. e.0 ≡ e.1.id) m
  pub distinct : AllPairs (λ a b. a.0 ≢ b.0) m

-- The nodes `ns` are in the registry as they are here.
abbrev pub Current : Dict Node → List Node → Type 0
Current m ns = All (λ n. lookup n.id m ≡ some n) ns

abbrev pub DistinctIds : List Node → Type 0
DistinctIds = AllPairs (λ n k. n.id ≢ k.id)

apart_values :
    (k : String) (m : Dict Node)
    → All (λ e. e.0 ≡ e.1.id) m
    → All (λ e. k ≢ e.0) m
    → All (λ n. k ≢ n.id) (values m)
apart_values k [] keyed apart = tt
apart_values k ((j, n) ∷ m) keyed apart =
    (λ e. apart.0 (e ∙ sym keyed.0), apart_values k m keyed.1 apart.1)

Current-cons :
    (k : String) (v : Node) (m : Dict Node) (ns : List Node)
    → All (λ n. k ≢ n.id) ns
    → Current m ns
    → Current ((k, v) ∷ m) ns
unfolding lookup
Current-cons k v m [] a c = tt
Current-cons k v m (n ∷ ns) a c =
    (ground (arith, eq_iff k n.id, a.0, c.0), Current-cons k v m ns a.1 c.1)

-- A snapshot shows the registry as it is, and names no node twice.
pub Current-values : (m : Dict Node) → WellFormed m → Current m (values m)
unfolding lookup
Current-values [] wf = tt
Current-values ((k, v) ∷ m) wf = (
  ground (arith, eq_iff k v.id, wf.keyed.0),
  Current-cons k v m (values m) (apart_values k m wf.keyed.1 wf.distinct.0)
      (Current-values m (record { keyed = wf.keyed.1; distinct = wf.distinct.1 })),
)

pub DistinctIds-values : (m : Dict Node) → WellFormed m → DistinctIds (values m)
DistinctIds-values [] wf = tt
DistinctIds-values ((k, v) ∷ m) wf = (
  subst (λ x. All (λ n. x ≢ n.id) (values m)) wf.keyed.0
      (apart_values k m wf.keyed.1 wf.distinct.0),
  DistinctIds-values m (record { keyed = wf.keyed.1; distinct = wf.distinct.1 }),
)

apart-insert :
    (x k : String) (v : Node) (m : Dict Node)
    → x ≢ k
    → All (λ e. x ≢ e.0) m
    → All (λ e. x ≢ e.0) (insert k v m)
unfolding insert
apart-insert x k v [] ne a = (ne, tt)
apart-insert x k v ((j, w) ∷ m) ne a = elim (Bool-cases (str_eq j k)) [
  | inl hit ↦ rw hit a
  | inr miss ↦ rw miss (a.0, apart-insert x k v m ne a.1)
]

WellFormed-insert :
    (k : String) (v : Node) (m : Dict Node) → k ≡ v.id → WellFormed m → WellFormed (insert k v m)
unfolding insert
WellFormed-insert k v [] own wf = record { keyed = (own, tt); distinct = (tt, tt) }
WellFormed-insert k v ((j, w) ∷ m) own wf =
    let rest =
      WellFormed-insert k v m own (record { keyed = wf.keyed.1; distinct = wf.distinct.1 }) in
    elim (Bool-cases (str_eq j k)) [
      | inl hit ↦
          rw hit (record { keyed = ((eq_iff j k).0 hit ∙ own, wf.keyed.1); distinct = wf.distinct })
      | inr miss ↦ rw miss (record {
        keyed = (wf.keyed.0, rest.keyed);
        distinct = (
          apart-insert j k v m (λ e. ground (arith, (eq_iff j k).1 e)) wf.distinct.0,
          rest.distinct,
        );
      })
    ]

pub add_node-WellFormed :
    (n : Node) (r : Registry) → WellFormed r.nodes → WellFormed (add_node n r).nodes
unfolding add_node
add_node-WellFormed n r wf = WellFormed-insert n.id n r.nodes refl wf

lookup-keyed :
    (k : String) (m : Dict Node) (n : Node)
    → All (λ e. e.0 ≡ e.1.id) m
    → lookup k m ≡ some n
    → k ≡ n.id
unfolding lookup
lookup-keyed k [] n keyed e = cc
lookup-keyed k ((j, v) ∷ m) n keyed e = elim (Bool-cases (str_eq j k)) [
  | inl hit ↦ ground (arith, hit, eq_iff j k, keyed.0)
  | inr miss ↦ lookup-keyed k m n keyed.1 (rw miss at e)
]

-- Every method changes nodes through `update_node` and never an id.
pub update_node-WellFormed :
    (id : String) (f : Node → Node) (r : Registry)
    → ((n : Node) → (f n).id ≡ n.id)
    → WellFormed r.nodes
    → WellFormed (update_node id f r).nodes
unfolding update_node
update_node-WellFormed id f r keeps wf = elim (Option-cases (lookup id r.nodes)) [
  | inl gone ↦ rw (gone, update_node) wf
  | inr (n, found) ↦
      rw (found, update_node)
        (WellFormed-insert id (f n) r.nodes
          (lookup-keyed id r.nodes n wf.keyed found ∙ sym (keeps n)) wf)
]
