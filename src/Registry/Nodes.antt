-- ===== src/Registry/Nodes.antt =====
-- The nodes of a registry after an update, and the bookkeeping of loads.
use mathlib.Core.Option
use yuliya_bachelorarbeit.Base.{
  ℕ, ℤ, pos, negsuc, ◌≤ℤ◌, ◌<ℤ◌, Bool, String, str_eq, eq_iff, none, some, if◌then◌else◌, ◌≡◌, refl,
  arith, max_int, Option-cases, inl, inr, ◌<◌, ◌+◌, count_if, ◌≤◌, [], ◌∷◌, Bool-cases,
}
use yuliya_bachelorarbeit.Base.Dict.{lookup, lookup-insert, insert, Dict}
use yuliya_bachelorarbeit.Node.{Node, NodeStatus}
use yuliya_bachelorarbeit.Registry.{
  Registry, update_node, with_status, set_status, inc_load, dec_load, get_node, lower, raise,
  values,
}

pub lookup-update_node :
    (id j : String) (f : Node → Node) (r : Registry)
    → lookup j (update_node id f r).nodes
      ≡ (if str_eq id j then Option.map f (lookup j r.nodes) else lookup j r.nodes)
unfolding update_node
lookup-update_node id j f r = elim (Option-cases (lookup id r.nodes)) [
  | inl gone ↦ ground (arith, gone, eq_iff id j)
  | inr (n, found) ↦ ground (arith, found, eq_iff id j, lookup-insert id j (f n) r.nodes)
]

-- An update leaves alone all else that the registry holds.
pub record SameRest (r r' : Registry) : Type 0 where
  pub funcs : r'.funcs ≡ r.funcs
  pub activations : r'.activations ≡ r.activations
  pub signals : r'.signals ≡ r.signals

pub update_node-SameRest :
    (id : String) (f : Node → Node) (r : Registry) → SameRest r (update_node id f r)
unfolding update_node
update_node-SameRest id f r = ground arith

pub set_status-SameRest :
    (id : String) (status : NodeStatus) (now : ℕ) (r : Registry)
    → SameRest r (set_status id status now r)
unfolding set_status
set_status-SameRest id status now r = update_node-SameRest id (with_status status now) r

pub lookup-set_status :
    (id j : String) (status : NodeStatus) (now : ℕ) (r : Registry)
    → lookup j (set_status id status now r).nodes ≡ (
        if str_eq id j
        then Option.map (with_status status now) (lookup j r.nodes)
        else lookup j r.nodes)
unfolding set_status
lookup-set_status id j status now r = lookup-update_node id j (with_status status now) r

load_cases : (l : ℤ) → pos 0 ≤ℤ l → l <ℤ pos max_int → (k : ℕ) × (k < max_int) × (l ≡ pos k)
load_cases (pos k) low high = (k, omega arith, refl)
load_cases (negsuc k) low high = absurd (omega arith)

pub lower-raise : (n : Node) → pos 0 ≤ℤ n.load → n.load <ℤ pos max_int → lower (raise n) ≡ n
lower-raise n low high = let (k, below, e) = load_cases n.load low high in ground (arith, e)

-- A load that a request raises and lowers again is what it was, unless it was negative or at the
-- largest integer; no other node's load changes.
pub dec_load-inc_load :
    (id j : String) (r : Registry) (n : Node)
    → get_node j r ≡ some n
    → pos 0 ≤ℤ n.load
    → n.load <ℤ pos max_int
    → get_node j (dec_load id (inc_load id r)) ≡ some n
unfolding get_node dec_load inc_load
dec_load-inc_load id j r n found low high =
    rw (lookup-update_node id j lower (inc_load id r))
      (rw (lookup-update_node id j raise r) (ground (arith, found, lower-raise n low high)))

-- How many nodes of a registry pass a test.
abbrev pub count_nodes : (Node → Bool) → Registry → ℕ
count_nodes p r = count_if p (values r.nodes)

abbrev one_if : Bool → ℕ
one_if b = if b then 1 else 0

count_if-insert :
    (p : Node → Bool) (id : String) (n n' : Node) (m : Dict Node)
    → lookup id m ≡ some n
    → count_if p (values (insert id n' m)) + one_if (p n) ≡ count_if p (values m) + one_if (p n')
unfolding lookup insert
count_if-insert p id n n' [] e = cc
count_if-insert p id n n' ((j, x) ∷ m) e = elim (Bool-cases (str_eq j id)) [
  | inl hit ↦ ground (arith, hit)
  | inr miss ↦ rw miss (omega (arith, count_if-insert p id n n' m (rw miss at e)))
]

-- An update changes the count by what it does to its node.
pub count_nodes-update_node :
    (p : Node → Bool) (id : String) (f : Node → Node) (r : Registry) (n : Node)
    → lookup id r.nodes ≡ some n
    → count_nodes p (update_node id f r) + (if p n then 1 else 0)
      ≡ count_nodes p r + (if p (f n) then 1 else 0)
unfolding update_node
count_nodes-update_node p id f r n e = rw (e, update_node) (count_if-insert p id n (f n) r.nodes e)

pub update_node_gone :
    (id : String) (f : Node → Node) (r : Registry)
    → lookup id r.nodes ≡ none
    → update_node id f r ≡ r
unfolding update_node
update_node_gone id f r e = rw (e, update_node)

pub count_nodes-update_le :
    (p : Node → Bool) (id : String) (f : Node → Node) (r : Registry)
    → count_nodes p r ≤ count_nodes p (update_node id f r) + 1
count_nodes-update_le p id f r = elim (Option-cases (lookup id r.nodes)) [
  | inl gone ↦ rw (update_node_gone id f r gone) (omega arith)
  | inr (n, found) ↦ ground (arith, count_nodes-update_node p id f r n found)
]
