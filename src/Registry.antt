-- ===== src/Registry.antt =====
-- tinyFaaS-ext/pkg/cluster/registry.go: the nodes of the cluster under the registry's lock, and the
-- methods that neither switch a relay nor use the network. Each is one critical section.
pub mod Nodes
pub mod Snapshot
pub mod Wake
pub mod Sweep
pub mod Threads
use yuliya_bachelorarbeit.Base.{
  ℕ, suc, ℤ, pos, ltb_ℤ, pred_ℤ, suc_int, Bool, true, false, String, Option, none, some, List, [],
  ◌∷◌, ◌++◌, map, if◌then◌else◌, length,
}
use yuliya_bachelorarbeit.Base.Dict.{Dict, lookup, insert, remove}
use yuliya_bachelorarbeit.Node.{Node, NodeStatus, is_dead, is_active, is_waking, waking}
use yuliya_bachelorarbeit.Functions.{FunctionStore}
use yuliya_bachelorarbeit.Relay.{RelayError}
use yuliya_bachelorarbeit.Base.{Result}

-- The errors of `ActivateNode` and `wakeNode`, with the values that the messages print. `no_signal`
-- is the panic of a wait on a nil activation.
pub data WakeError : Type 0 where
  unknown_node timed_out no_signal : String → WakeError
  power_on_failed : String → RelayError → WakeError
  not_ready : String → String → WakeError
  deploy_failed : String → ℕ → WakeError
  power_off_failed : String → ℕ → RelayError → WakeError

-- What a wake attempt came to.
abbrev pub WakeResult : Type 0
WakeResult = Result WakeError (Unit {0})

-- `nodes` owns the node records: no pointer to one outlives the critical section that reads it.
-- An activation is shared, so it has an address: `activations` maps node ids to addresses, and
-- `signals` holds at each address what the attempt came to, or `none` while `done` is open.
pub record Registry : Type 0 where
  pub nodes : Dict Node
  pub funcs : FunctionStore
  pub activations : Dict ℕ
  pub signals : List (Option WakeResult)

abbrev pub new_registry : FunctionStore → Registry
new_registry funcs = record { nodes = []; funcs = funcs; activations = []; signals = [] }

unfoldable pub add_node : Node → Registry → Registry
unfolding insert
add_node n r = record r { nodes = insert n.id n r.nodes }

unfoldable pub remove_node : String → Registry → Registry
unfolding remove
remove_node id r = record r { nodes = remove id r.nodes }

abbrev pub values : {V : Type 0} → Dict V → List V
values [] = []
values ((k, v) ∷ m) = v ∷ values m

-- A snapshot: the nodes are values, so later changes do not reach it. Its order is that of the entries,
-- which stands for whatever order `range` takes.
unfoldable pub list_nodes : Registry → List Node
list_nodes r = values r.nodes

unfoldable pub get_node : String → Registry → Option Node
unfolding lookup
get_node id r = lookup id r.nodes

-- `if n, ok := r.nodes[id]; ok { … }`, with what it does to the node.
unfoldable pub update_node : String → (Node → Node) → Registry → Registry
unfolding lookup insert
update_node id f r = elim (lookup id r.nodes) [
  | none ↦ r
  | some n ↦ record r { nodes = insert id (f n) r.nodes }
]

-- `n.Load++`
abbrev pub raise : Node → Node
raise n = record n { load = suc_int n.load }

-- `if n.Load > 0 { n.Load-- }`
abbrev pub lower : Node → Node
lower n = if ltb_ℤ (pos 0) n.load then record n { load = pred_ℤ n.load } else n

unfoldable pub inc_load : String → Registry → Registry
unfolding update_node
inc_load id = update_node id raise

unfoldable pub dec_load : String → Registry → Registry
unfolding update_node
dec_load id = update_node id lower

unfoldable pub touch_node : String → ℕ → Registry → Registry
unfolding update_node
touch_node id now = update_node id λ n. record n { last_used = now }

abbrev pub with_status : NodeStatus → ℕ → Node → Node
with_status status now n = record n {
  status = status;
  dead_since = if is_dead status then now else 0;
}

unfoldable pub set_status : String → NodeStatus → ℕ → Registry → Registry
unfolding update_node
set_status id status now = update_node id (with_status status now)
