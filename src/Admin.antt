-- ===== src/Admin.antt =====
-- tinyFaaS-ext/cmd/rproxy/main.go: the leader's process. Its management endpoint keeps the proxy's
-- containers, the function store and the awake workers in step, and `main` builds the registry.
-- JSON is decoded outside: the handler gets what `json.Unmarshal` fills in, or `none` on an error.
pub mod Arguments
pub mod InStep
pub mod Startup
use yuliya_bachelorarbeit.Base.{
  ℕ, ℤ, ◌==◌, Bool, true, false, not, String, str_eq, Option, none, some, List, [], ◌∷◌,
  if◌then◌else◌, Result, ok, err,
}
use yuliya_bachelorarbeit.Base.Dict.{Dict, lookup}
use yuliya_bachelorarbeit.Node.{Node, zero_node, active}
use yuliya_bachelorarbeit.Functions.{FunctionDef, FunctionStore, set_function, remove_function}
use yuliya_bachelorarbeit.Config.{ControllerConfig}
use yuliya_bachelorarbeit.Outside.{Outside}
use yuliya_bachelorarbeit.Proxy.{Proxy, add, del, get_function_last_used}
use yuliya_bachelorarbeit.Registry.{Registry, new_registry, add_node, list_nodes}
use yuliya_bachelorarbeit.Registry.Sweep.{
  broadcast_function, broadcast_delete, enforce_sleeping, prewarm_all,
}
use Prim.Native.String
use Prim.Native.Char.{code}

-- The body of a request.
pub record Definition : Type 0 where
  pub resource : String
  pub containers : List String
  pub env : String
  pub threads : ℤ
  pub envs : Dict String
  pub zip : List ℕ

-- The status and the body of a response. `aborted` is a panic of the handler.
pub data Answer : Type 0 where
  replied : ℕ → String → Answer
  aborted : Answer

abbrev pub function_def : Definition → FunctionDef
function_def d = record { env = d.env; threads = d.threads; envs = d.envs; zip = d.zip }

-- `if name[0] == '/' { name = name[1:] }`; `none` is the panic on an empty name.
unfoldable pub function_name : String → Option String
function_name String.[] = none
function_name (String.◌∷◌ c s) = some (if code c == b'/' then s else String.◌∷◌ c s)

module _ {W : Type 0} (o : Outside W) where
  abbrev pub State : Type 0
  State = Proxy × (Registry × W)

  -- The branch of a definition with containers.
  unfoldable pub add_function : String → Definition → State → Answer × State
  unfolding add set_function broadcast_function
  add_function name d (p, (r, w)) =
      let (added, p') = add name d.containers p in
      elim added [
        | err _ ↦ (replied 500 "", (p', (r, w)))
        | ok _ ↦
            let def = function_def d in
            let r' = record r { funcs = set_function name def r.funcs } in
            (replied 200 "OK", (p', broadcast_function o name def (r', w)))
      ]

  -- The branch of a definition without containers.
  unfoldable pub delete_function : String → State → Answer × State
  unfolding del remove_function broadcast_delete
  delete_function name (p, (r, w)) =
      let (deleted, p') = del name p in
      elim deleted [
        | err _ ↦ (replied 500 "", (p', (r, w)))
        | ok _ ↦
            let r' = record r { funcs = remove_function name r.funcs } in
            (replied 200 "", (p', broadcast_delete o name (r', w)))
      ]

  change : String → Definition → List String → State → Answer × State
  unfolding add_function delete_function
  change name d [] s = delete_function name s
  change name d (ip ∷ ips) s = add_function name d s

  -- The handler from the decoded body on.
  unfoldable pub handle_definition : Definition → State → Answer × State
  unfolding function_name change
  handle_definition d s = elim (function_name d.resource) [
    | none ↦ (aborted, s)
    | some name ↦ change name d d.containers s
  ]

  -- The handler of `/`.
  unfoldable pub handle : String → Option Definition → State → Answer × State
  unfolding handle_definition
  handle method parsed s =
      if not (str_eq method "POST")
      then (replied 405 "", s)
      else elim parsed [ none ↦ (replied 500 "", s) | some d ↦ handle_definition d s ]

  -- The handlers of `/nodes` and `/lastused`, up to the encoding of what they show.
  unfoldable pub handle_nodes : String → State → Option (List Node)
  unfolding list_nodes
  handle_nodes method (p, (r, w)) = if str_eq method "GET" then some (list_nodes r) else none

  unfoldable pub handle_last_used : String → State → Option (Dict ℕ)
  unfolding get_function_last_used
  handle_last_used method (p, (r, w)) =
      if str_eq method "GET" then some (get_function_last_used p) else none

-- `defaultNodes`
abbrev pub default_nodes : List Node
default_nodes = record zero_node { id = "local"; local = true; status = active } ∷ []

unfoldable pub add_nodes : List Node → Registry → Registry
unfolding add_node
add_nodes [] r = r
add_nodes (n ∷ ns) r = add_nodes ns (add_node n r)

-- The registry that `main` starts with.
abbrev pub start_registry : List Node → Registry
start_registry nodes = add_nodes nodes (new_registry (record { funcs = [] }))

module _ {W : Type 0} (o : Outside W) (cfg : ControllerConfig) where
  -- What `main` starts for the workers: their relays are opened, or all of them are woken.
  unfoldable pub start_workers : ℕ → Registry × W → Registry × W
  unfolding enforce_sleeping prewarm_all
  start_workers attempts s = if cfg.enabled then enforce_sleeping o s else prewarm_all o attempts s
