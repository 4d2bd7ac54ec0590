-- ===== src/Traffic.antt =====
-- Requests and the controller's loop at the same time: the handler of tinyFaaS-ext/pkg/http/http.go and
-- the loop of tinyFaaS-ext/pkg/cluster/controller.go as goroutines that interleave at the critical
-- sections of the registry and at the relay. Nodes are neither added nor removed, as once the process
-- has started.
pub mod Loads
pub mod Cut
use yuliya_bachelorarbeit.Base.{
  ℕ, zero, suc, ◌==◌, ◌<◌, ◌≤◌, ◌+◌, leb, ltb, ℤ, pos, negsuc, eqb_ℤ, pred_ℤ, leb_ℤ, ltb_ℤ, Bool,
  true, false, not, ◌&&◌, ◌||◌, String, str_eq, Option, none, some, List, [], ◌∷◌, length, set,
  count_if, max_int, suc_int, ◌≤ℤ◌, All, In, ◌++◌, map, get_elem?, if◌then◌else◌, Result, ok, err,
  ok-injective, Result-cases, ◌≡◌, refl, sym, subst, ◌⊎◌, inl, inr, arith, Bool-cases, Option-cases,
  eq_iff, ap, ◌∙◌,
}
use yuliya_bachelorarbeit.Base.Dict.{Dict, lookup}
use yuliya_bachelorarbeit.Base.Io.{
  Io, pure, fail, attempt, obtain, ignore, step, ◌>>=◌, ◌>>◌, attempt->>-ok, obtain->>=-ok, >>=-ok,
}
use yuliya_bachelorarbeit.Node.{Node, NodeStatus, sleeping}
use yuliya_bachelorarbeit.Scheduler.{pick_node}
use yuliya_bachelorarbeit.Config.{ControllerConfig}
use yuliya_bachelorarbeit.Registry.{
  Registry, list_nodes, inc_load, dec_load, touch_node, set_status,
}
use yuliya_bachelorarbeit.Registry.Wake.{start_activation, already_active}
use yuliya_bachelorarbeit.Controller.{is_excess, serves}

-- Where a request stands.
pub data Request : Type 0 where
  -- before the snapshot of the nodes
  arrived : Request
  -- a node is picked, and `ActivateNode` under way
  picked : String → Request
  -- `ActivateNode` has returned nil
  admitted : String → Request
  -- between `IncLoad` and `DecLoad`
  served_by : String → Request
  finished : Request

-- Where the controller's loop stands: what is left of its snapshot, with the number of active nodes.
pub data Loop : Type 0 where
  waiting : Loop
  scanning : List Node → ℤ → Loop
  -- in `PowerOff` for a node
  cutting : Node → List Node → ℤ → Loop
  -- the relay is open, and the status not yet set
  cut_off : Node → List Node → ℤ → Loop

pub record Traffic : Type 0 where
  pub registry : Registry
  pub requests : List Request
  pub loop : Loop

-- One section of a request: what it makes of the registry and of itself.
pub data Serve (cfg : ControllerConfig) (r : Registry) : Request → Registry → Request → Type 0 where
  picks :
      (n : Node)
      → pick_node (list_nodes r) cfg.load_threshold ≡ some n
      → Serve cfg r arrived r (picked n.id)
  finds_none : pick_node (list_nodes r) cfg.load_threshold ≡ none → Serve cfg r arrived r finished
  admits_active :
      (id : String)
      → start_activation id r ≡ already_active
      → Serve cfg r (picked id) r (admitted id)
  -- after a wake, of its own or another call's, whose steps are those of `sets_status`
  admits_woken : (id : String) → Serve cfg r (picked id) r (admitted id)
  fails : (id : String) → Serve cfg r (picked id) r finished
  begins : (id : String) → Serve cfg r (admitted id) (inc_load id r) (served_by id)
  touches :
      (id : String) (now : ℕ) → Serve cfg r (served_by id) (touch_node id now r) (served_by id)
  ends : (id : String) → Serve cfg r (served_by id) (dec_load id r) finished

-- One section of the controller's loop.
pub data Scale (cfg : ControllerConfig) (r : Registry) : Loop → Registry → Loop → Type 0 where
  takes_snapshot :
      Scale cfg r waiting r (scanning (list_nodes r) (pos (count_if serves (list_nodes r))))
  keeps :
      (n : Node) (ns : List Node) (count : ℤ) (now : ℕ)
      → is_excess cfg count now n ≡ false
      → Scale cfg r (scanning (n ∷ ns) count) r (scanning ns count)
  chooses :
      (n : Node) (ns : List Node) (count : ℤ) (now : ℕ)
      → is_excess cfg count now n ≡ true
      → Scale cfg r (scanning (n ∷ ns) count) r (cutting n ns count)
  -- the node is unknown, or its relay fails
  fails_to_cut :
      (n : Node) (ns : List Node) (count : ℤ)
      → Scale cfg r (cutting n ns count) r (scanning ns count)
  cuts :
      (n : Node) (ns : List Node) (count : ℤ)
      → Scale cfg r (cutting n ns count) r (cut_off n ns count)
  marks :
      (n : Node) (ns : List Node) (count : ℤ) (now : ℕ)
      → Scale cfg r
          (cut_off n ns count)
          (set_status n.id sleeping now r)
          (scanning ns (pred_ℤ count))
  ends_round : (count : ℤ) → Scale cfg r (scanning [] count) r waiting

pub data Step (cfg : ControllerConfig) (s : Traffic) : Traffic → Type 0 where
  serves_request :
      (i : ℕ) (q q' : Request) (r' : Registry)
      → get_elem? s.requests i ≡ some q
      → Serve cfg s.registry q r' q'
      → Step cfg s (record s { registry = r'; requests = set s.requests i q' })
  arrives : Step cfg s (record s { requests = s.requests ++ arrived ∷ [] })
  scales :
      (loop' : Loop) (r' : Registry)
      → Scale cfg s.registry s.loop r' loop'
      → Step cfg s (record s { registry = r'; loop = loop' })
  -- a wake, a sweep or a recovery, and more than they do: what can happen is shown without this step
  sets_status :
      (id : String) (status : NodeStatus) (now : ℕ)
      → Step cfg s (record s { registry = set_status id status now s.registry })

pub data Steps (cfg : ControllerConfig) (s : Traffic) : Traffic → Type 0 where
  here : Steps cfg s s
  next : {t u : Traffic} → Steps cfg s t → Step cfg t u → Steps cfg s u

-- Whether a request is in flight on a node.
abbrev pub is_on : String → Request → Bool
is_on id (served_by j) = str_eq j id
is_on id _ = false

unfoldable pub in_flight : String → List Request → ℕ
in_flight id requests = count_if (is_on id) requests
