-- ===== src/Front.antt =====
-- tinyFaaS-ext/pkg/http/http.go: the handler that chooses a node for a request, wakes it, and calls
-- the function there. One request is a function of the leader's state; requests do not interleave.
pub mod Loads
pub mod Active
use yuliya_bachelorarbeit.Base.{
  ℕ, ◌==◌, Bool, true, false, not, ◌||◌, String, str_eq, Option, none, some, List, [], ◌∷◌, map,
  if◌then◌else◌, Result, ok, err,
}
use yuliya_bachelorarbeit.Base.Dict.{Dict, lookup}
use yuliya_bachelorarbeit.Node.{Node}
use yuliya_bachelorarbeit.Scheduler.{pick_node}
use yuliya_bachelorarbeit.Config.{ControllerConfig}
use yuliya_bachelorarbeit.Outside.{Outside}
use yuliya_bachelorarbeit.Proxy.{
  Proxy, Client, Request, Reply, Status, status_ok, status_accepted, status_not_found, status_error,
  call,
}
use yuliya_bachelorarbeit.Registry.{
  Registry, WakeError, no_signal, list_nodes, inc_load, dec_load, touch_node,
}
use yuliya_bachelorarbeit.Registry.Wake.{activate_node}
use Prim.Native.String
use Prim.Native.Char.{code}

-- A request: its path, its headers under their canonical names, each with its first value, and its
-- body, or `none` where it cannot be read.
pub record Incoming : Type 0 where
  pub path : String
  pub headers : Dict String
  pub body : Option (List ℕ)

-- The response: the status, the header `X-tinyFaaS-Node` and the body. `aborted` is a panic of the
-- handler, after which the server closes the connection.
pub data Response : Type 0 where
  answer : ℕ → Option String → List ℕ → Response
  aborted : Response

abbrev pub only_status : ℕ → Option String → Response
only_status status node = answer status node []

-- `for p != "" && p[0] == '/' { p = p[1:] }`
unfoldable pub strip_slashes : String → String
strip_slashes String.[] = ""
strip_slashes (String.◌∷◌ c s) =
    let rest = strip_slashes s in if code c == b'/' then rest else String.◌∷◌ c s

-- `req.Header.Get("X-tinyFaaS-Async") != ""`
pub is_async : Dict String → Bool
unfolding lookup
is_async headers = elim (lookup "X-Tinyfaas-Async" headers) [
  | none ↦ false
  | some v ↦ not (str_eq v "")
]

-- `http://%s/%s`
abbrev pub node_url : String → String → String
node_url address path = String.◌++◌ "http://" (String.◌++◌ address (String.◌++◌ "/" path))

-- `status == rproxy.StatusOK || status == rproxy.StatusAccepted`
abbrev pub succeeded : Status → Bool
succeeded status_ok = true
succeeded status_accepted = true
succeeded status_not_found = false
succeeded status_error = false

pub local_response : String → Status → List ℕ → Response
local_response id Status.status_ok res = answer 200 (some id) res
local_response id Status.status_accepted res = only_status 202 (some id)
local_response id Status.status_not_found res = only_status 404 (some id)
local_response id Status.status_error res = only_status 500 (some id)

-- What a failed activation answers. A wait on a nil activation panics.
pub wake_response : WakeError → Response
wake_response (WakeError.no_signal id) = aborted
wake_response _ = only_status 500 none

-- `if ok { reg.TouchNode(node.ID) }`
pub touch_if : Bool → String → ℕ → Registry → Registry
unfolding touch_node
touch_if used id now r = if used then touch_node id now r else r

module _ {W : Type 0} (o : Outside W) (c : Client W) (cfg : ControllerConfig) where
  abbrev pub State : Type 0
  State = Proxy × (Registry × W)

  local_done : String → Option (Status × List ℕ) → Proxy × W → Registry → Response × State
  unfolding local_response touch_if
  local_done id none (p, w) r = (aborted, (p, (r, w)))
  local_done id (some (status, res)) (p, w) r =
      (local_response id status res, (p, (touch_if (succeeded status) id (o.now w) r, w)))

  -- The leader executes the function itself.
  unfoldable pub serve_local : String → String → List ℕ → Dict String → State → Response × State
  unfolding call local_done is_async
  serve_local id path body headers (p, (r, w)) =
      let (result, s) = call o c path body (is_async headers) headers (p, w) in
      local_done id result s r

  forward_done : String → Reply → W → Proxy × Registry → Response × State
  unfolding touch_if
  forward_done id Reply.unreachable w (p, r) = (only_status 502 (some id), (p, (r, w)))
  forward_done id Reply.cut_off w (p, r) = (only_status 500 (some id), (p, (r, w)))
  forward_done id (Reply.answered status res) w (p, r) = (
    answer status (some id) res,
    (p, (touch_if (status == 200 || status == 202) id (o.now w) r, w)),
  )

  -- A worker executes the function; the headers are passed on as they are.
  unfoldable pub forward :
      String → String → String → List ℕ → Dict String → State → Response × State
  unfolding forward_done
  forward id address path body headers (p, (r, w)) =
      let url = node_url address path in
      let (reply, w') = c.send (record { url = url; headers = headers; payload = body }) w in
      if not (c.valid_url url)
      then (only_status 500 (some id), (p, (r, w)))
      else forward_done id reply w' (p, r)

  unfoldable pub dispatch : Node → String → List ℕ → Dict String → State → Response × State
  unfolding serve_local forward
  dispatch n path body headers s =
      if n.local
      then serve_local n.id path body headers s
      else forward n.id n.address path body headers s

  -- `IncLoad`, the call, and the deferred `DecLoad`.
  unfoldable pub serve_on : Node → String → List ℕ → Dict String → State → Response × State
  unfolding inc_load dispatch dec_load
  serve_on n path body headers (p, (r, w)) =
      let (resp, (p', (r', w'))) = dispatch n path body headers (p, (inc_load n.id r, w)) in
      (resp, (p', (dec_load n.id r', w')))

  after_wake :
      Node → String → List ℕ → Dict String → Result WakeError (Unit {0}) → State → Response × State
  unfolding wake_response serve_on
  after_wake n path body headers (err e) s = (wake_response e, s)
  after_wake n path body headers (ok _) s = serve_on n path body headers s

  -- The handler from the choice of a node on.
  unfoldable pub serve_body : ℕ → String → List ℕ → Dict String → State → Response × State
  unfolding pick_node list_nodes activate_node after_wake
  serve_body attempts path body headers (p, (r, w)) =
      elim (pick_node (list_nodes r) cfg.load_threshold) [
        | none ↦ (only_status 503 none, (p, (r, w)))
        | some n ↦
            let (woken, s) = activate_node o attempts n.id (r, w) in
            after_wake n path body headers woken (p, s)
      ]

  -- The handler; `attempts` is `healthCheckAttempts`.
  unfoldable pub serve : ℕ → Incoming → State → Response × State
  unfolding strip_slashes serve_body
  serve attempts q s = elim q.body [
    | none ↦ (only_status 500 none, s)
    | some body ↦ serve_body attempts (strip_slashes q.path) body q.headers s
  ]
