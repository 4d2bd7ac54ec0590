-- ===== src/Front/Loads.antt =====
-- What a request leaves in the registry: the loads as they were, and the time of use of the node
-- that served it.
use yuliya_bachelorarbeit.Base.{
  ℕ, pos, ◌≤ℤ◌, ◌<ℤ◌, max_int, ◌==◌, Bool, true, false, ◌&&◌, ◌||◌, String, str_eq, Option, none,
  some, List, if◌then◌else◌, Result, ok, err, ◌≡◌, refl, ap, arith, Option-cases, Bool-cases, inl,
  inr,
}
use mathlib.Core.Option.{map as map_option}
use yuliya_bachelorarbeit.Base.Dict.{Dict, lookup}
use yuliya_bachelorarbeit.Node.{Node}
use yuliya_bachelorarbeit.Outside.{Outside}
use yuliya_bachelorarbeit.Proxy.{Proxy, Client, Reply, Status}
use yuliya_bachelorarbeit.Config.{ControllerConfig}
use yuliya_bachelorarbeit.Registry.{
  Registry, inc_load, dec_load, touch_node, raise, lower, list_nodes,
}
use yuliya_bachelorarbeit.Registry.Nodes.{lookup-update_node, lower-raise}
use yuliya_bachelorarbeit.Registry.Wake.Loads.{Woken-load, activate_node-Woken}
use yuliya_bachelorarbeit.Front.{
  Response, answer, aborted, touch_if, local_done, serve_local, forward_done, forward, dispatch,
  serve_on, after_wake, serve_body, serve, State, Incoming, node_url, pick_node, WakeError,
  activate_node, strip_slashes,
}

-- A response with status 200 or 202.
abbrev pub is_success : Response → Bool
is_success (answer status by body) = status == 200 || status == 202
is_success aborted = false

pub lookup-touch_if :
    (used : Bool) (id j : String) (now : ℕ) (r : Registry) (m : Node)
    → lookup j r.nodes ≡ some m
    → lookup j (touch_if used id now r).nodes
      ≡ some (if used && str_eq id j then record m { last_used = now } else m)
unfolding touch_if touch_node
lookup-touch_if false id j now r m found = found
lookup-touch_if true id j now r m found =
    rw (lookup-update_node id j (λ n. record n { last_used = now }) r) (ground (arith, found))

-- Raised, perhaps touched, and lowered again.
lower_touched :
    (used here : Bool) (now : ℕ) (m : Node)
    → pos 0 ≤ℤ m.load
    → m.load <ℤ pos max_int
    → (let m1 = if here then raise m else m in
        let touched = some (if used && here then record m1 { last_used = now } else m1) in
        if here then map_option lower touched else touched)
      ≡ some (if used && here then record m { last_used = now } else m)
lower_touched used false now m low high = ground arith
lower_touched false true now m low high = ap some (lower-raise m low high)
lower_touched true true now m low high =
    ap some (lower-raise (record m { last_used = now }) low high)

module _ {W : Type 0} (o : Outside W) (c : Client W) (cfg : ControllerConfig) where
  -- The registry `r'` of an outcome is `r` but for the touch that goes with the response.
  abbrev pub Touched : String → Registry → Response × State o c cfg → Type 0
  Touched id r (resp, (p', (r', w'))) = r' ≡ touch_if (is_success resp) id (o.now w') r

  local_done-Touched :
      (id : String) (result : Option (Status × List ℕ)) (p : Proxy) (w : W) (r : Registry)
      → Touched id r (local_done o c cfg id result (p, w) r)
  unfolding local_done touch_if
  local_done-Touched id none p w r = refl
  local_done-Touched id (some (Status.status_ok, res)) p w r = refl
  local_done-Touched id (some (Status.status_accepted, res)) p w r = refl
  local_done-Touched id (some (Status.status_not_found, res)) p w r = refl
  local_done-Touched id (some (Status.status_error, res)) p w r = refl

  forward_done-Touched :
      (id : String) (reply : Reply) (p : Proxy) (w : W) (r : Registry)
      → Touched id r (forward_done o c cfg id reply w (p, r))
  unfolding forward_done touch_if
  forward_done-Touched id Reply.unreachable p w r = refl
  forward_done-Touched id Reply.cut_off p w r = refl
  forward_done-Touched id (Reply.answered status res) p w r = refl

  pub dispatch-Touched :
      (n : Node) (path : String) (body : List ℕ) (headers : Dict String) (p : Proxy) (r : Registry)
      (w : W)
      → Touched n.id r (dispatch o c cfg n path body headers (p, (r, w)))
  unfolding dispatch serve_local forward touch_if
  dispatch-Touched n path body headers p r w = elim (Bool-cases n.local) [
    | inl here ↦ rw here (local_done-Touched n.id _ _ _ r)
    | inr away ↦
        let (reply, w') =
          c.send (record { url = node_url n.address path; headers = headers; payload = body }) w in
        elim (Bool-cases (c.valid_url (node_url n.address path))) [
          | inl good ↦ rw (away, good) (forward_done-Touched n.id reply p w' r)
          | inr bad ↦ rw (away, bad) refl
        ]
  ]

  -- A call on a node that the registry holds, between `IncLoad` and `DecLoad`: every node is as it
  -- was but for the time of use of the one that served, if its load was in range.
  serve_on_net :
      (n : Node) (path : String) (body : List ℕ) (headers : Dict String) (p : Proxy) (r : Registry)
      (w : W) (j : String) (m : Node)
      → lookup j r.nodes ≡ some m
      → pos 0 ≤ℤ m.load
      → m.load <ℤ pos max_int
      → let (resp, (p', (r', w'))) = serve_on o c cfg n path body headers (p, (r, w)) in
        lookup j r'.nodes
        ≡ some (if is_success resp && str_eq n.id j then record m { last_used = o.now w' } else m)
  unfolding serve_on inc_load dec_load
  serve_on_net n path body headers p r w j m found low high =
      let (resp, (p', (r', w'))) = dispatch o c cfg n path body headers (p, (inc_load n.id r, w)) in
      let touched : r' ≡ touch_if (is_success resp) n.id (o.now w') (inc_load n.id r) =
        dispatch-Touched n path body headers p (inc_load n.id r) w in
      let m1 = if str_eq n.id j then raise m else m in
      let raised : lookup j (inc_load n.id r).nodes ≡ some m1 =
        rw (lookup-update_node n.id j raise r) (ground (arith, found)) in
      rw (lookup-update_node n.id j lower r') (
        rw touched (
          rw (lookup-touch_if (is_success resp) n.id j (o.now w') (inc_load n.id r) m1 raised)
            (lower_touched (is_success resp) (str_eq n.id j) (o.now w') m low high)))

  -- The net effect of a request on a node of the registry: the load is what it was.
  abbrev pub LoadKept : String → Node → Response × State o c cfg → Type 0
  LoadKept j m (resp, (p', (r', w'))) =
      (m' : Node) × (lookup j r'.nodes ≡ some m') × (m'.load ≡ m.load)

  after_wake-LoadKept :
      (n : Node) (path : String) (body : List ℕ) (headers : Dict String)
      (woken : Result WakeError (Unit {0})) (p : Proxy) (r : Registry) (w : W) (j : String)
      (m m1 : Node)
      → lookup j r.nodes ≡ some m1
      → m1.load ≡ m.load
      → pos 0 ≤ℤ m.load
      → m.load <ℤ pos max_int
      → LoadKept j m (after_wake o c cfg n path body headers woken (p, (r, w)))
  unfolding after_wake
  after_wake-LoadKept n path body headers (err e) p r w j m m1 found same low high =
      (m1, found, same)
  after_wake-LoadKept n path body headers (ok done) p r w j m m1 found same low high =
      let net = serve_on_net n path body headers p r w j m1 found (rw same low) (rw same high) in
      (_, net, ground (arith, same))

  serve_body-LoadKept :
      (attempts : ℕ) (path : String) (body : List ℕ) (headers : Dict String) (p : Proxy)
      (r : Registry) (w : W) (j : String) (m : Node)
      → lookup j r.nodes ≡ some m
      → pos 0 ≤ℤ m.load
      → m.load <ℤ pos max_int
      → LoadKept j m (serve_body o c cfg attempts path body headers (p, (r, w)))
  unfolding serve_body
  serve_body-LoadKept attempts path body headers p r w j m found low high =
      elim (Option-cases (pick_node (list_nodes r) cfg.load_threshold)) [
        | inl nobody ↦ rw (nobody, serve_body) (m, found, refl)
        | inr (n, picked) ↦
            let (woken, (r1, w1)) = activate_node o attempts n.id (r, w) in
            let (m1, found1, same) =
              Woken-load j m (activate_node-Woken o attempts n.id r w) found in
            rw (picked, serve_body)
              (after_wake-LoadKept n path body headers woken p r1 w1 j m m1 found1 same low high)
      ]

  -- Whatever a request meets on its way, a wake that fails, a container that does not answer, a
  -- panic, no node's load is changed by it, if the load was neither negative nor at the largest
  -- integer.
  pub serve-LoadKept :
      (attempts : ℕ) (q : Incoming) (p : Proxy) (r : Registry) (w : W) (j : String) (m : Node)
      → lookup j r.nodes ≡ some m
      → pos 0 ≤ℤ m.load
      → m.load <ℤ pos max_int
      → LoadKept j m (serve o c cfg attempts q (p, (r, w)))
  unfolding serve
  serve-LoadKept attempts q p r w j m found low high = elim (Option-cases q.body) [
    | inl unread ↦ rw (unread, serve) (m, found, refl)
    | inr (body, e) ↦
        rw (e, serve)
          (serve_body-LoadKept attempts (strip_slashes q.path) body q.headers p r w j m found low
            high)
  ]
