-- ===== src/Front/Active.antt =====
-- A response that names a node comes from a node that is active.
use yuliya_bachelorarbeit.Base.{
  ℕ, true, false, ◌&&◌, String, str_eq, eq_iff, Option, none, some, List, if◌then◌else◌, Result, ok,
  err, ◌≡◌, refl, sym, ◌∙◌, ap, arith, Option-cases, Bool-cases, inl, inr, subst,
}
use yuliya_bachelorarbeit.Base.Dict.{Dict, lookup}
use yuliya_bachelorarbeit.Node.{Node, is_active, is_waking}
use yuliya_bachelorarbeit.Outside.{Outside}
use yuliya_bachelorarbeit.Proxy.{Proxy, Client, Reply, Status}
use yuliya_bachelorarbeit.Config.{ControllerConfig}
use yuliya_bachelorarbeit.Registry.{
  Registry, WakeError, WakeResult, inc_load, dec_load, raise, lower, list_nodes,
}
use yuliya_bachelorarbeit.Registry.Nodes.{lookup-update_node}
use yuliya_bachelorarbeit.Registry.Wake.Loads.{activate_node-Woken, Woken}
use yuliya_bachelorarbeit.Registry.Wake.Outcomes.{status_after}
use yuliya_bachelorarbeit.Front.{
  Response, answer, aborted, local_done, serve_local, forward_done, forward, dispatch, serve_on,
  after_wake, serve_body, serve, State, Incoming, node_url, local_response, wake_response,
  pick_node, strip_slashes, activate_node,
}
use yuliya_bachelorarbeit.Front.Loads.{lookup-touch_if, dispatch-Touched, is_success}

-- The node that a response names.
abbrev pub served_by : Response → Option String
served_by (answer status by body) = by
served_by aborted = none

lower-status : (m : Node) → (lower m).status ≡ m.status
lower-status m = ground arith

module _ {W : Type 0} (o : Outside W) (c : Client W) (cfg : ControllerConfig) where
  -- The node `id` is active in the registry of an outcome.
  abbrev pub UpAfter : String → Response × State o c cfg → Type 0
  UpAfter id (resp, (p', (r', w'))) =
      (m : Node) × (lookup id r'.nodes ≡ some m) × (is_active m.status ≡ true)

  abbrev Names : String → Response × State o c cfg → Type 0
  Names id out = (at : String) → served_by out.0 ≡ some at → at ≡ id

  local_done-Names :
      (id : String) (result : Option (Status × List ℕ)) (s : Proxy × W) (r : Registry)
      → Names id (local_done o c cfg id result s r)
  unfolding local_done local_response
  local_done-Names id none s r at e = absurd (ground (arith, e))
  local_done-Names id (some (Status.status_ok, res)) s r at e = ground (arith, e)
  local_done-Names id (some (Status.status_accepted, res)) s r at e = ground (arith, e)
  local_done-Names id (some (Status.status_not_found, res)) s r at e = ground (arith, e)
  local_done-Names id (some (Status.status_error, res)) s r at e = ground (arith, e)

  forward_done-Names :
      (id : String) (reply : Reply) (w : W) (s : Proxy × Registry)
      → Names id (forward_done o c cfg id reply w s)
  unfolding forward_done
  forward_done-Names id Reply.unreachable w s at e = ground (arith, e)
  forward_done-Names id Reply.cut_off w s at e = ground (arith, e)
  forward_done-Names id (Reply.answered status res) w s at e = ground (arith, e)

  dispatch-Names :
      (n : Node) (path : String) (body : List ℕ) (headers : Dict String) (p : Proxy) (r : Registry)
      (w : W)
      → Names n.id (dispatch o c cfg n path body headers (p, (r, w)))
  unfolding dispatch serve_local forward
  dispatch-Names n path body headers p r w = elim (Bool-cases n.local) [
    | inl here ↦ rw here (local_done-Names n.id _ _ r)
    | inr away ↦
        let (reply, w') =
          c.send (record { url = node_url n.address path; headers = headers; payload = body }) w in
        elim (Bool-cases (c.valid_url (node_url n.address path))) [
          | inl good ↦ rw (away, good) (forward_done-Names n.id reply w' (p, r))
          | inr bad ↦ rw (away, bad) (λ at e. ground (arith, e))
        ]
  ]

  -- A call on an active node leaves it active.
  serve_on-UpAfter :
      (n : Node) (path : String) (body : List ℕ) (headers : Dict String) (p : Proxy) (r : Registry)
      (w : W) (m : Node)
      → lookup n.id r.nodes ≡ some m
      → is_active m.status ≡ true
      → UpAfter n.id (serve_on o c cfg n path body headers (p, (r, w)))
  unfolding serve_on inc_load dec_load
  serve_on-UpAfter n path body headers p r w m found up =
      let (resp, (p', (r', w'))) = dispatch o c cfg n path body headers (p, (inc_load n.id r, w)) in
      let raised : lookup n.id (inc_load n.id r).nodes ≡ some (raise m) =
        rw (lookup-update_node n.id n.id raise r) (ground (arith, found, eq_iff n.id n.id)) in
      let m2 =
        if is_success resp && str_eq n.id n.id
        then record (raise m) { last_used = o.now w' }
        else raise m in
      let used : lookup n.id r'.nodes ≡ some m2 =
        rw (dispatch-Touched o c cfg n path body headers p (inc_load n.id r) w) (
          lookup-touch_if (is_success resp) n.id n.id (o.now w') (inc_load n.id r) (raise m)
            raised) in
      let lowered : lookup n.id (dec_load n.id r').nodes ≡ some (lower m2) =
        rw (lookup-update_node n.id n.id lower r') (ground (arith, used, eq_iff n.id n.id)) in
      (lower m2, lowered, ground (arith, lower-status m2, up))

  serve_on-Names :
      (n : Node) (path : String) (body : List ℕ) (headers : Dict String) (p : Proxy) (r : Registry)
      (w : W)
      → Names n.id (serve_on o c cfg n path body headers (p, (r, w)))
  unfolding serve_on
  serve_on-Names n path body headers p r w =
      dispatch-Names n path body headers p (inc_load n.id r) w

  after_wake-UpAfter :
      (n : Node) (path : String) (body : List ℕ) (headers : Dict String)
      (woken : Result WakeError (Unit {0})) (p : Proxy) (r : Registry) (w : W) (id : String)
      → (woken ≡ ok tt → (m : Node) × (lookup n.id r.nodes ≡ some m) × (is_active m.status ≡ true))
      → served_by (after_wake o c cfg n path body headers woken (p, (r, w))).0 ≡ some id
      → UpAfter id (after_wake o c cfg n path body headers woken (p, (r, w)))
  unfolding after_wake wake_response
  after_wake-UpAfter n path body headers (err e) p r w id up named = absurd (ground (arith, named))
  after_wake-UpAfter n path body headers (ok tt) p r w id up named =
      let (m, found, active) = up refl in
      subst (λ at. UpAfter at (serve_on o c cfg n path body headers (p, (r, w))))
        (sym (serve_on-Names n path body headers p r w id named))
        (serve_on-UpAfter n path body headers p r w m found active)

  -- A node that an activation reports as active is so, if no node was waking before.
  Woken-active :
      {id : String} {r r' : Registry} {res : WakeResult} {t : ℕ}
      → ((m : Node) → lookup id r.nodes ≡ some m → is_waking m.status ≡ false)
      → Woken id r res t r'
      → res ≡ ok tt
      → (m : Node) × (lookup id r'.nodes ≡ some m) × (is_active m.status ≡ true)
  Woken-active {id} quiet (Woken.still same up) e =
      let (m, found, how) = up e in
      (
        m,
        ap (λ r. lookup id r.nodes) same ∙ found,
        elim how [ inl active ↦ active | inr waking ↦ absurd (cc (quiet m found, waking)) ],
      )
  Woken-active quiet (Woken.settled n found s) e =
      (_, s.node, ap (λ res. is_active (status_after res)) e)

  serve_body-UpAfter :
      (attempts : ℕ) (path : String) (body : List ℕ) (headers : Dict String) (p : Proxy)
      (r : Registry) (w : W) (id : String)
      → ((j : String) (m : Node) → lookup j r.nodes ≡ some m → is_waking m.status ≡ false)
      → served_by (serve_body o c cfg attempts path body headers (p, (r, w))).0 ≡ some id
      → UpAfter id (serve_body o c cfg attempts path body headers (p, (r, w)))
  unfolding serve_body
  serve_body-UpAfter attempts path body headers p r w id quiet =
      elim (Option-cases (pick_node (list_nodes r) cfg.load_threshold)) [
        | inl nobody ↦ rw (nobody, serve_body) (λ named. absurd (ground (arith, named)))
        | inr (n, picked) ↦
            let (woken, (r1, w1)) = activate_node o attempts n.id (r, w) in
            rw (picked, serve_body)
              (after_wake-UpAfter n path body headers woken p r1 w1 id
                (Woken-active (quiet n.id) (activate_node-Woken o attempts n.id r w)))
      ]

  -- A response that names a node, on whatever path it comes about, names one that is active in the
  -- registry when the handler returns, if no node was waking when the request came.
  pub serve-UpAfter :
      (attempts : ℕ) (q : Incoming) (p : Proxy) (r : Registry) (w : W) (id : String)
      → ((j : String) (m : Node) → lookup j r.nodes ≡ some m → is_waking m.status ≡ false)
      → served_by (serve o c cfg attempts q (p, (r, w))).0 ≡ some id
      → UpAfter id (serve o c cfg attempts q (p, (r, w)))
  unfolding serve
  serve-UpAfter attempts q p r w id quiet = elim (Option-cases q.body) [
    | inl unread ↦ rw (unread, serve) (λ named. absurd (ground (arith, named)))
    | inr (body, e) ↦
        rw (e, serve)
          (serve_body-UpAfter attempts (strip_slashes q.path) body q.headers p r w id quiet)
  ]
