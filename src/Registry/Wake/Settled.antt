-- ===== src/Registry/Wake/Settled.antt =====
-- `ActivateNode` as a whole, with nothing else running.
use yuliya_bachelorarbeit.Base.{
  ℕ, true, false, String, eq_iff, none, some, [], ◌∷◌, ◌++◌, ok, ◌≡◌, ◌≢◌, arith, get_elem?,
  get_elem?-set_last, length, Bool-cases, inl, inr, ap,
}
use yuliya_bachelorarbeit.Base.Dict.{lookup, lookup-insert, lookup-remove, insert}
use yuliya_bachelorarbeit.Node.{Node, is_active, is_waking, waking}
use yuliya_bachelorarbeit.Outside.{Outside}
use yuliya_bachelorarbeit.Registry.{Registry, WakeResult, set_status, with_status}
use yuliya_bachelorarbeit.Registry.Nodes.{lookup-set_status, set_status-SameRest}
use yuliya_bachelorarbeit.Registry.Wake.{
  start_activation, lead, unregister, close_signal, wake_node, activate_node,
}
use yuliya_bachelorarbeit.Registry.Wake.Outcomes.{status_after, wake_node-set_status}

-- The registry after an attempt on node `id`, which was `n`, that came to `res` at time `t`.
pub record Settled (id : String) (n : Node) (r : Registry) (res : WakeResult) (t : ℕ)
    (r' : Registry) : Type 0 where
  pub node : lookup id r'.nodes ≡ some (with_status (status_after res) t n)
  pub others : (j : String) → id ≢ j → lookup j r'.nodes ≡ lookup j r.nodes
  pub released : lookup id r'.activations ≡ none
  pub signalled : get_elem? r'.signals (length r.signals) ≡ some (some res)
  pub funcs : r'.funcs ≡ r.funcs

abbrev pub registered : String → Node → Registry → Registry
registered id n r = record r {
  nodes = insert id (record n { status = waking }) r.nodes;
  activations = insert id (length r.signals) r.activations;
  signals = r.signals ++ none ∷ [];
}

Settled-close :
    (id : String) (n : Node) (r : Registry) (res : WakeResult) (t : ℕ)
    → Settled id n r res t (
        close_signal
          (length r.signals)
          res
          (unregister id (set_status id (status_after res) t (registered id n r))))
unfolding close_signal unregister
Settled-close id n r res t =
    let rest = set_status-SameRest id (status_after res) t (registered id n r) in
    record {
      node = rw (lookup-set_status id id (status_after res) t (registered id n r)) (
          ground (arith, eq_iff id id, lookup-insert id id (record n { status = waking }) r.nodes));
      others = λ j ne. rw (lookup-set_status id j (status_after res) t (registered id n r)) (
          ground
            (arith, eq_iff id j, ne, lookup-insert id j (record n { status = waking }) r.nodes));
      released =
          rw rest.activations
            (ground (arith, eq_iff id id, lookup-remove id id (registered id n r).activations));
      signalled = rw rest.signals (get_elem?-set_last r.signals none (some res));
      funcs = rest.funcs;
    }

pub start_activation-lead :
    (id : String) (r : Registry) (n : Node)
    → lookup id r.nodes ≡ some n
    → is_active n.status ≡ false
    → is_waking n.status ≡ false
    → start_activation id r ≡ lead (length r.signals) n (registered id n r)
unfolding start_activation
start_activation-lead id r n found idle fresh = rw (found, start_activation) (rw (idle, fresh))

module _ {W : Type 0} (o : Outside W) where
  -- An attempt on a node that is neither active nor waking settles it: the node has the status that
  -- goes with the result, no other node changed, its activation is gone from the registry, and the
  -- activation's signal holds the result.
  pub activate_node-Settled :
      (attempts : ℕ) (id : String) (r : Registry) (w : W) (n : Node)
      → lookup id r.nodes ≡ some n
      → is_active n.status ≡ false
      → is_waking n.status ≡ false
      → let (res, (r', w')) = activate_node o attempts id (r, w) in Settled id n r res (o.now w') r'
  unfolding activate_node
  activate_node-Settled attempts id r w n found idle fresh =
      let (res, (r', w')) =
        wake_node o attempts id n.relay_uid n.channel n.manager_address (registered id n r, w) in
      let settles : r' ≡ set_status id (status_after res) (o.now w') (registered id n r) =
        wake_node-set_status o attempts id n.relay_uid n.channel n.manager_address
          (registered id n r) w in
      rw (start_activation-lead id r n found idle fresh, activate_node)
        (rw settles (Settled-close id n r res (o.now w')))

  activate_node_active :
      (attempts : ℕ) (id : String) (r : Registry) (w : W) (n : Node)
      → lookup id r.nodes ≡ some n
      → is_active n.status ≡ true
      → activate_node o attempts id (r, w) ≡ (ok tt, (r, w))
  unfolding activate_node start_activation
  activate_node_active attempts id r w n found up =
      rw (found, start_activation, activate_node) (rw up)

  -- A second activation of a node that an attempt has made active does nothing: no relay is
  -- switched, no call goes out, and the registry stays as it is.
  pub activate_node_twice :
      (attempts : ℕ) (id : String) (r : Registry) (w : W) (n : Node)
      → lookup id r.nodes ≡ some n
      → is_waking n.status ≡ false
      → (activate_node o attempts id (r, w)).0 ≡ ok tt
      → activate_node o attempts id (activate_node o attempts id (r, w)).1
        ≡ (ok tt, (activate_node o attempts id (r, w)).1)
  activate_node_twice attempts id r w n found fresh e = elim (Bool-cases (is_active n.status)) [
    | inl up ↦
        rw (activate_node_active attempts id r w n found up)
          (activate_node_active attempts id r w n found up)
    | inr idle ↦
        let s = (activate_node o attempts id (r, w)).1 in
        let settled = activate_node-Settled attempts id r w n found idle fresh in
        activate_node_active attempts id s.0 s.1 _ settled.node
          (ap (λ res. is_active (status_after res)) e)
  ]
