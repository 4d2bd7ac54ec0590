-- ===== src/Controller/Floor.antt =====
-- The controller keeps its minimum of serving nodes.
use yuliya_bachelorarbeit.Base.{
  ℕ, ◌+◌, ◌≤◌, ℤ, pos, ◌≤ℤ◌, true, String, List, [], ◌∷◌, Result, ok, err, ◌≡◌, arith, Option-cases,
  some,
}
use yuliya_bachelorarbeit.Base.Dict.{lookup}
use yuliya_bachelorarbeit.Node.{Node}
use yuliya_bachelorarbeit.Config.{ControllerConfig}
use yuliya_bachelorarbeit.Outside.{Outside}
use yuliya_bachelorarbeit.Node.{NodeStatus, sleeping}
use yuliya_bachelorarbeit.Base.{inl, inr}
use yuliya_bachelorarbeit.Registry.{with_status, Registry, list_nodes, set_status}
use yuliya_bachelorarbeit.Registry.Nodes.{count_nodes, count_nodes-update_le}
use yuliya_bachelorarbeit.Node.{is_dead, active}
use yuliya_bachelorarbeit.Registry.{values}
use yuliya_bachelorarbeit.Registry.Wake.{healthy}
use yuliya_bachelorarbeit.Registry.Nodes.{count_nodes-update_node}
use yuliya_bachelorarbeit.Registry.Snapshot.{
  WellFormed, Current, DistinctIds, Current-values, DistinctIds-values,
}
use yuliya_bachelorarbeit.Registry.Sweep.Recovery.{recover_one-Current}
use yuliya_bachelorarbeit.Registry.Sweep.{recover_one, recover_each, recover_dead, deactivate_node}
use yuliya_bachelorarbeit.Controller.{serves, is_excess, scale_one, scale_each, scale_down, tick}

-- How many active nodes of the registry execute functions.
abbrev pub serving : Registry → ℕ
serving = count_nodes serves

abbrev paid : {E : Type 0} → Result E (Unit {0}) → ℕ
paid (ok _) = 1
paid (err _) = 0

set_status_le :
    (id : String) (status : NodeStatus) (now : ℕ) (r : Registry)
    → serving r ≤ serving (set_status id status now r) + 1
unfolding set_status
set_status_le id status now r = count_nodes-update_le serves id (with_status status now) r

-- A dead node does not serve, so no status takes anything away.
set_status_dead :
    (id : String) (status : NodeStatus) (now : ℕ) (r : Registry) (n : Node)
    → lookup id r.nodes ≡ some n
    → is_dead n.status ≡ true
    → serving r ≤ serving (set_status id status now r)
unfolding set_status
set_status_dead id status now r n found gone =
    ground (arith, count_nodes-update_node serves id (with_status status now) r n found)

module _ {W : Type 0} (o : Outside W) where
  serving-deactivate_node :
      (id : String) (r : Registry) (w : W)
      → let (res, (r', w')) = deactivate_node o id (r, w) in serving r ≤ serving r' + paid res
  unfolding deactivate_node
  serving-deactivate_node id r w = elim (Option-cases (lookup id r.nodes)) [
    | inl gone ↦ rw (gone, deactivate_node) (omega arith)
    | inr (n, found) ↦
        rw (found, deactivate_node)
          (ground
            (arith, set_status_le id sleeping (o.now (o.power_off n.relay_uid n.channel w).1) r))
  ]

  module _ (cfg : ControllerConfig) where
    -- Between the floor and the registry: `count` never drops under `k`, nor rises over what serves.
    Covered : ℤ → ℤ × (Registry × W) → Type 0
    Covered k (count, (r, w)) = (k ≤ℤ count) × (count ≤ℤ pos (serving r))

    scale_one-Covered :
        (k : ℤ) (n : Node) (c : ℤ × (Registry × W))
        → k ≤ℤ cfg.min_active_nodes
        → Covered k c
        → Covered k (scale_one o cfg n c)
    unfolding Covered scale_one is_excess
    scale_one-Covered k n (count, (r, w)) low (h, g) =
        ground (arith, serving-deactivate_node n.id r w)

    scale_each-Covered :
        (k : ℤ) (ns : List Node) (c : ℤ × (Registry × W))
        → k ≤ℤ cfg.min_active_nodes
        → Covered k c
        → Covered k (scale_each o cfg ns c)
    unfolding scale_each
    scale_each-Covered k [] c low h = h
    scale_each-Covered k (n ∷ ns) c low h =
        scale_each-Covered k ns (scale_one o cfg n c) low (scale_one-Covered k n c low h)

  serving-recover_one :
      (cooldown : ℤ) (n : Node) (r : Registry) (w : W)
      → lookup n.id r.nodes ≡ some n
      → serving r ≤ serving (recover_one o cooldown n (r, w)).0
  unfolding recover_one
  serving-recover_one cooldown n r w found =
      let (alive, w') = healthy o n.manager_address w in
      ground (
        arith,
        set_status_dead n.id active (o.now w') r n found,
        set_status_dead n.id sleeping (o.now w') r n found,
      )

  serving-recover_each :
      (cooldown : ℤ) (ns : List Node) (s : Registry × W)
      → Current s.0.nodes ns
      → DistinctIds ns
      → serving s.0 ≤ serving (recover_each o cooldown ns s).0
  unfolding recover_each
  serving-recover_each cooldown [] s current apart = omega arith
  serving-recover_each cooldown (n ∷ ns) s current apart = omega (
    arith,
    serving-recover_one cooldown n s.0 s.1 current.0,
    serving-recover_each cooldown ns (recover_one o cooldown n s)
        (recover_one-Current o cooldown n ns s apart.0 current.1) apart.1,
  )

  -- A round of the controller never takes the number of serving nodes below its floor: whatever
  -- `k` is at most `MinActiveNodes` and at most the number of serving nodes before the round, that
  -- many serve after it.
  pub tick-floor :
      (cfg : ControllerConfig) (k : ℤ) (r : Registry) (w : W)
      → WellFormed r.nodes
      → k ≤ℤ cfg.min_active_nodes
      → k ≤ℤ pos (serving r)
      → k ≤ℤ pos (serving (tick o cfg (r, w)).0)
  unfolding tick scale_down Covered list_nodes
  tick-floor cfg k r w wf low have =
      let s = recover_dead o cfg.dead_retry (r, w) in
      let more =
        serving-recover_each cfg.dead_retry (values r.nodes) (r, w) (Current-values r.nodes wf)
          (DistinctIds-values r.nodes wf) in
      let covered =
        scale_each-Covered cfg k (list_nodes s.0) (pos (serving s.0), s) low
          (omega (arith, more), omega arith) in
      omega (arith, covered)
