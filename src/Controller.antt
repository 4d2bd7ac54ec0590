-- ===== src/Controller.antt =====
-- tinyFaaS-ext/pkg/cluster/controller.go: the loop that powers idle nodes off. One round is a
-- function of the registry and the world; requests do not interleave with it here.
pub mod Floor
use yuliya_bachelorarbeit.Base.{
  ℕ, zero, suc, ℤ, pos, ltb_ℤ, leb_ℤ, pred_ℤ, since, not, ◌&&◌, Bool, true, false, List, [], ◌∷◌,
  if◌then◌else◌, Result, ok, err, count_if,
}
use yuliya_bachelorarbeit.Node.{Node, is_active}
use yuliya_bachelorarbeit.Config.{ControllerConfig}
use yuliya_bachelorarbeit.Outside.{Outside}
use yuliya_bachelorarbeit.Registry.{Registry, list_nodes}
use yuliya_bachelorarbeit.Registry.Sweep.{recover_dead, deactivate_node}

-- An active node that executes functions.
abbrev pub serves : Node → Bool
serves n = is_active n.status && not n.dispatch_only

-- The guards of the loop, in the order of the source: whether a node of the snapshot is powered
-- off, with `count` nodes counted as active.
unfoldable pub is_excess : ControllerConfig → ℤ → ℕ → Node → Bool
is_excess cfg count now n =
    if n.local
    then false
    else if not (is_active n.status)
    then false
    else if ltb_ℤ (pos 0) n.load
    then false
    else if leb_ℤ count cfg.min_active_nodes
    then false
    else not (ltb_ℤ (since now n.last_used) cfg.idle_timeout)

module _ {W : Type 0} (o : Outside W) (cfg : ControllerConfig) where
  unfoldable pub scale_one : Node → ℤ × (Registry × W) → ℤ × (Registry × W)
  unfolding is_excess
  scale_one n (count, (r, w)) =
      if is_excess cfg count (o.now w) n
      then (let (res, s) = deactivate_node o n.id (r, w) in
          elim res [ err _ ↦ (count, s) | ok _ ↦ (pred_ℤ count, s) ])
      else (count, (r, w))

  unfoldable pub scale_each : List Node → ℤ × (Registry × W) → ℤ × (Registry × W)
  unfolding scale_one
  scale_each [] c = c
  scale_each (n ∷ ns) c = scale_each ns (scale_one n c)

  unfoldable pub scale_down : Registry × W → Registry × W
  unfolding scale_each list_nodes
  scale_down s = let nodes = list_nodes s.0 in (scale_each nodes (pos (count_if serves nodes), s)).1

  -- The body of the loop behind its sleep.
  unfoldable pub tick : Registry × W → Registry × W
  unfolding scale_down recover_dead
  tick s = scale_down (recover_dead o cfg.dead_retry s)

  rounds_of : ℕ → Registry × W → Registry × W
  unfolding tick
  rounds_of zero s = s
  rounds_of (suc rounds) s = rounds_of rounds (tick (s.0, o.sleep cfg.check_interval s.1))

  -- `StartController`, as far as so many rounds of its loop go.
  unfoldable pub start_controller : ℕ → Registry × W → Registry × W
  unfolding rounds_of
  start_controller rounds s = if cfg.enabled then rounds_of rounds s else s
