-- ===== src/Registry/Sweep.antt =====
-- The methods of tinyFaaS-ext/pkg/cluster/registry.go that go over the nodes of a snapshot, and
-- `DeactivateNode`. The goroutines of `PrewarmAll` and of the broadcasts run one after the other.
pub mod Recovery
pub mod Power
use yuliya_bachelorarbeit.Base.{
  ℕ, ℤ, leb_ℤ, since, not, ◌||◌, Bool, true, false, String, Option, none, some, List, [], ◌∷◌,
  if◌then◌else◌, Result, ok, err,
}
use yuliya_bachelorarbeit.Base.Dict.{lookup}
use yuliya_bachelorarbeit.Node.{Node, is_dead, is_sleeping, is_active, active, sleeping}
use yuliya_bachelorarbeit.Functions.{FunctionDef}
use yuliya_bachelorarbeit.Relay.{RelayError}
use yuliya_bachelorarbeit.Outside.{Outside}
use yuliya_bachelorarbeit.Registry.{Registry, list_nodes, set_status}
use yuliya_bachelorarbeit.Registry.Wake.{healthy, activate_node, deploy_function, delete_function}

-- The errors of `DeactivateNode`.
pub data DeactivateError : Type 0 where
  unknown_node local_node : String → DeactivateError
  power_off_failed : String → RelayError → DeactivateError

module _ {W : Type 0} (o : Outside W) where
  -- One round of `RecoverDead`, on a node of the snapshot.
  unfoldable pub recover_one : ℤ → Node → Registry × W → Registry × W
  unfolding healthy set_status
  recover_one cooldown n (r, w) =
      if not (is_dead n.status)
      then (r, w)
      else (let (alive, w') = healthy o n.manager_address w in
          if alive
          then (set_status n.id active (o.now w') r, w')
          else if leb_ℤ cooldown (since (o.now w') n.dead_since)
          then (set_status n.id sleeping (o.now w') r, w')
          else (r, w'))

  unfoldable pub recover_each : ℤ → List Node → Registry × W → Registry × W
  unfolding recover_one
  recover_each cooldown [] s = s
  recover_each cooldown (n ∷ ns) s = recover_each cooldown ns (recover_one cooldown n s)

  unfoldable pub recover_dead : ℤ → Registry × W → Registry × W
  unfolding recover_each list_nodes
  recover_dead cooldown (r, w) = recover_each cooldown (list_nodes r) (r, w)

  unfoldable pub deactivate_node :
      String → Registry × W → Result DeactivateError (Unit {0}) × (Registry × W)
  unfolding lookup set_status
  deactivate_node id (r, w) = elim (lookup id r.nodes) [
    | none ↦ (err (unknown_node id), (r, w))
    | some n ↦
        if n.local
        then (err (local_node id), (r, w))
        else (let (off, w') = o.power_off n.relay_uid n.channel w in
            elim off [
              | err e ↦ (err (power_off_failed id e), (r, w'))
              | ok _ ↦ (ok tt, (set_status id sleeping (o.now w') r, w'))
            ])
  ]

  -- One round of `EnforceSleeping`; an error is logged only.
  pub enforce_one : Node → W → W
  enforce_one n w =
      if n.local || not (is_sleeping n.status) then w else (o.power_off n.relay_uid n.channel w).1

  pub enforce_each : List Node → W → W
  unfolding enforce_one
  enforce_each [] w = w
  enforce_each (n ∷ ns) w = enforce_each ns (enforce_one n w)

  unfoldable pub enforce_sleeping : Registry × W → Registry × W
  unfolding enforce_each list_nodes
  enforce_sleeping (r, w) = (r, enforce_each (list_nodes r) w)

  prewarm_each : ℕ → List Node → Registry × W → Registry × W
  unfolding activate_node
  prewarm_each attempts [] s = s
  prewarm_each attempts (n ∷ ns) s =
      let s' = if n.local then s else (activate_node o attempts n.id s).1 in
      prewarm_each attempts ns s'

  -- `PrewarmAll`; the count at its end is only logged.
  unfoldable pub prewarm_all : ℕ → Registry × W → Registry × W
  unfolding prewarm_each list_nodes
  prewarm_all attempts (r, w) = prewarm_each attempts (list_nodes r) (r, w)

  broadcast_each : String → FunctionDef → List Node → W → W
  unfolding deploy_function
  broadcast_each name def [] w = w
  broadcast_each name def (n ∷ ns) w =
      let w' =
        if n.local || not (is_active n.status)
        then w
        else (deploy_function o n.manager_address name def w).1 in
      broadcast_each name def ns w'

  unfoldable pub broadcast_function : String → FunctionDef → Registry × W → Registry × W
  unfolding broadcast_each list_nodes
  broadcast_function name def (r, w) = (r, broadcast_each name def (list_nodes r) w)

  broadcast_delete_each : String → List Node → W → W
  unfolding delete_function
  broadcast_delete_each name [] w = w
  broadcast_delete_each name (n ∷ ns) w =
      let w' =
        if n.local || not (is_active n.status)
        then w
        else (delete_function o n.manager_address name w).1 in
      broadcast_delete_each name ns w'

  unfoldable pub broadcast_delete : String → Registry × W → Registry × W
  unfolding broadcast_delete_each list_nodes
  broadcast_delete name (r, w) = (r, broadcast_delete_each name (list_nodes r) w)
