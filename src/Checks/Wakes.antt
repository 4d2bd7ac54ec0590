-- ===== src/Checks/Wakes.antt =====
-- Waking, recovery and scaling of a small cluster.
use yuliya_bachelorarbeit.Base.{pos, ◌≤ℤ◌, some, [], ◌∷◌, ◌≡◌, refl, err, inl, arith}
use yuliya_bachelorarbeit.Base.Dict.{lookup}
use yuliya_bachelorarbeit.Node.{Node}
use yuliya_bachelorarbeit.Functions.{all}
use yuliya_bachelorarbeit.Config.{default_controller_config}
use yuliya_bachelorarbeit.Registry.{list_nodes, Registry, not_ready}
use yuliya_bachelorarbeit.Registry.Snapshot.{WellFormed}
use yuliya_bachelorarbeit.Registry.Wake.{activate_node}
use yuliya_bachelorarbeit.Registry.Wake.Settled.{Settled, activate_node-Settled}
use yuliya_bachelorarbeit.Registry.Wake.Deployed.{ServesAll, activate_node-ServesAll}
use yuliya_bachelorarbeit.Registry.Sweep.{recover_dead}
use yuliya_bachelorarbeit.Registry.Sweep.Recovery.{Recovered, recover_dead-Recovered}
use yuliya_bachelorarbeit.Controller.{tick}
use yuliya_bachelorarbeit.Controller.Floor.{serving, tick-floor}
use yuliya_bachelorarbeit.Checks.Samples.{
  edge_1, idle_2, dead_2, network, silence, Serves, network-Deploys, cluster,
}

unanswered :
    (activate_node silence 3 "edge-1" (cluster, [])).0 ≡ err (not_ready "edge-1" "10.0.0.2:8080")
unfolding activate_node lookup
unanswered = refl

activate_node-Settled_example :
    Settled "edge-1" edge_1 cluster
      (activate_node network 3 "edge-1" (cluster, [])).0
      100
      (activate_node network 3 "edge-1" (cluster, [])).1.0
unfolding lookup
activate_node-Settled_example =
    activate_node-Settled network 3 "edge-1" cluster [] edge_1 refl refl refl

activate_node-ServesAll_example :
    ServesAll network Serves network-Deploys
      (activate_node network 3 "edge-1" (cluster, [])).1.1
      "10.0.0.2:8080"
      (all cluster.funcs)
unfolding activate_node lookup all
activate_node-ServesAll_example =
    activate_node-ServesAll network Serves network-Deploys 3 "edge-1" cluster [] edge_1 refl refl
      refl (tt, tt) refl

abbrev damaged : Registry
damaged = record cluster { nodes = ("edge-2", dead_2) ∷ [] }

damaged-WellFormed : WellFormed damaged.nodes
damaged-WellFormed = record { keyed = (refl, tt); distinct = (tt, tt) }

recover_dead-Recovered_example :
    (n' : Node) × (lookup "edge-2" (recover_dead network (pos 10) (damaged, [])).0.nodes ≡ some n')
    × Recovered network (pos 10) dead_2 n'
unfolding list_nodes
recover_dead-Recovered_example =
    recover_dead-Recovered network (pos 10) damaged [] dead_2 damaged-WellFormed (inl refl)

abbrev two_idle : Registry
two_idle = record cluster { nodes = ("edge-2", idle_2) ∷ [] }

two_idle-WellFormed : WellFormed two_idle.nodes
two_idle-WellFormed = record { keyed = (refl, tt); distinct = (tt, tt) }

tick-floor_example :
    pos 1 ≤ℤ pos (serving (tick network default_controller_config (two_idle, [])).0)
tick-floor_example =
    tick-floor network default_controller_config (pos 1) two_idle [] two_idle-WellFormed
      (omega arith) (omega arith)
